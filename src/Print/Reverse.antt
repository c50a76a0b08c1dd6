-- ===== src/Print/Reverse.antt =====
-- The reversal in place of `fmt_dec` and `fmt_hex`.
use Prim.Native.Nat.{◌*◌}
use jeos.Prelude.{
  ℕ, zero, suc, ◌+◌, ◌-◌, ◌/◌, ◌≤◌, ◌<◌, ◌≡◌, refl, ap, ap₂, sym, ◌∙◌, ◌&&◌, ◌||◌, [], ◌∷◌, ◌++◌,
  length, get_or, set, length-set, get_or-set_self, get_or-set_ne, ltb, leb, ◌==◌, if◌then◌else◌,
  arith,
}
use jeos.Print.{Bytes, exchange, exchanges, reverse_in_place, put_backwards}

get_or-set :
    (xs : Bytes) (i v j : ℕ)
    → i < length xs
    → get_or (set xs i v) j 0 ≡ (if i == j then v else get_or xs j 0)
get_or-set xs i v j h =
    ground (arith, get_or-set_self xs i v 0 h, get_or-set_ne xs {i = i} {j = j} v 0)

length-exchange : (i j : ℕ) (buf : Bytes) → length (exchange i j buf) ≡ length buf
unfolding exchange
length-exchange i j buf =
    length-set (set buf j (get_or buf (i - 1 - j) 0)) (i - 1 - j) (get_or buf j 0)
    ∙ length-set buf j (get_or buf (i - 1 - j) 0)

length-exchanges : (k i j : ℕ) (buf : Bytes) → length (exchanges k i j buf) ≡ length buf
unfolding exchanges
length-exchanges zero i j buf = refl
length-exchanges (suc k) i j buf =
    length-exchanges k i (j + 1) (exchange i j buf) ∙ length-exchange i j buf

get_or-exchange :
    (i j : ℕ) (buf : Bytes) (p : ℕ)
    → i ≤ length buf
    → j < i
    → get_or (exchange i j buf) p 0
      ≡ (if p == j || (p == i - 1 - j) then get_or buf (i - 1 - p) 0 else get_or buf p 0)
unfolding exchange
get_or-exchange i j buf p fits inside = ground (
  arith,
  length-set buf j (get_or buf (i - 1 - j) 0),
  get_or-set (set buf j (get_or buf (i - 1 - j) 0)) (i - 1 - j) (get_or buf j 0) p,
  get_or-set buf j (get_or buf (i - 1 - j) 0) p (omega arith),
)

get_or-exchanges :
    (k i j : ℕ) (buf : Bytes) (p : ℕ)
    → i ≤ length buf
    → (j + k) * 2 ≤ i
    → p < i
    → get_or (exchanges k i j buf) p 0 ≡ (
        if (leb j p && ltb p (j + k)) || (leb j (i - 1 - p) && ltb (i - 1 - p) (j + k))
        then get_or buf (i - 1 - p) 0
        else get_or buf p 0)
unfolding exchanges
get_or-exchanges zero i j buf p fits half inside = ground arith
get_or-exchanges (suc k) i j buf p fits half inside =
    let back : i - 1 - (i - 1 - p) ≡ p = omega arith in
    ground (
      arith,
      back,
      length-exchange i j buf,
      get_or-exchanges k i (j + 1) (exchange i j buf) p,
      get_or-exchange i j buf p fits,
      get_or-exchange i j buf (i - 1 - p) fits,
    )

length-put_backwards : (i : ℕ) (buf : Bytes) → length (put_backwards i buf) ≡ i
unfolding put_backwards
length-put_backwards zero buf = refl
length-put_backwards (suc i) buf = ap suc (length-put_backwards i buf)

get_or-put_backwards :
    (i : ℕ) (buf : Bytes) (p : ℕ)
    → p < i
    → get_or (put_backwards i buf) p 0 ≡ get_or buf (i - 1 - p) 0
unfolding put_backwards
get_or-put_backwards zero buf p h = absurd (omega arith)
get_or-put_backwards (suc i) buf zero h = ap (λ k. get_or buf k 0) (omega arith)
get_or-put_backwards (suc i) buf (suc p) h =
    get_or-put_backwards i buf p (omega arith) ∙ ap (λ k. get_or buf k 0) (omega arith)

pub length-reverse_in_place : (buf : Bytes) → length (reverse_in_place buf) ≡ length buf
unfolding reverse_in_place
length-reverse_in_place buf = length-exchanges (length buf / 2) (length buf) 0 buf

-- Lists of one length that read alike are equal.
same_reads :
    (xs ys : Bytes)
    → length xs ≡ length ys
    → ((p : ℕ) → p < length xs → get_or xs p 0 ≡ get_or ys p 0)
    → xs ≡ ys
same_reads [] [] e h = refl
same_reads [] (y ∷ ys) e h = absurd (omega arith)
same_reads (x ∷ xs) [] e h = absurd (omega arith)
same_reads (x ∷ xs) (y ∷ ys) e h =
    ap₂ ◌∷◌ (h 0 (omega arith)) (same_reads xs ys (omega arith) (λ p lt. h (suc p) (omega arith)))

-- The loop that exchanges bytes in place leaves what reading the buffer backwards gives.
pub reverse_in_place-put_backwards :
    (buf : Bytes) → reverse_in_place buf ≡ put_backwards (length buf) buf
unfolding reverse_in_place
reverse_in_place-put_backwards buf =
    let n = length buf in
    same_reads (reverse_in_place buf) (put_backwards n buf)
      (length-reverse_in_place buf ∙ sym (length-put_backwards n buf))
      λ p h. ground (
        arith,
        length-exchanges (n / 2) n 0 buf,
        get_or-exchanges (n / 2) n 0 buf p,
        get_or-put_backwards n buf p,
      )

-- The first byte of a buffer is read last.
pub put_backwards-cons :
    (i x : ℕ) (buf : Bytes) → put_backwards (suc i) (x ∷ buf) ≡ put_backwards i buf ++ (x ∷ [])
unfolding put_backwards
put_backwards-cons zero x buf = refl
put_backwards-cons (suc i) x buf = ap (λ r. get_or buf i 0 ∷ r) (put_backwards-cons i x buf)
