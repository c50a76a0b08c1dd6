-- ===== src/Ring/History.antt =====
-- The ring as a bounded history, by `ring_putc` of kernel/ring.h: the bytes put into it that are not
-- yet read, in the order of the writes.

use mathlib.Core.List.{append-nil, append_assoc}
use jeos.Prelude.{
  ℕ, zero, suc, ◌+◌, ◌-◌, ◌≤◌, ◌<◌, ◌≡◌, sym, ap, ap₂, ◌∙◌, List, [], ◌∷◌, ◌++◌, ltb, ltb→lt,
  Bool-cases, inl, inr, length, get_or, set, take, drop, length-append, drop-append, drop-drop,
  drop-get_or, length-drop, arith,
}
use jeos.Prelude.Circular.{next, advance, window, length-window, window-set}
use jeos.Ring.{Ring, putc, oldest, put_all}
use jeos.Ring.Inv.{IsValid, contents, putc-IsValid, cap-putc}

-- The last `n` of the bytes `xs`.
abbrev pub keep_last : ℕ → List ℕ → List ℕ
keep_last n xs = drop (length xs - n) xs

pub keep_last_append :
    (n : ℕ) (xs ys : List ℕ) → keep_last n (keep_last n xs ++ ys) ≡ keep_last n (xs ++ ys)
keep_last_append n xs ys =
    let k = length xs - n in
    let joined : drop k xs ++ ys ≡ drop k (xs ++ ys) = sym (drop-append k xs ys (omega arith)) in
    rw joined (
      drop-drop (length (drop k (xs ++ ys)) - n) k (xs ++ ys)
      ∙ ap (λ m. drop m (xs ++ ys))
          (omega (arith, length-drop k (xs ++ ys), length-append {0} xs ys)))

pub keep_last_lem : (n k : ℕ) (xs : List ℕ) → length xs - n ≡ k → keep_last n xs ≡ drop k xs
keep_last_lem n k xs e = ap (λ m. drop m xs) e

pub length-contents : (r : Ring) → length (contents r) ≡ r.len
unfolding contents
length-contents r = length-window r.buf r.cap (oldest r) r.len

pub oldest-lt : (r : Ring) → IsValid r → oldest r < r.cap
unfolding oldest
oldest-lt r v = ground arith

head-advance : (r : Ring) → IsValid r → r.head ≡ advance r.cap (oldest r) r.len
unfolding oldest
head-advance r v = ground arith

-- While there is room, the window grows by the new byte.
contents-putc_room :
    (r : Ring) (c : ℕ) → IsValid r → r.len < r.cap → contents (putc r c) ≡ contents r ++ (c ∷ [])
unfolding contents putc
contents-putc_room r c v room =
    ap₂ (λ i n. window (set r.buf r.head c) r.cap i n) (ground arith) (ground arith)
    ∙ window-set r.buf r.cap c r.len (oldest r) r.head v.storage (oldest-lt r v) room
        (head-advance r v)

-- Without its oldest byte, a full ring is the window behind it.
window_tail :
    (r : Ring)
    → IsValid r
    → r.len ≡ r.cap
    → window r.buf r.cap (next r.cap r.head) (r.cap - 1) ≡ drop 1 (contents r)
unfolding contents window oldest
window_tail r v full = ap (drop 1) {x = window r.buf r.cap r.head (suc (r.cap - 1))} (
    ap₂ (λ i n. window r.buf r.cap i n) {x = r.head} {y = oldest r} {u = suc (r.cap - 1)}
      {v = r.len} (ground arith) (omega arith))

-- In a full ring the oldest byte lies where the new one goes.
contents-putc_full :
    (r : Ring) (c : ℕ)
    → IsValid r
    → r.len ≡ r.cap
    → contents (putc r c) ≡ drop 1 (contents r) ++ (c ∷ [])
unfolding contents putc
contents-putc_full r c v full =
    ap₂ (λ i n. window (set r.buf r.head c) r.cap i n) (ground arith) (ground arith)
    ∙ window-set r.buf r.cap c (r.cap - 1) (next r.cap r.head) r.head v.storage (ground arith)
        (omega arith) (ground arith)
    ∙ ap (λ xs. xs ++ (c ∷ [])) (window_tail r v full)

pub contents-putc :
    (r : Ring) (c : ℕ) → IsValid r → contents (putc r c) ≡ keep_last r.cap (contents r ++ (c ∷ []))
contents-putc r c v = elim (Bool-cases (ltb r.len r.cap)) [
  | inl room ↦
      contents-putc_room r c v (ltb→lt r.len r.cap room)
      ∙ sym (
          keep_last_lem r.cap 0 (contents r ++ (c ∷ []))
            (omega (arith, ltb→lt r.len r.cap room, counted)))
  | inr full ↦
      let filled : r.len ≡ r.cap = ground arith in
      contents-putc_full r c v filled
      ∙ sym (drop-append 1 (contents r) (c ∷ []) (omega (arith, length-contents r)))
      ∙ sym (keep_last_lem r.cap 1 (contents r ++ (c ∷ [])) (omega (arith, counted)))
]
  where
    counted : length (contents r ++ (c ∷ [])) ≡ r.len + 1
    counted = omega (arith, length-contents r, length-append {0} (contents r) (c ∷ []))

-- `ring_putc` in turn on the `k` bytes from index `i` on.
pub contents-put_all :
    (k i : ℕ) (src : List ℕ) (r : Ring)
    → IsValid r
    → i + k ≤ length src
    → contents (put_all k i src r) ≡ keep_last r.cap (contents r ++ take k (drop i src))
unfolding put_all
contents-put_all zero i src r v h =
    rw append-nil
      (sym (keep_last_lem r.cap 0 (contents r) (omega (arith, length-contents r, v.len_in))))
contents-put_all (suc k) i src r v h =
    let c = get_or src i 0 in
    let rest = take k (drop (i + 1) src) in
    contents-put_all k (i + 1) src (putc r c) (putc-IsValid r c v) (omega arith)
    ∙ ap₂ (λ n xs. keep_last n (xs ++ rest)) (cap-putc r c) (contents-putc r c v)
    ∙ keep_last_append r.cap (contents r ++ (c ∷ [])) rest
    ∙ ap (keep_last r.cap) (
        append_assoc (contents r) (c ∷ []) rest
        ∙ ap (λ xs. contents r ++ take (suc k) xs) (sym (drop-get_or i src 0 (omega arith))))
