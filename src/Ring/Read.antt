-- ===== src/Ring/Read.antt =====
-- `ring_read` against the bounded history.

use jeos.Prelude.{
  ℕ, zero, suc, ◌+◌, ◌-◌, ◌^◌, ◌≤◌, ◌<◌, ◌≡◌, refl, sym, ap, ap₂, ◌∙◌, List, ◌∷◌, ◌++◌, ltb,
  Bool-cases, inl, inr, ◌==◌, if◌then◌else◌, length, get_or, take, drop, drop-length-append,
  take-length-append, take_of_le, drop_of_le, arith,
}
use jeos.Prelude.Circular.{next, advance, window, length-window, window-append}
use jeos.Ring.{Ring, add_u32, oldest, copy_out, read}
use jeos.Ring.Inv.{IsValid, contents}
use jeos.Ring.History.{length-contents, oldest-lt}

copy_out-window :
    (k i : ℕ) (r : Ring) → i < r.cap → r.cap < 2 ^ 32 → copy_out k i r ≡ window r.buf r.cap i k
unfolding copy_out window
copy_out-window zero i r inside small = refl
copy_out-window (suc k) i r inside small =
    let step : (if add_u32 i 1 == r.cap then 0 else add_u32 i 1) ≡ next r.cap i = ground arith in
    ap (λ xs. get_or r.buf i 0 ∷ xs)
      (ap (λ j. copy_out k j r) step ∙ copy_out-window k (next r.cap i) r (ground arith) small)

contents-split :
    (r : Ring) (n : ℕ)
    → IsValid r
    → n ≤ r.len
    → contents r
      ≡ window r.buf r.cap (oldest r) n
        ++ window r.buf r.cap (advance r.cap (oldest r) n) (r.len - n)
unfolding contents
contents-split r n v h =
    ap (λ m. window r.buf r.cap (oldest r) m) {y = n + (r.len - n)} (omega arith)
    ∙ window-append r.buf r.cap (oldest r) n (r.len - n) (oldest-lt r v) (omega arith)

-- The two parts of a read of `n` bytes: what goes out, and what the ring still holds.
read_parts :
    (r : Ring) (n : ℕ)
    → IsValid r
    → n ≤ r.len
    → (copy_out n (oldest r) r ≡ take n (contents r))
      × (contents (record r { len = r.len - n }) ≡ drop n (contents r))
unfolding contents oldest
read_parts r n v h = (
  copy_out-window n (oldest r) r (oldest-lt r v) v.small
      ∙ sym (take-length-append out rest)
      ∙ ap₂ take (length-window r.buf r.cap (oldest r) n) (sym (contents-split r n v h)),
  ap (λ i. window r.buf r.cap i (r.len - n)) (ground arith)
      ∙ sym (drop-length-append out rest)
      ∙ ap₂ drop (length-window r.buf r.cap (oldest r) n) (sym (contents-split r n v h)),
)
  where
    out : List ℕ
    out = window r.buf r.cap (oldest r) n

    rest : List ℕ
    rest = window r.buf r.cap (advance r.cap (oldest r) n) (r.len - n)

read-eq :
    (r : Ring) (n m : ℕ)
    → m ≡ (if ltb n r.len then n else r.len)
    → read r n ≡ (copy_out m (oldest r) r, record r { len = r.len - m })
unfolding read copy_out
read-eq r n m e = elim (Bool-cases (m == 0)) [
  | inl nothing ↦ ground arith
  | inr some_bytes ↦ ground arith
]

-- On a well-formed ring `ring_read` hands out the oldest bytes, as many as there are and as fit, and leaves the others.
pub read_lem :
    (r : Ring) (n : ℕ)
    → IsValid r
    → let (out, r') = read r n in (out ≡ take n (contents r)) × (contents r' ≡ drop n (contents r))
read_lem r n v = elim (Bool-cases (ltb n r.len)) [
  | inl some_left ↦ rw (read-eq r n n (ground arith)) (read_parts r n v (ground arith))
  | inr all ↦
      let enough : length (contents r) ≤ n = ground (arith, length-contents r) in
      let (out, left) = read_parts r r.len v (omega arith) in
      rw (read-eq r n r.len (ground arith)) (
        out
            ∙ take_of_le r.len (contents r) (omega (arith, length-contents r))
            ∙ sym (take_of_le n (contents r) enough),
        left
            ∙ drop_of_le r.len (contents r) (omega (arith, length-contents r))
            ∙ sym (drop_of_le n (contents r) enough),
      )
]
