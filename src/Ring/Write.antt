-- ===== src/Ring/Write.antt =====
-- `ring_write` against the bounded history.
use mathlib.Core.List.{append-nil, append_assoc}
use jeos.Prelude.{
  ℕ, zero, suc, ◌+◌, ◌-◌, ◌≤◌, ◌<◌, ◌≡◌, sym, ap, ap₂, ◌∙◌, List, [], ◌∷◌, ◌++◌, leb, length,
  get_or, set, take, drop, length-append, true, false, dec_lt, drop-length-append, length-set,
  drop-drop, drop-get_or, take-drop, length-take_of_le, length-drop, arith,
}
use jeos.Prelude.Circular.{window, window-set}
use jeos.Ring.{Ring, write, oldest, fill}
use jeos.Ring.Inv.{IsValid, contents}
use jeos.Ring.History.{keep_last, keep_last_lem, contents-put_all}

-- The copy loop of a write that fills the whole ring.
window-fill :
    (cap k i : ℕ) (buf src : List ℕ)
    → i + k ≤ cap
    → cap ≤ length buf
    → i + k ≤ length src
    → window (fill k i buf src) cap 0 (i + k) ≡ window buf cap 0 i ++ take k (drop i src)
unfolding fill
window-fill cap zero i buf src h fits long =
    rw append-nil (ap (λ n. window buf cap 0 n) {x = i + 0} (omega arith))
window-fill cap (suc k) i buf src h fits long =
    let c = get_or src i 0 in
    let buf' = set buf i c in
    let rest = take k (drop (i + 1) src) in
    ap (λ n. window (fill k (i + 1) buf' src) cap 0 n) {x = i + suc k} (omega arith)
    ∙ window-fill cap k (i + 1) buf' src (omega arith) (omega (arith, length-set buf i c))
        (omega arith)
    ∙ ap (λ xs. xs ++ rest)
        (ap (λ n. window buf' cap 0 n) {x = i + 1} {y = suc i} (omega arith)
          ∙ window-set buf cap c i 0 i fits (omega arith) (omega arith) (ground arith))
    ∙ append_assoc (window buf cap 0 i) (c ∷ []) rest
    ∙ ap (λ xs. window buf cap 0 i ++ take (suc k) xs) (sym (drop-get_or i src 0 (omega arith)))

write-small :
    (r : Ring) (src : List ℕ) (n : ℕ)
    → IsValid r
    → n ≤ length src
    → n < r.cap
    → contents (write r src n) ≡ keep_last r.cap (contents r ++ take n src)
unfolding write
write-small r src n v long small =
    let test : leb r.cap n ≡ false = ground arith in
    rw test (contents-put_all n 0 src r v (omega arith))

write-big :
    (r : Ring) (src : List ℕ) (n : ℕ)
    → IsValid r
    → n ≤ length src
    → r.cap ≤ n
    → contents (write r src n) ≡ drop (n - r.cap) (take n src)
unfolding contents write oldest window
write-big r src n v long big =
    let body = drop (n - r.cap) src in
    rw (big_test) (
      ap₂ (λ i m. window (fill r.cap 0 r.buf body) r.cap i m) {x = oldest full} {y = 0}
        {v = 0 + r.cap} (ground arith) (omega arith)
      ∙ window-fill r.cap r.cap 0 r.buf body (omega arith) v.storage
          (omega (arith, length-drop (n - r.cap) src))
      ∙ take-drop (n - r.cap) r.cap src
      ∙ ap (λ m. drop (n - r.cap) (take m src)) (omega arith))
  where
    big_test : leb r.cap n ≡ true
    big_test = ground arith

    full : Ring
    full = record { buf = r.buf; cap = r.cap; head = 0; len = r.cap }

-- On a well-formed ring `ring_write` of the first `n` bytes of an array appends its bytes to what the ring holds and keeps the last `cap` of them, on the
-- bulk path and on the byte by byte path alike.
pub contents-write :
    (r : Ring) (src : List ℕ) (n : ℕ)
    → IsValid r
    → n ≤ length src
    → contents (write r src n) ≡ keep_last r.cap (contents r ++ take n src)
contents-write r src n v long = elim (dec_lt n r.cap) [
  | yes small ↦ write-small r src n v long small
  | no big ↦
      write-big r src n v long (omega arith)
      ∙ ap (drop (n - r.cap)) (sym (drop-length-append (contents r) (take n src)))
      ∙ drop-drop (n - r.cap) (length (contents r)) (contents r ++ take n src)
      ∙ sym (
          keep_last_lem r.cap (length (contents r) + (n - r.cap)) (contents r ++ take n src) (
            omega
              (arith, length-append {0} (contents r) (take n src), length-take_of_le n src long)))
]
