-- ===== src/Devices/Block/Copying.antt =====
-- The copies between a buffer and the bytes of a device.

use jeos.Prelude.{
  ℕ, zero, suc, ◌+◌, ◌-◌, ◌≤◌, ◌<◌, ◌≡◌, refl, sym, ap, ap₂, ◌∙◌, ◌&&◌, [], ◌∷◌, get_or, set,
  length, length-set, get_or-set_self, get_or-set_ne, ltb, leb, if◌then◌else◌, dec_lt, arith,
}
use jeos.Devices.Block.{Bytes, Image, copy_from, copy_into}

-- The `n` bytes of a device from `k` on.
unfoldable pub bytes_at : Image → (k n : ℕ) → Bytes
bytes_at image k zero = []
bytes_at image k (suc n) = image k ∷ bytes_at image (k + 1) n

pub copy_from-bytes_at :
    (buf : Bytes) (image : Image) (s k n : ℕ)
    → ((i : ℕ) → i < n → get_or buf (s + i) 0 ≡ image (k + i))
    → copy_from buf s n ≡ bytes_at image k n
unfolding copy_from bytes_at
copy_from-bytes_at buf image s k zero h = refl
copy_from-bytes_at buf image s k (suc n) h =
    ap₂ ◌∷◌ (ap (λ i. get_or buf i 0) (omega arith) ∙ h 0 (omega arith) ∙ ap image (omega arith)) (
      copy_from-bytes_at buf image (s + 1) (k + 1) n λ i lt.
        ap (λ j. get_or buf j 0) (omega arith) ∙ h (i + 1) (omega arith) ∙ ap image (omega arith))

pub bytes_at_list :
    (image : Image) (k : ℕ) (src : Bytes)
    → ((i : ℕ) → i < length src → image (k + i) ≡ get_or src i 0)
    → bytes_at image k (length src) ≡ src
unfolding bytes_at
bytes_at_list image k [] h = refl
bytes_at_list image k (x ∷ src) h =
    ap₂ ◌∷◌ (ap image (omega arith) ∙ h 0 (omega arith))
      (bytes_at_list image (k + 1) src λ i lt. ap image (omega arith) ∙ h (suc i) (omega arith))

pub get_or-copy_into :
    (buf : Bytes) (s : ℕ) (src : Bytes) (i : ℕ)
    → s + length src ≤ length buf
    → get_or (copy_into buf s src) i 0
      ≡ (if leb s i && ltb i (s + length src) then get_or src (i - s) 0 else get_or buf i 0)
unfolding copy_into
get_or-copy_into buf s [] i h = ground arith
get_or-copy_into buf s (x ∷ src) i h =
    let size = length-set buf s x in
    let below = get_or-copy_into (set buf s x) (s + 1) src i (omega (arith, size)) in
    let self = get_or-set_self buf s x 0 (omega arith) in
    let others = get_or-set_ne buf {i = s} {j = i} x 0 in
    elim (dec_lt s i) [
      | yes behind ↦
          let next : get_or (x ∷ src) (i - s) 0 ≡ get_or src (i - (s + 1)) 0 =
            ap (λ k. get_or (x ∷ src) k 0) {y = suc (i - (s + 1))} (omega arith) in
          ground (arith, below, others, next)
      | no n ↦ elim (dec_lt i s) [
        | yes before ↦ ground (arith, below, others)
        | no m ↦
            let here : s ≡ i = omega arith in
            let first : get_or (x ∷ src) (i - s) 0 ≡ x =
              ap (λ k. get_or (x ∷ src) k 0) {y = 0} (omega arith) in
            let set_here : get_or (set buf s x) i 0 ≡ x =
              ap (λ k. get_or (set buf s x) k 0) (sym here) ∙ self in
            ground (arith, below, first, set_here)
      ]
    ]
