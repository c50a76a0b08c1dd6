-- ===== src/Print/Hex.antt =====
-- The hexadecimal printers: `fmt_hex`, `puthex_n` and `puthex`.
use Prim.Native.Nat.{◌*◌, ◌^◌}
use native.Mathlib.Nat.{pow-suc, div-div-eq-div-mul, div-lt_iff_lt-mul, zero-div}
use jeos.Prelude.{
  ℕ, zero, suc, ◌+◌, ◌/◌, ◌%◌, ◌≤◌, ◌<◌, ◌≡◌, refl, sym, ap, ap₂, subst, ◌∙◌, [], ◌∷◌, ◌++◌, length,
  arith,
}
use jeos.Prelude.Division.{mod_split}
use jeos.Print.{hex_digit, hex_digits, fmt_hex, put_backwards, puthex_n, highest_nibble, puthex}
use jeos.Print.Reverse.{length-reverse_in_place, reverse_in_place-put_backwards, put_backwards-cons}
use jeos.Print.Digits.{digit_value, spelled, spelled_low, spelled-snoc, spelled-reverse_in_place}

power_four : (i : ℕ) → 2 ^ (suc i * 4) ≡ 16 * 2 ^ (i * 4)
power_four i =
    let k = i * 4 in
    ap (λ m. 2 ^ m) {y = suc (suc (suc (suc k)))} (omega arith)
    ∙ omega (
      arith,
      pow-suc 2 k,
      pow-suc 2 (suc k),
      pow-suc 2 (suc (suc k)),
      pow-suc 2 (suc (suc (suc k))),
    )

power_pos : (i : ℕ) → 0 < 2 ^ (i * 4)
power_pos zero = omega arith
power_pos (suc i) = omega (arith, power_four i, power_pos i)

shift_suc : (n i : ℕ) → n / 2 ^ (suc i * 4) ≡ n / 16 / 2 ^ (i * 4)
shift_suc n i = ap (λ m. n / m) (power_four i) ∙ sym (div-div-eq-div-mul n 16 (2 ^ (i * 4)))

spelled_low-hex_digits : (k n : ℕ) → n < 2 ^ (k * 4) → spelled_low 16 (hex_digits k n) ≡ n
unfolding spelled_low hex_digits
spelled_low-hex_digits zero n h = omega arith
spelled_low-hex_digits (suc k) n h = ground (arith, spelled_low-hex_digits k (n / 16), power_four k)

length-hex_digits :
    (k n : ℕ) → (length (hex_digits k n) ≤ k) × (1 ≤ k → 1 ≤ n → 1 ≤ length (hex_digits k n))
unfolding hex_digits
length-hex_digits zero n = ground arith
length-hex_digits (suc k) n = ground (arith, length-hex_digits k (n / 16))

-- A u64 printed in hexadecimal is between one and sixteen bytes, so that it fits the buffer of 24
-- bytes, and its digits spell the number.
pub fmt_hex-spelled :
    (n : ℕ)
    → n < 2 ^ 64
    → (spelled 16 0 (fmt_hex n) ≡ n) × (1 ≤ length (fmt_hex n)) × (length (fmt_hex n) ≤ 16)
unfolding fmt_hex spelled
fmt_hex-spelled n h = ground (
  arith,
  spelled-reverse_in_place 16 (hex_digits 16 n),
  spelled_low-hex_digits 16 n,
  length-reverse_in_place (hex_digits 16 n),
  length-hex_digits 16 n,
)

-- The lowest nibble is put last.
puthex_n-suc : (n i : ℕ) → puthex_n n (suc i) ≡ puthex_n (n / 16) i ++ (hex_digit (n % 16) ∷ [])
unfolding puthex_n
puthex_n-suc n zero = ap (λ m. hex_digit (m % 16) ∷ []) (omega arith)
puthex_n-suc n (suc i) = ap₂ (λ m r. hex_digit (m % 16) ∷ r) (shift_suc n i) (puthex_n-suc n i)

digit_value-hex_digit : (d : ℕ) → d < 16 → digit_value (hex_digit d) ≡ d
digit_value-hex_digit d h = ground arith

-- `puthex_n` puts exactly `d` digits, and they spell the lowest `d` nibbles of the number: all of it
-- when it is below 16 to the power `d`.
pub puthex_n-spelled :
    (n d : ℕ) → (length (puthex_n n d) ≡ d) × (spelled 16 0 (puthex_n n d) ≡ n % 2 ^ (d * 4))
unfolding puthex_n spelled
puthex_n-spelled n zero = ground arith
puthex_n-spelled n (suc d) =
    let low : n % 2 ^ (suc d * 4) ≡ n % 16 + 16 * (n / 16 % 2 ^ (d * 4)) =
      ap (λ m. n % m) (power_four d) ∙ mod_split n 16 (2 ^ (d * 4)) in
    let last = hex_digit (n % 16) in
    let value = spelled-snoc 16 0 (puthex_n (n / 16) d) last in
    (
      ap suc (puthex_n-spelled n d).0,
      ap (λ r. spelled 16 0 r) {x = puthex_n n (suc d)} (puthex_n-suc n d)
          ∙ omega (
            arith,
            low,
            value,
            digit_value-hex_digit (n % 16) (omega arith),
            puthex_n-spelled (n / 16) d,
          ),
    )

-- The search from the top finds as many digits as the division from the bottom.
top_zero : (n d : ℕ) → n < 2 ^ (suc d * 4) → n / 2 ^ (d * 4) % 16 ≡ 0 → n < 2 ^ (d * 4)
top_zero n d h z =
    let m = 2 ^ (d * 4) in
    let above : 0 < m = power_pos d in
    let fits : n / m < 16 =
      (div-lt_iff_lt-mul {k = m} {x = n} {y = 16} above).1 (omega (arith, power_four d)) in
    omega (arith, (div-lt_iff_lt-mul {k = m} {x = n} {y = 1} above).0 (omega arith))

highest_nibble-suc :
    (n d : ℕ)
    → 16 ≤ n
    → n < 2 ^ (suc d * 4)
    → highest_nibble n (suc d) ≡ suc (highest_nibble (n / 16) d)
unfolding highest_nibble
highest_nibble-suc n zero big h = absurd (omega arith)
highest_nibble-suc n (suc d) big h =
    ground (arith, shift_suc n d, top_zero n (suc d) h, highest_nibble-suc n d big)

highest_nibble_small : (n d : ℕ) → n < 16 → highest_nibble n (suc d) ≡ 1
unfolding highest_nibble
highest_nibble_small n zero h = refl
highest_nibble_small n (suc d) h =
    let none_above : n / 2 ^ (suc d * 4) ≡ 0 =
      shift_suc n d ∙ ap (λ m. m / 2 ^ (d * 4)) {y = 0} (omega arith) ∙ zero-div (2 ^ (d * 4)) in
    ground (arith, none_above, highest_nibble_small n d h)

hex_digits-zero : (k : ℕ) → hex_digits k 0 ≡ []
unfolding hex_digits
hex_digits-zero zero = refl
hex_digits-zero (suc k) = refl

highest_nibble-hex_digits :
    (k n : ℕ) → 1 ≤ n → n < 2 ^ (k * 4) → highest_nibble n k ≡ length (hex_digits k n)
unfolding hex_digits
highest_nibble-hex_digits zero n pos h = absurd (omega arith)
highest_nibble-hex_digits (suc k) n pos h = ground (
  arith,
  hex_digits-zero k,
  power_four k,
  highest_nibble_small n k,
  highest_nibble-suc n k,
  highest_nibble-hex_digits k (n / 16),
)

hex_digits-suc :
    (k n : ℕ) → hex_digits (suc k) (suc n) ≡ hex_digit (suc n % 16) ∷ hex_digits k (suc n / 16)
unfolding hex_digits
hex_digits-suc k n = ground arith

puthex_n-put_backwards :
    (k n : ℕ)
    → n < 2 ^ (k * 4)
    → let s = hex_digits k n in puthex_n n (length s) ≡ put_backwards (length s) s
unfolding hex_digits puthex_n put_backwards
puthex_n-put_backwards zero n h = refl
puthex_n-put_backwards (suc k) zero h = refl
puthex_n-put_backwards (suc k) (suc n) h =
    let s = hex_digits k (suc n / 16) in
    let last = hex_digit (suc n % 16) in
    subst (λ r. puthex_n (suc n) (length r) ≡ put_backwards (length r) r) {x = last ∷ s}
      (sym (hex_digits-suc k n))
      (puthex_n-suc (suc n) (length s)
        ∙ ap (λ r. r ++ (last ∷ []))
            (puthex_n-put_backwards k (suc n / 16) (omega (arith, power_four k)))
        ∙ sym (put_backwards-cons (length s) last s))

-- `puthex`, which looks for the highest digit first and then puts the digits downwards, prints what
-- `fmt_hex` prints by dividing and reversing.
pub puthex-fmt_hex : (n : ℕ) → n < 2 ^ 64 → puthex n ≡ fmt_hex n
unfolding puthex fmt_hex
puthex-fmt_hex n h = ground (
  arith,
  highest_nibble-hex_digits 16 n,
  puthex_n-put_backwards 16 n,
  reverse_in_place-put_backwards (hex_digits 16 n),
)
