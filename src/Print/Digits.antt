-- ===== src/Print/Digits.antt =====
-- The decimal printers: `fmt_dec`, `putdec`, and the width that `do_vprintf` reads back.
use Prim.Native.Nat.{◌*◌, ◌^◌}
use native.Mathlib.Nat.{pow-suc}
use jeos.Prelude.{
  ℕ, zero, suc, ◌+◌, ◌-◌, ◌/◌, ◌≤◌, ◌<◌, ◌≡◌, refl, sym, ap, subst, ◌∙◌, [], ◌∷◌, ◌++◌, length, leb,
  ◌&&◌, if◌then◌else◌, arith,
}
use jeos.Print.{Bytes, dec_digits, fmt_dec, putdec, put_backwards, reverse_in_place}
use jeos.Print.Reverse.{length-reverse_in_place, reverse_in_place-put_backwards, put_backwards-cons}

-- The value of a digit, decimal or hexadecimal. Any other byte counts as 2^64, so that no text with one
-- in it spells a number below that.
abbrev pub digit_value : ℕ → ℕ
digit_value c =
    if leb b'0' c && leb c b'9'
    then c - b'0'
    else if leb b'a' c && leb c b'f'
    then c - b'a' + 10
    else 2 ^ 64

-- The number that digits spell behind `n`.
unfoldable pub spelled : (base : ℕ) → ℕ → Bytes → ℕ
spelled base n [] = n
spelled base n (c ∷ s) = spelled base (n * base + digit_value c) s

-- The number that digits spell from the lowest one on.
unfoldable pub spelled_low : (base : ℕ) → Bytes → ℕ
spelled_low base [] = 0
spelled_low base (c ∷ s) = spelled_low base s * base + digit_value c

pub spelled-snoc :
    (base n : ℕ) (s : Bytes) (c : ℕ)
    → spelled base n (s ++ (c ∷ [])) ≡ spelled base n s * base + digit_value c
unfolding spelled
spelled-snoc base n [] c = refl
spelled-snoc base n (x ∷ s) c = spelled-snoc base (n * base + digit_value x) s c

spelled-put_backwards :
    (base : ℕ) (s : Bytes) → spelled base 0 (put_backwards (length s) s) ≡ spelled_low base s
unfolding spelled spelled_low put_backwards
spelled-put_backwards base [] = refl
spelled-put_backwards base (c ∷ s) =
    ap (λ r. spelled base 0 r) (put_backwards-cons (length s) c s)
    ∙ spelled-snoc base 0 (put_backwards (length s) s) c
    ∙ ap (λ m. m * base + digit_value c) (spelled-put_backwards base s)

-- The low digits first, reversed in place, spell the same number.
pub spelled-reverse_in_place :
    (base : ℕ) (s : Bytes) → spelled base 0 (reverse_in_place s) ≡ spelled_low base s
spelled-reverse_in_place base s =
    ap (λ r. spelled base 0 r) (reverse_in_place-put_backwards s) ∙ spelled-put_backwards base s

spelled_low-dec_digits : (k n : ℕ) → n < 10 ^ k → spelled_low 10 (dec_digits k n) ≡ n
unfolding spelled_low dec_digits
spelled_low-dec_digits zero n h = omega arith
spelled_low-dec_digits (suc k) n h = ground (arith, spelled_low-dec_digits k (n / 10), pow-suc 10 k)

length-dec_digits :
    (k n : ℕ) → (length (dec_digits k n) ≤ k) × (1 ≤ k → 1 ≤ n → 1 ≤ length (dec_digits k n))
unfolding dec_digits
length-dec_digits zero n = ground arith
length-dec_digits (suc k) n = ground (arith, length-dec_digits k (n / 10))

-- A u64 printed in decimal is between one and twenty bytes, so that it fits the buffer of 24 bytes,
-- and its digits spell the number.
pub fmt_dec-spelled :
    (n : ℕ)
    → n < 2 ^ 64
    → (spelled 10 0 (fmt_dec n) ≡ n) × (1 ≤ length (fmt_dec n)) × (length (fmt_dec n) ≤ 20)
unfolding fmt_dec spelled
fmt_dec-spelled n h = ground (
  arith,
  spelled-reverse_in_place 10 (dec_digits 20 n),
  spelled_low-dec_digits 20 n,
  length-reverse_in_place (dec_digits 20 n),
  length-dec_digits 20 n,
)

-- The two decimal printers of the file print the same bytes.
pub putdec-fmt_dec : (n : ℕ) → putdec n ≡ fmt_dec n
unfolding putdec fmt_dec
putdec-fmt_dec n = ground (arith, sym (reverse_in_place-put_backwards (dec_digits 20 n)))

-- Bytes that are decimal digits.
unfoldable pub Decimals : Bytes → Type 0
Decimals [] = Unit
Decimals (c ∷ s) = (b'0' ≤ c) × (c ≤ b'9') × Decimals s

Decimals-snoc : (s : Bytes) (c : ℕ) → Decimals s → b'0' ≤ c → c ≤ b'9' → Decimals (s ++ (c ∷ []))
unfolding Decimals
Decimals-snoc [] c d low high = (low, high, tt)
Decimals-snoc (x ∷ s) c (low_x, high_x, d) low high = (low_x, high_x, Decimals-snoc s c d low high)

Decimals-put_backwards : (s : Bytes) → Decimals s → Decimals (put_backwards (length s) s)
unfolding Decimals put_backwards
Decimals-put_backwards [] d = tt
Decimals-put_backwards (c ∷ s) (low, high, d) =
    subst Decimals (sym (put_backwards-cons (length s) c s))
      (Decimals-snoc (put_backwards (length s) s) c (Decimals-put_backwards s d) low high)

Decimals-dec_digits : (k n : ℕ) → Decimals (dec_digits k n)
unfolding Decimals dec_digits
Decimals-dec_digits zero n = tt
Decimals-dec_digits (suc k) n = ground (arith, Decimals-dec_digits k (n / 10))

pub Decimals-fmt_dec : (n : ℕ) → Decimals (fmt_dec n)
unfolding fmt_dec Decimals
Decimals-fmt_dec n = ground (
  arith,
  subst Decimals (sym (reverse_in_place-put_backwards (dec_digits 20 n)))
      (Decimals-put_backwards (dec_digits 20 n) (Decimals-dec_digits 20 n)),
)
