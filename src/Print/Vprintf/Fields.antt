-- ===== src/Print/Vprintf/Fields.antt =====
-- The bytes that the cases of `do_vprintf` put: how wide they are, and what they spell.
use Prim.Native.Nat.{max, ◌^◌}
use mathlib.Core.List.{append-nil}
use jeos.Prelude.{
  ℕ, zero, suc, ◌+◌, ◌-◌, ◌/◌, ◌%◌, ◌<◌, ◌≡◌, refl, ap, ◌∙◌, Bool, true, false, not, ◌&&◌, Option,
  Bool-cases, inl, inr, [], ◌∷◌, ◌++◌, length, length-append, length-replicate, leb, if◌then◌else◌,
  arith,
}
use jeos.Print.{Bytes, fmt_dec, fmt_hex}
use jeos.Print.Digits.{spelled, fmt_dec-spelled}
use jeos.Print.Hex.{fmt_hex-spelled}
use jeos.Print.Vprintf.{
  Flags, pad, when, put_signed, put_digits, put_unsigned, put_hex, put_prefixed, put_text, put_char,
  string_of, padchar,
}

length-pad : (k c : ℕ) → length (pad k c) ≡ k
length-pad k c = length-replicate k c

-- A field: what is put stands behind its padding, or in front of it.
length-field :
    (left : Bool) (k c d : ℕ) (s : Bytes)
    → length (when (not left) (pad k c) ++ (s ++ when left (pad k d))) ≡ k + length s
length-field true k c d s = omega (arith, length-append s (pad k d), length-pad k d)
length-field false k c d s =
    omega (arith, length-append (pad k c) (s ++ []), length-append s [], length-pad k c)

length-signed_field :
    (left zeros : Bool) (k : ℕ) (sign s : Bytes)
    → length (
        when (not left && not zeros) (pad k b' ')
        ++ (sign ++ (when (not left && zeros) (pad k b'0') ++ (s ++ when left (pad k b' ')))))
      ≡ k + (length s + length sign)
length-signed_field true zeros k sign s =
    length-append sign (s ++ pad k b' ')
    ∙ omega (arith, length-append s (pad k b' '), length-pad k b' ')
length-signed_field false true k sign s = omega (
  arith,
  length-append sign (pad k b'0' ++ (s ++ [])),
  length-append (pad k b'0') (s ++ []),
  length-append s [],
  length-pad k b'0',
)
length-signed_field false false k sign s = omega (
  arith,
  length-append (pad k b' ') (sign ++ (s ++ [])),
  length-append sign (s ++ []),
  length-append s [],
  length-pad k b' ',
)

length-when : (b : Bool) (s : Bytes) → length (when b s) ≡ (if b then length s else 0)
length-when true s = refl
length-when false s = refl

abbrev pub negative : ℕ → Bool
negative n = leb (2 ^ 63) n

-- The absolute value of the i64 with these bits.
abbrev pub magnitude : ℕ → ℕ
magnitude n = if negative n then 2 ^ 64 - n else n

magnitude_wraps :
    (n : ℕ) → n < 2 ^ 64 → (if negative n then (2 ^ 64 - n) % 2 ^ 64 else n) ≡ magnitude n
magnitude_wraps n h = ground arith

length-put_signed :
    (f : Flags) (w n : ℕ)
    → n < 2 ^ 64
    → length (put_signed f w n)
      ≡ max w (length (fmt_dec (magnitude n)) + (if negative n then 1 else 0))
unfolding put_signed
length-put_signed f w n h =
    rw (magnitude_wraps n h)
      let buf = fmt_dec (magnitude n) in
        let total = length buf + (if negative n then 1 else 0) in
        let sign = when (negative n) (b'-' ∷ []) in
        length-signed_field f.left_align f.zero_pad (w - total) sign buf
        ∙ omega (arith, length-when (negative n) (b'-' ∷ []))

length-put_text :
    (f : Flags) (w : ℕ) (s : Option Bytes) → length (put_text f w s) ≡ max w (length (string_of s))
unfolding put_text
length-put_text f w s =
    let t = string_of s in
    let k = w - length t in
    let middle = length-append t (pad (k - k / 2) b' ') in
    elim (Bool-cases f.center) [
      | inl e ↦ rw (e) (
          omega (
            arith,
            middle,
            length-append (pad (k / 2) b' ') (t ++ pad (k - k / 2) b' '),
            length-pad (k / 2) b' ',
            length-pad (k - k / 2) b' ',
          ))
      | inr e ↦ rw (e) (length-field f.left_align k b' ' b' ' t ∙ omega arith)
    ]

-- Whatever the flags, each conversion but `%p` puts a field as wide as the width asks for, or as wide
-- as the text when that is wider: the digits with the sign of an i64, the digits of a u64, two bytes
-- more for `%X`, the string or `(null)`, and one byte for a character.
pub length-fields :
    (f : Flags) (w n : ℕ) (s : Option Bytes)
    → n < 2 ^ 64
    → (length (put_signed f w n)
        ≡ max w (length (fmt_dec (magnitude n)) + (if negative n then 1 else 0)))
      × (length (put_unsigned f w n) ≡ max w (length (fmt_dec n)))
      × (length (put_hex f w n) ≡ max w (length (fmt_hex n)))
      × (length (put_prefixed f w n) ≡ max w (length (fmt_hex n) + 2))
      × (length (put_text f w s) ≡ max w (length (string_of s)))
      × (length (put_char f w n) ≡ max w 1)
unfolding put_digits put_prefixed put_char
length-fields f w n s h = (
  length-put_signed f w n h,
  length-field f.left_align (w - length (fmt_dec n)) (padchar f) b' ' (fmt_dec n) ∙ omega arith,
  length-field f.left_align (w - length (fmt_hex n)) (padchar f) b' ' (fmt_hex n) ∙ omega arith,
  length-field f.left_align (w - (length (fmt_hex n) + 2)) (padchar f) b' '
        (b'0' ∷ b'x' ∷ fmt_hex n)
      ∙ omega arith,
  length-put_text f w s,
  length-field f.left_align (w - 1) b' ' b' ' (n % 256 ∷ []) ∙ omega arith,
)

-- Zeros in front change no value.
spelled-pad : (base k : ℕ) (s : Bytes) → spelled base 0 (pad k b'0' ++ s) ≡ spelled base 0 s
unfolding spelled
spelled-pad base zero s = refl
spelled-pad base (suc k) s =
    ap (λ n. spelled base n (pad k b'0' ++ s)) {y = 0} (omega arith) ∙ spelled-pad base k s

spelled_digits :
    (base k : ℕ) (s : Bytes) → spelled base 0 (pad k b'0' ++ (s ++ [])) ≡ spelled base 0 s
spelled_digits base k s = spelled-pad base k (s ++ []) ∙ ap (λ r. spelled base 0 r) (append-nil s)

abbrev pub zero_padded : Flags
zero_padded = record { left_align = false; zero_pad = true; center = false }

-- A number padded with zeros reads back as itself, by a reader that takes no other bytes than digits: a
-- u64 in decimal and in hexadecimal, and an i64 as its sign, in front of the zeros, and its absolute
-- value, also the least i64.
pub spelled-fields :
    (w n : ℕ)
    → n < 2 ^ 64
    → (spelled 10 0 (put_unsigned zero_padded w n) ≡ n)
      × (spelled 16 0 (put_hex zero_padded w n) ≡ n)
      × ((s : Bytes) × (put_signed zero_padded w n ≡ when (negative n) (b'-' ∷ []) ++ s)
          × (spelled 10 0 s ≡ magnitude n))
unfolding put_digits put_signed
spelled-fields w n h =
    let size = length (fmt_dec (magnitude n)) + (if negative n then 1 else 0) in
    let small : magnitude n < 2 ^ 64 = ground arith in
    (
      spelled_digits 10 (w - length (fmt_dec n)) (fmt_dec n) ∙ (fmt_dec-spelled n h).0,
      spelled_digits 16 (w - length (fmt_hex n)) (fmt_hex n) ∙ (fmt_hex-spelled n h).0,
      (
        pad (w - size) b'0' ++ (fmt_dec (magnitude n) ++ []),
        rw (magnitude_wraps n h),
        spelled_digits 10 (w - size) (fmt_dec (magnitude n))
            ∙ (fmt_dec-spelled (magnitude n) small).0,
      ),
    )
