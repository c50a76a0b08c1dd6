-- ===== src/Mouse/Integers.antt =====
-- `puti` of kernel/ps2.c, the decimal printer of an i32.
use Prim.Native.Nat.{◌^◌}
use native.Mathlib.Nat.{pow-suc}
use jeos.Prelude.{ℕ, zero, suc, ◌-◌, ◌/◌, ◌<◌, ◌≡◌, ◌≢◌, refl, ◌∷◌, leb, if◌then◌else◌, arith}
use jeos.Print.{dec_digits, fmt_dec}
use jeos.Print.Reverse.{reverse_in_place-put_backwards}
use jeos.Mouse.{int_digits, puti}

-- The rounds do not matter as long as they are enough.
int_digits-dec_digits : (k j n : ℕ) → n < 10 ^ k → n < 10 ^ j → int_digits k n ≡ dec_digits j n
unfolding int_digits dec_digits
int_digits-dec_digits zero zero n h g = refl
int_digits-dec_digits zero (suc j) n h g = ground arith
int_digits-dec_digits (suc k) zero n h g = ground arith
int_digits-dec_digits (suc k) (suc j) n h g =
    ground (arith, int_digits-dec_digits k j (n / 10), pow-suc 10 k, pow-suc 10 j)

-- Every i32 but the least one is printed as the kernel's u64 printer prints its absolute value, with a
-- minus sign before a negative one.
pub puti-fmt_dec :
    (val : ℕ)
    → val < 2 ^ 32
    → val ≢ 2 ^ 31
    → puti val ≡ (if leb (2 ^ 31) val then b'-' ∷ fmt_dec (2 ^ 32 - val) else fmt_dec val)
unfolding puti fmt_dec
puti-fmt_dec val small least = ground (
  arith,
  int_digits-dec_digits 10 20 val,
  int_digits-dec_digits 10 20 (2 ^ 32 - val),
  reverse_in_place-put_backwards (dec_digits 20 val),
  reverse_in_place-put_backwards (dec_digits 20 (2 ^ 32 - val)),
)
