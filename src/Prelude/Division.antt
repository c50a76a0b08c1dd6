-- ===== src/Prelude/Division.antt =====
-- Quotients and remainders by variables, which `omega` takes for atoms.
use Prim.Native.Nat.{ℕ, ◌+◌, ◌*◌, ◌/◌, ◌%◌, ◌<◌}
use mathlib.Core.Path.{◌≡◌, ap, ◌∙◌}
use native.Mathlib.Nat.{
  div-div-eq-div-mul, div-add-mod, mul_assoc, mod-lt, add-mul-div_left, div-eq_of_lt,
}
use native.Mathlib.Omega.{arith}

-- The last digit of a remainder, and the digits in front of it.
pub mod_split : (n k m : ℕ) → n % (k * m) ≡ n % k + k * (n / k % m)
mod_split n k m =
    let whole : k * m * (n / k / m) + n % (k * m) ≡ n =
      ap (λ q. k * m * q + n % (k * m)) (div-div-eq-div-mul n k m) ∙ div-add-mod n (k * m) in
    let upper : k * (m * (n / k / m) + n / k % m) ≡ k * (n / k) =
      ap (λ q. k * q) (div-add-mod (n / k) m) in
    omega (arith, whole, upper, mul_assoc k m (n / k / m), div-add-mod n k)

pub mod-div : (n k m : ℕ) → 0 < k → n % (k * m) / k ≡ n / k % m
mod-div n k m h =
    ap (λ x. x / k) (mod_split n k m)
    ∙ add-mul-div_left (n % k) (n / k % m) h
    ∙ omega (arith, div-eq_of_lt (mod-lt n h))

pub mod-mod_mul : (n k m : ℕ) → 0 < k → n % (k * m) % k ≡ n % k
mod-mod_mul n k m h =
    let x = n % (k * m) in
    omega (arith, mod_split n k m, ap (λ q. k * q) (mod-div n k m h), div-add-mod x k)
