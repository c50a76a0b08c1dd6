-- ===== src/Mem/Buddy/Align.antt =====
-- The alignment of a page index, from which `freerange` of kernel/mem.c takes its first order.
use jeos.Prelude.{
  ℕ, zero, suc, ◌+◌, ◌-◌, ◌*◌, ◌/◌, ◌%◌, ◌^◌, ◌≤◌, ◌<◌, ◌≡◌, sym, ◌∙◌, subst, inl, inr, leb, ◌==◌,
  Bool-cases, arith,
}
use jeos.Mem.Buddy.{max_order, ctz, aligned_order}
use jeos.Mem.Buddy.Order.{power_suc}

-- `n` is a multiple of `2 ^ k`.
pub record Multiple (k n : ℕ) : Type 0 where
  pub factor : ℕ
  pub is : n ≡ factor * 2 ^ k

Multiple-pred : (k n : ℕ) → Multiple (k + 1) n → Multiple k n
Multiple-pred k n m = record { factor = m.factor * 2; is = m.is ∙ (rw (power_suc k) (omega arith)) }

Multiple-down : (d k n : ℕ) → Multiple (k + d) n → Multiple k n
Multiple-down zero k n m = let e : k ≡ k + 0 = omega arith in subst (λ j. Multiple j n) (sym e) m
Multiple-down (suc d) k n m =
    let e : k + suc d ≡ k + d + 1 = omega arith in
    Multiple-down d k n (Multiple-pred (k + d) n (subst (λ j. Multiple j n) e m))

pub Multiple-le : (j k n : ℕ) → j ≤ k → Multiple k n → Multiple j n
Multiple-le j k n h m =
    let e : k ≡ j + (k - j) = omega arith in
    Multiple-down (k - j) j n (subst (λ i. Multiple i n) e m)

pub Multiple-add : (k m n : ℕ) → Multiple k m → Multiple k n → Multiple k (m + n)
Multiple-add k m n a b = record { factor = a.factor + b.factor; is = omega (arith, a.is, b.is) }

Multiple-ctz : (r n : ℕ) → Multiple (ctz r n) n
unfolding ctz
Multiple-ctz zero n = record { factor = n; is = omega arith }
Multiple-ctz (suc r) n = elim (Bool-cases (n % 2 == 1)) [
  | inl odd ↦ rw odd (record { factor = n; is = omega arith })
  | inr even ↦
      let m = Multiple-ctz r (n / 2) in
      rw even
        (record { factor = m.factor; is = rw (power_suc (ctz r (n / 2))) (ground (arith, m.is)) })
]

-- The order that `freerange` starts from suits the alignment of its page.
pub Multiple-aligned_order : (n : ℕ) → Multiple (aligned_order n) n × (aligned_order n < max_order)
unfolding aligned_order
Multiple-aligned_order n = elim (Bool-cases (n == 0)) [
  | inl none_set ↦ rw none_set (record { factor = 0; is = ground arith }, omega arith)
  | inr pos ↦ elim (Bool-cases (leb max_order (ctz 64 n))) [
    | inl large ↦
        rw (pos, large)
          (Multiple-le 11 (ctz 64 n) n (ground arith) (Multiple-ctz 64 n), omega arith)
    | inr small ↦ rw (pos, small) (Multiple-ctz 64 n, ground arith)
  ]
]
