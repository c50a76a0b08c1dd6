-- ===== src/Mem/Buddy/Order.antt =====
-- `order_for`: the smallest order whose blocks hold a request.
use native.Mathlib.Nat.{pow-suc}
use jeos.Prelude.{
  ℕ, zero, suc, ◌+◌, ◌*◌, ◌%◌, ◌^◌, ◌≤◌, ◌<◌, ◌≡◌, refl, ap, ◌∙◌, inl, inr, true, ltb, Bool-cases,
  dec_lt, arith,
}
use jeos.Mem.Buddy.{max_order, Run, hang, done, order_loop, order_for}

pub power_suc : (o : ℕ) → 2 ^ (o + 1) ≡ 2 * 2 ^ o
power_suc o = ap (λ k. 2 ^ k) {y = suc o} (omega arith) ∙ pow-suc 2 o ∙ omega arith

pub power_mono : (m n : ℕ) → m ≤ n → 2 ^ m ≤ 2 ^ n
power_mono m zero h = ap_le (omega arith)
  where
    ap_le : m ≡ 0 → 2 ^ m ≤ 1
    ap_le e = rw e (omega arith)
power_mono m (suc n) h = elim (dec_lt m (suc n)) [
  | yes lt ↦ omega (arith, power_mono m n (omega arith), pow-suc 2 n)
  | no ge ↦ let e : m ≡ suc n = omega arith in rw e (omega arith)
]

-- The run returns the least order whose blocks hold `n` pages.
pub record Fits (n : ℕ) (run : Run ℕ) : Type 0 where
  pub order : ℕ
  pub is : run ≡ done order
  pub holds : n ≤ 2 ^ order
  pub least : (j : ℕ) → j < order → 2 ^ j < n

order_loop-Fits :
    (k o n : ℕ)
    → o + k ≡ 64
    → n ≤ 2 ^ 63
    → ((j : ℕ) → j < o → 2 ^ j < n)
    → Fits n (order_loop k (2 ^ o) o n)
unfolding order_loop
order_loop-Fits zero o n e small below = absurd (omega (arith, below 63 (omega arith)))
order_loop-Fits (suc k) o n e small below = elim (Bool-cases (ltb (2 ^ o) n)) [
  | inl more ↦
      let lt : 2 ^ o < n = ground arith in
      let doubled : 2 ^ o * 2 % 2 ^ 64 ≡ 2 ^ (o + 1) = omega (arith, power_suc o) in
      rw (more, doubled)
        (order_loop-Fits k (o + 1) n (omega arith) small λ j h. elim (dec_lt j o) [
          | yes old ↦ below j old
          | no new ↦ let same : j ≡ o = omega arith in rw same lt
        ])
  | inr enough ↦ rw enough (record { order = o; is = refl; holds = ground arith; least = below })
]

-- For every request up to 2^63 pages `order_for` returns, and its order is the least that holds it.
pub order_for-Fits : (n : ℕ) → n ≤ 2 ^ 63 → Fits n (order_for n)
unfolding order_for
order_for-Fits n small = order_loop-Fits 64 0 n refl small (λ j h. elim h [ ])

order_loop_zero : (k o n : ℕ) → 0 < n → order_loop k 0 o n ≡ hang
unfolding order_loop
order_loop_zero zero o n pos = refl
order_loop_zero (suc k) o n pos =
    let more : ltb 0 n ≡ true = ground arith in rw more (order_loop_zero k (o + 1) n pos)

order_loop_hang : (k o m n : ℕ) → o + m ≡ 63 → 2 ^ 63 < n → order_loop k (2 ^ o) o n ≡ hang
unfolding order_loop
order_loop_hang zero o m n e big = refl
order_loop_hang (suc k) o zero n e big =
    let top : o ≡ 63 = omega arith in
    let more : ltb (2 ^ o) n ≡ true = rw top (ground arith) in
    let wrapped : 2 ^ o * 2 % 2 ^ 64 ≡ 0 = rw top in
    rw (more, wrapped) (order_loop_zero k (o + 1) n (omega arith))
order_loop_hang (suc k) o (suc m) n e big =
    let small : 2 ^ (o + 1) ≤ 2 ^ 63 = power_mono (o + 1) 63 (omega arith) in
    let more : ltb (2 ^ o) n ≡ true = ground (arith, power_suc o) in
    let doubled : 2 ^ o * 2 % 2 ^ 64 ≡ 2 ^ (o + 1) = omega (arith, power_suc o) in
    rw (more, doubled) (order_loop_hang k (o + 1) m n (omega arith) big)

-- Beyond 2^63 pages the size of `order_for` wraps to zero and the loop never ends, on any fuel.
pub order_loop-hang : (fuel n : ℕ) → 2 ^ 63 < n → order_loop fuel 1 0 n ≡ hang
order_loop-hang fuel n big = order_loop_hang fuel 0 63 n refl big

-- The order of the block that a call of `n` pages is about.
pub record RequestOrder (n o : ℕ) : Type 0 where
  pub holds : n ≤ 2 ^ o
  pub least : (j : ℕ) → j < o → 2 ^ j < n
  pub top : o < max_order

pub order_for-done : (n o : ℕ) → RequestOrder n o → order_for n ≡ done o
order_for-done n o req =
    let small : n ≤ 2 ^ 63 = omega (arith, req.holds, power_mono o 63 (omega (arith, req.top))) in
    let fits = order_for-Fits n small in fits.is ∙ ap done (same fits.order fits.holds fits.least)
  where
    same : (m : ℕ) → n ≤ 2 ^ m → ((j : ℕ) → j < m → 2 ^ j < n) → m ≡ o
    same m big least = elim (dec_lt m o) [
      | yes below ↦ absurd (omega (arith, req.least m below))
      | no up ↦ elim (dec_lt o m) [
        | yes above ↦ absurd (omega (arith, least o above, req.holds))
        | no down ↦ omega arith
      ]
    ]
