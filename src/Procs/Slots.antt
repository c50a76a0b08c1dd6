-- ===== src/Procs/Slots.antt =====
-- The slots of the process table of kernel/proc.c: what is in them after a write, and the searches.
use jeos.Prelude.{
  ℕ, zero, suc, ◌+◌, ◌-◌, ◌≤◌, ◌<◌, ◌≡◌, ◌≢◌, refl, inl, inr, true, ◌&&◌, Option, none, some, List,
  [], ◌∷◌, ◌==◌, if◌then◌else◌, Bool-cases, length, get_or, get_or-set_self, get_or-set_ne, arith,
}
use jeos.Procs.{Proc, Kernel, zero_proc, proc_at, set_proc, is_unused, is_zombie, free_slot}
use jeos.Procs.Scheduling.{zombie_child}

-- A place that holds something is in the list.
pub get_or_inside : (xs : List (Option ℕ)) (c i : ℕ) → get_or xs c none ≡ some i → c < length xs
get_or_inside [] c i e = cc
get_or_inside (x ∷ xs) zero i e = omega arith
get_or_inside (x ∷ xs) (suc c) i e = omega (arith, get_or_inside xs c i e)

-- No slot lies behind the table.
pub get_or_outside : (i : ℕ) (ps : List Proc) → length ps ≤ i → get_or ps i zero_proc ≡ zero_proc
get_or_outside i [] h = refl
get_or_outside zero (p ∷ ps) h = absurd (omega arith)
get_or_outside (suc i) (p ∷ ps) h = get_or_outside i ps (omega arith)

pub proc_at-set_proc :
    (i j : ℕ) (p : Proc) (k : Kernel)
    → i < length k.table
    → proc_at (set_proc i p k) j ≡ (if i == j then p else proc_at k j)
proc_at-set_proc i j p k h = elim (Bool-cases (i == j)) [
  | inl same ↦
      let e : i ≡ j = ground arith in rw (same, ← e) (get_or-set_self k.table i p zero_proc h)
  | inr other ↦ rw other (get_or-set_ne k.table p zero_proc (λ e. ground arith))
]

-- The slot that a search finds is in the table and has what it looks for.
pub free_slot-some :
    (i j : ℕ) (ps : List Proc)
    → free_slot i ps ≡ some j
    → (i ≤ j) × (j < i + length ps) × (is_unused (get_or ps (j - i) zero_proc).state ≡ true)
unfolding free_slot
free_slot-some i j [] e = cc
free_slot-some i j (p ∷ ps) e = elim (Bool-cases (is_unused p.state)) [
  | inl free ↦
      let here : i ≡ j = ground (arith, free) in
      let start : j - i ≡ 0 = omega arith in (omega arith, omega arith, rw start free)
  | inr taken ↦
      let later : free_slot (i + 1) ps ≡ some j = ground (arith, taken) in
      let (low, high, state) = free_slot-some (i + 1) j ps later in
      let step : j - i ≡ suc (j - (i + 1)) = omega arith in
      (omega arith, omega arith, rw step state)
]

pub zombie_child-some :
    (parent i j : ℕ) (ps : List Proc)
    → zombie_child parent i ps ≡ some j
    → let p = get_or ps (j - i) zero_proc in
      (i ≤ j) × (j < i + length ps) × (is_zombie p.state ≡ true) × (p.ppid ≡ parent)
unfolding zombie_child
zombie_child-some parent i j [] e = cc
zombie_child-some parent i j (p ∷ ps) e =
    elim (Bool-cases (is_zombie p.state && (p.ppid == parent))) [
      | inl found ↦
          let here : i ≡ j = ground (arith, found) in
          let start : j - i ≡ 0 = omega arith in
          (omega arith, omega arith, rw start (ground arith), rw start (ground arith))
      | inr other ↦
          let later : zombie_child parent (i + 1) ps ≡ some j = ground (arith, other) in
          let (low, high, state, child) = zombie_child-some parent (i + 1) j ps later in
          let step : j - i ≡ suc (j - (i + 1)) = omega arith in
          (omega arith, omega arith, (rw step state), (rw step child))
    ]

-- If the search for a zombie child finds none, there is none.
pub zombie_child-none :
    (parent i j : ℕ) (ps : List Proc)
    → zombie_child parent i ps ≡ none
    → let p = get_or ps j zero_proc in is_zombie p.state ≡ true → p.ppid ≢ parent
unfolding zombie_child zero_proc
zombie_child-none parent i j [] e dead = cc
zombie_child-none parent i zero (p ∷ ps) e dead = ground arith
zombie_child-none parent i (suc j) (p ∷ ps) e dead =
    zombie_child-none parent (i + 1) j ps (ground arith) dead
