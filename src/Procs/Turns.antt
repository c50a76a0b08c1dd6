-- ===== src/Procs/Turns.antt =====
-- The turns of `scheduler` of kernel/proc.c: how often a process that can run is passed over.
use jeos.Prelude.{
  ℕ, ◌+◌, ◌-◌, ◌%◌, ◌<◌, ◌≡◌, ◌≢◌, refl, sym, ap, subst, ◌∙◌, inl, inr, Bool, true, Option, none,
  some, List, ◌==◌, if◌then◌else◌, Bool-cases, Option-cases, length, length-set, get_or,
  get_or-set_self, get_or-set_ne, set, arith,
}
use jeos.Procs.{Kernel, max_procs, proc_at, is_runnable, proc_alloc}
use jeos.Procs.Making.{proc_fork_in, proc_create_in, proc_fork, proc_create, proc_exec}
use jeos.Procs.Scheduling.{sys_exit, yield_locked, yield, wait_round, schedule}
use jeos.Procs.Runs.{Step, schedules, yields, exits, waits, forks, execs, creates}

-- How many slots the scheduler of `c` looks at before it comes to `j`.
abbrev pub distance : (c j : ℕ) → Kernel → ℕ
distance c j k = (j + max_procs - get_or k.turns c 0) % max_procs

-- Whether a step is a round of the scheduler of `c`.
abbrev pub rounds_of : {k k' : Kernel} (c : ℕ) → Step k k' → ℕ
rounds_of c (schedules d _ _ _) = if c == d then 1 else 0
rounds_of c (yields _ _) = 0
rounds_of c (exits _ _ _ _) = 0
rounds_of c (waits _ _) = 0
rounds_of c (forks _ _ _ _) = 0
rounds_of c (execs _ _ _ _ _ _) = 0
rounds_of c (creates _ _ _ _ _ _ _) = 0

-- A run in which the process `j` can run all the time and the processor `c` never takes it, with the
-- number of rounds of the scheduler of `c`.
pub data Overtaken (c j : ℕ) (k : Kernel) : (rounds : ℕ) → Kernel → Type 0 where
  here : Overtaken c j k 0 k
  next :
      {n m : ℕ} {k₁ k₂ : Kernel}
      → Overtaken c j k n k₁
      → is_runnable (proc_at k₁ j).state ≡ true
      → (s : Step k₁ k₂) → get_or k₂.cpus c none ≢ some j
      → m ≡ n + rounds_of c s
      → Overtaken c j k m k₂

proc_alloc-turns : (kstack : Option ℕ) (k : Kernel) → (proc_alloc kstack k).1.turns ≡ k.turns
unfolding proc_alloc
proc_alloc-turns kstack k = ground arith

yield-turns : (c : ℕ) (k : Kernel) → (yield c k).turns ≡ k.turns
unfolding yield yield_locked
yield-turns c k = ground arith

wait_round-turns : (c : ℕ) (k : Kernel) → (wait_round c k).1.turns ≡ k.turns
unfolding wait_round
wait_round-turns c k = ground (arith, yield-turns c k)

proc_fork_in-turns :
    (parent i : ℕ) (pml4 : Option ℕ) (k : Kernel) → (proc_fork_in parent i pml4 k).1.turns ≡ k.turns
unfolding proc_fork_in
proc_fork_in-turns parent i none k = refl
proc_fork_in-turns parent i (some m) k = refl

proc_create_in-turns :
    (path : List ℕ) (i : ℕ) (pml4 entry a b : Option ℕ) (k : Kernel)
    → (proc_create_in path i pml4 entry a b k).1.turns ≡ k.turns
unfolding proc_create_in
proc_create_in-turns path i none entry a b k = refl
proc_create_in-turns path i (some m) none a b k = refl
proc_create_in-turns path i (some m) (some e) a b k = refl

sys_exit-turns :
    (closes : ℕ → Bool) (c status : ℕ) (k : Kernel) → (sys_exit closes c status k).turns ≡ k.turns
unfolding sys_exit
sys_exit-turns closes c status k = ground arith

proc_exec-turns :
    (c : ℕ) (path : List ℕ) (pml4 entry : Option ℕ) (sp : ℕ) (k : Kernel)
    → (proc_exec c path pml4 entry sp k).1.turns ≡ k.turns
unfolding proc_exec
proc_exec-turns c path pml4 entry sp k = ground arith

proc_fork-turns :
    (c : ℕ) (kstack pml4 : Option ℕ) (k : Kernel) → (proc_fork c kstack pml4 k).1.turns ≡ k.turns
unfolding proc_fork
proc_fork-turns c kstack pml4 k = elim (Option-cases (get_or k.cpus c none)) [
  | inl e ↦ rw (proc_fork, e) refl
  | inr (parent, e) ↦ elim (Option-cases (proc_alloc kstack k).0) [
    | inl none_left ↦ rw (proc_fork, e, none_left) (proc_alloc-turns kstack k)
    | inr (i, has) ↦
        rw (proc_fork, e, has)
          (proc_fork_in-turns parent i pml4 (proc_alloc kstack k).1 ∙ proc_alloc-turns kstack k)
  ]
]

proc_create-turns :
    (path : List ℕ) (kstack pml4 entry a b : Option ℕ) (k : Kernel)
    → (proc_create path kstack pml4 entry a b k).1.turns ≡ k.turns
unfolding proc_create
proc_create-turns path kstack pml4 entry a b k = elim (Option-cases (proc_alloc kstack k).0) [
  | inl none_left ↦ rw (proc_create, none_left) (proc_alloc-turns kstack k)
  | inr (i, has) ↦
      rw (proc_create, has)
        (proc_create_in-turns path i pml4 entry a b (proc_alloc kstack k).1
          ∙ proc_alloc-turns kstack k)
]

schedule-turns :
    (c : ℕ) (k : Kernel)
    → (schedule c k).turns ≡ set k.turns c ((get_or k.turns c 0 + 1) % max_procs)
unfolding schedule
schedule-turns c k = ground arith

-- A scheduler that comes to a process that can run takes it.
schedule-takes :
    (c j : ℕ) (k : Kernel)
    → c < length k.cpus
    → is_runnable (proc_at k j).state ≡ true
    → get_or k.turns c 0 ≡ j
    → get_or (schedule c k).cpus c none ≡ some j
unfolding schedule
schedule-takes c j k there ready turn =
    let ready' : is_runnable (proc_at k (get_or k.turns c 0)).state ≡ true = rw turn ready in
    let taken = get_or-set_self k.cpus c (some (get_or k.turns c 0)) none there in
    rw (schedule, ready') (taken ∙ ap some turn)

-- The state of the scheduler of a processor: its turn is a slot.
record HasTurn (c : ℕ) (k : Kernel) : Type 0 where
  pub there : c < length k.turns
  pub inside : get_or k.turns c 0 < max_procs

-- A step that leaves the turns alone.
unmoved :
    (c j n : ℕ) (k k' : Kernel)
    → k'.turns ≡ k.turns
    → HasTurn c k × (n + distance c j k < max_procs)
    → HasTurn c k' × (n + 0 + distance c j k' < max_procs)
unmoved c j n k k' e (t, far) =
    (record { there = rw e t.there; inside = rw e t.inside }, rw e (omega arith))

round :
    (c d j n : ℕ) (k : Kernel)
    → d < length k.cpus
    → is_runnable (proc_at k j).state ≡ true
    → j < max_procs
    → get_or (schedule d k).cpus c none ≢ some j
    → HasTurn c k × (n + distance c j k < max_procs)
    → HasTurn c (schedule d k)
      × (n + (if c == d then 1 else 0) + distance c j (schedule d k) < max_procs)
round c d j n k there ready inside missed (t, far) = elim (Bool-cases (c == d)) [
  | inl same ↦
      let e : c ≡ d = ground arith in
      let turn = get_or k.turns c 0 in
      let not_j : turn ≢ j = λ q. missed (
        subst (λ x. get_or (schedule x k).cpus c none ≡ some j) e
          (schedule-takes c j k (rw e there) ready q)) in
      let moved : get_or (schedule d k).turns c 0 ≡ (turn + 1) % max_procs =
        ap (λ ts. get_or ts c 0) (schedule-turns d k)
        ∙ subst
            (λ x.
              get_or (set k.turns x ((get_or k.turns x 0 + 1) % max_procs)) c 0
              ≡ (turn + 1) % max_procs)
            e (get_or-set_self k.turns c ((turn + 1) % max_procs) 0 t.there) in
      let size : length (schedule d k).turns ≡ length k.turns =
        ap length (schedule-turns d k)
        ∙ length-set k.turns d ((get_or k.turns d 0 + 1) % max_procs) in
      (
        record { there = omega (arith, size, t.there); inside = omega (arith, moved) },
        rw (same, moved) (omega (arith, far, not_j, t.inside)),
      )
  | inr other ↦
      let apart : d ≢ c = λ q. ground arith in
      let still : get_or (schedule d k).turns c 0 ≡ get_or k.turns c 0 =
        ap (λ ts. get_or ts c 0) (schedule-turns d k)
        ∙ get_or-set_ne k.turns ((get_or k.turns d 0 + 1) % max_procs) 0 apart in
      let size : length (schedule d k).turns ≡ length k.turns =
        ap length (schedule-turns d k)
        ∙ length-set k.turns d ((get_or k.turns d 0 + 1) % max_procs) in
      (
        record { there = omega (arith, size, t.there); inside = omega (arith, still, t.inside) },
        rw (other, still) (omega (arith, far)),
      )
]

overtaken :
    {c j : ℕ} {k : Kernel} {n : ℕ} {k' : Kernel}
    → Overtaken c j k n k'
    → j < max_procs
    → HasTurn c k
    → HasTurn c k' × (n + distance c j k' < max_procs)
overtaken here inside t = (t, omega arith)
overtaken {c} {j} (next {n} {m} {k₁} {k₂} run ready s missed e) inside t =
    rw e (step s missed (overtaken run inside t))
  where
    step :
        (s : Step k₁ k₂)
        → get_or k₂.cpus c none ≢ some j
        → HasTurn c k₁ × (n + distance c j k₁ < max_procs)
        → HasTurn c k₂ × (n + rounds_of c s + distance c j k₂ < max_procs)
    step (schedules d there idle e) missed h =
        let missed' : get_or (schedule d k₁).cpus c none ≢ some j =
          subst (λ k. get_or k.cpus c none ≢ some j) e missed in
        subst (λ k. HasTurn c k × (n + (if c == d then 1 else 0) + distance c j k < max_procs))
          (sym e) (round c d j n k₁ there ready inside missed' h)
    step (yields d e) missed h = unmoved c j n k₁ k₂ (ap (λ k. k.turns) e ∙ yield-turns d k₁) h
    step (exits closes d status e) missed h =
        unmoved c j n k₁ k₂ (ap (λ k. k.turns) e ∙ sys_exit-turns closes d status k₁) h
    step (waits d e) missed h = unmoved c j n k₁ k₂ (ap (λ k. k.turns) e ∙ wait_round-turns d k₁) h
    step (forks d a b e) missed h =
        unmoved c j n k₁ k₂ (ap (λ k. k.turns) e ∙ proc_fork-turns d a b k₁) h
    step (execs d path a b sp e) missed h =
        unmoved c j n k₁ k₂ (ap (λ k. k.turns) e ∙ proc_exec-turns d path a b sp k₁) h
    step (creates path a b x y z e) missed h =
        unmoved c j n k₁ k₂ (ap (λ k. k.turns) e ∙ proc_create-turns path a b x y z k₁) h

-- While a process can run and a processor does not take it, the scheduler of that processor makes
-- fewer than 64 rounds, whatever all processors do meanwhile: no process starves on any processor that
-- goes on scheduling.
pub overtaken_bounds :
    (c j n : ℕ) (k k' : Kernel)
    → j < max_procs
    → c < length k.turns
    → get_or k.turns c 0 < max_procs
    → Overtaken c j k n k'
    → n < max_procs
overtaken_bounds c j n k k' inside there turn run =
    omega (arith, (overtaken run inside (record { there = there; inside = turn })).1)
