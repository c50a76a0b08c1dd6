-- ===== src/Procs/Runs.antt =====
-- Runs of the system: the processors and the processes of kernel/proc.c in any interleaving.
use jeos.Prelude.{
  ℕ, zero, suc, ◌+◌, ◌^◌, ◌≤◌, ◌<◌, ◌≡◌, ◌↔◌, refl, sym, ap, subst, ◌∙◌, inl, inr, Bool, true,
  false, Option, none, some, List, [], ◌∷◌, ◌==◌, Bool-cases, length, length-replicate, get_or,
  get_or-replicate, replicate, arith,
}
use jeos.Descriptors.Count.{refers, count}
use jeos.Procs.{running, Proc, Kernel, max_procs, proc_at, is_unused, zero_proc}
use jeos.Procs.Making.{proc_fork, proc_create, proc_exec}
use jeos.Procs.Scheduling.{sys_exit, yield, wait_round, schedule}
use jeos.Procs.Placed.{IsPlaced, on_cpu-running}
use jeos.Procs.Files.{HasFiles, zero_proc-HasFiles}
use jeos.Procs.Writes.{HasPids, IsClean, Writes-IsPlaced, Writes-HasPids, Writes-IsClean}
use jeos.Procs.Calls.{Does}
use jeos.Procs.Births.{proc_fork-Does, proc_create-Does}
use jeos.Procs.Moves.{schedule-Does, yield-Does, sys_exit-Does, wait_round-Does, proc_exec-Does}

-- The system before the first process, with so many processors.
unfoldable pub booted : (ncpu : ℕ) (refcnt : ℕ → ℕ) → Kernel
booted ncpu refcnt = record {
  table = replicate max_procs zero_proc;
  next_pid = 1;
  cpus = replicate ncpu none;
  turns = replicate ncpu 0;
  refcnt = refcnt;
}

-- A step of a processor: a round of its scheduler while it runs no process, or a call of the process
-- that it runs; what the parts outside this model return is any value.
pub data Step (k k' : Kernel) : Type 0 where
  schedules :
      (c : ℕ) → c < length k.cpus → get_or k.cpus c none ≡ none → k' ≡ schedule c k → Step k k'
  yields : (c : ℕ) → k' ≡ yield c k → Step k k'
  exits : (closes : ℕ → Bool) (c status : ℕ) → k' ≡ sys_exit closes c status k → Step k k'
  waits : (c : ℕ) → k' ≡ (wait_round c k).1 → Step k k'
  forks : (c : ℕ) (kstack pml4 : Option ℕ) → k' ≡ (proc_fork c kstack pml4 k).1 → Step k k'
  execs :
      (c : ℕ) (path : List ℕ) (pml4 entry : Option ℕ) (sp : ℕ)
      → k' ≡ (proc_exec c path pml4 entry sp k).1
      → Step k k'
  creates :
      (path : List ℕ) (kstack pml4 entry input output : Option ℕ)
      → k' ≡ (proc_create path kstack pml4 entry input output k).1
      → Step k k'

pub data Reach (k : Kernel) : (steps : ℕ) → Kernel → Type 0 where
  here : Reach k 0 k
  next : {n : ℕ} {k₁ k₂ : Kernel} → Reach k n k₁ → Step k₁ k₂ → Reach k (suc n) k₂

Step-Does : (k k' : Kernel) → Step k k' → IsPlaced k → Does k k'
Step-Does k k' (schedules c there idle e) v =
    subst (Does k) (sym e) (schedule-Does c k there idle v)
Step-Does k k' (yields c e) v = subst (Does k) (sym e) (yield-Does c k)
Step-Does k k' (exits closes c status e) v =
    subst (Does k) (sym e) (sys_exit-Does closes c status k)
Step-Does k k' (waits c e) v = subst (Does k) (sym e) (wait_round-Does c k v)
Step-Does k k' (forks c s m e) v = subst (Does k) (sym e) (proc_fork-Does c s m k v)
Step-Does k k' (execs c path m entry sp e) v =
    subst (Does k) (sym e) (proc_exec-Does c path m entry sp k v)
Step-Does k k' (creates path s m entry i o e) v =
    subst (Does k) (sym e) (proc_create-Does path s m entry i o k v)

count-idle : (i n : ℕ) → count i (replicate n none) ≡ 0
unfolding count refers
count-idle i zero = refl
count-idle i (suc n) = omega (arith, count-idle i n)

booted-proc_at : (ncpu i : ℕ) (refcnt : ℕ → ℕ) → proc_at (booted ncpu refcnt) i ≡ zero_proc
unfolding booted
booted-proc_at ncpu i refcnt = get_or-replicate max_procs i zero_proc

booted-unused : (ncpu i : ℕ) (r : ℕ → ℕ) → is_unused (proc_at (booted ncpu r) i).state ≡ true
unfolding zero_proc
booted-unused ncpu i r = ap (λ (p : Proc). is_unused p.state) (booted-proc_at ncpu i r)

pub booted-IsPlaced : (ncpu : ℕ) (r : ℕ → ℕ) → IsPlaced (booted ncpu r)
unfolding booted
booted-IsPlaced ncpu r = record {
  size = length-replicate {A = Proc} max_procs zero_proc;
  held = λ i. count-idle i ncpu ∙ ground (arith, booted-unused ncpu i r);
}

booted-HasPids : (ncpu : ℕ) (r : ℕ → ℕ) → HasPids (booted ncpu r)
booted-HasPids ncpu r = record {
  low = λ i u. ground (arith, booted-unused ncpu i r);
  unique = λ i j u w e. ground (arith, booted-unused ncpu i r);
}

Reach-IsPlaced : {k : Kernel} {n : ℕ} {k' : Kernel} → Reach k n k' → IsPlaced k → IsPlaced k'
Reach-IsPlaced here v = v
Reach-IsPlaced (next {n} {k₁} {k₂} r s) v =
    let v₁ = Reach-IsPlaced r v in Writes-IsPlaced (Step-Does k₁ k₂ s v₁).2 v₁

pub booted-IsClean : (ncpu : ℕ) (r : ℕ → ℕ) → IsClean (booted ncpu r)
booted-IsClean ncpu r i = subst HasFiles (sym (booted-proc_at ncpu i r)) zero_proc-HasFiles

-- In every run from a state where they hold, the processors run what says that it runs, and a slot
-- with no live process has no descriptor.
pub Reach-IsClean :
    {k : Kernel} {n : ℕ} {k' : Kernel}
    → Reach k n k'
    → IsPlaced k
    → IsClean k
    → IsPlaced k' × IsClean k'
Reach-IsClean here v c = (v, c)
Reach-IsClean (next {n} {k₁} {k₂} r s) v c =
    let (v₁, c₁) = Reach-IsClean r v c in
    let w = (Step-Does k₁ k₂ s v₁).2 in (Writes-IsPlaced w v₁, Writes-IsClean w v₁ c₁)

Reach-HasPids :
    {k : Kernel} {n : ℕ} {k' : Kernel}
    → Reach k n k'
    → IsPlaced k
    → k.next_pid + n < 2 ^ 32
    → HasPids k
    → HasPids k' × (k'.next_pid ≤ k.next_pid + n)
Reach-HasPids here v room h = (h, omega arith)
Reach-HasPids (next {n} {k₁} {k₂} r s) v room h =
    let (h₁, low) = Reach-HasPids r v (omega arith) h in
    let v₁ = Reach-IsPlaced r v in
    let (m, one, w) = Step-Does k₁ k₂ s v₁ in
    let (h₂, e) = Writes-HasPids w v₁ (omega arith) h₁ in (h₂, omega arith)

count-at : (i c : ℕ) (cpus : List (Option ℕ)) → get_or cpus c none ≡ some i → 1 ≤ count i cpus
unfolding count refers
count-at i c [] e = cc
count-at i zero (x ∷ cpus) e = ground arith
count-at i (suc c) (x ∷ cpus) e = omega (arith, count-at i c cpus e)

count_once :
    (i c d : ℕ) (cpus : List (Option ℕ))
    → count i cpus ≤ 1
    → get_or cpus c none ≡ some i
    → get_or cpus d none ≡ some i
    → c ≡ d
unfolding count refers
count_once i c d [] one e g = cc
count_once i zero zero (x ∷ cpus) one e g = refl
count_once i zero (suc d) (x ∷ cpus) one e g = ground (arith, count-at i d cpus g)
count_once i (suc c) zero (x ∷ cpus) one e g = ground (arith, count-at i c cpus e)
count_once i (suc c) (suc d) (x ∷ cpus) one e g = ap suc (count_once i c d cpus (omega arith) e g)

count-found :
    (i : ℕ) (cpus : List (Option ℕ)) → 1 ≤ count i cpus → (c : ℕ) × (get_or cpus c none ≡ some i)
unfolding count refers
count-found i [] h = absurd (omega arith)
count-found i (none ∷ cpus) h = let (c, e) = count-found i cpus (omega arith) in (suc c, e)
count-found i (some f ∷ cpus) h = elim (Bool-cases (f == i)) [
  | inl same ↦ (0, ap some (ground arith))
  | inr other ↦ let (c, e) = count-found i cpus (ground (arith, other)) in (suc c, e)
]

-- In every run from the start, with any number of processors, in which no interrupt comes to a process
-- between the reads of yield and its lock, a process is in the state that it runs exactly when a
-- processor runs it, and no two processors run the same process.
pub running-iff-cpu :
    (ncpu : ℕ) (r : ℕ → ℕ) {n : ℕ} {k : Kernel}
    → Reach (booted ncpu r) n k
    → ((i : ℕ) → ((proc_at k i).state ≡ running) ↔ ((c : ℕ) × (get_or k.cpus c none ≡ some i)))
      × ((i c d : ℕ) → get_or k.cpus c none ≡ some i → get_or k.cpus d none ≡ some i → c ≡ d)
running-iff-cpu ncpu r {n} {k} run =
    let v = Reach-IsPlaced run (booted-IsPlaced ncpu r) in
    (
      (λ i. (
        (λ e. count-found i k.cpus (ground (arith, v.held i))),
        λ on. (on_cpu-running on.0 i k on.1 v).1,
      )),
      λ i c d e g. count_once i c d k.cpus (ground (arith, v.held i)) e g,
    )

-- In a run from the start of fewer than 2^32 - 1 steps, two slots in use never have the same pid.
pub pids-differ :
    (ncpu : ℕ) (r : ℕ → ℕ) {n : ℕ} {k : Kernel}
    → Reach (booted ncpu r) n k
    → n + 1 < 2 ^ 32
    → (i j : ℕ) → is_unused (proc_at k i).state ≡ false
    → is_unused (proc_at k j).state ≡ false
    → (proc_at k i).pid ≡ (proc_at k j).pid
    → i ≡ j
pids-differ ncpu r run room i j =
    let start : (booted ncpu r).next_pid ≡ 1 = unfold booted in refl in
    (Reach-HasPids run (booted-IsPlaced ncpu r) (omega (arith, start))
        (booted-HasPids ncpu r)).0.unique
      i j
