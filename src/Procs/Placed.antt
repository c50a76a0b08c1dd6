-- ===== src/Procs/Placed.antt =====
-- The processors and the running processes of kernel/proc.c.
use jeos.Prelude.{
  ℕ, ◌+◌, ◌≤◌, ◌<◌, ◌≡◌, refl, ap, ◌∙◌, none, some, ◌==◌, if◌then◌else◌, length, length-set, get_or,
  set, dec_lt, arith,
}
use jeos.Descriptors.Count.{refers, count, count-set}
use jeos.Procs.{State, running, Proc, Kernel, max_procs, proc_at, set_proc, zero_proc}
use jeos.Procs.Slots.{get_or_inside, get_or_outside, proc_at-set_proc}

abbrev pub running_count : State → ℕ
running_count running = 1
running_count _ = 0

-- The table has its size, and a process runs on one processor if its state says so, else on none.
pub record IsPlaced (k : Kernel) : Type 0 where
  pub size : length k.table ≡ max_procs
  pub held : (i : ℕ) → count i k.cpus ≡ running_count (proc_at k i).state

-- A slot written with a process that runs if the old one did.
pub set_proc-IsPlaced :
    (i : ℕ) (p : Proc) (k : Kernel)
    → i < max_procs
    → running_count p.state ≡ running_count (proc_at k i).state
    → IsPlaced k
    → IsPlaced (set_proc i p k)
set_proc-IsPlaced i p k h same v = record {
  size = length-set k.table i p ∙ v.size;
  held = λ j. ground (arith, v.held j, proc_at-set_proc i j p k);
}

refers-some : (g f : ℕ) → refers g (some f) ≡ (if f == g then 1 else 0)
unfolding refers
refers-some g f = refl

refers-none : (g : ℕ) → refers g none ≡ 0
unfolding refers
refers-none g = refl

zero_proc-running : running_count zero_proc.state ≡ 0
unfolding zero_proc
zero_proc-running = refl

running_count-one : (s : State) → 1 ≤ running_count s → s ≡ running
running_count-one s h = ground arith

-- The process of a processor is in the table, and its state is that it runs.
pub on_cpu-running :
    (c i : ℕ) (k : Kernel)
    → get_or k.cpus c none ≡ some i
    → IsPlaced k
    → (i < max_procs) × ((proc_at k i).state ≡ running)
on_cpu-running c i k here v =
    let moved : count i (set k.cpus c none) + refers i (some i) ≡ count i k.cpus + refers i none =
      rw (← here) (count-set i c none k.cpus (get_or_inside k.cpus c i here)) in
    let one : 1 ≤ running_count (proc_at k i).state =
      ground (arith, moved, v.held i, refers-some i i, refers-none i) in
    let inside : i < max_procs = elim (dec_lt i max_procs) [
      | yes h ↦ h
      | no h ↦
          let none_there : running_count (proc_at k i).state ≡ 0 =
            ap (λ (p : Proc). running_count p.state)
              (get_or_outside i k.table (omega (arith, v.size)))
            ∙ zero_proc-running in
          absurd (omega (arith, one, none_there))
    ] in
    (inside, running_count-one (proc_at k i).state one)

-- The process `i` of a processor is written with a state that is not running, and leaves it.
pub leave-IsPlaced :
    (c i : ℕ) (p : Proc) (k : Kernel)
    → get_or k.cpus c none ≡ some i
    → running_count p.state ≡ 0
    → IsPlaced k
    → IsPlaced (set_proc i p (record k { cpus = set k.cpus c none }))
leave-IsPlaced c i p k here stops v = record {
  size = length-set k.table i p ∙ v.size;
  held = λ j.
      let inside = get_or_inside k.cpus c i here in
      let in_table = (on_cpu-running c i k here v).0 in
      let moved : count j (set k.cpus c none) + refers j (some i) ≡ count j k.cpus + refers j none =
        rw (← here) (count-set j c none k.cpus inside) in
      ground (arith, moved, v.held j, refers-some j i, refers-none j, proc_at-set_proc i j p k);
}

-- An idle processor takes a process that can run.
pub take-IsPlaced :
    (c i : ℕ) (p : Proc) (k : Kernel)
    → c < length k.cpus
    → get_or k.cpus c none ≡ none
    → i < max_procs
    → running_count (proc_at k i).state ≡ 0
    → running_count p.state ≡ 1
    → IsPlaced k
    → IsPlaced (set_proc i p (record k { cpus = set k.cpus c (some i) }))
take-IsPlaced c i p k there idle inside free runs v = record {
  size = length-set k.table i p ∙ v.size;
  held = λ j.
      let moved : count j (set k.cpus c (some i)) + refers j none
          ≡ count j k.cpus + refers j (some i) =
        rw (← idle) (count-set j c (some i) k.cpus there) in
      ground (arith, moved, v.held j, refers-some j i, refers-none j, proc_at-set_proc i j p k);
}
