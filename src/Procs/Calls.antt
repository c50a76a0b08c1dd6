-- ===== src/Procs/Calls.antt =====
-- What a call of kernel/proc.c is as a sequence of elementary writes, and what proc_alloc does.
use jeos.Prelude.{
  ℕ, ◌+◌, ◌-◌, ◌%◌, ◌^◌, ◌≤◌, ◌<◌, ◌≡◌, refl, inl, inr, true, not, Option, none, some, ◌==◌,
  Bool-cases, Option-cases, arith,
}
use jeos.Procs.{
  State, unused, embryo, Proc, Kernel, max_procs, proc_at, set_proc, is_unused, free_slot,
  proc_alloc, kstack_setup,
}
use jeos.Procs.Slots.{free_slot-some}
use jeos.Procs.Placed.{IsPlaced}
use jeos.Procs.Writes.{Writes}

-- A call writes, and hands out one pid at most.
abbrev pub Does : Kernel → Kernel → Type 0
Does k k' = (n : ℕ) × (n ≤ 1) × Writes k' n k

-- A slot that proc_alloc has marked: it has the next pid and is otherwise as it was.
pub record IsClaimed (i : ℕ) (p : Proc) (k : Kernel) : Type 0 where
  pub inside : i < max_procs
  pub free : is_unused (proc_at k i).state ≡ true
  pub pid : p.pid ≡ k.next_pid
  pub tf : p.tf ≡ (proc_at k i).tf
  pub files : p.files ≡ (proc_at k i).files

abbrev pub claimed : ℕ → Proc → Kernel → Kernel
claimed i p k = set_proc i p (record k { next_pid = (k.next_pid + 1) % 2 ^ 32 })

-- What proc_alloc does.
pub data Alloc (k : Kernel) (r : Option ℕ × Kernel) : Type 0 where
  full : r ≡ (none, k) → Alloc k r
  no_stack :
      (i : ℕ) (p : Proc)
      → IsClaimed i p k
      → p.state ≡ unused
      → r ≡ (none, claimed i p k)
      → Alloc k r
  given :
      (i : ℕ) (p : Proc)
      → IsClaimed i p k
      → p.state ≡ embryo
      → r ≡ (some i, claimed i p k)
      → Alloc k r

found :
    (i : ℕ) (kstack : Option ℕ) (s : State) (k : Kernel)
    → IsPlaced k
    → free_slot 0 k.table ≡ some i
    → IsClaimed i (record (proc_at k i) { pid = k.next_pid; kstack = kstack; state = s }) k
found i kstack s k v e =
    let (low, high, free) = free_slot-some 0 i k.table e in
    let start : i - 0 ≡ i = omega arith in
    record {
      inside = omega (arith, v.size);
      free = rw start at free;
      pid = refl;
      tf = refl;
      files = refl;
    }

pub proc_alloc-Alloc : (kstack : Option ℕ) (k : Kernel) → IsPlaced k → Alloc k (proc_alloc kstack k)
unfolding proc_alloc
proc_alloc-Alloc none k v = elim (Option-cases (free_slot 0 k.table)) [
  | inl e ↦ full (rw (e, proc_alloc) refl)
  | inr (i, e) ↦
      no_stack i (record (proc_at k i) { pid = k.next_pid; kstack = none; state = unused })
        (found i none unused k v e) refl (rw (e, proc_alloc) refl)
]
proc_alloc-Alloc (some s) k v = elim (Option-cases (free_slot 0 k.table)) [
  | inl e ↦ full (rw (e, proc_alloc) refl)
  | inr (i, e) ↦
      given i (record (proc_at k i) { pid = k.next_pid; kstack = some s; state = embryo })
        (found i (some s) embryo k v e) refl (rw (e, proc_alloc) refl)
]

pub kstack_setup-keeps :
    (entry sp : ℕ) (p : Proc)
    → let q = kstack_setup entry sp p in
      (q.pid ≡ p.pid) × (q.state ≡ p.state) × (q.files ≡ p.files) × (q.tf ≡ p.tf)
unfolding kstack_setup
kstack_setup-keeps entry sp p = elim (Bool-cases (not (p.tf.rip == 0))) [
  | inl e ↦ rw e (refl, refl, refl, refl)
  | inr e ↦ rw e (refl, refl, refl, refl)
]
