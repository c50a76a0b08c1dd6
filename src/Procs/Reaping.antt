-- ===== src/Procs/Reaping.antt =====
-- sys_exit and sys_wait of kernel/syscall.c: how a parent gets to know of its child's end.
use jeos.Prelude.{
  ℕ, ◌-◌, ◌≡◌, ◌≢◌, refl, sym, ap, subst, inl, inr, Bool, true, none, some, Option-cases, get_or,
  get_or-set_self, get_or-set_ne, set, arith,
}
use jeos.Descriptors.{close_fds}
use jeos.Procs.{State, unused, zombie, Proc, Kernel, zero_proc, proc_at, set_proc, is_zombie}
use jeos.Procs.Scheduling.{zombie_child, Wait, reaped, waits, wait_round, yield, sys_exit}
use jeos.Procs.Slots.{zombie_child-some, zombie_child-none}
use jeos.Procs.Placed.{IsPlaced, on_cpu-running}

-- A child that has exited.
pub record IsZombieOf (pid j : ℕ) (k : Kernel) : Type 0 where
  pub dead : (proc_at k j).state ≡ zombie
  pub child : (proc_at k j).ppid ≡ pid

-- What a round of sys_wait by the process `i` does: it reaps a child that has exited, or yields
-- because there is none.
pub data Waited (i c : ℕ) (k : Kernel) (r : Wait × Kernel) : Type 0 where
  reaps :
      (j : ℕ)
      → IsZombieOf (proc_at k i).pid j k
      → r.0
        ≡ reaped (proc_at k j).pid (proc_at k j).exit_code (proc_at k j).pml4 (proc_at k j).kstack
      → (proc_at r.1 j).state ≡ unused
      → (proc_at r.1 j).pml4 ≡ none
      → (proc_at r.1 j).kstack ≡ none
      → ((m : ℕ) → j ≢ m → proc_at r.1 m ≡ proc_at k m)
      → Waited i c k r
  childless :
      ((j : ℕ) → ¬ (IsZombieOf (proc_at k i).pid j k)) → r ≡ (waits, yield c k) → Waited i c k r

is_zombie-eq : (s : State) → is_zombie s ≡ true → s ≡ zombie
is_zombie-eq s e = ground arith

-- When a process of the table waits, a round returns the pid, the exit code and the memory of a child
-- that has exited, whose slot it clears while it leaves all others; if no child has exited it yields.
pub wait_round-Waited :
    (c i : ℕ) (k : Kernel)
    → IsPlaced k
    → get_or k.cpus c none ≡ some i
    → Waited i c k (wait_round c k)
unfolding wait_round
wait_round-Waited c i k v on = elim (Option-cases (zombie_child (proc_at k i).pid 0 k.table)) [
  | inl e ↦
      childless
        (λ j z. zombie_child-none (proc_at k i).pid 0 j k.table e (ap is_zombie z.dead) z.child)
        (rw (wait_round, on, e) refl)
  | inr (j, e) ↦
      let (low, high, dead, child) = zombie_child-some (proc_at k i).pid 0 j k.table e in
      let start : j - 0 ≡ j = omega arith in
      let dead' : is_zombie (proc_at k j).state ≡ true = rw start at dead in
      let child' : (proc_at k j).ppid ≡ (proc_at k i).pid = rw start at child in
      let p = record (proc_at k j) { pml4 = none; kstack = none; state = unused } in
      let run : wait_round c k ≡ (
        reaped (proc_at k j).pid (proc_at k j).exit_code (proc_at k j).pml4 (proc_at k j).kstack,
        set_proc j p k,
      ) =
        rw (wait_round, on, e) refl in
      let at : proc_at (set_proc j p k) j ≡ p =
        get_or-set_self k.table j p zero_proc (omega (arith, high)) in
      subst (Waited i c k) (sym run) (
        reaps j (record { dead = is_zombie-eq (proc_at k j).state dead'; child = child' }) refl
          (ap (λ (q : Proc). q.state) at) (ap (λ (q : Proc). q.pml4) at)
          (ap (λ (q : Proc). q.kstack) at) (λ m d. get_or-set_ne k.table p zero_proc d))
]

-- After a process exits, it is a zombie with the status that it gave and with its own pid and parent,
-- for sys_wait to find; its processor is idle, and no other slot has changed.
pub sys_exit-zombie :
    (closes : ℕ → Bool) (c i status : ℕ) (k : Kernel)
    → IsPlaced k
    → get_or k.cpus c none ≡ some i
    → let k' = sys_exit closes c status k in
      IsZombieOf (proc_at k i).ppid i k'
      × ((proc_at k' i).exit_code ≡ status)
      × ((proc_at k' i).pid ≡ (proc_at k i).pid)
      × ((m : ℕ) → i ≢ m → proc_at k' m ≡ proc_at k m)
      × (k'.cpus ≡ set k.cpus c none)
unfolding sys_exit
sys_exit-zombie closes c i status k v on =
    let t = close_fds closes (record { files = (proc_at k i).files; refcnt = k.refcnt }) in
    let p = record (proc_at k i) { files = t.files; exit_code = status; state = zombie } in
    let at : get_or (set k.table i p) i zero_proc ≡ p =
      get_or-set_self k.table i p zero_proc
        (omega (arith, v.size, (on_cpu-running c i k on v).0)) in
    rw (sys_exit, on)
      (
        record { dead = ap (λ (q : Proc). q.state) at; child = ap (λ (q : Proc). q.ppid) at },
        ap (λ (q : Proc). q.exit_code) at,
        ap (λ (q : Proc). q.pid) at,
        λ m d. get_or-set_ne k.table p zero_proc d,
        refl,
      )
