-- ===== src/Procs/Moves.antt =====
-- yield, exec, exit, wait and the scheduler as sequences of elementary writes: kernel/proc.c and
-- kernel/syscall.c.
use jeos.Prelude.{
  ℕ, ◌+◌, ◌-◌, ◌%◌, ◌<◌, ◌≡◌, refl, inl, inr, Bool, true, Option, none, some, List, Bool-cases,
  Option-cases, length, get_or, set, dec_lt, arith,
}
use jeos.Descriptors.{close_fds}
use jeos.Descriptors.Emptied.{close_fds-files}
use jeos.Procs.{
  unused, running, runnable, zombie, Kernel, max_procs, proc_at, is_runnable, is_zombie,
  user_heap_base, zero_proc,
}
use jeos.Procs.Making.{proc_exec, name_of}
use jeos.Procs.Scheduling.{sys_exit, yield_locked, yield, zombie_child, wait_round, schedule}
use jeos.Procs.Slots.{get_or_outside, zombie_child-some}
use jeos.Procs.Files.{same-HasFiles, live-HasFiles}
use jeos.Procs.Placed.{IsPlaced, on_cpu-running}
use jeos.Procs.Writes.{done, update, leave, take, turn}
use jeos.Procs.Calls.{Does}

pub yield-Does : (c : ℕ) (k : Kernel) → Does k (yield c k)
unfolding yield yield_locked
yield-Does c k = elim (Option-cases (get_or k.cpus c none)) [
  | inl idle ↦ rw (idle, yield) (0, omega arith, done)
  | inr (i, here) ↦
      rw (here, yield, yield_locked)
        (
          0,
          omega arith,
          leave c i (record (proc_at k i) { state = runnable }) k.refcnt here refl refl
              (λ h. live-HasFiles (record (proc_at k i) { state = runnable }) h.size refl) done,
        )
]

pub sys_exit-Does :
    (closes : ℕ → Bool) (c status : ℕ) (k : Kernel) → Does k (sys_exit closes c status k)
unfolding sys_exit
sys_exit-Does closes c status k = elim (Option-cases (get_or k.cpus c none)) [
  | inl idle ↦ rw (idle, sys_exit) (0, omega arith, done)
  | inr (i, here) ↦
      let p = proc_at k i in
      let t = close_fds closes (record { files = p.files; refcnt = k.refcnt }) in
      rw (here, sys_exit)
        (
          0,
          omega arith,
          leave c i (record p { files = t.files; exit_code = status; state = zombie }) t.refcnt here
              refl refl
              (λ h.
                let (size, empty) =
                  close_fds-files closes (record { files = p.files; refcnt = k.refcnt }) h.size in
                record { size = size; empty = λ d. empty })
              done,
        )
]

runnable-inside :
    (i : ℕ) (k : Kernel) → IsPlaced k → is_runnable (proc_at k i).state ≡ true → i < max_procs
unfolding zero_proc
runnable-inside i k v ready = elim (dec_lt i max_procs) [
  | yes h ↦ h
  | no h ↦
      let e : proc_at k i ≡ zero_proc = get_or_outside i k.table (omega (arith, v.size)) in
      let never : is_runnable zero_proc.state ≡ true = rw e at ready in cc
]

pub schedule-Does :
    (c : ℕ) (k : Kernel)
    → c < length k.cpus
    → get_or k.cpus c none ≡ none
    → IsPlaced k
    → Does k (schedule c k)
unfolding schedule
schedule-Does c k there idle v =
    let i = get_or k.turns c 0 in
    let ts = set k.turns c ((i + 1) % max_procs) in
    elim (Bool-cases (is_runnable (proc_at k i).state)) [
      | inl ready ↦
          rw (ready, schedule)
            (
              0,
              omega arith,
              take c i (record (proc_at k i) { state = running }) ts there idle
                  (runnable-inside i k v ready) (ground arith) (ground arith) refl refl
                  (λ h. live-HasFiles (record (proc_at k i) { state = running }) h.size refl) done,
            )
      | inr other ↦ rw (other, schedule) (0, omega arith, turn ts done)
    ]

pub wait_round-Does : (c : ℕ) (k : Kernel) → IsPlaced k → Does k (wait_round c k).1
unfolding wait_round
wait_round-Does c k v = elim (Option-cases (get_or k.cpus c none)) [
  | inl idle ↦ rw (idle, wait_round) (0, omega arith, done)
  | inr (i, here) ↦ elim (Option-cases (zombie_child (proc_at k i).pid 0 k.table)) [
    | inl childless ↦ rw (wait_round, here, childless) (yield-Does c k)
    | inr (j, e) ↦
        let (low, high, dead₀, child) = zombie_child-some (proc_at k i).pid 0 j k.table e in
        let start : j - 0 ≡ j = omega arith in
        let dead : is_zombie (proc_at k j).state ≡ true = rw start at dead₀ in
        let p = record (proc_at k j) { pml4 = none; kstack = none; state = unused } in
        rw (wait_round, here, e)
          (
            0,
            omega arith,
            update j p k.refcnt (omega (arith, v.size)) (ground (arith, dead)) refl (λ u. refl)
                (same-HasFiles (proc_at k j) p refl (λ d. ground (arith, dead))) done,
          )
  ]
]

pub proc_exec-Does :
    (c : ℕ) (path : List ℕ) (pml4 entry : Option ℕ) (sp : ℕ) (k : Kernel)
    → IsPlaced k
    → Does k (proc_exec c path pml4 entry sp k).1
unfolding proc_exec
proc_exec-Does c path none entry sp k v = elim (Option-cases (get_or k.cpus c none)) [
  | inl idle ↦ rw (proc_exec, idle) (0, omega arith, done)
  | inr (i, here) ↦ rw (proc_exec, here) (0, omega arith, done)
]
proc_exec-Does c path (some space) none sp k v = elim (Option-cases (get_or k.cpus c none)) [
  | inl idle ↦ rw (proc_exec, idle) (0, omega arith, done)
  | inr (i, here) ↦ rw (proc_exec, here) (0, omega arith, done)
]
proc_exec-Does c path (some space) (some e) sp k v = elim (Option-cases (get_or k.cpus c none)) [
  | inl idle ↦ rw (proc_exec, idle) (0, omega arith, done)
  | inr (i, here) ↦
      let p = proc_at k i in
      let q = record p {
        brk = user_heap_base;
        tf = record p.tf { rip = e; rsp = sp; rflags = 0x202; cs = 0x43; ss = 0x3B };
        pml4 = some space;
        name = name_of path;
      } in
      rw (proc_exec, here)
        (
          0,
          omega arith,
          update i q k.refcnt (on_cpu-running c i k here v).0 refl refl (λ u. u)
              (same-HasFiles p q refl (λ d. d)) done,
        )
]
