-- ===== src/Procs/Scheduling.antt =====
-- The calls by which a process gives up its processor, sys_exit and sys_wait of kernel/syscall.c and
-- yield of kernel/proc.c, and the loop of `scheduler`.
use jeos.Prelude.{
  ℕ, ◌+◌, ◌%◌, Bool, ◌&&◌, Option, none, some, List, [], ◌∷◌, ◌==◌, if◌then◌else◌, get_or, set,
}
use jeos.Descriptors.{close_fds}
use jeos.Procs.{
  unused, running, runnable, zombie, Proc, Kernel, max_procs, proc_at, set_proc, is_runnable,
  is_zombie,
}

-- `sys_exit` on the processor `c`; `closes` says of which files the driver's close succeeds.
unfoldable pub sys_exit : (closes : ℕ → Bool) (c status : ℕ) → Kernel → Kernel
sys_exit closes c status k = elim (get_or k.cpus c none) [
  | none ↦ k
  | some i ↦
      (let p = proc_at k i in
        let t = close_fds closes (record { files = p.files; refcnt = k.refcnt }) in
        let p' = record p { files = t.files; exit_code = status; state = zombie } in
        set_proc i p' (record k { refcnt = t.refcnt; cpus = set k.cpus c none }))
]

-- `yield` under the lock, with the processor and the process that it read before it took the lock.
unfoldable pub yield_locked : (c i : ℕ) → Kernel → Kernel
yield_locked c i k =
    set_proc i (record (proc_at k i) { state = runnable }) (record k { cpus = set k.cpus c none })

-- `yield` where no interrupt comes between its reads and the lock.
unfoldable pub yield : (c : ℕ) → Kernel → Kernel
yield c k = elim (get_or k.cpus c none) [ none ↦ k | some i ↦ yield_locked c i k ]

-- The search of `sys_wait` for a zombie child, from the index `i` on.
unfoldable pub zombie_child : (parent i : ℕ) → List Proc → Option ℕ
zombie_child parent i [] = none
zombie_child parent i (p ∷ ps) =
    let later = zombie_child parent (i + 1) ps in
    if is_zombie p.state && (p.ppid == parent) then some i else later

-- One round of `sys_wait`: it returns with a child, whose address space and stack it frees, or
-- yields. A search that finds no child changes nothing, so that what comes between it and the yield
-- comes before the round.
pub data Wait : Type 0 where
  no_process : Wait
  reaped : (pid exit_code : ℕ) (pml4 kstack : Option ℕ) → Wait
  waits : Wait

unfoldable pub wait_round : (c : ℕ) → Kernel → Wait × Kernel
wait_round c k = elim (get_or k.cpus c none) [
  | none ↦ (no_process, k)
  | some i ↦ elim (zombie_child (proc_at k i).pid 0 k.table) [
    | none ↦ (waits, yield c k)
    | some j ↦
        (let p = proc_at k j in
          (
            reaped p.pid p.exit_code p.pml4 p.kstack,
            set_proc j (record p { pml4 = none; kstack = none; state = unused }) k,
          ))
  ]
]

-- One round of the loop of `scheduler` on the processor `c`, up to the switch.
unfoldable pub schedule : (c : ℕ) → Kernel → Kernel
schedule c k =
    let i = get_or k.turns c 0 in
    let k' = record k { turns = set k.turns c ((i + 1) % max_procs) } in
    if is_runnable (proc_at k i).state
    then set_proc i (record (proc_at k i) { state = running })
        (record k' { cpus = set k.cpus c (some i) })
    else k'
