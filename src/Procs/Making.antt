-- ===== src/Procs/Making.antt =====
-- The calls of kernel/proc.c that make a process or its program: fork, create and exec.
use jeos.Prelude.{
  ℕ, zero, suc, ◌+◌, Option, none, some, List, [], ◌∷◌, ◌==◌, if◌then◌else◌, get_or, set, take,
}
use jeos.Descriptors.{Table, max_fds, file_get}
use jeos.Procs.{
  unused, runnable, Kernel, user_stack_top, user_heap_base, proc_at, set_proc, proc_alloc,
  kstack_setup, build_fork_tf,
}

-- The loop of `proc_fork` over the descriptors, at `i` with `rounds` to go.
unfoldable pub share_at : ℕ → List (Option ℕ) → Table → Table
share_at i parent t = elim (get_or parent i none) [
  | none ↦ t
  | some f ↦ let t' = file_get f t in record t' { files = set t'.files i (some f) }
]

unfoldable pub share_loop : (rounds i : ℕ) → List (Option ℕ) → Table → Table
share_loop zero i parent t = t
share_loop (suc r) i parent t = share_loop r (i + 1) parent (share_at i parent t)

-- `proc_fork` from the address space on, for the parent in the slot `parent` and the child in `i`. The
-- address space is a name for the tables that create_user_pml4 made and copy_user_pml4 filled.
unfoldable pub proc_fork_in : (parent i : ℕ) (pml4 : Option ℕ) → Kernel → Option ℕ × Kernel
proc_fork_in parent i none k =
    (none, set_proc i (record (proc_at k i) { pml4 = none; state = unused }) k)
proc_fork_in parent i (some space) k =
    let p = proc_at k parent in
    let child =
      kstack_setup 0 0 (record (proc_at k i) { pml4 = some space; tf = build_fork_tf p.tf }) in
    let t = share_loop max_fds 0 p.files (record { files = child.files; refcnt = k.refcnt }) in
    let child' = record child {
      files = t.files;
      name = p.name;
      ppid = p.pid;
      brk = p.brk;
      state = runnable;
    } in
    (some child.pid, set_proc i child' (record k { refcnt = t.refcnt }))

-- `proc_fork` on the processor `c`; the result is a pid, or `none` for -1.
unfoldable pub proc_fork : (c : ℕ) (kstack pml4 : Option ℕ) → Kernel → Option ℕ × Kernel
proc_fork c kstack pml4 k = elim (get_or k.cpus c none) [
  | none ↦ (none, k)
  | some parent ↦
      (let (slot, k₁) = proc_alloc kstack k in
        elim slot [ none ↦ (none, k₁) | some i ↦ proc_fork_in parent i pml4 k₁ ])
]

-- The text behind the last slash of a path, and its first fifteen bytes: the name of a process.
unfoldable pub basename : (name path : List ℕ) → List ℕ
basename name [] = name
basename name (c ∷ s) = basename (if c == b'/' then s else name) s

abbrev pub name_of : List ℕ → List ℕ
name_of path = take 15 (basename path path)

-- `proc_init_fds`, with what vfs_open returns for the two opens of the console.
unfoldable pub init_fds : (input output : Option ℕ) → Table → Table
init_fds input output t =
    let t' : Table = elim input [
      | none ↦ t
      | some f ↦ record t { files = set t.files 0 (some f) }
    ] in
    elim output [
      | none ↦ t'
      | some f ↦
          (let t'' = file_get f (record t' { files = set t'.files 1 (some f) }) in
            record t'' { files = set t''.files 2 (some f) })
    ]

-- `proc_create` from the address space on, for the process in the slot `i`.
unfoldable pub proc_create_in :
    (path : List ℕ) (i : ℕ) (pml4 entry input output : Option ℕ) → Kernel → Option ℕ × Kernel
proc_create_in path i none entry input output k =
    (none, set_proc i (record (proc_at k i) { pml4 = none; state = unused }) k)
proc_create_in path i (some space) none input output k =
    (none, set_proc i (record (proc_at k i) { pml4 = some space; state = unused }) k)
proc_create_in path i (some space) (some e) input output k =
    let p = kstack_setup e user_stack_top (record (proc_at k i) { pml4 = some space }) in
    let t = init_fds input output (record { files = p.files; refcnt = k.refcnt }) in
    let p' = record p {
      files = t.files;
      name = name_of path;
      ppid = 0;
      brk = user_heap_base;
      state = runnable;
    } in
    (some i, set_proc i p' (record k { refcnt = t.refcnt }))

-- `proc_create` of a file that could be read; `entry` is what elf_load_segments returns.
unfoldable pub proc_create :
    (path : List ℕ) (kstack pml4 entry input output : Option ℕ) → Kernel → Option ℕ × Kernel
proc_create path kstack pml4 entry input output k =
    let (slot, k₁) = proc_alloc kstack k in
    elim slot [ none ↦ (none, k₁) | some i ↦ proc_create_in path i pml4 entry input output k₁ ]

-- `proc_exec` of a file that could be read, with the new address space, the entry and the stack
-- pointer; the old address space is freed.
unfoldable pub proc_exec :
    (c : ℕ) (path : List ℕ) (pml4 entry : Option ℕ) (user_rsp : ℕ)
    → Kernel
    → Option (Option ℕ) × Kernel
proc_exec c path pml4 entry user_rsp k = elim (get_or k.cpus c none) [
  | none ↦ (none, k)
  | some i ↦ elim pml4 [
    | none ↦ (none, k)
    | some space ↦ elim entry [
      | none ↦ (none, k)
      | some e ↦
          (let p = proc_at k i in
            let tf = record p.tf {
              rip = e;
              rsp = user_rsp;
              rflags = 0x202;
              cs = 0x43;
              ss = 0x3B;
            } in
            let p' = record p {
              brk = user_heap_base;
              tf = tf;
              pml4 = some space;
              name = name_of path;
            } in
            (some p.pml4, set_proc i p' k))
    ]
  ]
]
