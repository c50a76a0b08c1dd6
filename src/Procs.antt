-- ===== src/Procs.antt =====
-- Processes: the table, the calls and the scheduler of kernel/proc.c, with sys_exit and sys_wait of
-- kernel/syscall.c. A process is named by its index in the table; each processor runs `scheduler` and
-- has one `c->proc`. A section under proc_lock is one step, and so is a call that builds a process in
-- a slot that it has marked, since no one else looks at the slot. What kalloc, create_user_pml4, the ELF
-- loader and setup_user_stack return are arguments; a stack and an address space are numbers.
pub mod Making
pub mod Scheduling
pub mod Slots
pub mod Placed
pub mod Files
pub mod Writes
pub mod Calls
pub mod Births
pub mod Moves
pub mod Runs
pub mod Fork
pub mod Turns
pub mod Reaping
pub mod Start
pub mod Arguments
pub mod Reading
pub mod Loader
mod Tests
use jeos.Prelude.{
  ℕ, zero, suc, ◌+◌, ◌%◌, ◌^◌, Bool, true, false, not, ◌&&◌, Option, none, some, List, [], ◌∷◌,
  ◌==◌, if◌then◌else◌, get_or, set, take, replicate,
}
use jeos.Descriptors.{Table, max_fds, file_get, close_fds}

abbrev pub max_procs : ℕ
max_procs = 64

abbrev pub user_stack_top : ℕ
user_stack_top = 0x7FFFFFF000

abbrev pub user_heap_base : ℕ
user_heap_base = 0x40000000

pub data State : Type 0 where
  unused embryo runnable running zombie : State

-- `trap_frame`.
pub record TrapFrame : Type 0 where
  pub r15 : ℕ
  pub r14 : ℕ
  pub r13 : ℕ
  pub r12 : ℕ
  pub r11 : ℕ
  pub r10 : ℕ
  pub r9 : ℕ
  pub r8 : ℕ
  pub rbp : ℕ
  pub rdi : ℕ
  pub rsi : ℕ
  pub rdx : ℕ
  pub rcx : ℕ
  pub rbx : ℕ
  pub rax : ℕ
  pub int_no : ℕ
  pub error_code : ℕ
  pub rip : ℕ
  pub cs : ℕ
  pub rflags : ℕ
  pub rsp : ℕ
  pub ss : ℕ

-- A frame after memset.
abbrev pub zero_frame : TrapFrame
zero_frame = record {
  r15 = 0;
  r14 = 0;
  r13 = 0;
  r12 = 0;
  r11 = 0;
  r10 = 0;
  r9 = 0;
  r8 = 0;
  rbp = 0;
  rdi = 0;
  rsi = 0;
  rdx = 0;
  rcx = 0;
  rbx = 0;
  rax = 0;
  int_no = 0;
  error_code = 0;
  rip = 0;
  cs = 0;
  rflags = 0;
  rsp = 0;
  ss = 0;
}

-- `struct proc`; `first_frame` is the frame at the top of the kernel stack, with which the process
-- goes to user mode when it is scheduled first.
pub record Proc : Type 0 where
  pub pid : ℕ
  pub ppid : ℕ
  pub state : State
  pub exit_code : ℕ
  pub pml4 : Option ℕ
  pub kstack : Option ℕ
  pub first_frame : TrapFrame
  pub tf : TrapFrame
  pub brk : ℕ
  pub name : List ℕ
  pub files : List (Option ℕ)

-- A slot that was never used: the table is in zeroed memory.
unfoldable pub zero_proc : Proc
zero_proc = record {
  pid = 0;
  ppid = 0;
  state = unused;
  exit_code = 0;
  pml4 = none;
  kstack = none;
  first_frame = zero_frame;
  tf = zero_frame;
  brk = 0;
  name = [];
  files = replicate max_fds none;
}

-- The table, the next pid, for every processor `c->proc` and the `i` of its scheduler, and the
-- reference counts of the open files.
pub record Kernel : Type 0 where
  pub table : List Proc
  pub next_pid : ℕ
  pub cpus : List (Option ℕ)
  pub turns : List ℕ
  pub refcnt : ℕ → ℕ

abbrev pub proc_at : Kernel → ℕ → Proc
proc_at k i = get_or k.table i zero_proc

abbrev pub set_proc : ℕ → Proc → Kernel → Kernel
set_proc i p k = record k { table = set k.table i p }

abbrev pub is_unused : State → Bool
is_unused unused = true
is_unused _ = false

abbrev pub is_runnable : State → Bool
is_runnable runnable = true
is_runnable _ = false

abbrev pub is_zombie : State → Bool
is_zombie zombie = true
is_zombie _ = false

-- The search of `proc_alloc`, from the index `i` on.
unfoldable pub free_slot : (i : ℕ) → List Proc → Option ℕ
free_slot i [] = none
free_slot i (p ∷ ps) =
    let later = free_slot (i + 1) ps in if is_unused p.state then some i else later

-- `proc_alloc`, with what kalloc returns for the kernel stack.
unfoldable pub proc_alloc : (kstack : Option ℕ) → Kernel → Option ℕ × Kernel
proc_alloc kstack k = elim (free_slot 0 k.table) [
  | none ↦ (none, k)
  | some i ↦
      let k' = record k { next_pid = (k.next_pid + 1) % 2 ^ 32 } in
      let p = record (proc_at k i) { pid = k.next_pid; kstack = kstack } in
      elim kstack [
        | none ↦ (none, set_proc i (record p { state = unused }) k')
        | some _ ↦ (some i, set_proc i (record p { state = embryo }) k')
      ]
]

-- `kstack_setup`.
unfoldable pub kstack_setup : (entry user_rsp : ℕ) → Proc → Proc
kstack_setup entry user_rsp p =
    if not (p.tf.rip == 0) then record p { first_frame = p.tf } else record p {
      first_frame = record zero_frame {
        cs = 0x43;
        ss = 0x3B;
        rip = entry;
        rsp = user_rsp;
        rflags = 0x202;
      };
    }

-- `build_fork_tf`.
unfoldable pub build_fork_tf : TrapFrame → TrapFrame
build_fork_tf src = record zero_frame {
  rsp = src.rsp;
  rip = src.rip;
  rcx = src.rip;
  rflags = src.rflags;
  r11 = src.rflags;
  rbx = src.rbx;
  rbp = src.rbp;
  r12 = src.r12;
  r13 = src.r13;
  r14 = src.r14;
  r15 = src.r15;
  rdi = src.rdi;
  rsi = src.rsi;
  rdx = src.rdx;
  r10 = src.r10;
  r8 = src.r8;
  r9 = src.r9;
  cs = 0x43;
  ss = 0x3B;
  rax = 0;
}
