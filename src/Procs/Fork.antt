-- ===== src/Procs/Fork.antt =====
-- proc_fork of kernel/proc.c: what the child shares with its parent.
use jeos.Prelude.{ℕ, ◌+◌, ◌≡◌, ◌≢◌, refl, some}
use jeos.Descriptors.Count.{count}
use jeos.Descriptors.Owned.{Owned}
use jeos.Procs.{embryo, runnable, Kernel, proc_at, free_slot, proc_alloc, build_fork_tf}
use jeos.Procs.Calls.{claimed}

pub proc_alloc-given :
    (i s : ℕ) (k : Kernel)
    → free_slot 0 k.table ≡ some i
    → proc_alloc (some s) k ≡ (
      some i,
      claimed i (record (proc_at k i) { pid = k.next_pid; kstack = some s; state = embryo }) k,
    )
unfolding proc_alloc
proc_alloc-given i s k e = rw (proc_alloc, e) refl

-- What a fork gives: the child, in its own slot, is runnable, with its own stack and address space, and
-- its first frame is that of its parent's call with the result 0. It has its parent's heap end, name and
-- open files, with one more reference to each for each descriptor. No other slot changes.
pub record IsForked (parent i s m : ℕ) (k k' : Kernel) : Type 0 where
  pub state : (proc_at k' i).state ≡ runnable
  pub ppid : (proc_at k' i).ppid ≡ (proc_at k parent).pid
  pub pml4 : (proc_at k' i).pml4 ≡ some m
  pub kstack : (proc_at k' i).kstack ≡ some s
  pub first_frame : (proc_at k' i).first_frame ≡ build_fork_tf (proc_at k parent).tf
  pub brk : (proc_at k' i).brk ≡ (proc_at k parent).brk
  pub name : (proc_at k' i).name ≡ (proc_at k parent).name
  pub files : (proc_at k' i).files ≡ (proc_at k parent).files
  pub tf : (proc_at k' i).tf ≡ build_fork_tf (proc_at k parent).tf
  pub refcnt : (f : ℕ) → k'.refcnt f ≡ k.refcnt f + count f (proc_at k parent).files
  pub others : (j : ℕ) → i ≢ j → proc_at k' j ≡ proc_at k j
