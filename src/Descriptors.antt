-- ===== src/Descriptors.antt =====
-- The descriptors of a process: fd_alloc, fd_get and proc_close_fds of kernel/proc.c, the calls of
-- kernel/syscall.c that move descriptors, and the reference counts of kernel/vfs.c that they keep. An
-- open file is a number; `closes` says of which files the driver's `close` succeeds.
pub mod Count
pub mod Owned
pub mod Calls
pub mod Exit
pub mod Emptied
mod Tests
use jeos.Prelude.{
  ℕ, zero, suc, ◌+◌, ◌-◌, ◌%◌, ◌^◌, Bool, true, false, Option, none, some, List, [], ◌∷◌, ltb, ◌==◌,
  if◌then◌else◌, get_or, set,
}

abbrev pub max_fds : ℕ
max_fds = 32

-- The files of the process, and the reference count of every open file.
pub record Table : Type 0 where
  pub files : List (Option ℕ)
  pub refcnt : ℕ → ℕ

-- What a call does: it returns a number, fails with -1, or writes outside the table.
pub data Call : Type 0 where
  returned : ℕ → Table → Call
  failed : Table → Call
  wild : Call

abbrev pub set_count : ℕ → ℕ → Table → Table
set_count f n t = record t { refcnt = λ g. if f == g then n else t.refcnt g }

-- `vfs_file_get` and `vfs_file_put`; a file with no reference left is freed.
pub file_get : ℕ → Table → Table
file_get f t = set_count f ((t.refcnt f + 1) % 2 ^ 32) t

pub file_put : ℕ → Table → Table
file_put f t = set_count f ((t.refcnt f + 2 ^ 32 - 1) % 2 ^ 32) t

pub vfs_close : (closes : ℕ → Bool) → ℕ → Table → Table
vfs_close closes f t = if closes f then file_put f t else t

-- The loop of `fd_alloc`, at the descriptor `i`: the first free one, and the files with it taken.
pub alloc_loop : (i f : ℕ) → List (Option ℕ) → Option (ℕ × List (Option ℕ))
alloc_loop i f [] = none
alloc_loop i f (none ∷ fs) = some (i, some f ∷ fs)
alloc_loop i f (some g ∷ fs) = elim (alloc_loop (i + 1) f fs) [
  | none ↦ none
  | some (j, fs') ↦ some (j, some g ∷ fs')
]

pub fd_alloc : ℕ → Table → Option (ℕ × Table)
fd_alloc f t = elim (alloc_loop 0 f t.files) [
  | none ↦ none
  | some (i, fs) ↦ some (i, record t { files = fs })
]

-- `fd_get(p, (i32)fd)`.
pub fd_get : Table → ℕ → Option ℕ
fd_get t fd = let i = fd % 2 ^ 32 in if ltb i max_fds then get_or t.files i none else none

pub sys_close : (closes : ℕ → Bool) → ℕ → Table → Call
sys_close closes fd t = elim (fd_get t fd) [
  | none ↦ failed t
  | some f ↦
      if ltb fd max_fds
      then returned 0 (vfs_close closes f (record t { files = set t.files fd none }))
      else wild
]

pub sys_dup : (closes : ℕ → Bool) → ℕ → Table → Call
sys_dup closes fd t = elim (fd_get t fd) [
  | none ↦ failed t
  | some f ↦ elim (fd_alloc f (file_get f t)) [
    | none ↦ failed (vfs_close closes f (file_get f t))
    | some (new_fd, t') ↦ returned new_fd t'
  ]
]

-- The file at the new descriptor is closed.
pub close_at : (closes : ℕ → Bool) → ℕ → Table → Table
close_at closes fd t = elim (get_or t.files fd none) [
  | none ↦ t
  | some g ↦ let t' = vfs_close closes g t in record t' { files = set t'.files fd none }
]

pub sys_dup2 : (closes : ℕ → Bool) → (old_fd new_fd : ℕ) → Table → Call
sys_dup2 closes old_fd new_fd t =
    if ltb new_fd max_fds
    then elim (fd_get t old_fd) [
      | none ↦ failed t
      | some f ↦
          if old_fd == new_fd
          then returned new_fd t
          else (let t' = file_get f (close_at closes new_fd t) in
              returned new_fd (record t' { files = set t'.files new_fd (some f) }))
    ]
    else failed t

-- `proc_close_fds` at the descriptor `i`, with `rounds` to go.
pub close_loop : (closes : ℕ → Bool) → (rounds i : ℕ) → Table → Table
close_loop closes zero i t = t
close_loop closes (suc k) i t = close_loop closes k (i + 1) (close_at closes i t)

pub close_fds : (closes : ℕ → Bool) → Table → Table
close_fds closes t = close_loop closes max_fds 0 t
