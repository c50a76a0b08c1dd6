-- ===== src/Descriptors/Calls.antt =====
-- The calls of kernel/syscall.c that move descriptors keep every count equal to the descriptors that
-- refer to the file, when the drivers' `close` succeeds.
use jeos.Prelude.{
  ℕ, ◌+◌, ◌%◌, ◌^◌, ◌<◌, ◌≡◌, refl, inl, inr, Bool, true, false, none, some, ltb, ◌==◌, Bool-cases,
  Option-cases, get_or, get_or-set_self, set, arith,
}
use jeos.Descriptors.{
  Table, wild, max_fds, file_get, file_put, vfs_close, alloc_loop, fd_alloc, fd_get, sys_close,
  sys_dup, close_at, sys_dup2,
}
use jeos.Descriptors.Count.{alloc_loop-Added}
use jeos.Descriptors.Owned.{
  Owned, OwnedAfter, emptied, filled, fd_get-some, file_put-file_get, dup_taken,
}

module _ (others : ℕ → ℕ) (closes : ℕ → Bool) (ok : (f : ℕ) → closes f ≡ true) where
  pub vfs_close-eq : (f : ℕ) (t : Table) → vfs_close closes f t ≡ file_put f t
  unfolding vfs_close
  vfs_close-eq f t = rw (ok f) refl

  pub close_at-Owned :
      (i : ℕ) (t : Table)
      → i < max_fds
      → Owned others t
      → Owned others (close_at closes i t) × (get_or (close_at closes i t).files i none ≡ none)
  unfolding close_at file_put
  close_at-Owned i t h o = elim (Option-cases (get_or t.files i none)) [
    | inl empty ↦ rw (empty, close_at) (o, empty)
    | inr (f, taken) ↦
        rw (taken, close_at, vfs_close-eq f t)
          (
            emptied others i f t h taken o,
            get_or-set_self t.files i none none (omega (arith, o.size)),
          )
  ]

  -- When every driver's `close` succeeds, `sys_close` of a number below 2^32 stays inside the table,
  -- and if the count of each file was that of its references before, it still is.
  pub sys_close-Owned :
      (fd : ℕ) (t : Table)
      → fd < 2 ^ 32
      → Owned others t
      → OwnedAfter others (sys_close closes fd t)
  unfolding sys_close file_put
  sys_close-Owned fd t small o = elim (Option-cases (fd_get t fd)) [
    | inl bad ↦ rw (bad, sys_close) o
    | inr (f, got) ↦
        let (inside, taken) = fd_get-some fd f t small got in
        let test : ltb fd max_fds ≡ true = ground arith in
        rw (got, sys_close, test, vfs_close-eq f (record t { files = set t.files fd none }))
          (emptied others fd f t inside taken o)
  ]

  -- When every driver's `close` succeeds, `sys_dup` of a number below 2^32 leaves the count of each
  -- file that of its references, if it was so before: also when the table is full.
  pub sys_dup-Owned :
      (fd : ℕ) (t : Table) → fd < 2 ^ 32 → Owned others t → OwnedAfter others (sys_dup closes fd t)
  unfolding sys_dup fd_alloc file_get
  sys_dup-Owned fd t small o = elim (Option-cases (fd_get t fd)) [
    | inl bad ↦ rw (bad, sys_dup) o
    | inr (f, got) ↦ elim (Option-cases (alloc_loop 0 f (file_get f t).files)) [
      | inl full ↦
          rw (got, sys_dup, full, vfs_close-eq f (file_get f t)) (file_put-file_get others f t o)
      | inr ((i, fs), found) ↦
          rw (got, sys_dup, found)
            (dup_taken others f i t fs (alloc_loop-Added 0 f i t.files fs found) o)
    ]
  ]

  -- When every driver's `close` succeeds, `sys_dup2` from a number below 2^32 to any number leaves the
  -- count of each file that of its references, if it was so before: also when it closes a file at the
  -- new descriptor.
  pub sys_dup2-Owned :
      (old_fd new_fd : ℕ) (t : Table)
      → old_fd < 2 ^ 32
      → Owned others t
      → OwnedAfter others (sys_dup2 closes old_fd new_fd t)
  unfolding sys_dup2 file_get
  sys_dup2-Owned old_fd new_fd t small o = elim (Bool-cases (ltb new_fd max_fds)) [
    | inr outside ↦ rw outside o
    | inl inside ↦ elim (Option-cases (fd_get t old_fd)) [
      | inl bad ↦ rw (inside, bad, sys_dup2) o
      | inr (f, got) ↦ elim (Bool-cases (old_fd == new_fd)) [
        | inl same ↦ rw (inside, got, sys_dup2, same) o
        | inr other ↦
            let (owned, free) = close_at-Owned new_fd t (ground arith) o in
            rw (inside, got, sys_dup2, other)
              (filled others new_fd f (close_at closes new_fd t) (ground arith) free owned)
      ]
    ]
  ]

-- `sys_close` of an open descriptor plus 2^32 passes the check, which looks at the low 32 bits, and
-- writes outside the table of files.
pub sys_close-wild :
    (closes : ℕ → Bool) (fd f : ℕ) (t : Table)
    → fd < max_fds
    → get_or t.files fd none ≡ some f
    → sys_close closes (fd + 2 ^ 32) t ≡ wild
unfolding sys_close fd_get
sys_close-wild closes fd f t inside e =
    let low : (fd + 2 ^ 32) % 2 ^ 32 ≡ fd = omega arith in
    let test : ltb fd max_fds ≡ true = ground arith in
    let outside : ltb (fd + 2 ^ 32) max_fds ≡ false = ground arith in
    rw (low, test, e, sys_close, outside) refl
