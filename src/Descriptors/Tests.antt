-- ===== src/Descriptors/Tests.antt =====
-- Runs of the descriptor calls on a process with one file at two descriptors.
use jeos.Prelude.{
  ℕ, ◌≡◌, refl, Bool, true, none, some, ◌∷◌, ◌==◌, if◌then◌else◌, get_or, replicate, arith,
}
use jeos.Descriptors.{Table, failed, sys_dup, close_fds, fd_get}
use jeos.Descriptors.Count.{refers, count}
use jeos.Descriptors.Owned.{Owned}
use jeos.Descriptors.Exit.{close_fds-refcnt}

abbrev all_close : ℕ → Bool
all_close f = true

all_close-true : (f : ℕ) → all_close f ≡ true
all_close-true f = refl

abbrev nobody : ℕ → ℕ
nobody g = 0

-- The file 7 at the descriptors 0 and 1.
abbrev shared : Table
shared = record {
  files = some 7 ∷ some 7 ∷ replicate 30 none;
  refcnt = λ g. if 7 == g then 2 else 0;
}

shared-Owned : Owned nobody shared
shared-Owned = record {
  size = refl;
  counts = λ g. unfold count refers in ground arith;
  room = λ g. omega arith;
}

dup_closed : sys_dup all_close 9 shared ≡ failed shared
unfolding sys_dup fd_get
dup_closed = refl

close_fds-refcnt_example :
    ((j : ℕ) → get_or (close_fds all_close shared).files j none ≡ none)
    × ((g : ℕ) → (close_fds all_close shared).refcnt g ≡ nobody g)
close_fds-refcnt_example = close_fds-refcnt nobody all_close all_close-true shared shared-Owned
