-- ===== src/Descriptors/Emptied.antt =====
-- What the calls of kernel/proc.c leave of the table of descriptors, whatever the counts are.
use jeos.Prelude.{
  ℕ, zero, suc, ◌+◌, ◌≤◌, ◌<◌, ◌≡◌, refl, sym, ap, ◌∙◌, inl, inr, Bool, Option, none, List, [], ◌∷◌,
  ◌==◌, if◌then◌else◌, Bool-cases, Option-cases, length, length-set, get_or, set, dec_lt, arith,
}
use jeos.Descriptors.{
  Table, max_fds, file_get, file_put, vfs_close, close_at, close_loop, close_fds,
}

pub file_get-files : (f : ℕ) (t : Table) → (file_get f t).files ≡ t.files
unfolding file_get
file_get-files f t = refl

get_or-set-none :
    (fs : List (Option ℕ)) (i j : ℕ)
    → get_or (set fs i none) j none ≡ (if i == j then none else get_or fs j none)
get_or-set-none [] i j = ground arith
get_or-set-none (x ∷ fs) zero zero = refl
get_or-set-none (x ∷ fs) zero (suc j) = ground arith
get_or-set-none (x ∷ fs) (suc i) zero = ground arith
get_or-set-none (x ∷ fs) (suc i) (suc j) = ground (arith, get_or-set-none fs i j)

vfs_close-files : (closes : ℕ → Bool) (f : ℕ) (t : Table) → (vfs_close closes f t).files ≡ t.files
unfolding vfs_close file_put
vfs_close-files closes f t = elim (Bool-cases (closes f)) [
  | inl e ↦ rw (vfs_close, e) refl
  | inr e ↦ rw (vfs_close, e) refl
]

close_at-files :
    (closes : ℕ → Bool) (i j : ℕ) (t : Table)
    → (get_or (close_at closes i t).files j none ≡ (if i == j then none else get_or t.files j none))
      × (length (close_at closes i t).files ≡ length t.files)
unfolding close_at
close_at-files closes i j t = elim (Option-cases (get_or t.files i none)) [
  | inl e ↦
      let at : i ≡ j → get_or t.files j none ≡ none =
        λ q. ap (λ k. get_or t.files k none) (sym q) ∙ e in
      rw (close_at, e) (ground (arith, at), refl)
  | inr (g, e) ↦
      rw (close_at, e, vfs_close-files closes g t)
        (get_or-set-none t.files i j, length-set t.files i none)
]

close_loop-files :
    (closes : ℕ → Bool) (rounds i j : ℕ) (t : Table)
    → let t' = close_loop closes rounds i t in
      (length t'.files ≡ length t.files)
      × (get_or t.files j none ≡ none → get_or t'.files j none ≡ none)
      × (i ≤ j → j < i + rounds → get_or t'.files j none ≡ none)
unfolding close_loop
close_loop-files closes zero i j t = (refl, λ e. e, λ a b. absurd (omega arith))
close_loop-files closes (suc r) i j t =
    let (at, size) = close_at-files closes i j t in
    let (size', still, later) = close_loop-files closes r (i + 1) j (close_at closes i t) in
    (
      size' ∙ size,
      λ e. still (ground (arith, at)),
      λ a b. elim (dec_lt i j) [
        | yes h ↦ later (omega arith) (omega arith)
        | no h ↦ still (ground (arith, at))
      ],
    )

beyond : (fs : List (Option ℕ)) (j : ℕ) → length fs ≤ j → get_or fs j none ≡ none
beyond [] j h = refl
beyond (v ∷ fs) zero h = absurd (omega arith)
beyond (v ∷ fs) (suc j) h = beyond fs j (omega arith)

-- After `proc_close_fds` no descriptor is left, whatever the drivers' close returns.
pub close_fds-files :
    (closes : ℕ → Bool) (t : Table)
    → length t.files ≡ max_fds
    → let t' = close_fds closes t in
      (length t'.files ≡ max_fds) × ((j : ℕ) → get_or t'.files j none ≡ none)
unfolding close_fds
close_fds-files closes t size = (
  (close_loop-files closes max_fds 0 0 t).0 ∙ size,
  λ j.
      let (size', still, later) = close_loop-files closes max_fds 0 j t in
      elim (dec_lt j max_fds) [
        | yes h ↦ later (omega arith) (omega arith)
        | no h ↦ beyond (close_loop closes max_fds 0 t).files j (omega (arith, size', size))
      ],
)
