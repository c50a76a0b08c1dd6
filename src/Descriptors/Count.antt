-- ===== src/Descriptors/Count.antt =====
-- How many descriptors of a process refer to a file, kernel/proc.c.
use jeos.Prelude.{
  ℕ, zero, suc, ◌+◌, ◌<◌, ◌≡◌, refl, inl, inr, Option, none, some, List, [], ◌∷◌, ◌==◌,
  if◌then◌else◌, Option-cases, length, get_or, set, arith,
}
use jeos.Descriptors.{alloc_loop}

-- Whether a descriptor refers to the file `g`.
unfoldable pub refers : ℕ → Option ℕ → ℕ
refers g none = 0
refers g (some f) = if f == g then 1 else 0

unfoldable pub count : ℕ → List (Option ℕ) → ℕ
count g [] = 0
count g (v ∷ fs) = refers g v + count g fs

pub count-set :
    (g i : ℕ) (v : Option ℕ) (fs : List (Option ℕ))
    → i < length fs
    → count g (set fs i v) + refers g (get_or fs i none) ≡ count g fs + refers g v
unfolding count
count-set g i v [] h = absurd (omega arith)
count-set g zero v (w ∷ fs) h = omega arith
count-set g (suc i) v (w ∷ fs) h = omega (arith, count-set g i v fs (omega arith))

-- A taken descriptor adds a reference, and the table keeps its length.
pub record Added (f : ℕ) (fs fs' : List (Option ℕ)) : Type 0 where
  pub counts : (g : ℕ) → count g fs' ≡ count g fs + refers g (some f)
  pub same_length : length fs' ≡ length fs

pub alloc_loop-Added :
    (i f j : ℕ) (fs fs' : List (Option ℕ)) → alloc_loop i f fs ≡ some (j, fs') → Added f fs fs'
unfolding alloc_loop count refers
alloc_loop-Added i f j [] fs' e = absurd (ground arith)
alloc_loop-Added i f j (none ∷ fs) fs' e =
    let same : some f ∷ fs ≡ fs' = ground arith in
    rw (← same) (record { counts = λ g. omega arith; same_length = refl })
alloc_loop-Added i f j (some h ∷ fs) fs' e = elim (Option-cases (alloc_loop (i + 1) f fs)) [
  | inl full ↦ absurd (ground arith)
  | inr ((k, fs1), found) ↦
      let same : some h ∷ fs1 ≡ fs' = ground arith in
      let a = alloc_loop-Added (i + 1) f k fs fs1 found in
      rw (← same) (record {
        counts = λ g. omega (arith, a.counts g);
        same_length = omega (arith, a.same_length);
      })
]
