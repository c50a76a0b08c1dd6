-- ===== src/Descriptors/Exit.antt =====
-- `proc_close_fds` of kernel/proc.c: an exiting process gives all its references back.
use jeos.Prelude.{
  ℕ, zero, suc, ◌+◌, ◌≤◌, ◌<◌, ◌≡◌, refl, inl, inr, Bool, true, Option, none, List, [], ◌∷◌,
  Option-cases, dec_lt, length, get_or, set, arith,
}
use jeos.Descriptors.{Table, max_fds, file_put, close_at, close_loop, close_fds}
use jeos.Descriptors.Count.{refers, count}
use jeos.Descriptors.Owned.{Owned}
use jeos.Descriptors.Calls.{vfs_close-eq, close_at-Owned}

set-empty :
    (i j : ℕ) (fs : List (Option ℕ))
    → get_or fs j none ≡ none
    → get_or (set fs i none) j none ≡ none
set-empty i j [] e = e
set-empty zero zero (v ∷ fs) e = refl
set-empty zero (suc j) (v ∷ fs) e = e
set-empty (suc i) zero (v ∷ fs) e = e
set-empty (suc i) (suc j) (v ∷ fs) e = set-empty i j fs e

count-empty : (g : ℕ) (fs : List (Option ℕ)) → ((j : ℕ) → get_or fs j none ≡ none) → count g fs ≡ 0
unfolding count refers
count-empty g [] e = refl
count-empty g (v ∷ fs) e =
    let first : v ≡ none = e 0 in
    let others = count-empty g fs (λ j. e (suc j)) in rw first (omega (arith, others))

module _ (others : ℕ → ℕ) (closes : ℕ → Bool) (ok : (f : ℕ) → closes f ≡ true) where
  close_at-empty :
      (i j : ℕ) (t : Table)
      → get_or t.files j none ≡ none
      → get_or (close_at closes i t).files j none ≡ none
  unfolding close_at file_put
  close_at-empty i j t e = elim (Option-cases (get_or t.files i none)) [
    | inl empty ↦ rw (empty, close_at) e
    | inr (f, taken) ↦
        rw (taken, close_at, vfs_close-eq others closes ok f t) (set-empty i j t.files e)
  ]

  close_loop-empty :
      (k i : ℕ) (t : Table)
      → i + k ≡ max_fds
      → Owned others t
      → ((j : ℕ) → j < i → get_or t.files j none ≡ none)
      → let t' = close_loop closes k i t in
        Owned others t' × ((j : ℕ) → j < max_fds → get_or t'.files j none ≡ none)
  unfolding close_loop
  close_loop-empty zero i t e o done = (o, λ j h. done j (omega arith))
  close_loop-empty (suc k) i t e o done =
      let (owned, free) = close_at-Owned others closes ok i t (omega arith) o in
      close_loop-empty k (i + 1) (close_at closes i t) (omega arith) owned λ j h.
        elim (dec_lt j i) [
          | yes before ↦ close_at-empty i j t (done j before)
          | no here ↦ let same : j ≡ i = omega arith in rw same free
        ]

  beyond : (fs : List (Option ℕ)) (j : ℕ) → length fs ≤ j → get_or fs j none ≡ none
  beyond [] j h = refl
  beyond (v ∷ fs) zero h = absurd (omega arith)
  beyond (v ∷ fs) (suc j) h = beyond fs j (omega arith)

  -- If the count of each file was that of its references and every driver's `close` succeeds, then
  -- after `proc_close_fds` every descriptor is empty and every open file has exactly the references
  -- that others hold: none is leaked, and none is given back twice.
  pub close_fds-refcnt :
      (t : Table)
      → Owned others t
      → let t' = close_fds closes t in
        ((j : ℕ) → get_or t'.files j none ≡ none) × ((g : ℕ) → t'.refcnt g ≡ others g)
  unfolding close_fds
  close_fds-refcnt t o =
      let t' = close_fds closes t in
      let (owned, inside) = close_loop-empty max_fds 0 t refl o (λ j h. elim h [ ]) in
      let empty : (j : ℕ) → get_or t'.files j none ≡ none = λ j. elim (dec_lt j max_fds) [
        | yes h ↦ inside j h
        | no h ↦ beyond t'.files j (omega (arith, owned.size))
      ] in
      (empty, λ g. omega (arith, owned.counts g, count-empty g t'.files empty))
