-- ===== src/Mem/Paging/Forest.antt =====
-- The page tables of kernel/mem.c as trees: every table has one place, and what a walk finds there.
use jeos.Prelude.{
  ℕ, ◌+◌, ◌*◌, ◌≤◌, ◌<◌, ◌≡◌, ◌≢◌, refl, sym, ap, ◌∙◌, inl, inr, true, false, ◌&&◌, Option, none,
  some, List, [], ◌∷◌, ◌==◌, if◌then◌else◌, Bool-cases, length, arith,
}
use jeos.Mem.Paging.{Memory, page_bytes, is_present, frame, write_entry, clear}

-- The place of a table: the indices that lead to it, the last one first, and its root at the end.
abbrev pub Places : Type 0
Places = ℕ → Option (List ℕ)

abbrev pub put_place : ℕ → List ℕ → Places → Places
put_place f p own g = if g == f then some p else own g

unfoldable pub IsMissing : ℕ → List ℕ → Type 0
IsMissing f [] = Unit
IsMissing f (g ∷ gs) = (f ≢ g) × IsMissing f gs

-- The free pages are different, and none of them is a table.
unfoldable pub AreFresh : Places → List ℕ → Type 0
AreFresh own [] = Unit
AreFresh own (f ∷ fs) = (own f ≡ none) × IsMissing f fs × AreFresh own fs

-- Four levels of tables, of which the first one belongs to the tree in its lower half only: the upper
-- half is the kernel's. A present entry of a table leads to the table of that place.
pub record IsForest (own : Places) (m : Memory) : Type 0 where
  pub child :
      (t i : ℕ) (p : List ℕ)
      → own t ≡ some p
      → length p < 4
      → (length p ≡ 1 → i < 256)
      → is_present (m.words t i) ≡ true
      → own (frame (m.words t i)) ≡ some (i ∷ p)
  pub fresh : AreFresh own m.free

-- The entry that a walk from the table `t` along the indices `is` finds at `i` in the last table, 0
-- if a table on the way is missing.
unfoldable pub leaf : Memory → (t : ℕ) → (is : List ℕ) → (i : ℕ) → ℕ
leaf m t [] i = m.words t i
leaf m t (j ∷ is) i =
    let below = leaf m (frame (m.words t j)) is i in if is_present (m.words t j) then below else 0

-- At the root only the lower half is followed.
abbrev pub IsLower : (p is : List ℕ) → Type 0
IsLower p [] = Unit
IsLower p (j ∷ is) = length p ≡ 1 → j < 256

pub IsLower-deep : (j : ℕ) (p is : List ℕ) → 1 ≤ length p → IsLower (j ∷ p) is
IsLower-deep j p [] h = tt
IsLower-deep j p (k ∷ is) h = λ e. absurd (omega arith)

pub AreFresh-put :
    (f : ℕ) (p : List ℕ) (own : Places) (fs : List ℕ)
    → IsMissing f fs
    → AreFresh own fs
    → AreFresh (put_place f p own) fs
unfolding IsMissing AreFresh
AreFresh-put f p own [] miss fresh = tt
AreFresh-put f p own (g ∷ gs) (apart, miss) (free, other, fresh) =
    (ground arith, other, AreFresh-put f p own gs miss fresh)

pub AreFresh-cons :
    (own : Places) (f : ℕ) (fs : List ℕ)
    → AreFresh own (f ∷ fs)
    → (own f ≡ none) × IsMissing f fs × AreFresh own fs
unfolding AreFresh
AreFresh-cons own f fs h = h

-- A new table under the place of `t`: cleared, and entered at `i`.
unfoldable pub entered : (t i f flags : ℕ) → Memory → Memory
entered t i f flags m = write_entry t i (f * page_bytes + flags) (clear f m)

module _ (own : Places) (m : Memory) (t₀ i₀ f flags : ℕ) (p₀ : List ℕ) (forest : IsForest own m)
    (at : own t₀ ≡ some p₀) (high : length p₀ < 4) (user : length p₀ ≡ 1 → i₀ < 256)
    (new : own f ≡ none) (absent : is_present (m.words t₀ i₀) ≡ false) (small : flags < page_bytes)
    (marks : is_present flags ≡ true) where
  entered-words :
      (t j : ℕ)
      → (entered t₀ i₀ f flags m).words t j ≡ (
          if (t == t₀) && (j == i₀)
          then f * page_bytes + flags
          else (if t == f then 0 else m.words t j))
  unfolding entered
  entered-words t j = refl

  entry-frame : frame (f * page_bytes + flags) ≡ f
  entry-frame = omega arith

  apart : t₀ ≢ f
  apart e = let both = ap own e in ground (arith, both)

  entry-present : is_present (f * page_bytes + flags) ≡ true
  entry-present = ground arith

  -- The words of the old tables stay, but for the new entry.
  pub entered-old :
      (t j : ℕ) (p : List ℕ)
      → own t ≡ some p
      → (t ≡ t₀ → j ≢ i₀)
      → (entered t₀ i₀ f flags m).words t j ≡ m.words t j
  entered-old t j p here other =
      let not_new : t ≢ f = λ e. let both = ap own e in ground (arith, both) in
      ground (arith, entered-words t j, not_new)

  pub entered-new : (entered t₀ i₀ f flags m).words t₀ i₀ ≡ f * page_bytes + flags
  entered-new = ground (arith, entered-words t₀ i₀)

  entered-clear : (j : ℕ) → (entered t₀ i₀ f flags m).words f j ≡ 0
  entered-clear j = ground (arith, entered-words f j, apart)

  leaf-clear : (is : List ℕ) (i : ℕ) → leaf (entered t₀ i₀ f flags m) f is i ≡ 0
  unfolding leaf
  leaf-clear [] i = entered-clear i
  leaf-clear (j ∷ is) i = rw (entered-clear j) refl

  -- Every walk finds what it found.
  pub leaf-entered :
      (is : List ℕ) (t i : ℕ) (p : List ℕ)
      → own t ≡ some p
      → 1 ≤ length p
      → length p + length is ≡ 4
      → IsLower p is
      → leaf (entered t₀ i₀ f flags m) t is i ≡ leaf m t is i
  unfolding leaf
  leaf-entered [] t i p here one depth low = entered-old t i p here λ e.
      let same : some p ≡ some p₀ = sym here ∙ ap own e ∙ at in
      absurd
        (omega (arith, high, depth, ap {B = ℕ} (λ o. elim o [ none ↦ 0 | some q ↦ length q ]) same))
  leaf-entered (j ∷ is) t i p here one depth low = elim (Bool-cases ((t == t₀) && (j == i₀))) [
    | inl both ↦
        let e : t ≡ t₀ = ground arith in
        let g : j ≡ i₀ = ground arith in
        let was : is_present (m.words t j) ≡ false = rw (e, g) absent in
        let now : (entered t₀ i₀ f flags m).words t j ≡ f * page_bytes + flags =
          rw (e, g) entered-new in
        rw (now, entry-present, entry-frame, was) (leaf-clear is i)
    | inr other ↦
        let same = entered-old t j p here (λ e g. ground arith) in
        elim (Bool-cases (is_present (m.words t j))) [
          | inl present ↦
              let next = forest.child t j p here (omega arith) low present in
              rw (same, present)
                (leaf-entered is (frame (m.words t j)) i (j ∷ p) next (omega arith) (omega arith)
                  (IsLower-deep j p is one))
          | inr missing ↦ rw (same, missing) refl
        ]
  ]

  -- The trees with the new table.
  pub entered-IsForest :
      IsMissing f m.free → IsForest (put_place f (i₀ ∷ p₀) own) (entered t₀ i₀ f flags m)
  unfolding entered
  entered-IsForest miss = record {
    child = λ t i p here depth low present. elim (Bool-cases (t == f)) [
      | inl is_new ↦
          let e : t ≡ f = ground arith in
          let zero_word : (entered t₀ i₀ f flags m).words t i ≡ 0 = rw e (entered-clear i) in
          absurd (ground (arith, zero_word, present))
      | inr old ↦
          let here' : own t ≡ some p = ground (arith, here, old) in
          elim (Bool-cases ((t == t₀) && (i == i₀))) [
            | inl both ↦
                let e : t ≡ t₀ = ground arith in
                let g : i ≡ i₀ = ground arith in
                let places : p ≡ p₀ = ground (arith, here', at, ap own e) in
                let word : (entered t₀ i₀ f flags m).words t i ≡ f * page_bytes + flags =
                  rw (e, g) entered-new in
                ground (arith, word, entry-frame, places, g)
            | inr other ↦
                let same = entered-old t i p here' (λ e g. ground arith) in
                let was = forest.child t i p here' depth low (rw same at present) in
                let not_f : frame (m.words t i) ≢ f =
                  λ e. let both = ap own e in ground (arith, both, was, new) in
                rw same (ground (arith, was, not_f))
          ]
    ];
    fresh = AreFresh-put f (i₀ ∷ p₀) own m.free miss forest.fresh;
  }
