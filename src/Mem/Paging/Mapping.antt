-- ===== src/Mem/Paging/Mapping.antt =====
-- `map_page` and `map_page_pml4` of kernel/mem.c: which walks they change.
use jeos.Prelude.{
  ℕ, ◌+◌, ◌≤◌, ◌<◌, ◌≡◌, ◌≢◌, ◌⊎◌, refl, sym, ap, subst, ◌%◌, ◌==◌, ◌&&◌, ◌∙◌, inl, inr, true, none,
  some, List, [], ◌∷◌, Bool-cases, List-cases, length, arith,
}
use jeos.Mem.Paging.{Memory, page_bytes, is_present, frame, write_entry, alloc_page, ensure}
use jeos.Mem.Paging.Forest.{
  Places, put_place, AreFresh, AreFresh-cons, IsForest, IsLower, IsLower-deep, leaf, entered,
  entered-old, entered-new, leaf-entered, entered-IsForest,
}

-- Every entry that is present in a table above the last level has the flags `fl`, or was there before.
abbrev pub TablesFrom : (fl : ℕ) (own own' : Places) (m m' : Memory) → Type 0
TablesFrom fl own own' m m' =
    (t i : ℕ) (p : List ℕ)
    → own' t ≡ some p
    → length p < 4
    → is_present (m'.words t i) ≡ true
    → (m'.words t i % page_bytes ≡ fl) ⊎ ((own t ≡ some p) × (m'.words t i ≡ m.words t i))

pub TablesFrom-then :
    (fl : ℕ) (own own₁ own₂ : Places) (m m₁ m₂ : Memory)
    → TablesFrom fl own own₁ m m₁
    → TablesFrom fl own₁ own₂ m₁ m₂
    → TablesFrom fl own own₂ m m₂
TablesFrom-then fl own own₁ own₂ m m₁ m₂ first next t i p at high present =
    elim (next t i p at high present) [
      | inl new ↦ inl new
      | inr (at₁, same) ↦ elim (first t i p at₁ high (ap is_present (sym same) ∙ present)) [
        | inl new ↦ inl (ap (λ w. w % page_bytes) same ∙ new)
        | inr (at₀, same₀) ↦ inr (at₀, same ∙ same₀)
      ]
    ]

tables-entered :
    (own : Places) (m : Memory) (t₀ i₀ f fl : ℕ) (q : List ℕ)
    → fl < page_bytes
    → TablesFrom fl own (put_place f q own) m (entered t₀ i₀ f fl m)
unfolding entered
tables-entered own m t₀ i₀ f fl q small t i p at high present =
    elim (Bool-cases ((t == t₀) && (i == i₀))) [
      | inl here ↦ inl (rw here (omega (arith, small)))
      | inr other ↦ elim (Bool-cases (t == f)) [
        | inl new ↦
            (let no : is_present 0 ≡ true = rw (other, new) at present in
              absurd (ground (arith, no)))
        | inr old ↦ (let at₀ : own t ≡ some p = rw old at at in inr (at₀, rw (other, old) refl))
      ]
    ]

-- What getting or creating the table `f` under the entry `i` of `t` leaves.
pub record IsEnsured (own own' : Places) (m m' : Memory) (t i f : ℕ) (p : List ℕ) (fl : ℕ)
    : Type 0 where
  pub tables : TablesFrom fl own own' m m'
  pub forest : IsForest own' m'
  pub place : own' f ≡ some (i ∷ p)
  pub keeps : (x : ℕ) (q : List ℕ) → own x ≡ some q → own' x ≡ some q
  pub present : is_present (m'.words t i) ≡ true
  pub entry : frame (m'.words t i) ≡ f
  pub old : (x j : ℕ) (q : List ℕ) → own x ≡ some q → (x ≡ t → j ≢ i) → m'.words x j ≡ m.words x j
  pub leaves :
      (is : List ℕ) (x j : ℕ) (q : List ℕ)
      → own x ≡ some q
      → 1 ≤ length q
      → length q + length is ≡ 4
      → IsLower q is
      → leaf m' x is j ≡ leaf m x is j
  pub pages : (x j : ℕ) → own' x ≡ none → m'.words x j ≡ m.words x j

pages-entered :
    (own : Places) (m : Memory) (t i f flags x j : ℕ) (p q : List ℕ)
    → own t ≡ some p
    → put_place f q own x ≡ none
    → (entered t i f flags m).words x j ≡ m.words x j
unfolding entered
pages-entered own m t i f flags x j p q at none_there =
    let not_t : x ≢ t = λ e. let both = ap own e in ground (arith, both) in ground (arith, not_t)

leaf-cong :
    (m m' : Memory) → m.words ≡ m'.words → (is : List ℕ) (x j : ℕ) → leaf m x is j ≡ leaf m' x is j
unfolding leaf
leaf-cong m m' e [] x j = ap (λ w. w x j) e
leaf-cong m m' e (k ∷ is) x j =
    let word : m.words x k ≡ m'.words x k = ap (λ w. w x k) e in
    elim (Bool-cases (is_present (m'.words x k))) [
      | inl present ↦ rw (word, present) (leaf-cong m m' e is (frame (m'.words x k)) j)
      | inr missing ↦ rw (word, missing) refl
    ]

-- The call finds the table, creates it, or has no page for it.
pub ensure-IsEnsured :
    (own : Places) (m : Memory) (t i flags : ℕ) (p : List ℕ)
    → IsForest own m
    → own t ≡ some p
    → length p < 4
    → (length p ≡ 1 → i < 256)
    → flags < page_bytes
    → is_present flags ≡ true
    → (ensure t i flags m ≡ none)
      ⊎ ((f : ℕ) × (m' : Memory) × (own' : Places) × (ensure t i flags m ≡ some (f, m'))
          × IsEnsured own own' m m' t i f p flags)
unfolding ensure alloc_page entered
ensure-IsEnsured own m t i flags p forest at high low small marks =
    elim (Bool-cases (is_present (m.words t i))) [
      | inl there ↦ inr (
        frame (m.words t i),
        m,
        own,
        (rw (ensure, there) refl),
        record {
          tables = λ x j q e a b. inr (e, refl);
          forest = forest;
          place = forest.child t i p at high low there;
          keeps = λ x q e. e;
          present = there;
          entry = refl;
          old = λ x j q e d. refl;
          leaves = λ is x j q e a b c. refl;
          pages = λ x j e. refl;
        },
      )
      | inr absent ↦ elim (List-cases m.free) [
        | inl empty ↦ inl (rw (ensure, absent, alloc_page, empty) refl)
        | inr (f, rest, e) ↦
            let m₁ = record m { free = rest } in
            let fresh : AreFresh own (f ∷ rest) = subst (AreFresh own) e forest.fresh in
            let (new, miss, others) = AreFresh-cons own f rest fresh in
            let forest₁ : IsForest own m₁ = record { child = forest.child; fresh = others } in
            let word =
              entered-new own m₁ t i f flags p forest₁ at high low new absent small marks in
            inr (
              f,
              entered t i f flags m₁,
              put_place f (i ∷ p) own,
              (rw (ensure, absent, alloc_page, e, entered) refl),
              record {
                tables = tables-entered own m₁ t i f flags (i ∷ p) small;
                forest =
                    entered-IsForest own m₁ t i f flags p forest₁ at high low new absent small marks
                      miss;
                place = ground arith;
                keeps = λ x q h. ground (arith, ap own);
                present = ground (arith, word, marks);
                entry = ap frame word ∙ omega arith;
                old = λ x j q h d.
                    entered-old own m₁ t i f flags p forest₁ at high low new absent small marks x j
                      q h d;
                leaves = λ is x j q h a b c.
                    leaf-entered own m₁ t i f flags p forest₁ at high low new absent small marks is
                      x j q h a b c
                    ∙ leaf-cong m₁ m refl is x j;
                pages = λ x j h. pages-entered own m₁ t i f flags x j p (i ∷ p) at h;
              },
            )
      ]
    ]

-- A step of a walk.
pub leaf-step :
    (m : Memory) (t j f : ℕ) (is : List ℕ) (i : ℕ)
    → is_present (m.words t j) ≡ true
    → frame (m.words t j) ≡ f
    → leaf m t (j ∷ is) i ≡ leaf m f is i
unfolding leaf
leaf-step m t j f is i present e = rw (present, e) refl

pub leaf-here : (m : Memory) (t i : ℕ) → leaf m t [] i ≡ m.words t i
unfolding leaf
leaf-here m t i = refl

-- The place of the last table on a walk.
unfoldable pub into : List ℕ → List ℕ → List ℕ
into p [] = p
into p (j ∷ is) = into (j ∷ p) is

module _ (own : Places) (m : Memory) (t₀ i₀ v : ℕ) (p₀ : List ℕ) (forest : IsForest own m)
    (at : own t₀ ≡ some p₀) (last : length p₀ ≡ 4) where
  pub write_entry-words :
      (t j : ℕ) → (t ≡ t₀ → j ≢ i₀) → (write_entry t₀ i₀ v m).words t j ≡ m.words t j
  write_entry-words t j other = ground (arith, other)

  pub higher : (t : ℕ) (p : List ℕ) → own t ≡ some p → length p < 4 → t ≢ t₀
  higher t p here high e = let both = ap own e in ground (arith, both, ap (length {A = ℕ}))

  pub write_entry-IsForest : IsForest own (write_entry t₀ i₀ v m)
  write_entry-IsForest = record {
    child = λ t i p here high low present.
        let same = write_entry-words t i (λ e. absurd (higher t p here high e)) in
        rw same (forest.child t i p here high low (rw same at present));
    fresh = forest.fresh;
  }

  -- A write to a last table changes no walk to another place.
  pub leaf-write_entry :
      (is : List ℕ) (t i : ℕ) (p : List ℕ)
      → own t ≡ some p
      → 1 ≤ length p
      → length p + length is ≡ 4
      → IsLower p is
      → (into p is ≡ p₀ → i ≢ i₀)
      → leaf (write_entry t₀ i₀ v m) t is i ≡ leaf m t is i
  unfolding leaf into
  leaf-write_entry [] t i p here one depth low other =
      write_entry-words t i (λ e. other (let both = ap own e in ground (arith, both)))
  leaf-write_entry (j ∷ is) t i p here one depth low other =
      let same = write_entry-words t j (λ e. absurd (higher t p here (omega arith) e)) in
      elim (Bool-cases (is_present (m.words t j))) [
        | inl present ↦
            let next = forest.child t j p here (omega arith) low present in
            rw (same, present)
              (leaf-write_entry is (frame (m.words t j)) i (j ∷ p) next (omega arith) (omega arith)
                (IsLower-deep j p is one) other)
        | inr missing ↦ rw (same, missing) refl
      ]
