-- ===== src/Mem/Paging/Spaces.antt =====
-- New pages and new address spaces of kernel/mem.c among the page tables that are there.
use jeos.Prelude.{
  ℕ, ◌+◌, ◌^◌, ◌≤◌, ◌<◌, ◌≡◌, ◌≢◌, refl, ap, subst, inl, inr, Option, none, some, List, [], ◌∷◌,
  ltb, ◌==◌, if◌then◌else◌, Bool-cases, Option-cases, List-cases, length, arith,
}
use jeos.Mem.Paging.{
  Memory, is_present, frame, clear, alloc_page, create_user_pml4, pml4_index, pdpt_index, pd_index,
  pt_index,
}
use jeos.Mem.Paging.Forest.{
  Places, put_place, IsMissing, AreFresh, AreFresh-cons, AreFresh-put, IsForest, IsLower,
  IsLower-deep, leaf,
}
use jeos.Mem.Paging.Pages.{entry_at, IsRoot, low_index}

-- Walks read no other words than those of tables.
pub leaf-agree :
    (own : Places) (m m' : Memory)
    → IsForest own m
    → ((t j : ℕ) (p : List ℕ) → own t ≡ some p → m'.words t j ≡ m.words t j)
    → (is : List ℕ) (t i : ℕ) (p : List ℕ) → own t ≡ some p
    → 1 ≤ length p
    → length p + length is ≡ 4
    → IsLower p is
    → leaf m' t is i ≡ leaf m t is i
unfolding leaf
leaf-agree own m m' forest same [] t i p here one depth low = same t i p here
leaf-agree own m m' forest same (j ∷ is) t i p here one depth low =
    let word = same t j p here in
    elim (Bool-cases (is_present (m.words t j))) [
      | inl present ↦
          let next = forest.child t j p here (omega arith) low present in
          rw (word, present)
            (leaf-agree own m m' forest same is (frame (m.words t j)) i (j ∷ p) next (omega arith)
              (omega arith) (IsLower-deep j p is one))
      | inr missing ↦ rw (word, missing) refl
    ]

pub entry_at-agree :
    (own : Places) (m m' : Memory) (r b : ℕ)
    → IsForest own m
    → ((t j : ℕ) (p : List ℕ) → own t ≡ some p → m'.words t j ≡ m.words t j)
    → IsRoot own r
    → b < 2 ^ 47
    → entry_at m' r b ≡ entry_at m r b
entry_at-agree own m m' r b forest same root low =
    leaf-agree own m m' forest same (pml4_index b ∷ pdpt_index b ∷ pd_index b ∷ []) r (pt_index b)
      (r ∷ []) root (omega arith) refl (λ e. low_index b low)

-- What is known of a page that kalloc gives.
pub record IsNew (own : Places) (m m' : Memory) (f : ℕ) : Type 0 where
  pub new : own f ≡ none
  pub same : m'.words ≡ m.words
  pub missing : IsMissing f m'.free
  pub fresh : AreFresh own m'.free

pub alloc_page-IsNew :
    (own : Places) (m m' : Memory) (f : ℕ)
    → IsForest own m
    → alloc_page m ≡ some (f, m')
    → IsNew own m m' f
unfolding alloc_page
alloc_page-IsNew own m m' f forest run = elim (List-cases m.free) [
  | inl empty ↦
      let no : ◌≡◌ {A = Option (ℕ × Memory)} none (some (f, m')) = rw (alloc_page, empty) at run in
      cc
  | inr (g, rest, e) ↦
      let got : ◌≡◌ {A = Option (ℕ × Memory)} (some (g, record m { free = rest })) (some (f, m')) =
        rw (alloc_page, e) at run in
      let same_frame : g ≡ f = cc in
      let same_memory : record m { free = rest } ≡ m' = cc in
      let (new, miss, others) = AreFresh-cons own g rest (subst (AreFresh own) e forest.fresh) in
      subst (λ x. IsNew own m x f) same_memory
        (subst (λ h. IsNew own m (record m { free = rest }) h) same_frame
          (record { new = new; same = refl; missing = miss; fresh = others }))
]

-- A new page cleared: the trees stay, and so do all walks.
pub clear-IsForest :
    (own : Places) (m m' : Memory) (f : ℕ)
    → IsForest own m
    → IsNew own m m' f
    → IsForest own (clear f m')
      × ((t j : ℕ) (p : List ℕ) → own t ≡ some p → (clear f m').words t j ≡ m.words t j)
clear-IsForest own m m' f forest n =
    let word : (t j : ℕ) (p : List ℕ) → own t ≡ some p → (clear f m').words t j ≡ m.words t j =
      λ t j p here.
        let apart : t ≢ f = λ e. let both = ap own e in ground (arith, both, n.new) in
        let old = ap (λ w. w t j) n.same in ground (arith, apart, old) in
    (
      record {
        child = λ t i p here high low present.
            let w = word t i p here in rw w (forest.child t i p here high low (rw w at present));
        fresh = n.fresh;
      },
      word,
    )

-- What `create_user_pml4` makes: a root of its own, with an empty lower half and the kernel's upper
-- half, beside the trees that were there.
pub record IsCreated (own : Places) (m m' : Memory) (cr3 r : ℕ) : Type 0 where
  pub new : own r ≡ none
  pub forest : IsForest (put_place r (r ∷ []) own) m'
  pub lower : (b : ℕ) → b < 2 ^ 47 → entry_at m' r b ≡ 0
  pub upper : (i : ℕ) → 256 ≤ i → m'.words r i ≡ m.words cr3 i
  pub others : (x b : ℕ) → IsRoot own x → b < 2 ^ 47 → entry_at m' x b ≡ entry_at m x b

leaf-missing :
    (m : Memory) (t j : ℕ) (is : List ℕ) (i : ℕ) → m.words t j ≡ 0 → leaf m t (j ∷ is) i ≡ 0
unfolding leaf
leaf-missing m t j is i e = rw e refl

abbrev kernel_half : (r cr3 : ℕ) → (m m₁ : Memory) → Memory
kernel_half r cr3 m m₁ = record m₁ {
  words = λ s j. if s == r then (if ltb j 256 then 0 else m.words cr3 j) else m.words s j;
}

create-IsCreated :
    (own : Places) (m m₁ : Memory) (cr3 r : ℕ)
    → IsForest own m
    → IsNew own m m₁ r
    → IsCreated own m (kernel_half r cr3 m m₁) cr3 r
create-IsCreated own m m₁ cr3 r forest n =
    let m' = kernel_half r cr3 m m₁ in
    let old : (t j : ℕ) (p : List ℕ) → own t ≡ some p → m'.words t j ≡ m.words t j = λ t j p here.
      let apart : t ≢ r = λ e. let both = ap own e in ground (arith, both, n.new) in
      ground (arith, apart) in
    let low : (i : ℕ) → i < 256 → m'.words r i ≡ 0 = λ i h. ground arith in
    record {
      new = n.new;
      forest = record {
        child = λ t i p here high user present. elim (Bool-cases (t == r)) [
          | inl is_new ↦
              let e : t ≡ r = ground arith in
              let place : r ∷ [] ≡ p = ground (arith, here, is_new) in
              let one : length p ≡ 1 = rw (← place) refl in
              let word : m'.words t i ≡ 0 = rw e (low i (user one)) in
              absurd (ground (arith, word, present))
          | inr other ↦
              let here' : own t ≡ some p = ground (arith, here, other) in
              let same = old t i p here' in
              let was = forest.child t i p here' high user (rw same at present) in
              let not_r : frame (m.words t i) ≢ r =
                λ e. let both = ap own e in ground (arith, both, was, n.new) in
              rw same (ground (arith, was, not_r))
        ];
        fresh = AreFresh-put r (r ∷ []) own m₁.free n.missing n.fresh;
      };
      lower = λ b h.
          leaf-missing m' r (pml4_index b) (pdpt_index b ∷ pd_index b ∷ []) (pt_index b)
            (low (pml4_index b) (low_index b h));
      upper = λ i h. ground arith;
      others = λ x b root h. entry_at-agree own m m' x b forest old root h;
    }

-- In memory whose page tables form trees, create_user_pml4, when it finds a page, makes a root that was
-- no table before, in which no address of the lower half is mapped and the upper half is that of the
-- current tables, and changes no entry of the other processes.
pub create_user_pml4-IsCreated :
    (own : Places) (m m' : Memory) (cr3 r : ℕ)
    → IsForest own m
    → create_user_pml4 cr3 m ≡ some (r, m')
    → IsCreated own m m' cr3 r
unfolding create_user_pml4
create_user_pml4-IsCreated own m m' cr3 r forest run = elim (Option-cases (alloc_page m)) [
  | inl dry ↦
      let no : ◌≡◌ {A = Option (ℕ × Memory)} none (some (r, m')) =
        rw (create_user_pml4, dry) at run in
      cc
  | inr ((f, m₁), got) ↦
      let made : ◌≡◌ {A = Option (ℕ × Memory)} (some (f, kernel_half f cr3 m m₁)) (some (r, m')) =
        rw (create_user_pml4, got) at run in
      let same_frame : f ≡ r = cc in
      let same_memory : kernel_half f cr3 m m₁ ≡ m' = cc in
      subst (λ x. IsCreated own m x cr3 r) same_memory
        (subst (λ h. IsCreated own m (kernel_half f cr3 m m₁) cr3 h) same_frame
          (create-IsCreated own m m₁ cr3 f forest (alloc_page-IsNew own m m₁ f forest got)))
]
