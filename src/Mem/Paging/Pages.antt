-- ===== src/Mem/Paging/Pages.antt =====
-- A page mapped by kernel/mem.c is mapped, and nothing else changes.
use jeos.Prelude.{
  ℕ, ◌/◌, ◌^◌, ◌<◌, ◌≡◌, ◌≢◌, refl, ap, subst, ◌∙◌, inl, inr, true, ◌&&◌, none, some, List, [], ◌∷◌,
  ◌==◌, if◌then◌else◌, Bool-cases, Option-cases, length, arith,
}
use jeos.Mem.Paging.{
  Memory, page_bytes, is_present, frame, write_entry, map_with, pte, pml4_index, pdpt_index,
  pd_index, pt_index,
}
use jeos.Mem.Paging.Forest.{Places, IsForest, leaf}
use jeos.Mem.Paging.Mapping.{
  TablesFrom, TablesFrom-then, IsEnsured, ensure-IsEnsured, leaf-step, leaf-here, into,
  write_entry-words, higher, write_entry-IsForest, leaf-write_entry,
}

-- The entry for an address in the tables under `root`.
abbrev pub entry_at : Memory → (root va : ℕ) → ℕ
entry_at m root va = leaf m root (pml4_index va ∷ pdpt_index va ∷ pd_index va ∷ []) (pt_index va)

abbrev pub IsRoot : Places → ℕ → Type 0
IsRoot own r = own r ≡ some (r ∷ [])

-- The addresses that the indices tell apart, of the lower half.
pub same_page :
    (a b : ℕ)
    → a < 2 ^ 47
    → b < 2 ^ 47
    → pml4_index a ≡ pml4_index b
    → pdpt_index a ≡ pdpt_index b
    → pd_index a ≡ pd_index b
    → pt_index a ≡ pt_index b
    → a / page_bytes ≡ b / page_bytes
same_page a b la lb e4 e3 e2 e1 = omega arith

pub same_indices :
    (a b : ℕ)
    → a / page_bytes ≡ b / page_bytes
    → (pml4_index a ≡ pml4_index b)
      × (pdpt_index a ≡ pdpt_index b)
      × (pd_index a ≡ pd_index b)
      × (pt_index a ≡ pt_index b)
same_indices a b e = (omega arith, omega arith, omega arith, omega arith)

pub low_index : (va : ℕ) → va < 2 ^ 47 → pml4_index va < 256
low_index va h = omega arith

-- What a call that maps the page of `va` to the entry `v` leaves: every table is where it was, in the
-- tables of every process only the entry of that page under that root has changed, and no page that
-- is not a table has been written.
pub record IsMapped (own own' : Places) (m m' : Memory) (root va v fl : ℕ) : Type 0 where
  pub forest : IsForest own' m'
  pub keeps : (x : ℕ) (q : List ℕ) → own x ≡ some q → own' x ≡ some q
  pub entries :
      (r b : ℕ)
      → IsRoot own r
      → b < 2 ^ 47
      → entry_at m' r b
        ≡ (if (r == root) && (b / page_bytes == va / page_bytes) then v else entry_at m r b)
  pub pages : (x j : ℕ) → own' x ≡ none → m'.words x j ≡ m.words x j
  pub tables : TablesFrom fl own own' m m'

into-roots :
    (r r₀ a b c a₀ b₀ c₀ : ℕ)
    → into (r ∷ []) (a ∷ b ∷ c ∷ []) ≡ c₀ ∷ b₀ ∷ a₀ ∷ r₀ ∷ []
    → (r ≡ r₀) × (a ≡ a₀) × (b ≡ b₀) × (c ≡ c₀)
unfolding into
into-roots r r₀ a b c a₀ b₀ c₀ e = ground arith

-- Tables of different depth are different.
places_apart :
    (own : Places) (x y : ℕ) (p q : List ℕ)
    → own x ≡ some p
    → own y ≡ some q
    → length p ≢ length q
    → x ≢ y
places_apart own x y p q here there deep e =
    let both = ap own e in ground (arith, both, ap (length {A = ℕ}))

-- The last step: the three tables are there.
-- The last step: the three tables are there.
module _ (own₀ own₁ own₂ own₃ : Places) (m₀ m₁ m₂ m₃ : Memory) (root va v fl pdpt pd pt : ℕ)
    (is_root : IsRoot own₀ root) (low : va < 2 ^ 47)
    (e₁ : IsEnsured own₀ own₁ m₀ m₁ root (pml4_index va) pdpt (root ∷ []) fl)
    (e₂ : IsEnsured own₁ own₂ m₁ m₂ pdpt (pdpt_index va) pd (pml4_index va ∷ root ∷ []) fl)
    (e₃ : IsEnsured own₂ own₃ m₂ m₃ pd
      (pd_index va)
      pt
      (pdpt_index va ∷ pml4_index va ∷ root ∷ [])
      fl) where
  abbrev last_place : List ℕ
  last_place = pd_index va ∷ pdpt_index va ∷ pml4_index va ∷ root ∷ []

  abbrev stored : Memory
  stored = write_entry pt (pt_index va) v m₃

  root₁ : own₁ root ≡ some (root ∷ [])
  root₁ = e₁.keeps root (root ∷ []) is_root

  root₂ : own₂ root ≡ some (root ∷ [])
  root₂ = e₂.keeps root (root ∷ []) root₁

  pdpt₂ : own₂ pdpt ≡ some (pml4_index va ∷ root ∷ [])
  pdpt₂ = e₂.keeps pdpt (pml4_index va ∷ root ∷ []) e₁.place

  -- A word of a table of a higher level is not the one that is stored.
  above : (t j : ℕ) (p : List ℕ) → own₃ t ≡ some p → length p < 4 → stored.words t j ≡ m₃.words t j
  above t j p here high =
      write_entry-words own₃ m₃ pt (pt_index va) v last_place e₃.forest e₃.place refl t j (λ e.
        absurd
          (higher own₃ m₃ pt (pt_index va) v last_place e₃.forest e₃.place refl t p here high e))

  root_word : stored.words root (pml4_index va) ≡ m₁.words root (pml4_index va)
  root_word =
      above root (pml4_index va) (root ∷ []) (e₃.keeps root (root ∷ []) root₂) (omega arith)
      ∙ e₃.old root (pml4_index va) (root ∷ []) root₂ (λ e. absurd (
          places_apart own₂ root pd (root ∷ []) (pdpt_index va ∷ pml4_index va ∷ root ∷ []) root₂
            e₂.place (λ l. omega arith) e))
      ∙ e₂.old root (pml4_index va) (root ∷ []) root₁ (λ e. absurd (
          places_apart own₁ root pdpt (root ∷ []) (pml4_index va ∷ root ∷ []) root₁ e₁.place
            (λ l. omega arith) e))

  pdpt_word : stored.words pdpt (pdpt_index va) ≡ m₂.words pdpt (pdpt_index va)
  pdpt_word =
      let p = pml4_index va ∷ root ∷ [] in
      above pdpt (pdpt_index va) p (e₃.keeps pdpt p pdpt₂) (omega arith)
      ∙ e₃.old pdpt (pdpt_index va) p pdpt₂ (λ e.
        absurd
          (places_apart own₂ pdpt pd p (pdpt_index va ∷ p) pdpt₂ e₂.place (λ l. omega arith) e))

  pd_word : stored.words pd (pd_index va) ≡ m₃.words pd (pd_index va)
  pd_word =
      let p = pdpt_index va ∷ pml4_index va ∷ root ∷ [] in
      above pd (pd_index va) p (e₃.keeps pd p e₂.place) (omega arith)

  mapped : entry_at stored root va ≡ v
  mapped =
      let i₃ = pdpt_index va in
      let i₂ = pd_index va in
      let i₁ = pt_index va in
      leaf-step stored root (pml4_index va) pdpt (i₃ ∷ i₂ ∷ []) i₁
        (ap is_present root_word ∙ e₁.present) (ap frame root_word ∙ e₁.entry)
      ∙ leaf-step stored pdpt i₃ pd (i₂ ∷ []) i₁ (ap is_present pdpt_word ∙ e₂.present)
          (ap frame pdpt_word ∙ e₂.entry)
      ∙ leaf-step stored pd i₂ pt [] i₁ (ap is_present pd_word ∙ e₃.present)
          (ap frame pd_word ∙ e₃.entry)
      ∙ leaf-here stored pt i₁
      ∙ ground arith

  elsewhere :
      (r b : ℕ)
      → IsRoot own₀ r
      → b < 2 ^ 47
      → (r ≡ root → b / page_bytes ≢ va / page_bytes)
      → entry_at stored r b ≡ entry_at m₀ r b
  elsewhere r b is_r low_b other =
      let is = pml4_index b ∷ pdpt_index b ∷ pd_index b ∷ [] in
      let i = pt_index b in
      let lower = λ (e : ◌≡◌ {A = ℕ} 1 1). low_index b low_b in
      let r₁ = e₁.keeps r (r ∷ []) is_r in
      let r₂ = e₂.keeps r (r ∷ []) r₁ in
      let r₃ = e₃.keeps r (r ∷ []) r₂ in
      leaf-write_entry own₃ m₃ pt (pt_index va) v last_place e₃.forest e₃.place refl is r i (r ∷ [])
        r₃ (omega arith) refl lower
        (λ e q.
          let (er, e4, e3, e2) =
            into-roots r root (pml4_index b) (pdpt_index b) (pd_index b) (pml4_index va)
              (pdpt_index va) (pd_index va) e in
          other er (same_page b va low_b low e4 e3 e2 q))
      ∙ e₃.leaves is r i (r ∷ []) r₂ (omega arith) refl lower
      ∙ e₂.leaves is r i (r ∷ []) r₁ (omega arith) refl lower
      ∙ e₁.leaves is r i (r ∷ []) is_r (omega arith) refl lower

  entries :
      (r b : ℕ)
      → IsRoot own₀ r
      → b < 2 ^ 47
      → entry_at stored r b
        ≡ (if (r == root) && (b / page_bytes == va / page_bytes) then v else entry_at m₀ r b)
  entries r b is_r low_b = elim (Bool-cases ((r == root) && (b / page_bytes == va / page_bytes))) [
    | inl both ↦
        let er : r ≡ root = ground arith in
        let (e4, e3, e2, e1) = same_indices b va (ground arith) in
        rw both (rw (er, e4, e3, e2, e1) mapped)
    | inr other ↦ rw other (elsewhere r b is_r low_b (λ e q. ground arith))
  ]

  none_before :
      (own own' : Places) (x : ℕ)
      → ((y : ℕ) (q : List ℕ) → own y ≡ some q → own' y ≡ some q)
      → own' x ≡ none
      → own x ≡ none
  none_before own own' x keeps h = elim (Option-cases (own x)) [
    | inl e ↦ e
    | inr (q, e) ↦ let there = keeps x q e in absurd (ground arith)
  ]

  stored-IsMapped : IsMapped own₀ own₃ m₀ stored root va v fl
  stored-IsMapped = record {
    forest = write_entry-IsForest own₃ m₃ pt (pt_index va) v last_place e₃.forest e₃.place refl;
    keeps = λ x q h. e₃.keeps x q (e₂.keeps x q (e₁.keeps x q h));
    entries = entries;
    tables =
        TablesFrom-then fl own₀ own₂ own₃ m₀ m₂ stored
          (TablesFrom-then fl own₀ own₁ own₂ m₀ m₁ m₂ e₁.tables e₂.tables)
          (TablesFrom-then fl own₂ own₃ own₃ m₂ m₃ stored e₃.tables
            (λ t j p here high present. inr (here, above t j p here high)));
    pages = λ x j h.
        let h₂ = none_before own₂ own₃ x e₃.keeps h in
        let h₁ = none_before own₁ own₂ x e₂.keeps h₂ in
        let not_pt : x ≢ pt = λ e. let both = ap own₃ e in ground (arith, both, e₃.place) in
        write_entry-words own₃ m₃ pt (pt_index va) v last_place e₃.forest e₃.place refl x j
          (λ e. absurd (not_pt e))
        ∙ e₃.pages x j h
        ∙ e₂.pages x j h₂
        ∙ e₁.pages x j h₁;
  }

-- In memory whose page tables form trees, with 4096 above the flags of a table: a call of `map_page` or
-- `map_page_pml4` for an address of the lower half that finds pages for the tables it needs leaves
-- trees, in which the entry of that page is the new one, and every other page of this and of every
-- other process has the entry that it had; a table entry on the way has the flags of a table or was
-- there before; and it writes to no page that is not a table.
pub map_with-IsMapped :
    (own : Places) (m m' : Memory) (table_flags root va phys flags : ℕ)
    → IsForest own m
    → IsRoot own root
    → va < 2 ^ 47
    → table_flags < page_bytes
    → is_present table_flags ≡ true
    → map_with table_flags root va phys flags m ≡ some m'
    → (own' : Places) × IsMapped own own' m m' root va (pte phys flags) table_flags
unfolding map_with
map_with-IsMapped own m m' fl root va phys flags forest is_root low small marks run =
    elim (ensure-IsEnsured own m root (pml4_index va) fl (root ∷ []) forest is_root (omega arith)
      (λ l. low_index va low) small marks) [
        | inl dry ↦ let no : none ≡ some m' = rw (map_with, dry) at run in cc
        | inr (pdpt, m₁, own₁, r₁, e₁) ↦
            elim (ensure-IsEnsured own₁ m₁ pdpt (pdpt_index va) fl (pml4_index va ∷ root ∷ [])
              e₁.forest e₁.place (omega arith) (λ l. absurd (omega arith)) small marks) [
                | inl dry ↦ let no : none ≡ some m' = rw (map_with, r₁, dry) at run in cc
                | inr (pd, m₂, own₂, r₂, e₂) ↦
                    elim (ensure-IsEnsured own₂ m₂ pd (pd_index va) fl
                      (pdpt_index va ∷ pml4_index va ∷ root ∷ []) e₂.forest e₂.place (omega arith)
                      (λ l. absurd (omega arith)) small marks) [
                        | inl dry ↦
                            let no : none ≡ some m' = rw (map_with, r₁, r₂, dry) at run in cc
                        | inr (pt, m₃, own₃, r₃, e₃) ↦
                            let done : some (write_entry pt (pt_index va) (pte phys flags) m₃)
                                ≡ some m' =
                              rw (map_with, r₁, r₂, r₃) at run in
                            let end : write_entry pt (pt_index va) (pte phys flags) m₃ ≡ m' = cc in
                            (
                              own₃,
                              subst (λ x. IsMapped own own₃ m x root va (pte phys flags) fl) end
                                  (stored-IsMapped own own₁ own₂ own₃ m m₁ m₂ m₃ root va
                                    (pte phys flags) fl pdpt pd pt is_root low e₁ e₂ e₃),
                            )
                      ]
              ]
      ]
