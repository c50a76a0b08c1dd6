-- ===== src/Procs/Loader/Missing.antt =====
-- The free pages of kernel/mem.c under the mapping of a page: a frame that is not free stays so.
use jeos.Prelude.{
  ℕ, ◌+◌, ◌*◌, ◌≡◌, ◌≢◌, ap₂, subst, ◌∙◌, inl, inr, none, some, Option, List, ◌∷◌, Bool-cases,
  Option-cases, List-cases,
}
use jeos.Mem.Paging.{
  Memory, page_bytes, clear, alloc_page, ensure, map_with, frame, pte, is_present, write_entry,
  pml4_index, pdpt_index, pd_index, pt_index,
}
use jeos.Mem.Paging.Forest.{IsMissing}

-- The page that kalloc gives is the first one.
pub alloc_page-first : (f : ℕ) (m m' : Memory) → alloc_page m ≡ some (f, m') → m.free ≡ f ∷ m'.free
unfolding alloc_page
alloc_page-first f m m' run = elim (List-cases m.free) [
  | inl e ↦
      (let no : ◌≡◌ {A = Option (ℕ × Memory)} none (some (f, m')) = rw (alloc_page, e) at run in cc)
  | inr (g, rest, e) ↦
      (let got : ◌≡◌ {A = Option (ℕ × Memory)} (some (g, record m { free = rest })) (some (f, m')) =
          rw (alloc_page, e) at run in
        let same_frame : g ≡ f = cc in
        let same : record m { free = rest } ≡ m' = cc in
        e ∙ ap₂ (λ h (n : Memory). h ∷ n.free) same_frame same)
]

-- Mapping takes pages from the front.
ensure-IsMissing :
    (g t i fl f : ℕ) (m m' : Memory)
    → IsMissing g m.free
    → ensure t i fl m ≡ some (f, m')
    → IsMissing g m'.free
unfolding ensure alloc_page IsMissing
ensure-IsMissing g t i fl f m m' miss run = elim (Bool-cases (is_present (m.words t i))) [
  | inl there ↦
      (let end : ◌≡◌ {A = Option (ℕ × Memory)} (some (frame (m.words t i), m)) (some (f, m')) =
          rw (ensure, there) at run in
        let same : m ≡ m' = cc in subst (λ n. IsMissing g n.free) same miss)
  | inr absent ↦ elim (List-cases m.free) [
    | inl e ↦
        (let no : ◌≡◌ {A = Option (ℕ × Memory)} none (some (f, m')) =
            rw (ensure, absent, e) at run in
          cc)
    | inr (h, rest, e) ↦
        (let n : Memory =
            write_entry t i (h * page_bytes + fl) (clear h (record m { free = rest })) in
          let end : ◌≡◌ {A = Option (ℕ × Memory)} (some (h, n)) (some (f, m')) =
            rw (ensure, absent, alloc_page, e) at run in
          let same : n ≡ m' = cc in
          let all : IsMissing g (h ∷ rest) = subst (IsMissing g) e miss in
          subst (λ k. IsMissing g k.free) same all.1)
  ]
]

pub map_with-IsMissing :
    (g fl root va phys flags : ℕ) (m m' : Memory)
    → IsMissing g m.free
    → map_with fl root va phys flags m ≡ some m'
    → IsMissing g m'.free
unfolding map_with
map_with-IsMissing g fl root va phys flags m m' miss run =
    elim (Option-cases (ensure root (pml4_index va) fl m)) [
      | inl dry ↦ (let no : none ≡ some m' = rw (map_with, dry) at run in cc)
      | inr ((pdpt, m₁), r₁) ↦ elim (Option-cases (ensure pdpt (pdpt_index va) fl m₁)) [
        | inl dry ↦ (let no : none ≡ some m' = rw (map_with, r₁, dry) at run in cc)
        | inr ((pd, m₂), r₂) ↦ elim (Option-cases (ensure pd (pd_index va) fl m₂)) [
          | inl dry ↦ (let no : none ≡ some m' = rw (map_with, r₁, r₂, dry) at run in cc)
          | inr ((pt, m₃), r₃) ↦
              (let done : some (write_entry pt (pt_index va) (pte phys flags) m₃) ≡ some m' =
                  rw (map_with, r₁, r₂, r₃) at run in
                let end : write_entry pt (pt_index va) (pte phys flags) m₃ ≡ m' = cc in
                subst (λ n. IsMissing g n.free) end
                  (ensure-IsMissing g pd (pd_index va) fl pt m₂ m₃
                    (ensure-IsMissing g pdpt (pdpt_index va) fl pd m₁ m₂
                      (ensure-IsMissing g root (pml4_index va) fl pdpt m m₁ miss r₁) r₂)
                    r₃))
        ]
      ]
    ]

pub IsMissing-rest : (g f : ℕ) (fs : List ℕ) → IsMissing g (f ∷ fs) → IsMissing g fs
unfolding IsMissing
IsMissing-rest g f fs h = h.1

pub IsMissing-first : (g f : ℕ) (fs : List ℕ) → IsMissing g (f ∷ fs) → g ≢ f
unfolding IsMissing
IsMissing-first g f fs h = h.0
