-- ===== src/Procs/Loader/Loaded.antt =====
-- The pages of a segment after elf_load_segments of kernel/proc.c: mapped, with their contents.
use jeos.Prelude.{
  ℕ, ◌+◌, ◌*◌, ◌/◌, ◌%◌, ◌^◌, ◌≤◌, ◌<◌, ◌≡◌, refl, subst, ◌∙◌, inl, inr, Bool, true, false, ◌&&◌,
  none, some, Option, List, [], ◌∷◌, ◌==◌, if◌then◌else◌, Bool-cases, Option-cases, dec_lt, arith,
}
use jeos.Mem.Paging.{Memory, clear, alloc_page, map_page_pml4, frame, pte}
use jeos.Mem.Paging.Forest.{Places, IsForest, IsMissing}
use jeos.Mem.Paging.Pages.{entry_at, IsRoot, IsMapped, map_with-IsMapped}
use jeos.Mem.Paging.Spaces.{entry_at-agree, IsNew, alloc_page-IsNew, clear-IsForest}
use jeos.Procs.Arguments.{Page}
use jeos.Procs.Loader.{Space, load_page}
use jeos.Procs.Loader.Missing.{
  alloc_page-first, map_with-IsMissing, IsMissing-rest, IsMissing-first,
}

-- The pages from `lo` on and below `hi` are mapped under the root, present and with the flags, to
-- frames with the contents `page`; all other entries of all processes are as before, and so are the
-- contents of every frame that was not free.
pub record IsLoaded (own own' : Places) (a a' : Space) (root lo hi flags : ℕ) (page : ℕ → Page)
    : Type 0 where
  pub forest : IsForest own' a'.tables
  pub keeps : (x : ℕ) (q : List ℕ) → own x ≡ some q → own' x ≡ some q
  pub loaded :
      (b x : ℕ)
      → b < 2 ^ 47
      → lo ≤ b / 4096
      → b / 4096 < hi
      → (entry_at a'.tables root b % 4096 ≡ flags + 1)
        × (a'.pages (frame (entry_at a'.tables root b)) x ≡ page (b / 4096 * 4096) x)
        × IsMissing (frame (entry_at a'.tables root b)) a'.tables.free
  pub others :
      (r b : ℕ)
      → IsRoot own r
      → b < 2 ^ 47
      → (r ≡ root → (lo ≤ b / 4096) → (b / 4096 < hi) → ⊥)
      → entry_at a'.tables r b ≡ entry_at a.tables r b
  pub kept : (g x : ℕ) → IsMissing g a.tables.free → a'.pages g x ≡ a.pages g x
  pub missing : (g : ℕ) → IsMissing g a.tables.free → IsMissing g a'.tables.free

pub IsLoaded-none :
    (own : Places) (a : Space) (root lo flags : ℕ) (page : ℕ → Page)
    → IsForest own a.tables
    → IsLoaded own own a a root lo lo flags page
IsLoaded-none own a root lo flags page forest = record {
  forest = forest;
  keeps = λ x q h. h;
  loaded = λ b x h l u. absurd (omega (arith, l, u));
  others = λ r b h l f. refl;
  kept = λ g x h. refl;
  missing = λ g h. h;
}

-- Two loads of neighbouring ranges.
pub IsLoaded-join :
    (own₀ own₁ own₂ : Places) (a₀ a₁ a₂ : Space) (root lo mid hi flags : ℕ) (page : ℕ → Page)
    → IsRoot own₀ root
    → lo ≤ mid
    → mid ≤ hi
    → IsLoaded own₀ own₁ a₀ a₁ root lo mid flags page
    → IsLoaded own₁ own₂ a₁ a₂ root mid hi flags page
    → IsLoaded own₀ own₂ a₀ a₂ root lo hi flags page
IsLoaded-join own₀ own₁ own₂ a₀ a₁ a₂ root lo mid hi flags page is_root below above l₁ l₂ = record {
  forest = l₂.forest;
  keeps = λ x q h. l₂.keeps x q (l₁.keeps x q h);
  loaded = λ b x h lo' hi'. elim (dec_lt (b / 4096) mid) [
    | yes first ↦
        (let (bits, bytes, miss) = l₁.loaded b x h lo' first in
          let same =
            l₂.others root b (l₁.keeps root (root ∷ []) is_root) h
              (λ e u v. absurd (omega (arith, first, u))) in
          (
            rw same bits,
            rw same (l₂.kept (frame (entry_at a₁.tables root b)) x miss ∙ bytes),
            rw same (l₂.missing (frame (entry_at a₁.tables root b)) miss),
          ))
    | no later ↦ l₂.loaded b x h (omega (arith, later)) hi'
  ];
  others = λ r b h l f.
      l₂.others r b (l₁.keeps r (r ∷ []) h) l (λ e u v. f e (omega (arith, below, u)) v)
      ∙ l₁.others r b h l (λ e u v. f e u (omega (arith, above, v)));
  kept = λ g x h. l₂.kept g x (l₁.missing g h) ∙ l₁.kept g x h;
  missing = λ g h. l₂.missing g (l₁.missing g h);
}

-- A page with its contents, once it is mapped.
module _ (own own₂ : Places) (a : Space) (m₁ m₂ : Memory) (root va flags pg : ℕ) (page : ℕ → Page)
    (forest : IsForest own a.tables) (is_root : IsRoot own root) (low : va < 2 ^ 47)
    (whole : va % 4096 ≡ 0) (small : flags < 4095) (even : flags % 2 ≡ 0)
    (got : alloc_page a.tables ≡ some (pg, m₁)) (n : IsNew own a.tables m₁ pg)
    (words : (t j : ℕ) (p : List ℕ) → own t ≡ some p → (clear pg m₁).words t j ≡ a.tables.words t j)
    (mapped : map_page_pml4 root va (pg * 4096) flags (clear pg m₁) ≡ some m₂)
    (w : IsMapped own own₂ (clear pg m₁) m₂ root va (pte (pg * 4096) flags) 7) where
  abbrev with_page : Space
  with_page = record { tables = m₂; pages = λ g. if g == pg then page va else a.pages g }

  entry_here :
      (b : ℕ) → b < 2 ^ 47 → b / 4096 ≡ va / 4096 → entry_at m₂ root b ≡ pg * 4096 + (flags + 1)
  entry_here b h same =
      let here : ((root == root) && (b / 4096 == va / 4096)) ≡ true = ground (arith, same) in
      let at = w.entries root b is_root h in
      let odd : (flags % 2 == 1) ≡ false = ground (arith, even) in
      let value : pte (pg * 4096) flags ≡ pg * 4096 + (flags + 1) = rw odd (omega arith) in
      rw here at at ∙ value

  entry_other :
      (r b : ℕ)
      → IsRoot own r
      → b < 2 ^ 47
      → ((r == root) && (b / 4096 == va / 4096)) ≡ false
      → entry_at m₂ r b ≡ entry_at a.tables r b
  entry_other r b h l apart =
      (rw apart at (w.entries r b h l))
      ∙ entry_at-agree own a.tables (clear pg m₁) r b forest words h l

  outside :
      (r b : ℕ)
      → (r ≡ root → (va / 4096 ≤ b / 4096) → (b / 4096 < va / 4096 + 1) → ⊥)
      → ((r == root) && (b / 4096 == va / 4096)) ≡ false
  outside r b f = elim (Bool-cases ((r == root) && (b / 4096 == va / 4096))) [
    | inl both ↦ absurd (f (ground arith) (ground arith) (ground arith))
    | inr e ↦ e
  ]

  with_page-IsLoaded : IsLoaded own own₂ a with_page root (va / 4096) (va / 4096 + 1) flags page
  with_page-IsLoaded = record {
    forest = w.forest;
    keeps = w.keeps;
    loaded = λ b x h lo hi.
        let same : b / 4096 ≡ va / 4096 = omega (arith, lo, hi) in
        let entry = entry_here b h same in
        let to : frame (entry_at m₂ root b) ≡ pg = omega (arith, entry, small) in
        let at : b / 4096 * 4096 ≡ va = omega (arith, same, whole) in
        let here : (pg == pg) ≡ true = ground arith in
        (
          omega (arith, entry, small),
          rw (to, here, at) refl,
          rw to
              (map_with-IsMissing pg 7 root va (pg * 4096) flags (clear pg m₁) m₂ n.missing mapped),
        );
    others = λ r b h l f. entry_other r b h l (outside r b f);
    kept = λ g x h.
        let all : IsMissing g (pg ∷ m₁.free) =
          subst (IsMissing g) (alloc_page-first pg a.tables m₁ got) h in
        let apart : (g == pg) ≡ false = ground (arith, IsMissing-first g pg m₁.free all) in
        rw apart refl;
    missing = λ g h.
        let all : IsMissing g (pg ∷ m₁.free) =
          subst (IsMissing g) (alloc_page-first pg a.tables m₁ got) h in
        map_with-IsMissing g 7 root va (pg * 4096) flags (clear pg m₁) m₂
          (IsMissing-rest g pg m₁.free all) mapped;
  }

pub load_page-IsLoaded :
    (own : Places) (a a' : Space) (root va flags : ℕ) (page : ℕ → Page)
    → IsForest own a.tables
    → IsRoot own root
    → va < 2 ^ 47
    → va % 4096 ≡ 0
    → flags < 4095
    → flags % 2 ≡ 0
    → load_page root va flags (page va) a ≡ some (true, a')
    → (own' : Places) × IsLoaded own own' a a' root (va / 4096) (va / 4096 + 1) flags page
unfolding load_page
load_page-IsLoaded own a a' root va flags page forest is_root low whole small even run =
    elim (Option-cases (alloc_page a.tables)) [
      | inl dry ↦
          (let no : ◌≡◌ {A = Option (Bool × Space)} (some (false, a)) (some (true, a')) =
              rw (load_page, dry) at run in
            cc)
      | inr ((pg, m₁), got) ↦
          (let n = alloc_page-IsNew own a.tables m₁ pg forest got in
            let (forest₁, words) = clear-IsForest own a.tables m₁ pg forest n in
            elim (Option-cases (map_page_pml4 root va (pg * 4096) flags (clear pg m₁))) [
              | inl fault ↦
                  (let no : ◌≡◌ {A = Option (Bool × Space)} none (some (true, a')) =
                      rw (load_page, got, fault) at run in
                    cc)
              | inr (m₂, mapped) ↦
                  (let (own₂, w) =
                      map_with-IsMapped own (clear pg m₁) m₂ 7 root va (pg * 4096) flags forest₁
                        is_root low (omega arith) refl mapped in
                    let u =
                      with_page own own₂ a m₁ m₂ root va flags pg page forest is_root low whole
                        small even got n words mapped w in
                    let end : ◌≡◌ {A = Option (Bool × Space)} (some (true, u)) (some (true, a')) =
                      rw (load_page, got, mapped) at run in
                    let same : u ≡ a' = cc in
                    (
                      own₂,
                      subst (λ z. IsLoaded own own₂ a z root (va / 4096) (va / 4096 + 1) flags page)
                          same
                          (with_page-IsLoaded own own₂ a m₁ m₂ root va flags pg page forest is_root
                            low whole small even got n words mapped w),
                    ))
            ])
    ]
