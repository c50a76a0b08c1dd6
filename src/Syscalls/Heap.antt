-- ===== src/Syscalls/Heap.antt =====
-- What sys_brk of kernel/syscall.c maps.
use jeos.Prelude.{
  ℕ, zero, suc, ◌+◌, ◌-◌, ◌*◌, ◌/◌, ◌%◌, ◌^◌, ◌≤◌, ◌<◌, ◌≡◌, refl, subst, ◌∙◌, inl, inr, Bool, true,
  false, ◌&&◌, ◌||◌, Option, none, some, List, [], ◌∷◌, ltb, ◌==◌, Bool-cases, Option-cases, sym,
  ap, length, arith,
}
use jeos.Procs.{user_heap_base}
use jeos.Mem.Paging.{Memory, page_bytes, is_present, clear, alloc_page, map_page_pml4}
use jeos.Mem.Paging.Forest.{Places, IsForest}
use jeos.Mem.Paging.Mapping.{TablesFrom}
use jeos.Mem.Paging.Pages.{entry_at, IsRoot, map_with-IsMapped}
use jeos.Mem.Paging.Spaces.{entry_at-agree, alloc_page-IsNew, clear-IsForest}
use jeos.Syscalls.{heap_end, page_up, brk_loop, sys_brk}

-- Every entry above the last level of the tables that form the trees, in the lower half, is present,
-- writable and for the user, if it is there.
abbrev pub AreOpen : Places → Memory → Type 0
AreOpen own m =
    (t i : ℕ) (p : List ℕ)
    → own t ≡ some p
    → length p < 4
    → (length p ≡ 1 → i < 256)
    → is_present (m.words t i) ≡ true
    → m.words t i % page_bytes ≡ 7

AreOpen-TablesFrom :
    (own own' : Places) (m m' : Memory)
    → TablesFrom 7 own own' m m'
    → AreOpen own m
    → AreOpen own' m'
AreOpen-TablesFrom own own' m m' from open_before t i p at high lower present =
    elim (from t i p at high present) [
      | inl new ↦ new
      | inr (at₀, same) ↦
          ap (λ w. w % page_bytes) same
          ∙ open_before t i p at₀ high lower (ap is_present (sym same) ∙ present)
    ]

-- The pages from `lo` on and below `hi` have been given to the process with this root, present,
-- writable and for the user on every level of the tables; all other entries of all processes are as before.
pub record IsGrown (own own' : Places) (m m' : Memory) (root lo hi : ℕ) : Type 0 where
  pub forest : IsForest own' m'
  pub opened : AreOpen own' m'
  pub keeps : (x : ℕ) (q : List ℕ) → own x ≡ some q → own' x ≡ some q
  pub given :
      (b : ℕ)
      → b < 2 ^ 47
      → lo ≤ b / page_bytes
      → b / page_bytes < hi
      → entry_at m' root b % page_bytes ≡ 7
  pub others :
      (r b : ℕ)
      → IsRoot own r
      → b < 2 ^ 47
      → (r ≡ root → (lo ≤ b / page_bytes) → (b / page_bytes < hi) → ⊥)
      → entry_at m' r b ≡ entry_at m r b

brk_loop-IsGrown :
    (k root va : ℕ) (own : Places) (m m' : Memory)
    → IsForest own m
    → AreOpen own m
    → IsRoot own root
    → va + k * page_bytes ≤ 2 ^ 47
    → va % page_bytes ≡ 0
    → brk_loop k root va m ≡ some (true, m')
    → (own' : Places) × IsGrown own own' m m' root (va / page_bytes) (va / page_bytes + k)
unfolding brk_loop
brk_loop-IsGrown zero root va own m m' forest opened is_root low aligned run =
    let same : m ≡ m' = cc in
    (
      own,
      subst (λ x. IsGrown own own m x root (va / page_bytes) (va / page_bytes + 0)) same
          (record {
            forest = forest;
            opened = opened;
            keeps = λ x q h. h;
            given = λ b h lo hi. absurd (omega arith);
            others = λ r b h l f. refl;
          }),
    )
brk_loop-IsGrown (suc k) root va own m m' forest opened is_root low aligned run =
    elim (Option-cases (alloc_page m)) [
      | inl dry ↦
          let no : ◌≡◌ {A = Option (Bool × Memory)} (some (false, m)) (some (true, m')) =
            rw (brk_loop, dry) at run in
          cc
      | inr ((pg, m₁), got) ↦
          let n = alloc_page-IsNew own m m₁ pg forest got in
          let (forest₁, words) = clear-IsForest own m m₁ pg forest n in
          let step = map_page_pml4 root va (pg * page_bytes) 6 (clear pg m₁) in
          elim (Option-cases step) [
            | inl fault ↦
                let no : ◌≡◌ {A = Option (Bool × Memory)} none (some (true, m')) =
                  rw (brk_loop, got, fault) at run in
                cc
            | inr (m₂, mapped) ↦
                let rest : brk_loop k root (va + page_bytes) m₂ ≡ some (true, m') =
                  rw (brk_loop, got, mapped) at run in
                let (own₂, w) =
                  map_with-IsMapped own (clear pg m₁) m₂ 7 root va (pg * page_bytes) 6 forest₁
                    is_root (omega arith) (omega arith) refl mapped in
                let (own₃, g) =
                  brk_loop-IsGrown k root (va + page_bytes) own₂ m₂ m' w.forest
                    (AreOpen-TablesFrom own own₂ (clear pg m₁) m₂ w.tables
                      (λ t i p at high lower present.
                        ap (λ w. w % page_bytes) (words t i p at)
                        ∙ opened t i p at high lower
                            (ap is_present (sym (words t i p at)) ∙ present)))
                    (w.keeps root (root ∷ []) is_root) (omega arith) (omega arith) rest in
                let next : (va + page_bytes) / page_bytes ≡ va / page_bytes + 1 = omega arith in
                (
                  own₃,
                  record {
                    forest = g.forest;
                    opened = g.opened;
                    keeps = λ x q h. g.keeps x q (w.keeps x q h);
                    given = λ b h lo hi. elim (Bool-cases (b / page_bytes == va / page_bytes)) [
                      | inl here ↦
                          let after =
                            g.others root b (w.keeps root (root ∷ []) is_root) h
                              (λ e lo' hi'. ground (arith, here)) in
                          let at = w.entries root b is_root h in ground (arith, after, at, here)
                      | inr later ↦ g.given b h (ground (arith, later)) (omega arith)
                    ];
                    others = λ r b h l f.
                        let after =
                          g.others r b (w.keeps r (r ∷ []) h) l
                            (λ e lo hi. f e (omega arith) (omega arith)) in
                        let apart : ((r == root) && (b / page_bytes == va / page_bytes)) ≡ false =
                          elim (Bool-cases ((r == root) && (b / page_bytes == va / page_bytes))) [
                            | inl both ↦ absurd (f (ground arith) (ground arith) (ground arith))
                            | inr e ↦ e
                          ] in
                        let at : entry_at m₂ r b ≡ entry_at (clear pg m₁) r b =
                          rw apart at (w.entries r b h l) in
                        after ∙ at ∙ entry_at-agree own m (clear pg m₁) r b forest words h l;
                  },
                )
          ]
    ]

-- In memory whose page tables form trees and let the user write on all levels above the last, for a
-- process whose break is in the heap: when sys_brk returns a larger break than the old one, the tables
-- still do, and all pages from the end of the old heap up to the new break have entries that are
-- present, writable and the user's, and no other entry of any process has changed.
pub sys_brk-IsGrown :
    (own : Places) (root brk new_brk brk' : ℕ) (m m' : Memory)
    → IsForest own m
    → AreOpen own m
    → IsRoot own root
    → brk < new_brk
    → user_heap_base ≤ new_brk
    → new_brk ≤ heap_end
    → sys_brk root brk new_brk m ≡ some (new_brk, brk', m')
    → (own' : Places) × IsGrown own own' m m' root
        (page_up brk / page_bytes)
        (page_up new_brk / page_bytes)
      × (brk' ≡ new_brk)
unfolding sys_brk
sys_brk-IsGrown own root brk new_brk brk' m m' forest opened is_root more low high run =
    let new_page = page_up new_brk in
    let old_page = page_up brk in
    let taken : ((new_brk == 0) || (ltb new_brk user_heap_base || ltb heap_end new_brk)) ≡ false =
      ground arith in
    let grows : ltb brk new_brk ≡ true = ground arith in
    let rounds = (new_page - old_page) / page_bytes in
    elim (Option-cases (brk_loop rounds root old_page m)) [
      | inl fault ↦
          let no : ◌≡◌ {A = Option (ℕ × ℕ × Memory)} none (some (new_brk, brk', m')) =
            rw (sys_brk, taken, grows, fault) at run in
          cc
      | inr ((false, m₁), e) ↦
          let end : ◌≡◌ {A = Option (ℕ × ℕ × Memory)} (some (brk, brk, m₁))
              (some (new_brk, brk', m')) =
            rw (sys_brk, taken, grows, e) at run in
          let same : brk ≡ new_brk = cc in absurd (omega arith)
      | inr ((true, m₁), e) ↦
          let end : ◌≡◌ {A = Option (ℕ × ℕ × Memory)} (some (new_brk, new_brk, m₁))
              (some (new_brk, brk', m')) =
            rw (sys_brk, taken, grows, e) at run in
          let same : m₁ ≡ m' = cc in
          let to_end : old_page / page_bytes + rounds ≡ new_page / page_bytes = omega arith in
          let (own', g) =
            brk_loop-IsGrown rounds root old_page own m m₁ forest opened is_root (omega arith)
              (omega arith) e in
          (
            own',
            subst (λ x. IsGrown own own' m x root (old_page / page_bytes) (new_page / page_bytes))
                same (subst (λ hi. IsGrown own own' m m₁ root (old_page / page_bytes) hi) to_end g),
            (cc),
          )
    ]
