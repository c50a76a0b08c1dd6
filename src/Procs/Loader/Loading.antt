-- ===== src/Procs/Loader/Loading.antt =====
-- The loops of elf_load_segments of kernel/proc.c over the pages of a segment.
use jeos.Prelude.{
  ℕ, zero, suc, ◌+◌, ◌-◌, ◌*◌, ◌/◌, ◌%◌, ◌^◌, ◌≤◌, ◌<◌, ◌≡◌, subst, ◌∙◌, inl, inr, Bool, true,
  false, none, some, Option, [], ◌∷◌, ap, length, ◌==◌, if◌then◌else◌, Option-cases, arith,
}
use jeos.Mem.Paging.{frame}
use jeos.Mem.Paging.Forest.{Places, IsForest}
use jeos.Mem.Paging.Pages.{entry_at, IsRoot}
use jeos.Procs.Arguments.{Page}
use jeos.Procs.Loader.{Segment, Space, page_at, load_page, load_pages, page_rounds, load_segment}
use jeos.Procs.Loader.Segments.{byte_at, page_at-byte_at}
use jeos.Procs.Loader.Enough.{load_pages-enough}
use jeos.Procs.Loader.Loaded.{IsLoaded, IsLoaded-none, IsLoaded-join, load_page-IsLoaded}

pub load_pages-IsLoaded :
    (k : ℕ) (own : Places) (a a' : Space) (root va flags : ℕ) (page : ℕ → Page)
    → IsForest own a.tables
    → IsRoot own root
    → va + k * 4096 ≤ 2 ^ 47
    → va % 4096 ≡ 0
    → flags < 4095
    → flags % 2 ≡ 0
    → load_pages k root va flags page a ≡ some (true, a')
    → (own' : Places) × IsLoaded own own' a a' root (va / 4096) (va / 4096 + k) flags page
unfolding load_pages
load_pages-IsLoaded zero own a a' root va flags page forest is_root low whole small even run =
    let same : a ≡ a' = cc in
    (
      own,
      subst (λ z. IsLoaded own own a z root (va / 4096) (va / 4096 + 0) flags page) same
          (subst (λ hi. IsLoaded own own a a root (va / 4096) hi flags page) (omega arith)
            (IsLoaded-none own a root (va / 4096) flags page forest)),
    )
load_pages-IsLoaded (suc k) own a a' root va flags page forest is_root low whole small even run =
    elim (Option-cases (load_page root va flags (page va) a)) [
      | inl fault ↦
          (let no : ◌≡◌ {A = Option (Bool × Space)} none (some (true, a')) =
              rw (load_pages, fault) at run in
            cc)
      | inr ((false, u), e) ↦
          (let no : ◌≡◌ {A = Option (Bool × Space)} (some (false, u)) (some (true, a')) =
              rw (load_pages, e) at run in
            cc)
      | inr ((true, u), e) ↦
          (let others : load_pages k root (va + 4096) flags page u ≡ some (true, a') =
              rw (load_pages, e) at run in
            let (own₁, first) =
              load_page-IsLoaded own a u root va flags page forest is_root (omega arith) whole small
                even e in
            let (own₂, rest) =
              load_pages-IsLoaded k own₁ u a' root (va + 4096) flags page first.forest
                (first.keeps root (root ∷ []) is_root) (omega arith) (omega arith) small even
                others in
            let next : (va + 4096) / 4096 ≡ va / 4096 + 1 = omega arith in
            let end : (va + 4096) / 4096 + k ≡ va / 4096 + suc k = omega (arith, next) in
            let from : IsLoaded own₁ own₂ u a' root (va / 4096 + 1) (va / 4096 + suc k) flags page =
              subst (λ lo. IsLoaded own₁ own₂ u a' root lo (va / 4096 + suc k) flags page) next
                (subst (λ hi. IsLoaded own₁ own₂ u a' root ((va + 4096) / 4096) hi flags page) end
                  rest) in
            (
              own₂,
              IsLoaded-join own own₁ own₂ a u a' root (va / 4096) (va / 4096 + 1)
                  (va / 4096 + suc k) flags page is_root (omega arith) (omega arith) first from,
            ))
    ]

-- A PT_LOAD segment is loaded, and is then in memory: every address of the segment is mapped, present
-- and for the user and writable where the segment is, to a frame that has there the byte of the
-- segment, that of the file or zero; and the page tables still form trees. In page tables that form
-- trees, for a segment that ends a page below 2^47 and whose part of the file does not wrap, with four
-- free pages for each page that the segment reaches.
pub load_segment-byte_at :
    (own : Places) (a : Space) (pml4 b : ℕ) (elf : ℕ → ℕ) (s : Segment)
    → IsForest own a.tables
    → IsRoot own pml4
    → s.p_type ≡ 1
    → s.p_vaddr + s.p_memsz + 4096 ≤ 2 ^ 47
    → s.p_vaddr + s.p_filesz < 2 ^ 64
    → s.p_offset + s.p_filesz < 2 ^ 64
    → 4 * ((s.p_vaddr + s.p_memsz + 4095) / 4096 - s.p_vaddr / 4096) ≤ length a.tables.free
    → s.p_vaddr ≤ b
    → b < s.p_vaddr + s.p_memsz
    → (a' : Space) × (own' : Places) × (load_segment pml4 elf s a ≡ some (true, a'))
      × IsForest own' a'.tables
      × (entry_at a'.tables pml4 b % 4096 ≡ (if s.p_flags / 2 % 2 == 1 then 7 else 5))
      × (a'.pages (frame (entry_at a'.tables pml4 b)) (b % 4096) ≡ byte_at s elf b)
unfolding load_segment
load_segment-byte_at own a pml4 b elf s forest is_root type high ends file room from below =
    let start : ℕ = s.p_vaddr / 4096 * 4096 in
    let end : ℕ = (s.p_vaddr + s.p_memsz + 4095) % 2 ^ 64 / 4096 * 4096 in
    let flags : ℕ = if s.p_flags / 2 % 2 == 1 then 6 else 4 in
    let loads : (s.p_type == 1) ≡ true = ground (arith, type) in
    let small : flags < 4095 = ground arith in
    let even : flags % 2 ≡ 0 = ground arith in
    let bits_of : flags + 1 ≡ (if s.p_flags / 2 % 2 == 1 then 7 else 5) = ground arith in
    let first : start / 4096 ≡ s.p_vaddr / 4096 = omega arith in
    let last : start / 4096 + page_rounds start end ≡ (s.p_vaddr + s.p_memsz + 4095) / 4096 =
      omega (arith, high, from, below) in
    let fits : start + page_rounds start end * 4096 ≤ 2 ^ 47 = omega (arith, high, from, below) in
    let (a', run, left) =
      load_pages-enough 0 (page_rounds start end) pml4 start flags (page_at s elf) a
        (omega (arith, first, last, room)) in
    let (own', l) =
      load_pages-IsLoaded (page_rounds start end) own a a' pml4 start flags (page_at s elf) forest
        is_root fits (omega arith) small even run in
    let (bits, bytes, miss) =
      l.loaded b (b % 4096) (omega arith) (omega (arith, first, from))
        (omega (arith, last, below, from)) in
    let place : b / 4096 * 4096 + b % 4096 ≡ b = omega arith in
    (
      a',
      own',
      rw (load_segment, loads) run,
      l.forest,
      bits ∙ bits_of,
      bytes
          ∙ page_at-byte_at s elf (b / 4096 * 4096) (b % 4096) (omega arith) ends file
          ∙ ap (byte_at s elf) place,
    )
