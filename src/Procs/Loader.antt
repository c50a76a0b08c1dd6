-- ===== src/Procs/Loader.antt =====
-- The ELF loader of kernel/proc.c: elf_load_segments. The file is its bytes by their offset; its header and
-- its program headers are records with the fields that the loader reads.
pub mod Segments
pub mod Missing
pub mod Loaded
pub mod Enough
pub mod Loading
pub mod Stack
mod Tests
use jeos.Prelude.{
  ℕ, zero, suc, ◌+◌, ◌-◌, ◌*◌, ◌/◌, ◌%◌, ◌^◌, Bool, true, false, not, ◌&&◌, ◌||◌, Option, none,
  some, List, [], ◌∷◌, ltb, leb, ◌==◌, if◌then◌else◌, ◌>>=◌,
}
use jeos.Mem.Paging.{Memory, clear, alloc_page, map_page_pml4}
use jeos.Procs.{user_stack_top}
use jeos.Procs.Arguments.{Page, user_stack_base}

-- `Elf64_Phdr` and `Elf64_Ehdr`, the program headers at `e_phoff` for its number and place.
pub record Segment : Type 0 where
  pub p_type : ℕ
  pub p_flags : ℕ
  pub p_offset : ℕ
  pub p_vaddr : ℕ
  pub p_filesz : ℕ
  pub p_memsz : ℕ

pub record Header : Type 0 where
  pub e_magic : ℕ
  pub e_class : ℕ
  pub e_machine : ℕ
  pub e_entry : ℕ
  pub segments : List Segment

-- The tables, and the contents of the frames.
pub record Space : Type 0 where
  pub tables : Memory
  pub pages : ℕ → Page

-- The page of a segment at `va`: zero, with what of the file falls into it. A length of memcpy that wraps
-- writes behind the page, which is left out.
unfoldable pub page_at : Segment → (elf : ℕ → ℕ) → (va : ℕ) → Page
page_at s elf va x =
    let file_end = (s.p_vaddr + s.p_filesz) % 2 ^ 64 in
    let copy_start = if ltb s.p_vaddr va then va else s.p_vaddr in
    let copy_end = if ltb (va + 4096) file_end then va + 4096 else file_end in
    let src = (s.p_offset + (copy_start - s.p_vaddr)) % 2 ^ 64 in
    let dst = copy_start - va in
    if ltb s.p_vaddr (va + 4096)
      && ltb va file_end
      && leb dst x
      && ltb x (dst + (copy_end + 2 ^ 64 - copy_start) % 2 ^ 64)
    then elf ((src + (x - dst)) % 2 ^ 64)
    else 0

-- A page from kalloc with its contents, mapped at `va`: `none` when the mapping faults; else whether
-- kalloc had a page, and the space.
unfoldable pub load_page : (pml4 va flags : ℕ) → Page → Space → Option (Bool × Space)
load_page pml4 va flags page a = elim (alloc_page a.tables) [
  | none ↦ some (false, a)
  | some (f, m) ↦ elim (map_page_pml4 pml4 va (f * 4096) flags (clear f m)) [
    | none ↦ none
    | some m' ↦ some (true, record { tables = m'; pages = λ g. if g == f then page else a.pages g })
  ]
]

-- A loop over pages from `va` on.
unfoldable pub load_pages : (rounds pml4 va flags : ℕ) → (ℕ → Page) → Space → Option (Bool × Space)
load_pages zero pml4 va flags page a = some (true, a)
load_pages (suc r) pml4 va flags page a =
    load_page pml4 va flags (page va) a >>= λ (t : Bool × Space).
    if t.0 then load_pages r pml4 (va + 4096) flags page t.1 else some t

-- How many pages lie from one page boundary to another.
abbrev pub page_rounds : (start end : ℕ) → ℕ
page_rounds start end = (end - start) / 4096

-- The body of the loop over the program headers; PT_LOAD is 1, PF_W the second bit.
unfoldable pub load_segment : (pml4 : ℕ) (elf : ℕ → ℕ) → Segment → Space → Option (Bool × Space)
load_segment pml4 elf s a =
    let start = s.p_vaddr / 4096 * 4096 in
    let end = (s.p_vaddr + s.p_memsz + 4095) % 2 ^ 64 / 4096 * 4096 in
    let flags = if s.p_flags / 2 % 2 == 1 then 6 else 4 in
    if s.p_type == 1
    then load_pages (page_rounds start end) pml4 start flags (page_at s elf) a
    else some (true, a)

unfoldable pub load_segments :
    (pml4 : ℕ) (elf : ℕ → ℕ) → List Segment → Space → Option (Bool × Space)
load_segments pml4 elf [] a = some (true, a)
load_segments pml4 elf (s ∷ ss) a = load_segment pml4 elf s a >>= λ (t : Bool × Space).
    if t.0 then load_segments pml4 elf ss t.1 else some t

-- `elf_load_segments`: the entry, `none` for -1. ELF_MAGIC, ELFCLASS64 and EM_X86_64 are written out.
unfoldable pub elf_load_segments :
    (pml4 : ℕ) (elf : ℕ → ℕ) → Header → Space → Option (Option ℕ × Space)
elf_load_segments pml4 elf h a =
    if not (h.e_magic == 0x464C457F) || not (h.e_class == 2) || not (h.e_machine == 62)
    then some (none, a)
    else (load_segments pml4 elf h.segments a >>= λ (t : Bool × Space).
        if t.0
        then (load_pages (page_rounds user_stack_base (user_stack_top + 4096)) pml4 user_stack_base
              6 (λ va x. 0) t.1
            >>= λ (u : Bool × Space). some (if u.0 then some h.e_entry else none, u.1))
        else some (none, t.1))
