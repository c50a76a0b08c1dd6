-- ===== src/Procs/Loader/Segments.antt =====
-- The contents of the pages that elf_load_segments of kernel/proc.c makes.
use jeos.Prelude.{ℕ, ◌+◌, ◌-◌, ◌^◌, ◌<◌, ◌≡◌, ◌&&◌, ltb, leb, if◌then◌else◌, arith}
use jeos.Procs.Loader.{Segment, page_at}

-- A byte of a segment in memory: from the file, or zero.
abbrev pub byte_at : Segment → (elf : ℕ → ℕ) → (addr : ℕ) → ℕ
byte_at s elf addr =
    if leb s.p_vaddr addr && ltb addr (s.p_vaddr + s.p_filesz)
    then elf (s.p_offset + (addr - s.p_vaddr))
    else 0

-- Every byte of a page that the loader makes is the byte of the segment at its address: that of the
-- file at the same distance from the start of the segment, or zero where the file has none. On a page
-- of the address space, for a segment whose end in memory and whose end in the file do not wrap.
pub page_at-byte_at :
    (s : Segment) (elf : ℕ → ℕ) (va x : ℕ)
    → x < 4096
    → s.p_vaddr + s.p_filesz < 2 ^ 64
    → s.p_offset + s.p_filesz < 2 ^ 64
    → page_at s elf va x ≡ byte_at s elf (va + x)
unfolding page_at
page_at-byte_at s elf va x inside ends file = ground arith
