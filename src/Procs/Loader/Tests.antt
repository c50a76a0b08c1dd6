-- ===== src/Procs/Loader/Tests.antt =====
-- Runs of the loader: a segment of 16 bytes, 4 of them zero, over the end of a page.
use jeos.Prelude.{ℕ, ◌%◌, ◌≡◌, refl, true, none, some, [], ◌∷◌, arith}
use jeos.Mem.Paging.{frame}
use jeos.Mem.Paging.Forest.{Places, put_place, IsMissing, AreFresh, IsForest}
use jeos.Mem.Paging.Pages.{entry_at}
use jeos.Procs.Loader.{Segment, Header, Space, load_segment}
use jeos.Procs.Loader.Stack.{AreLow}
use jeos.Procs.Loader.Loading.{load_segment-byte_at}

-- An empty address space with its root in frame 1.
abbrev space : Space
space = record {
  tables = record {
    words = λ s j. 0;
    free = 10 ∷ 11 ∷ 12 ∷ 13 ∷ 14 ∷ 15 ∷ 16 ∷ 17 ∷ 18 ∷ 19 ∷ 20 ∷ 21 ∷ 22 ∷ 23 ∷ 24 ∷ 25 ∷ [];
  };
  pages = λ f x. 99;
}

abbrev places : Places
places = put_place 1 (1 ∷ []) (λ s. none)

space-IsForest : IsForest places space.tables
unfolding AreFresh IsMissing
space-IsForest = record { child = λ t i p here high low present. cc; fresh = ground arith }

abbrev elf : ℕ → ℕ
elf i = i % 251

-- For the user and writable.
abbrev data_segment : Segment
data_segment = record {
  p_type = 1;
  p_flags = 6;
  p_offset = 64;
  p_vaddr = 0x400ff8;
  p_filesz = 12;
  p_memsz = 16;
}

load_segment-byte_at_example :
    (a' : Space) × (own' : Places) × (load_segment 1 elf data_segment space ≡ some (true, a'))
    × IsForest own' a'.tables
    × (entry_at a'.tables 1 0x401001 % 4096 ≡ 7)
    × (a'.pages (frame (entry_at a'.tables 1 0x401001)) 1 ≡ 73)
load_segment-byte_at_example =
    load_segment-byte_at places space 1 0x401001 elf data_segment space-IsForest refl refl
      (omega arith) (omega arith) (omega arith) (omega arith) (omega arith) (omega arith)

-- A header with the segment and one that is not loaded.
abbrev header : Header
header = record {
  e_magic = 0x464C457F;
  e_class = 2;
  e_machine = 62;
  e_entry = 0x400ff8;
  segments = data_segment ∷ record data_segment { p_type = 4 } ∷ [];
}

low : AreLow header.segments
unfolding AreLow
low = (omega arith, (omega arith, tt))
