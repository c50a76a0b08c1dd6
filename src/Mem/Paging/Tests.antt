-- ===== src/Mem/Paging/Tests.antt =====
-- Runs of the page tables: an empty address space in a memory with a few free pages.
use jeos.Prelude.{◌+◌, ◌*◌, ◌≡◌, refl, Option, none, some, [], ◌∷◌, arith}
use jeos.Mem.Paging.{
  Memory, alloc_page, ensure, map_with, map_page_pml4, pte, create_user_pml4, copy_user_pml4,
  free_user_pml4, for_each, copy_leaf, free_leaf,
}
use jeos.Mem.Paging.Forest.{Places, put_place, IsMissing, AreFresh, IsForest, leaf}
use jeos.Mem.Paging.Pages.{entry_at, IsMapped, map_with-IsMapped}

abbrev memory : Memory
memory = record { words = λ s j. 0; free = 10 ∷ 11 ∷ 12 ∷ 13 ∷ 14 ∷ 15 ∷ 16 ∷ 17 ∷ [] }

-- Frame 1 is a root.
abbrev places : Places
places = put_place 1 (1 ∷ []) (λ s. none)

memory-IsForest : IsForest places memory
unfolding AreFresh IsMissing
memory-IsForest = record { child = λ t i p here high low present. cc; fresh = ground arith }

or_memory : Option Memory → Memory
or_memory none = memory
or_memory (some m) = m

-- A page at 0x400000 for the user.
mapped : Memory
unfolding or_memory map_with ensure alloc_page
mapped = or_memory (map_page_pml4 1 0x400000 0x55000 6 memory)

mapped-run : map_page_pml4 1 0x400000 0x55000 6 memory ≡ some mapped
unfolding mapped
mapped-run = refl

mapped_entry : entry_at mapped 1 0x400123 ≡ 0x55007
unfolding mapped leaf
mapped_entry = refl

map_with-IsMapped_example :
    (own : Places) × IsMapped places own memory mapped 1 0x400000 (pte 0x55000 6) 7
map_with-IsMapped_example =
    map_with-IsMapped places memory mapped 7 1 0x400000 0x55000 6 memory-IsForest refl (omega arith)
      (omega arith) refl mapped-run

created : Memory
unfolding create_user_pml4 alloc_page
created = elim (create_user_pml4 1 memory) [ none ↦ memory | some (r, m) ↦ m ]

created-run : create_user_pml4 1 memory ≡ some (10, created)
unfolding created
created-run = refl

-- A copy of the address space has a page of its own with the same flags.
copied : Memory
unfolding mapped copy_user_pml4 for_each copy_leaf
copied = or_memory (copy_user_pml4 20 1 mapped)

copied_entry : entry_at copied 20 0x400000 ≡ 13 * 4096 + 7
unfolding copied leaf
copied_entry = refl

-- Freeing gives back the page and the three tables.
freed : Memory
unfolding mapped free_user_pml4 for_each free_leaf
freed = or_memory (free_user_pml4 1 mapped)

freed_pages : freed.free ≡ 10 ∷ 11 ∷ 12 ∷ 0x55 ∷ 13 ∷ 14 ∷ 15 ∷ 16 ∷ 17 ∷ []
unfolding freed
freed_pages = refl
