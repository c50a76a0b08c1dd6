-- ===== src/Syscalls/Tests.antt =====
-- Runs of the heap calls.
use jeos.Prelude.{ℕ, ◌+◌, ◌*◌, ◌/◌, ◌≡◌, refl, none, some, [], ◌∷◌, arith}
use jeos.Mem.Paging.{Memory, alloc_page, ensure, map_with}
use jeos.Mem.Paging.Forest.{Places, put_place, IsMissing, AreFresh, IsForest, leaf}
use jeos.Mem.Paging.Pages.{entry_at}
use jeos.Syscalls.{page_up, brk_loop, sys_brk}
use jeos.Syscalls.Heap.{AreOpen, IsGrown, sys_brk-IsGrown}

abbrev memory : Memory
memory = record { words = λ s j. 0; free = 10 ∷ 11 ∷ 12 ∷ 13 ∷ 14 ∷ 15 ∷ 16 ∷ 17 ∷ [] }

abbrev places : Places
places = put_place 1 (1 ∷ []) (λ s. none)

memory-IsForest : IsForest places memory
unfolding AreFresh IsMissing
memory-IsForest = record { child = λ t i p here high low present. cc; fresh = ground arith }

memory-AreOpen : AreOpen places memory
memory-AreOpen t i p here high low present = cc

-- The heap grows by two pages.
grown : Memory
unfolding sys_brk brk_loop map_with ensure alloc_page
grown = elim (sys_brk 1 0x40000000 0x40001801 memory) [ none ↦ memory | some (r, b, m) ↦ m ]

grown-run : sys_brk 1 0x40000000 0x40001801 memory ≡ some (0x40001801, 0x40001801, grown)
unfolding grown
grown-run = refl

grown_entry : entry_at grown 1 0x40001000 ≡ 14 * 4096 + 7
unfolding grown leaf
grown_entry = refl

sys_brk-IsGrown_example :
    (own : Places) × IsGrown places own memory grown 1
      (page_up 0x40000000 / 4096)
      (page_up 0x40001801 / 4096)
    × (◌≡◌ {A = ℕ} 0x40001801 0x40001801)
sys_brk-IsGrown_example =
    sys_brk-IsGrown places 1 0x40000000 0x40001801 0x40001801 memory grown memory-IsForest
      memory-AreOpen refl (omega arith) (omega arith) (omega arith) grown-run
