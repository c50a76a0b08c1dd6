-- ===== src/Procs/Loader/Stack.antt =====
-- The whole of elf_load_segments of kernel/proc.c, and the stack that it leaves for setup_user_stack.
use jeos.Prelude.{ℕ, ◌+◌, ◌-◌, ◌/◌, ◌^◌, ◌≤◌, List, [], ◌∷◌, ◌==◌, if◌then◌else◌}
use jeos.Procs.Loader.{Segment}

-- Every segment ends a page below 2^47 in memory.
unfoldable pub AreLow : List Segment → Type 0
AreLow [] = Unit
AreLow (s ∷ ss) = (s.p_vaddr + s.p_memsz + 4096 ≤ 2 ^ 47) × AreLow ss

-- The pages that the segments of a file reach.
unfoldable pub pages_reached : List Segment → ℕ
pages_reached [] = 0
pages_reached (s ∷ ss) =
    (if s.p_type == 1 then (s.p_vaddr + s.p_memsz + 4095) / 4096 - s.p_vaddr / 4096 else 0)
    + pages_reached ss
