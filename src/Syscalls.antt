-- ===== src/Syscalls.antt =====
-- The heap of a process: sys_brk of kernel/syscall.c.
pub mod Heap
mod Tests
use jeos.Prelude.{
  ℕ, zero, suc, ◌+◌, ◌-◌, ◌*◌, ◌/◌, ◌%◌, ◌^◌, Bool, true, false, ◌||◌, Option, none, some, List, [],
  ◌∷◌, ltb, ◌==◌, if◌then◌else◌, ◌>>=◌,
}
use jeos.Procs.{user_heap_base}
use jeos.Mem.Paging.{Memory, page_bytes, clear, alloc_page, map_page_pml4}

-- The highest break that is taken.
abbrev pub heap_end : ℕ
heap_end = 0x400000000

-- `(a + PAGE_SIZE - 1) & ~(PAGE_SIZE - 1)`.
abbrev pub page_up : ℕ → ℕ
page_up a = (a + page_bytes - 1) % 2 ^ 64 / page_bytes * page_bytes

-- The loop over the new pages, from `va` on, and whether it got them all; `none` is the fault of
-- map_page_pml4 without a page for a table.
unfoldable pub brk_loop : (rounds pml4 va : ℕ) → Memory → Option (Bool × Memory)
brk_loop zero pml4 va m = some (true, m)
brk_loop (suc k) pml4 va m = elim (alloc_page m) [
  | none ↦ some (false, m)
  | some (pg, m₁) ↦ map_page_pml4 pml4 va (pg * page_bytes) 6 (clear pg m₁) >>= λ m₂.
      brk_loop k pml4 (va + page_bytes) m₂
]

-- `sys_brk` of a process with the break `brk`: the result, the break after it, and memory.
unfoldable pub sys_brk : (pml4 brk new_brk : ℕ) → Memory → Option (ℕ × ℕ × Memory)
sys_brk pml4 brk new_brk m =
    if (new_brk == 0) || (ltb new_brk user_heap_base || ltb heap_end new_brk)
    then some (brk, brk, m)
    else (let old_page = page_up brk in
        let new_page = page_up new_brk in
        let rounds = if ltb brk new_brk then (new_page - old_page) / page_bytes else 0 in
        brk_loop rounds pml4 old_page m >>= λ r.
        some (if r.0 then new_brk else brk, if r.0 then new_brk else brk, r.1))
