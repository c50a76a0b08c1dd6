-- ===== src/Mem/Paging.antt =====
-- The page tables of kernel/mem.c. Memory is a word for each frame and index, the direct map is the
-- identity, and the single pages that kalloc still gives are a list of frames; a new page is cleared
-- or overwritten whole before it is read. The frame of an entry are its bits from 12 on, as
-- PAGE_FRAME_MASK has them. Flags are below 2^12, so that to or them in is to add them.
pub mod Forest
pub mod Mapping
pub mod Pages
pub mod Spaces
mod Tests
use jeos.Prelude.{
  ℕ, zero, suc, ◌+◌, ◌-◌, ◌*◌, ◌/◌, ◌%◌, ◌^◌, Bool, true, false, not, ◌&&◌, Option, none, some,
  List, [], ◌∷◌, ltb, ◌==◌, if◌then◌else◌, ◌>>=◌,
}

pub record Memory : Type 0 where
  pub words : ℕ → ℕ → ℕ
  pub free : List ℕ

abbrev pub page_bytes : ℕ
page_bytes = 4096

-- `entry & PTE_PRESENT`, `entry & PTE_USER` and `entry & PAGE_FRAME_MASK`, the last by its number.
abbrev pub is_present : ℕ → Bool
is_present e = e % 2 == 1

abbrev pub is_user : ℕ → Bool
is_user e = e / 4 % 2 == 1

abbrev pub frame : ℕ → ℕ
frame e = e / page_bytes

-- PML4_INDEX, PDPT_INDEX, PD_INDEX and PT_INDEX.
abbrev pub pml4_index : ℕ → ℕ
pml4_index va = va / 2 ^ 39 % 512

abbrev pub pdpt_index : ℕ → ℕ
pdpt_index va = va / 2 ^ 30 % 512

abbrev pub pd_index : ℕ → ℕ
pd_index va = va / 2 ^ 21 % 512

abbrev pub pt_index : ℕ → ℕ
pt_index va = va / 2 ^ 12 % 512

-- `t[i] = v`, and `memset(t, 0, PAGE_SIZE)`.
abbrev pub write_entry : (t i v : ℕ) → Memory → Memory
write_entry t i v m = record m { words = λ s j. if (s == t) && (j == i) then v else m.words s j }

abbrev pub clear : ℕ → Memory → Memory
clear t m = record m { words = λ s j. if s == t then 0 else m.words s j }

-- `memcpy` of a page.
abbrev pub copy_page : (dst src : ℕ) → Memory → Memory
copy_page dst src m = record m { words = λ s j. if s == dst then m.words src j else m.words s j }

-- `kalloc(1)`.
unfoldable pub alloc_page : Memory → Option (ℕ × Memory)
alloc_page m = elim m.free [ [] ↦ none | f ∷ rest ↦ some (f, record m { free = rest }) ]

-- "Get or create" one table, with the flags of its entry; `none` where kalloc returns 0, which the code
-- does not test.
unfoldable pub ensure : (table i flags : ℕ) → Memory → Option (ℕ × Memory)
ensure table i flags m =
    if is_present (m.words table i)
    then some (frame (m.words table i), m)
    else (alloc_page m >>= λ r.
        some (r.0, write_entry table i (r.0 * page_bytes + flags) (clear r.0 r.1)))

-- `(phys & PAGE_FRAME_MASK) | flags | PTE_PRESENT`.
abbrev pub pte : (phys flags : ℕ) → ℕ
pte phys flags = frame phys * page_bytes + (if flags % 2 == 1 then flags else flags + 1)

-- `map_page` and `map_page_pml4`, whose tables have the flags `table_flags`; the TLB is not modelled.
unfoldable pub map_with : (table_flags pml4 virt phys flags : ℕ) → Memory → Option Memory
map_with table_flags pml4 virt phys flags m =
    ensure pml4 (pml4_index virt) table_flags m >>= λ pdpt.
    ensure pdpt.0 (pdpt_index virt) table_flags pdpt.1 >>= λ pd.
    ensure pd.0 (pd_index virt) table_flags pd.1 >>= λ pt.
    some (write_entry pt.0 (pt_index virt) (pte phys flags) pt.1)

-- PTE_PRESENT | PTE_WRITE, and with PTE_USER.
abbrev pub map_page : (cr3 virt phys flags : ℕ) → Memory → Option Memory
map_page cr3 = map_with 3 cr3

abbrev pub map_page_pml4 : (pml4 virt phys flags : ℕ) → Memory → Option Memory
map_page_pml4 = map_with 7

-- `map_mmio`, from the address `p` on.
unfoldable pub mmio_loop : (rounds cr3 p : ℕ) → Memory → Option Memory
mmio_loop zero cr3 p m = some m
mmio_loop (suc r) cr3 p m =
    map_page cr3 p p 27 m >>= λ m'. mmio_loop r cr3 ((p + page_bytes) % 2 ^ 64) m'

unfoldable pub map_mmio : (cr3 phys size : ℕ) → Memory → Option Memory
map_mmio cr3 phys size m =
    let start = phys / page_bytes * page_bytes in
    let end = (phys + size + page_bytes - 1) % 2 ^ 64 / page_bytes * page_bytes in
    mmio_loop ((end - start) / page_bytes) cr3 start m

-- `create_user_pml4`: a cleared table with the kernel half of the current one.
unfoldable pub create_user_pml4 : (cr3 : ℕ) → Memory → Option (ℕ × Memory)
create_user_pml4 cr3 m = alloc_page m >>= λ r. some (
  r.0,
  record r.1 {
    words = λ s j. if s == r.0 then (if ltb j 256 then 0 else m.words cr3 j) else m.words s j;
  },
)

-- A loop from `i` on whose body may fault.
unfoldable pub for_each : (rounds i : ℕ) → (ℕ → Memory → Option Memory) → Memory → Option Memory
for_each zero i body m = some m
for_each (suc r) i body m = body i m >>= λ m'. for_each r (i + 1) body m'

-- One page of `copy_user_pml4`. Without a page for the copy the loop goes on.
unfoldable pub copy_leaf : (new va entry : ℕ) → Memory → Option Memory
copy_leaf new va entry m =
    if is_present entry && is_user entry
    then elim (alloc_page m) [
      | none ↦ some m
      | some (page, m') ↦
          map_page_pml4 new va (page * page_bytes) (entry % page_bytes - 1)
            (copy_page page (frame entry) m')
    ]
    else some m

-- The body of a loop of `copy_user_pml4` and of `free_user_pml4` over one table: entries that are not
-- present are passed over.
abbrev pub present_at : ℕ → (ℕ → ℕ → Memory → Option Memory) → ℕ → Memory → Option Memory
present_at table body i m =
    if is_present (m.words table i) then body i (frame (m.words table i)) m else some m

unfoldable pub copy_user_pml4 : (new old : ℕ) → Memory → Option Memory
copy_user_pml4 new old = for_each 256 0 (
    present_at old λ i4 pdpt. for_each 512 0 (
      present_at pdpt λ i3 pd. for_each 512 0 (
        present_at pd λ i2 pt. for_each 512 0 (λ i1 m.
          copy_leaf new (i4 * 2 ^ 39 + i3 * 2 ^ 30 + i2 * 2 ^ 21 + i1 * 2 ^ 12) (m.words pt i1)
            m))))

-- `kfree(page, 1)`.
abbrev pub free_page : ℕ → Memory → Memory
free_page f m = record m { free = f ∷ m.free }

unfoldable pub free_leaf : (pt i : ℕ) → Memory → Option Memory
free_leaf pt i m =
    let e = m.words pt i in
    if is_present e && is_user e then some (free_page (frame e) m) else some m

-- `free_user_pml4`.
unfoldable pub free_user_pml4 : (pml4 : ℕ) → Memory → Option Memory
free_user_pml4 pml4 = for_each 256 0 (
    present_at pml4 λ i4 pdpt m.
      for_each 512 0
        (present_at pdpt λ i3 pd m₁.
          for_each 512 0
            (present_at pd
              λ i2 pt m₂. for_each 512 0 (free_leaf pt) m₂ >>= λ m₃. some (free_page pt m₃))
            m₁
          >>= λ m₂. some (free_page pd m₂))
        m
      >>= λ m₁. some (write_entry pml4 i4 0 (free_page pdpt m₁)))
