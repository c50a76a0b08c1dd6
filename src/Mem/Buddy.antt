-- ===== src/Mem/Buddy.antt =====
-- The binary buddy allocator of kernel/mem.c. A free list is the list of the addresses that its
-- `next` pointers lead through, the head first. An allocator call runs under the allocator's lock
-- and is one step here.
pub mod Order
pub mod Block
pub mod Count
pub mod Merge
pub mod Links
pub mod Free
pub mod Take
pub mod Alloc
pub mod Align
pub mod Range
pub mod Client
mod Tests
use Prim.Native.Nat.{bit_xor}
use jeos.Prelude.{
  ℕ, zero, suc, ◌+◌, ◌-◌, ◌*◌, ◌/◌, ◌%◌, ◌^◌, not, ◌&&◌, ◌||◌, Option, none, some, List, [], ◌∷◌,
  ltb, leb, ◌==◌, if◌then◌else◌,
}

abbrev pub max_order : ℕ
max_order = 12

abbrev pub page_size : ℕ
page_size = 4096

-- `PAGE_SIZE << order`.
unfoldable pub bytes : ℕ → ℕ
bytes order = page_size * 2 ^ order

abbrev pub FreeLists : Type 0
FreeLists = ℕ → List ℕ

abbrev pub update : FreeLists → ℕ → List ℕ → FreeLists
update f i l j = if i == j then l else f j

-- The free lists, and the bytes of memory by address.
pub record Heap : Type 0 where
  pub free_lists : FreeLists
  pub mem : ℕ → ℕ

-- A call that returns, or one that loops for ever.
pub data Run (A : Type 0) : Type 0 where
  hang : Run A
  done : A → Run A

-- `memset(dst, c, n)`.
pub memset : ℕ → ℕ → ℕ → (ℕ → ℕ) → ℕ → ℕ
memset dst c n mem p = if leb dst p && ltb p (dst + n) then c % 256 else mem p

-- `while (size < n) { size <<= 1; o++; }` on fuel.
pub order_loop : (fuel size o n : ℕ) → Run ℕ
order_loop zero size o n = hang
order_loop (suc k) size o n =
    let rest = order_loop k (size * 2 % 2 ^ 64) (o + 1) n in if ltb size n then rest else done o

pub order_for : ℕ → Run ℕ
order_for n = order_loop 64 1 0 n

-- `buddy_remove`: the list without the first occurrence, or `none` if there is none.
pub remove : ℕ → List ℕ → Option (List ℕ)
remove addr [] = none
remove addr (x ∷ xs) =
    if x == addr then some xs else elim (remove addr xs) [ none ↦ none | some r ↦ some (x ∷ r) ]

-- `buddy_addr`.
abbrev pub buddy_of : ℕ → ℕ → ℕ
buddy_of addr order = bit_xor addr (bytes order)

-- The loop that walks up merging with the buddy, with `rounds` orders above `order`.
pub merge : (rounds addr order : ℕ) → FreeLists → ℕ × ℕ × FreeLists
merge zero addr order f = (addr, order, f)
merge (suc k) addr order f = elim (remove (buddy_of addr order) (f order)) [
  | none ↦ (addr, order, f)
  | some l ↦
      merge k (if ltb (buddy_of addr order) addr then buddy_of addr order else addr) (order + 1)
        (update f order l)
]

-- The merging walk from `order` and the push that ends it.
pub insert : ℕ → ℕ → FreeLists → FreeLists
insert addr order f =
    let (a, o, f') = merge (max_order - 1 - order) addr order f in update f' o (a ∷ f' o)

-- `r->next = ...`, the eight bytes of a u64, and the first address of a list, 0 for the null pointer.
unfoldable pub write_next : (at w : ℕ) → (ℕ → ℕ) → ℕ → ℕ
write_next at w mem p = if leb at p && ltb p (at + 8) then w / 256 ^ (p - at) % 256 else mem p

abbrev pub first_of : List ℕ → ℕ
first_of [] = 0
first_of (a ∷ _) = a

-- What buddy_remove writes: `*pp` is the `next` of the block before the one that it removes, unless
-- that is the first one.
unfoldable pub link_past : (before addr : ℕ) → List ℕ → (ℕ → ℕ) → ℕ → ℕ
link_past before addr [] mem = mem
link_past before addr (x ∷ xs) mem =
    if x == addr then write_next before (first_of xs) mem else link_past x addr xs mem

unfoldable pub remove_links : (addr : ℕ) → List ℕ → (ℕ → ℕ) → ℕ → ℕ
remove_links addr [] mem = mem
remove_links addr (x ∷ xs) mem = if x == addr then mem else link_past x addr xs mem

-- What the merging walk writes, and the push that ends it.
unfoldable pub merge_links : (rounds addr order : ℕ) → FreeLists → (ℕ → ℕ) → ℕ → ℕ
merge_links zero addr order f mem = mem
merge_links (suc k) addr order f mem = elim (remove (buddy_of addr order) (f order)) [
  | none ↦ mem
  | some l ↦
      merge_links k (if ltb (buddy_of addr order) addr then buddy_of addr order else addr)
        (order + 1) (update f order l) (remove_links (buddy_of addr order) (f order) mem)
]

unfoldable pub insert_links : (addr order : ℕ) → FreeLists → (ℕ → ℕ) → ℕ → ℕ
insert_links addr order f mem =
    let (a, o, f') = merge (max_order - 1 - order) addr order f in
    write_next a (first_of (f' o)) (merge_links (max_order - 1 - order) addr order f mem)

pub kfree : ℕ → ℕ → Heap → Run Heap
kfree v npages h =
    if not (v % page_size == 0) || npages == 0 then done h else elim (order_for npages) [
      | hang ↦ hang
      | done o ↦
          let order = if leb max_order o then max_order - 1 else o in
          done (record {
            free_lists = insert v order h.free_lists;
            mem = insert_links v order h.free_lists (memset v 1 (2 ^ order * page_size) h.mem);
          })
    ]

-- `while (k < MAX_ORDER && !buddy.free_lists[k]) k++`, with `rounds` orders from `k` on.
pub first_free : (rounds k : ℕ) → FreeLists → ℕ
first_free zero k f = k
first_free (suc r) k f = elim (f k) [ [] ↦ first_free r (k + 1) f | _ ∷ _ ↦ k ]

-- `while (k > order)`: split the block, and give the upper halves back.
pub split : (rounds k block : ℕ) → FreeLists → FreeLists
split zero k block f = f
split (suc r) k block f =
    split r (k - 1) block (update f (k - 1) ((block + bytes (k - 1)) % 2 ^ 64 ∷ f (k - 1)))

-- The block that `kalloc` takes for a request of this order, and the free lists after it.
pub take_block : ℕ → FreeLists → Option (ℕ × FreeLists)
take_block order f =
    let k = first_free (max_order - order) order f in
    if k == max_order then none else elim (f k) [
      | [] ↦ none
      | block ∷ rest ↦ some (block, split (k - order) k block (update f k rest))
    ]

-- What the split of the block writes: the `next` of each upper half.
unfoldable pub split_links : (rounds k block : ℕ) → FreeLists → (ℕ → ℕ) → ℕ → ℕ
split_links zero k block f mem = mem
split_links (suc r) k block f mem =
    let upper = (block + bytes (k - 1)) % 2 ^ 64 in
    split_links r (k - 1) block (update f (k - 1) (upper ∷ f (k - 1)))
      (write_next upper (first_of (f (k - 1))) mem)

unfoldable pub take_links : (order : ℕ) → FreeLists → (ℕ → ℕ) → ℕ → ℕ
take_links order f mem =
    let k = first_free (max_order - order) order f in
    if k == max_order then mem else elim (f k) [
      | [] ↦ mem
      | block ∷ rest ↦ split_links (k - order) k block (update f k rest) mem
    ]

-- `__builtin_ctzll`, with `rounds` digits left.
pub ctz : (rounds n : ℕ) → ℕ
ctz zero n = 0
ctz (suc k) n = let rest = ctz k (n / 2) in if n % 2 == 1 then 0 else rest + 1

-- The largest order that the alignment of the page `page_idx` allows.
pub aligned_order : ℕ → ℕ
aligned_order page_idx =
    let o = if page_idx == 0 then max_order - 1 else ctz 64 page_idx in
    if leb max_order o then max_order - 1 else o

-- `while (max_order > 0 && p + (PAGE_SIZE << max_order) > phys_end) max_order--`.
pub shrink : (order p phys_end : ℕ) → ℕ
shrink zero p phys_end = 0
shrink (suc o) p phys_end =
    let less = shrink o p phys_end in
    if ltb phys_end ((p + bytes (suc o)) % 2 ^ 64) then less else suc o

-- The loop of `freerange` on fuel; `hhdm` is the offset of the direct map.
pub range_loop : (fuel p phys_end hhdm : ℕ) → FreeLists → Run FreeLists
range_loop zero p phys_end hhdm f = hang
range_loop (suc k) p phys_end hhdm f =
    let order = shrink (aligned_order (p / page_size)) p phys_end in
    let rest =
      range_loop k ((p + bytes order) % 2 ^ 64) phys_end hhdm
        (insert ((p + hhdm) % 2 ^ 64) order f) in
    if leb ((p + page_size) % 2 ^ 64) phys_end then rest else done f

-- `x & ~(PAGE_SIZE - 1)`.
abbrev pub page_down : ℕ → ℕ
page_down x = x - x % page_size

-- One round frees a page at least, so that a round for each page and two more are enough.
pub freerange : (phys_start phys_end hhdm : ℕ) → FreeLists → Run FreeLists
freerange phys_start phys_end hhdm f =
    range_loop (phys_end / page_size + 2) (page_down ((phys_start + page_size - 1) % 2 ^ 64))
      phys_end hhdm f

-- `none` for the null pointer.
pub kalloc : ℕ → Heap → Run (Option ℕ × Heap)
kalloc npages h = if npages == 0 then done (none, h) else elim (order_for npages) [
  | hang ↦ hang
  | done order ↦
      if leb max_order order then done (none, h) else elim (take_block order h.free_lists) [
        | none ↦ done (none, h)
        | some (block, f) ↦ done (
          some block,
          record {
            free_lists = f;
            mem = memset block 5 (npages * page_size) (take_links order h.free_lists h.mem);
          },
        )
      ]
]
