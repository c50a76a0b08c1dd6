-- ===== src/Mem/Buddy/Tests.antt =====
-- Runs of the allocator on a free list of one block of four pages.
use jeos.Prelude.{ℕ, ◌+◌, ◌^◌, ◌≤◌, ◌≡◌, ◌⊎◌, refl, none, some, [], ◌∷◌, arith}
use jeos.Mem.Buddy.{
  FreeLists, update, Heap, done, order_loop, order_for, kfree, first_free, split, take_block,
  kalloc, memset, take_links, split_links, bytes,
}
use jeos.Mem.Buddy.Order.{RequestOrder}
use jeos.Mem.Buddy.Block.{Block, blocks, covers}
use jeos.Mem.Buddy.Count.{Good, free_count, covered_below, update-Good}
use jeos.Mem.Buddy.Take.{NoneFrom}
use jeos.Mem.Buddy.Alloc.{Allocated, kalloc-Allocated}
use jeos.Mem.Buddy.Client.{Disjoint, kalloc_exclusive, kfree-kalloc}
use jeos.Mem.Buddy.Range.{IsMap}

abbrev no_blocks : FreeLists
no_blocks k = []

no_blocks-Good : Good no_blocks
no_blocks-Good k = tt

-- One free block of four pages at 16384.
abbrev small_heap : Heap
small_heap = record { free_lists = update no_blocks 2 (16384 ∷ []); mem = λ p. 0 }

small_heap-Block : Block 2 16384
small_heap-Block = unfold bytes blocks in record { index = 1; at = refl; low = omega arith }

small_heap-Good : Good small_heap.free_lists
small_heap-Good = update-Good no_blocks 2 (16384 ∷ []) no_blocks-Good (small_heap-Block, tt)

one_page : RequestOrder 1 0
one_page = record { holds = omega arith; least = λ j h. elim h [ ]; top = omega arith }

-- The heaps after one and after two allocations of a page.
abbrev after_one : Heap
after_one = record {
  free_lists = split 2 2 16384 (update small_heap.free_lists 2 []);
  mem = memset 16384 5 4096 (take_links 0 small_heap.free_lists small_heap.mem);
}

kalloc-one : kalloc 1 small_heap ≡ done (some 16384, after_one)
unfolding kalloc order_for order_loop take_block first_free
kalloc-one = refl

lists-one : (after_one.free_lists 0 ≡ 20480 ∷ []) × (after_one.free_lists 1 ≡ 24576 ∷ [])
unfolding split bytes
lists-one = (refl, refl)

abbrev after_two : Heap
after_two = record {
  free_lists = update after_one.free_lists 0 [];
  mem = memset 20480 5 4096 after_one.mem;
}

kalloc-two : kalloc 1 after_one ≡ done (some 20480, after_two)
unfolding kalloc order_for order_loop take_block first_free split bytes memset take_links
    split_links
kalloc-two = refl

small_heap-Disjoint : Disjoint small_heap
unfolding free_count covered_below
small_heap-Disjoint p = ground arith

-- Two pages of physical memory at 8192, seen at 8192 above the direct map's start.
two_pages-IsMap : IsMap (2 ^ 23) 16384
two_pages-IsMap =
    unfold bytes in record { factor = 1; at = refl; high = omega arith; fits = omega arith }

kalloc-Allocated_example :
    (kalloc 1 small_heap ≡ done (none, small_heap)) × NoneFrom 0 small_heap.free_lists
    ⊎ ((a : ℕ) × (h : Heap) × (kalloc 1 small_heap ≡ done (some a, h))
        × Allocated 1 0 small_heap a h)
kalloc-Allocated_example = kalloc-Allocated 1 0 small_heap (omega arith) one_page small_heap-Good

kalloc_exclusive_example :
    (covers 0 16384 20481 + covers 0 20480 20481 ≤ 1) × (free_count after_two.free_lists 20481 ≤ 1)
kalloc_exclusive_example =
    kalloc_exclusive 1 0 1 0 16384 20480 small_heap after_one after_two (omega arith) (omega arith)
      one_page one_page small_heap-Good small_heap-Disjoint kalloc-one kalloc-two 20481

kfree-kalloc_example :
    (h : Heap) × (kfree 16384 1 after_one ≡ done h)
    × Good h.free_lists
    × ((p : ℕ) → free_count h.free_lists p ≡ free_count small_heap.free_lists p)
kfree-kalloc_example =
    kfree-kalloc 1 0 16384 small_heap after_one (omega arith) one_page small_heap-Good kalloc-one
