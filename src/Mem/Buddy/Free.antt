-- ===== src/Mem/Buddy/Free.antt =====
-- `kfree` of kernel/mem.c: the block joins the free memory.
use jeos.Prelude.{ℕ, ◌+◌, ◌*◌, ◌%◌, ◌^◌, ◌<◌, ◌≡◌, ◌∙◌, true, false, ◌==◌, arith}
use jeos.Mem.Buddy.{Heap, done, page_size, bytes, memset, insert, insert_links, kfree}
use jeos.Mem.Buddy.Links.{IsApart, insert_links-same}
use jeos.Mem.Buddy.Order.{RequestOrder, order_for-done}
use jeos.Mem.Buddy.Block.{Block, covers, Block-aligned}
use jeos.Mem.Buddy.Count.{Good, free_count}
use jeos.Mem.Buddy.Merge.{Inserted, insert-Inserted}

memset_inside :
    (o v c : ℕ) (mem : ℕ → ℕ) (p : ℕ) → covers o v p ≡ 1 → memset v c (bytes o) mem p ≡ c % 256
unfolding memset
memset_inside o v c mem p h = ground arith

memset_outside :
    (o v c : ℕ) (mem : ℕ → ℕ) (p : ℕ) → covers o v p ≡ 0 → memset v c (bytes o) mem p ≡ mem p
unfolding memset
memset_outside o v c mem p h = ground arith

-- `block_pages * PAGE_SIZE`.
block_pages : (o : ℕ) → 2 ^ o * page_size ≡ bytes o
unfolding bytes
block_pages o = omega arith

-- What `kfree` of a block does.
pub record Freed (v o : ℕ) (h h' : Heap) : Type 0 where
  pub good : Good h'.free_lists
  pub count : (p : ℕ) → free_count h'.free_lists p ≡ free_count h.free_lists p + covers o v p
  pub inside : (p : ℕ) → covers o v p ≡ 1 → IsApart h'.free_lists p → h'.mem p ≡ 1
  pub outside : (p : ℕ) → covers o v p ≡ 0 → IsApart h'.free_lists p → h'.mem p ≡ h.mem p

pub kfree-Freed :
    (v n o : ℕ) (h : Heap)
    → 0 < n
    → RequestOrder n o
    → Block o v
    → Good h.free_lists
    → (h' : Heap) × (kfree v n h ≡ done h') × Freed v o h h'
unfolding kfree
kfree-Freed v n o h pos req blk good = (
  h',
  rw (aligned, nonzero, order_for-done n o req) (ground (arith, req.top)),
  record {
    good = i.good;
    count = i.count;
    inside = λ p c apart. links p apart ∙ rw (block_pages o) (memset_inside o v 1 h.mem p c);
    outside = λ p c apart. links p apart ∙ rw (block_pages o) (memset_outside o v 1 h.mem p c);
  },
)
  where
    aligned : (v % page_size == 0) ≡ true
    aligned = ground (arith, Block-aligned o v blk)

    nonzero : (n == 0) ≡ false
    nonzero = ground arith

    h' : Heap
    h' = record {
      free_lists = insert v o h.free_lists;
      mem = insert_links v o h.free_lists (memset v 1 (2 ^ o * page_size) h.mem);
    }

    links :
        (p : ℕ)
        → IsApart (insert v o h.free_lists) p
        → insert_links v o h.free_lists (memset v 1 (2 ^ o * page_size) h.mem) p
          ≡ memset v 1 (2 ^ o * page_size) h.mem p
    links p apart =
        insert_links-same v o p h.free_lists (memset v 1 (2 ^ o * page_size) h.mem) apart

    i : Inserted v o h.free_lists (insert v o h.free_lists)
    i = insert-Inserted v o h.free_lists req.top blk good
