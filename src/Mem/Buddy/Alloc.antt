-- ===== src/Mem/Buddy/Alloc.antt =====
-- `kalloc` of kernel/mem.c: what each of its outcomes does to the free memory.
use jeos.Prelude.{
  ℕ, ◌+◌, ◌*◌, ◌^◌, ◌≤◌, ◌<◌, ◌≡◌, ◌∙◌, ◌⊎◌, inl, inr, refl, true, false, none, some, leb, ◌==◌,
  arith,
}
use jeos.Mem.Buddy.{
  FreeLists, Heap, done, max_order, page_size, bytes, memset, take_block, take_links, kalloc,
}
use jeos.Mem.Buddy.Links.{IsApart, take_links-same}
use jeos.Mem.Buddy.Order.{RequestOrder, order_for-done, order_for-Fits, power_mono}
use jeos.Mem.Buddy.Block.{Block, covers}
use jeos.Mem.Buddy.Count.{Good, free_count}
use jeos.Mem.Buddy.Take.{Taken, NoneFrom, take_block-Taken}

-- What `kalloc` does when it finds a block.
pub record Allocated (n o : ℕ) (h : Heap) (a : ℕ) (h' : Heap) : Type 0 where
  pub good : Good h'.free_lists
  pub block : Block o a
  pub count : (p : ℕ) → free_count h'.free_lists p + covers o a p ≡ free_count h.free_lists p
  pub inside : (p : ℕ) → a ≤ p → p < a + n * page_size → h'.mem p ≡ 5
  pub outside : (p : ℕ) → covers o a p ≡ 0 → IsApart h'.free_lists p → h'.mem p ≡ h.mem p

memset_pages : (n o a : ℕ) → n ≤ 2 ^ o → a + n * page_size ≤ a + bytes o
unfolding bytes
memset_pages n o a h = omega arith

memset_other :
    (n o a : ℕ) (mem : ℕ → ℕ) (p : ℕ)
    → n ≤ 2 ^ o
    → covers o a p ≡ 0
    → memset a 5 (n * page_size) mem p ≡ mem p
unfolding memset
memset_other n o a mem p holds out = ground (arith, memset_pages n o a holds)

allocated :
    (n o : ℕ) (h : Heap) (a : ℕ) (f' : FreeLists)
    → RequestOrder n o
    → take_block o h.free_lists ≡ some (a, f')
    → Taken o h.free_lists a f'
    → Allocated n o h a (record {
      free_lists = f';
      mem = memset a 5 (n * page_size) (take_links o h.free_lists h.mem);
    })
unfolding memset
allocated n o h a f' req run t = record {
  good = t.good;
  block = t.block;
  count = t.count;
  inside = λ p from upto. ground arith;
  outside = λ p out apart.
      memset_other n o a (take_links o h.free_lists h.mem) p req.holds out
      ∙ take_links-same o a p h.free_lists f' h.mem run apart;
}

kalloc_request :
    (n o : ℕ) (h : Heap)
    → 0 < n
    → RequestOrder n o
    → kalloc n h ≡ elim (take_block o h.free_lists) [
      | none ↦ done (none, h)
      | some (block, f) ↦ done (
        some block,
        record {
          free_lists = f;
          mem = memset block 5 (n * page_size) (take_links o h.free_lists h.mem);
        },
      )
    ]
unfolding kalloc
kalloc_request n o h pos req =
    let nonzero : (n == 0) ≡ false = ground arith in
    let fits : leb max_order o ≡ false = ground (arith, req.top) in
    rw (nonzero, order_for-done n o req, kalloc, fits)

-- `kalloc` of `n` pages, for an `n` that some order below MAX_ORDER holds, returns when the free
-- lists hold valid blocks. Either it returns null, changes nothing, and no block is free that would
-- hold the request; or it returns an aligned block, whose addresses are free once less than
-- before and all others as often, the `n` pages filled with the allocation pattern, and no byte
-- outside the block changed but for the pointers in the first eight bytes of free blocks.
pub kalloc-Allocated :
    (n o : ℕ) (h : Heap)
    → 0 < n
    → RequestOrder n o
    → Good h.free_lists
    → (kalloc n h ≡ done (none, h)) × NoneFrom o h.free_lists
      ⊎ ((a : ℕ) × (h' : Heap) × (kalloc n h ≡ done (some a, h')) × Allocated n o h a h')
kalloc-Allocated n o h pos req good = elim (take_block-Taken o h.free_lists req.top good) [
  | inl (e, empty) ↦ inl (kalloc_request n o h pos req ∙ (rw e), empty)
  | inr (a, f', e, t) ↦ inr (
    a,
    record { free_lists = f'; mem = memset a 5 (n * page_size) (take_links o h.free_lists h.mem) },
    kalloc_request n o h pos req ∙ (rw e),
    allocated n o h a f' req e t,
  )
]

-- `kalloc` of no page, or of more pages than the largest block holds, returns null and changes
-- nothing, for every number of pages up to 2^63.
pub kalloc-none :
    (n : ℕ) (h : Heap) → n ≤ 2 ^ 63 → (n ≡ 0) ⊎ (2 ^ 11 < n) → kalloc n h ≡ done (none, h)
unfolding kalloc
kalloc-none n h small (inl e) = rw e refl
kalloc-none n h small (inr big) =
    let fits = order_for-Fits n small in
    let nonzero : (n == 0) ≡ false = ground arith in
    let over : leb max_order fits.order ≡ true =
      ground (arith, fits.holds, λ (le : fits.order ≤ 11). power_mono fits.order 11 le) in
    rw (nonzero, fits.is, kalloc, over) refl
