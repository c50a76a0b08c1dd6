-- ===== src/Mem/Buddy/Client.antt =====
-- What a caller of the allocator can rely on.
use mathlib.Core.Path.{subst₂}
use jeos.Prelude.{ℕ, ◌+◌, ◌≤◌, ◌<◌, ◌≡◌, sym, ap, ◌∙◌, inl, inr, Option, none, some, arith}
use jeos.Mem.Buddy.{Heap, Run, hang, done, kalloc, kfree}
use jeos.Mem.Buddy.Order.{RequestOrder}
use jeos.Mem.Buddy.Block.{covers}
use jeos.Mem.Buddy.Count.{Good, free_count}
use jeos.Mem.Buddy.Free.{kfree-Freed}
use jeos.Mem.Buddy.Alloc.{Allocated, kalloc-Allocated}

-- No address lies in two free blocks.
abbrev pub Disjoint : Heap → Type 0
Disjoint h = (p : ℕ) → free_count h.free_lists p ≤ 1

-- The parts of a run's result.
result_of : Heap → Run (Option ℕ × Heap) → Option ℕ × Heap
result_of h hang = (none, h)
result_of h (done r) = r

address_of : Option ℕ → ℕ
address_of none = 0
address_of (some a) = a

-- A call that returned a block took it from the free memory.
kalloc-some :
    (n o a : ℕ) (h h' : Heap)
    → 0 < n
    → RequestOrder n o
    → Good h.free_lists
    → kalloc n h ≡ done (some a, h')
    → Allocated n o h a h'
unfolding result_of address_of
kalloc-some n o a h h' pos req good e = elim (kalloc-Allocated n o h pos req good) [
  | inl (null, _) ↦ let clash : none ≡ some a = ap (λ r. (result_of h r).0) (sym null ∙ e) in cc
  | inr (b, g, got, all) ↦
      let same : done (some b, g) ≡ done (some a, h') = sym got ∙ e in
      subst₂ (Allocated n o h) (ap (λ r. address_of (result_of h r).0) same)
        (ap (λ r. (result_of h r).1) same) all
]

-- If the free blocks are valid and disjoint and two calls of `kalloc` in a row, for numbers of pages
-- that some order holds, both return a block, no address lies in both blocks, and the free blocks are
-- still disjoint.
pub kalloc_exclusive :
    (n o m q a b : ℕ) (h h' h'' : Heap)
    → 0 < n
    → 0 < m
    → RequestOrder n o
    → RequestOrder m q
    → Good h.free_lists
    → Disjoint h
    → kalloc n h ≡ done (some a, h')
    → kalloc m h' ≡ done (some b, h'')
    → (p : ℕ) → (covers o a p + covers q b p ≤ 1) × (free_count h''.free_lists p ≤ 1)
kalloc_exclusive n o m q a b h h' h'' n_pos m_pos n_req m_req good apart first second p =
    let one = kalloc-some n o a h h' n_pos n_req good first in
    let two = kalloc-some m q b h' h'' m_pos m_req one.good second in
    omega (arith, apart p, one.count p, two.count p)

-- A `kfree` of a block that `kalloc` has just returned, with the same number of pages and valid free
-- lists before, returns, and makes each address free as often as before the allocation, in aligned, valid blocks.
pub kfree-kalloc :
    (n o a : ℕ) (h h' : Heap)
    → 0 < n
    → RequestOrder n o
    → Good h.free_lists
    → kalloc n h ≡ done (some a, h')
    → (h'' : Heap) × (kfree a n h' ≡ done h'')
      × Good h''.free_lists
      × ((p : ℕ) → free_count h''.free_lists p ≡ free_count h.free_lists p)
kfree-kalloc n o a h h' pos req good first =
    let one = kalloc-some n o a h h' pos req good first in
    let (h'', e, freed) = kfree-Freed a n o h' pos req one.block one.good in
    (h'', e, freed.good, λ p. omega (arith, freed.count p, one.count p))
