-- ===== src/Mem/Buddy/Range.antt =====
-- `freerange`: a region of memory becomes free, page for page.
use jeos.Prelude.{
  ℕ, zero, suc, ◌+◌, ◌-◌, ◌*◌, ◌/◌, ◌%◌, ◌^◌, ◌≤◌, ◌<◌, ◌≡◌, refl, ap, ◌∙◌, subst, true, false, ltb,
  leb, ◌&&◌, if◌then◌else◌, dec_lt, arith,
}
use jeos.Mem.Buddy.{
  FreeLists, Run, done, max_order, page_size, bytes, insert, aligned_order, shrink, range_loop,
  page_down, freerange,
}
use jeos.Mem.Buddy.Order.{power_mono}
use jeos.Mem.Buddy.Block.{Block, blocks-bytes, bytes_suc, bytes_pos}
use jeos.Mem.Buddy.Count.{Good, free_count}
use jeos.Mem.Buddy.Merge.{Inserted, insert-Inserted}
use jeos.Mem.Buddy.Align.{Multiple, Multiple-le, Multiple-add, Multiple-aligned_order}

-- Where the shrinking stops: the block fits into the region, if a page does.
shrink-fits :
    (o p e : ℕ)
    → p + page_size ≤ e
    → e + bytes o ≤ 2 ^ 64
    → (shrink o p e ≤ o) × (p + bytes (shrink o p e) ≤ e)
unfolding shrink
shrink-fits zero p e h top = (omega arith, page_fits)
  where
    page_fits : p + bytes 0 ≤ e
    page_fits = unfold bytes in h
shrink-fits (suc o) p e h top = ground (arith, shrink-fits o p e h, one_up, bytes_suc o)
  where
    one_up : bytes (suc o) ≡ bytes (o + 1)
    one_up = ap bytes (omega arith)

Block-of :
    (o a : ℕ)
    → o ≤ 52
    → a % page_size ≡ 0
    → Multiple o (a / page_size)
    → a + bytes o ≤ 2 ^ 64
    → Block o a
Block-of o a h whole m fits = record {
  index = m.factor;
  at = at;
  low = grind (arith, at, blocks-bytes o h, bytes_pos o);
}
  where
    pages : a ≡ a / page_size * page_size
    pages = omega arith

    at : a ≡ m.factor * bytes o
    at = pages ∙ ap (λ x. x * page_size) m.is ∙ (unfold bytes in omega arith)

-- Whether an address lies between two others.
abbrev pub between : (lo hi p : ℕ) → ℕ
between lo hi p = if leb lo p && ltb p hi then 1 else 0

-- The direct map starts at a boundary of the largest blocks, not at zero.
pub record IsMap (hhdm phys_end : ℕ) : Type 0 where
  pub factor : ℕ
  pub at : hhdm ≡ factor * bytes 11
  pub high : 0 < factor
  pub fits : phys_end + hhdm ≤ 2 ^ 64

-- What the loop has done when it stops.
pub record Ranged (lo hi : ℕ) (f : FreeLists) (run : Run FreeLists) : Type 0 where
  pub lists : FreeLists
  pub is : run ≡ done lists
  pub good : Good lists
  pub count : (p : ℕ) → free_count lists p ≡ free_count f p + between lo hi p

bytes-page : (o : ℕ) → bytes o % page_size ≡ 0
unfolding bytes
bytes-page o = omega arith

top_bytes : (o : ℕ) → o < max_order → bytes o ≤ 2 ^ 23
unfolding bytes
top_bytes o h = omega (arith, power_mono o 11 (omega arith))

between-split : (a b c p : ℕ) → a ≤ b → b ≤ c → between a c p ≡ between a b p + between b c p
between-split a b c p h k = ground arith

grow :
    (a b c x n n' n'' : ℕ)
    → a ≤ b
    → b ≤ c
    → n' ≡ n + between a b x
    → n'' ≡ n' + between b c x
    → n'' ≡ n + between a c x
grow a b c x n n' n'' h k first second = omega (arith, first, second, between-split a b c x h k)

module _ (e hhdm : ℕ) (m : IsMap hhdm e) where
  below_map : e + 2 ^ 23 ≤ 2 ^ 64
  below_map = grind (arith, m.at, m.high, m.fits, eleven)
    where
      eleven : bytes 11 ≡ 2 ^ 23
      eleven = unfold bytes in refl

  Multiple-map : Multiple 11 (hhdm / page_size)
  Multiple-map = record { factor = m.factor; is = unfold bytes in omega (arith, m.at) }

  hhdm-page : hhdm % page_size ≡ 0
  hhdm-page = unfold bytes in omega (arith, m.at)

  map-Block :
      (o p : ℕ)
      → o < max_order
      → p % page_size ≡ 0
      → Multiple o (p / page_size)
      → p + bytes o ≤ e
      → Block o (p + hhdm)
  map-Block o p h whole mult fits =
      let pages : (p + hhdm) / page_size ≡ p / page_size + hhdm / page_size =
        omega (arith, hhdm-page) in
      let both =
        Multiple-add o (p / page_size) (hhdm / page_size) mult
          (Multiple-le o 11 (hhdm / page_size) (omega arith) Multiple-map) in
      Block-of o (p + hhdm) (omega arith) (omega (arith, hhdm-page)) (rw pages both)
        (omega (arith, m.fits))

  -- One round that finds a page: the block that it frees.
  module _ (p : ℕ) (whole : p % page_size ≡ 0) (room : p + page_size ≤ e) where
    order : ℕ
    order = shrink (aligned_order (p / page_size)) p e

    order-fits : (order < max_order) × (p + bytes order ≤ e) × Multiple order (p / page_size)
    unfolding order
    order-fits =
        let (mult, top) = Multiple-aligned_order (p / page_size) in
        let o = aligned_order (p / page_size) in
        let (le, fits) = shrink-fits o p e room (omega (arith, below_map, top_bytes o top)) in
        (omega arith, fits, Multiple-le order o (p / page_size) le mult)

    round-Inserted :
        (f : FreeLists) → Good f → Inserted (p + hhdm) order f (insert (p + hhdm) order f)
    round-Inserted f good =
        let (top, fits, mult) = order-fits in
        insert-Inserted (p + hhdm) order f top (map-Block order p top whole mult fits) good

  range_loop-Ranged :
      (k p : ℕ) (f : FreeLists)
      → p % page_size ≡ 0
      → p < e + page_size
      → e / page_size + 1 < p / page_size + k
      → Good f
      → Ranged (p + hhdm) (page_down e + hhdm) f (range_loop k p e hhdm f)
  unfolding range_loop order
  range_loop-Ranged zero p f whole low fuel good = absurd (omega arith)
  range_loop-Ranged (suc k) p f whole low fuel good = elim (dec_lt e (p + page_size)) [
    | no fits ↦
        let room : p + page_size ≤ e = omega arith in
        let o = order p whole room in
        let (top, inside, mult) = order-fits p whole room in
        let i = round-Inserted p whole room f good in
        let more : leb ((p + page_size) % 2 ^ 64) e ≡ true = ground (arith, below_map) in
        let next : (p + bytes o) % 2 ^ 64 ≡ p + bytes o = omega (arith, below_map) in
        let addr : (p + hhdm) % 2 ^ 64 ≡ p + hhdm = omega (arith, m.fits) in
        let shift : p + hhdm + bytes o ≡ p + bytes o + hhdm = omega arith in
        let rest =
          range_loop-Ranged k (p + bytes o) (insert (p + hhdm) o f) (omega (arith, bytes-page o))
            (omega arith) (omega (arith, bytes-page o, bytes_pos o)) i.good in
        rw (more, next, addr)
          (record {
            lists = rest.lists;
            is = rest.is;
            good = rest.good;
            count = λ x.
                grow (p + hhdm) (p + bytes o + hhdm) (page_down e + hhdm) x _ _ _ (omega arith)
                  (omega (arith, inside, whole, bytes-page o))
                  (subst
                    (λ t.
                      free_count (insert (p + hhdm) o f) x
                      ≡ free_count f x + between (p + hhdm) t x)
                    shift (i.count x))
                  (rest.count x);
          })
    | yes done_all ↦
        let over : leb ((p + page_size) % 2 ^ 64) e ≡ false = ground (arith, below_map) in
        rw over (record { lists = f; is = refl; good = good; count = λ x. ground arith })
  ]

-- `freerange` over a region ends, when the direct map starts at a positive multiple of the largest
-- block's size and the region's image in it lies below 2^64. If the free lists held valid, aligned
-- blocks before, they do so after it, and the addresses that are free once more than before are
-- exactly those of the region's whole pages in the direct map.
pub freerange-Ranged :
    (phys_start phys_end hhdm : ℕ) (f : FreeLists)
    → IsMap hhdm phys_end
    → phys_start ≤ phys_end
    → Good f
    → Ranged
        (page_down (phys_start + page_size - 1) + hhdm)
        (page_down phys_end + hhdm)
        f
        (freerange phys_start phys_end hhdm f)
unfolding freerange
freerange-Ranged phys_start phys_end hhdm f m le good =
    let up : (phys_start + page_size - 1) % 2 ^ 64 ≡ phys_start + page_size - 1 =
      omega (arith, below_map phys_end hhdm m) in
    rw up (
      range_loop-Ranged phys_end hhdm m (phys_end / page_size + 2)
        (page_down (phys_start + page_size - 1)) f (omega arith) (omega arith) (omega arith) good)
