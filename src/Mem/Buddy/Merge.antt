-- ===== src/Mem/Buddy/Merge.antt =====
-- The merging walk of `kfree` and `freerange`: the freed block joins the free memory whole.
use jeos.Prelude.{
  ℕ, zero, suc, ◌+◌, ◌-◌, ◌<◌, ◌≡◌, refl, inl, inr, ◌∷◌, ltb, if◌then◌else◌, Option-cases, arith,
}
use jeos.Mem.Buddy.{FreeLists, update, max_order, remove, buddy_of, merge, insert}
use jeos.Mem.Buddy.Block.{Block, covers, Pair, buddy-Pair}
use jeos.Mem.Buddy.Count.{Good, free_count, free_count-update, update-Good, remove-Removed}

-- What the walk from a block makes of the free lists.
record Merged (a o : ℕ) (f : FreeLists) (a' o' : ℕ) (f' : FreeLists) : Type 0 where
  pub block : Block o' a'
  pub order : o' < max_order
  pub good : Good f'
  pub count : (p : ℕ) → free_count f' p + covers o' a' p ≡ free_count f p + covers o a p

merge-Merged :
    (r a o : ℕ) (f : FreeLists)
    → o + r < max_order
    → Block o a
    → Good f
    → let (a', o', f') = merge r a o f in Merged a o f a' o' f'
unfolding merge
merge-Merged zero a o f h blk good = record {
  block = blk;
  order = omega arith;
  good = good;
  count = λ p. refl;
}
merge-Merged (suc r) a o f h blk good = elim (Option-cases (remove (buddy_of a o) (f o))) [
  | inl alone ↦
      rw (alone, merge)
        (record { block = blk; order = omega arith; good = good; count = λ p. refl })
  | inr (l, found) ↦
      let b = buddy_of a o in
      let low = if ltb b a then b else a in
      let pair : Pair o a b low = buddy-Pair o a (omega arith) blk in
      let gone = remove-Removed o b (f o) l (good o) found in
      let f' : FreeLists = update f o l in
      let m =
        merge-Merged r low (o + 1) f' (omega arith) pair.joined
          (update-Good f o l good gone.blocks) in
      rw (found, merge)
        (record {
          block = m.block;
          order = m.order;
          good = m.good;
          count = λ p. omega (
            arith,
            m.count p,
            pair.parts p,
            gone.count p,
            free_count-update f o l p (omega arith),
          );
        })
]

-- The walk and the push: the block is free, and all other memory as free as before.
pub record Inserted (a o : ℕ) (f f' : FreeLists) : Type 0 where
  pub good : Good f'
  pub count : (p : ℕ) → free_count f' p ≡ free_count f p + covers o a p

pub insert-Inserted :
    (a o : ℕ) (f : FreeLists) → o < max_order → Block o a → Good f → Inserted a o f (insert a o f)
unfolding insert
insert-Inserted a o f h blk good =
    let (a', o', f') = merge (max_order - 1 - o) a o f in
    let m = merge-Merged (max_order - 1 - o) a o f (omega arith) blk good in
    record {
      good = update-Good f' o' (a' ∷ f' o') m.good (m.block, m.good o');
      count = λ p. omega (arith, m.count p, free_count-update f' o' (a' ∷ f' o') p m.order);
    }
