-- ===== src/Mem/Buddy/Take.antt =====
-- The block that `kalloc` takes from the free lists, and the halves that it gives back.
use jeos.Prelude.{
  ℕ, zero, suc, ◌+◌, ◌-◌, ◌%◌, ◌^◌, ◌≤◌, ◌<◌, ◌≡◌, ◌≢◌, refl, ap, subst, ◌⊎◌, inl, inr, false, none,
  some, List, [], ◌∷◌, ◌==◌, List-cases, dec_lt, arith,
}
use jeos.Mem.Buddy.{FreeLists, update, max_order, bytes, first_free, split, take_block}
use jeos.Mem.Buddy.Block.{Block, covers, Block-end, adjacent, halves, bytes_pos}
use jeos.Mem.Buddy.Count.{AllBlocks, Good, covered_by, free_count, free_count-update, update-Good}

-- Where the search for a free list stops.
record Found (k top : ℕ) (f : FreeLists) (k' : ℕ) : Type 0 where
  pub from : k ≤ k'
  pub upto : k' ≤ top
  pub empty : (j : ℕ) → k ≤ j → j < k' → f j ≡ []
  pub nonempty : k' < top → f k' ≢ []

first_free-Found : (r k : ℕ) (f : FreeLists) → Found k (k + r) f (first_free r k f)
unfolding first_free
first_free-Found zero k f = record {
  from = omega arith;
  upto = omega arith;
  empty = λ j a b. absurd (omega arith);
  nonempty = λ h. absurd (omega arith);
}
first_free-Found (suc r) k f = elim (List-cases (f k)) [
  | inl nothing ↦
      let rest = first_free-Found r (k + 1) f in
      rw (nothing, first_free)
        (record {
          from = omega (arith, rest.from);
          upto = omega (arith, rest.upto);
          empty = λ j a b. elim (dec_lt k j) [
            | yes up ↦ rest.empty j (omega arith) b
            | no here ↦ let e : j ≡ k = omega arith in rw e nothing
          ];
          nonempty = λ h. rest.nonempty (omega arith);
        })
  | inr (x, l, e) ↦
      rw (e, first_free)
        (record {
          from = omega arith;
          upto = omega arith;
          empty = λ j a b. absurd (omega arith);
          nonempty = λ h e'. cc;
        })
]

-- What splitting a block down by `r` orders does.
record Splitted (k r a : ℕ) (f f' : FreeLists) : Type 0 where
  pub good : Good f'
  pub block : Block (k - r) a
  pub count : (p : ℕ) → free_count f' p + covers (k - r) a p ≡ free_count f p + covers k a p

split-Splitted :
    (r k a : ℕ) (f : FreeLists)
    → r ≤ k
    → k < max_order
    → Block k a
    → Good f
    → Splitted k r a f (split r k a f)
unfolding split
split-Splitted zero k a f h top blk good = record {
  good = good;
  block = let e : k - 0 ≡ k = omega arith in rw e blk;
  count = λ p. let e : k - 0 ≡ k = omega arith in rw e refl;
}
split-Splitted (suc r) k a f h top blk good =
    let j = k - 1 in
    let up : k ≡ j + 1 = omega arith in
    let (lower, upper) = halves j a (omega arith) (rw up at blk) in
    let no_wrap : (a + bytes j) % 2 ^ 64 ≡ a + bytes j =
      omega (arith, Block-end j (a + bytes j) (omega arith) upper, bytes_pos j) in
    let l = (a + bytes j) ∷ f j in
    let f' : FreeLists = update f j l in
    let s =
      split-Splitted r j a f' (omega arith) (omega arith) lower
        (update-Good f j l good (upper, good j)) in
    let depth : k - suc r ≡ j - r = omega arith in
    rw no_wrap (record {
      good = s.good;
      block = rw depth s.block;
      count = λ p. rw depth (
          omega (
            arith,
            s.count p,
            free_count-update f j l p (omega arith),
            ap (λ m. covers m a p) up,
            adjacent j a (a + bytes j) p refl,
          ));
    })

-- A block taken from the free lists for a request of order `o`.
pub record Taken (o : ℕ) (f : FreeLists) (a : ℕ) (f' : FreeLists) : Type 0 where
  pub good : Good f'
  pub block : Block o a
  pub count : (p : ℕ) → free_count f' p + covers o a p ≡ free_count f p

-- The free lists from an order on are empty.
abbrev pub NoneFrom : ℕ → FreeLists → Type 0
NoneFrom o f = (j : ℕ) → o ≤ j → j < max_order → f j ≡ []

pop-Taken :
    (o k a : ℕ) (rest : List ℕ) (f : FreeLists)
    → o ≤ k
    → k < max_order
    → Good f
    → f k ≡ a ∷ rest
    → Taken o f a (split (k - o) k a (update f k rest))
pop-Taken o k a rest f low top good e =
    let blocks : AllBlocks k (a ∷ rest) = subst (AllBlocks k) e (good k) in
    let f' : FreeLists = update f k rest in
    let s =
      split-Splitted (k - o) k a f' (omega arith) top blocks.0
        (update-Good f k rest good blocks.1) in
    let depth : k - (k - o) ≡ o = omega arith in
    record {
      good = s.good;
      block = rw depth at s.block;
      count = λ p. omega (
        arith,
        s.count p,
        ap (λ m. covers m a p) depth,
        free_count-update f k rest p top,
        ap (λ l. covered_by k l p) e,
      );
    }

take_block-some :
    (o a : ℕ) (rest : List ℕ) (f : FreeLists)
    → let k = first_free (max_order - o) o f in
      k < max_order
      → f k ≡ a ∷ rest
      → take_block o f ≡ some (a, split (k - o) k a (update f k rest))
unfolding take_block
take_block-some o a rest f short e =
    let test : (first_free (max_order - o) o f == max_order) ≡ false = ground arith in
    rw (test, e, take_block)

take_block-none :
    (o : ℕ) (f : FreeLists) → first_free (max_order - o) o f ≡ max_order → take_block o f ≡ none
unfolding take_block
take_block-none o f e = rw e

pub take_block-Taken :
    (o : ℕ) (f : FreeLists)
    → o < max_order
    → Good f
    → (take_block o f ≡ none) × NoneFrom o f
      ⊎ ((a : ℕ) × (f' : FreeLists) × (take_block o f ≡ some (a, f')) × Taken o f a f')
take_block-Taken o f h good =
    let k = first_free (max_order - o) o f in
    let found = first_free-Found (max_order - o) o f in
    elim (dec_lt k max_order) [
      | yes short ↦ elim (List-cases (f k)) [
        | inl nothing ↦ absurd (found.nonempty (omega arith) nothing)
        | inr (a, rest, e) ↦ inr (
          a,
          split (k - o) k a (update f k rest),
          take_block-some o a rest f short e,
          pop-Taken o k a rest f found.from short good e,
        )
      ]
      | no over ↦ inl (
        take_block-none o f (omega (arith, found.upto)),
        λ j a b. found.empty j a (omega (arith, found.upto)),
      )
    ]
