-- ===== src/Mem/Buddy/Count.antt =====
-- How many free blocks cover an address: the view in which allocation and release are exact.
use jeos.Prelude.{
  Option-cases, ℕ, zero, suc, ◌+◌, ◌≤◌, ◌<◌, ◌≡◌, refl, inl, inr, some, List, [], ◌∷◌, ◌==◌,
  Bool-cases, dec_lt, arith,
}
use jeos.Mem.Buddy.{FreeLists, update, max_order, remove}
use jeos.Mem.Buddy.Block.{Block, covers}

-- Every block of a list is a block of the order.
abbrev pub AllBlocks : ℕ → List ℕ → Type 0
AllBlocks k [] = Unit
AllBlocks k (a ∷ l) = Block k a × AllBlocks k l

abbrev pub Good : FreeLists → Type 0
Good f = (k : ℕ) → AllBlocks k (f k)

abbrev pub covered_by : ℕ → List ℕ → ℕ → ℕ
covered_by k [] p = 0
covered_by k (a ∷ l) p = covers k a p + covered_by k l p

-- The blocks of the first `n` orders that cover `p`.
unfoldable pub covered_below : ℕ → FreeLists → ℕ → ℕ
covered_below zero f p = 0
covered_below (suc n) f p = covered_below n f p + covered_by n (f n) p

-- The free blocks that cover `p`.
unfoldable pub free_count : FreeLists → ℕ → ℕ
free_count f p = covered_below max_order f p

covered_below-update_of_le :
    (n : ℕ) (f : FreeLists) (k : ℕ) (l : List ℕ) (p : ℕ)
    → n ≤ k
    → covered_below n (update f k l) p ≡ covered_below n f p
unfolding covered_below
covered_below-update_of_le zero f k l p h = refl
covered_below-update_of_le (suc n) f k l p h = ground (arith, covered_below-update_of_le n f k l p)

covered_below-update :
    (n : ℕ) (f : FreeLists) (k : ℕ) (l : List ℕ) (p : ℕ)
    → k < n
    → covered_below n (update f k l) p + covered_by k (f k) p
      ≡ covered_below n f p + covered_by k l p
unfolding covered_below
covered_below-update zero f k l p h = absurd (omega arith)
covered_below-update (suc n) f k l p h = elim (dec_lt k n) [
  | yes below ↦ ground (arith, covered_below-update n f k l p)
  | no last ↦ ground (arith, covered_below-update_of_le n f k l p)
]

-- A list put in the place of another changes the count by their difference.
pub free_count-update :
    (f : FreeLists) (k : ℕ) (l : List ℕ) (p : ℕ)
    → k < max_order
    → free_count (update f k l) p + covered_by k (f k) p ≡ free_count f p + covered_by k l p
unfolding free_count
free_count-update f k l p h = covered_below-update max_order f k l p h

pub update-Good :
    (f : FreeLists) (k : ℕ) (l : List ℕ) → Good f → AllBlocks k l → Good (update f k l)
update-Good f k l good ok j = elim (Bool-cases (k == j)) [
  | inl same ↦ let e : k ≡ j = ground arith in rw (same, ← e) ok
  | inr other ↦ rw other (good j)
]

-- A block taken out of a list: what the list covers, and what is left of it.
pub record Removed (k a : ℕ) (l r : List ℕ) : Type 0 where
  pub count : (p : ℕ) → covered_by k l p ≡ covers k a p + covered_by k r p
  pub blocks : AllBlocks k r

Removed-head : (k x : ℕ) (l : List ℕ) → AllBlocks k (x ∷ l) → Removed k x (x ∷ l) l
Removed-head k x l ok = record { count = λ p. refl; blocks = ok.1 }

Removed-tail :
    (k a x : ℕ) (l r : List ℕ) → AllBlocks k (x ∷ l) → Removed k a l r → Removed k a (x ∷ l) (x ∷ r)
Removed-tail k a x l r ok rest = record {
  count = λ p. omega (arith, rest.count p);
  blocks = (ok.0, rest.blocks);
}

pub remove-Removed :
    (k a : ℕ) (l r : List ℕ) → AllBlocks k l → remove a l ≡ some r → Removed k a l r
unfolding remove
remove-Removed k a [] r ok e = absurd (ground arith)
remove-Removed k a (x ∷ l) r ok e = elim (Bool-cases (x == a)) [
  | inl found ↦
      let here : x ≡ a = ground arith in
      let rest : l ≡ r = ground arith in rw (← here, ← rest) (Removed-head k x l ok)
  | inr other ↦ elim (Option-cases (remove a l)) [
    | inl nothing ↦ absurd (ground arith)
    | inr (r', some_rest) ↦
        let rest : x ∷ r' ≡ r = ground arith in
        rw (← rest) (Removed-tail k a x l r' ok (remove-Removed k a l r' ok.1 some_rest))
  ]
]
