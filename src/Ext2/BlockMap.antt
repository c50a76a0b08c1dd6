-- ===== src/Ext2/BlockMap.antt =====
-- The theorem on `ext2_block_map`.
use Prim.Native.Nat.{◌*◌, ◌^◌}
use native.Mathlib.Nat.{mod-eq_of_lt}
use jeos.Prelude.{
  ℕ, zero, suc, ◌+◌, ◌-◌, ◌/◌, ◌%◌, ◌≤◌, ◌<◌, ◌≡◌, refl, ap, ◌∙◌, List, [], ◌∷◌, ◌++◌, length,
  get_or, get_or-append_left, get_or-append_right, take, length-take_of_le, arith,
}
use jeos.Ext2.{Priv, DiskInode, through, block_map}
use jeos.Ext2.Tree.{
  ptrs, leaves, file_blocks, length-leaves, pick, get_or-leaves, through-pick, descend_one,
  descend_two, descend_three, power_one, power_two,
}

get_or-take : (n : ℕ) (xs : List ℕ) (i : ℕ) → i < n → get_or (take n xs) i 0 ≡ get_or xs i 0
get_or-take zero xs i h = absurd (omega arith)
get_or-take (suc n) [] i h = refl
get_or-take (suc n) (x ∷ xs) zero h = refl
get_or-take (suc n) (x ∷ xs) (suc i) h = get_or-take n xs i (omega arith)

module _ (p : Priv) (ei : DiskInode) (pos : 0 < ptrs p) (direct : 12 ≤ length ei.block) where
  -- The three trees, one behind the other.
  trees : List ℕ
  trees =
      leaves p 1 (get_or ei.block 12 0)
      ++ (leaves p 2 (get_or ei.block 13 0) ++ leaves p 3 (get_or ei.block 14 0))

  twelve : length (take 12 ei.block) ≡ 12
  twelve = length-take_of_le 12 ei.block direct

  at_direct : (i : ℕ) → i < 12 → get_or (file_blocks p ei) i 0 ≡ get_or ei.block i 0
  unfolding file_blocks trees leaves
  at_direct i h =
      get_or-append_left (take 12 ei.block) trees i 0 (omega (arith, twelve))
      ∙ get_or-take 12 ei.block i h

  at_tree : (i : ℕ) → 12 ≤ i → get_or (file_blocks p ei) i 0 ≡ get_or trees (i - 12) 0
  unfolding file_blocks trees leaves
  at_tree i h =
      get_or-append_right (take 12 ei.block) trees i 0 (omega (arith, twelve))
      ∙ ap (λ k. get_or trees (i - k) 0) twelve

  at_single : (i : ℕ) → i < ptrs p → get_or trees i 0 ≡ pick p (get_or ei.block 12 0) i
  unfolding trees
  at_single i h =
      let b = get_or ei.block 12 0 in
      get_or-append_left (leaves p 1 b) _ i 0 (omega (arith, length-leaves p 1 b, power_one p))
      ∙ get_or-leaves p 1 b i pos (omega (arith, power_one p))
      ∙ descend_one p b i

  at_double :
      (i : ℕ)
      → ptrs p ≤ i
      → i - ptrs p < ptrs p * ptrs p
      → let m = i - ptrs p in
        get_or trees i 0 ≡ pick p (pick p (get_or ei.block 13 0) (m / ptrs p)) (m % ptrs p)
  unfolding trees
  at_double i low high =
      let a = leaves p 1 (get_or ei.block 12 0) in
      let b = get_or ei.block 13 0 in
      let m = i - ptrs p in
      let size : length a ≡ ptrs p = length-leaves p 1 _ ∙ power_one p in
      get_or-append_right a _ i 0 (omega (arith, size))
      ∙ ap (λ k. get_or (leaves p 2 b ++ leaves p 3 (get_or ei.block 14 0)) (i - k) 0) size
      ∙ get_or-append_left (leaves p 2 b) _ m 0 (omega (arith, length-leaves p 2 b, power_two p))
      ∙ get_or-leaves p 2 b m pos (omega (arith, power_two p))
      ∙ descend_two p b m

  at_triple :
      (i : ℕ)
      → ptrs p ≤ i
      → ptrs p * ptrs p ≤ i - ptrs p
      → i - ptrs p - ptrs p * ptrs p < ptrs p ^ 3
      → let n = i - ptrs p - ptrs p * ptrs p in
        get_or trees i 0
        ≡ pick p
            (pick p (pick p (get_or ei.block 14 0) (n / (ptrs p * ptrs p))) (n / ptrs p % ptrs p))
            (n % ptrs p)
  unfolding trees
  at_triple i low middle high =
      let a = leaves p 1 (get_or ei.block 12 0) in
      let b = leaves p 2 (get_or ei.block 13 0) in
      let c = get_or ei.block 14 0 in
      let m = i - ptrs p in
      let n = m - ptrs p * ptrs p in
      let size_a : length a ≡ ptrs p = length-leaves p 1 _ ∙ power_one p in
      let size_b : length b ≡ ptrs p * ptrs p = length-leaves p 2 _ ∙ power_two p in
      get_or-append_right a _ i 0 (omega (arith, size_a))
      ∙ ap (λ k. get_or (b ++ leaves p 3 c) (i - k) 0) size_a
      ∙ get_or-append_right b (leaves p 3 c) m 0 (omega (arith, size_b))
      ∙ ap (λ k. get_or (leaves p 3 c) (m - k) 0) size_b
      ∙ get_or-leaves p 3 c n pos high
      ∙ descend_three p c n pos

  -- Two and three levels.
  through_two :
      (b i j pages : ℕ)
      → 0 < pages
      → (let (l1, pages') = through p b i pages in through p l1 j pages')
        ≡ (pick p (pick p b i) j, pages)
  through_two b i j pages free =
      ap (λ r. through p r.0 j r.1) (through-pick p b i pages free)
      ∙ through-pick p (pick p b i) j pages free

  through_three :
      (b i j k pages : ℕ)
      → 0 < pages
      → (let (l1, pages') = through p b i pages in
          let (l2, pages'') = through p l1 j pages' in through p l2 k pages'')
        ≡ (pick p (pick p (pick p b i) j) k, pages)
  through_three b i j k pages free =
      ap (λ r. through p r.0 k r.1) (through_two b i j pages free)
      ∙ through-pick p (pick p (pick p b i) j) k pages free

  -- `ext2_block_map` is the list of the blocks of the file in order: block `lbn` of the file is what
  -- the inode and its three trees of pointer blocks hold at that place, for every `lbn` that they
  -- reach, when a page is free for the pointer blocks; and no page is lost.
  pub block_map-file_blocks :
      (lbn pages : ℕ)
      → ptrs p * ptrs p < 2 ^ 32
      → lbn < 12 + ptrs p + ptrs p ^ 2 + ptrs p ^ 3
      → 0 < pages
      → block_map p ei lbn pages ≡ (get_or (file_blocks p ei) lbn 0, pages)
  unfolding block_map
  block_map-file_blocks lbn pages small reach free =
      let sq = ptrs p * ptrs p in
      let l = lbn - 12 in
      let m = l - ptrs p in
      let n = m - sq in
      let fits : sq % 2 ^ 32 ≡ sq = mod-eq_of_lt small in
      let singly = through-pick p (get_or ei.block 12 0) l pages free in
      let doubly = through_two (get_or ei.block 13 0) (m / ptrs p) (m % ptrs p) pages free in
      let triply =
        through_three (get_or ei.block 14 0) (n / sq) (n / ptrs p % ptrs p) (n % ptrs p) pages
          free in
      rw (fits) (
        ground (
          arith,
          power_two p,
          at_direct lbn,
          at_tree lbn,
          at_single l,
          at_double l,
          at_triple l,
          singly,
          doubly,
          triply,
        ))
