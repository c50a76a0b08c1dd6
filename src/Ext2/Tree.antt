-- ===== src/Ext2/Tree.antt =====
-- `ext2_block_map` against the trees of pointer blocks that it walks.
use Prim.Native.Nat.{◌*◌, ◌^◌}
use native.Mathlib.Nat.{
  one-mul, pow-zero, pow-suc, pow-succ', mod-lt, div-add-mod', div-one, div-lt_iff_lt-mul, mul-pos,
}
use jeos.Prelude.{
  ℕ, zero, suc, ◌+◌, ◌-◌, ◌/◌, ◌%◌, ◌≤◌, ◌<◌, ◌≡◌, refl, sym, ap, ap₂, ◌∙◌, List, [], ◌∷◌, ◌++◌,
  length, length-append, length-replicate, get_or, get_or-append_left, get_or-append_right,
  get_or-replicate, take, replicate, ◌==◌, if◌then◌else◌, arith,
}
use jeos.Prelude.Division.{mod-div, mod-mod_mul}
use jeos.Ext2.{Priv, DiskInode, u32_at, fresh_page, read_block, through}

-- The lists of `f` at `n` numbers from `k` on, one behind the other.
unfoldable pub concat_from : (n k : ℕ) → (ℕ → List ℕ) → List ℕ
concat_from zero k f = []
concat_from (suc n) k f = f k ++ concat_from n (k + 1) f

length-concat_from :
    (n k len : ℕ) (f : ℕ → List ℕ)
    → ((i : ℕ) → length (f i) ≡ len)
    → length (concat_from n k f) ≡ n * len
unfolding concat_from
length-concat_from zero k len f sizes = omega arith
length-concat_from (suc n) k len f sizes = omega (
  arith,
  length-append (f k) (concat_from n (k + 1) f),
  sizes k,
  length-concat_from n (k + 1) len f sizes,
)

get_or-concat_from_at :
    (n k len q r : ℕ) (f : ℕ → List ℕ)
    → ((i : ℕ) → length (f i) ≡ len)
    → q < n
    → r < len
    → get_or (concat_from n k f) (q * len + r) 0 ≡ get_or (f (k + q)) r 0
unfolding concat_from
get_or-concat_from_at zero k len q r f sizes hq hr = absurd (omega arith)
get_or-concat_from_at (suc n) k len zero r f sizes hq hr =
    get_or-append_left (f k) (concat_from n (k + 1) f) (0 * len + r) 0 (omega (arith, sizes k))
    ∙ ap₂ (λ a b. get_or (f a) b 0) (omega arith) (omega arith)
get_or-concat_from_at (suc n) k len (suc q) r f sizes hq hr =
    let behind : length (f k) ≤ suc q * len + r = omega (arith, sizes k) in
    let left : suc q * len + r - length (f k) ≡ q * len + r = omega (arith, sizes k) in
    get_or-append_right (f k) (concat_from n (k + 1) f) (suc q * len + r) 0 behind
    ∙ ap (λ i. get_or (concat_from n (k + 1) f) i 0) left
    ∙ get_or-concat_from_at n (k + 1) len q r f sizes (omega arith) hr
    ∙ ap (λ a. get_or (f a) r 0) (omega arith)

module _ (p : Priv) where
  -- How many pointers a block holds.
  abbrev pub ptrs : ℕ
  ptrs = p.block_size / 4

  -- Entry `i` of the pointer block `blk`, as it is read into a new page.
  abbrev pub entry : (blk i : ℕ) → ℕ
  entry blk i = u32_at (read_block p blk fresh_page).1 (i * 4)

  -- The blocks under `blk`, a tree of pointer blocks `depth` high, in order; a missing tree stands for
  -- as many missing blocks.
  unfoldable pub leaves : (depth blk : ℕ) → List ℕ
  leaves zero blk = blk ∷ []
  leaves (suc d) blk =
      let below = concat_from ptrs 0 (λ i. leaves d (entry blk i)) in
      if blk == 0 then replicate (ptrs ^ suc d) 0 else below

  -- The blocks of a file in order: twelve of its own, and those of three trees.
  unfoldable pub file_blocks : DiskInode → List ℕ
  file_blocks ei =
      take 12 ei.block
      ++ (leaves 1 (get_or ei.block 12 0)
          ++ (leaves 2 (get_or ei.block 13 0) ++ leaves 3 (get_or ei.block 14 0)))

  pub length-leaves : (d blk : ℕ) → length (leaves d blk) ≡ ptrs ^ d
  unfolding leaves
  length-leaves zero blk = sym (pow-zero ptrs)
  length-leaves (suc d) blk = ground (
    arith,
    length-replicate {A = ℕ} (ptrs ^ suc d) 0,
    length-concat_from ptrs 0 (ptrs ^ d) (λ i. leaves d (entry blk i))
        (λ i. length-leaves d (entry blk i)),
    pow-succ' ptrs d,
  )

  -- The walk down one tree.
  pub pick : (blk i : ℕ) → ℕ
  pick blk i = if blk == 0 then 0 else entry blk i

  pub descend : (d blk i : ℕ) → ℕ
  descend zero blk i = blk
  descend (suc d) blk i = descend d (pick blk (i / ptrs ^ d)) (i % ptrs ^ d)

  descend-zero : (d i : ℕ) → descend d 0 i ≡ 0
  unfolding descend pick
  descend-zero zero i = refl
  descend-zero (suc d) i = descend-zero d (i % ptrs ^ d)

  power_pos : (d : ℕ) → 0 < ptrs → 0 < ptrs ^ d
  power_pos zero h = omega (arith, pow-zero ptrs)
  power_pos (suc d) h = omega (arith, pow-suc ptrs d, mul-pos (power_pos d h) h)

  pub get_or-leaves :
      (d blk i : ℕ) → 0 < ptrs → i < ptrs ^ d → get_or (leaves d blk) i 0 ≡ descend d blk i
  unfolding leaves descend pick
  get_or-leaves zero blk i pos h =
      ap (λ k. get_or (blk ∷ []) k 0) {y = 0} (omega (arith, pow-zero ptrs))
  get_or-leaves (suc d) blk i pos h =
      let len = ptrs ^ d in
      let f : ℕ → List ℕ = λ b. leaves d (entry blk b) in
      let some_leaf = power_pos d pos in
      let inside =
        (div-lt_iff_lt-mul {k = len} {x = i} {y = ptrs} some_leaf).1
          (omega (arith, pow-succ' ptrs d)) in
      let found : get_or (concat_from ptrs 0 f) i 0 ≡ descend d (entry blk (i / len)) (i % len) =
        ap (λ k. get_or (concat_from ptrs 0 f) k 0) (sym (div-add-mod' i len))
        ∙ get_or-concat_from_at ptrs 0 len (i / len) (i % len) f
            (λ b. length-leaves d (entry blk b)) inside (mod-lt i some_leaf)
        ∙ ap (λ b. get_or (f b) (i % len) 0) (omega arith)
        ∙ get_or-leaves d (entry blk (i / len)) (i % len) pos (mod-lt i some_leaf) in
      ground (arith, found, descend-zero d (i % len), get_or-replicate {A = ℕ} (ptrs ^ suc d) i 0)

  pub through-pick : (blk i pages : ℕ) → 0 < pages → through p blk i pages ≡ (pick blk i, pages)
  unfolding through pick
  through-pick blk i pages h = ground arith

  pub power_one : ptrs ^ 1 ≡ ptrs
  power_one = pow-suc ptrs 0 ∙ ap (λ m. m * ptrs) (pow-zero ptrs) ∙ one-mul ptrs

  pub power_two : ptrs ^ 2 ≡ ptrs * ptrs
  power_two = pow-suc ptrs 1 ∙ ap (λ m. m * ptrs) power_one

  pub descend_one : (b i : ℕ) → descend 1 b i ≡ pick b i
  unfolding descend
  descend_one b i = ap (λ k. pick b k) (ap (λ m. i / m) (pow-zero ptrs) ∙ div-one i)

  pub descend_two : (b i : ℕ) → descend 2 b i ≡ pick (pick b (i / ptrs)) (i % ptrs)
  unfolding descend
  descend_two b i =
      ap (λ m. descend 1 (pick b (i / m)) (i % m)) power_one
      ∙ descend_one (pick b (i / ptrs)) (i % ptrs)

  pub descend_three :
      (b i : ℕ)
      → 0 < ptrs
      → descend 3 b i ≡ pick (pick (pick b (i / (ptrs * ptrs))) (i / ptrs % ptrs)) (i % ptrs)
  unfolding descend
  descend_three b i pos =
      let top = pick b (i / (ptrs * ptrs)) in
      ap (λ m. descend 2 (pick b (i / m)) (i % m)) power_two
      ∙ descend_two top (i % (ptrs * ptrs))
      ∙ ap₂ (λ k l. pick (pick top k) l) (mod-div i ptrs ptrs pos) (mod-mod_mul i ptrs ptrs pos)
