-- ===== src/Mem/Buddy/Block.antt =====
-- Blocks of an order, their addresses and their buddies.

use Prim.Native.Nat.{bit_xor}
use jeos.Prelude.{
  ℕ, zero, suc, ◌+◌, ◌-◌, ◌*◌, ◌/◌, ◌%◌, ◌^◌, ◌≤◌, ◌<◌, ◌≡◌, ◌≢◌, refl, sym, ap, ap₂, ◌∙◌, true,
  false, ◌&&◌, ltb, leb, ◌==◌, if◌then◌else◌, dec_lt, arith,
}
use jeos.Prelude.Bits.{bit_xor-shift, bit_xor-one}
use jeos.Mem.Buddy.{bytes, page_size, buddy_of}
use jeos.Mem.Buddy.Order.{power_suc, power_mono}

pub bytes_suc : (k : ℕ) → bytes (k + 1) ≡ 2 * bytes k
unfolding bytes
bytes_suc k = omega (arith, power_suc k)

pub bytes_pos : (k : ℕ) → 0 < bytes k
unfolding bytes
bytes_pos k = omega (arith, power_mono 0 k (omega arith))

-- How many blocks of an order the address space has.
unfoldable pub blocks : ℕ → ℕ
blocks k = 2 ^ (52 - k)

blocks_suc : (k : ℕ) → k < 52 → blocks k ≡ 2 * blocks (k + 1)
unfolding blocks
blocks_suc k h = ap (λ n. 2 ^ n) {y = 52 - (k + 1) + 1} (omega arith) ∙ power_suc (52 - (k + 1))

pub blocks-bytes : (k : ℕ) → k ≤ 52 → blocks k * bytes k ≡ 2 ^ 64
blocks-bytes zero h = unfold blocks bytes in refl
blocks-bytes (suc k) h =
    let one_up : suc k ≡ k + 1 = omega arith in
    rw one_up (omega (arith, blocks-bytes k (omega arith), scaled))
  where
    scaled : blocks k * bytes k ≡ blocks (k + 1) * bytes (k + 1)
    scaled = rw (blocks_suc k (omega arith), bytes_suc k) (omega arith)

-- The address of a block of order `k`, naturally aligned.
pub record Block (k a : ℕ) : Type 0 where
  pub index : ℕ
  pub at : a ≡ index * bytes k
  pub low : index < blocks k

-- A block ends within the address space.
pub Block-end : (k a : ℕ) → k ≤ 52 → Block k a → a + bytes k ≤ 2 ^ 64
Block-end k a h b = grind (arith, blocks-bytes k h)

-- Whether the block covers the address `p`.
abbrev pub covers : ℕ → ℕ → ℕ → ℕ
covers k a p = if leb a p && ltb p (a + bytes k) then 1 else 0

scale : (k q : ℕ) → q * bytes k ≡ q * 2 ^ k * 2 ^ 12
unfolding bytes
scale k q = omega arith

pub buddy_of_index :
    (k q : ℕ) → buddy_of (q * bytes k) k ≡ (if q % 2 == 0 then q + 1 else q - 1) * bytes k
buddy_of_index k q =
    ap₂ bit_xor {v = 1 * 2 ^ k * 2 ^ 12} (scale k q) (omega (arith, scale k 1))
    ∙ bit_xor-shift 12 (q * 2 ^ k) (1 * 2 ^ k)
    ∙ ap (λ x. x * 2 ^ 12) (bit_xor-shift k q 1)
    ∙ sym (scale k (bit_xor q 1))
    ∙ ap (λ x. x * bytes k) (bit_xor-one q)

-- A block and its buddy make up the block of the next order at the lower of their addresses.
pub record Pair (k a b low : ℕ) : Type 0 where
  pub buddy : Block k b
  pub joined : Block (k + 1) low
  pub parts : (p : ℕ) → covers (k + 1) low p ≡ covers k a p + covers k b p

-- Two blocks side by side cover what the block of the next order covers.
pub adjacent : (k a b p : ℕ) → b ≡ a + bytes k → covers (k + 1) a p ≡ covers k a p + covers k b p
adjacent k a b p e = ground (arith, bytes_suc k, bytes_pos k)

module _ (k q : ℕ) (h : k < 52) where
  even_index : q < blocks k → q % 2 ≡ 0 → buddy_of (q * bytes k) k ≡ (q + 1) * bytes k
  even_index low even =
      let test : (q % 2 == 0) ≡ true = ground arith in
      buddy_of_index k q ∙ ap (λ b. (if b then q + 1 else q - 1) * bytes k) test

  odd_index : q % 2 ≢ 0 → buddy_of (q * bytes k) k ≡ (q - 1) * bytes k
  odd_index odd =
      let test : (q % 2 == 0) ≡ false = ground arith in
      buddy_of_index k q ∙ ap (λ b. (if b then q + 1 else q - 1) * bytes k) test

  even-Pair : q < blocks k → q % 2 ≡ 0 → Pair k (q * bytes k) ((q + 1) * bytes k) (q * bytes k)
  even-Pair low even = record {
    buddy = record { index = q + 1; at = refl; low = omega (arith, blocks_suc k h) };
    joined = record {
      index = q / 2;
      at = ap (λ x. x * bytes k) {y = q / 2 * 2} (omega arith) ∙ (rw (bytes_suc k) (omega arith));
      low = omega (arith, blocks_suc k h);
    };
    parts = λ p. adjacent k (q * bytes k) ((q + 1) * bytes k) p (omega arith);
  }

  odd-Pair : q < blocks k → q % 2 ≢ 0 → Pair k (q * bytes k) ((q - 1) * bytes k) ((q - 1) * bytes k)
  odd-Pair low odd = record {
    buddy = record { index = q - 1; at = refl; low = omega arith };
    joined = record {
      index = q / 2;
      at = ap (λ x. x * bytes k) {y = q / 2 * 2} (omega arith) ∙ (rw (bytes_suc k) (omega arith));
      low = omega (arith, blocks_suc k h);
    };
    parts = λ p.
        let one_up : q ≡ q - 1 + 1 = omega arith in
        adjacent k ((q - 1) * bytes k) (q * bytes k) p (ap (λ x. x * bytes k) one_up ∙ omega arith)
        ∙ omega arith;
  }

-- The buddy of a block is a block of its order, and the two make up the block of the next order at
-- the lower address.
pub buddy-Pair :
    (k a : ℕ)
    → k < 52
    → Block k a
    → Pair k a (buddy_of a k) (if ltb (buddy_of a k) a then buddy_of a k else a)
buddy-Pair k a h blk = rw blk.at (elim (dec_lt 0 (blk.index % 2)) [
  | no even ↦
      let zero : blk.index % 2 ≡ 0 = omega arith in
      let above : ltb ((blk.index + 1) * bytes k) (blk.index * bytes k) ≡ false = ground arith in
      rw (even_index k blk.index h blk.low zero, above) (even-Pair k blk.index h blk.low zero)
  | yes odd ↦
      let ne : blk.index % 2 ≢ 0 = omega arith in
      let one_up : blk.index ≡ blk.index - 1 + 1 = omega arith in
      let apart : blk.index * bytes k ≡ (blk.index - 1) * bytes k + bytes k =
        ap (λ x. x * bytes k) one_up ∙ omega arith in
      let below : ltb ((blk.index - 1) * bytes k) (blk.index * bytes k) ≡ true =
        ground (arith, apart, bytes_pos k) in
      rw (odd_index k blk.index h ne, below) (odd-Pair k blk.index h blk.low ne)
])

pub Block-aligned : (k a : ℕ) → Block k a → a % page_size ≡ 0
unfolding bytes
Block-aligned k a b =
    let whole : a ≡ b.index * 2 ^ k * 4096 = b.at ∙ omega arith in rw whole (omega arith)

-- The two halves of a block.
pub halves : (k a : ℕ) → k < 52 → Block (k + 1) a → Block k a × Block k (a + bytes k)
halves k a h b = (
  record { index = b.index * 2; at = whole; low = omega (arith, b.low, blocks_suc k h) },
  record {
    index = b.index * 2 + 1;
    at = omega (arith, whole);
    low = omega (arith, b.low, blocks_suc k h);
  },
)
  where
    whole : a ≡ b.index * 2 * bytes k
    whole = b.at ∙ (rw (bytes_suc k) (omega arith))
