-- ===== src/Ext2/Files/Loading.antt =====
-- The cached block of the loops of kernel/ext2.c, over a device that answers.
use Prim.Native.Nat.{◌*◌, ◌^◌}
use jeos.Prelude.{
  ℕ, ◌+◌, ◌/◌, ◌%◌, ◌≤◌, ◌<◌, ◌≡◌, ◌≢◌, sym, subst, true, some, length, get_or, ℕ_discrete, arith,
}
use jeos.Ext2.{Bytes, Priv, DiskInode, read_block}
use jeos.Ext2.Tree.{ptrs, file_blocks}
use jeos.Ext2.BlockMap.{block_map-file_blocks}
use jeos.Ext2.Files.{no_block, load}

-- The device answers each read of a block with the bytes of `disk`, whatever the buffer held.
pub record Answers (p : Priv) (disk : (blk i : ℕ) → ℕ) : Type 0 where
  pub ok : (blk : ℕ) (buf : Bytes) → (read_block p blk buf).0 ≡ true
  pub bytes :
      (blk : ℕ) (buf : Bytes) (i : ℕ)
      → i < p.block_size
      → get_or (read_block p blk buf).1 i 0 ≡ disk blk i

-- The geometry of a file system and of an inode in it that the block map is made for: `blocks` blocks
-- of the file are there, none of them a hole.
pub record Mapped (p : Priv) (ei : DiskInode) (blocks : ℕ) : Type 0 where
  pub pointers_fit : 0 < ptrs p
  pub square_fits : ptrs p * ptrs p < 2 ^ 32
  pub direct : 12 ≤ length ei.block
  pub reach : blocks ≤ 12 + ptrs p + ptrs p ^ 2 + ptrs p ^ 3
  pub below_none : blocks ≤ no_block
  pub no_hole : (lbn : ℕ) → lbn < blocks → get_or (file_blocks p ei) lbn 0 ≢ 0

-- Byte `k` of a file.
abbrev pub file_byte : Priv → DiskInode → (disk : (blk i : ℕ) → ℕ) → ℕ → ℕ
file_byte p ei disk k = disk (get_or (file_blocks p ei) (k / p.block_size) 0) (k % p.block_size)

-- The buffer holds block `lbn` of the file.
unfoldable pub Cached : Priv → DiskInode → (disk : (blk i : ℕ) → ℕ) → (lbn : ℕ) → Bytes → Type 0
Cached p ei disk lbn buf =
    (i : ℕ) → i < p.block_size → get_or buf i 0 ≡ disk (get_or (file_blocks p ei) lbn 0) i

module _ (p : Priv) (ei : DiskInode) (disk : (blk i : ℕ) → ℕ) (blocks : ℕ)
    (answers : Answers p disk) (mapped : Mapped p ei blocks) where
  -- Whatever block was there, the buffer holds block `lbn` afterwards.
  pub load-Cached :
      (lbn cur_blk : ℕ) (buf : Bytes) (pages : ℕ)
      → lbn < blocks
      → 0 < pages
      → (cur_blk ≢ no_block → Cached p ei disk cur_blk buf)
      → (read : Bytes) × (load p ei lbn cur_blk buf pages ≡ (some read, pages))
        × Cached p ei disk lbn read
  unfolding load
  load-Cached lbn cur_blk buf pages h free cached =
      let found =
        block_map-file_blocks p ei mapped.pointers_fit mapped.direct lbn pages mapped.square_fits
          (omega (arith, mapped.reach)) free in
      let blk = get_or (file_blocks p ei) lbn 0 in
      elim (ℕ_discrete lbn cur_blk) [
        | yes e ↦ (
          buf,
          ground arith,
          subst (λ c. Cached p ei disk c buf) (sym e)
              (cached λ q. absurd (omega (arith, q, e, mapped.below_none))),
        )
        | no n ↦ (
          (read_block p blk buf).1,
          rw (found) (ground (arith, answers.ok blk buf, mapped.no_hole lbn h)),
          unfold Cached in λ i inside. answers.bytes blk buf i inside,
        )
      ]
