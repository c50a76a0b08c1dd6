-- ===== src/Ext2/Files.antt =====
-- The file and directory operations of kernel/ext2.c.
pub mod Reading
pub mod Loading
use Prim.Native.Nat.{◌*◌, ◌^◌, bit_and, bit_or}
use jeos.Prelude.{
  ℕ, zero, suc, ◌+◌, ◌-◌, ◌/◌, ◌%◌, Bool, true, false, ◌||◌, Option, none, some, [], ◌∷◌, ◌++◌,
  length, get_or, ltb, leb, ◌==◌, if◌then◌else◌,
}
use jeos.Ext2.{
  Bytes, Priv, DiskInode, bytes_of, fresh_page, kalloc_page, kfree_page, u16_at, u32_at, read_block,
  read_inode, block_map,
}

-- `ext2_vfs_mode`: the type bits are the ones of the disk, or none, beside the permissions.
unfoldable pub vfs_mode : ℕ → ℕ
vfs_mode m =
    let t = bit_and m 61440 in
    let known =
      t == 32768
      || (t == 16384)
      || (t == 40960)
      || (t == 8192)
      || (t == 24576)
      || (t == 4096)
      || (t == 49152) in
    bit_or (if known then t else 0) (bit_and m 4095)

-- `vfs_inode` as `ext2_make_vfs_inode` fills it; `priv` is the copy of the inode on the disk.
pub record VfsInode : Type 0 where
  pub ino : ℕ
  pub mode : ℕ
  pub refcnt : ℕ
  pub priv : DiskInode

unfoldable pub make_vfs_inode : (ino_num : ℕ) → DiskInode → (pages : ℕ) → Option VfsInode × ℕ
make_vfs_inode ino_num ei pages = elim (kalloc_page pages) [
  | none ↦ (none, pages)
  | some one_held ↦ elim (kalloc_page one_held) [
    | none ↦ (none, kfree_page one_held)
    | some held ↦
        (some (record { ino = ino_num; mode = vfs_mode ei.mode; refcnt = 1; priv = ei }), held)
  ]
]

abbrev pub file_size : DiskInode → ℕ
file_size ei = ei.size_low + ei.size_high * 2 ^ 32

-- `vfs_stat` and `ext2_getattr`.
pub record Stat : Type 0 where
  pub ino : ℕ
  pub mode : ℕ
  pub nlink : ℕ
  pub uid : ℕ
  pub gid : ℕ
  pub size : ℕ
  pub blocks : ℕ
  pub atime : ℕ
  pub mtime : ℕ
  pub ctime : ℕ

unfoldable pub getattr : VfsInode → Stat
getattr vino =
    let ei = vino.priv in
    record {
      ino = vino.ino;
      mode = vino.mode;
      nlink = ei.links_count;
      uid = ei.uid;
      gid = ei.gid;
      size = file_size ei;
      blocks = ei.blocks_count;
      atime = ei.atime;
      mtime = ei.mtime;
      ctime = ei.ctime;
    }

-- `~0u`, the number of no cached block.
abbrev pub no_block : ℕ
no_block = 2 ^ 32 - 1

-- The block that the three loops keep in a buffer: read unless it is there; `none` where they break.
-- A block is at most as large as the page of the buffer.
unfoldable pub load : Priv → DiskInode → (lbn cur_blk : ℕ) → Bytes → (pages : ℕ) → Option Bytes × ℕ
load p ei lbn cur_blk buf pages =
    if lbn == cur_blk
    then (some buf, pages)
    else let (phys, pages) = block_map p ei lbn pages in
      let (ok, read) = read_block p phys buf in
      (if phys == 0 then none else if ok then some read else none, pages)

-- `n` values of `f` from `k` on; of a buffer, what memcpy copies.
unfoldable pub bytes_from : (ℕ → ℕ) → (k n : ℕ) → Bytes
bytes_from f k zero = []
bytes_from f k (suc n) = f k ∷ bytes_from f (k + 1) n

abbrev pub slice : Bytes → (start n : ℕ) → Bytes
slice buf start n = bytes_from (bytes_of buf) start n

-- The loop of `ext2_read`: the bytes it copies, and the pages then free. The fuel bounds the rounds.
unfoldable pub read_loop :
    (fuel : ℕ) → Priv → DiskInode → (off count done cur_blk : ℕ) → Bytes → (pages : ℕ) → Bytes × ℕ
read_loop zero p ei off count done cur_blk buf pages = ([], pages)
read_loop (suc k) p ei off count done cur_blk buf pages =
    let pos = (off + done) % 2 ^ 64 in
    let lbn = pos / p.block_size % 2 ^ 32 in
    let blk_off = pos % p.block_size in
    let whole = p.block_size - blk_off in
    let chunk = if ltb (count - done) whole then count - done else whole in
    if ltb done count
    then (let (loaded, left) = load p ei lbn cur_blk buf pages in
        elim loaded [
          | none ↦ ([], left)
          | some read ↦
              let (more, left) = read_loop k p ei off count (done + chunk) lbn read left in
              (slice read blk_off chunk ++ more, left)
        ])
    else ([], pages)

-- `ext2_read`: the bytes read, or `none` for VFS_ENOMEM; the offset and the pages afterwards.
unfoldable pub ext2_read : Priv → DiskInode → (off count pages : ℕ) → Option Bytes × ℕ × ℕ
ext2_read p ei off count pages =
    let size = file_size ei in
    let n = if ltb size ((off + count) % 2 ^ 64) then size - off else count in
    if leb size off then (some [], off, pages) else elim (kalloc_page pages) [
      | none ↦ (none, off, pages)
      | some held ↦
          let (out, left) = read_loop n p ei off n 0 no_block fresh_page held in
          (some out, off + length out, kfree_page left)
    ]
