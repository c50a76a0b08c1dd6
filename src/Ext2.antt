-- ===== src/Ext2.antt =====
-- The ext2 file system: kernel/ext2.c. The allocator is seen through the number of pages that
-- `kalloc(1)` still gives; a buffer is the list of its bytes. The driver behind `blk_read` is a field
-- of the mounted file system: it takes the buffer and returns whether the read succeeded and what the
-- buffer then holds.
pub mod Tree
pub mod BlockMap
pub mod Files
pub mod Directory
pub mod Pages
mod Tests
use Prim.Native.Nat.{◌*◌, ◌^◌}
use jeos.Prelude.{
  ℕ, zero, suc, ◌+◌, ◌-◌, ◌/◌, ◌%◌, Bool, true, false, Option, none, some, List, [], ◌∷◌, get_or,
  replicate, ltb, ◌==◌, if◌then◌else◌,
}

abbrev pub Bytes : Type 0
Bytes = List ℕ

-- `ext2_priv`: the fields that reading uses. `inode_table` is `bgdt[grp].inode_table`.
pub record Priv : Type 0 where
  pub blk_read : (lba count : ℕ) → Bytes → Bool × Bytes
  pub sector_size : ℕ
  pub block_size : ℕ
  pub inodes_per_group : ℕ
  pub inode_size : ℕ
  pub inode_table : ℕ → ℕ

-- `ext2_inode`, without the fields that nothing reads.
pub record DiskInode : Type 0 where
  pub mode : ℕ
  pub uid : ℕ
  pub size_low : ℕ
  pub atime : ℕ
  pub ctime : ℕ
  pub mtime : ℕ
  pub gid : ℕ
  pub links_count : ℕ
  pub blocks_count : ℕ
  pub block : List ℕ
  pub size_high : ℕ

-- `kalloc(1)`, which fills the page with a pattern, and `kfree(page, 1)`.
unfoldable pub fresh_page : Bytes
fresh_page = replicate 4096 5

abbrev pub kalloc_page : ℕ → Option ℕ
kalloc_page pages = if pages == 0 then none else some (pages - 1)

abbrev pub kfree_page : ℕ → ℕ
kfree_page pages = pages + 1

-- The u16 and the u32 at an offset, low byte first; of any bytes, and of a buffer.
abbrev pub u16_of : (ℕ → ℕ) → ℕ → ℕ
u16_of f i = f i + 256 * f (i + 1)

abbrev pub u32_of : (ℕ → ℕ) → ℕ → ℕ
u32_of f i = u16_of f i + 65536 * u16_of f (i + 2)

abbrev pub bytes_of : Bytes → ℕ → ℕ
bytes_of buf i = get_or buf i 0

abbrev pub u16_at : Bytes → ℕ → ℕ
u16_at buf = u16_of (bytes_of buf)

abbrev pub u32_at : Bytes → ℕ → ℕ
u32_at buf = u32_of (bytes_of buf)

-- `ext2_read_block`.
unfoldable pub read_block : Priv → (blkno : ℕ) → Bytes → Bool × Bytes
read_block p blkno buf =
    let spb = p.block_size / p.sector_size in p.blk_read (blkno * spb % 2 ^ 64) spb buf

-- The pointers of an inode, from offset `i` on.
abbrev pub pointers : (n : ℕ) → Bytes → (i : ℕ) → List ℕ
pointers zero buf i = []
pointers (suc n) buf i = u32_at buf i ∷ pointers n buf (i + 4)

-- The packed layout of `ext2_inode`.
unfoldable pub inode_at : Bytes → ℕ → DiskInode
inode_at buf i = record {
  mode = u16_at buf i;
  uid = u16_at buf (i + 2);
  size_low = u32_at buf (i + 4);
  atime = u32_at buf (i + 8);
  ctime = u32_at buf (i + 12);
  mtime = u32_at buf (i + 16);
  gid = u16_at buf (i + 24);
  links_count = u16_at buf (i + 26);
  blocks_count = u32_at buf (i + 28);
  block = pointers 15 buf (i + 40);
  size_high = u32_at buf (i + 108);
}

-- `ext2_read_inode`: `none` where it returns an error; with the pages then free.
unfoldable pub read_inode : Priv → (ino pages : ℕ) → Option DiskInode × ℕ
read_inode p ino pages =
    let grp = (ino - 1) / p.inodes_per_group in
    let idx = (ino - 1) % p.inodes_per_group in
    let byte_off = idx * p.inode_size % 2 ^ 32 in
    let blk_off = byte_off / p.block_size in
    let off_in_blk = byte_off % p.block_size in
    if ino == 0 then (none, pages) else elim (kalloc_page pages) [
      | none ↦ (none, pages)
      | some held ↦
          let (ok, buf) = read_block p ((p.inode_table grp + blk_off) % 2 ^ 32) fresh_page in
          (if ok then some (inode_at buf off_in_blk) else none, kfree_page held)
    ]

-- One level of `ext2_block_map`: the test of the pointer `blk`, and the block that its entry `i`
-- points to. Whether the read succeeded is not asked.
unfoldable pub through : Priv → (blk i pages : ℕ) → ℕ × ℕ
through p blk i pages = if blk == 0 then (0, pages) else elim (kalloc_page pages) [
  | none ↦ (0, pages)
  | some held ↦ let (_, buf) = read_block p blk fresh_page in (u32_at buf (i * 4), kfree_page held)
]

-- `ext2_block_map`.
unfoldable pub block_map : Priv → DiskInode → (lbn pages : ℕ) → ℕ × ℕ
block_map p ei lbn pages =
    let ptrs = p.block_size / 4 in
    let square = ptrs * ptrs % 2 ^ 32 in
    let l = lbn - 12 in
    let m = l - ptrs in
    let n = m - square in
    if ltb lbn 12
    then (get_or ei.block lbn 0, pages)
    else if ltb l ptrs
    then through p (get_or ei.block 12 0) l pages
    else if ltb m square
    then (let (l1, pages) = through p (get_or ei.block 13 0) (m / ptrs) pages in
        through p l1 (m % ptrs) pages)
    else let (l1, pages) = through p (get_or ei.block 14 0) (n / square) pages in
      let (l2, pages) = through p l1 (n / ptrs % ptrs) pages in through p l2 (n % ptrs) pages
