-- ===== src/Ext2/Directory.antt =====
-- `ext2_lookup` and `ext2_readdir` of kernel/ext2.c.
pub mod Entries
pub mod Search
use Prim.Native.Nat.{◌*◌, ◌^◌}
use jeos.Prelude.{
  ℕ, zero, suc, ◌+◌, ◌-◌, ◌/◌, ◌%◌, Bool, true, false, not, ◌&&◌, Option, none, some, List, [], ◌∷◌,
  length, ltb, leb, ◌==◌, if◌then◌else◌,
}
use jeos.Ext2.{
  Bytes, Priv, DiskInode, bytes_of, u16_of, u32_of, fresh_page, kalloc_page, kfree_page, read_inode,
}
use jeos.Ext2.Files.{VfsInode, make_vfs_inode, no_block, load, bytes_from}

-- `ext2_dirent`, with the bytes of its name.
pub record Dirent : Type 0 where
  pub inode : ℕ
  pub rec_len : ℕ
  pub name_len : ℕ
  pub file_type : ℕ
  pub name : Bytes

-- The entry at an offset of any bytes.
unfoldable pub dirent_at : (ℕ → ℕ) → ℕ → Dirent
dirent_at f i = record {
  inode = u32_of f i;
  rec_len = u16_of f (i + 4);
  name_len = f (i + 6);
  file_type = f (i + 7);
  name = bytes_from f (i + 8) (f (i + 6));
}

-- The loop that compares two names of one length.
unfoldable pub same_name : Bytes → Bytes → Bool
same_name [] s = true
same_name (x ∷ r) [] = false
same_name (x ∷ r) (y ∷ s) = let same = same_name r s in if x == y then same else false

-- The test of an entry against the name that is looked for.
abbrev pub is_match : (name : Bytes) → Dirent → Bool
is_match name de = not (de.inode == 0) && ((de.name_len == length name) && same_name de.name name)

-- What `ext2_lookup` returns: VFS_OK with the inode of the child, VFS_ENOENT, -1 or VFS_ENOMEM.
pub data Found : Type 0 where
  found : VfsInode → Found
  no_entry : Found
  io_error : Found
  no_memory : Found

-- The inode of an entry that matches.
unfoldable pub make_found : Priv → (ino pages : ℕ) → Found × ℕ
make_found p ino pages =
    let (read, left) = read_inode p ino pages in
    elim read [
      | none ↦ (io_error, left)
      | some ei ↦
          let (made, left) = make_vfs_inode ino ei left in
          (elim made [ none ↦ no_memory | some vino ↦ found vino ], left)
    ]

-- The loop of `ext2_lookup`. The fuel bounds the rounds, each of which passes at least eight bytes.
unfoldable pub lookup_loop :
    (fuel : ℕ)
    → Priv
    → DiskInode
    → (name : Bytes) → (offset cur_blk : ℕ) → Bytes
    → (pages : ℕ) → Found × ℕ
lookup_loop zero p dei name offset cur_blk buf pages = (no_entry, pages)
lookup_loop (suc k) p dei name offset cur_blk buf pages =
    let lbn = offset / p.block_size in
    if ltb offset dei.size_low
    then (let (loaded, left) = load p dei lbn cur_blk buf pages in
        elim loaded [
          | none ↦ (no_entry, left)
          | some read ↦
              let de = dirent_at (bytes_of read) (offset % p.block_size) in
              let later = lookup_loop k p dei name ((offset + de.rec_len) % 2 ^ 32) lbn read left in
              if ltb de.rec_len 8
              then (no_entry, left)
              else if is_match name de
              then make_found p de.inode left
              else later
        ])
    else (no_entry, pages)

-- `ext2_lookup`, with the pages then free.
unfoldable pub lookup : Priv → DiskInode → (name : Bytes) → (pages : ℕ) → Found × ℕ
lookup p dei name pages = elim (kalloc_page pages) [
  | none ↦ (no_memory, pages)
  | some held ↦
      let rounds = dei.size_low / 8 + 1 in
      let (result, left) = lookup_loop rounds p dei name 0 no_block fresh_page held in
      (result, kfree_page left)
]

-- What `ext2_readdir` returns: VFS_OK with the entry, VFS_ENOENT or VFS_ENOMEM.
pub data Listed : Type 0 where
  listed : (ino type : ℕ) → (name : Bytes) → Listed
  at_end : Listed
  no_page : Listed

-- The loop of `ext2_readdir`: the result, the position in the file, and the pages then free.
unfoldable pub readdir_loop :
    (fuel : ℕ) → Priv → DiskInode → (pos offset cur_blk : ℕ) → Bytes → (pages : ℕ) → Listed × ℕ × ℕ
readdir_loop zero p ei pos offset cur_blk buf pages = (at_end, pos, pages)
readdir_loop (suc k) p ei pos offset cur_blk buf pages =
    let lbn = offset / p.block_size in
    if ltb offset ei.size_low
    then (let (loaded, left) = load p ei lbn cur_blk buf pages in
        elim loaded [
          | none ↦ (at_end, pos, left)
          | some read ↦
              let de = dirent_at (bytes_of read) (offset % p.block_size) in
              let behind = (offset + de.rec_len) % 2 ^ 32 in
              let later = readdir_loop k p ei pos behind lbn read left in
              if ltb de.rec_len 8
              then (at_end, pos, left)
              else if de.inode == 0
              then later
              else (listed de.inode de.file_type de.name, behind, left)
        ])
    else (at_end, pos, pages)

-- `ext2_readdir` at the position `pos` of a file, below 2 ^ 32.
unfoldable pub readdir : Priv → DiskInode → (pos pages : ℕ) → Listed × ℕ × ℕ
readdir p ei pos pages =
    if leb ei.size_low pos then (at_end, pos, pages) else elim (kalloc_page pages) [
      | none ↦ (no_page, pos, pages)
      | some held ↦
          let rounds = ei.size_low / 8 + 1 in
          let (result, pos, left) = readdir_loop rounds p ei pos pos no_block fresh_page held in
          (result, pos, kfree_page left)
    ]
