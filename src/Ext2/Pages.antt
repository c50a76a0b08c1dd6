-- ===== src/Ext2/Pages.antt =====
-- The pages that kernel/ext2.c takes and gives back, on every path.
use Prim.Native.Nat.{◌*◌, ◌^◌}
use jeos.Prelude.{
  ◌++◌, get_or, dec_lt, lt→ltb, ℕ, zero, suc, ◌+◌, ◌-◌, ◌/◌, ◌%◌, ◌≡◌, refl, ◌∙◌, inl, inr, Option,
  none, some, Option-cases, ltb, if◌then◌else◌, arith,
}
use jeos.Ext2.{bytes_of, Bytes, Priv, DiskInode, fresh_page, read_inode, through, block_map}
use jeos.Ext2.Files.{make_vfs_inode, slice, load, read_loop, ext2_read, no_block, file_size}
use jeos.Ext2.Directory.{
  Found, found, no_memory, make_found, dirent_at, lookup_loop, lookup, readdir_loop, readdir,
}

module _ (p : Priv) where
  through_pages : (blk i pages : ℕ) → (through p blk i pages).1 ≡ pages
  unfolding through
  through_pages blk i pages = ground arith

  block_map_pages : (ei : DiskInode) (lbn pages : ℕ) → (block_map p ei lbn pages).1 ≡ pages
  unfolding block_map
  block_map_pages ei lbn pages =
      let ptrs = p.block_size / 4 in
      let square = ptrs * ptrs % 2 ^ 32 in
      let m = lbn - 12 - ptrs in
      let n = m - square in
      let double = through p (get_or ei.block 13 0) (m / ptrs) pages in
      let triple = through p (get_or ei.block 14 0) (n / square) pages in
      let middle = through p triple.0 (n / ptrs % ptrs) triple.1 in
      ground (
        arith,
        through_pages (get_or ei.block 12 0) (lbn - 12) pages,
        through_pages (get_or ei.block 13 0) (m / ptrs) pages,
        through_pages double.0 (m % ptrs) double.1,
        through_pages (get_or ei.block 14 0) (n / square) pages,
        through_pages triple.0 (n / ptrs % ptrs) triple.1,
        through_pages middle.0 (n % ptrs) middle.1,
      )

  read_inode_pages : (ino pages : ℕ) → (read_inode p ino pages).1 ≡ pages
  unfolding read_inode
  read_inode_pages ino pages = ground arith

  load_pages :
      (ei : DiskInode) (lbn cur_blk : ℕ) (buf : Bytes) (pages : ℕ)
      → (load p ei lbn cur_blk buf pages).1 ≡ pages
  unfolding load
  load_pages ei lbn cur_blk buf pages = ground (arith, block_map_pages ei lbn pages)

  -- A loop goes on with a block, or it stops.
  loaded_pages :
      {A : Type 0} (m : A → ℕ) (loaded : Option Bytes) {n : ℕ} {stop : A} {go : Bytes → A}
      → m stop ≡ n
      → ((read : Bytes) → m (go read) ≡ n)
      → m (elim loaded [ none ↦ stop | some read ↦ go read ]) ≡ n
  loaded_pages m none h k = h
  loaded_pages m (some read) h k = k read

  read_loop_pages :
      (k : ℕ) (ei : DiskInode) (off count done cur_blk : ℕ) (buf : Bytes) (pages : ℕ)
      → (read_loop k p ei off count done cur_blk buf pages).1 ≡ pages
  unfolding read_loop
  read_loop_pages zero ei off count done cur_blk buf pages = refl
  read_loop_pages (suc k) ei off count done cur_blk buf pages =
      let m = λ (r : Bytes × ℕ). r.1 in
      let at = (off + done) % 2 ^ 64 in
      let lbn = at / p.block_size % 2 ^ 32 in
      let whole = p.block_size - at % p.block_size in
      let chunk = if ltb (count - done) whole then count - done else whole in
      let got = load p ei lbn cur_blk buf pages in
      let same = load_pages ei lbn cur_blk buf pages in
      elim (dec_lt done count) [
        | no n ↦ ground arith
        | yes more ↦ rw (lt→ltb done count more) (
            loaded_pages m got.0
              {go = λ read.
                let (more, left) = read_loop k p ei off count (done + chunk) lbn read got.1 in
                (slice read (at % p.block_size) chunk ++ more, left)}
              same (λ read. read_loop_pages k ei off count (done + chunk) lbn read got.1 ∙ same))
      ]

  readdir_loop_pages :
      (k : ℕ) (ei : DiskInode) (pos offset cur_blk : ℕ) (buf : Bytes) (pages : ℕ)
      → (readdir_loop k p ei pos offset cur_blk buf pages).2 ≡ pages
  unfolding readdir_loop
  readdir_loop_pages zero ei pos offset cur_blk buf pages = refl
  readdir_loop_pages (suc k) ei pos offset cur_blk buf pages =
      let lbn = offset / p.block_size in
      let got = load p ei lbn cur_blk buf pages in
      let same = load_pages ei lbn cur_blk buf pages in
      elim (dec_lt offset ei.size_low) [
        | no n ↦ ground arith
        | yes more ↦ elim (Option-cases got.0) [
          | inl e ↦ rw (lt→ltb offset ei.size_low more, e) same
          | inr (read, e) ↦
              let de = dirent_at (bytes_of read) (offset % p.block_size) in
              let later =
                readdir_loop_pages k ei pos ((offset + de.rec_len) % 2 ^ 32) lbn read got.1 in
              rw (lt→ltb offset ei.size_low more, e) (ground (arith, later, same))
        ]
      ]

-- The pages that a result of `ext2_lookup` keeps: the inode and its copy.
abbrev pub kept : Found → ℕ
kept (found vino) = 2
kept _ = 0

module _ (p : Priv) where
  make_vfs_inode_pages :
      (ino : ℕ) (ei : DiskInode) (pages : ℕ)
      → (let (made, left) = make_vfs_inode ino ei pages in
          left + kept (elim made [ none ↦ no_memory | some vino ↦ found vino ]))
        ≡ pages
  unfolding make_vfs_inode
  make_vfs_inode_pages ino ei zero = refl
  make_vfs_inode_pages ino ei (suc zero) = refl
  make_vfs_inode_pages ino ei (suc (suc pages)) = ground arith

  make_found_pages :
      (ino pages : ℕ) → (let (r, left) = make_found p ino pages in left + kept r) ≡ pages
  unfolding make_found
  make_found_pages ino pages =
      let got = read_inode p ino pages in
      let same = read_inode_pages p ino pages in
      elim (Option-cases got.0) [
        | inl e ↦ rw (make_found, e) (omega (arith, same))
        | inr (ei, e) ↦ rw (make_found, e) (make_vfs_inode_pages ino ei got.1 ∙ same)
      ]

  lookup_loop_pages :
      (k : ℕ) (dei : DiskInode) (name : Bytes) (offset cur_blk : ℕ) (buf : Bytes) (pages : ℕ)
      → (let (r, left) = lookup_loop k p dei name offset cur_blk buf pages in left + kept r) ≡ pages
  unfolding lookup_loop
  lookup_loop_pages zero dei name offset cur_blk buf pages = omega arith
  lookup_loop_pages (suc k) dei name offset cur_blk buf pages =
      let lbn = offset / p.block_size in
      let got = load p dei lbn cur_blk buf pages in
      let same = load_pages p dei lbn cur_blk buf pages in
      elim (dec_lt offset dei.size_low) [
        | no n ↦ ground arith
        | yes more ↦ elim (Option-cases got.0) [
          | inl e ↦ rw (lt→ltb offset dei.size_low more, e) (omega (arith, same))
          | inr (read, e) ↦
              let de = dirent_at (bytes_of read) (offset % p.block_size) in
              let later =
                lookup_loop_pages k dei name ((offset + de.rec_len) % 2 ^ 32) lbn read got.1 in
              rw (lt→ltb offset dei.size_low more, e)
                (ground (arith, later, same, make_found_pages de.inode got.1))
        ]
      ]

  -- No path of `ext2_read`, `ext2_readdir` and `ext2_lookup` loses a page or gives one back twice,
  -- whatever the device answers and however few pages are free: the first two leave as many pages as
  -- they found, and a lookup keeps two for the inode that it returns and none otherwise.
  pub pages_kept :
      (ei : DiskInode) (name : Bytes) (off count pages : ℕ)
      → ((ext2_read p ei off count pages).2 ≡ pages)
        × ((readdir p ei off pages).2 ≡ pages)
        × (let (r, left) = lookup p ei name pages in left + kept r ≡ pages)
  unfolding ext2_read readdir lookup
  pages_kept ei name off count zero = (ground arith, ground arith, refl)
  pages_kept ei name off count (suc held) =
      let n = if ltb (file_size ei) ((off + count) % 2 ^ 64) then file_size ei - off else count in
      (
        ground (arith, read_loop_pages p n ei off n 0 no_block fresh_page held),
        ground
            (arith, readdir_loop_pages p (ei.size_low / 8 + 1) ei off off no_block fresh_page held),
        ground (arith, lookup_loop_pages (ei.size_low / 8 + 1) ei name 0 no_block fresh_page held),
      )
