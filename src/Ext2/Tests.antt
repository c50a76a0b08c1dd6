-- ===== src/Ext2/Tests.antt =====
-- Runs over a small file system with blocks of 32 bytes.
use Prim.Native.Nat.{◌*◌, ◌^◌}
use jeos.Prelude.{
  ℕ, zero, suc, ◌+◌, ◌-◌, ◌%◌, ◌<◌, ◌≡◌, ◌≢◌, refl, ap, ◌∙◌, Bool, true, false, some, List, [], ◌∷◌,
  ◌++◌, get_or, replicate, ◌==◌, if◌then◌else◌, min, codes, arith,
}
use jeos.Ext2.{Bytes, Priv, DiskInode, read_block, through, block_map, kfree_page}
use jeos.Ext2.Tree.{leaves, file_blocks, concat_from}
use jeos.Ext2.BlockMap.{block_map-file_blocks}
use jeos.Ext2.Pages.{kept, pages_kept}
use jeos.Ext2.Files.{bytes_from, load, read_loop, ext2_read}
use jeos.Ext2.Files.Loading.{Answers, Mapped, file_byte}
use jeos.Ext2.Files.Reading.{ext2_read-bytes_from}
use jeos.Ext2.Directory.{Dirent, dirent_at, lookup, readdir, readdir_loop, listed}
use jeos.Ext2.Directory.Entries.{Listing}
use jeos.Ext2.Directory.Search.{look_for, lookup-look_for}

-- Block 9 is a directory with the names `ab` and `c`, block 5 a block of pointers to it.
abbrev ab : Bytes
ab = 11 ∷ 0 ∷ 0 ∷ 0 ∷ 12 ∷ 0 ∷ 2 ∷ 1 ∷ 97 ∷ 98 ∷ 0 ∷ 0 ∷ []

abbrev c : Bytes
c = 12 ∷ 0 ∷ 0 ∷ 0 ∷ 20 ∷ 0 ∷ 1 ∷ 1 ∷ 99 ∷ []

abbrev sector : ℕ → ℕ → ℕ
sector lba i =
    if lba == 9 then get_or (ab ++ c) i 0 else if lba == 5 then get_or (9 ∷ []) i 0 else 0

abbrev fs : Priv
fs = record {
  blk_read = λ lba count buf. (true, bytes_from (sector lba) 0 32);
  sector_size = 32;
  block_size = 32;
  inodes_per_group = 8;
  inode_size = 128;
  inode_table = λ grp. 20;
}

abbrev disk : (blk i : ℕ) → ℕ
disk blk = sector (blk * 1 % 2 ^ 64)

abbrev inode : (size : ℕ) → List ℕ → DiskInode
inode size block = record {
  mode = 33188;
  uid = 0;
  size_low = size;
  atime = 0;
  ctime = 0;
  mtime = 0;
  gid = 0;
  links_count = 1;
  blocks_count = 1;
  block = block;
  size_high = 0;
}

-- The directory, and a file of thirteen blocks.
abbrev dir : DiskInode
dir = inode 32 (9 ∷ replicate 14 0)

abbrev file : DiskInode
file = inode 416 (replicate 12 9 ++ (5 ∷ 0 ∷ 0 ∷ []))

get_or-bytes_from : (f : ℕ → ℕ) (k n i : ℕ) → i < n → get_or (bytes_from f k n) i 0 ≡ f (k + i)
unfolding bytes_from
get_or-bytes_from f k zero i h = absurd (omega arith)
get_or-bytes_from f k (suc n) zero h = ap f (omega arith)
get_or-bytes_from f k (suc n) (suc i) h =
    get_or-bytes_from f (k + 1) n i (omega arith) ∙ ap f (omega arith)

answers : Answers fs disk
unfolding read_block
answers = record {
  ok = λ blk buf. refl;
  bytes = λ blk buf i h.
      get_or-bytes_from (disk blk) 0 32 i h ∙ ap (disk blk) {x = 0 + i} {y = i} (omega arith);
}

abbrev nonzero : (n : ℕ) → List ℕ → Bool
nonzero zero xs = true
nonzero (suc n) [] = false
nonzero (suc n) (x ∷ xs) = if x == 0 then false else nonzero n xs

nonzero_sound : (n : ℕ) (xs : List ℕ) (i : ℕ) → nonzero n xs ≡ true → i < n → get_or xs i 0 ≢ 0
nonzero_sound zero xs i e h = absurd (omega arith)
nonzero_sound (suc n) [] i e h = cc
nonzero_sound (suc n) (x ∷ xs) zero e h = ground arith
nonzero_sound (suc n) (x ∷ xs) (suc i) e h = ground (arith, nonzero_sound n xs i)

file-nonzero : nonzero 13 (file_blocks fs file) ≡ true
unfolding file_blocks leaves concat_from read_block bytes_from
file-nonzero = refl

dir-nonzero : nonzero 1 (file_blocks fs dir) ≡ true
unfolding file_blocks
dir-nonzero = refl

file-Mapped : Mapped fs file 13
file-Mapped = record {
  pointers_fit = omega arith;
  square_fits = omega arith;
  direct = omega arith;
  reach = omega arith;
  below_none = omega arith;
  no_hole = λ lbn h. nonzero_sound 13 (file_blocks fs file) lbn file-nonzero h;
}

dir-Mapped : Mapped fs dir 1
dir-Mapped = record {
  pointers_fit = omega arith;
  square_fits = omega arith;
  direct = omega arith;
  reach = omega arith;
  below_none = omega arith;
  no_hole = λ lbn h. nonzero_sound 1 (file_blocks fs dir) lbn dir-nonzero h;
}

-- Block 12 of the file is behind the block of pointers.
read_run : (ext2_read fs file 384 4 3).0 ≡ some (11 ∷ 0 ∷ 0 ∷ 0 ∷ [])
unfolding ext2_read read_loop load block_map through read_block bytes_from
read_run = refl

block_map-file_blocks_example : block_map fs file 12 1 ≡ (get_or (file_blocks fs file) 12 0, 1)
block_map-file_blocks_example =
    block_map-file_blocks fs file (omega arith) (omega arith) 12 1 (omega arith) (omega arith)
      (omega arith)

ext2_read-bytes_from_example : ext2_read fs file 370 100 3 ≡ (
  some (bytes_from (file_byte fs file disk) 370 (min 100 (416 - 370))),
  370 + min 100 (416 - 370),
  3,
)
ext2_read-bytes_from_example =
    ext2_read-bytes_from fs file disk 13 answers file-Mapped 370 100 3 (omega arith) (omega arith)
      (omega arith) (omega arith)

pages_kept_example :
    ((ext2_read fs file 370 100 1).2 ≡ 1)
    × ((readdir fs file 370 1).2 ≡ 1)
    × (let (r, left) = lookup fs file (codes "c") 1 in left + kept r ≡ 1)
pages_kept_example = pages_kept fs file (codes "c") 370 100 1

abbrev entries : List Dirent
entries =
    record { inode = 11; rec_len = 12; name_len = 2; file_type = 1; name = codes "ab" }
    ∷ record { inode = 12; rec_len = 20; name_len = 1; file_type = 1; name = codes "c" }
    ∷ []

entries-Listing : Listing 32 32 (file_byte fs dir disk) 0 entries
unfolding Listing dirent_at bytes_from file_blocks
entries-Listing = (
  omega arith,
  refl,
  omega arith,
  omega arith,
  (omega arith, refl, omega arith, omega arith, omega arith),
)

lookup-look_for_example :
    lookup fs dir (codes "c") 5
    ≡ (let (result, left) = look_for fs (codes "c") entries 4 in (result, kfree_page left))
lookup-look_for_example =
    lookup-look_for fs dir disk 1 answers dir-Mapped (omega arith) (omega arith) (omega arith)
      entries (codes "c") 5 entries-Listing (omega arith)

listed_run : readdir fs dir 12 2 ≡ (listed 12 1 (codes "c"), 32, 2)
unfolding readdir readdir_loop load block_map read_block bytes_from dirent_at
listed_run = refl
