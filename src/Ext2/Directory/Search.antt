-- ===== src/Ext2/Directory/Search.antt =====
-- What `ext2_lookup` and `ext2_readdir` find in a well-formed directory.
use Prim.Native.Nat.{◌*◌, ◌^◌}
use mathlib.Core.List.{List-discrete}
use native.Mathlib.Nat.{mod-eq_of_lt, div-lt_iff_lt-mul}
use jeos.Prelude.{
  ℕ, zero, suc, ◌+◌, ◌-◌, ◌/◌, ◌%◌, ◌≤◌, ◌<◌, ◌≡◌, ◌≢◌, refl, ap, subst, ℕ_discrete, true, false,
  some, List, [], ◌∷◌, length, ltb, lt→ltb, leb, ◌==◌, if◌then◌else◌, arith,
}
use jeos.Ext2.{Bytes, Priv, DiskInode, kalloc_page, kfree_page, fresh_page, bytes_of}
use jeos.Ext2.Files.{no_block, load}
use jeos.Ext2.Files.Loading.{Answers, Mapped, file_byte, Cached, load-Cached}
use jeos.Ext2.Files.Reading.{length-bytes_from}
use jeos.Ext2.Directory.{
  Dirent, dirent_at, same_name, is_match, Found, no_entry, make_found, lookup_loop, lookup, Listed,
  listed, at_end, readdir_loop, readdir,
}
use jeos.Ext2.Directory.Entries.{Listing, dirent_at-Cached}

-- The first entry in use with the name that is looked for.
unfoldable pub look_for : Priv → (name : Bytes) → List Dirent → (pages : ℕ) → Found × ℕ
look_for p name [] pages = (no_entry, pages)
look_for p name (de ∷ rest) pages =
    let later = look_for p name rest pages in
    elim (ℕ_discrete de.inode 0) [
      | yes unused ↦ later
      | no used ↦ elim (List-discrete ℕ_discrete de.name name) [
        | yes same ↦ make_found p de.inode pages
        | no other ↦ later
      ]
    ]

same_name_refl : (s : Bytes) → same_name s s ≡ true
unfolding same_name
same_name_refl [] = refl
same_name_refl (x ∷ s) = ground (arith, same_name_refl s)

same_name_sound : (r s : Bytes) → length r ≡ length s → same_name r s ≡ true → r ≡ s
unfolding same_name
same_name_sound [] [] l e = refl
same_name_sound [] (y ∷ s) l e = absurd (omega arith)
same_name_sound (x ∷ r) [] l e = absurd (omega arith)
same_name_sound (x ∷ r) (y ∷ s) l e = ground (arith, same_name_sound r s)

-- The test of the code is the test of `look_for`.
is_match_dec :
    (name : Bytes) (de : Dirent) {A : Type 0} (x y : A)
    → length de.name ≡ de.name_len
    → (if is_match name de then x else y) ≡ elim (ℕ_discrete de.inode 0) [
      | yes unused ↦ y
      | no used ↦ elim (List-discrete ℕ_discrete de.name name) [ yes same ↦ x | no other ↦ y ]
    ]
is_match_dec name de x y size =
    elim (ℕ_discrete de.inode 0)
      as (λ d. (if is_match name de then x else y) ≡ elim d [
        | yes unused ↦ y
        | no used ↦ elim (List-discrete ℕ_discrete de.name name) [ yes same ↦ x | no other ↦ y ]
      ]) [
        | yes unused ↦ ground arith
        | no used ↦
            elim (List-discrete ℕ_discrete de.name name)
              as (λ d.
                (if is_match name de then x else y) ≡ elim d [ yes same ↦ x | no other ↦ y ]) [
                  | yes same ↦
                      let test : same_name de.name name ≡ true =
                        subst (λ r. same_name de.name r ≡ true) same (same_name_refl de.name) in
                      ground (arith, test, ap length same)
                  | no other ↦ ground (arith, same_name_sound de.name name)
                ]
      ]

length-name : (f : ℕ → ℕ) (i : ℕ) (de : Dirent) → dirent_at f i ≡ de → length de.name ≡ de.name_len
unfolding dirent_at
length-name f i de entry =
    subst (λ d. length d.name ≡ d.name_len) entry (length-bytes_from f (i + 8) (f (i + 6)))

-- The first entry in use, and the position behind it.
unfoldable pub next_live : List Dirent → (offset pos : ℕ) → Listed × ℕ
next_live [] offset pos = (at_end, pos)
next_live (de ∷ rest) offset pos =
    let later = next_live rest (offset + de.rec_len) pos in
    if de.inode == 0 then later else (listed de.inode de.file_type de.name, offset + de.rec_len)

module _ (p : Priv) (ei : DiskInode) (disk : (blk i : ℕ) → ℕ) (blocks : ℕ)
    (answers : Answers p disk) (mapped : Mapped p ei blocks) (pos : 0 < p.block_size)
    (size : ei.size_low ≤ blocks * p.block_size) (small : ei.size_low + p.block_size < 2 ^ 32) where
  -- One round over the entry `de` at `offset`: the block is there, and the entry is read from it.
  entry_read :
      (offset cur_blk : ℕ) (buf : Bytes) (pages : ℕ) (de : Dirent)
      → offset < ei.size_low
      → dirent_at (file_byte p ei disk) offset ≡ de
      → 8 + de.name_len ≤ de.rec_len
      → offset % p.block_size + de.rec_len ≤ p.block_size
      → 0 < pages
      → (cur_blk ≢ no_block → Cached p ei disk cur_blk buf)
      → (read : Bytes) × (load p ei (offset / p.block_size) cur_blk buf pages ≡ (some read, pages))
        × (dirent_at (bytes_of read) (offset % p.block_size) ≡ de)
        × ((offset + de.rec_len) % 2 ^ 32 ≡ offset + de.rec_len)
        × Cached p ei disk (offset / p.block_size) read
  entry_read offset cur_blk buf pages de inside entry long fits free cached =
      let bs = p.block_size in
      let lbn_lt = (div-lt_iff_lt-mul {k = bs} {x = offset} {y = blocks} pos).1 (omega arith) in
      let (read, loaded, held) =
        load-Cached p ei disk blocks answers mapped (offset / bs) cur_blk buf pages lbn_lt free
          cached in
      (
        read,
        loaded,
        dirent_at-Cached p ei disk offset read de pos held entry long fits,
        mod-eq_of_lt (omega arith),
        held,
      )

  lookup_loop-look_for :
      (k : ℕ) (ds : List Dirent) (name : Bytes) (offset cur_blk : ℕ) (buf : Bytes) (pages : ℕ)
      → Listing p.block_size ei.size_low (file_byte p ei disk) offset ds
      → ei.size_low ≤ offset + 8 * k
      → 0 < pages
      → (cur_blk ≢ no_block → Cached p ei disk cur_blk buf)
      → lookup_loop k p ei name offset cur_blk buf pages ≡ look_for p name ds pages
  unfolding lookup_loop look_for Listing
  lookup_loop-look_for zero [] name offset cur_blk buf pages entries enough free cached = refl
  lookup_loop-look_for (suc k) [] name offset cur_blk buf pages entries enough free cached =
      ground arith
  lookup_loop-look_for zero (de ∷ ds) name offset cur_blk buf pages (inside, _, _, _, _) enough free
        cached =
      absurd (omega arith)
  lookup_loop-look_for (suc k) (de ∷ ds) name offset cur_blk buf pages
        (inside, entry, long, fits, rest) enough free cached =
      let (read, loaded, here, next, held) =
        entry_read offset cur_blk buf pages de inside entry long fits free cached in
      let later =
        lookup_loop-look_for k ds name (offset + de.rec_len) (offset / p.block_size) read pages rest
          (omega arith) free (λ _. held) in
      let whole : ltb de.rec_len 8 ≡ false = ground arith in
      rw (lt→ltb offset ei.size_low inside, loaded, loaded, here, next, later, whole)
        (is_match_dec name de (make_found p de.inode pages) (look_for p name ds pages)
          (length-name (file_byte p ei disk) offset de entry))

  readdir_loop-next_live :
      (k : ℕ) (ds : List Dirent) (start offset cur_blk : ℕ) (buf : Bytes) (pages : ℕ)
      → Listing p.block_size ei.size_low (file_byte p ei disk) offset ds
      → ei.size_low ≤ offset + 8 * k
      → 0 < pages
      → (cur_blk ≢ no_block → Cached p ei disk cur_blk buf)
      → readdir_loop k p ei start offset cur_blk buf pages
        ≡ (let (result, pos') = next_live ds offset start in (result, pos', pages))
  unfolding readdir_loop next_live Listing
  readdir_loop-next_live zero [] start offset cur_blk buf pages entries enough free cached = refl
  readdir_loop-next_live (suc k) [] start offset cur_blk buf pages entries enough free cached =
      ground arith
  readdir_loop-next_live zero (de ∷ ds) start offset cur_blk buf pages (inside, _, _, _, _) enough
        free cached =
      absurd (omega arith)
  readdir_loop-next_live (suc k) (de ∷ ds) start offset cur_blk buf pages
        (inside, entry, long, fits, rest) enough free cached =
      let (read, loaded, here, next, held) =
        entry_read offset cur_blk buf pages de inside entry long fits free cached in
      let later =
        readdir_loop-next_live k ds start (offset + de.rec_len) (offset / p.block_size) read pages
          rest (omega arith) free (λ _. held) in
      let whole : ltb de.rec_len 8 ≡ false = ground arith in
      rw (lt→ltb offset ei.size_low inside, loaded, loaded, here, next, later, whole) (ground arith)

  -- In a well-formed directory, on a device that answers and with two pages free, `ext2_lookup` makes
  -- the inode of the first entry in use that has the name, and finds nothing exactly when there is none;
  -- the page of its buffer is given back.
  pub lookup-look_for :
      (ds : List Dirent) (name : Bytes) (pages : ℕ)
      → Listing p.block_size ei.size_low (file_byte p ei disk) 0 ds
      → 1 < pages
      → lookup p ei name pages
        ≡ (let (result, left) = look_for p name ds (pages - 1) in (result, kfree_page left))
  unfolding lookup
  lookup-look_for ds name pages entries free =
      let page : kalloc_page pages ≡ some (pages - 1) = ground arith in
      let run =
        lookup_loop-look_for (ei.size_low / 8 + 1) ds name 0 no_block fresh_page (pages - 1) entries
          (omega arith) (omega arith) (λ q. absurd (q refl)) in
      rw (lookup, page, run)

  -- From the position of an entry on, `ext2_readdir` returns the first entry in use and moves behind it;
  -- at the end it returns VFS_ENOENT and leaves the position; the pages are as before.
  pub readdir-next_live :
      (ds : List Dirent) (offset pages : ℕ)
      → Listing p.block_size ei.size_low (file_byte p ei disk) offset ds
      → 1 < pages
      → readdir p ei offset pages
        ≡ (let (result, pos') = next_live ds offset offset in (result, pos', pages))
  unfolding readdir Listing next_live
  readdir-next_live [] offset pages entries free = ground arith
  readdir-next_live (de ∷ ds) offset pages entries free =
      let page : kalloc_page pages ≡ some (pages - 1) = ground arith in
      let before : leb ei.size_low offset ≡ false = ground (arith, entries.0) in
      let run =
        readdir_loop-next_live (ei.size_low / 8 + 1) (de ∷ ds) offset offset no_block fresh_page
          (pages - 1) entries (omega arith) (omega arith) (λ q. absurd (q refl)) in
      rw (before, page, run)
        (ap (λ k. ((next_live (de ∷ ds) offset offset).0, (next_live (de ∷ ds) offset offset).1, k))
          {y = pages} (omega arith))
