-- ===== src/Initfs.antt =====
-- The root file system in memory: kernel/initfs.c. A page for a new inode may be free or not.
pub mod Directories
pub mod Driver
pub mod Rooted
pub mod Making
pub mod Mounted
pub mod Booting
mod Tests
use Prim.Native.Nat.{◌^◌}
use jeos.Prelude.{
  ℕ, ◌+◌, ◌%◌, Bool, true, false, ◌&&◌, Option, none, some, List, [], ◌∷◌, length, ◌==◌,
  if◌then◌else◌,
}
use jeos.Path.{kstrcmp}
use jeos.Devices.{Code, ok, eexist, enomem, enoent}

-- `initfs_dir`; the name is the string in its buffer.
pub record Dir : Type 0 where
  pub name : List ℕ
  pub name_len : ℕ
  pub in_use : Bool
  pub ino : ℕ

-- `g_dirs` and `g_next_ino`.
pub record Dirs : Type 0 where
  pub dirs : List Dir
  pub next_ino : ℕ

-- The inode of a directory as `initfs_make_dir` fills it; `none` when no page is free.
pub record DirInode : Type 0 where
  pub ino : ℕ
  pub mode : ℕ
  pub refcnt : ℕ

unfoldable pub make_dir : (ino : ℕ) → (page_free : Bool) → Option DirInode
make_dir ino page_free =
    if page_free then some (record { ino = ino; mode = 16877; refcnt = 1 }) else none

-- The test of `initfs_lookup` and of `initfs_mkdir`, for the name of a dentry, and the loop with it.
abbrev pub has_name : List ℕ → Dir → Bool
has_name name d =
    d.in_use && ((d.name_len == length name) && (kstrcmp (some d.name) (some name) == 0))

unfoldable pub find_dir : List ℕ → List Dir → Option Dir
find_dir name [] = none
find_dir name (d ∷ dirs) =
    let later = find_dir name dirs in if has_name name d then some d else later

-- VFS_OK with the inode, or VFS_ENOMEM.
abbrev pub outcome : Option DirInode → Code × Option DirInode
outcome none = (enomem, none)
outcome (some inode) = (ok, some inode)

-- `initfs_lookup`.
unfoldable pub lookup_dir : List ℕ → (page_free : Bool) → Dirs → Code × Option DirInode
lookup_dir name page_free r = elim (find_dir name r.dirs) [
  | none ↦ (enoent, none)
  | some d ↦ outcome (make_dir d.ino page_free)
]

-- The loop of `initfs_mkdir` that fills the first free slot.
unfoldable pub fill_dir : Dir → List Dir → Option (List Dir)
fill_dir new [] = none
fill_dir new (d ∷ dirs) =
    let later = fill_dir new dirs in
    if d.in_use then elim later [ none ↦ none | some rest ↦ some (d ∷ rest) ] else some (new ∷ dirs)

-- `initfs_mkdir` of a name that fits its slot. Without a page for the inode the directory is there all
-- the same.
unfoldable pub mkdir : List ℕ → (page_free : Bool) → Dirs → Code × Option DirInode × Dirs
mkdir name page_free r =
    let new : Dir = record {
      name = name;
      name_len = length name % 2 ^ 16;
      in_use = true;
      ino = r.next_ino;
    } in
    elim (find_dir name r.dirs) [
      | some d ↦ (eexist, none, r)
      | none ↦ elim (fill_dir new r.dirs) [
        | none ↦ (enomem, none, r)
        | some dirs ↦
            let (code, inode) = outcome (make_dir r.next_ino page_free) in
            (code, inode, record { dirs = dirs; next_ino = (r.next_ino + 1) % 2 ^ 32 })
      ]
    ]
