-- ===== src/Initfs/Making.antt =====
-- vfs_mkdir of kernel/vfs.c in the root of the file system of kernel/initfs.c.
use Prim.Native.Nat.{◌%◌, ◌^◌}
use jeos.Prelude.{
  ℕ, ◌+◌, ◌<◌, ◌≡◌, ◌≢◌, refl, ap, ◌∙◌, true, false, none, some, List, [], ◌∷◌, length, take, ◌==◌,
  arith,
}
use jeos.Path.Compare.{NoNul}
use jeos.Path.Walk.{split, nonempty}
use jeos.Vfs.{Vfs, Disk, Dentry, put_at, set_dentry}
use jeos.Vfs.Files.{make_leaf, leaf_place, place, vfs_mkdir}
use jeos.Vfs.Parent.{vfs_lookup_parent-single}
use jeos.Vfs.Kept.{put_at-same, put_at-other, tmp_dentry-given, dentry_put-child}
use jeos.Initfs.{Dir, Dirs, find_dir, fill_dir}
use jeos.Initfs.Driver.{dir_iops, child_made, make_directory, initfs}
use jeos.Initfs.Rooted.{
  IsRooted, path_start-root, make_inode-given, set_dentry-IsRooted, disk-IsRooted,
}

leaf_place-root :
    (path leaf : List ℕ) (v : Vfs Dirs) (i : ℕ)
    → NoNul path
    → nonempty (split path) ≡ leaf ∷ []
    → length leaf ≢ 0
    → IsRooted v i
    → leaf_place initfs path v ≡ (place i v.root_dent leaf, v)
unfolding leaf_place
leaf_place-root path leaf v i ok single some_leaf r =
    let parent = vfs_lookup_parent-single initfs path leaf v ok single r.some_mnt r.some_dent in
    let named : (length leaf == 0) ≡ false = ground (arith, some_leaf) in
    rw (leaf_place, parent, path_start-root v i r, parent, named, r.inode, r.dir) refl

-- What mkdir leaves.
pub record Made (v : Vfs Dirs) (i : ℕ) (ps : List ℕ) (rest : List Dir) (r : ℕ × Vfs Dirs)
    : Type 0 where
  pub code : r.0 ≡ 0
  pub root_mnt : r.1.root_mnt ≡ v.root_mnt
  pub rooted : IsRooted r.1 i
  pub pages : r.1.disk.pages ≡ ps
  pub dirs : r.1.disk.own.dirs ≡ rest

-- The slots behind a mkdir, the disk, and the state with the dentry of the new directory.
module _ (leaf : List ℕ) (i p₁ p₂ : ℕ) (ps : List ℕ) (rest : List Dir) (v : Vfs Dirs) where
  abbrev new_disk : Disk Dirs
  new_disk = record v.disk {
    pages = ps;
    inodes =
        put_at p₂
          (record {
            ino = v.disk.own.next_ino;
            mode = 0x41ED;
            refcnt = 1;
            sb = (v.disk.inodes i).sb;
            iops = dir_iops;
            fops = 0;
          })
          v.disk.inodes;
    own = record { dirs = rest; next_ino = (v.disk.own.next_ino + 1) % 2 ^ 32 };
  }

  abbrev temporary : (inode : ℕ) → Dentry
  temporary j = record {
    refcnt = 1;
    name = take (length leaf) leaf;
    inode = j;
    parent = v.root_dent;
    is_mountpoint = false;
  }

  abbrev Filled : Type 0
  Filled =
      fill_dir
        (record { name = leaf; name_len = length leaf; in_use = true; ino = v.disk.own.next_ino })
        v.disk.own.dirs
      ≡ some rest

  make_directory-given :
      (mode : ℕ)
      → p₂ ≢ 0
      → find_dir leaf v.disk.own.dirs ≡ none
      → Filled
      → make_directory i leaf mode (record v.disk { pages = p₂ ∷ ps }) ≡ ((0, p₂), new_disk)
  unfolding make_directory
  make_directory-given mode some₂ absent filled =
      let given : (p₂ == 0) ≡ false = ground (arith, some₂) in
      let own : Dirs = record { dirs = rest; next_ino = (v.disk.own.next_ino + 1) % 2 ^ 32 } in
      let disk = record v.disk { pages = p₂ ∷ ps; own = own } in
      rw (make_directory, absent, filled)
        (ap child_made
            (make_inode-given (v.disk.inodes i).sb v.disk.own.next_ino p₂ ps disk refl some₂)
          ∙ rw given refl)

  -- The state behind the call, before the dentry is put.
  abbrev with_leaf : Vfs Dirs
  with_leaf =
      set_dentry p₁ (temporary p₂) (set_dentry p₁ (temporary 0) (record v { disk = new_disk }))

  make_leaf-given :
      (mode : ℕ)
      → v.disk.pages ≡ p₁ ∷ p₂ ∷ ps
      → p₁ ≢ 0
      → p₂ ≢ 0
      → length leaf < 64
      → find_dir leaf v.disk.own.dirs ≡ none
      → Filled
      → make_leaf (some make_directory) i v.root_dent leaf mode v ≡ ((0, p₁, p₂), with_leaf)
  make_leaf-given mode pages some₁ some₂ short absent filled =
      let temp =
        tmp_dentry-given leaf v.root_dent p₁ (p₂ ∷ ps) v pages some₁ (omega (arith, short)) in
      let given : (p₁ == 0) ≡ false = ground (arith, some₁) in
      rw
        (
          temp,
          given,
          make_directory-given mode some₂ absent filled,
          put_at-same p₁ (temporary 0) v.dentries,
        )
        refl

  with_leaf-IsRooted : p₁ ≢ v.root_dent → p₂ ≢ i → IsRooted v i → IsRooted with_leaf i
  with_leaf-IsRooted other₁ other₂ r =
      let u = record v { disk = new_disk } in
      set_dentry-IsRooted p₁ i (temporary p₂) (set_dentry p₁ (temporary 0) u) other₁ (
        set_dentry-IsRooted p₁ i (temporary 0) u other₁
          (disk-IsRooted i new_disk v (put_at-other p₂ i _ v.disk.inodes other₂) r))

pub vfs_mkdir-Made :
    (path leaf : List ℕ) (mode i p₁ p₂ : ℕ) (ps : List ℕ) (rest : List Dir) (v : Vfs Dirs)
    → NoNul path
    → nonempty (split path) ≡ leaf ∷ []
    → length leaf ≢ 0
    → length leaf < 64
    → IsRooted v i
    → v.disk.pages ≡ p₁ ∷ p₂ ∷ ps
    → p₁ ≢ 0
    → p₂ ≢ 0
    → p₁ ≢ v.root_dent
    → p₂ ≢ i
    → find_dir leaf v.disk.own.dirs ≡ none
    → fill_dir
        (record { name = leaf; name_len = length leaf; in_use = true; ino = v.disk.own.next_ino })
        v.disk.own.dirs
      ≡ some rest
    → Made v i ps rest (vfs_mkdir initfs path mode v)
unfolding vfs_mkdir make_directory
vfs_mkdir-Made path leaf mode i p₁ p₂ ps rest v ok single some_leaf short r pages some₁ some₂ other₁
      other₂ absent filled =
    let at = leaf_place-root path leaf v i ok single some_leaf r in
    let made = make_leaf-given leaf i p₁ p₂ ps rest v mode pages some₁ some₂ short absent filled in
    let u = with_leaf leaf i p₁ p₂ ps rest v in
    let child : (u.dentries p₁).parent ≢ 0 =
      rw (put_at-same p₁ (temporary leaf i p₁ p₂ ps rest v p₂) _) r.some_dent in
    let put = dentry_put-child p₁ u some₁ child in
    rw (vfs_mkdir, at, at, r.iops, made, put)
      (record {
        code = refl;
        root_mnt = refl;
        rooted =
            set_dentry-IsRooted p₁ i _ u other₁
              (with_leaf-IsRooted leaf i p₁ p₂ ps rest v other₁ other₂ r);
        pages = refl;
        dirs = refl;
      })
