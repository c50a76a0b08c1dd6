-- ===== src/Initfs/Mounted.antt =====
-- The file system of kernel/initfs.c under kernel/vfs.c: a directory that vfs_mkdir makes is what
-- vfs_lookup resolves its path to.

use jeos.Prelude.{
  ℕ, ◌<◌, ◌≡◌, ◌≢◌, refl, ap, ap₂, ◌∙◌, true, false, none, some, List, [], ◌∷◌, length, take,
  take-length, ◌==◌, arith,
}
use jeos.Path.{vfs_comp_eq}
use jeos.Path.Compare.{NoNul, IsString}
use jeos.Path.Walk.{split, nonempty}
use jeos.Vfs.{Vfs, Inode, Disk, Dentry, put_at, set_dentry, is_dir, mount_over}
use jeos.Vfs.Lookup.{
  Located, failed, found, lookup_step, child_for, answered, enter_child, descend, vfs_lookup,
}
use jeos.Vfs.Files.{vfs_mkdir}
use jeos.Vfs.Walk.{walk, vfs_lookup-walk}
use jeos.Devices.Names.{same, same_iff}
use jeos.Vfs.Kept.{put_at-same, tmp_dentry-given}
use jeos.Initfs.{Dir, Dirs, find_dir, fill_dir}
use jeos.Initfs.Driver.{dir_iops, child_made, look_up, initfs}
use jeos.Initfs.Directories.{AllDirs, find_dir-fill_dir}
use jeos.Initfs.Rooted.{IsRooted, path_start-root, make_inode-given, is_dir-made}
use jeos.Initfs.Making.{vfs_mkdir-Made}

mount_over-alone :
    (m j : ℕ) (v : Vfs Dirs)
    → v.mounts ≡ m ∷ []
    → (v.mount_at m).mountpoint ≡ 0
    → mount_over j v.mounts v ≡ 0
unfolding mount_over
mount_over-alone m j v alone on_top =
    ap (λ ms. mount_over j ms v) alone ∙ rw (mount_over, on_top) refl

module _ (leaf : List ℕ) (i q q₂ : ℕ) (ps : List ℕ) (d : Dir) (v : Vfs Dirs) where
  abbrev found_disk : Disk Dirs
  found_disk = record v.disk {
    pages = ps;
    inodes =
        put_at q₂
          (record {
            ino = d.ino;
            mode = 0x41ED;
            refcnt = 1;
            sb = (v.disk.inodes i).sb;
            iops = dir_iops;
            fops = 0;
          })
          v.disk.inodes;
  }

  abbrev child_dentry : (inode : ℕ) → Dentry
  child_dentry j = record {
    refcnt = 1;
    name = take (length leaf) leaf;
    inode = j;
    parent = v.root_dent;
    is_mountpoint = false;
  }

  abbrev with_child : Vfs Dirs
  with_child =
      set_dentry q (child_dentry q₂)
        (set_dentry q (child_dentry 0) (record v { disk = found_disk }))

  look_up-given :
      q₂ ≢ 0
      → find_dir leaf v.disk.own.dirs ≡ some d
      → look_up i leaf (record v.disk { pages = q₂ ∷ ps }) ≡ ((0, q₂), found_disk)
  unfolding look_up
  look_up-given some₂ there =
      let given : (q₂ == 0) ≡ false = ground (arith, some₂) in
      let disk = record v.disk { pages = q₂ ∷ ps } in
      rw (look_up, there)
        (ap child_made (make_inode-given (v.disk.inodes i).sb d.ino q₂ ps disk refl some₂)
          ∙ rw given refl)

  abbrev before : Vfs Dirs
  before = set_dentry q (child_dentry 0) (record v { disk = record v.disk { pages = q₂ ∷ ps } })

  answered-given :
      IsRooted v i
      → q ≢ 0
      → q₂ ≢ 0
      → answered v.root_mnt v.root_dent q ((0, q₂), found_disk) before
        ≡ ((found v.root_mnt q, v.root_dent), with_child)
  unfolding answered enter_child
  answered-given r some_q some₂ =
      let given : (q == 0) ≡ false = ground (arith, some_q) in
      let made : (q₂ == 0) ≡ false = ground (arith, some₂) in
      let free : mount_over q₂ with_child.mounts with_child ≡ 0 =
        mount_over-alone v.root_mnt q₂ with_child r.alone r.on_top in
      rw (given, put_at-same q (child_dentry 0) v.dentries, made, free) refl

  child_for-given :
      IsRooted v i
      → q ≢ 0
      → q₂ ≢ 0
      → find_dir leaf v.disk.own.dirs ≡ some d
      → child_for initfs v.root_mnt v.root_dent leaf (q, before) v
        ≡ ((found v.root_mnt q, v.root_dent), with_child)
  unfolding child_for
  child_for-given r some_q some₂ there =
      rw
        (
          child_for,
          r.inode,
          r.dir,
          r.iops,
          r.inode,
          look_up-given some₂ there,
          answered-given r some_q some₂,
        )
        refl

  lookup_step-given :
      IsRooted v i
      → v.disk.pages ≡ q ∷ q₂ ∷ ps
      → q ≢ 0
      → q₂ ≢ 0
      → length leaf < 64
      → vfs_comp_eq leaf (length leaf) (46 ∷ []) ≡ false
      → vfs_comp_eq leaf (length leaf) (46 ∷ 46 ∷ []) ≡ false
      → find_dir leaf v.disk.own.dirs ≡ some d
      → lookup_step initfs v.root_mnt v.root_dent leaf (length leaf) v
        ≡ (found v.root_mnt q, with_child)
  unfolding lookup_step descend
  lookup_step-given r pages some_q some₂ short dot dots there =
      let temp =
        tmp_dentry-given leaf v.root_dent q (q₂ ∷ ps) v pages some_q (omega (arith, short)) in
      let here : (v.root_dent == v.root_dent) ≡ true = ground arith in
      let child =
        ap₂ (λ name t. child_for initfs v.root_mnt v.root_dent name t v) (take-length leaf) temp
        ∙ child_for-given r some_q some₂ there in
      rw (lookup_step, dot, dots) (ap descend child ∙ rw here refl)

same_self : (s : List ℕ) → same s s ≡ true
same_self s = ground (arith, same_iff s s)

-- The look-up of a path of one name is one step.
lookup_single :
    (path leaf : List ℕ) (v : Vfs Dirs) (i : ℕ)
    → NoNul path
    → nonempty (split path) ≡ leaf ∷ []
    → IsRooted v i
    → vfs_lookup initfs path v ≡ lookup_step initfs v.root_mnt v.root_dent leaf (length leaf) v
unfolding walk
lookup_single path leaf v i ok single r =
    vfs_lookup-walk initfs path v ok r.some_mnt r.some_dent
    ∙ ap₂ (λ cs (s : ℕ × ℕ). walk initfs cs s.0 s.1 v) single (path_start-root v i r)
    ∙ stays_one (lookup_step initfs v.root_mnt v.root_dent leaf (length leaf) v)
  where
    stays_one :
        (r : Located × Vfs Dirs)
        → ◌≡◌ {A = Located × Vfs Dirs}
            (elim r.0 [ failed rc ↦ (failed rc, r.1) | found m d ↦ (found m d, r.1) ])
            r
    stays_one (failed rc, u) = refl
    stays_one (found m d, u) = refl

-- A directory that `vfs_mkdir` makes in the root of this file system is what `vfs_lookup` resolves its
-- path to afterwards: the call returns 0, and the path leads to a dentry with a directory inode of the
-- next number. For any path of one name of less than 64 bytes, other than "." and "..", that was not
-- there, where a slot is free, the root is the only mount, and four pages are left of which none is in
-- use, the first two for the call and the others for the look-up.
pub vfs_mkdir-lookup :
    (path leaf : List ℕ) (mode i p₁ p₂ q q₂ : ℕ) (ps : List ℕ) (rest : List Dir) (v : Vfs Dirs)
    → NoNul path
    → nonempty (split path) ≡ leaf ∷ []
    → IsString leaf
    → length leaf ≢ 0
    → length leaf < 64
    → vfs_comp_eq leaf (length leaf) (46 ∷ []) ≡ false
    → vfs_comp_eq leaf (length leaf) (46 ∷ 46 ∷ []) ≡ false
    → IsRooted v i
    → AllDirs v.disk.own.dirs
    → v.disk.pages ≡ p₁ ∷ p₂ ∷ q ∷ q₂ ∷ ps
    → p₁ ≢ 0
    → p₂ ≢ 0
    → q ≢ 0
    → q₂ ≢ 0
    → p₁ ≢ v.root_dent
    → p₂ ≢ i
    → find_dir leaf v.disk.own.dirs ≡ none
    → fill_dir
        (record { name = leaf; name_len = length leaf; in_use = true; ino = v.disk.own.next_ino })
        v.disk.own.dirs
      ≡ some rest
    → let (code, w) = vfs_mkdir initfs path mode v in
      let (at, u) = vfs_lookup initfs path w in
      (code ≡ 0)
      × (at ≡ found v.root_mnt q)
      × ((u.dentries q).inode ≡ q₂)
      × ((u.disk.inodes q₂).ino ≡ v.disk.own.next_ino)
      × (is_dir q₂ u ≡ true)
vfs_mkdir-lookup path leaf mode i p₁ p₂ q q₂ ps rest v ok single is some_leaf short dot dots r all
      pages some₁ some₂ some_q some_q₂ other₁ other₂ absent filled =
    let made =
      vfs_mkdir-Made path leaf mode i p₁ p₂ (q ∷ q₂ ∷ ps) rest v ok single some_leaf short r pages
        some₁ some₂ other₁ other₂ absent filled in
    let w = (vfs_mkdir initfs path mode v).1 in
    let new : Dir = record {
      name = leaf;
      name_len = length leaf;
      in_use = true;
      ino = v.disk.own.next_ino;
    } in
    let there : find_dir leaf w.disk.own.dirs ≡ some new =
      ap (find_dir leaf) made.dirs
      ∙ find_dir-fill_dir new v.disk.own.dirs rest leaf all (λ _. (is, refl)) refl is is absent
          filled
      ∙ rw (same_self leaf) refl in
    let step =
      lookup_step-given leaf i q q₂ ps new w made.rooted made.pages some_q some_q₂ short dot dots
        there in
    let resolved = lookup_single path leaf w i ok single made.rooted ∙ step in
    rw resolved (
      made.code,
      ap (λ m. found m q) made.root_mnt,
      ap (λ (t : Dentry). t.inode) (put_at-same q (child_dentry leaf i q q₂ ps new w q₂) _),
      ap (λ (t : Inode). t.ino) (put_at-same q₂ _ _),
      is_dir-made q₂ (with_child leaf i q q₂ ps new w) some_q₂
          (ap (λ (t : Inode). t.mode) (put_at-same q₂ _ _)),
    )
