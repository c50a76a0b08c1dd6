-- ===== src/Initfs/Booting.antt =====
-- The first mount of the root: vfs_mount of kernel/vfs.c with the file system of kernel/initfs.c.

use jeos.Prelude.{ℕ, ◌≡◌, ◌≢◌, refl, ap, true, false, List, [], ◌∷◌, ◌==◌, arith}
use jeos.Vfs.{Vfs, Inode, Disk, Dentry, Mount, put_at, take_page}
use jeos.Vfs.Calls.{find_fs, add_mount, mount_super, mount_on_dentry, vfs_mount}
use jeos.Vfs.Kept.{put_at-same}
use jeos.Initfs.{Dirs}
use jeos.Initfs.Driver.{dir_iops, new_page, mount_root, initfs}
use jeos.Initfs.Rooted.{IsRooted, make_inode-given, is_dir-made}

module _ (sb i d m : ℕ) (ps : List ℕ) (v : Vfs Dirs) (some_sb : sb ≢ 0) (some_i : i ≢ 0)
    (some_d : d ≢ 0) (some_m : m ≢ 0) where
  abbrev root_inode : Inode
  root_inode = record { ino = 1; mode = 0x41ED; refcnt = 1; sb = sb; iops = dir_iops; fops = 0 }

  abbrev root_dentry : Dentry
  root_dentry = record { refcnt = 1; name = 47 ∷ []; inode = i; parent = 0; is_mountpoint = false }

  abbrev root_disk : (pages : List ℕ) → Disk Dirs
  root_disk pages = record v.disk { pages = pages; inodes = put_at i root_inode v.disk.inodes }

  mount_root-given :
      mount_root sb (record v.disk { pages = i ∷ d ∷ m ∷ ps })
      ≡ ((0, d, root_dentry), root_disk (m ∷ ps))
  unfolding mount_root new_page
  mount_root-given =
      let made =
        make_inode-given sb 1 i (d ∷ m ∷ ps) (record v.disk { pages = i ∷ d ∷ m ∷ ps }) refl
          some_i in
      let given : (i == 0) ≡ false = ground (arith, some_i) in
      let there : (d == 0) ≡ false = ground (arith, some_d) in
      rw (mount_root, made, given, there) refl

  -- The state behind the file system's `mount`.
  abbrev with_super : (t flags : ℕ) → Vfs Dirs
  with_super t flags = record v {
    disk = root_disk (m ∷ ps);
    supers = put_at sb (record { flags = flags; refcnt = 1; fs_type = t; root = d }) v.supers;
    dentries = put_at d root_dentry v.dentries;
  }

  abbrev with_root : (t flags : ℕ) → Vfs Dirs
  with_root t flags = add_mount sb d flags 0 m (record (with_super t flags) { disk = root_disk ps })

  mount_super-given :
      (t flags : ℕ)
      → mount_super initfs t sb 0 flags 0 (with_super t flags) ≡ (0, with_root t flags)
  unfolding mount_super take_page
  mount_super-given t flags =
      let there : (d == 0) ≡ false = ground (arith, some_d) in
      let given : (i == 0) ≡ false = ground (arith, some_i) in
      let made : (m == 0) ≡ false = ground (arith, some_m) in
      rw
        (
          mount_super,
          put_at-same sb _ v.supers,
          there,
          put_at-same d root_dentry v.dentries,
          given,
          made,
        )
        refl

  mount_on_dentry-given :
      (t device flags : ℕ) (opts : List ℕ)
      → v.disk.pages ≡ sb ∷ i ∷ d ∷ m ∷ ps
      → mount_on_dentry initfs t device flags opts 0 v ≡ (0, with_root t flags)
  unfolding mount_on_dentry take_page
  mount_on_dentry-given t device flags opts pages =
      let given : (sb == 0) ≡ false = ground (arith, some_sb) in
      let there : (d == 0) ≡ false = ground (arith, some_d) in
      rw (mount_on_dentry, pages, given, mount_root-given, there) (mount_super-given t flags)

  with_root-IsRooted : (t flags : ℕ) → v.mounts ≡ [] → IsRooted (with_root t flags) i
  unfolding add_mount
  with_root-IsRooted t flags alone = record {
    some_mnt = some_m;
    some_dent = some_d;
    alone = ap (λ ms. m ∷ ms) alone;
    on_top = ap (λ (n : Mount). n.mountpoint) (put_at-same m _ v.mount_at);
    inode = ap (λ (e : Dentry). e.inode) (put_at-same d root_dentry v.dentries);
    dir =
        is_dir-made i (with_root t flags) some_i
          (ap (λ (n : Inode). n.mode) (put_at-same i root_inode v.disk.inodes));
    iops = ap (λ (n : Inode). n.iops) (put_at-same i root_inode v.disk.inodes);
  }

-- The first `vfs_mount` of this file system on "/" makes it the root: it returns 0, the root is the only
-- mount and its dentry a directory of this file system, which keeps its directories. When the type is
-- registered, nothing is mounted and no root is set, and four pages are left.
pub vfs_mount-IsRooted :
    (name : List ℕ) (device flags : ℕ) (opts : List ℕ) (sb i d m : ℕ) (ps : List ℕ) (v : Vfs Dirs)
    → find_fs name v.fs_types v ≢ 0
    → v.root_mnt ≡ 0
    → v.mounts ≡ []
    → v.disk.pages ≡ sb ∷ i ∷ d ∷ m ∷ ps
    → sb ≢ 0
    → i ≢ 0
    → d ≢ 0
    → m ≢ 0
    → let (code, w) = vfs_mount initfs name device (47 ∷ []) flags opts v in
      (code ≡ 0)
      × IsRooted w i
      × (w.root_dent ≡ d)
      × (w.disk.own ≡ v.disk.own)
      × (w.disk.pages ≡ ps)
unfolding vfs_mount add_mount
vfs_mount-IsRooted name device flags opts sb i d m ps v known unset alone pages some_sb some_i
      some_d some_m =
    let t = find_fs name v.fs_types v in
    let on =
      mount_on_dentry-given sb i d m ps v some_sb some_i some_d some_m t device flags opts pages in
    let known' : (t == 0) ≡ false = ground (arith, known) in
    let first_one : (v.root_mnt == 0) ≡ true = ground (arith, unset) in
    rw (vfs_mount, known', first_one, on)
      (
        refl,
        with_root-IsRooted sb i d m ps v some_sb some_i some_d some_m t flags alone,
        refl,
        refl,
        refl,
      )
