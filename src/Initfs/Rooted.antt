-- ===== src/Initfs/Rooted.antt =====
-- The file system of kernel/initfs.c as the only mount of kernel/vfs.c.

use jeos.Prelude.{
  ℕ, ◌≡◌, ◌≢◌, refl, ap, ◌∙◌, true, false, ◌&&◌, Bool, List, [], ◌∷◌, ◌==◌, if◌then◌else◌, arith,
}
use jeos.Vfs.{Vfs, Disk, Dentry, put_at, set_dentry, is_dir, mount_on}
use jeos.Vfs.Lookup.{path_start}
use jeos.Vfs.Kept.{put_at-other}
use jeos.Initfs.{Dirs}
use jeos.Initfs.Driver.{dir_iops, new_page, make_inode}

-- The root is the only mount, its dentry the directory with the inode `i` of this file system.
pub record IsRooted (v : Vfs Dirs) (i : ℕ) : Type 0 where
  pub some_mnt : v.root_mnt ≢ 0
  pub some_dent : v.root_dent ≢ 0
  pub alone : v.mounts ≡ v.root_mnt ∷ []
  pub on_top : (v.mount_at v.root_mnt).mountpoint ≡ 0
  pub inode : (v.dentries v.root_dent).inode ≡ i
  pub dir : is_dir i v ≡ true
  pub iops : (v.disk.inodes i).iops ≡ dir_iops

no_overlay : (b : Bool) (x y : ℕ × ℕ) → ◌≡◌ {A = ℕ × ℕ} (if b && false then x else y) y
no_overlay true x y = refl
no_overlay false x y = refl

pub path_start-root :
    (v : Vfs Dirs) (i : ℕ) → IsRooted v i → path_start v ≡ (v.root_mnt, v.root_dent)
unfolding mount_on
path_start-root v i r =
    let off : (0 == v.root_dent) ≡ false = ground (arith, r.some_dent) in
    let none_on : mount_on v.root_dent v.mounts v ≡ 0 =
      ap (λ ms. mount_on v.root_dent ms v) r.alone ∙ rw (mount_on, r.on_top, off) refl in
    rw none_on (no_overlay (v.dentries v.root_dent).is_mountpoint (0, (v.mount_at 0).root) _)

pub make_inode-given :
    (sb ino p : ℕ) (ps : List ℕ) (disk : Disk Dirs)
    → disk.pages ≡ p ∷ ps
    → p ≢ 0
    → make_inode sb ino disk ≡ (
      p,
      record disk {
        pages = ps;
        inodes =
            put_at p
              (record { ino = ino; mode = 0x41ED; refcnt = 1; sb = sb; iops = dir_iops; fops = 0 })
              disk.inodes;
      },
    )
unfolding make_inode new_page
make_inode-given sb ino p ps disk pages some_p =
    let given : (p == 0) ≡ false = ground (arith, some_p) in rw (make_inode, pages, given) refl

-- The root stays when another dentry or another inode is written.
pub set_dentry-IsRooted :
    (d i : ℕ) (e : Dentry) (v : Vfs Dirs)
    → d ≢ v.root_dent
    → IsRooted v i
    → IsRooted (set_dentry d e v) i
set_dentry-IsRooted d i e v other r = record {
  some_mnt = r.some_mnt;
  some_dent = r.some_dent;
  alone = r.alone;
  on_top = r.on_top;
  inode = ap (λ (t : Dentry). t.inode) (put_at-other d v.root_dent e v.dentries other) ∙ r.inode;
  dir = r.dir;
  iops = r.iops;
}

pub disk-IsRooted :
    (i : ℕ) (disk : Disk Dirs) (v : Vfs Dirs)
    → disk.inodes i ≡ v.disk.inodes i
    → IsRooted v i
    → IsRooted (record v { disk = disk }) i
disk-IsRooted i disk v same r = record {
  some_mnt = r.some_mnt;
  some_dent = r.some_dent;
  alone = r.alone;
  on_top = r.on_top;
  inode = r.inode;
  dir = rw same r.dir;
  iops = rw same r.iops;
}

-- An inode of this file system is a directory.
pub is_dir-made :
    {S : Type 0} (i : ℕ) (v : Vfs S) → i ≢ 0 → (v.disk.inodes i).mode ≡ 0x41ED → is_dir i v ≡ true
is_dir-made i v some_i mode =
    let given : (i == 0) ≡ false = ground (arith, some_i) in rw (given, mode) refl
