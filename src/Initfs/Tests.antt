-- ===== src/Initfs/Tests.antt =====
-- Runs of the root file system.
use jeos.Prelude.{ℕ, ◌≢◌, ◌≡◌, refl, true, false, none, some, List, [], ◌∷◌, length, codes, arith}
use jeos.Path.{kstrcmp, compare_bytes}
use jeos.Devices.{eexist}
use jeos.Path.Compare.{IsString}
use jeos.Initfs.Directories.{AllDirs}
use jeos.Path.{vfs_comp_eq, kstrlen, string_length, same_bytes}
use jeos.Path.Compare.{NoNul}
use jeos.Path.Walk.{extend, split, nonempty}
use jeos.Vfs.{Vfs, is_dir}
use jeos.Vfs.Lookup.{found, vfs_lookup}
use jeos.Vfs.Calls.{find_fs, vfs_mount}
use jeos.Vfs.Files.{vfs_mkdir}
use jeos.Initfs.Driver.{initfs, no_dentry}
use jeos.Initfs.Rooted.{IsRooted}
use jeos.Initfs.Booting.{vfs_mount-IsRooted}
use jeos.Initfs.Mounted.{vfs_mkdir-lookup}
use jeos.Initfs.{Dir, Dirs, find_dir, fill_dir, mkdir, make_dir}

abbrev free_slot : Dir
free_slot = record { name = []; name_len = 0; in_use = false; ino = 0 }

abbrev dev : Dir
dev = record { name = codes "dev"; name_len = 3; in_use = true; ino = 2 }

abbrev empty : Dirs
empty = record { dirs = free_slot ∷ free_slot ∷ []; next_ino = 2 }

made : (mkdir (codes "dev") true empty).2 ≡ record { dirs = dev ∷ free_slot ∷ []; next_ino = 3 }
unfolding mkdir find_dir fill_dir make_dir
made = refl

-- A second attempt, after one without memory, finds the directory there.
kept : (mkdir (codes "dev") true (mkdir (codes "dev") false empty).2).0 ≡ eexist
unfolding mkdir find_dir fill_dir make_dir kstrcmp compare_bytes
kept = refl

dev-IsString : IsString (codes "dev")
unfolding IsString
dev-IsString = ground arith

empty-AllDirs : AllDirs empty.dirs
unfolding AllDirs
empty-AllDirs = ground arith

not_there : find_dir (codes "dev") empty.dirs ≡ none
unfolding find_dir kstrcmp compare_bytes
not_there = refl

filled : fill_dir dev empty.dirs ≡ some (dev ∷ free_slot ∷ [])
unfolding fill_dir
filled = refl

-- The boot: the type is registered, and eight pages are left.
abbrev cold : Vfs Dirs
cold = record {
  disk = record {
    inodes = λ i. record { ino = 0; mode = 0; refcnt = 0; sb = 0; iops = 0; fops = 0 };
    pages = 1000 ∷ 1001 ∷ 1002 ∷ 1003 ∷ 1004 ∷ 1005 ∷ 1006 ∷ 1007 ∷ [];
    freed = [];
    own = empty;
  };
  dentries = λ d. no_dentry;
  supers = λ s. record { flags = 0; refcnt = 0; fs_type = 0; root = 0 };
  types = λ t. record { name = some (codes "initfs"); mounts = true };
  fs_types = 300 ∷ [];
  mount_at = λ m. record { flags = 0; refcnt = 0; sb = 0; mountpoint = 0; root = 0 };
  mounts = [];
  root_mnt = 0;
  root_dent = 0;
  files = λ f. record { refcnt = 0; flags = 0; pos = 0; inode = 0; fops = 0 };
}

known : find_fs (codes "initfs") cold.fs_types cold ≢ 0
unfolding find_fs kstrcmp compare_bytes
known = omega arith

up_root : Vfs Dirs
up_root = (vfs_mount initfs (codes "initfs") 0 (47 ∷ []) 0 [] cold).1

vfs_mount-IsRooted_example :
    let (code, w) = vfs_mount initfs (codes "initfs") 0 (47 ∷ []) 0 [] cold in
    (code ≡ 0)
    × IsRooted w 1001
    × (w.root_dent ≡ 1002)
    × (w.disk.own ≡ empty)
    × (w.disk.pages ≡ 1004 ∷ 1005 ∷ 1006 ∷ 1007 ∷ [])
vfs_mount-IsRooted_example =
    vfs_mount-IsRooted (codes "initfs") 0 0 [] 1000 1001 1002 1003 (1004 ∷ 1005 ∷ 1006 ∷ 1007 ∷ [])
      cold known refl refl refl (omega arith) (omega arith) (omega arith) (omega arith)

up :
    IsRooted up_root 1001
    × (up_root.root_dent ≡ 1002)
    × (up_root.disk.own ≡ empty)
    × (up_root.disk.pages ≡ 1004 ∷ 1005 ∷ 1006 ∷ 1007 ∷ [])
unfolding up_root
up =
    let (code, rooted, dent, own, pages) =
      vfs_mount-IsRooted (codes "initfs") 0 0 [] 1000 1001 1002 1003
        (1004 ∷ 1005 ∷ 1006 ∷ 1007 ∷ []) cold known refl refl refl (omega arith) (omega arith)
        (omega arith) (omega arith) in
    (rooted, dent, own, pages)

abbrev dev_path : List ℕ
dev_path = codes "/dev"

dev_path-NoNul : NoNul dev_path
dev_path-NoNul = unfold NoNul in ground arith

one_name : nonempty (split dev_path) ≡ codes "dev" ∷ []
unfolding nonempty split extend
one_name = refl

not_dot : vfs_comp_eq (codes "dev") (length (codes "dev")) (46 ∷ []) ≡ false
unfolding vfs_comp_eq kstrlen string_length same_bytes
not_dot = refl

not_dots : vfs_comp_eq (codes "dev") (length (codes "dev")) (46 ∷ 46 ∷ []) ≡ false
unfolding vfs_comp_eq kstrlen string_length same_bytes
not_dots = refl

up_AllDirs : AllDirs up_root.disk.own.dirs
up_AllDirs = rw (up.2) empty-AllDirs

other_dentry : 1004 ≢ up_root.root_dent
other_dentry = rw (up.1) (omega arith)

up_absent : find_dir (codes "dev") up_root.disk.own.dirs ≡ none
up_absent = rw (up.2) not_there

up_filled :
    fill_dir
      (record { name = codes "dev"; name_len = 3; in_use = true; ino = up_root.disk.own.next_ino })
      up_root.disk.own.dirs
    ≡ some (dev ∷ free_slot ∷ [])
up_filled = rw (up.2) filled

-- mkdir of "/dev", and a look-up of it.
vfs_mkdir-lookup_example :
    let (code, w) = vfs_mkdir initfs dev_path 0 up_root in
    let (at, u) = vfs_lookup initfs dev_path w in
    (code ≡ 0)
    × (at ≡ found up_root.root_mnt 1006)
    × ((u.dentries 1006).inode ≡ 1007)
    × ((u.disk.inodes 1007).ino ≡ up_root.disk.own.next_ino)
    × (is_dir 1007 u ≡ true)
vfs_mkdir-lookup_example =
    vfs_mkdir-lookup dev_path (codes "dev") 0 1001 1004 1005 1006 1007 [] (dev ∷ free_slot ∷ [])
      up_root dev_path-NoNul one_name dev-IsString (omega arith) (omega arith) not_dot not_dots up.0
      up_AllDirs up.3 (omega arith) (omega arith) (omega arith) (omega arith) other_dentry
      (omega arith) up_absent up_filled
