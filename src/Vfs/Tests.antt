-- ===== src/Vfs/Tests.antt =====
-- Runs of the file system layer: a root directory with one directory in it, and a mount on that one.

use jeos.Prelude.{
  ℕ, ◌≡◌, ◌≢◌, refl, inl, inr, true, false, none, some, List, [], ◌∷◌, ◌==◌, if◌then◌else◌, length,
  codes, arith,
}
use jeos.Path.{
  first, string_length, kstrlen, kstrcmp, compare_bytes, same_bytes, vfs_comp_eq, skip_slashes,
  component_length, next_component,
}
use jeos.Path.Compare.{NoNul}
use jeos.Path.Walk.{split, nonempty}
use jeos.Vfs.{
  Inode, Dentry, Vfs, Tables, is_error, enoent, put_at, inode_get, inode_put, take_page, dentry_put,
  mount_on, mount_over,
}
use jeos.Vfs.Lookup.{
  Located, found, tmp_dentry, enter_child, answered, child_for, descend, lookup_step, path_loop,
  path_start, vfs_lookup,
}
use jeos.Vfs.Calls.{
  parent_at, parent_loop, vfs_lookup_parent, find_fs, register_fs, add_mount, mount_super,
  mount_on_dentry, mount_found, vfs_mount, take_mount, vfs_umount,
}
use jeos.Vfs.Files.{open_inode, put_file, leaf_place, vfs_open}
use jeos.Vfs.Walk.{walk, vfs_lookup-walk}
use jeos.Vfs.Parent.{at_leaf, vfs_lookup-parent}
use jeos.Vfs.Kept.{IsBare, IsUnstacked}
use jeos.Vfs.Covering.{next_page, vfs_umount-fails}
use jeos.Vfs.Registry.{IsDistinct, registers, unregisters, changes, changes-IsDistinct}
use jeos.Vfs.Entering.{vfs_mount-enter}

abbrev target : List ℕ
target = codes "/mnt"

abbrev directory : (ino : ℕ) → Inode
directory n = record { ino = n; mode = 0x41ED; refcnt = 1; sb = 200; iops = 5; fops = 0 }

abbrev no_dentry : Dentry
no_dentry = record { refcnt = 0; name = []; inode = 0; parent = 0; is_mountpoint = false }

-- The root directory has the inode 10, and in it `mnt` has the inode 11.
abbrev tables : Tables Unit
tables = record {
  lookup = λ t.
      some (λ dir name disk. if first name == 109 then ((0, 11), disk) else ((enoent, 0), disk));
  create = λ t. none;
  mkdir = λ t. none;
  unlink = λ t. none;
  getattr = λ t. none;
  open_file = λ t. none;
  read = λ t. none;
  write = λ t. none;
  llseek = λ t. none;
  mount = λ t sb device opts disk. ((0, 2, record no_dentry { refcnt = 1; inode = 20 }), disk);
  unmount = λ t. none;
}

abbrev rooted : Vfs Unit
rooted = record {
  disk = record {
    inodes = directory;
    pages = 1000 ∷ 1001 ∷ 1002 ∷ 1003 ∷ 1004 ∷ [];
    freed = [];
    own = tt;
  };
  dentries = λ d. if d == 1 then record no_dentry { refcnt = 1; inode = 10 } else no_dentry;
  supers = λ s. record { flags = 0; refcnt = 1; fs_type = 300; root = 1 };
  types = λ t. record { name = some (codes "ext2"); mounts = true };
  fs_types = 300 ∷ [];
  mount_at = λ m. record { flags = 0; refcnt = 1; sb = 200; mountpoint = 0; root = 1 };
  mounts = 100 ∷ [];
  root_mnt = 100;
  root_dent = 1;
  files = λ f. record { refcnt = 0; flags = 0; pos = 0; inode = 0; fops = 0 };
}

plain : NoNul target
plain = unfold NoNul in ground arith

resolved : Located × Vfs Unit
unfolding vfs_lookup
resolved = vfs_lookup tables target rooted

resolved-dentry : vfs_lookup tables target rooted ≡ (found 100 1000, resolved.1)
unfolding resolved vfs_lookup mount_on path_loop skip_slashes next_component component_length
    lookup_step vfs_comp_eq kstrlen string_length same_bytes child_for answered enter_child descend
    tmp_dentry take_page mount_over put_at dentry_put
resolved-dentry = refl

mounted : ℕ × Vfs Unit
unfolding vfs_mount
mounted = vfs_mount tables (codes "ext2") 0 target 0 [] rooted

mounted_ok : vfs_mount tables (codes "ext2") 0 target 0 [] rooted ≡ (0, mounted.1)
unfolding mounted vfs_mount find_fs kstrcmp compare_bytes mount_found mount_on_dentry mount_super
    add_mount vfs_lookup mount_on path_loop skip_slashes next_component component_length lookup_step
    vfs_comp_eq kstrlen string_length same_bytes child_for answered enter_child descend tmp_dentry
    take_page mount_over put_at dentry_put
mounted_ok = refl

vfs_lookup-walk_example :
    vfs_lookup tables target rooted
    ≡ walk tables (nonempty (split target)) (path_start rooted).0 (path_start rooted).1 rooted
vfs_lookup-walk_example = vfs_lookup-walk tables target rooted plain (omega arith) (omega arith)

vfs_lookup-parent_example :
    vfs_lookup tables target rooted ≡ at_leaf tables (vfs_lookup_parent tables target rooted)
vfs_lookup-parent_example = vfs_lookup-parent tables target rooted plain

-- `umount` of the mount that was just made.
parent_of_mount :
    vfs_lookup_parent tables target mounted.1 ≡ (parent_at 100 1 (codes "mnt"), mounted.1)
unfolding vfs_lookup_parent parent_loop mounted vfs_mount find_fs kstrcmp compare_bytes mount_found
    mount_on_dentry mount_super add_mount vfs_lookup mount_on path_loop skip_slashes next_component
    component_length lookup_step vfs_comp_eq kstrlen string_length same_bytes child_for answered
    enter_child descend tmp_dentry take_page mount_over put_at dentry_put
parent_of_mount = refl

at_some : (mounted.1.dentries 1000).inode ≢ 0
unfolding mounted vfs_mount find_fs kstrcmp compare_bytes mount_found mount_on_dentry mount_super
    add_mount vfs_lookup mount_on path_loop skip_slashes next_component component_length lookup_step
    vfs_comp_eq kstrlen string_length same_bytes child_for answered enter_child descend tmp_dentry
    take_page mount_over put_at dentry_put
at_some = omega arith

at_ino :
    (mounted.1.disk.inodes (mounted.1.dentries 1000).inode).ino ≡ (mounted.1.disk.inodes 11).ino
unfolding mounted vfs_mount find_fs kstrcmp compare_bytes mount_found mount_on_dentry mount_super
    add_mount vfs_lookup mount_on path_loop skip_slashes next_component component_length lookup_step
    vfs_comp_eq kstrlen string_length same_bytes child_for answered enter_child descend tmp_dentry
    take_page mount_over put_at dentry_put
at_ino = refl

at_sb : (mounted.1.disk.inodes (mounted.1.dentries 1000).inode).sb ≡ (mounted.1.disk.inodes 11).sb
unfolding mounted vfs_mount find_fs kstrcmp compare_bytes mount_found mount_on_dentry mount_super
    add_mount vfs_lookup mount_on path_loop skip_slashes next_component component_length lookup_step
    vfs_comp_eq kstrlen string_length same_bytes child_for answered enter_child descend tmp_dentry
    take_page mount_over put_at dentry_put
at_sb = refl

not_dot : vfs_comp_eq (codes "mnt") (length (codes "mnt")) (46 ∷ []) ≡ false
unfolding vfs_comp_eq kstrlen string_length same_bytes
not_dot = refl

not_dots : vfs_comp_eq (codes "mnt") (length (codes "mnt")) (46 ∷ 46 ∷ []) ≡ false
unfolding vfs_comp_eq kstrlen string_length same_bytes
not_dots = refl

-- The calls that look up the inode 11 go on at the root of the mount, the dentry 2.
vfs_mount-enter_example :
    (n : ℕ) × (mounted.1.mounts ≡ n ∷ resolved.1.mounts)
    × ((enter_child 100 1 1003 0 11 mounted.1).0
        ≡ (found n (mounted.1.mount_at n).root, (mounted.1.mount_at n).root))
vfs_mount-enter_example =
    vfs_mount-enter tables (codes "ext2") 0 target 0 [] rooted resolved.1 mounted.1 100 1000 100 1
      1003 0 11 (omega arith) resolved-dentry mounted_ok refl (omega arith) at_some at_ino at_sb

bare_roots : IsUnstacked mounted.1.mounts mounted.1
unfolding take_mount mounted vfs_mount find_fs kstrcmp compare_bytes mount_found mount_on_dentry
    mount_super add_mount vfs_lookup mount_on path_loop skip_slashes next_component component_length
    lookup_step vfs_comp_eq kstrlen string_length same_bytes child_for answered enter_child descend
    tmp_dentry take_page mount_over put_at dentry_put
bare_roots = (inr refl, (inl refl, tt))

next_page-IsBare : IsBare (next_page mounted.1) mounted.1
unfolding take_mount mounted vfs_mount find_fs kstrcmp compare_bytes mount_found mount_on_dentry
    mount_super add_mount vfs_lookup mount_on path_loop skip_slashes next_component component_length
    lookup_step vfs_comp_eq kstrlen string_length same_bytes child_for answered enter_child descend
    tmp_dentry take_page mount_over put_at dentry_put
next_page-IsBare = refl

vfs_umount-fails_example : is_error (vfs_umount tables target mounted.1).0 ≡ true
vfs_umount-fails_example =
    vfs_umount-fails tables target mounted.1 mounted.1 100 1 (codes "mnt") plain parent_of_mount
      (omega arith) not_dot not_dots bare_roots next_page-IsBare

none_listed : IsDistinct [] (record rooted { fs_types = [] })
unfolding IsDistinct
none_listed = tt

registered : ℕ × Vfs Unit
unfolding register_fs
registered = register_fs 301 (record rooted { fs_types = [] })

registered_ok : registered.0 ≡ 0
unfolding registered register_fs find_fs
registered_ok = refl

opened : ((vfs_open tables target 1 0 rooted).0) ≡ (0, 1001)
unfolding vfs_open open_inode inode_get inode_put put_file leaf_place mounted vfs_mount find_fs
    kstrcmp compare_bytes mount_found mount_on_dentry mount_super add_mount vfs_lookup mount_on
    path_loop skip_slashes next_component component_length lookup_step vfs_comp_eq kstrlen
    string_length same_bytes child_for answered enter_child descend tmp_dentry take_page mount_over
    put_at dentry_put
opened = refl

changes-IsDistinct_example :
    IsDistinct
      (changes
        (registers 301 ∷ registers 302 ∷ unregisters 301 ∷ [])
        (record rooted { fs_types = [] })).fs_types
      (changes
        (registers 301 ∷ registers 302 ∷ unregisters 301 ∷ [])
        (record rooted { fs_types = [] }))
changes-IsDistinct_example =
    changes-IsDistinct (registers 301 ∷ registers 302 ∷ unregisters 301 ∷ [])
      (record rooted { fs_types = [] }) none_listed
