-- ===== src/Initfs/Driver.antt =====
-- The operations of kernel/initfs.c as a file system of kernel/vfs.c: lookup, mkdir and getattr of its
-- directories, and the mount.
use jeos.Prelude.{
  ℕ, ◌+◌, ◌%◌, ◌^◌, true, false, none, some, List, [], ◌∷◌, length, ◌==◌, if◌then◌else◌,
}
use jeos.Vfs.{Disk, Inode, Dentry, Tables, enoent, eexist, enomem, put_at}
use jeos.Initfs.{Dir, Dirs, find_dir, fill_dir}

-- The address of `initfs_dir_iops`.
abbrev pub dir_iops : ℕ
dir_iops = 1

-- `kalloc(1)` and `kfree(p, 1)`.
unfoldable pub new_page : {S : Type 0} → Disk S → ℕ × Disk S
new_page disk = elim disk.pages [ [] ↦ (0, disk) | p ∷ ps ↦ (p, record disk { pages = ps }) ]

-- `initfs_make_dir`; 0 when no page is free.
unfoldable pub make_inode : (sb ino : ℕ) → Disk Dirs → ℕ × Disk Dirs
make_inode sb ino disk =
    let (p, disk₁) = new_page disk in
    let i : Inode = record {
      ino = ino;
      mode = 0x41ED;
      refcnt = 1;
      sb = sb;
      iops = dir_iops;
      fops = 0;
    } in
    if p == 0 then (0, disk₁) else (p, record disk₁ { inodes = put_at p i disk₁.inodes })

-- The code and the inode of a child that `initfs_make_dir` was called for.
abbrev pub child_made : ℕ × Disk Dirs → (ℕ × ℕ) × Disk Dirs
child_made (i, disk) = ((if i == 0 then enomem else 0, i), disk)

-- `initfs_lookup`.
unfoldable pub look_up : (dir : ℕ) (name : List ℕ) → Disk Dirs → (ℕ × ℕ) × Disk Dirs
look_up dir name disk = elim (find_dir name disk.own.dirs) [
  | none ↦ ((enoent, 0), disk)
  | some d ↦ child_made (make_inode (disk.inodes dir).sb d.ino disk)
]

-- `initfs_mkdir`, of a name that fits its slot.
unfoldable pub make_directory :
    (dir : ℕ) (name : List ℕ) (mode : ℕ) → Disk Dirs → (ℕ × ℕ) × Disk Dirs
make_directory dir name mode disk =
    let new : Dir = record {
      name = name;
      name_len = length name;
      in_use = true;
      ino = disk.own.next_ino;
    } in
    elim (find_dir name disk.own.dirs) [
      | some d ↦ ((eexist, 0), disk)
      | none ↦ elim (fill_dir new disk.own.dirs) [
        | none ↦ ((enomem, 0), disk)
        | some dirs ↦
            let own : Dirs = record { dirs = dirs; next_ino = (disk.own.next_ino + 1) % 2 ^ 32 } in
            child_made
              (make_inode (disk.inodes dir).sb disk.own.next_ino (record disk { own = own }))
      ]
    ]

-- `initfs_getattr`, with the fields that it sets.
pub record DirStat : Type 0 where
  pub ino : ℕ
  pub mode : ℕ
  pub nlink : ℕ
  pub size : ℕ

pub dir_stat : Inode → DirStat
dir_stat i = record { ino = i.ino; mode = i.mode; nlink = 2; size = 0 }

abbrev pub no_dentry : Dentry
no_dentry = record { refcnt = 0; name = []; inode = 0; parent = 0; is_mountpoint = false }

-- `initfs_mount_fs`.
unfoldable pub mount_root : (sb : ℕ) → Disk Dirs → (ℕ × ℕ × Dentry) × Disk Dirs
mount_root sb disk =
    let (i, disk₁) = make_inode sb 1 disk in
    let (d, disk₂) = new_page disk₁ in
    let root : Dentry = record {
      refcnt = 1;
      name = 47 ∷ [];
      inode = i;
      parent = 0;
      is_mountpoint = false;
    } in
    if i == 0
    then ((enomem, 0, no_dentry), disk₁)
    else if d == 0
    then ((enomem, 0, no_dentry), record disk₂ { freed = i ∷ disk₂.freed })
    else ((0, d, root), disk₂)

-- `initfs_dir_iops` and `initfs_fs_type`, the only tables where this file system is the only one. The
-- result of `getattr` is its code and the size.
abbrev pub initfs : Tables Dirs
initfs = record {
  lookup = λ t. if t == dir_iops then some look_up else none;
  create = λ t. none;
  mkdir = λ t. if t == dir_iops then some make_directory else none;
  unlink = λ t. none;
  getattr = λ t.
      if t == dir_iops then some (λ i disk. ((0, (dir_stat (disk.inodes i)).size), disk)) else none;
  open_file = λ t. none;
  read = λ t. none;
  write = λ t. none;
  llseek = λ t. none;
  mount = λ t sb device opts disk. mount_root sb disk;
  unmount = λ t. none;
}
