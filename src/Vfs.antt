-- ===== src/Vfs.antt =====
-- The objects of kernel/vfs.c: inodes, dentries, mounts, superblocks and file
-- system types. A pointer is the number of an address, 0 for null, and each kind of object has its
-- store; a linked list is the list of its addresses. An i32 is its 32 bits. The operations of a file
-- system are parameters: a table of operations is found by its address, and an entry that is null is
-- `none`. An operation changes the inodes, takes pages, and changes state of its own, of type `S`.
pub mod Lookup
pub mod Calls
pub mod Files
pub mod Walk
pub mod Parent
pub mod Kept
pub mod Covering
pub mod Entering
pub mod Registry
mod Tests
use Prim.Native.Nat.{bit_and, ◌-◌, ◌%◌, ◌^◌}
use jeos.Prelude.{
  ℕ, zero, suc, ◌+◌, Bool, true, false, not, ◌&&◌, ◌||◌, Option, none, some, List, [], ◌∷◌, length,
  take, ltb, leb, ◌==◌, if◌then◌else◌,
}

abbrev pub einval : ℕ
einval = 2 ^ 32 - 22

abbrev pub enoent : ℕ
enoent = 2 ^ 32 - 2

abbrev pub enotdir : ℕ
enotdir = 2 ^ 32 - 20

abbrev pub eexist : ℕ
eexist = 2 ^ 32 - 17

abbrev pub enosys : ℕ
enosys = 2 ^ 32 - 38

abbrev pub enomem : ℕ
enomem = 2 ^ 32 - 12

abbrev pub ebusy : ℕ
ebusy = 2 ^ 32 - 16

-- `rc < 0`.
abbrev pub is_error : ℕ → Bool
is_error rc = leb (2 ^ 31) rc

pub record Inode : Type 0 where
  pub ino : ℕ
  pub mode : ℕ
  pub refcnt : ℕ
  pub sb : ℕ
  pub iops : ℕ
  pub fops : ℕ

pub record Dentry : Type 0 where
  pub refcnt : ℕ
  pub name : List ℕ
  pub inode : ℕ
  pub parent : ℕ
  pub is_mountpoint : Bool

pub record Mount : Type 0 where
  pub flags : ℕ
  pub refcnt : ℕ
  pub sb : ℕ
  pub mountpoint : ℕ
  pub root : ℕ

pub record Superblock : Type 0 where
  pub flags : ℕ
  pub refcnt : ℕ
  pub fs_type : ℕ
  pub root : ℕ

-- `vfs_fs_type`: `mounts` is whether it has an operation `mount`.
pub record FsType : Type 0 where
  pub name : Option (List ℕ)
  pub mounts : Bool

pub record File : Type 0 where
  pub refcnt : ℕ
  pub flags : ℕ
  pub pos : ℕ
  pub inode : ℕ
  pub fops : ℕ

-- What an operation of a file system can change: `pages` is what kalloc will answer, in its order, and
-- `freed` what kfree was given.
pub record Disk (S : Type 0) : Type 0 where
  pub inodes : ℕ → Inode
  pub pages : List ℕ
  pub freed : List ℕ
  pub own : S

pub record Vfs (S : Type 0) : Type 0 where
  pub disk : Disk S
  pub dentries : ℕ → Dentry
  pub supers : ℕ → Superblock
  pub types : ℕ → FsType
  pub fs_types : List ℕ
  pub mount_at : ℕ → Mount
  pub mounts : List ℕ
  pub root_mnt : ℕ
  pub root_dent : ℕ
  pub files : ℕ → File

-- The tables of operations by address: of directories, `lookup`, `create` and `mkdir` return a code and
-- the inode that they put in the child; of file system types, `mount` returns a code, the address that
-- it puts in the superblock as its root, and the dentry there.
pub record Tables (S : Type 0) : Type 0 where
  pub lookup : ℕ → Option ((dir : ℕ) (name : List ℕ) → Disk S → (ℕ × ℕ) × Disk S)
  pub create : ℕ → Option ((dir : ℕ) (name : List ℕ) (mode : ℕ) → Disk S → (ℕ × ℕ) × Disk S)
  pub mkdir : ℕ → Option ((dir : ℕ) (name : List ℕ) (mode : ℕ) → Disk S → (ℕ × ℕ) × Disk S)
  pub unlink : ℕ → Option ((dir : ℕ) (name : List ℕ) (inode : ℕ) → Disk S → ℕ × Disk S)
  pub getattr : ℕ → Option ((inode : ℕ) → Disk S → (ℕ × ℕ) × Disk S)
  pub open_file : ℕ → Option ((inode file : ℕ) → Disk S → ℕ × Disk S)
  pub read : ℕ → Option ((file buf count : ℕ) → Vfs S → ℕ × Vfs S)
  pub write : ℕ → Option ((file buf count : ℕ) → Vfs S → ℕ × Vfs S)
  pub llseek : ℕ → Option ((file : ℕ) (off whence : ℕ) → Vfs S → ℕ × Vfs S)
  pub mount : (fs_type sb device : ℕ) (opts : List ℕ) → Disk S → (ℕ × ℕ × Dentry) × Disk S
  pub unmount : (fs_type : ℕ) → Option ((sb : ℕ) → Disk S → Disk S)

unfoldable pub put_at : {A : Type 0} → (a : ℕ) → A → (ℕ → A) → ℕ → A
put_at a x f b = if a == b then x else f b

-- A count, down by one.
abbrev pub down : ℕ → ℕ
down n = (n + (2 ^ 32 - 1)) % 2 ^ 32

-- `vfs_inode_get` and `vfs_inode_put`.
pub inode_get : {S : Type 0} → (i : ℕ) → Vfs S → Vfs S
inode_get i v =
    let n = v.disk.inodes i in
    let n' = record n { refcnt = (n.refcnt + 1) % 2 ^ 32 } in
    if i == 0 then v else record v { disk = record v.disk { inodes = put_at i n' v.disk.inodes } }

pub inode_put : {S : Type 0} → (i : ℕ) → Vfs S → Vfs S
inode_put i v =
    let n = v.disk.inodes i in
    let n' = record n { refcnt = down n.refcnt } in
    if i == 0 then v else record v { disk = record v.disk { inodes = put_at i n' v.disk.inodes } }

-- `kalloc(1)` and `kfree(p, 1)`.
unfoldable pub take_page : {S : Type 0} → Vfs S → ℕ × Vfs S
take_page v = elim v.disk.pages [
  | [] ↦ (0, v)
  | p ∷ ps ↦ (p, record v { disk = record v.disk { pages = ps } })
]

abbrev pub give_page : {S : Type 0} → (p : ℕ) → Vfs S → Vfs S
give_page p v = record v { disk = record v.disk { freed = p ∷ v.disk.freed } }

abbrev pub set_dentry : {S : Type 0} → (d : ℕ) → Dentry → Vfs S → Vfs S
set_dentry d e v = record v { dentries = put_at d e v.dentries }

-- `vfs_dentry_get` and `vfs_dentry_put`.
pub dentry_get : {S : Type 0} → (d : ℕ) → Vfs S → Vfs S
dentry_get d v =
    let e = v.dentries d in
    if d == 0 then v else set_dentry d (record e { refcnt = (e.refcnt + 1) % 2 ^ 32 }) v

unfoldable pub dentry_put : {S : Type 0} → (d : ℕ) → Vfs S → Vfs S
dentry_put d v =
    let e = v.dentries d in
    let v' = set_dentry d (record e { refcnt = down e.refcnt }) v in
    if d == 0
    then v
    else if (down e.refcnt == 0) && (e.parent == 0)
    then give_page d (inode_put e.inode v')
    else v'

-- `vfs_is_dir`.
abbrev pub is_dir : {S : Type 0} → (i : ℕ) → Vfs S → Bool
is_dir i v = not (i == 0) && (bit_and (v.disk.inodes i).mode 0xF000 == 0x4000)

-- `vfs_find_mount_by_mountpoint`, over the list of the mounts.
unfoldable pub mount_on : {S : Type 0} → (mp : ℕ) → List ℕ → Vfs S → ℕ
mount_on mp [] v = 0
mount_on mp (m ∷ ms) v =
    let more = mount_on mp ms v in if (v.mount_at m).mountpoint == mp then m else more

-- The test of `vfs_find_mount_by_inode`, and its loop.
abbrev pub is_over : {S : Type 0} → (m i : ℕ) → Vfs S → Bool
is_over m i v =
    let mp = (v.mount_at m).mountpoint in
    let at = (v.dentries mp).inode in
    not (mp == 0)
    && not (at == 0)
    && ((v.disk.inodes at).ino == (v.disk.inodes i).ino)
    && ((v.disk.inodes at).sb == (v.disk.inodes i).sb)

unfoldable pub mount_over : {S : Type 0} → (i : ℕ) → List ℕ → Vfs S → ℕ
mount_over i [] v = 0
mount_over i (m ∷ ms) v = let more = mount_over i ms v in if is_over m i v then m else more

-- `vfs_init`, and `vfs_set_root` with its code.
pub vfs_init : {S : Type 0} → Vfs S → Vfs S
vfs_init v = record v { fs_types = []; mounts = []; root_mnt = 0; root_dent = 0 }

pub vfs_set_root : {S : Type 0} → (mnt root : ℕ) → Vfs S → ℕ × Vfs S
vfs_set_root mnt root v =
    if (mnt == 0) || (root == 0)
    then (einval, v)
    else (0, record v { root_mnt = mnt; root_dent = root })
