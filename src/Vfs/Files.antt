-- ===== src/Vfs/Files.antt =====
-- The files of kernel/vfs.c: open, seek, stat, mkdir and unlink, over the look-ups. A pointer that the
-- caller passes for a result is not null. An i64 or a position is its 64 bits.
use Prim.Native.Nat.{bit_and, ◌-◌, ◌%◌, ◌^◌}
use jeos.Prelude.{ℕ, ◌+◌, not, ◌&&◌, ◌||◌, Option, none, some, List, length, ◌==◌, if◌then◌else◌}
use jeos.Vfs.{
  Vfs, Tables, Disk, File, einval, enoent, enotdir, enosys, enomem, is_error, is_dir, put_at,
  take_page, give_page, inode_get, inode_put, dentry_put, set_dentry,
}
use jeos.Vfs.Lookup.{failed, found, tmp_dentry, vfs_lookup}
use jeos.Vfs.Calls.{no_parent, parent_at, vfs_lookup_parent}

-- `vfs_file_put`.
unfoldable pub put_file : {S : Type 0} → (f : ℕ) → Vfs S → Vfs S
put_file f v =
    let e = v.files f in
    let n = (e.refcnt + (2 ^ 32 - 1)) % 2 ^ 32 in
    let v' = record v { files = put_at f (record e { refcnt = n }) v.files } in
    if f == 0 then v else if n == 0 then give_page f (inode_put e.inode v') else v'

-- The put of a dentry that a look-up found, unless it is a root.
abbrev pub drop_found : {S : Type 0} → (mnt d : ℕ) → Vfs S → Vfs S
drop_found mnt d v =
    if not (d == v.root_dent) && not (mnt == 0) && not (d == (v.mount_at mnt).root)
    then dentry_put d v
    else v

-- `vfs_open` from the file on: its code, and the file, 0 for none.
unfoldable pub open_inode : {S : Type 0} → Tables S → (i flags : ℕ) → Vfs S → (ℕ × ℕ) × Vfs S
open_inode fs i flags v =
    let (f, v₁) = take_page v in
    let e : File = record {
      refcnt = 1;
      flags = flags;
      pos = 0;
      inode = i;
      fops = (v₁.disk.inodes i).fops;
    } in
    let v₂ = record v₁ { files = put_at f e v₁.files } in
    if f == 0 then ((enomem, 0), inode_put i v₁) else elim (fs.open_file e.fops) [
      | none ↦ ((0, f), v₂)
      | some op ↦
          (let (rc, disk) = op i f v₂.disk in
            let v₃ = record v₂ { disk = disk } in
            if is_error rc then ((rc, 0), put_file f v₃) else ((0, f), v₃))
    ]

-- The directory of a leaf, for `create`, `mkdir` and `unlink`: a code, or the directory's inode, its
-- dentry and the leaf.
pub data Place : Type 0 where
  no_place : (rc : ℕ) → Place
  place : (dir dent : ℕ) (leaf : List ℕ) → Place

unfoldable pub leaf_place : {S : Type 0} → Tables S → List ℕ → Vfs S → Place × Vfs S
leaf_place fs path v =
    let (r, v') = vfs_lookup_parent fs path v in
    elim r [
      | no_parent rc ↦ (no_place rc, v')
      | parent_at m d leaf ↦
          (if length leaf == 0
            then (no_place einval, v')
            else if not (is_dir (v'.dentries d).inode v')
            then (no_place enotdir, v')
            else (place (v'.dentries d).inode d leaf, v'))
    ]

-- The call of `create` or `mkdir` for a temporary dentry: the code, the dentry, 0 for none, and the
-- inode that the call put in it.
abbrev pub make_leaf :
    {S : Type 0}
    → Option ((dir : ℕ) (name : List ℕ) (mode : ℕ) → Disk S → (ℕ × ℕ) × Disk S)
    → (dir dent : ℕ) (leaf : List ℕ) (mode : ℕ) → Vfs S
    → (ℕ × ℕ × ℕ) × Vfs S
make_leaf none dir dent leaf mode v = ((enosys, 0, 0), v)
make_leaf (some op) dir dent leaf mode v =
    let (d, v₁) = tmp_dentry leaf (length leaf) dent v in
    let (answer, disk) = op dir leaf mode v₁.disk in
    let e = record (v₁.dentries d) { inode = answer.1 } in
    if d == 0
    then ((enomem, 0, 0), v₁)
    else ((answer.0, d, answer.1), set_dentry d e (record v₁ { disk = disk }))

-- `vfs_open`.
unfoldable pub vfs_open :
    {S : Type 0} → Tables S → List ℕ → (flags mode : ℕ) → Vfs S → (ℕ × ℕ) × Vfs S
vfs_open fs path flags mode v =
    let (r, v') = vfs_lookup fs path v in
    let (l, w) = leaf_place fs path v in
    if not (bit_and flags 0x100 == 0)
    then elim l [
      | no_place rc ↦ ((rc, 0), w)
      | place dir dent leaf ↦
          (let ((rc, d, i), w') =
              make_leaf (fs.create (w.disk.inodes dir).iops) dir dent leaf mode w in
            if is_error rc
            then ((rc, 0), dentry_put d w')
            else if i == 0
            then ((einval, 0), dentry_put d w')
            else open_inode fs i flags (dentry_put d (inode_get i w')))
    ]
    else elim r [
      | failed rc ↦ ((rc, 0), v')
      | found m d ↦
          (let i = (v'.dentries d).inode in
            if (d == 0) || (i == 0)
            then ((enoent, 0), v')
            else open_inode fs i flags (drop_found m d (inode_get i v')))
    ]

-- `vfs_mkdir` and `vfs_unlink`.
unfoldable pub vfs_mkdir : {S : Type 0} → Tables S → List ℕ → (mode : ℕ) → Vfs S → ℕ × Vfs S
vfs_mkdir fs path mode v =
    let (l, w) = leaf_place fs path v in
    elim l [
      | no_place rc ↦ (rc, w)
      | place dir dent leaf ↦
          (let ((rc, d, i), w') =
              make_leaf (fs.mkdir (w.disk.inodes dir).iops) dir dent leaf mode w in
            (rc, dentry_put d w'))
    ]

unfoldable pub unlink_child :
    {S : Type 0}
    → Tables S
    → (dir d : ℕ) (leaf : List ℕ) → ((dir : ℕ) (name : List ℕ) (inode : ℕ) → Disk S → ℕ × Disk S)
    → Vfs S
    → ℕ × Vfs S
unlink_child fs dir d leaf op v = elim (fs.lookup (v.disk.inodes dir).iops) [
  | none ↦ (let (rc, disk) = op dir leaf 0 v.disk in (rc, dentry_put d (record v { disk = disk })))
  | some look ↦
      (let ((lrc, i), disk) = look dir leaf v.disk in
        let e = record (v.dentries d) { inode = i } in
        let v' = set_dentry d e (record v { disk = disk }) in
        let (rc, disk') = op dir leaf i v'.disk in
        if is_error lrc
        then (lrc, dentry_put d v')
        else (rc, dentry_put d (record v' { disk = disk' })))
]

unfoldable pub vfs_unlink : {S : Type 0} → Tables S → List ℕ → Vfs S → ℕ × Vfs S
vfs_unlink fs path v =
    let (l, w) = leaf_place fs path v in
    elim l [
      | no_place rc ↦ (rc, w)
      | place dir dent leaf ↦ elim (fs.unlink (w.disk.inodes dir).iops) [
        | none ↦ (enosys, w)
        | some op ↦
            (let (d, w') = tmp_dentry leaf (length leaf) dent w in
              if d == 0 then (enomem, w') else unlink_child fs dir d leaf op w')
      ]
    ]

-- `vfs_stat`, with the size for the whole structure: the code and the size.
unfoldable pub vfs_stat : {S : Type 0} → Tables S → List ℕ → Vfs S → (ℕ × ℕ) × Vfs S
vfs_stat fs path v =
    let (r, v') = vfs_lookup fs path v in
    elim r [
      | failed rc ↦ ((rc, 0), v')
      | found m d ↦
          (let i = (v'.dentries d).inode in
            if (d == 0) || (i == 0)
            then ((enoent, 0), v')
            else elim (fs.getattr (v'.disk.inodes i).iops) [
              | none ↦ ((enosys, 0), v')
              | some op ↦
                  (let (answer, disk) = op i v'.disk in
                    (answer, drop_found m d (record v' { disk = disk })))
            ])
    ]

-- `vfs_fstat`.
unfoldable pub vfs_fstat : {S : Type 0} → Tables S → (f : ℕ) → Vfs S → (ℕ × ℕ) × Vfs S
vfs_fstat fs f v =
    let i = (v.files f).inode in
    if f == 0
    then ((einval, 0), v)
    else if i == 0
    then ((enosys, 0), v)
    else elim (fs.getattr (v.disk.inodes i).iops) [
      | none ↦ ((enosys, 0), v)
      | some op ↦ (let (answer, disk) = op i v.disk in (answer, record v { disk = disk }))
    ]

-- A code as a 64-bit result.
abbrev pub wide : ℕ → ℕ
wide rc = rc + (2 ^ 64 - 2 ^ 32)

abbrev pub set_pos : {S : Type 0} → (f n : ℕ) → Vfs S → ℕ × Vfs S
set_pos f n v = (n, record v { files = put_at f (record (v.files f) { pos = n }) v.files })

-- The generic part of `vfs_seek`, with the size.
unfoldable pub seek_to : {S : Type 0} → (f off whence size : ℕ) → Vfs S → ℕ × Vfs S
seek_to f off whence size v =
    if whence == 0
    then set_pos f off v
    else if whence == 1
    then set_pos f (((v.files f).pos + off) % 2 ^ 64) v
    else if whence == 2
    then set_pos f ((size + off) % 2 ^ 64) v
    else (wide einval, v)

unfoldable pub vfs_seek : {S : Type 0} → Tables S → (f off whence : ℕ) → Vfs S → ℕ × Vfs S
vfs_seek fs f off whence v =
    if f == 0 then (wide einval, v) else elim (fs.llseek (v.files f).fops) [
      | some op ↦ op f off whence v
      | none ↦
          (let i = (v.files f).inode in
            if i == 0 then (wide enosys, v) else elim (fs.getattr (v.disk.inodes i).iops) [
              | none ↦ (wide enosys, v)
              | some op ↦
                  (let ((rc, size), disk) = op i v.disk in
                    let v' = record v { disk = disk } in
                    if is_error rc then (wide einval, v') else seek_to f off whence size v')
            ])
    ]

-- `vfs_read` and `vfs_write`: the file system's operation, which moves the position.
pub vfs_read : {S : Type 0} → Tables S → (f buf count : ℕ) → Vfs S → ℕ × Vfs S
vfs_read fs f buf count v =
    if (f == 0) || (buf == 0)
    then (wide einval, v)
    else elim (fs.read (v.files f).fops) [ none ↦ (wide enosys, v) | some op ↦ op f buf count v ]

pub vfs_write : {S : Type 0} → Tables S → (f buf count : ℕ) → Vfs S → ℕ × Vfs S
vfs_write fs f buf count v =
    if (f == 0) || (buf == 0)
    then (wide einval, v)
    else elim (fs.write (v.files f).fops) [ none ↦ (wide enosys, v) | some op ↦ op f buf count v ]
