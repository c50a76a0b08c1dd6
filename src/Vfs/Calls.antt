-- ===== src/Vfs/Calls.antt =====
-- The file system types and the mounts of kernel/vfs.c, and the look-up of a parent.
use jeos.Prelude.{
  ℕ, zero, suc, Bool, true, false, not, ◌&&◌, ◌||◌, Option, none, some, List, [], ◌∷◌, length, take,
  ◌==◌, if◌then◌else◌,
}
use jeos.Path.{first, rest, kstrcmp, skip_slashes, next_component}
use jeos.Vfs.{
  Vfs, Tables, Superblock, Mount, einval, enoent, enotdir, eexist, enomem, ebusy, is_error, is_dir,
  put_at, take_page, give_page,
}
use jeos.Vfs.Lookup.{Located, failed, found, path_start, lookup_step, vfs_lookup}

-- What `vfs_lookup_parent` comes to: a code, or the parent and the leaf, empty when there is none.
pub data Parent : Type 0 where
  no_parent : (rc : ℕ) → Parent
  parent_at : (mnt dent : ℕ) (leaf : List ℕ) → Parent

-- The loop of `vfs_lookup_parent`, on fuel: it looks ahead for one more component.
unfoldable pub parent_loop :
    {S : Type 0} → Tables S → (fuel mnt cur : ℕ) (p : List ℕ) → Vfs S → Parent × Vfs S
parent_loop fs zero mnt cur p v = (no_parent einval, v)
parent_loop fs (suc k) mnt cur p v =
    let (s, n, p') = next_component p in
    elim (n == 0) [
      | true ↦ (parent_at mnt cur [], v)
      | false ↦ elim ((next_component p').1 == 0) [
        | true ↦ (parent_at mnt cur (take n s), v)
        | false ↦
            (let (r, v') = lookup_step fs mnt cur s n v in
              elim r [ failed rc ↦ (no_parent rc, v') | found m c ↦ parent_loop fs k m c p' v' ])
      ]
    ]

unfoldable pub vfs_lookup_parent : {S : Type 0} → Tables S → List ℕ → Vfs S → Parent × Vfs S
vfs_lookup_parent fs path v =
    if (v.root_mnt == 0) || (v.root_dent == 0)
    then (no_parent einval, v)
    else parent_loop fs (suc (length path)) (path_start v).0 (path_start v).1 (skip_slashes path) v

-- `vfs_find_fs`, over the list of the types.
abbrev pub fs_named : {S : Type 0} → (name : List ℕ) (t : ℕ) → Vfs S → Bool
fs_named name t v = elim (v.types t).name [
  | none ↦ false
  | some n ↦ kstrcmp (some n) (some name) == 0
]

unfoldable pub find_fs : {S : Type 0} → (name : List ℕ) → List ℕ → Vfs S → ℕ
find_fs name [] v = 0
find_fs name (t ∷ ts) v = let more = find_fs name ts v in if fs_named name t v then t else more

-- `vfs_register_fs`.
unfoldable pub register_fs : {S : Type 0} → (t : ℕ) → Vfs S → ℕ × Vfs S
register_fs t v = elim (v.types t).name [
  | none ↦ (einval, v)
  | some n ↦
      (if (t == 0) || not (v.types t).mounts
        then (einval, v)
        else if not (find_fs n v.fs_types v == 0)
        then (eexist, v)
        else (0, record v { fs_types = t ∷ v.fs_types }))
]

-- The loops of `vfs_unregister_fs`: whether a mount has the type, and the list without it.
unfoldable pub is_mounted : {S : Type 0} → (t : ℕ) → List ℕ → Vfs S → Bool
is_mounted t [] v = false
is_mounted t (m ∷ ms) v =
    let more = is_mounted t ms v in
    let sb = (v.mount_at m).sb in (not (sb == 0) && ((v.supers sb).fs_type == t)) || more

unfoldable pub without : (a : ℕ) → List ℕ → Option (List ℕ)
without a [] = none
without a (b ∷ bs) =
    let more = without a bs in
    if b == a then some bs else elim more [ none ↦ none | some cs ↦ some (b ∷ cs) ]

unfoldable pub unregister_fs : {S : Type 0} → (t : ℕ) → Vfs S → ℕ × Vfs S
unregister_fs t v =
    if t == 0
    then (einval, v)
    else if is_mounted t v.mounts v
    then (ebusy, v)
    else elim (without t v.fs_types) [
      | none ↦ (enoent, v)
      | some ts ↦ (0, record v { fs_types = ts })
    ]

-- `type->unmount(sb)` if there is one, and `kfree(sb, 1)`.
abbrev pub drop_super : {S : Type 0} → Tables S → (t sb : ℕ) → Vfs S → Vfs S
drop_super fs t sb v = elim (fs.unmount t) [
  | none ↦ give_page sb v
  | some op ↦ give_page sb (record v { disk = op sb v.disk })
]

-- `vfs_mount` behind the call of the type's `mount`, which returned `rc` and left `root` in the
-- superblock `sb`; `mp` is the mountpoint, 0 for the first mount of the root.
unfoldable pub add_mount : {S : Type 0} → (sb root flags mp m : ℕ) → Vfs S → Vfs S
add_mount sb root flags mp m v =
    let mnt : Mount = record { flags = flags; refcnt = 1; sb = sb; mountpoint = mp; root = root } in
    let v' = record v { mount_at = put_at m mnt v.mount_at; mounts = m ∷ v.mounts } in
    if mp == 0 then record v' { root_mnt = m; root_dent = root } else record v' {
      dentries = put_at mp (record (v.dentries mp) { is_mountpoint = true }) v.dentries;
    }

unfoldable pub mount_super : {S : Type 0} → Tables S → (t sb rc flags mp : ℕ) → Vfs S → ℕ × Vfs S
mount_super fs t sb rc flags mp v =
    let root = (v.supers sb).root in
    let (m, v') = take_page v in
    if is_error rc
    then (rc, give_page sb v)
    else if (root == 0) || ((v.dentries root).inode == 0)
    then (einval, drop_super fs t sb v)
    else if m == 0
    then (enomem, drop_super fs t sb v')
    else (0, add_mount sb root flags mp m v')

-- `vfs_mount` from the mountpoint on.
unfoldable pub mount_on_dentry :
    {S : Type 0} → Tables S → (t device flags : ℕ) (opts : List ℕ) (mp : ℕ) → Vfs S → ℕ × Vfs S
mount_on_dentry fs t device flags opts mp v =
    let (sb, v₁) = take_page v in
    let (answer, disk) = fs.mount t sb device opts v₁.disk in
    let s : Superblock = record { flags = flags; refcnt = 1; fs_type = t; root = answer.1 } in
    let v₂ = record v₁ {
      disk = disk;
      supers = put_at sb s v₁.supers;
      dentries = if answer.1 == 0 then v₁.dentries else put_at answer.1 answer.2 v₁.dentries;
    } in
    if sb == 0 then (enomem, v₁) else mount_super fs t sb answer.0 flags mp v₂

-- `vfs_mount` behind the look-up of the target.
unfoldable pub mount_found :
    {S : Type 0} → Tables S → (t device flags : ℕ) (opts : List ℕ) → Located × Vfs S → ℕ × Vfs S
mount_found fs t device flags opts (failed rc, v) = (rc, v)
mount_found fs t device flags opts (found m d, v) =
    let i = (v.dentries d).inode in
    if (d == 0) || (i == 0)
    then (einval, v)
    else if not (is_dir i v)
    then (enotdir, v)
    else mount_on_dentry fs t device flags opts d v

-- Whether `vfs_mount` mounts the root of the namespace.
abbrev pub is_root_mount : {S : Type 0} → (target : List ℕ) → Vfs S → Bool
is_root_mount target v = (first target == 47) && (first (rest target) == 0) && (v.root_mnt == 0)

unfoldable pub vfs_mount :
    {S : Type 0}
    → Tables S
    → (name : List ℕ) (device : ℕ) (target : List ℕ) (flags : ℕ) (opts : List ℕ) → Vfs S
    → ℕ × Vfs S
vfs_mount fs name device target flags opts v =
    let t = find_fs name v.fs_types v in
    if t == 0
    then (enoent, v)
    else if is_root_mount target v
    then mount_on_dentry fs t device flags opts 0 v
    else mount_found fs t device flags opts (vfs_lookup fs target v)

-- `vfs_umount` for the mount `m` on the dentry `d`, where `ms` is the list of the mounts without it.
unfoldable pub unmount : {S : Type 0} → Tables S → (m d : ℕ) (ms : List ℕ) → Vfs S → ℕ × Vfs S
unmount fs m d ms v =
    let mnt = v.mount_at m in
    let e = v.dentries d in
    let v' = record v {
      dentries = put_at d (record e { is_mountpoint = false }) v.dentries;
      mounts = ms;
    } in
    let t = (v.supers mnt.sb).fs_type in
    if not (mnt.refcnt == 1) then (ebusy, v) else (
      0,
      give_page m (
          if mnt.sb == 0
          then v'
          else if t == 0
          then give_page mnt.sb v'
          else drop_super fs t mnt.sb v'),
    )

-- The mounts without the first one on the dentry `d`, and that one.
unfoldable pub take_mount : {S : Type 0} → (d : ℕ) → List ℕ → Vfs S → Option (ℕ × List ℕ)
take_mount d [] v = none
take_mount d (m ∷ ms) v =
    let more = take_mount d ms v in
    if (v.mount_at m).mountpoint == d
    then some (m, ms)
    else elim more [ none ↦ none | some (n, ns) ↦ some (n, m ∷ ns) ]

unfoldable pub vfs_umount : {S : Type 0} → Tables S → List ℕ → Vfs S → ℕ × Vfs S
vfs_umount fs target v =
    let (r, v') = vfs_lookup fs target v in
    elim r [
      | failed rc ↦ (rc, v')
      | found m d ↦ elim (take_mount d v'.mounts v') [
        | none ↦ (enoent, v')
        | some (n, ms) ↦ unmount fs n d ms v'
      ]
    ]
