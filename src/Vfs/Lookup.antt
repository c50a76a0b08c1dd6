-- ===== src/Vfs/Lookup.antt =====
-- Path resolution in kernel/vfs.c: vfs_tmp_dentry, vfs_lookup_child and vfs_lookup.
use jeos.Prelude.{
  ℕ, zero, suc, true, false, not, ◌&&◌, ◌||◌, none, some, List, [], ◌∷◌, length, take, ltb, ◌==◌,
  if◌then◌else◌,
}
use jeos.Path.{vfs_comp_eq, skip_slashes, next_component}
use jeos.Vfs.{
  einval, enoent, enotdir, enosys, enomem, is_error, Dentry, Disk, Vfs, Tables, take_page,
  set_dentry, dentry_put, is_dir, mount_on, mount_over,
}

-- `vfs_tmp_dentry`; 0 when the name is too long or there is no page.
unfoldable pub tmp_dentry : {S : Type 0} → (s : List ℕ) (len parent : ℕ) → Vfs S → ℕ × Vfs S
tmp_dentry s len parent v =
    let (d, v') = take_page v in
    let e : Dentry = record {
      refcnt = 1;
      name = take len s;
      inode = 0;
      parent = parent;
      is_mountpoint = false;
    } in
    if not (ltb len 256) then (0, v) else if d == 0 then (0, v') else (d, set_dentry d e v')

-- What a look-up comes to: a code, or a mount and a dentry.
pub data Located : Type 0 where
  failed : (rc : ℕ) → Located
  found : (mnt dent : ℕ) → Located

-- `vfs_lookup_child` behind the call of the file system's `lookup`, which returned `rc` and put the
-- inode `i` in the child `d`. The result has the caller's `mnt` and `dir` as they are left, and the
-- child.
unfoldable pub enter_child : {S : Type 0} → (mnt dir d rc i : ℕ) → Vfs S → (Located × ℕ) × Vfs S
enter_child mnt dir d rc i v =
    let sub = mount_over i v.mounts v in
    let root = (v.mount_at sub).root in
    if is_error rc
    then ((failed rc, dir), dentry_put d v)
    else if i == 0
    then ((failed enoent, dir), dentry_put d v)
    else if not (sub == 0) && not (root == 0)
    then ((found sub root, root), dentry_put d v)
    else ((found mnt d, dir), v)

-- `vfs_lookup_child` from the child `d` on, with the answer of the file system.
unfoldable pub answered :
    {S : Type 0} → (mnt dir d : ℕ) → (ℕ × ℕ) × Disk S → Vfs S → (Located × ℕ) × Vfs S
answered mnt dir d ((rc, i), disk) v =
    let e = record (v.dentries d) { inode = i } in
    if d == 0
    then ((failed enomem, dir), v)
    else enter_child mnt dir d rc i (set_dentry d e (record v { disk = disk }))

-- `vfs_lookup_child` for the child `name`, with what `vfs_tmp_dentry` comes to.
unfoldable pub child_for :
    {S : Type 0}
    → Tables S
    → (mnt dir : ℕ) (name : List ℕ) → ℕ × Vfs S
    → Vfs S
    → (Located × ℕ) × Vfs S
child_for fs mnt dir name (d, v₁) v =
    let i = (v.dentries dir).inode in
    if not (is_dir i v)
    then ((failed enotdir, dir), v)
    else elim (fs.lookup (v.disk.inodes i).iops) [
      | none ↦ ((failed enosys, dir), v)
      | some op ↦ answered mnt dir d (op i name v₁.disk) v₁
    ]

abbrev pub lookup_child :
    {S : Type 0} → Tables S → (mnt dir : ℕ) (s : List ℕ) (len : ℕ) → Vfs S → (Located × ℕ) × Vfs S
lookup_child fs mnt dir s len v = child_for fs mnt dir (take len s) (tmp_dentry s len dir v) v

-- `..`: over the root of a mount to its mountpoint, else to the parent.
abbrev pub up : {S : Type 0} → (mnt cur : ℕ) → Vfs S → ℕ
up mnt cur v =
    let m = v.mount_at mnt in
    let parent = (v.dentries cur).parent in
    if (cur == m.root) && not (m.mountpoint == 0)
    then m.mountpoint
    else if not (parent == 0)
    then parent
    else cur

-- Behind a child: the directory it was looked up in is put, unless it is a root.
unfoldable pub descend : {S : Type 0} → (Located × ℕ) × Vfs S → Located × Vfs S
descend ((failed rc, dir), v) = (failed rc, v)
descend ((found m k, dir), v) = (
  found m k,
  if not (dir == v.root_dent) && not (dir == (v.mount_at m).root) then dentry_put dir v else v,
)

-- One component in the loops of `vfs_lookup` and `vfs_lookup_parent`.
unfoldable pub lookup_step :
    {S : Type 0} → Tables S → (mnt cur : ℕ) (s : List ℕ) (len : ℕ) → Vfs S → Located × Vfs S
lookup_step fs mnt cur s len v =
    if vfs_comp_eq s len (46 ∷ [])
    then (found mnt cur, v)
    else if vfs_comp_eq s len (46 ∷ 46 ∷ [])
    then (found mnt (up mnt cur v), v)
    else descend (lookup_child fs mnt cur s len v)

-- The loop of `vfs_lookup`, on fuel.
unfoldable pub path_loop :
    {S : Type 0} → Tables S → (fuel mnt cur : ℕ) (p : List ℕ) → Vfs S → Located × Vfs S
path_loop fs zero mnt cur p v = (failed einval, v)
path_loop fs (suc k) mnt cur p v =
    let (s, n, p') = next_component p in
    elim (n == 0) [
      | true ↦ (found mnt cur, v)
      | false ↦
          (let (r, v') = lookup_step fs mnt cur s n v in
            elim r [ failed rc ↦ (failed rc, v') | found m c ↦ path_loop fs k m c p' v' ])
    ]

-- Where a path starts: the root, or the root of the file system that is mounted over it.
abbrev pub path_start : {S : Type 0} → Vfs S → ℕ × ℕ
path_start v =
    let overlay = mount_on v.root_dent v.mounts v in
    if (v.dentries v.root_dent).is_mountpoint && not (overlay == 0)
    then (overlay, (v.mount_at overlay).root)
    else (v.root_mnt, v.root_dent)

-- `vfs_lookup`.
unfoldable pub vfs_lookup : {S : Type 0} → Tables S → List ℕ → Vfs S → Located × Vfs S
vfs_lookup fs path v =
    if (v.root_mnt == 0) || (v.root_dent == 0)
    then (failed einval, v)
    else path_loop fs (suc (length path)) (path_start v).0 (path_start v).1 (skip_slashes path) v
