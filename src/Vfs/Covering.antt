-- ===== src/Vfs/Covering.antt =====
-- Mounts in kernel/vfs.c: what covers a directory, and which dentries a look-up can end at.

use jeos.Prelude.{
  ℕ, ◌≡◌, ◌≢◌, ◌⊎◌, refl, sym, subst, ap, ◌∙◌, inl, inr, true, false, not, ◌&&◌, none, some, List,
  [], ◌∷◌, ◌==◌, Bool-cases, Option-cases, length, take, ltb, arith,
}
use jeos.Path.{vfs_comp_eq}
use jeos.Path.Compare.{NoNul}
use jeos.Vfs.{
  Vfs, Tables, Disk, enoent, is_dir, is_error, is_over, take_page, dentry_put, mount_over,
  set_dentry,
}
use jeos.Vfs.Lookup.{
  Located, failed, found, tmp_dentry, enter_child, answered, child_for, lookup_child, descend,
  lookup_step, vfs_lookup,
}
use jeos.Vfs.Calls.{parent_at, vfs_lookup_parent, take_mount, unmount, vfs_umount}
use jeos.Vfs.Parent.{at_leaf, vfs_lookup-parent}
use jeos.Vfs.Kept.{
  IsBare, IsUnstacked, Kept, if_cases, IsBare-Kept, dentry_put-Kept, is_over-mounted, other,
  IsUnstacked-Kept, tmp_dentry-Kept,
}

-- What covers an inode, if anything does, has no mount on its root.
mount_over-IsBare :
    {S : Type 0}
    → (i : ℕ) (ms : List ℕ) (v : Vfs S) → IsUnstacked ms v
    → (mount_over i ms v ≡ 0) ⊎ IsBare (v.mount_at (mount_over i ms v)).root v
unfolding mount_over
mount_over-IsBare i [] v u = inl refl
mount_over-IsBare i (m ∷ ms) v u = elim (Bool-cases (is_over m i v)) [
  | inl on ↦ inr (rw on (other (is_over-mounted m i v on) u.0))
  | inr off ↦ rw off (mount_over-IsBare i ms v u.1)
]

-- A look-up that failed has a negative code; one that did not is at a dentry without a mount.
abbrev pub EndsBare : {S : Type 0} → Located × Vfs S → Type 0
EndsBare (failed rc, v) = is_error rc ≡ true
EndsBare (found m d, v) = IsBare d v

sub_mounted : (sub root : ℕ) → (not (sub == 0) && not (root == 0)) ≡ true → sub ≢ 0
sub_mounted sub root on = ground arith

abbrev ChildBare : {S : Type 0} → (Located × ℕ) × Vfs S → Type 0
ChildBare r = EndsBare (r.0.0, r.1)

enter_child-EndsBare :
    {S : Type 0}
    → (mnt dir d rc i : ℕ) (v : Vfs S) → IsUnstacked v.mounts v
    → IsBare d v
    → ChildBare (enter_child mnt dir d rc i v)
unfolding enter_child
enter_child-EndsBare mnt dir d rc i v u b =
    let sub = mount_over i v.mounts v in
    let root = (v.mount_at sub).root in
    let put = dentry_put-Kept d v in
    if_cases ChildBare (is_error rc) _ _ (λ e. e)
      (λ e.
        if_cases ChildBare (i == 0) _ _ (λ e'. refl)
          (λ e'.
            if_cases ChildBare (not (sub == 0) && not (root == 0)) _ _
              (λ on.
                IsBare-Kept root v (dentry_put d v) put
                  (other (sub_mounted sub root on) (mount_over-IsBare i v.mounts v u)))
              (λ off. b)))

==_false : (d : ℕ) → (d == 0) ≡ false → d ≢ 0
==_false d e = ground arith

answered-EndsBare :
    {S : Type 0}
    → (mnt dir d : ℕ) (a : (ℕ × ℕ) × Disk S) (v : Vfs S) → IsUnstacked v.mounts v
    → (d ≢ 0 → IsBare d v)
    → ChildBare (answered mnt dir d a v)
unfolding answered
answered-EndsBare mnt dir d ((rc, i), disk) v u b =
    let w = set_dentry d (record (v.dentries d) { inode = i }) (record v { disk = disk }) in
    let kept : Kept v w = record { mounts = refl; mount_at = refl } in
    if_cases ChildBare (d == 0) _ _ (λ e. refl)
      (λ e.
        enter_child-EndsBare mnt dir d rc i w (IsUnstacked-Kept v.mounts v w kept u)
          (IsBare-Kept d v w kept (b (==_false d e))))

child_for-EndsBare :
    {S : Type 0}
    → (fs : Tables S) (mnt dir d : ℕ) (name : List ℕ) (v₁ v : Vfs S) → Kept v v₁
    → IsUnstacked v.mounts v
    → (d ≢ 0 → IsBare d v)
    → ChildBare (child_for fs mnt dir name (d, v₁) v)
unfolding child_for
child_for-EndsBare fs mnt dir d name v₁ v kept u b =
    let i = (v.dentries dir).inode in
    if_cases ChildBare (not (is_dir i v)) _ _ (λ e. refl)
      (λ e. elim (Option-cases (fs.lookup (v.disk.inodes i).iops)) [
        | inl missing ↦ rw missing refl
        | inr (op, on) ↦ rw on (
            answered-EndsBare mnt dir d (op i name v₁.disk) v₁
              (subst (λ ms. IsUnstacked ms v₁) (sym kept.mounts)
                (IsUnstacked-Kept v.mounts v v₁ kept u))
              (λ some_d. IsBare-Kept d v v₁ kept (b some_d)))
      ])

descend-EndsBare : {S : Type 0} (r : (Located × ℕ) × Vfs S) → ChildBare r → EndsBare (descend r)
unfolding descend
descend-EndsBare ((failed rc, dir), v) b = b
descend-EndsBare ((found m d, dir), v) b =
    if_cases (λ w. IsBare d w) (not (dir == v.root_dent) && not (dir == (v.mount_at m).root))
      (dentry_put dir v) v (λ e. IsBare-Kept d v (dentry_put dir v) (dentry_put-Kept dir v) b)
      (λ e. b)

-- The next page that kalloc gives out, 0 if there is none.
abbrev pub next_page : {S : Type 0} → Vfs S → ℕ
next_page v = (take_page v).0

tmp_dentry-page :
    {S : Type 0}
    → (s : List ℕ) (len parent : ℕ) (v : Vfs S) → IsBare (next_page v) v
    → (tmp_dentry s len parent v).0 ≢ 0
    → IsBare (tmp_dentry s len parent v).0 v
unfolding tmp_dentry
tmp_dentry-page s len parent v b =
    if_cases (λ (t : ℕ × Vfs _). t.0 ≢ 0 → IsBare t.0 v) (not (ltb len 256)) _ _
      (λ e no. absurd (no refl))
      (λ e.
        if_cases (λ (t : ℕ × Vfs _). t.0 ≢ 0 → IsBare t.0 v) ((take_page v).0 == 0) _ _
          (λ e' no. absurd (no refl)) (λ e' no. b))

-- A step to a name.
lookup_step-EndsBare :
    {S : Type 0}
    → (fs : Tables S) (m d : ℕ) (leaf : List ℕ) (v : Vfs S)
    → vfs_comp_eq leaf (length leaf) (46 ∷ []) ≡ false
    → vfs_comp_eq leaf (length leaf) (46 ∷ 46 ∷ []) ≡ false
    → IsUnstacked v.mounts v
    → IsBare (next_page v) v
    → EndsBare (lookup_step fs m d leaf (length leaf) v)
unfolding lookup_step
lookup_step-EndsBare fs m d leaf v dot dots u b =
    let t = tmp_dentry leaf (length leaf) d v in
    rw (lookup_step, dot, dots)
      (descend-EndsBare (lookup_child fs m d leaf (length leaf) v) (
        child_for-EndsBare fs m d t.0 (take (length leaf) leaf) t.1 v
          (tmp_dentry-Kept leaf (length leaf) d v) u (tmp_dentry-page leaf (length leaf) d v b)))

-- A path that ends in a name resolves to a dentry that no mount is on
vfs_lookup-EndsBare :
    {S : Type 0}
    → (fs : Tables S) (path : List ℕ) (v v' : Vfs S) (m d : ℕ) (leaf : List ℕ) → NoNul path
    → vfs_lookup_parent fs path v ≡ (parent_at m d leaf, v')
    → length leaf ≢ 0
    → vfs_comp_eq leaf (length leaf) (46 ∷ []) ≡ false
    → vfs_comp_eq leaf (length leaf) (46 ∷ 46 ∷ []) ≡ false
    → IsUnstacked v'.mounts v'
    → IsBare (next_page v') v'
    → EndsBare (vfs_lookup fs path v)
vfs_lookup-EndsBare fs path v v' m d leaf ok at some_leaf dot dots u b =
    let named : (length leaf == 0) ≡ false = ground (arith, some_leaf) in
    subst EndsBare (sym (vfs_lookup-parent fs path v ok ∙ ap (at_leaf fs) at ∙ rw named refl))
      (lookup_step-EndsBare fs m d leaf v' dot dots u b)

umounts :
    {S : Type 0} (r : Located × Vfs S) (f : (n d : ℕ) (ms : List ℕ) → Vfs S → ℕ × Vfs S)
    → EndsBare r
    → let c : ℕ × Vfs S = elim r.0 [
      | failed rc ↦ (rc, r.1)
      | found m d ↦ elim (take_mount d r.1.mounts r.1) [
        | none ↦ (enoent, r.1)
        | some (n, ms) ↦ f n d ms r.1
      ]
    ] in
      is_error c.0 ≡ true
umounts (failed rc, v) f b = b
umounts (found m d, v) f b = rw b refl

-- `vfs_umount` fails with an error on every path that ends in a name other than "." and "..", whether a
-- file system is mounted there or not, and whatever the file systems do: when the parent of the path is
-- found, no mount on a dentry has another mount on its root, and the page that kalloc gives out next is
-- not a dentry with a mount on it. The name resolves to the root of what is mounted, and `vfs_umount`
-- looks for a mount on that.
pub vfs_umount-fails :
    {S : Type 0}
    → (fs : Tables S) (path : List ℕ) (v v' : Vfs S) (m d : ℕ) (leaf : List ℕ) → NoNul path
    → vfs_lookup_parent fs path v ≡ (parent_at m d leaf, v')
    → length leaf ≢ 0
    → vfs_comp_eq leaf (length leaf) (46 ∷ []) ≡ false
    → vfs_comp_eq leaf (length leaf) (46 ∷ 46 ∷ []) ≡ false
    → IsUnstacked v'.mounts v'
    → IsBare (next_page v') v'
    → is_error (vfs_umount fs path v).0 ≡ true
unfolding vfs_umount
vfs_umount-fails fs path v v' m d leaf ok at some_leaf dot dots u b =
    umounts (vfs_lookup fs path v) (λ n d' ms w. unmount fs n d' ms w)
      (vfs_lookup-EndsBare fs path v v' m d leaf ok at some_leaf dot dots u b)
