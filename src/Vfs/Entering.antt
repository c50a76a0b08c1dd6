-- ===== src/Vfs/Entering.antt =====
-- A mount of kernel/vfs.c from the mount call to the look-ups that enter it.

use jeos.Prelude.{
  ℕ, ◌≡◌, ◌≢◌, refl, sym, subst, ap, ◌∙◌, inl, inr, Bool, true, false, not, ◌&&◌, ◌||◌, List, ◌∷◌,
  ◌==◌, if◌then◌else◌, List-cases, arith,
}
use jeos.Vfs.{
  Vfs, Tables, Mount, is_error, is_over, take_page, is_dir, mount_over, einval, enoent, enotdir,
  enomem,
}
use jeos.Vfs.Lookup.{found, enter_child, vfs_lookup}
use jeos.Vfs.Kept.{put_at-same}
use jeos.Vfs.Calls.{
  add_mount, mount_super, mount_on_dentry, mount_found, is_root_mount, find_fs, vfs_mount,
}

-- The calls of `enter_child` in `v` for an inode that is a directory with a mount of the list's first
-- place over it.
record Entered {S : Type 0} (v₀ v : Vfs S) (mp : ℕ) : Type 0 where
  pub some_mp : mp ≢ 0
  pub mnt : ℕ
  pub some_mnt : mnt ≢ 0
  pub first : v.mounts ≡ mnt ∷ v₀.mounts
  pub on : (v.mount_at mnt).mountpoint ≡ mp
  pub some_root : (v.mount_at mnt).root ≢ 0

-- A conditional that is equal to a success comes from the branch that can be one.
if_ok :
    {S : Type 0} (b : Bool) (rc : ℕ) (v w : Vfs S) (more : ℕ × Vfs S)
    → (b ≡ true → rc ≢ 0)
    → (if b then (rc, v) else more) ≡ (0, w)
    → (b ≡ false) × (more ≡ (0, w))
if_ok true rc v w more bad e = absurd (bad refl (ap (λ (t : ℕ × Vfs _). t.0) e))
if_ok false rc v w more bad e = (refl, e)

take_page-mounts : {S : Type 0} (v : Vfs S) → (take_page v).1.mounts ≡ v.mounts
unfolding take_page
take_page-mounts v = elim (List-cases v.disk.pages) [
  | inl e ↦ rw e refl
  | inr (p, ps, e) ↦ rw e refl
]

add_mount-Entered :
    {S : Type 0}
    → (sb root flags mp m : ℕ) (v : Vfs S) → mp ≢ 0
    → m ≢ 0
    → root ≢ 0
    → Entered v (add_mount sb root flags mp m v) mp
unfolding add_mount
add_mount-Entered sb root flags mp m v some_mp some_m some_root =
    let on : (mp == 0) ≡ false = ground (arith, some_mp) in
    rw (add_mount, on)
      (record {
        some_mp = some_mp;
        mnt = m;
        some_mnt = some_m;
        first = refl;
        on = ap (λ (t : Mount). t.mountpoint) (put_at-same m _ v.mount_at);
        some_root = subst (λ (t : Mount). t.root ≢ 0) (sym (put_at-same m _ v.mount_at)) some_root;
      })

Entered-mounts :
    {S : Type 0} (v v' w : Vfs S) (mp : ℕ) → v'.mounts ≡ v.mounts → Entered v' w mp → Entered v w mp
Entered-mounts v v' w mp e en = record {
  some_mp = en.some_mp;
  mnt = en.mnt;
  some_mnt = en.some_mnt;
  first = en.first ∙ ap (λ ms. en.mnt ∷ ms) e;
  on = en.on;
  some_root = en.some_root;
}

negative_nonzero : (rc : ℕ) → is_error rc ≡ true → rc ≢ 0
negative_nonzero rc h = ground (arith, h)

==_false : (d : ℕ) → (d == 0) ≡ false → d ≢ 0
==_false d e = ground arith

||_false : (a b : Bool) → (a || b) ≡ false → a ≡ false
||_false a b h = ground arith

mount_super-Entered :
    {S : Type 0} (fs : Tables S) (t sb rc flags mp : ℕ) (v w : Vfs S)
    → mp ≢ 0
    → mount_super fs t sb rc flags mp v ≡ (0, w)
    → Entered v w mp
unfolding mount_super
mount_super-Entered fs t sb rc flags mp v w some_mp e =
    let root = (v.supers sb).root in
    let m = (take_page v).0 in
    let (good, e₁) = if_ok (is_error rc) rc _ w _ (negative_nonzero rc) e in
    let (rooted, e₂) =
      if_ok ((root == 0) || ((v.dentries root).inode == 0)) einval _ w _ (λ h. ground arith) e₁ in
    let (some_m, e₃) = if_ok (m == 0) enomem _ w _ (λ h. ground arith) e₂ in
    subst (λ u. Entered v u mp) (ap (λ (t : ℕ × Vfs _). t.1) e₃)
      (Entered-mounts v (take_page v).1 _ mp (take_page-mounts v) (
        add_mount-Entered sb root flags mp m (take_page v).1 some_mp (==_false m some_m)
          (==_false root (||_false (root == 0) _ rooted))))

mount_on_dentry-Entered :
    {S : Type 0} (fs : Tables S) (t device flags : ℕ) (opts : List ℕ) (mp : ℕ) (v w : Vfs S)
    → mp ≢ 0
    → mount_on_dentry fs t device flags opts mp v ≡ (0, w)
    → Entered v w mp
unfolding mount_on_dentry
mount_on_dentry-Entered fs t device flags opts mp v w some_mp e =
    let (some_sb, e₁) = if_ok ((take_page v).0 == 0) enomem _ w _ (λ h. ground arith) e in
    Entered-mounts v _ w mp (take_page-mounts v)
      (mount_super-Entered fs t (take_page v).0 _ flags mp _ w some_mp e₁)

vfs_mount-Entered :
    {S : Type 0} (fs : Tables S) (name : List ℕ) (device : ℕ) (target : List ℕ) (flags : ℕ)
    (opts : List ℕ) (v v' w : Vfs S) (m mp : ℕ)
    → v.root_mnt ≢ 0
    → vfs_lookup fs target v ≡ (found m mp, v')
    → vfs_mount fs name device target flags opts v ≡ (0, w)
    → Entered v' w mp
unfolding vfs_mount mount_found
vfs_mount-Entered fs name device target flags opts v v' w m mp rooted at e =
    let t = find_fs name v.fs_types v in
    let i = (v'.dentries mp).inode in
    let not_root : is_root_mount target v ≡ false = ground (arith, rooted) in
    let (known, e₁) = if_ok (t == 0) enoent _ w _ (λ h. ground arith) e in
    let e₂ : mount_found fs t device flags opts (found m mp, v') ≡ (0, w) =
      rw (not_root, at) at e₁ in
    let (some_mp, e₃) = if_ok ((mp == 0) || (i == 0)) einval _ w _ (λ h. ground arith) e₂ in
    let (dir, e₄) = if_ok (not (is_dir i v')) enotdir _ w _ (λ h. ground arith) e₃ in
    mount_on_dentry-Entered fs t device flags opts mp v' w
      (==_false mp (||_false (mp == 0) _ some_mp)) e₄

is_over-same :
    {S : Type 0} (n i : ℕ) (v : Vfs S)
    → (v.mount_at n).mountpoint ≢ 0
    → (v.dentries (v.mount_at n).mountpoint).inode ≢ 0
    → (v.disk.inodes (v.dentries (v.mount_at n).mountpoint).inode).ino ≡ (v.disk.inodes i).ino
    → (v.disk.inodes (v.dentries (v.mount_at n).mountpoint).inode).sb ≡ (v.disk.inodes i).sb
    → is_over n i v ≡ true
is_over-same n i v some_mp some_at same_ino same_sb = ground arith

mount_over-first :
    {S : Type 0}
    → (n i : ℕ) (ms : List ℕ) (v : Vfs S) → v.mounts ≡ n ∷ ms
    → is_over n i v ≡ true
    → mount_over i v.mounts v ≡ n
unfolding mount_over
mount_over-first n i ms v first covered =
    ap (λ ns. mount_over i ns v) first ∙ rw (mount_over, covered) refl

both : (a b : ℕ) → a ≢ 0 → b ≢ 0 → (not (a == 0) && not (b == 0)) ≡ true
both a b h k = ground arith

-- In the state that a `vfs_mount` leaves that returned 0 on a target that resolved to the dentry `mp`, the
-- list of the mounts has the new one in front, and when a look-up enters a child there whose inode has
-- the number and the superblock of the inode of `mp`, it goes on at the root of the new mount, from any
-- directory, also where an older mount is on the same directory. With a root of the namespace set
-- before, and for any operations of the file systems.
pub vfs_mount-enter :
    {S : Type 0} (fs : Tables S) (name : List ℕ) (device : ℕ) (target : List ℕ) (flags : ℕ)
    (opts : List ℕ) (v v' w : Vfs S) (m mp : ℕ) (mnt dir d rc i : ℕ)
    → v.root_mnt ≢ 0
    → vfs_lookup fs target v ≡ (found m mp, v')
    → vfs_mount fs name device target flags opts v ≡ (0, w)
    → is_error rc ≡ false
    → i ≢ 0
    → (w.dentries mp).inode ≢ 0
    → (w.disk.inodes (w.dentries mp).inode).ino ≡ (w.disk.inodes i).ino
    → (w.disk.inodes (w.dentries mp).inode).sb ≡ (w.disk.inodes i).sb
    → (n : ℕ) × (w.mounts ≡ n ∷ v'.mounts)
      × ((enter_child mnt dir d rc i w).0 ≡ (found n (w.mount_at n).root, (w.mount_at n).root))
unfolding enter_child mount_over
vfs_mount-enter fs name device target flags opts v v' w m mp mnt dir d rc i rooted at e ok some_i
      some_at same_ino same_sb =
    let en = vfs_mount-Entered fs name device target flags opts v v' w m mp rooted at e in
    let n = en.mnt in
    let covered : is_over n i w ≡ true =
      is_over-same n i w (rw en.on en.some_mp) (rw en.on some_at) (rw en.on same_ino)
        (rw en.on same_sb) in
    let over = mount_over-first n i v'.mounts w en.first covered in
    let made : (i == 0) ≡ false = ground (arith, some_i) in
    let there : (not (n == 0) && not ((w.mount_at n).root == 0)) ≡ true =
      both n _ en.some_mnt en.some_root in
    (n, en.first, rw (enter_child, ok, made, over, there) refl)
