-- ===== src/Vfs/Kept.antt =====
-- Mounts in kernel/vfs.c that a call leaves as they are, and the dentries that they are on.
use jeos.Prelude.{
  ℕ, ◌<◌, ◌≡◌, ◌≢◌, ◌⊎◌, refl, ap, ap₂, ◌∙◌, inl, inr, true, false, not, ◌&&◌, none, some, Option,
  Bool, List, [], ◌∷◌, ◌==◌, if◌then◌else◌, List-cases, length, take, ltb, arith,
}
use jeos.Vfs.{
  Vfs, Mount, put_at, set_dentry, down, give_page, is_over, take_page, inode_put, dentry_put,
}
use jeos.Vfs.Lookup.{tmp_dentry}
use jeos.Vfs.Calls.{take_mount}

-- No mount is on the dentry.
abbrev pub IsBare : {S : Type 0} → (d : ℕ) → Vfs S → Type 0
IsBare d v = take_mount d v.mounts v ≡ none

-- No mount of the list that is on a dentry has another mount on its root.
abbrev pub IsUnstacked : {S : Type 0} → List ℕ → Vfs S → Type 0
IsUnstacked [] v = Unit
IsUnstacked (m ∷ ms) v =
    (((v.mount_at m).mountpoint ≡ 0) ⊎ IsBare (v.mount_at m).root v) × IsUnstacked ms v

-- The mounts are as they were.
pub record Kept {S : Type 0} (v w : Vfs S) : Type 0 where
  pub mounts : w.mounts ≡ v.mounts
  pub mount_at : w.mount_at ≡ v.mount_at

-- A property of a conditional, from what its test says in each branch.
pub if_cases :
    {A : Type 0}
    → (P : A → Type 0) (b : Bool) (x y : A) → (b ≡ true → P x)
    → (b ≡ false → P y)
    → P (if b then x else y)
if_cases P true x y on off = on refl
if_cases P false x y on off = off refl

pub take_mount-Kept :
    {S : Type 0}
    → (d : ℕ) (ms : List ℕ) (v w : Vfs S) → w.mount_at ≡ v.mount_at
    → take_mount d ms w ≡ take_mount d ms v
unfolding take_mount
take_mount-Kept d [] v w e = refl
take_mount-Kept d (m ∷ ms) v w e =
    ap₂
      (λ (b : Bool) (more : Option (ℕ × List ℕ)).
        if b then some (m, ms) else elim more [ none ↦ none | some (n, ns) ↦ some (n, m ∷ ns) ])
      (ap (λ (f : ℕ → Mount). (f m).mountpoint == d) e) (take_mount-Kept d ms v w e)

pub IsBare-Kept : {S : Type 0} (d : ℕ) (v w : Vfs S) → Kept v w → IsBare d v → IsBare d w
IsBare-Kept d v w kept b =
    ap (λ ms. take_mount d ms w) kept.mounts ∙ take_mount-Kept d v.mounts v w kept.mount_at ∙ b

pub dentry_put-Kept : {S : Type 0} (d : ℕ) (v : Vfs S) → Kept v (dentry_put d v)
unfolding dentry_put inode_put
dentry_put-Kept d v =
    if_cases (Kept v) (d == 0) v _ (λ e. record { mounts = refl; mount_at = refl })
      (λ e.
        if_cases (Kept v) ((down (v.dentries d).refcnt == 0) && ((v.dentries d).parent == 0)) _ _
          (λ e.
            if_cases (λ w. Kept v (give_page d w)) ((v.dentries d).inode == 0) _ _
              (λ e. record { mounts = refl; mount_at = refl })
              (λ e. record { mounts = refl; mount_at = refl }))
          (λ e. record { mounts = refl; mount_at = refl }))

-- A mount that covers an inode is on a dentry.
pub is_over-mounted :
    {S : Type 0} (m i : ℕ) (v : Vfs S) → is_over m i v ≡ true → (v.mount_at m).mountpoint ≢ 0
is_over-mounted m i v on = ground arith

pub other : {A B : Type 0} → ¬ A → A ⊎ B → B
other no_a (inl a) = absurd (no_a a)
other no_a (inr b) = b

pub IsUnstacked-Kept :
    {S : Type 0} → (ms : List ℕ) (v w : Vfs S) → Kept v w → IsUnstacked ms v → IsUnstacked ms w
IsUnstacked-Kept [] v w kept u = tt
IsUnstacked-Kept (m ∷ ms) v w kept u = (
  elim u.0 [
    | inl z ↦ inl (ap (λ (f : ℕ → Mount). (f m).mountpoint) kept.mount_at ∙ z)
    | inr b ↦ inr (
        ap (λ (f : ℕ → Mount). take_mount (f m).root w.mounts w) kept.mount_at
        ∙ IsBare-Kept (v.mount_at m).root v w kept b)
  ],
  IsUnstacked-Kept ms v w kept u.1,
)

pub take_page-Kept : {S : Type 0} (v : Vfs S) → Kept v (take_page v).1
unfolding take_page
take_page-Kept v = elim (List-cases v.disk.pages) [
  | inl e ↦ record { mounts = rw e refl; mount_at = rw e refl }
  | inr (p, ps, e) ↦ record { mounts = rw e refl; mount_at = rw e refl }
]

pub tmp_dentry-Kept :
    {S : Type 0} → (s : List ℕ) (len parent : ℕ) (v : Vfs S) → Kept v (tmp_dentry s len parent v).1
unfolding tmp_dentry take_page
tmp_dentry-Kept s len parent v =
    let got = take_page-Kept v in
    if_cases (λ (t : ℕ × Vfs _). Kept v t.1) (not (ltb len 256)) _ _
      (λ e. record { mounts = refl; mount_at = refl })
      (λ e.
        if_cases (λ (t : ℕ × Vfs _). Kept v t.1) ((take_page v).0 == 0) _ _ (λ e'. got)
          (λ e'. record { mounts = got.mounts; mount_at = got.mount_at }))

pub put_at-same : {A : Type 0} (a : ℕ) (x : A) (f : ℕ → A) → put_at a x f a ≡ x
unfolding put_at
put_at-same a x f = let same : (a == a) ≡ true = ground arith in rw same refl

pub put_at-other : {A : Type 0} (a b : ℕ) (x : A) (f : ℕ → A) → a ≢ b → put_at a x f b ≡ f b
unfolding put_at
put_at-other a b x f h = let off : (a == b) ≡ false = ground (arith, h) in rw off refl

pub tmp_dentry-given :
    {S : Type 0}
    → (s : List ℕ) (parent p : ℕ) (ps : List ℕ) (v : Vfs S) → v.disk.pages ≡ p ∷ ps
    → p ≢ 0
    → length s < 256
    → tmp_dentry s (length s) parent v ≡ (
      p,
      set_dentry p
          (record {
            refcnt = 1;
            name = take (length s) s;
            inode = 0;
            parent = parent;
            is_mountpoint = false;
          })
          (record v { disk = record v.disk { pages = ps } }),
    )
unfolding tmp_dentry take_page
tmp_dentry-given s parent p ps v pages some_p short =
    let fits : ltb (length s) 256 ≡ true = ground (arith, short) in
    let given : (p == 0) ≡ false = ground (arith, some_p) in
    rw (tmp_dentry, fits, pages, given) refl

-- A temporary dentry of a walk is put: it stays, with no references.
pub dentry_put-child :
    {S : Type 0}
    → (d : ℕ) (v : Vfs S) → d ≢ 0
    → (v.dentries d).parent ≢ 0
    → dentry_put d v
      ≡ set_dentry d (record (v.dentries d) { refcnt = down (v.dentries d).refcnt }) v
unfolding dentry_put
dentry_put-child d v some_d child =
    let on : (d == 0) ≡ false = ground (arith, some_d) in
    let kept : ((v.dentries d).parent == 0) ≡ false = ground (arith, child) in
    rw (dentry_put, on, kept) (no_free (down (v.dentries d).refcnt == 0) _ _)
  where
    no_free : {A : Type 0} (b : Bool) (x y : A) → (if b && false then x else y) ≡ y
    no_free true x y = refl
    no_free false x y = refl
