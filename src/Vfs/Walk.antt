-- ===== src/Vfs/Walk.antt =====
-- The path walk of kernel/vfs.c component by component: `vfs_lookup` is the walk over the names that
-- stand between the slashes of the path.
use jeos.Prelude.{
  ℕ, zero, suc, ◌≤◌, ◌≡◌, ◌≢◌, refl, sym, ap, ap₂, ◌∙◌, inl, inr, true, false, ◌||◌, none, some,
  Option, List, [], ◌∷◌, ◌==◌, if◌then◌else◌, Bool-cases, Option-cases, length-take_of_le, length,
  take, arith,
}
use jeos.Path.{
  first, rest, kstrlen, string_length, same_bytes, vfs_comp_eq, skip_slashes, component_length,
  next_component, components,
}
use jeos.Path.Compare.{NoNul}
use jeos.Path.Walk.{split, nonempty, components-split, components-same, next_component-skip_slashes}
use jeos.Vfs.{Vfs, Tables}
use jeos.Vfs.Lookup.{
  Located, failed, found, path_start, tmp_dentry, child_for, lookup_child, lookup_step, path_loop,
  vfs_lookup,
}

-- The walk over names, from a mount and a dentry.
unfoldable pub walk :
    {S : Type 0} → Tables S → List (List ℕ) → (mnt cur : ℕ) → Vfs S → Located × Vfs S
walk fs [] mnt cur v = (found mnt cur, v)
walk fs (c ∷ cs) mnt cur v =
    let (r, v') = lookup_step fs mnt cur c (length c) v in
    elim r [ failed rc ↦ (failed rc, v') | found m d ↦ walk fs cs m d v' ]

take_idem : (n : ℕ) (s : List ℕ) → take n (take n s) ≡ take n s
take_idem zero s = refl
take_idem (suc n) [] = refl
take_idem (suc n) (x ∷ s) = ap (λ t. x ∷ t) (take_idem n s)

same_bytes-take :
    (n : ℕ) (s lit : List ℕ) → n ≤ length s → same_bytes n (take n s) lit ≡ same_bytes n s lit
unfolding same_bytes
same_bytes-take zero s lit h = refl
same_bytes-take (suc n) [] lit h = absurd (omega (arith, h))
same_bytes-take (suc n) (x ∷ s) lit h =
    ap (λ b. if x == first lit then b else false)
      (same_bytes-take n s (rest lit) (omega (arith, h)))

vfs_comp_eq-take :
    (n : ℕ) (s lit : List ℕ) → n ≤ length s → vfs_comp_eq (take n s) n lit ≡ vfs_comp_eq s n lit
unfolding vfs_comp_eq kstrlen string_length
vfs_comp_eq-take n s lit h =
    ap (λ b. if string_length lit == n then b else false) (same_bytes-take n s lit h)

tmp_dentry-take :
    {S : Type 0}
    → (n : ℕ) (s : List ℕ) (dir : ℕ) (v : Vfs S)
    → tmp_dentry (take n s) n dir v ≡ tmp_dentry s n dir v
unfolding tmp_dentry
tmp_dentry-take n s dir v = rw (take_idem n s) refl

lookup_child-take :
    {S : Type 0}
    → (fs : Tables S) (mnt cur n : ℕ) (s : List ℕ) (v : Vfs S)
    → lookup_child fs mnt cur (take n s) n v ≡ lookup_child fs mnt cur s n v
lookup_child-take fs mnt cur n s v =
    ap₂ (λ name t. child_for fs mnt cur name t v) (take_idem n s) (tmp_dentry-take n s cur v)

-- A step reads no more of the path than its component.
pub lookup_step-take :
    {S : Type 0}
    → (fs : Tables S) (mnt cur n : ℕ) (s : List ℕ) (v : Vfs S) → n ≤ length s
    → lookup_step fs mnt cur (take n s) (length (take n s)) v ≡ lookup_step fs mnt cur s n v
unfolding lookup_step
lookup_step-take fs mnt cur n s v h =
    ap (λ k. lookup_step fs mnt cur (take n s) k v) (length-take_of_le n s h)
    ∙ rw
        (
          vfs_comp_eq-take n s (46 ∷ []) h,
          vfs_comp_eq-take n s (46 ∷ 46 ∷ []) h,
          lookup_child-take fs mnt cur n s v,
        )
        refl

length-component : (s : List ℕ) → component_length s ≤ length s
unfolding component_length
length-component [] = omega arith
length-component (x ∷ s) = ground (arith, length-component s)

pub length-next : (p : List ℕ) → let (s, n, q) = next_component p in n ≤ length s
unfolding next_component
length-next p = ground (arith, length-component (skip_slashes p))

-- The components of a path: none, or the first one and those of what is behind it.
pub components_end :
    (k : ℕ) (p : List ℕ) (cs : List (List ℕ))
    → ((next_component p).1 == 0) ≡ true
    → components (suc k) p ≡ some cs
    → cs ≡ []
unfolding components
components_end k p cs end e = let e' : some [] ≡ some cs = rw end at e in cc

pub components_more :
    (k : ℕ) (p : List ℕ) (cs : List (List ℕ))
    → let (s, n, q) = next_component p in
      (n == 0) ≡ false
      → components (suc k) p ≡ some cs
      → (ds : List (List ℕ)) × (components k q ≡ some ds) × (cs ≡ take n s ∷ ds)
unfolding components
components_more k p cs more e =
    let (s, n, q) = next_component p in
    elim (Option-cases (components k q)) [
      | inl out ↦
          let no : ◌≡◌ {A = Option (List (List ℕ))} none (some cs) = rw (more, out) at e in cc
      | inr (ds, on) ↦
          (let e' : ◌≡◌ {A = Option (List (List ℕ))} (some (take n s ∷ ds)) (some cs) =
              rw (more, on) at e in
            (ds, on, cc))
    ]

pub components-zero : (p : List ℕ) (cs : List (List ℕ)) → ¬ (components zero p ≡ some cs)
unfolding components
components-zero p cs e = let no : ◌≡◌ {A = Option (List (List ℕ))} none (some cs) = e in cc

-- The walk behind a step.
abbrev go_on : {S : Type 0} → Tables S → List (List ℕ) → Located × Vfs S → Located × Vfs S
go_on fs cs (r, v) = elim r [ failed rc ↦ (failed rc, v) | found m d ↦ walk fs cs m d v ]

-- Two ways to go on from a step are the same when they are from every place.
on_found :
    {S : Type 0} (r : Located × Vfs S) (f g : (mnt dent : ℕ) → Vfs S → Located × Vfs S)
    → ((mnt dent : ℕ) (v : Vfs S) → f mnt dent v ≡ g mnt dent v)
    → ◌≡◌ {A = Located × Vfs S}
        (elim r.0 [ failed rc ↦ (failed rc, r.1) | found m d ↦ f m d r.1 ])
        (elim r.0 [ failed rc ↦ (failed rc, r.1) | found m d ↦ g m d r.1 ])
on_found (failed rc, v) f g same = refl
on_found (found m d, v) f g same = same m d v

-- The loop of `vfs_lookup` is the walk over the components.
pub path_loop-walk :
    {S : Type 0}
    → (fs : Tables S) (k : ℕ) (p : List ℕ) (cs : List (List ℕ)) (mnt cur : ℕ) (v : Vfs S)
    → components k p ≡ some cs
    → path_loop fs k mnt cur p v ≡ walk fs cs mnt cur v
unfolding path_loop walk
path_loop-walk fs zero p cs mnt cur v e = absurd (components-zero p cs e)
path_loop-walk fs (suc k) p cs mnt cur v e =
    let (s, n, q) = next_component p in
    elim (Bool-cases ((next_component p).1 == 0)) [
      | inl end ↦ rw (path_loop, end, components_end k p cs end e) refl
      | inr more ↦
          (let (ds, rest_ds, all) = components_more k p cs more e in
            let first_step = lookup_step-take fs mnt cur n s v (length-next p) in
            rw (path_loop, more, all)
              (on_found (lookup_step fs mnt cur s n v) (λ m d w. path_loop fs k m d q w)
                  (λ m d w. walk fs ds m d w) (λ m d w. path_loop-walk fs k q ds m d w rest_ds)
                ∙ ap (λ t. go_on fs ds t) (sym first_step)))
    ]

pub components_fuel :
    (p : List ℕ)
    → NoNul p
    → components (suc (length p)) (skip_slashes p) ≡ some (nonempty (split p))
components_fuel p ok =
    components-same (length p) (skip_slashes p) p (sym (next_component-skip_slashes p))
    ∙ components-split (suc (length p)) p ok (omega arith)

-- `vfs_lookup` ends, and is the walk over the names that stand between the slashes of the path, from the
-- root of the namespace or of the file system mounted over it, one `lookup_step` for each name: the result,
-- an error or a mount and a dentry, and the state. For any operations of the file systems, on any path
-- without a zero byte, once a root is set.
pub vfs_lookup-walk :
    {S : Type 0}
    → (fs : Tables S) (path : List ℕ) (v : Vfs S) → NoNul path
    → v.root_mnt ≢ 0
    → v.root_dent ≢ 0
    → vfs_lookup fs path v ≡ walk fs (nonempty (split path)) (path_start v).0 (path_start v).1 v
unfolding vfs_lookup
vfs_lookup-walk fs path v ok mnt dent =
    let set : ((v.root_mnt == 0) || (v.root_dent == 0)) ≡ false = ground arith in
    rw set (
      path_loop-walk fs (suc (length path)) (skip_slashes path) (nonempty (split path))
        (path_start v).0 (path_start v).1 v (components_fuel path ok))
