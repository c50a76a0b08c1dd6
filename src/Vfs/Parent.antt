-- ===== src/Vfs/Parent.antt =====
-- The two look-ups of kernel/vfs.c: `vfs_lookup` goes where `vfs_lookup_parent` goes, and one step on.
use jeos.Prelude.{
  ℕ, zero, suc, ◌≡◌, ◌≢◌, ◌≤◌, refl, sym, ap, ◌∙◌, inl, inr, true, false, ◌||◌, some, List, [], ◌∷◌,
  ◌==◌, if◌then◌else◌, Bool-cases, length-take_of_le, length, take, arith,
}
use jeos.Path.{skip_slashes, next_component, components}
use jeos.Path.Compare.{NoNul}
use jeos.Path.Walk.{split, nonempty}
use jeos.Vfs.{Vfs, Tables}
use jeos.Vfs.Lookup.{Located, failed, found, path_start, lookup_step, path_loop, vfs_lookup}
use jeos.Vfs.Calls.{Parent, no_parent, parent_at, parent_loop, vfs_lookup_parent}
use jeos.Vfs.Walk.{
  lookup_step-take, length-next, components_end, components_more, components-zero, components_fuel,
}

-- The step from a parent to the leaf; a path without a leaf stays.
abbrev pub at_leaf : {S : Type 0} → Tables S → Parent × Vfs S → Located × Vfs S
at_leaf fs (no_parent rc, v) = (failed rc, v)
at_leaf fs (parent_at m d leaf, v) =
    if length leaf == 0 then (found m d, v) else lookup_step fs m d leaf (length leaf) v

at_leaf-take :
    {S : Type 0}
    → (fs : Tables S) (m d n : ℕ) (s : List ℕ) (v : Vfs S) → (n == 0) ≡ false
    → n ≤ length s
    → at_leaf fs (parent_at m d (take n s), v) ≡ lookup_step fs m d s n v
at_leaf-take fs m d n s v more h =
    let some_leaf : (length (take n s) == 0) ≡ false = rw (length-take_of_le n s h) more in
    rw some_leaf (lookup_step-take fs m d n s v h)

-- At the end of a path the loop stops.
loop_end :
    {S : Type 0}
    → (fs : Tables S) (k : ℕ) (p : List ℕ) (ds : List (List ℕ)) (m d : ℕ) (v : Vfs S)
    → components k p ≡ some ds
    → ((next_component p).1 == 0) ≡ true
    → path_loop fs k m d p v ≡ (found m d, v)
unfolding path_loop
loop_end fs zero p ds m d v e end = absurd (components-zero p ds e)
loop_end fs (suc k) p ds m d v e end = rw (path_loop, end) refl

-- A way to go on that stays gives the step itself.
stays :
    {S : Type 0} (r : Located × Vfs S) (f : (mnt dent : ℕ) → Vfs S → Located × Vfs S)
    → ((mnt dent : ℕ) (v : Vfs S) → f mnt dent v ≡ (found mnt dent, v))
    → ◌≡◌ {A = Located × Vfs S}
        (elim r.0 [ failed rc ↦ (failed rc, r.1) | found m d ↦ f m d r.1 ])
        r
stays (failed rc, v) f same = refl
stays (found m d, v) f same = same m d v

both_on :
    {S : Type 0} (fs : Tables S) (r : Located × Vfs S)
    (f : (mnt dent : ℕ) → Vfs S → Located × Vfs S) (g : (mnt dent : ℕ) → Vfs S → Parent × Vfs S)
    → ((mnt dent : ℕ) (v : Vfs S) → f mnt dent v ≡ at_leaf fs (g mnt dent v))
    → ◌≡◌ {A = Located × Vfs S}
        (elim r.0 [ failed rc ↦ (failed rc, r.1) | found m d ↦ f m d r.1 ])
        (at_leaf fs (elim r.0 [ failed rc ↦ (no_parent rc, r.1) | found m d ↦ g m d r.1 ]))
both_on fs (failed rc, v) f g same = refl
both_on fs (found m d, v) f g same = same m d v

loops :
    {S : Type 0}
    → (fs : Tables S) (k : ℕ) (p : List ℕ) (cs : List (List ℕ)) (m d : ℕ) (v : Vfs S)
    → components k p ≡ some cs
    → path_loop fs k m d p v ≡ at_leaf fs (parent_loop fs k m d p v)
unfolding path_loop parent_loop
loops fs zero p cs m d v e = absurd (components-zero p cs e)
loops fs (suc k) p cs m d v e =
    let (s, n, q) = next_component p in
    elim (Bool-cases ((next_component p).1 == 0)) [
      | inl end ↦ rw (path_loop, parent_loop, end) refl
      | inr more ↦
          (let (ds, on, all) = components_more k p cs more e in
            elim (Bool-cases ((next_component q).1 == 0)) [
              | inl last ↦
                  rw (path_loop, parent_loop, more, last)
                    (stays (lookup_step fs m d s n v) (λ m' d' w. path_loop fs k m' d' q w)
                        (λ m' d' w. loop_end fs k q ds m' d' w on last)
                      ∙ sym (at_leaf-take fs m d n s v more (length-next p)))
              | inr further ↦
                  rw (path_loop, parent_loop, more, further)
                    (both_on fs (lookup_step fs m d s n v) (λ m' d' w. path_loop fs k m' d' q w)
                      (λ m' d' w. parent_loop fs k m' d' q w)
                      (λ m' d' w. loops fs k q ds m' d' w on))
            ])
    ]

-- `vfs_lookup` is `vfs_lookup_parent` and then one step from the parent to the leaf, in the result and
-- in the state: a failure of the parent is the failure of the path, and a path without a leaf is at the
-- parent. For any operations of the file systems and any path without a zero byte.
pub vfs_lookup-parent :
    {S : Type 0}
    → (fs : Tables S) (path : List ℕ) (v : Vfs S) → NoNul path
    → vfs_lookup fs path v ≡ at_leaf fs (vfs_lookup_parent fs path v)
unfolding vfs_lookup vfs_lookup_parent
vfs_lookup-parent fs path v ok = elim (Bool-cases ((v.root_mnt == 0) || (v.root_dent == 0))) [
  | inl unset ↦ rw (vfs_lookup, unset) refl
  | inr set ↦
      rw (vfs_lookup, set)
        (loops fs (suc (length path)) (skip_slashes path) (nonempty (split path)) (path_start v).0
          (path_start v).1 v (components_fuel path ok))
]

-- A path without a first component has no components.
components_stop :
    (k : ℕ) (p : List ℕ) → components k p ≡ some [] → ((next_component p).1 == 0) ≡ true
components_stop zero p e = absurd (components-zero p [] e)
components_stop (suc k) p e = elim (Bool-cases ((next_component p).1 == 0)) [
  | inl end ↦ end
  | inr more ↦
      (let (ds, on, all) = components_more k p [] more e in
        let no : [] ≡ take (next_component p).1 (next_component p).0 ∷ ds = all in cc)
]

tail_same : {c d : List ℕ} {ds : List (List ℕ)} → c ∷ [] ≡ d ∷ ds → ds ≡ []
tail_same e = cc

head_same : {c d : List ℕ} {ds : List (List ℕ)} → c ∷ [] ≡ d ∷ ds → d ≡ c
head_same e = cc

-- The parent of a path of one name is where the path starts.
pub vfs_lookup_parent-single :
    {S : Type 0}
    → (fs : Tables S) (path leaf : List ℕ) (v : Vfs S) → NoNul path
    → nonempty (split path) ≡ leaf ∷ []
    → v.root_mnt ≢ 0
    → v.root_dent ≢ 0
    → vfs_lookup_parent fs path v ≡ (parent_at (path_start v).0 (path_start v).1 leaf, v)
unfolding vfs_lookup_parent parent_loop
vfs_lookup_parent-single fs path leaf v ok single mnt dent =
    let p = skip_slashes path in
    let (s, n, q) = next_component p in
    let set : ((v.root_mnt == 0) || (v.root_dent == 0)) ≡ false = ground arith in
    let all : components (suc (length path)) p ≡ some (leaf ∷ []) =
      components_fuel path ok ∙ ap some single in
    elim (Bool-cases ((next_component p).1 == 0)) [
      | inl end ↦
          (let no : leaf ∷ [] ≡ [] = components_end (length path) p (leaf ∷ []) end all in cc)
      | inr more ↦
          (let (ds, on, at) = components_more (length path) p (leaf ∷ []) more all in
            let behind : components (length path) q ≡ some [] = on ∙ ap some (tail_same at) in
            let named : take n s ≡ leaf = head_same at in
            let last = components_stop (length path) q behind in
            rw (vfs_lookup_parent, set, parent_loop, more, last, named) refl)
    ]
