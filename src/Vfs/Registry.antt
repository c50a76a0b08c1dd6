-- ===== src/Vfs/Registry.antt =====
-- The list of file system types in kernel/vfs.c.
use jeos.Prelude.{
  ℕ, ◌≡◌, ◌≢◌, ◌⊎◌, refl, ap, ◌∙◌, inl, inr, Bool, true, false, not, ◌||◌, Option, none, some, List,
  [], ◌∷◌, ◌==◌, if◌then◌else◌, Bool-cases, Option-cases, arith,
}
use jeos.Vfs.{Vfs}
use jeos.Vfs.Calls.{fs_named, find_fs, register_fs, is_mounted, without, unregister_fs}
use jeos.Vfs.Kept.{if_cases}

-- Every type of the list has a name, which finds none of the types behind it.
unfoldable pub IsDistinct : {S : Type 0} → List ℕ → Vfs S → Type 0
IsDistinct [] v = Unit
IsDistinct (t ∷ ts) v =
    (t ≢ 0) × ((n : List ℕ) × ((v.types t).name ≡ some n) × (find_fs n ts v ≡ 0)) × IsDistinct ts v

-- The calls on the list, and what a sequence of them leaves.
pub data Change : Type 0 where
  registers : (t : ℕ) → Change
  unregisters : (t : ℕ) → Change

pub change : {S : Type 0} → Change → Vfs S → Vfs S
change (registers t) v = (register_fs t v).1
change (unregisters t) v = (unregister_fs t v).1

pub changes : {S : Type 0} → List Change → Vfs S → Vfs S
changes [] v = v
changes (c ∷ cs) v = changes cs (change c v)

find_fs-listed :
    {S : Type 0}
    → (n : List ℕ) (ts us : List ℕ) (v : Vfs S)
    → find_fs n ts (record v { fs_types = us }) ≡ find_fs n ts v
unfolding find_fs
find_fs-listed n [] us v = refl
find_fs-listed n (t ∷ ts) us v =
    ap (λ more. if fs_named n t v then t else more) (find_fs-listed n ts us v)

IsDistinct-listed :
    {S : Type 0}
    → (ts us : List ℕ) (v : Vfs S) → IsDistinct ts v
    → IsDistinct ts (record v { fs_types = us })
unfolding IsDistinct
IsDistinct-listed [] us v d = tt
IsDistinct-listed (t ∷ ts) us v (some_t, (n, e, f), d) =
    (some_t, (n, e, find_fs-listed n ts us v ∙ f), IsDistinct-listed ts us v d)

-- A property of a choice by an option.
option_cases :
    {A B : Type 0}
    → (P : B → Type 0) (o : Option A) (x : B) (f : A → B) → P x
    → ((a : A) → o ≡ some a → P (f a))
    → P (elim o [ none ↦ x | some a ↦ f a ])
option_cases P none x f out on = out
option_cases P (some a) x f out on = on a refl

without-some :
    (a t : ℕ) (ts us : List ℕ)
    → without a (t ∷ ts) ≡ some us
    → (us ≡ ts) ⊎ ((cs : List ℕ) × (without a ts ≡ some cs) × (us ≡ t ∷ cs))
unfolding without
without-some a t ts us e = elim (Bool-cases (t == a)) [
  | inl it ↦ (let e' : some ts ≡ some us = rw it at e in inl cc)
  | inr not_it ↦ elim (Option-cases (without a ts)) [
    | inl out ↦ (let no : ◌≡◌ {A = Option (List ℕ)} none (some us) = rw (not_it, out) at e in cc)
    | inr (cs, on) ↦ (let e' : some (t ∷ cs) ≡ some us = rw (not_it, on) at e in inr (cs, on, cc))
  ]
]

found_none : (b : Bool) (t m : ℕ) → t ≢ 0 → (if b then t else m) ≡ 0 → (b ≡ false) × (m ≡ 0)
found_none true t m some_t e = absurd (some_t e)
found_none false t m some_t e = (refl, e)

-- Without a type, a name finds no more than before.
find_fs-without :
    {S : Type 0}
    → (n : List ℕ) (a : ℕ) (ts us : List ℕ) (v : Vfs S) → IsDistinct ts v
    → without a ts ≡ some us
    → find_fs n ts v ≡ 0
    → find_fs n us v ≡ 0
unfolding find_fs IsDistinct without
find_fs-without n a [] us v d e f = let no : ◌≡◌ {A = Option (List ℕ)} none (some us) = e in cc
find_fs-without n a (t ∷ ts) us v (some_t, named, d) e f =
    let (off, f') = found_none (fs_named n t v) t (find_fs n ts v) some_t f in
    elim (without-some a t ts us e) [
      | inl same ↦ rw same f'
      | inr (cs, on, same) ↦ rw (same, find_fs, off) (find_fs-without n a ts cs v d on f')
    ]

IsDistinct-without :
    {S : Type 0}
    → (a : ℕ) (ts us : List ℕ) (v : Vfs S) → IsDistinct ts v
    → without a ts ≡ some us
    → IsDistinct us v
unfolding IsDistinct without
IsDistinct-without a [] us v d e = let no : ◌≡◌ {A = Option (List ℕ)} none (some us) = e in cc
IsDistinct-without a (t ∷ ts) us v (some_t, (n, e', f), d) e = elim (without-some a t ts us e) [
  | inl same ↦ rw same d
  | inr (cs, on, same) ↦
      rw same
        (some_t, (n, e', find_fs-without n a ts cs v d on f), IsDistinct-without a ts cs v d on)
]

some_type : (t : ℕ) (b : Bool) → ((t == 0) || b) ≡ false → t ≢ 0
some_type t b e = ground arith

is_zero : (n : ℕ) → not (n == 0) ≡ false → n ≡ 0
is_zero n e = ground arith

-- What a call leaves is distinct.
abbrev Left : {S : Type 0} → ℕ × Vfs S → Type 0
Left r = IsDistinct r.1.fs_types r.1

register_fs-IsDistinct :
    {S : Type 0} (t : ℕ) (v : Vfs S) → IsDistinct v.fs_types v → Left (register_fs t v)
unfolding register_fs IsDistinct
register_fs-IsDistinct t v d =
    let listed = IsDistinct-listed v.fs_types (t ∷ v.fs_types) v d in
    option_cases Left (v.types t).name _ _ d (λ n named.
      if_cases Left ((t == 0) || not (v.types t).mounts) _ _ (λ e. d)
        (λ e.
          if_cases Left (not (find_fs n v.fs_types v == 0)) _ _ (λ e'. d)
            (λ e'. (
              some_type t _ e,
              (n, named, find_fs-listed n v.fs_types (t ∷ v.fs_types) v ∙ is_zero _ e'),
              listed,
            ))))

unregister_fs-IsDistinct :
    {S : Type 0} (t : ℕ) (v : Vfs S) → IsDistinct v.fs_types v → Left (unregister_fs t v)
unfolding unregister_fs
unregister_fs-IsDistinct t v d =
    if_cases Left (t == 0) _ _ (λ e. d)
      (λ e.
        if_cases Left (is_mounted t v.mounts v) _ _ (λ e'. d)
          (λ e'.
            option_cases Left (without t v.fs_types) _ _ d
              (λ us out. IsDistinct-listed us us v (IsDistinct-without t v.fs_types us v d out))))

-- Through any sequence of `vfs_register_fs` and `vfs_unregister_fs`, with whatever results, the types in
-- the list stay named and their names stay different: from such a list, as the empty one of `vfs_init`
-- is, to such a list.
pub changes-IsDistinct :
    {S : Type 0}
    → (cs : List Change) (v : Vfs S) → IsDistinct v.fs_types v
    → IsDistinct (changes cs v).fs_types (changes cs v)
unfolding changes change
changes-IsDistinct [] v d = d
changes-IsDistinct (registers t ∷ cs) v d =
    changes-IsDistinct cs (register_fs t v).1 (register_fs-IsDistinct t v d)
changes-IsDistinct (unregisters t ∷ cs) v d =
    changes-IsDistinct cs (unregister_fs t v).1 (unregister_fs-IsDistinct t v d)
