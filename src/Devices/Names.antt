-- ===== src/Devices/Names.antt =====
-- The registry of kernel/devfs.c as a map from names to nodes.
use mathlib.Core.List.{List-discrete}
use mathlib.Core.Bool.{false≢true}
use jeos.Prelude.{
  ℕ, ◌≡◌, refl, sym, ap, subst, ◌∙◌, ℕ_discrete, Bool, true, false, ◌&&◌, none, some, Option-cases,
  Bool-cases, ◌↔◌, inl, inr, List, [], ◌∷◌, length, if◌then◌else◌, arith,
}
use jeos.Path.{string_length, kstrcmp, same_bytes}
use jeos.Path.Compare.{IsString, compare_bytes-zero}
use jeos.Devices.{Node, called, exists, fill_slot, is_named, find}

-- Equality of names.
abbrev pub same : List ℕ → List ℕ → Bool
same s t = elim (List-discrete ℕ_discrete s t) [ yes e ↦ true | no n ↦ false ]

-- A node in use has a string for its name, with its length.
abbrev pub IsNode : Node → Type 0
IsNode n = (n.in_use ≡ true) → IsString n.name × (n.name_len ≡ length n.name)

unfoldable pub AllNodes : List Node → Type 0
AllNodes [] = Unit
AllNodes (n ∷ nodes) = IsNode n × AllNodes nodes

pub length-string_length : (s : List ℕ) → IsString s → string_length s ≡ length s
unfolding string_length IsString
length-string_length [] is = refl
length-string_length (x ∷ s) (pos, byte, is) = ground (arith, length-string_length s is)

same_bytes_refl : (s : List ℕ) → same_bytes (length s) s s ≡ true
unfolding same_bytes
same_bytes_refl [] = refl
same_bytes_refl (x ∷ s) = ground (arith, same_bytes_refl s)

same_bytes_sound : (s t : List ℕ) → length s ≡ length t → same_bytes (length t) s t ≡ true → s ≡ t
unfolding same_bytes
same_bytes_sound [] [] l e = refl
same_bytes_sound [] (y ∷ t) l e = absurd (omega arith)
same_bytes_sound (x ∷ s) [] l e = absurd (omega arith)
same_bytes_sound (x ∷ s) (y ∷ t) l e = ground (arith, same_bytes_sound s t)

pub called-same :
    (name : List ℕ) (n : Node)
    → IsString name
    → IsNode n
    → called name n ≡ (n.in_use && same n.name name)
unfolding kstrcmp
called-same name n is good = elim (Bool-cases n.in_use) [
  | inr e ↦ ground arith
  | inl e ↦
      elim (List-discrete ℕ_discrete n.name name)
        as (λ d. called name n ≡ (n.in_use && elim d [ yes q ↦ true | no q ↦ false ])) [
          | yes q ↦ ground (arith, e, (compare_bytes-zero n.name name (good e).0 is).1 q)
          | no q ↦ ground (arith, e, (compare_bytes-zero n.name name (good e).0 is).0)
        ]
]

pub is_named-same :
    (name : List ℕ) (n : Node)
    → IsNode n
    → is_named name (length name) n ≡ (n.in_use && same n.name name)
is_named-same name n good = elim (Bool-cases n.in_use) [
  | inr e ↦ ground arith
  | inl e ↦
      elim (List-discrete ℕ_discrete n.name name)
        as (λ d.
          is_named name (length name) n ≡ (n.in_use && elim d [ yes q ↦ true | no q ↦ false ])) [
            | yes q ↦
                let test : same_bytes (length name) n.name name ≡ true =
                  subst (λ r. same_bytes (length r) n.name r ≡ true) q (same_bytes_refl n.name) in
                ground (arith, e, test, (good e).1, ap length q)
            | no q ↦ ground (arith, e, (good e).1, same_bytes_sound n.name name)
          ]
]

-- The two comparisons of the registry say the same.
called-is_named :
    (name : List ℕ) (n : Node)
    → IsString name
    → IsNode n
    → called name n ≡ is_named name (length name) n
called-is_named name n is good = called-same name n is good ∙ sym (is_named-same name n good)

pub exists-find :
    (name : List ℕ) (nodes : List Node)
    → IsString name
    → AllNodes nodes
    → exists name nodes ≡ false
    → find name (length name) nodes ≡ none
unfolding exists find AllNodes
exists-find name [] is good e = refl
exists-find name (n ∷ nodes) is (good, all) e =
    ground (arith, called-is_named name n is good, exists-find name nodes is all)

pub same_iff : (s t : List ℕ) → (same s t ≡ true) ↔ (s ≡ t)
same_iff s t =
    elim (List-discrete ℕ_discrete s t)
      as (λ d. (elim d as (λ _. Bool) [ yes e ↦ true | no n ↦ false ] ≡ true) ↔ (s ≡ t)) [
        | yes e ↦ ((λ _. e), (λ _. refl))
        | no n ↦ ((λ q. absurd (false≢true q)), (λ e. absurd (n e)))
      ]

pub same_third : (s t q : List ℕ) → same s q ≡ true → same t q ≡ true → same t s ≡ true
same_third s t q a b = (same_iff t s).1 ((same_iff t q).0 b ∙ sym ((same_iff s q).0 a))

pub find-fill_slot :
    (new : Node) (nodes rest : List Node) (q : List ℕ)
    → AllNodes nodes
    → IsNode new
    → new.in_use ≡ true
    → IsString new.name
    → exists new.name nodes ≡ false
    → fill_slot new nodes ≡ some rest
    → find q (length q) rest ≡ (if same new.name q then some new else find q (length q) nodes)
unfolding fill_slot find exists AllNodes
find-fill_slot new [] rest q all good used is fresh e = cc
find-fill_slot new (n ∷ nodes) rest q (good_n, all) good used is fresh e =
    elim (Bool-cases n.in_use) [
      | inr free ↦
          let filled : new ∷ nodes ≡ rest = ground (arith, free) in
          subst
            (λ r.
              find q (length q) r
              ≡ (if same new.name q then some new else find q (length q) (n ∷ nodes)))
            filled (ground (arith, is_named-same q new good, free))
      | inl busy ↦ elim (Option-cases (fill_slot new nodes)) [
        | inl full ↦ ground (arith, busy, full)
        | inr (later, some_later) ↦
            let filled : n ∷ later ≡ rest = ground (arith, busy, some_later) in
            let fresh_tail : exists new.name nodes ≡ false = ground arith in
            let below = find-fill_slot new nodes later q all good used is fresh_tail some_later in
            subst
              (λ r.
                find q (length q) r
                ≡ (if same new.name q then some new else find q (length q) (n ∷ nodes)))
              filled
              (ground (
                arith,
                below,
                busy,
                called-same new.name n is good_n,
                is_named-same q n good_n,
                same_third new.name n.name q,
              ))
      ]
    ]

-- No two nodes in use have one name.
unfoldable pub Distinct : List Node → Type 0
Distinct [] = Unit
Distinct (n ∷ nodes) =
    ((n.in_use ≡ true) → find n.name (length n.name) nodes ≡ none) × Distinct nodes

-- The invariant of the registry.
pub record IsValid (nodes : List Node) : Type 0 where
  pub all : AllNodes nodes
  pub distinct : Distinct nodes

pub fill_slot-AllNodes :
    (new : Node) (nodes rest : List Node)
    → AllNodes nodes
    → IsNode new
    → fill_slot new nodes ≡ some rest
    → AllNodes rest
unfolding fill_slot AllNodes
fill_slot-AllNodes new [] rest all good e = cc
fill_slot-AllNodes new (n ∷ nodes) rest (good_n, all) good e = elim (Bool-cases n.in_use) [
  | inr free ↦
      let filled : new ∷ nodes ≡ rest = ground (arith, free) in subst AllNodes filled (good, all)
  | inl busy ↦ elim (Option-cases (fill_slot new nodes)) [
    | inl full ↦ ground (arith, busy, full)
    | inr (later, some_later) ↦
        let filled : n ∷ later ≡ rest = ground (arith, busy, some_later) in
        subst AllNodes filled (good_n, fill_slot-AllNodes new nodes later all good some_later)
  ]
]

pub fill_slot-Distinct :
    (new : Node) (nodes rest : List Node)
    → AllNodes nodes
    → Distinct nodes
    → IsNode new
    → new.in_use ≡ true
    → IsString new.name
    → exists new.name nodes ≡ false
    → fill_slot new nodes ≡ some rest
    → Distinct rest
unfolding fill_slot Distinct AllNodes exists
fill_slot-Distinct new [] rest all distinct good used is fresh e = cc
fill_slot-Distinct new (n ∷ nodes) rest (good_n, all) (alone, distinct) good used is fresh e =
    elim (Bool-cases n.in_use) [
      | inr free ↦
          let filled : new ∷ nodes ≡ rest = ground (arith, free) in
          let none_left = exists-find new.name nodes is all (ground arith) in
          subst Distinct filled ((λ _. none_left), distinct)
      | inl busy ↦ elim (Option-cases (fill_slot new nodes)) [
        | inl full ↦ ground (arith, busy, full)
        | inr (later, some_later) ↦
            let filled : n ∷ later ≡ rest = ground (arith, busy, some_later) in
            let fresh_tail : exists new.name nodes ≡ false = ground arith in
            let same_n =
              find-fill_slot new nodes later n.name all good used is fresh_tail some_later in
            let still : find n.name (length n.name) later ≡ none = ground (
              arith,
              same_n,
              alone busy,
              busy,
              called-same new.name n is good_n,
              (same_iff new.name n.name).0,
              (same_iff n.name new.name).1,
            ) in
            subst Distinct filled (
              (λ _. still),
              fill_slot-Distinct new nodes later all distinct good used is fresh_tail some_later,
            )
      ]
    ]
