-- ===== src/Devices/Calls.antt =====
-- What `devfs_register` and `devfs_unregister` do to the registry.
use mathlib.Core.Bool.{false≢true}
use native.Mathlib.Nat.{mod-eq_of_lt}
use jeos.Prelude.{
  ℕ, ◌%◌, ◌<◌, ◌≡◌, ◌^◌, refl, sym, ap, subst, ◌∙◌, true, false, none, some, Option-cases,
  Bool-cases, inl, inr, List, [], ◌∷◌, length, if◌then◌else◌, arith,
}
use jeos.Path.{string_length}
use jeos.Path.Compare.{IsString}
use jeos.Devices.{
  Node, Registry, ok, called, exists, fill_slot, register, release, unregister, find,
}
use jeos.Devices.Names.{
  same, IsNode, AllNodes, Distinct, IsValid, exists-find, find-fill_slot, same_iff, same_third,
  called-same, is_named-same, fill_slot-AllNodes, fill_slot-Distinct, length-string_length,
}

find-release :
    (name : List ℕ) (nodes rest : List Node) (q : List ℕ)
    → IsString name
    → AllNodes nodes
    → Distinct nodes
    → release name nodes ≡ some rest
    → find q (length q) rest ≡ (if same name q then none else find q (length q) nodes)
unfolding release find AllNodes Distinct
find-release name [] rest q is all distinct e = cc
find-release name (n ∷ nodes) rest q is (good, all) (alone, distinct) e =
    elim (Bool-cases (called name n)) [
      | inl hit ↦
          let gone : Node = record n { in_use = false } in
          let filled : gone ∷ nodes ≡ rest = ground (arith, hit) in
          let busy : n.in_use ≡ true = ground arith in
          let its : n.name ≡ name =
            (same_iff n.name name).0 (ground (arith, called-same name n is good)) in
          let left : find q (length q) nodes
              ≡ (if same name q then none else find q (length q) (n ∷ nodes)) =
            elim (Bool-cases (same name q)) [
              | inl e ↦
                  subst (λ r. find r (length r) nodes ≡ none) (its ∙ (same_iff name q).0 e)
                    (alone busy)
                  ∙ ground (arith, e)
              | inr e ↦ ground (arith, e, is_named-same q n good, ap (λ r. same r q) its)
            ] in
          subst
            (λ r.
              find q (length q) r ≡ (if same name q then none else find q (length q) (n ∷ nodes)))
            filled left
      | inr miss ↦ elim (Option-cases (release name nodes)) [
        | inl nothing ↦ ground (arith, miss, nothing)
        | inr (later, some_later) ↦
            let filled : n ∷ later ≡ rest = ground (arith, miss, some_later) in
            let below = find-release name nodes later q is all distinct some_later in
            subst
              (λ r.
                find q (length q) r ≡ (if same name q then none else find q (length q) (n ∷ nodes)))
              filled
              (ground (
                arith,
                below,
                is_named-same q n good,
                called-same name n is good,
                same_third name n.name q,
              ))
      ]
    ]

release-AllNodes :
    (name : List ℕ) (nodes rest : List Node)
    → AllNodes nodes
    → release name nodes ≡ some rest
    → AllNodes rest
unfolding release AllNodes
release-AllNodes name [] rest all e = cc
release-AllNodes name (n ∷ nodes) rest (good, all) e = elim (Bool-cases (called name n)) [
  | inl hit ↦
      let gone : Node = record n { in_use = false } in
      let filled : gone ∷ nodes ≡ rest = ground (arith, hit) in
      subst AllNodes filled ((λ used. absurd (false≢true used)), all)
  | inr miss ↦ elim (Option-cases (release name nodes)) [
    | inl nothing ↦ ground (arith, miss, nothing)
    | inr (later, some_later) ↦
        let filled : n ∷ later ≡ rest = ground (arith, miss, some_later) in
        subst AllNodes filled (good, release-AllNodes name nodes later all some_later)
  ]
]

release-Distinct :
    (name : List ℕ) (nodes rest : List Node)
    → IsString name
    → AllNodes nodes
    → Distinct nodes
    → release name nodes ≡ some rest
    → Distinct rest
unfolding release AllNodes Distinct
release-Distinct name [] rest is all distinct e = cc
release-Distinct name (n ∷ nodes) rest is (good, all) (alone, distinct) e =
    elim (Bool-cases (called name n)) [
      | inl hit ↦
          let gone : Node = record n { in_use = false } in
          let filled : gone ∷ nodes ≡ rest = ground (arith, hit) in
          subst Distinct filled ((λ used. absurd (false≢true used)), distinct)
      | inr miss ↦ elim (Option-cases (release name nodes)) [
        | inl nothing ↦ ground (arith, miss, nothing)
        | inr (later, some_later) ↦
            let filled : n ∷ later ≡ rest = ground (arith, miss, some_later) in
            let below = find-release name nodes later n.name is all distinct some_later in
            let still : (n.in_use ≡ true) → find n.name (length n.name) later ≡ none =
              λ used. ground (arith, below, alone used) in
            subst Distinct filled
              (still, release-Distinct name nodes later is all distinct some_later)
      ]
    ]

-- A registration that succeeds is of a name that was free. Afterwards the name is found with the mode,
-- operations and data given and the next inode number, every other name as before, and the registry is
-- valid again.
pub find-register :
    (r r' : Registry) (name q : List ℕ) (mode fops priv : ℕ)
    → IsValid r.nodes
    → IsString name
    → register (some name) mode fops priv r ≡ (ok, r')
    → (find name (length name) r.nodes ≡ none)
      × (find q (length q) r'.nodes ≡ (
          if same name q
          then some (record {
            name = name;
            name_len = length name;
            ino = r.next_ino;
            mode = mode;
            fops = fops;
            priv = priv;
            in_use = true;
          })
          else find q (length q) r.nodes))
      × IsValid r'.nodes
unfolding register
find-register r r' name q mode fops priv valid is e =
    let node : ℕ → Node = λ l. record {
      name = name;
      name_len = l;
      ino = r.next_ino;
      mode = mode;
      fops = fops;
      priv = priv;
      in_use = true;
    } in
    let new = node (length name) in
    let fresh : exists name r.nodes ≡ false = ground arith in
    let short : string_length name < 64 = ground arith in
    let size : string_length name % 2 ^ 16 ≡ length name =
      mod-eq_of_lt (omega (arith, short)) ∙ length-string_length name is in
    let good : IsNode new = λ used. (is, refl) in
    elim (Option-cases (fill_slot (node (string_length name % 2 ^ 16)) r.nodes)) [
      | inl full ↦ ground (arith, full, fresh)
      | inr (nodes, filled) ↦
          let here : fill_slot new r.nodes ≡ some nodes =
            ap (λ l. fill_slot (node l) r.nodes) (sym size) ∙ filled in
          let now : nodes ≡ r'.nodes = ground (arith, filled, fresh) in
          (
            exists-find name r.nodes is valid.all fresh,
            subst
                (λ l.
                  find q (length q) l
                  ≡ (if same name q then some new else find q (length q) r.nodes))
                now (find-fill_slot new r.nodes nodes q valid.all good refl is fresh here),
            subst IsValid now (record {
              all = fill_slot-AllNodes new r.nodes nodes valid.all good here;
              distinct =
                  fill_slot-Distinct new r.nodes nodes valid.all valid.distinct good refl is fresh
                    here;
            }),
          )
    ]

-- A node that is released is found no more, every other name is found as before, and the registry is
-- valid again.
pub find-unregister :
    (r r' : Registry) (name q : List ℕ)
    → IsValid r.nodes
    → IsString name
    → unregister (some name) r ≡ (ok, r')
    → (find q (length q) r'.nodes ≡ (if same name q then none else find q (length q) r.nodes))
      × IsValid r'.nodes
unfolding unregister
find-unregister r r' name q valid is e = elim (Option-cases (release name r.nodes)) [
  | inl nothing ↦ ground (arith, nothing)
  | inr (nodes, left) ↦
      let now : nodes ≡ r'.nodes = ground (arith, left) in
      (
        subst (λ l. find q (length q) l ≡ (if same name q then none else find q (length q) r.nodes))
            now (find-release name r.nodes nodes q is valid.all valid.distinct left),
        subst IsValid now (record {
          all = release-AllNodes name r.nodes nodes valid.all left;
          distinct = release-Distinct name r.nodes nodes is valid.all valid.distinct left;
        }),
      )
]
