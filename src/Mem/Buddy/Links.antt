-- ===== src/Mem/Buddy/Links.antt =====
-- The `next` pointers that kernel/mem.c keeps in the first eight bytes of the free blocks: no call writes
-- one anywhere else.
use jeos.Prelude.{
  ℕ, zero, suc, ◌+◌, ◌-◌, ◌%◌, ◌^◌, ◌<◌, ◌≡◌, ◌∙◌, refl, sym, subst, Bool, true, false, ◌&&◌, ◌||◌,
  Option, none, some, List, [], ◌∷◌, inl, inr, ltb, leb, ◌==◌, if◌then◌else◌, Bool-cases,
  Option-cases, List-cases, arith,
}
use jeos.Mem.Buddy.{
  FreeLists, max_order, bytes, update, buddy_of, remove, merge, insert, first_free, split,
  take_block, write_next, first_of, link_past, remove_links, merge_links, insert_links, split_links,
  take_links,
}

-- Whether `p` is one of the first eight bytes of a block of the list.
unfoldable pub has_link : (p : ℕ) → List ℕ → Bool
has_link p [] = false
has_link p (a ∷ l) = (leb a p && ltb p (a + 8)) || has_link p l

-- An address that holds no part of a link.
abbrev pub IsApart : FreeLists → (p : ℕ) → Type 0
IsApart f p = (j : ℕ) → has_link p (f j) ≡ false

write_next-first :
    (a w p : ℕ) (l : List ℕ) (mem : ℕ → ℕ)
    → has_link p (a ∷ l) ≡ false
    → write_next a w mem p ≡ mem p
unfolding write_next has_link
write_next-first a w p l mem apart = ground (arith, apart)

has_link-rest : (a p : ℕ) (l : List ℕ) → has_link p (a ∷ l) ≡ false → has_link p l ≡ false
unfolding has_link
has_link-rest a p l apart = ground (arith, apart)

push_at :
    (f : FreeLists) (i a p j : ℕ)
    → has_link p (update f i (a ∷ f i) j) ≡ false
    → (if i == j then has_link p (a ∷ f i) else has_link p (f j)) ≡ false
push_at f i a p j apart = elim (Bool-cases (i == j)) [
  | inl same ↦ (let q : has_link p (a ∷ f i) ≡ false = rw same at apart in rw same q)
  | inr other ↦ (let q : has_link p (f j) ≡ false = rw other at apart in rw other q)
]

push-IsApart :
    (f : FreeLists) (i a p : ℕ)
    → IsApart (update f i (a ∷ f i)) p
    → (has_link p (a ∷ f i) ≡ false) × IsApart f p
push-IsApart f i a p apart =
    let here : (i == i) ≡ true = ground arith in
    let at = λ (j : ℕ). push_at f i a p j (apart j) in
    let first : has_link p (a ∷ f i) ≡ false = ground (arith, at i, here) in
    (
      first,
      λ j. elim (Bool-cases (i == j)) [
        | inl same ↦
            subst (λ n. has_link p (f n) ≡ false) (ground (arith, same))
              (has_link-rest a p (f i) first)
        | inr other ↦ ground (arith, at j, other)
      ],
    )

split-IsApart :
    (r k block p : ℕ) (f : FreeLists) (mem : ℕ → ℕ)
    → IsApart (split r k block f) p
    → IsApart f p × (split_links r k block f mem p ≡ mem p)
unfolding split split_links
split-IsApart zero k block p f mem apart = (apart, refl)
split-IsApart (suc r) k block p f mem apart =
    let upper = (block + bytes (k - 1)) % 2 ^ 64 in
    let (later, same) =
      split-IsApart r (k - 1) block p (update f (k - 1) (upper ∷ f (k - 1)))
        (write_next upper (first_of (f (k - 1))) mem) apart in
    let (first, others) = push-IsApart f (k - 1) upper p later in
    (others, same ∙ write_next-first upper (first_of (f (k - 1))) p (f (k - 1)) mem first)

-- Taking a block writes links of free blocks only.
pub take_links-same :
    (order block p : ℕ) (f f' : FreeLists) (mem : ℕ → ℕ)
    → take_block order f ≡ some (block, f')
    → IsApart f' p
    → take_links order f mem p ≡ mem p
unfolding take_block take_links
take_links-same order block p f f' mem run apart =
    let k = first_free (max_order - order) order f in
    elim (Bool-cases (k == max_order)) [
      | inl top ↦ rw (take_links, top) refl
      | inr low ↦ elim (List-cases (f k)) [
        | inl e ↦ rw (take_links, low, e) refl
        | inr (b, rest, e) ↦
            (let got : ◌≡◌ {A = Option (ℕ × FreeLists)}
                  (some (b, split (k - order) k b (update f k rest))) (some (block, f')) =
                rw (take_block, low, e) at run in
              let same : split (k - order) k b (update f k rest) ≡ f' = cc in
              let apart' : IsApart (split (k - order) k b (update f k rest)) p =
                subst (λ g. IsApart g p) (sym same) apart in
              rw (take_links, low, e)
                (split-IsApart (k - order) k b p (update f k rest) mem apart').1)
      ]
    ]

link_past-same :
    (xs l : List ℕ) (before addr p : ℕ) (mem : ℕ → ℕ)
    → remove addr xs ≡ some l
    → has_link p (before ∷ l) ≡ false
    → link_past before addr xs mem p ≡ mem p
unfolding link_past remove
link_past-same [] l before addr p mem run apart = refl
link_past-same (x ∷ xs) l before addr p mem run apart = elim (Bool-cases (x == addr)) [
  | inl here ↦ rw (here) (write_next-first before (first_of xs) p l mem apart)
  | inr other ↦ elim (Option-cases (remove addr xs)) [
    | inl e ↦ (let no : ◌≡◌ {A = Option (List ℕ)} none (some l) = rw (other, e) at run in cc)
    | inr (r, e) ↦
        (let got : ◌≡◌ {A = Option (List ℕ)} (some (x ∷ r)) (some l) = rw (other, e) at run in
          let same : x ∷ r ≡ l = cc in
          let rest = has_link-rest before p l apart in
          rw other (
            link_past-same xs r x addr p mem e (subst (λ n. has_link p n ≡ false) (sym same) rest)))
  ]
]

remove_links-same :
    (xs l : List ℕ) (addr p : ℕ) (mem : ℕ → ℕ)
    → remove addr xs ≡ some l
    → has_link p l ≡ false
    → remove_links addr xs mem p ≡ mem p
unfolding remove_links remove
remove_links-same [] l addr p mem run apart = refl
remove_links-same (x ∷ xs) l addr p mem run apart = elim (Bool-cases (x == addr)) [
  | inl here ↦ rw here refl
  | inr other ↦ elim (Option-cases (remove addr xs)) [
    | inl e ↦ (let no : ◌≡◌ {A = Option (List ℕ)} none (some l) = rw (other, e) at run in cc)
    | inr (r, e) ↦
        (let got : ◌≡◌ {A = Option (List ℕ)} (some (x ∷ r)) (some l) = rw (other, e) at run in
          let same : x ∷ r ≡ l = cc in
          rw other (
            link_past-same xs r x addr p mem e
              (subst (λ n. has_link p n ≡ false) (sym same) apart)))
  ]
]

-- The walk leaves the lists of lower orders.
merge-lower : (r addr order j : ℕ) (f : FreeLists) → j < order → (merge r addr order f).2 j ≡ f j
unfolding merge
merge-lower zero addr order j f low = refl
merge-lower (suc r) addr order j f low =
    elim (Option-cases (remove (buddy_of addr order) (f order))) [
      | inl e ↦ rw (merge, e) refl
      | inr (l, e) ↦
          (let other : (order == j) ≡ false = ground (arith, low) in
            rw (merge, e)
              (merge-lower r (if ltb (buddy_of addr order) addr then buddy_of addr order else addr)
                  (order + 1) j (update f order l) (omega (arith, low))
                ∙ rw other refl))
    ]

merge_links-same :
    (r addr order p : ℕ) (f : FreeLists) (mem : ℕ → ℕ)
    → IsApart (merge r addr order f).2 p
    → merge_links r addr order f mem p ≡ mem p
unfolding merge merge_links
merge_links-same zero addr order p f mem apart = refl
merge_links-same (suc r) addr order p f mem apart =
    elim (Option-cases (remove (buddy_of addr order) (f order))) [
      | inl e ↦ rw (merge_links, e) refl
      | inr (l, e) ↦
          (let lower = if ltb (buddy_of addr order) addr then buddy_of addr order else addr in
            let apart' : IsApart (merge r lower (order + 1) (update f order l)).2 p = λ j.
              (let raw : has_link p ((merge (suc r) addr order f).2 j) ≡ false = apart j in
                rw (merge, e) at raw) in
            let here : (order == order) ≡ true = ground arith in
            let kept : (merge r lower (order + 1) (update f order l)).2 order ≡ l =
              merge-lower r lower (order + 1) order (update f order l) (omega arith)
              ∙ (rw here refl) in
            let free : has_link p l ≡ false =
              subst (λ n. has_link p n ≡ false) kept (apart' order) in
            rw (merge_links, e)
              (merge_links-same r lower (order + 1) p (update f order l)
                  (remove_links (buddy_of addr order) (f order) mem) apart'
                ∙ remove_links-same (f order) l (buddy_of addr order) p mem e free))
    ]

-- Freeing a block writes links of free blocks only.
pub insert_links-same :
    (addr order p : ℕ) (f : FreeLists) (mem : ℕ → ℕ)
    → IsApart (insert addr order f) p
    → insert_links addr order f mem p ≡ mem p
unfolding insert insert_links
insert_links-same addr order p f mem apart =
    let r = max_order - 1 - order in
    let (a, o, f') = merge r addr order f in
    let (first, others) = push-IsApart f' o a p apart in
    write_next-first a (first_of (f' o)) p (f' o) (merge_links r addr order f mem) first
    ∙ merge_links-same r addr order p f mem others
