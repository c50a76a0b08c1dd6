-- ===== src/Path/Walk.antt =====
-- The path walk of kernel/vfs.c goes through the nonempty parts between the slashes.
use jeos.Prelude.{
  ℕ, zero, suc, ◌+◌, ◌≤◌, ◌<◌, ◌≡◌, ◌≢◌, refl, sym, subst, ap, ◌∙◌, inl, inr, false, none, some,
  List, [], ◌∷◌, ◌==◌, if◌then◌else◌, Bool-cases, length, take, drop, length-drop, arith,
}
use jeos.Path.{first, skip_slashes, component_length, next_component, components}
use jeos.Path.Compare.{NoNul}

unfoldable pub extend : ℕ → List (List ℕ) → List (List ℕ)
extend x [] = (x ∷ []) ∷ []
extend x (c ∷ cs) = (x ∷ c) ∷ cs

-- The parts of a path between its slashes, the empty ones too.
unfoldable pub split : List ℕ → List (List ℕ)
split [] = [] ∷ []
split (x ∷ s) = if x == 47 then [] ∷ split s else extend x (split s)

unfoldable pub nonempty : List (List ℕ) → List (List ℕ)
nonempty [] = []
nonempty ([] ∷ cs) = nonempty cs
nonempty ((x ∷ c) ∷ cs) = (x ∷ c) ∷ nonempty cs

-- The parts behind the first one.
behind : List ℕ → List (List ℕ)
behind [] = []
behind (x ∷ s) = split s

nonempty-skip_slashes : (p : List ℕ) → nonempty (split (skip_slashes p)) ≡ nonempty (split p)
unfolding skip_slashes split nonempty
nonempty-skip_slashes [] = refl
nonempty-skip_slashes (x ∷ p) = ground (arith, nonempty-skip_slashes p)

split-first :
    (s : List ℕ)
    → NoNul s
    → split s ≡ take (component_length s) s ∷ behind (drop (component_length s) s)
unfolding split component_length behind NoNul extend
split-first [] ok = refl
split-first (x ∷ s) ok = elim (Bool-cases (x == 47)) [
  | inl slash ↦ let not_nul : (x == 0) ≡ false = ground (arith, ok.0) in rw (slash, not_nul) refl
  | inr letter ↦
      let not_nul : (x == 0) ≡ false = ground (arith, ok.0) in
      rw (letter, not_nul)
        (ap (extend x) (split-first s ok.1)
          ∙ ap (λ n. take n (x ∷ s) ∷ behind (drop n (x ∷ s))) {x = suc (component_length s)}
              {y = component_length s + 1} (omega arith))
]

-- Behind a component the path is at its end or at a slash.
nonempty-behind :
    (s : List ℕ)
    → NoNul s
    → let t = drop (component_length s) s in nonempty (behind t) ≡ nonempty (split t)
unfolding split component_length behind NoNul extend nonempty
nonempty-behind [] ok = refl
nonempty-behind (x ∷ s) ok = elim (Bool-cases (x == 47)) [
  | inl slash ↦
      let not_nul : (x == 0) ≡ false = ground (arith, ok.0) in
      rw (slash, not_nul, split, slash) refl
  | inr letter ↦
      let not_nul : (x == 0) ≡ false = ground (arith, ok.0) in
      rw (letter, not_nul)
        (subst (λ n. nonempty (behind (drop n (x ∷ s))) ≡ nonempty (split (drop n (x ∷ s))))
          {x = suc (component_length s)} (omega arith) (nonempty-behind s ok.1))
]

NoNul-skip_slashes : (p : List ℕ) → NoNul p → NoNul (skip_slashes p)
unfolding skip_slashes NoNul
NoNul-skip_slashes [] ok = tt
NoNul-skip_slashes (x ∷ p) ok = ground (arith, NoNul-skip_slashes p ok.1)

NoNul-drop : (n : ℕ) (p : List ℕ) → NoNul p → NoNul (drop n p)
unfolding NoNul
NoNul-drop zero p ok = ok
NoNul-drop (suc n) [] ok = tt
NoNul-drop (suc n) (x ∷ p) ok = NoNul-drop n p ok.1

length-skip_slashes : (p : List ℕ) → length (skip_slashes p) ≤ length p
unfolding skip_slashes
length-skip_slashes [] = omega arith
length-skip_slashes (x ∷ p) = ground (arith, length-skip_slashes p)

-- After the slashes, the path is at its end or at a component.
pub skip_slashes-first : (p : List ℕ) → first (skip_slashes p) ≢ 47
unfolding skip_slashes
skip_slashes-first [] = ground arith
skip_slashes-first (x ∷ p) = ground (arith, skip_slashes-first p)

skip_slashes_idem : (s : List ℕ) → first s ≢ 47 → skip_slashes s ≡ s
unfolding skip_slashes
skip_slashes_idem [] h = refl
skip_slashes_idem (x ∷ s) h = let letter : (x == 47) ≡ false = ground (arith, h) in rw letter refl

pub next_component-skip_slashes : (p : List ℕ) → next_component p ≡ next_component (skip_slashes p)
unfolding next_component
next_component-skip_slashes p =
    ap
      (λ s.
        if first s == 0
        then (s, 0, s)
        else (s, component_length s, skip_slashes (drop (component_length s) s)))
      (sym (skip_slashes_idem (skip_slashes p) (skip_slashes-first p)))

component_length-suc :
    (x : ℕ) (s : List ℕ) → 0 < x → x ≢ 47 → component_length (x ∷ s) ≡ suc (component_length s)
unfolding component_length
component_length-suc x s pos h = ground arith

nonempty-take :
    (n m x : ℕ) (s : List ℕ) (cs : List (List ℕ))
    → n ≡ suc m
    → nonempty (take n (x ∷ s) ∷ cs) ≡ take n (x ∷ s) ∷ nonempty cs
unfolding nonempty
nonempty-take n m x s cs e = rw e refl

-- A path that starts with a component: the component, and the others behind the slashes after it.
component-split :
    (x : ℕ) (s : List ℕ)
    → NoNul (x ∷ s)
    → x ≢ 47
    → let n = component_length (x ∷ s) in
      nonempty (split (x ∷ s)) ≡ take n (x ∷ s) ∷ nonempty (split (skip_slashes (drop n (x ∷ s))))
unfolding NoNul
component-split x s ok h =
    let n = component_length (x ∷ s) in
    ap nonempty (split-first (x ∷ s) ok)
    ∙ nonempty-take n (component_length s) x s (behind (drop n (x ∷ s)))
        (component_length-suc x s ok.0 h)
    ∙ ap (λ cs. take n (x ∷ s) ∷ cs)
        (nonempty-behind (x ∷ s) ok ∙ sym (nonempty-skip_slashes (drop n (x ∷ s))))

next_component-first :
    (x : ℕ) (s : List ℕ)
    → 0 < x
    → x ≢ 47
    → let n = component_length (x ∷ s) in
      next_component (x ∷ s) ≡ (x ∷ s, n, skip_slashes (drop n (x ∷ s)))
unfolding next_component
next_component-first x s pos h =
    let not_nul : (x == 0) ≡ false = ground (arith, pos) in
    rw (skip_slashes_idem (x ∷ s) h, not_nul) refl

components-next :
    (k : ℕ) (p c : List ℕ) (n : ℕ) (q : List ℕ) (cs : List (List ℕ))
    → next_component p ≡ (c, n, q)
    → 0 < n
    → components k q ≡ some cs
    → components (suc k) p ≡ some (take n c ∷ cs)
unfolding components
components-next k p c n q cs e pos others =
    let more : (n == 0) ≡ false = ground (arith, pos) in rw (e, more, others, e) refl

pub components-same :
    (k : ℕ) (p q : List ℕ)
    → next_component p ≡ next_component q
    → components (suc k) p ≡ components (suc k) q
unfolding components
components-same k p q e =
    ap
      (λ (t : List ℕ × ℕ × List ℕ).
        if t.1 == 0
        then some []
        else elim (components k t.2) [ none ↦ none | some cs ↦ some (take t.1 t.0 ∷ cs) ])
      e

-- One round of the walk, from a path without leading slashes.
round-split :
    (k : ℕ) (s : List ℕ)
    → NoNul s
    → first s ≢ 47
    → ((q : List ℕ) → NoNul q → length q < length s → components k q ≡ some (nonempty (split q)))
    → components (suc k) s ≡ some (nonempty (split s))
unfolding NoNul
round-split k [] ok h others = unfold components next_component skip_slashes split nonempty in refl
round-split k (x ∷ s) ok h others =
    let n = component_length (x ∷ s) in
    let q = skip_slashes (drop n (x ∷ s)) in
    let longer = component_length-suc x s ok.0 h in
    let shorter : length q < suc (length s) =
      omega (arith, length-skip_slashes (drop n (x ∷ s)), length-drop n (x ∷ s), longer) in
    components-next k (x ∷ s) (x ∷ s) n q (nonempty (split q)) (next_component-first x s ok.0 h)
      (omega (arith, longer))
      (others q (NoNul-skip_slashes (drop n (x ∷ s)) (NoNul-drop n (x ∷ s) ok)) shorter)
    ∙ ap some (sym (component-split x s ok h))

-- The path walk ends, and goes through the nonempty parts of the path between its slashes, in their
-- order: on any path without a zero byte, with more rounds than it has bytes.
pub components-split :
    (fuel : ℕ) (p : List ℕ)
    → NoNul p
    → length p < fuel
    → components fuel p ≡ some (nonempty (split p))
unfolding components
components-split zero p ok h = absurd (omega arith)
components-split (suc k) p ok h =
    components-same k p (skip_slashes p) (next_component-skip_slashes p)
    ∙ round-split k (skip_slashes p) (NoNul-skip_slashes p ok) (skip_slashes-first p)
        (λ q q_ok shorter. components-split k q q_ok (omega (arith, length-skip_slashes p)))
    ∙ ap some (nonempty-skip_slashes p)
