-- ===== src/Keyboard/Letters.antt =====
-- What the letter keys of the tables in kernel/ps2.c type.
use jeos.Prelude.{
  ℕ, zero, suc, ◌+◌, ◌-◌, ◌%◌, ◌≤◌, ◌<◌, ◌≡◌, refl, ap, ap₂, ◌∙◌, inl, inr, Bool, true, false, not,
  ◌&&◌, none, some, List, [], ◌∷◌, ◌++◌, map, ltb, leb, ◌==◌, if◌then◌else◌, Option-cases, get_or,
  dec_lt, arith,
}
use jeos.Keyboard.Tables.{scancode_to_rune, scancode_to_rune_shift}
use jeos.Keyboard.{
  Keyboard, Modifiers, utf8, rune_of, is_letter, xor, modifier_of, plain_key, handle_scancode,
}
use jeos.Keyboard.Typing.{typed, typed_all}

-- The character on a key.
abbrev pub base : ℕ → ℕ
base key = get_or scancode_to_rune key 0

pub record LetterKey (key : ℕ) : Type 0 where
  pub below : key < 128
  pub letter : is_letter (base key) ≡ true

is_free : ℕ → Bool
is_free key = elim (modifier_of key) [ none ↦ true | some _ ↦ false ]

-- What is checked of each key.
sound : ℕ → Bool
sound key =
    if is_letter (base key)
    then is_free key
      && not (key == 58)
      && not (key == 96)
      && leb 97 (base key)
      && leb (base key) 122
      && get_or scancode_to_rune_shift key 0 == base key - 32
    else true

all_sound : ℕ → Bool
all_sound zero = true
all_sound (suc n) = all_sound n && sound n

sound-at : (n key : ℕ) → all_sound n ≡ true → key < n → sound key ≡ true
unfolding all_sound
sound-at zero key e h = absurd (omega arith)
sound-at (suc n) key e h = elim (dec_lt key n) [
  | yes below ↦ sound-at n key (ground arith) below
  | no last ↦ let same : key ≡ n = omega arith in rw same (ground arith)
]

tables_sound : all_sound 128 ≡ true
unfolding all_sound sound is_free modifier_of is_letter scancode_to_rune scancode_to_rune_shift
tables_sound = refl

record Letter (key : ℕ) : Type 0 where
  pub free : modifier_of key ≡ none
  pub no_caps : (key == 58) ≡ false
  pub no_e0 : (key == 96) ≡ false
  pub low : 97 ≤ base key
  pub high : base key ≤ 122
  pub shifted : get_or scancode_to_rune_shift key 0 ≡ base key - 32

key-Letter : (key : ℕ) → LetterKey key → Letter key
unfolding sound is_free
key-Letter key l =
    let ok = sound-at 128 key tables_sound l.below in
    elim (Option-cases (modifier_of key)) [
      | inl free ↦ ground (arith, ok, l.letter)
      | inr (m, taken) ↦ absurd (ground (arith, ok, l.letter))
    ]

-- The rune of a letter key: lower case, or upper case when exactly one of shift and caps lock is on.
pub letter_rune :
    (key : ℕ) (m : Modifiers)
    → LetterKey key
    → rune_of key m ≡ (if xor m.shift m.caps then base key - 32 else base key)
unfolding rune_of
letter_rune key m l = let k = key-Letter key l in ground (arith, k.low, k.high, k.shifted, l.letter)

-- The codes of a key pressed and released.
pub strokes : List ℕ → List ℕ
strokes [] = []
strokes (key ∷ keys) = key ∷ (key + 128) ∷ strokes keys

unfoldable pub AllLetters : List ℕ → Type 0
AllLetters [] = Unit
AllLetters (key ∷ keys) = LetterKey key × AllLetters keys

press-typed :
    (key : ℕ) (k : Keyboard)
    → LetterKey key
    → k.e0 ≡ false
    → typed key k ≡ rune_of key k.modifiers ∷ []
unfolding typed utf8
press-typed key k l no_e0 =
    let c = key-Letter key l in
    let code : key % 128 ≡ key = omega (arith, l.below) in
    let rune = letter_rune key k.modifiers l in
    let small : ltb (rune_of key k.modifiers) 128 ≡ true = ground (arith, rune, c.high) in
    let some_rune : (rune_of key k.modifiers == 0) ≡ false = ground (arith, rune, c.low) in
    let plain : (key == 224) ≡ false = ground (arith, l.below) in
    let down : leb 128 key ≡ false = ground (arith, l.below) in
    rw (code, plain, no_e0, c.no_caps, down, c.free, code, some_rune, small) refl

press_keeps :
    (key : ℕ) (k : Keyboard)
    → LetterKey key
    → k.e0 ≡ false
    → let k' = handle_scancode key k in (k'.modifiers ≡ k.modifiers) × (k'.e0 ≡ false)
unfolding handle_scancode plain_key
press_keeps key k l no_e0 =
    let c = key-Letter key l in
    let code : key % 128 ≡ key = omega (arith, l.below) in
    ground (arith, code, c.free, c.no_caps, l.below)

release-typed : (key : ℕ) (k : Keyboard) → LetterKey key → typed (key + 128) k ≡ []
unfolding typed
release-typed key k l = let up : leb 128 (key + 128) ≡ true = ground arith in ground (arith, up)

release_keeps :
    (key : ℕ) (k : Keyboard)
    → LetterKey key
    → k.e0 ≡ false
    → let k' = handle_scancode (key + 128) k in (k'.modifiers ≡ k.modifiers) × (k'.e0 ≡ false)
unfolding handle_scancode plain_key
release_keeps key k l no_e0 =
    let c = key-Letter key l in
    let code : (key + 128) % 128 ≡ key = omega (arith, l.below) in
    ground (arith, code, c.free, c.no_caps, c.no_e0, l.below)

-- With no E0 pending, letter keys, each pressed and released, type one character each, in their order, in the case that
-- shift and caps lock select.
pub strokes-typed :
    (keys : List ℕ) (k : Keyboard)
    → AllLetters keys
    → k.e0 ≡ false
    → typed_all (strokes keys) k
      ≡ map (λ key. if xor k.modifiers.shift k.modifiers.caps then base key - 32 else base key) keys
unfolding typed_all strokes AllLetters
strokes-typed [] k all no_e0 = refl
strokes-typed (key ∷ keys) k (l, rest) no_e0 =
    let k1 = handle_scancode key k in
    let k2 = handle_scancode (key + 128) k1 in
    let (m1, e1) = press_keeps key k l no_e0 in
    let (m2, e2) = release_keeps key k1 l e1 in
    ap₂ (λ a b. a ++ (b ++ typed_all (strokes keys) k2)) (press-typed key k l no_e0)
      (release-typed key k1 l)
    ∙ ap₂ (λ c cs. c ∷ cs) (letter_rune key k.modifiers l)
        (strokes-typed keys k2 rest e2
          ∙ ap
              (λ (m : Modifiers).
                map (λ key. if xor m.shift m.caps then base key - 32 else base key) keys)
              (m2 ∙ m1))
