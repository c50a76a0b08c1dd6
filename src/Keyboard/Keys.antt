-- ===== src/Keyboard/Keys.antt =====
-- What a user of the keyboard of kernel/ps2.c expects: the keys in the scan codes, the modifiers by the
-- keys before, and the bytes of the characters.
use jeos.Prelude.{
  ℕ, zero, suc, ◌-◌, ◌%◌, ◌<◌, ◌≡◌, refl, sym, subst, ap, ap₂, ◌∙◌, inl, inr, Bool, true, false,
  not, ◌&&◌, ◌||◌, List, [], ◌∷◌, ◌++◌, ltb, leb, ◌==◌, if◌then◌else◌, Bool-cases, get_or, dec_lt,
  arith,
}
use jeos.Keyboard.Tables.{scancode_to_rune, scancode_to_rune_shift}
use jeos.Keyboard.{
  Keyboard, Modifiers, utf8, rune_of, is_letter, xor, modifier_of, set_modifier, plain_key, e0_key,
  handle_scancode,
}
use jeos.Keyboard.Typing.{typed, typed_all}

-- A key that goes down or up, and whether 0xE0 came before it.
pub record Key : Type 0 where
  pub extended : Bool
  pub code : ℕ
  pub down : Bool

unfoldable pub keys : (extended : Bool) → List ℕ → List Key
keys e [] = []
keys e (sc ∷ scs) =
    let here = keys false scs in
    let after_e0 = keys true scs in
    if sc == 224
    then after_e0
    else record { extended = e; code = sc % 128; down = ltb sc 128 } ∷ here

-- Scan codes are bytes.
unfoldable pub AreBytes : List ℕ → Type 0
AreBytes [] = Unit
AreBytes (sc ∷ scs) = (sc < 256) × AreBytes scs

-- The modifiers by the keys before, the last one first: shift is held when the last of the two shift
-- keys to move went down, and caps lock changes whenever its key goes down.
unfoldable pub shift_held : List Key → Bool
shift_held [] = false
shift_held (k ∷ past) =
    let before = shift_held past in
    if not k.extended && (k.code == 42 || k.code == 54) then k.down else before

unfoldable pub caps_on : List Key → Bool
caps_on [] = false
caps_on (k ∷ past) =
    let before = caps_on past in
    if not k.extended && k.code == 58 && k.down then not before else before

-- The character of a key: a letter is a capital with shift or caps lock, not with both, and any other
-- key has its second character with shift, if it has one.
abbrev pub character : (shift caps : Bool) → (code : ℕ) → ℕ
character shift caps code =
    let lower = get_or scancode_to_rune code 0 in
    let upper = get_or scancode_to_rune_shift code 0 in
    if leb 97 lower && leb lower 122
    then (if (shift && not caps) || (caps && not shift) then lower - 32 else lower)
    else if shift && not (upper == 0)
    then upper
    else lower

-- What a key types: its character, of which UTF-8 is one byte, and nothing as a modifier, behind 0xE0,
-- when it goes up, and without a character.
abbrev pub key_text : List Key → Key → List ℕ
key_text past k =
    let silent =
      k.extended
      || not k.down
      || k.code == 42
      || k.code == 54
      || k.code == 29
      || k.code == 56
      || k.code == 58 in
    let rune = character (shift_held past) (caps_on past) k.code in
    if silent || rune == 0 then [] else rune ∷ []

unfoldable pub text_of : (past ks : List Key) → List ℕ
text_of past [] = []
text_of past (k ∷ ks) = key_text past k ++ text_of (k ∷ past) ks

abbrev with_shift : (shift caps : Bool) → Modifiers
with_shift shift caps = record { shift = shift; caps = caps; ctrl = false; alt = false }

-- What is checked of each key of the tables.
agrees : (shift caps : Bool) → (code : ℕ) → Bool
agrees shift caps code =
    rune_of code (with_shift shift caps) == character shift caps code
    && ltb (character shift caps code) 128

all_agree : (shift caps : Bool) → ℕ → Bool
all_agree shift caps zero = true
all_agree shift caps (suc n) = all_agree shift caps n && agrees shift caps n

all_agree-at :
    (shift caps : Bool) (n code : ℕ)
    → all_agree shift caps n ≡ true
    → code < n
    → agrees shift caps code ≡ true
unfolding all_agree
all_agree-at shift caps zero code e h = absurd (omega arith)
all_agree-at shift caps (suc n) code e h = elim (dec_lt code n) [
  | yes below ↦ all_agree-at shift caps n code (ground arith) below
  | no last ↦ let same : code ≡ n = omega arith in rw same (ground arith)
]

tables_agree : (shift caps : Bool) → all_agree shift caps 128 ≡ true
unfolding all_agree agrees rune_of is_letter xor scancode_to_rune scancode_to_rune_shift
tables_agree true true = refl
tables_agree true false = refl
tables_agree false true = refl
tables_agree false false = refl

rune_of-character :
    (code : ℕ) (m : Modifiers)
    → code < 128
    → (rune_of code m ≡ character m.shift m.caps code) × (character m.shift m.caps code < 128)
unfolding agrees rune_of
rune_of-character code m h =
    let ok = all_agree-at m.shift m.caps 128 code (tables_agree m.shift m.caps) h in
    ground (arith, ok)

utf8-ascii : (rune : ℕ) → rune < 128 → utf8 rune ≡ rune ∷ []
unfolding utf8
utf8-ascii rune h = ground arith

-- The modifiers of the driver are those of the keys before.
pub record Follows (past : List Key) (k : Keyboard) : Type 0 where
  pub shift : k.modifiers.shift ≡ shift_held past
  pub caps : k.modifiers.caps ≡ caps_on past

abbrev key_in : Bool → ℕ → Key
key_in e sc = record { extended = e; code = sc % 128; down = ltb sc 128 }

e0_key-shift :
    (key : ℕ) (release : Bool) (k : Keyboard)
    → ((e0_key key release k).e0 ≡ false)
      × ((e0_key key release k).modifiers.shift ≡ k.modifiers.shift)
      × ((e0_key key release k).modifiers.caps ≡ k.modifiers.caps)
unfolding e0_key set_modifier
e0_key-shift key release k = ground arith

plain_key-shift :
    (key : ℕ) (release : Bool) (k : Keyboard)
    → key < 128
    → ((plain_key key release k).e0 ≡ k.e0)
      × ((plain_key key release k).modifiers.shift
          ≡ (if key == 42 || key == 54 then not release else k.modifiers.shift))
      × ((plain_key key release k).modifiers.caps
          ≡ (if key == 58 && not release then not k.modifiers.caps else k.modifiers.caps))
unfolding plain_key set_modifier modifier_of
plain_key-shift key release k h = ground arith

key_in-Follows :
    (e : Bool) (sc : ℕ) (past : List Key) (k : Keyboard)
    → k.e0 ≡ e
    → Follows past k
    → let k' =
        if e then e0_key (sc % 128) (leb 128 sc) k else plain_key (sc % 128) (leb 128 sc) k in
      (k'.e0 ≡ false) × Follows (key_in e sc ∷ past) k'
unfolding shift_held caps_on
key_in-Follows true sc past k here f =
    let (off, shift, caps) = e0_key-shift (sc % 128) (leb 128 sc) k in
    (off, record { shift = shift ∙ f.shift; caps = caps ∙ f.caps })
key_in-Follows false sc past k here f =
    let (off, shift, caps) = plain_key-shift (sc % 128) (leb 128 sc) k (omega arith) in
    (
      off ∙ here,
      record { shift = shift ∙ ground (arith, f.shift); caps = caps ∙ ground (arith, f.caps) },
    )

-- A scan code that is not 0xE0 is a key.
handle_scancode-key :
    (sc : ℕ) (k : Keyboard)
    → (sc == 224) ≡ false
    → handle_scancode sc k
      ≡ (if k.e0 then e0_key (sc % 128) (leb 128 sc) k else plain_key (sc % 128) (leb 128 sc) k)
unfolding handle_scancode
handle_scancode-key sc k other = rw other refl

handle_scancode-Follows :
    (sc : ℕ) (past : List Key) (k : Keyboard)
    → (sc == 224) ≡ false
    → Follows past k
    → ((handle_scancode sc k).e0 ≡ false) × Follows (key_in k.e0 sc ∷ past) (handle_scancode sc k)
handle_scancode-Follows sc past k other f =
    subst (λ k'. (k'.e0 ≡ false) × Follows (key_in k.e0 sc ∷ past) k')
      (sym (handle_scancode-key sc k other)) (key_in-Follows k.e0 sc past k refl f)

e0_first :
    (sc : ℕ) (k : Keyboard)
    → (sc == 224) ≡ true
    → (typed sc k ≡ []) × (handle_scancode sc k ≡ record k { e0 = true })
unfolding typed handle_scancode
e0_first sc k e0 = (rw e0 refl, rw e0 refl)

keys_cases :
    (e : Bool) (sc : ℕ) (scs : List ℕ)
    → keys e (sc ∷ scs) ≡ (if sc == 224 then keys true scs else key_in e sc ∷ keys false scs)
unfolding keys
keys_cases e sc scs = refl

typed-key_text :
    (sc : ℕ) (past : List Key) (k : Keyboard)
    → (sc == 224) ≡ false
    → sc < 256
    → Follows past k
    → typed sc k ≡ key_text past (key_in k.e0 sc)
unfolding typed modifier_of
typed-key_text sc past k other byte f =
    let (same, ascii) = rune_of-character (sc % 128) k.modifiers (omega arith) in
    let character_same : character k.modifiers.shift k.modifiers.caps (sc % 128)
        ≡ character (shift_held past) (caps_on past) (sc % 128) =
      ap₂ (λ s c. character s c (sc % 128)) f.shift f.caps in
    let text = utf8-ascii (rune_of (sc % 128) k.modifiers) (omega (arith, same, ascii)) in
    rw (← character_same, ← same) (ground (arith, text, other))

-- All the scan codes of a keyboard type the text of their keys.
pub typed_all-text_of :
    (scs : List ℕ) (past : List Key) (k : Keyboard)
    → AreBytes scs
    → Follows past k
    → typed_all scs k ≡ text_of past (keys k.e0 scs)
unfolding typed_all text_of AreBytes
typed_all-text_of [] past k bytes f = unfold keys in refl
typed_all-text_of (sc ∷ scs) past k (byte, bytes) f = elim (Bool-cases (sc == 224)) [
  | inl e0 ↦
      (let (nothing, next) = e0_first sc k e0 in
        let parsed : keys k.e0 (sc ∷ scs) ≡ keys true scs = keys_cases k.e0 sc scs ∙ (rw e0 refl) in
        let later =
          typed_all-text_of scs past (record k { e0 = true }) bytes
            (record { shift = f.shift; caps = f.caps }) in
        ap₂ (λ xs k'. xs ++ typed_all scs k') nothing next ∙ later ∙ ap (text_of past) (sym parsed))
  | inr other ↦
      (let (off, follows) = handle_scancode-Follows sc past k other f in
        let key = key_in k.e0 sc in
        let parsed : keys k.e0 (sc ∷ scs) ≡ key ∷ keys false scs =
          keys_cases k.e0 sc scs ∙ (rw other refl) in
        let later = typed_all-text_of scs (key ∷ past) (handle_scancode sc k) bytes follows in
        ap₂ (λ xs ys. xs ++ ys) (typed-key_text sc past k other byte f)
          (later ∙ ap (λ e. text_of (key ∷ past) (keys e scs)) off)
        ∙ ap (text_of past) (sym parsed))
]
