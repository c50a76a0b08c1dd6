-- ===== src/Keyboard/Typing.antt =====
-- The keyboard of kernel/ps2.c as a transducer: the ring holds the end of what its keys typed.
use mathlib.Core.List.{append_assoc}
use jeos.Prelude.{
  ℕ, ◌%◌, ◌≡◌, ap, ap₂, ◌∙◌, ◌||◌, none, some, List, [], ◌∷◌, ◌++◌, leb, ◌==◌, if◌then◌else◌, arith,
}
use jeos.Ring.{Ring}
use jeos.Ring.Inv.{IsValid, contents}
use jeos.Ring.History.{keep_last, keep_last_append}
use jeos.Ring.Puts.{Puts, Puts-nothing, write-Puts}
use jeos.Keyboard.{
  Keyboard, utf8, put_rune, rune_of, modifier_of, plain_key, e0_key, handle_scancode,
  handle_scancodes,
}

-- The bytes that a scan code types.
unfoldable pub typed : ℕ → Keyboard → List ℕ
typed scancode k =
    let key = scancode % 128 in
    if scancode == 224 || k.e0 || key == 58 || leb 128 scancode
    then []
    else elim (modifier_of key) [
      | some _ ↦ []
      | none ↦ if rune_of key k.modifiers == 0 then [] else utf8 (rune_of key k.modifiers)
    ]

unfoldable pub typed_all : List ℕ → Keyboard → List ℕ
typed_all [] k = []
typed_all (sc ∷ scs) k = typed sc k ++ typed_all scs (handle_scancode sc k)

put_rune-Puts : (rune : ℕ) (r : Ring) → IsValid r → Puts (utf8 rune) r (put_rune rune r)
unfolding put_rune
put_rune-Puts rune r v = write-Puts (utf8 rune) r v

handle_scancode-Puts :
    (sc : ℕ) (k : Keyboard) → IsValid k.ring → Puts (typed sc k) k.ring (handle_scancode sc k).ring
unfolding handle_scancode typed plain_key e0_key
handle_scancode-Puts sc k v =
    ground (arith, Puts-nothing k.ring v, put_rune-Puts (rune_of (sc % 128) k.modifiers) k.ring v)

-- A well-formed keyboard ring, fed any scan codes, holds the end, as much as its capacity, of what it
-- held followed by what the codes typed: no rune is lost, doubled or moved as long as they fit.
pub handle_scancodes-contents :
    (scs : List ℕ) (k : Keyboard)
    → IsValid k.ring
    → contents (handle_scancodes scs k).ring
      ≡ keep_last k.ring.cap (contents k.ring ++ typed_all scs k)
unfolding handle_scancodes typed_all
handle_scancodes-contents [] k v = (Puts-nothing k.ring v).history
handle_scancodes-contents (sc ∷ scs) k v =
    let one = handle_scancode-Puts sc k v in
    let k' = handle_scancode sc k in
    let rest = typed_all scs k' in
    handle_scancodes-contents scs k' one.valid
    ∙ ap₂ (λ n xs. keep_last n (xs ++ rest)) one.cap one.history
    ∙ keep_last_append k.ring.cap (contents k.ring ++ typed sc k) rest
    ∙ ap (keep_last k.ring.cap) (append_assoc (contents k.ring) (typed sc k) rest)

pub handle_scancodes-IsValid :
    (scs : List ℕ) (k : Keyboard) → IsValid k.ring → IsValid (handle_scancodes scs k).ring
unfolding handle_scancodes
handle_scancodes-IsValid [] k v = v
handle_scancodes-IsValid (sc ∷ scs) k v =
    handle_scancodes-IsValid scs (handle_scancode sc k) (handle_scancode-Puts sc k v).valid
