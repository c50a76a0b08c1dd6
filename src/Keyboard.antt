-- ===== src/Keyboard.antt =====
-- The keyboard half of kernel/ps2.c: from scan codes to the UTF-8 bytes in the keyboard's ring. The
-- static variables of the file and of `kbd_handle_scancode` are the fields of a record.
pub mod Tables
pub mod Utf8
pub mod Typing
pub mod Letters
pub mod Keys
pub mod Read
mod Tests
use Prim.Native.Nat.{bit_or}
use jeos.Prelude.{
  ℕ, ◌+◌, ◌*◌, ◌/◌, ◌%◌, ◌^◌, Bool, true, false, not, ◌&&◌, ◌||◌, Option, none, some, List, [], ◌∷◌,
  ltb, leb, ◌==◌, if◌then◌else◌, length, get_or, replicate,
}
use jeos.Ring.{Ring, init, write, read}
use jeos.Keyboard.Tables.{scancode_to_rune, scancode_to_rune_shift}

abbrev pub kbd_buf_len : ℕ
kbd_buf_len = 1024

-- The bits of `kbd_modifiers`.
pub record Modifiers : Type 0 where
  pub shift : Bool
  pub ctrl : Bool
  pub alt : Bool
  pub caps : Bool

pub data Modifier : Type 0 where
  mod_shift : Modifier
  mod_ctrl : Modifier
  mod_alt : Modifier
  mod_caps : Modifier

-- `modifier_scancodes`.
unfoldable pub modifier_of : ℕ → Option Modifier
modifier_of key =
    if key == 42 || key == 54
    then some mod_shift
    else if key == 29 || key == 157
    then some mod_ctrl
    else if key == 56 || key == 184
    then some mod_alt
    else if key == 58
    then some mod_caps
    else none

-- `kbd_modifiers |= m` and `kbd_modifiers &= ~m`.
unfoldable pub set_modifier : Modifier → Bool → Modifiers → Modifiers
set_modifier mod_shift down m = record m { shift = down }
set_modifier mod_ctrl down m = record m { ctrl = down }
set_modifier mod_alt down m = record m { alt = down }
set_modifier mod_caps down m = record m { caps = down }

pub record Keyboard : Type 0 where
  pub modifiers : Modifiers
  pub e0 : Bool
  pub ring : Ring

-- The keyboard after `ps2_init` has set up its ring.
unfoldable pub fresh : Keyboard
fresh = record {
  modifiers = record { shift = false; ctrl = false; alt = false; caps = false };
  e0 = false;
  ring = init (replicate kbd_buf_len 0) kbd_buf_len;
}

-- The bytes that `kbd_put_rune` makes of a rune.
unfoldable pub utf8 : ℕ → List ℕ
utf8 rune =
    if ltb rune 128
    then rune ∷ []
    else if ltb rune 2048
    then bit_or 192 (rune / 2 ^ 6) ∷ bit_or 128 (rune % 64) ∷ []
    else if ltb rune 65536
    then bit_or 224 (rune / 2 ^ 12) ∷ bit_or 128 (rune / 2 ^ 6 % 64) ∷ bit_or 128 (rune % 64) ∷ []
    else bit_or 240 (rune / 2 ^ 18) % 256
      ∷ bit_or 128 (rune / 2 ^ 12 % 64)
      ∷ bit_or 128 (rune / 2 ^ 6 % 64)
      ∷ bit_or 128 (rune % 64)
      ∷ []

-- `kbd_put_rune`.
pub put_rune : ℕ → Ring → Ring
put_rune rune r = write r (utf8 rune) (length (utf8 rune))

unfoldable pub is_letter : ℕ → Bool
is_letter r = leb 97 r && leb r 122 || leb 65 r && leb r 90

unfoldable pub xor : Bool → Bool → Bool
xor true b = not b
xor false b = b

-- The rune that a key stands for under the modifiers.
unfoldable pub rune_of : ℕ → Modifiers → ℕ
rune_of key m =
    let base = get_or scancode_to_rune key 0 in
    let shifted = get_or scancode_to_rune_shift key 0 in
    if is_letter base
    then (if xor m.shift m.caps then (if shifted == 0 then base else shifted) else base)
    else if m.shift && not (shifted == 0)
    then shifted
    else base

-- A key that no E0 came before.
unfoldable pub plain_key : (key : ℕ) (release : Bool) → Keyboard → Keyboard
plain_key key release k =
    if key == 58
    then (if release
        then k
        else record k { modifiers = set_modifier mod_caps (not k.modifiers.caps) k.modifiers })
    else elim (modifier_of key) [
      | some m ↦ record k { modifiers = set_modifier m (not release) k.modifiers }
      | none ↦
          let rune = rune_of key k.modifiers in
          if release || rune == 0 then k else record k { ring = put_rune rune k.ring }
    ]

-- A key after an E0.
pub e0_key : (key : ℕ) (release : Bool) → Keyboard → Keyboard
e0_key key release k =
    let k' = record k { e0 = false } in
    if key == 29
    then record k' { modifiers = set_modifier mod_ctrl (not release) k.modifiers }
    else if key == 56
    then record k' { modifiers = set_modifier mod_alt (not release) k.modifiers }
    else k'

-- `kbd_handle_scancode`.
unfoldable pub handle_scancode : ℕ → Keyboard → Keyboard
handle_scancode scancode k =
    let key = scancode % 128 in
    let release = leb 128 scancode in
    if scancode == 224
    then record k { e0 = true }
    else if k.e0
    then e0_key key release k
    else plain_key key release k

-- The scan codes that calls of `kbd_interrupt` get from the controller, one after the other.
unfoldable pub handle_scancodes : List ℕ → Keyboard → Keyboard
handle_scancodes [] k = k
handle_scancodes (sc ∷ scs) k = handle_scancodes scs (handle_scancode sc k)

-- `kbd_read`: the bytes stored in the caller's buffer, and the keyboard after it.
pub kbd_read : (count : ℕ) → Keyboard → List ℕ × Keyboard
kbd_read count k =
    let n = count % 2 ^ 32 in
    let (out, ring) = read k.ring (if ltb kbd_buf_len n then kbd_buf_len else n) in
    (out, record k { ring = ring })
