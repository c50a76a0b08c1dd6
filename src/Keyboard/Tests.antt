-- ===== src/Keyboard/Tests.antt =====
-- Runs of the keyboard on short scan code sequences.
use jeos.Prelude.{ℕ, ◌≡◌, refl, false, List, [], ◌∷◌}
use jeos.Keyboard.{
  fresh, utf8, rune_of, is_letter, xor, modifier_of, set_modifier, plain_key, handle_scancode,
}
use jeos.Keyboard.Tables.{scancode_to_rune, scancode_to_rune_shift}
use jeos.Keyboard.Typing.{typed, typed_all}
use jeos.Keyboard.Keys.{keys, text_of, shift_held, caps_on}

-- Shift and `a`, then `b`.
abbrev capital : List ℕ
capital = 42 ∷ 30 ∷ 158 ∷ 170 ∷ 48 ∷ 176 ∷ []

typed-capital : typed_all capital fresh ≡ 65 ∷ 98 ∷ []
unfolding typed_all typed fresh handle_scancode plain_key rune_of modifier_of set_modifier is_letter
    xor utf8 scancode_to_rune scancode_to_rune_shift
typed-capital = refl

euro : utf8 8364 ≡ 226 ∷ 130 ∷ 172 ∷ []
unfolding utf8
euro = refl

-- The right arrow, 0xE0 0x4D and 0xE0 0xCD, types nothing; then shift and `a`, and `1` without shift.
abbrev typing : List ℕ
typing = 224 ∷ 77 ∷ 224 ∷ 205 ∷ 42 ∷ 30 ∷ 158 ∷ 170 ∷ 2 ∷ 130 ∷ []

text_of-typing : text_of [] (keys false typing) ≡ 65 ∷ 49 ∷ []
unfolding text_of keys shift_held caps_on scancode_to_rune scancode_to_rune_shift
text_of-typing = refl
