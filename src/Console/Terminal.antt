-- ===== src/Console/Terminal.antt =====
-- The console of kernel/kconsole.c as a terminal: what a user expects of characters, controls and colour
-- sequences, by a cursor, two colours and a grid of cells.
pub mod Plain
pub mod Colours
pub mod Written
use jeos.Prelude.{
  ℕ, ◌+◌, ◌-◌, ◌*◌, ◌%◌, ◌^◌, ◌≤◌, ◌<◌, ◌≡◌, refl, sym, ap, ap₂, subst, ◌∙◌, inl, inr, Bool, true,
  false, ◌&&◌, ◌||◌, List, [], ◌∷◌, ◌++◌, ltb, leb, ◌==◌, if◌then◌else◌, Bool-cases, get_or, set,
  length, get_or-set_self, length-set, arith,
}
use jeos.Console.{
  Console, Colors, EscState, esc_none, esc_esc, esc_bracket, ansi_palette, draw_glyph, scroll,
  sgr_param, sgr_params, apply_sgr, next_row, bracket_char, plain_char, esc_char, putc, puts,
}
use jeos.Console.Draw.{Cell}
use jeos.Console.Inv.{IsValid, putc-ready, putc-IsValid, pitch_small, rows_small}
use jeos.Console.Text.{Text, Shows, type_plain, type_in, type_char}
use jeos.Console.Puts.{putc-Shows}

pub record Terminal : Type 0 where
  pub width : ℕ
  pub height : ℕ
  pub col : ℕ
  pub row : ℕ
  pub ink : ℕ
  pub paper : ℕ
  pub first_ink : ℕ
  pub first_paper : ℕ
  pub text : Text

-- What is written: a printable character, a control, or a colour of the palette, the bright ones from 8 on.
pub data Item : Type 0 where
  letter : (ch : ℕ) → Item
  line_feed : Item
  carriage_return : Item
  backspace : Item
  ink_of : (bright : Bool) (n : ℕ) → Item
  paper_of : (bright : Bool) (n : ℕ) → Item
  colours_reset : Item

unfoldable pub IsItem : Item → Type 0
IsItem (letter ch) = (32 ≤ ch) × (ch ≤ 126)
IsItem line_feed = Unit
IsItem carriage_return = Unit
IsItem backspace = Unit
IsItem (ink_of bright n) = n < 8
IsItem (paper_of bright n) = n < 8
IsItem colours_reset = Unit

unfoldable pub AreItems : List Item → Type 0
AreItems [] = Unit
AreItems (i ∷ is) = IsItem i × AreItems is

-- The bytes of an item; the colours are the parameters 30, 90, 40 and 100 and above of `ESC [ ... m`.
unfoldable pub bytes_for : Item → List ℕ
bytes_for (letter ch) = ch ∷ []
bytes_for line_feed = 10 ∷ []
bytes_for carriage_return = 13 ∷ []
bytes_for backspace = 8 ∷ []
bytes_for (ink_of false n) = 27 ∷ 91 ∷ b'3' ∷ (b'0' + n) ∷ b'm' ∷ []
bytes_for (ink_of true n) = 27 ∷ 91 ∷ b'9' ∷ (b'0' + n) ∷ b'm' ∷ []
bytes_for (paper_of false n) = 27 ∷ 91 ∷ b'4' ∷ (b'0' + n) ∷ b'm' ∷ []
bytes_for (paper_of true n) = 27 ∷ 91 ∷ b'1' ∷ b'0' ∷ (b'0' + n) ∷ b'm' ∷ []
bytes_for colours_reset = 27 ∷ 91 ∷ b'0' ∷ b'm' ∷ []

-- A cell of the grid is written in the colours of the time.
abbrev pub written : (row col ch : ℕ) → Terminal → Text
written row col ch t i j =
    if (i == row) && (j == col) then record { ch = ch; fg = t.ink; bg = t.paper } else t.text i j

-- To the start of the next line; at the last one all lines go up, and blanks come below.
abbrev pub fed : Terminal → Terminal
fed t =
    let up : Text = λ i j.
      (if ltb (i + 1) t.height
        then t.text (i + 1) j
        else record { ch = 32; fg = t.ink; bg = t.paper }) in
    if leb t.height (t.row + 1)
    then record t { col = 0; row = t.height - 1; text = up }
    else record t { col = 0; row = t.row + 1 }

unfoldable pub act : Item → Terminal → Terminal
act (letter ch) t =
    let w = record t { text = written t.row t.col ch t } in
    if leb t.width (t.col + 1) then fed w else record w { col = t.col + 1 }
act line_feed t = fed t
act carriage_return t = record t { col = 0 }
act backspace t =
    if ltb 0 t.col then record t { col = t.col - 1; text = written t.row (t.col - 1) 32 t } else t
act (ink_of bright n) t = record t { ink = get_or ansi_palette (if bright then n + 8 else n) 0 }
act (paper_of bright n) t = record t { paper = get_or ansi_palette (if bright then n + 8 else n) 0 }
act colours_reset t = record t { ink = t.first_ink; paper = t.first_paper }

unfoldable pub bytes_of_all : List Item → List ℕ
bytes_of_all [] = []
bytes_of_all (i ∷ is) = bytes_for i ++ bytes_of_all is

unfoldable pub act_all : List Item → Terminal → Terminal
act_all [] t = t
act_all (i ∷ is) t = act_all is (act i t)

-- The terminal that a console is, with the text that it shows.
abbrev pub terminal_of : Console → Text → Terminal
terminal_of c text = record {
  width = c.fb_cols;
  height = c.fb_rows;
  col = c.cur_col;
  row = c.cur_row;
  ink = c.colors.fg_color;
  paper = c.colors.bg_color;
  first_ink = c.colors.fg_default;
  first_paper = c.colors.bg_default;
  text = text;
}

-- A well-formed console between escape sequences whose framebuffer is the picture of the terminal.
pub record IsTerminal (c : Console) (t : Terminal) : Type 0 where
  pub valid : IsValid c
  pub idle : c.esc_state ≡ esc_none
  pub state : terminal_of c t.text ≡ t
  pub shows : Shows c t.text
