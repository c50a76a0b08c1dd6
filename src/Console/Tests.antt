-- ===== src/Console/Tests.antt =====
-- Runs of the console on a screen of two by two characters.
use jeos.Prelude.{
  ◌*◌, ◌+◌, ◌-◌, ◌≡◌, refl, sym, true, false, List, [], ◌∷◌, ltb, if◌then◌else◌, replicate, arith,
}
use jeos.Console.{
  Console, Colors, esc_none, scroll, putc, puts, esc_char, bracket_char, plain_char, apply_sgr,
  sgr_params, sgr_param, ansi_palette,
}
use jeos.Console.Frame.{font_w, font_h}
use jeos.Console.Inv.{IsScreen, IsValid}
use jeos.Console.Draw.{at, scroll-at}
use jeos.Console.Text.{Text, Shows, cell_of, blank_pixel}
use jeos.Console.Terminal.{
  Item, letter, line_feed, carriage_return, ink_of, IsItem, AreItems, act, bytes_of_all, act_all,
  terminal_of, IsTerminal,
}
use jeos.Console.Terminal.Written.{puts-IsTerminal}

abbrev dark : Colors
dark = record {
  fg_color = 14737632;
  bg_color = 1710638;
  fg_default = 14737632;
  bg_default = 1710638;
}

abbrev small : Console
small = record {
  fb = λ i. 1710638;
  fb_width = 16;
  fb_height = 18;
  fb_pitch = 16;
  fb_cols = 2;
  fb_rows = 2;
  cur_col = 0;
  cur_row = 0;
  colors = dark;
  fb_ready = true;
  esc_state = esc_none;
  esc_params = replicate 8 0;
  esc_nparam = 0;
}

small-IsScreen : IsScreen small
small-IsScreen = record {
  cols_pos = omega arith;
  rows_pos = omega arith;
  cols_fit = omega arith;
  rows_fit = omega arith;
  memory = omega arith;
}

small-IsValid : IsValid small
small-IsValid = record {
  ready = refl;
  screen = small-IsScreen;
  col_in = omega arith;
  row_in = omega arith;
  params = refl;
  nparam = tt;
}

abbrev empty : Text
empty row col = cell_of 32 small

small-Shows : Shows small empty
small-Shows row col y x r k h w = sym (blank_pixel small y x)

-- `ESC [ 3 1 m` selects the red of the palette.
red : (puts (27 ∷ 91 ∷ 51 ∷ 49 ∷ 109 ∷ []) small).colors.fg_color ≡ 13382451
unfolding puts putc esc_char bracket_char plain_char apply_sgr sgr_params sgr_param ansi_palette
red = refl

scroll-at_example : at (scroll small) 3 5 ≡ (
    if ltb 5 (2 * font_w)
    then (if ltb 3 ((2 - 1) * font_h)
        then at small (3 + font_h) 5
        else if ltb 3 (2 * font_h)
        then small.colors.bg_color
        else at small 3 5)
    else at small 3 5)
scroll-at_example = scroll-at small 3 5 small-IsScreen (omega arith)

-- `H`, a carriage return, red, `i`, and a line feed at the foot of the screen.
abbrev items : List Item
items = letter 72 ∷ carriage_return ∷ ink_of false 1 ∷ letter 105 ∷ line_feed ∷ line_feed ∷ []

items-AreItems : AreItems items
unfolding AreItems IsItem
items-AreItems = ground arith

small-IsTerminal : IsTerminal small (terminal_of small empty)
small-IsTerminal = record { valid = small-IsValid; idle = refl; state = refl; shows = small-Shows }

-- Both letters were written in the first cell, which scrolled off the screen.
written_state :
    ((act_all items (terminal_of small empty)).row ≡ 1)
    × ((act_all items (terminal_of small empty)).ink ≡ 13382451)
    × ((act_all items (terminal_of small empty)).text 0 0 ≡ empty 0 0)
unfolding act_all act ansi_palette
written_state = (refl, refl, refl)

puts-IsTerminal_example :
    IsTerminal (puts (bytes_of_all items) small) (act_all items (terminal_of small empty))
puts-IsTerminal_example =
    puts-IsTerminal items small (terminal_of small empty) items-AreItems small-IsTerminal
