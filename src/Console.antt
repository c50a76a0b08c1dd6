-- ===== src/Console.antt =====
-- The framebuffer console of kernel/kconsole.c. The file's static variables are the fields of a
-- record, its colours a record of their own; the framebuffer is a function from the index of a 32-bit word to the word. A character is
-- the number of its byte: the guards of the code treat a negative `char` as one above 0x7E.
pub mod Font
pub mod Frame
pub mod Grid
pub mod Move
pub mod Inv
pub mod Draw
pub mod Text
pub mod Puts
pub mod Terminal
mod Tests
use jeos.Prelude.{
  ℕ, zero, suc, ◌+◌, ◌-◌, ◌*◌, ◌/◌, ◌%◌, ◌^◌, Bool, true, false, ◌&&◌, ◌||◌, List, [], ◌∷◌, ltb,
  leb, ◌==◌, if◌then◌else◌, get_or, set,
}
use jeos.Console.Font.{font8x8}
use jeos.Console.Frame.{font_w, font_h, Pixels, put_row, put_rows, copy_rows}

-- The states of the escape sequence parser.
pub data EscState : Type 0 where
  esc_none : EscState
  esc_esc : EscState
  esc_bracket : EscState

pub record Colors : Type 0 where
  pub fg_color : ℕ
  pub bg_color : ℕ
  pub fg_default : ℕ
  pub bg_default : ℕ

pub record Console : Type 0 where
  pub fb : Pixels
  pub fb_width : ℕ
  pub fb_height : ℕ
  pub fb_pitch : ℕ
  pub fb_cols : ℕ
  pub fb_rows : ℕ
  pub cur_col : ℕ
  pub cur_row : ℕ
  pub colors : Colors
  pub fb_ready : Bool
  pub esc_state : EscState
  pub esc_params : List ℕ
  pub esc_nparam : ℕ

unfoldable pub ansi_palette : List ℕ
ansi_palette =
    1710638 ∷ 13382451 ∷ 3385907 ∷ 13412915 ∷ 3364300 ∷ 11154346 ∷ 3386060 ∷ 13421772 ∷ 5592405
    ∷ 16733525 ∷ 5635925 ∷ 16777045 ∷ 5605631 ∷ 16733695 ∷ 5636095 ∷ 16777215 ∷ []

-- `fb_draw_glyph`.
pub draw_glyph : (col row ch : ℕ) → Console → Console
draw_glyph col row ch c =
    let glyph = get_or font8x8 (ch % 128) [] in
    let px = col * font_w % 2 ^ 32 in
    let py = row * font_h % 2 ^ 32 in
    let pixel : ℕ → ℕ → ℕ = λ y x.
      (if get_or glyph y 0 / 2 ^ (7 - x) % 2 == 1 then c.colors.fg_color else c.colors.bg_color) in
    record c {
      fb =
          put_row 8 0 (((py + 8) * c.fb_pitch + px) % 2 ^ 32) (λ x. c.colors.bg_color)
            (put_rows 8 0 py px 8 c.fb_pitch pixel c.fb);
    }

-- `fb_scroll`.
pub scroll : Console → Console
scroll c =
    let n = c.fb_cols * font_w % 2 ^ 32 in
    let last_y = (c.fb_rows + 2 ^ 32 - 1) * font_h % 2 ^ 32 in
    record c {
      fb =
          put_rows font_h 0 last_y 0 n c.fb_pitch (λ y x. c.colors.bg_color)
            (copy_rows (c.fb_rows - 1) 1 n c.fb_pitch c.fb);
    }

pub clear : Console → Console
clear c =
    if c.fb_ready
    then record c {
      fb = put_rows c.fb_height 0 0 0 c.fb_width c.fb_pitch (λ y x. c.colors.bg_color) c.fb;
      cur_col = 0;
      cur_row = 0;
    }
    else c

-- `kconsole_init` with the fields of the boot loader's framebuffer, its pitch in bytes.
pub init : (address : Pixels) → (width height pitch : ℕ) → Console → Console
init address width height pitch c = clear (record c {
  fb = address;
  fb_width = width % 2 ^ 32;
  fb_height = height % 2 ^ 32;
  fb_pitch = pitch / 4 % 2 ^ 32;
  fb_cols = width % 2 ^ 32 / font_w;
  fb_rows = height % 2 ^ 32 / font_h;
  cur_col = 0;
  cur_row = 0;
  fb_ready = true;
})

-- `for (j = ...; j < 8; j++)` of the bold attribute: the brighter of the colour, if it is standard.
pub brighten : (rounds j fg : ℕ) → ℕ
brighten zero j fg = fg
brighten (suc k) j fg =
    let rest = brighten k (j + 1) fg in
    if fg == get_or ansi_palette j 0 then get_or ansi_palette (j + 8) 0 else rest

-- One parameter of a colour sequence.
pub sgr_param : ℕ → Colors → Colors
sgr_param p c =
    if p == 0
    then record c { fg_color = c.fg_default; bg_color = c.bg_default }
    else if p == 1
    then record c { fg_color = brighten 8 0 c.fg_color }
    else if leb 30 p && leb p 37
    then record c { fg_color = get_or ansi_palette (p - 30) 0 }
    else if leb 90 p && leb p 97
    then record c { fg_color = get_or ansi_palette (p - 90 + 8) 0 }
    else if leb 40 p && leb p 47
    then record c { bg_color = get_or ansi_palette (p - 40) 0 }
    else if leb 100 p && leb p 107
    then record c { bg_color = get_or ansi_palette (p - 100 + 8) 0 }
    else c

pub sgr_params : (rounds i : ℕ) → List ℕ → Colors → Colors
sgr_params zero i params c = c
sgr_params (suc k) i params c = sgr_params k (i + 1) params (sgr_param (get_or params i 0) c)

-- `fb_apply_sgr`.
pub apply_sgr : Console → Console
apply_sgr c =
    let c' =
      if c.esc_nparam == 0
      then record c { esc_params = set c.esc_params 0 0; esc_nparam = 1 }
      else c in
    record c' { colors = sgr_params c'.esc_nparam 0 c'.esc_params c'.colors }

-- A new line of text, at the foot of the screen by scrolling.
pub next_row : Console → Console
next_row c =
    let row = (c.cur_row + 1) % 2 ^ 32 in
    let c' = record c { cur_col = 0; cur_row = row } in
    if leb c.fb_rows row
    then record (scroll c') { cur_row = (c.fb_rows + 2 ^ 32 - 1) % 2 ^ 32 }
    else c'

-- A character after `ESC [`.
pub bracket_char : ℕ → Console → Console
bracket_char ch c =
    if leb 48 ch && leb ch 57
    then record c {
      esc_params =
          set c.esc_params c.esc_nparam
            ((get_or c.esc_params c.esc_nparam 0 * 10 + (ch - 48)) % 2 ^ 32);
    }
    else if ch == 59
    then (let n = if ltb c.esc_nparam 7 then c.esc_nparam + 1 else c.esc_nparam in
        record c { esc_nparam = n; esc_params = set c.esc_params n 0 })
    else (let c' = record c { esc_nparam = (c.esc_nparam + 1) % 256 } in
        record (if ch == 109 then apply_sgr c' else c') { esc_state = esc_none })

-- A character outside every escape sequence.
pub plain_char : ℕ → Console → Console
plain_char ch c =
    if ch == 27
    then record c { esc_state = esc_esc }
    else if ch == 13
    then record c { cur_col = 0 }
    else if ch == 10
    then next_row c
    else if ch == 8
    then (if ltb 0 c.cur_col
        then draw_glyph (c.cur_col - 1) c.cur_row 32 (record c { cur_col = c.cur_col - 1 })
        else c)
    else if ltb ch 32 || ltb 126 ch
    then c
    else (let d = draw_glyph c.cur_col c.cur_row ch c in
        let col = (d.cur_col + 1) % 2 ^ 32 in
        if leb d.fb_cols col then next_row d else record d { cur_col = col })

-- A character in each state of the escape sequence parser.
pub esc_char : EscState → ℕ → Console → Console
esc_char esc_esc ch c =
    if ch == 91
    then record c { esc_state = esc_bracket; esc_nparam = 0; esc_params = set c.esc_params 0 0 }
    else record c { esc_state = esc_none }
esc_char esc_bracket ch c = bracket_char ch c
esc_char esc_none ch c = plain_char ch c

-- `kconsole_putc`.
pub putc : ℕ → Console → Console
putc ch c = if c.fb_ready then esc_char c.esc_state ch c else c

-- `puts` on the console: the characters one after the other.
pub puts : List ℕ → Console → Console
puts [] c = c
puts (ch ∷ s) c = puts s (putc ch c)
