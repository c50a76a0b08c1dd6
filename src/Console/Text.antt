-- ===== src/Console/Text.antt =====
-- The console of kernel/kconsole.c as a text screen: a grid of characters in colours, of which the
-- framebuffer is the picture.
use jeos.Prelude.{
  ℕ, zero, suc, ◌+◌, ◌-◌, ◌*◌, ◌%◌, ◌^◌, ◌<◌, ◌≡◌, refl, ap, ap₂, ◌∙◌, inl, inr, false, List, [],
  ◌∷◌, ◌&&◌, ◌||◌, ltb, leb, ◌==◌, if◌then◌else◌, Bool-cases, get_or, replicate, arith,
}
use native.Mathlib.Nat.{zero-div}
use jeos.Console.Font.{font8x8}
use jeos.Console.Frame.{font_w, font_h}
use jeos.Console.{
  Console, EscState, esc_none, esc_esc, esc_bracket, draw_glyph, scroll, next_row, putc,
}
use jeos.Console.Inv.{IsScreen, IsScreen-same, rows_small}
use jeos.Console.Draw.{Cell, lit, cell_pixel, at, draw_glyph-at, scroll-at}

-- The character in a row and a column.
abbrev pub Text : Type 0
Text = ℕ → ℕ → Cell

-- The framebuffer is the picture of the text.
abbrev pub Shows : Console → Text → Type 0
Shows c t =
    (row col y x : ℕ)
    → row < c.fb_rows
    → col < c.fb_cols
    → y < font_h
    → x < font_w
    → at c (row * font_h + y) (col * font_w + x) ≡ cell_pixel (t row col) y x

abbrev pub cell_of : ℕ → Console → Cell
cell_of ch c = record { ch = ch; fg = c.colors.fg_color; bg = c.colors.bg_color }

abbrev pub set_cell : ℕ → ℕ → Cell → Text → Text
set_cell row col k t i j = if (i == row) && (j == col) then k else t i j

-- The rows of the text moved up by one, with a row of blanks below.
abbrev pub scrolled : Console → Text → Text
scrolled c t i j = if ltb (i + 1) c.fb_rows then t (i + 1) j else cell_of 32 c

abbrev pub feed : Console → Text → Text
feed c t = if leb c.fb_rows (c.cur_row + 1) then scrolled c t else t

-- What a character outside an escape sequence does to the text: a line feed and a full row scroll at
-- the foot of the screen, a backspace blanks the cell before the cursor, a printable character fills
-- the cell at the cursor.
unfoldable pub type_plain : ℕ → Console → Text → Text
type_plain ch c t =
    if ch == 10
    then feed c t
    else if ch == 8
    then (if ltb 0 c.cur_col then set_cell c.cur_row (c.cur_col - 1) (cell_of 32 c) t else t)
    else if ltb ch 32 || ltb 126 ch
    then t
    else (let t' = set_cell c.cur_row c.cur_col (cell_of ch c) t in
        if leb c.fb_cols (c.cur_col + 1) then feed c t' else t')

-- The characters of an escape sequence do nothing to it.
unfoldable pub type_in : EscState → ℕ → Console → Text → Text
type_in esc_none ch c t = type_plain ch c t
type_in esc_esc ch c t = t
type_in esc_bracket ch c t = t

abbrev pub type_char : ℕ → Console → Text → Text
type_char ch c t = type_in c.esc_state ch c t

unfoldable pub type_text : List ℕ → Console → Text → Text
type_text [] c t = t
type_text (ch ∷ s) c t = type_text s (putc ch c) (type_char ch c t)

get_or-zeros : (n y : ℕ) → ◌≡◌ {A = ℕ} (get_or (replicate n 0) y 0) 0
get_or-zeros zero y = refl
get_or-zeros (suc n) zero = refl
get_or-zeros (suc n) (suc y) = get_or-zeros n y

blank-unlit : (y x : ℕ) → lit 32 y x ≡ false
unfolding lit font8x8
blank-unlit y x =
    let row : get_or (replicate 8 0) y 0 ≡ 0 = get_or-zeros 8 y in
    rw (row, zero-div (2 ^ (7 - x))) refl

same_cell :
    (i j row col y x : ℕ)
    → y < font_h
    → x < font_w
    → ((leb (row * font_h) (i * font_h + y) && ltb (i * font_h + y) (row * font_h + font_h))
        && (leb (col * font_w) (j * font_w + x) && ltb (j * font_w + x) (col * font_w + font_w)))
      ≡ ((i == row) && (j == col))
same_cell i j row col y x h k = ground arith

pixel_in :
    (c : Console) (j x : ℕ) → IsScreen c → j < c.fb_cols → x < font_w → j * font_w + x < c.fb_pitch
pixel_in c j x s h k = omega (arith, s.cols_fit)

pub draw_glyph-Shows :
    (c : Console) (t : Text) (row col ch : ℕ)
    → IsScreen c
    → row < c.fb_rows
    → col < c.fb_cols
    → Shows c t
    → Shows (draw_glyph col row ch c) (set_cell row col (cell_of ch c) t)
unfolding draw_glyph
draw_glyph-Shows c t row col ch s r k h i j y x i_in j_in y_in x_in =
    draw_glyph-at c row col ch (i * font_h + y) (j * font_w + x) s r k (pixel_in c j x s j_in x_in)
    ∙ rw (same_cell i j row col y x y_in x_in) (elim (Bool-cases ((i == row) && (j == col))) [
      | inl here ↦ rw here (ap₂ (cell_pixel (cell_of ch c)) (ground arith) (ground arith))
      | inr other ↦ rw other (h i j y x i_in j_in y_in x_in)
    ])

pub blank_pixel : (c : Console) (y x : ℕ) → cell_pixel (cell_of 32 c) y x ≡ c.colors.bg_color
unfolding cell_pixel
blank_pixel c y x = ground (arith, blank-unlit y x)

scroll-Shows : (c : Console) (t : Text) → IsScreen c → Shows c t → Shows (scroll c) (scrolled c t)
unfolding scroll
scroll-Shows c t s h i j y x i_in j_in y_in x_in =
    scroll-at c (i * font_h + y) (j * font_w + x) s (pixel_in c j x s j_in x_in)
    ∙ elim (Bool-cases (ltb (i + 1) c.fb_rows)) [
      | inl moved ↦
          let up : i * font_h + y + font_h ≡ (i + 1) * font_h + y = omega arith in
          rw moved (
            ground arith
            ∙ ap (λ l. at c l (j * font_w + x)) up
            ∙ h (i + 1) j y x (ground arith) j_in y_in x_in)
      | inr last ↦ rw last (ground (arith, blank_pixel c y x))
    ]

pub next_row-Shows :
    (c : Console) (t : Text)
    → IsScreen c
    → c.cur_row < c.fb_rows
    → Shows c t
    → Shows (next_row c) (feed c t)
unfolding next_row scroll
next_row-Shows c t s r h =
    let c' : Console = record c { cur_col = 0; cur_row = (c.cur_row + 1) % 2 ^ 32 } in
    let s' = IsScreen-same c c' refl refl refl refl s in
    let next : (c.cur_row + 1) % 2 ^ 32 ≡ c.cur_row + 1 = omega (arith, rows_small c s) in
    elim (Bool-cases (leb c.fb_rows (c.cur_row + 1))) [
      | inl full ↦ rw (next, full) (scroll-Shows c' t s' h)
      | inr more ↦ rw (next, more) h
    ]
