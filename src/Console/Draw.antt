-- ===== src/Console/Draw.antt =====
-- What `fb_draw_glyph`, `fb_scroll` and `kconsole_clear` of kernel/kconsole.c leave on the screen.
use jeos.Prelude.{
  ℕ, ◌+◌, ◌-◌, ◌*◌, ◌/◌, ◌%◌, ◌^◌, ◌≤◌, ◌<◌, ◌≡◌, Bool, [], ◌&&◌, ltb, leb, ◌==◌, if◌then◌else◌,
  get_or, arith,
}
use jeos.Console.Font.{font8x8}
use jeos.Console.Frame.{font_w, font_h, put_rows, copy_rows}
use jeos.Console.Grid.{line_le, put_row-span, put_rows-rectangle}
use jeos.Console.Move.{copy_rows-moved}
use jeos.Console.{Console, draw_glyph, scroll}
use jeos.Console.Inv.{IsScreen, lines_room, pitch_small, rows_small}

-- A character in its colours.
pub record Cell : Type 0 where
  pub ch : ℕ
  pub fg : ℕ
  pub bg : ℕ

-- Whether the font sets the pixel in the row `y` and the column `x` of a character.
unfoldable pub lit : (ch y x : ℕ) → Bool
lit ch y x = get_or (get_or font8x8 (ch % 128) []) y 0 / 2 ^ (7 - x) % 2 == 1

-- The colour of a pixel of a cell, whose last line is empty.
unfoldable pub cell_pixel : Cell → ℕ → ℕ → ℕ
cell_pixel k y x = if ltb y 8 && lit k.ch y x then k.fg else k.bg

-- Whether the line `y` and the column `x` lie in a cell of the screen.
abbrev pub in_cell : (row col y x : ℕ) → Bool
in_cell row col y x =
    (leb (row * font_h) y && ltb y (row * font_h + font_h))
    && (leb (col * font_w) x && ltb x (col * font_w + font_w))

abbrev pub at : Console → ℕ → ℕ → ℕ
at c y x = c.fb (y * c.fb_pitch + x)

-- On a screen whose cells fit into its framebuffer, `fb_draw_glyph` of a cell of the screen paints the
-- cell with the character in the current colours, and no other pixel of a line.
pub draw_glyph-at :
    (c : Console) (row col ch y x : ℕ)
    → IsScreen c
    → row < c.fb_rows
    → col < c.fb_cols
    → x < c.fb_pitch
    → at (draw_glyph col row ch c) y x ≡ (
        if in_cell row col y x
        then cell_pixel
            (record { ch = ch; fg = c.colors.fg_color; bg = c.colors.bg_color })
            (y - row * font_h)
            (x - col * font_w)
        else at c y x)
unfolding draw_glyph lit cell_pixel
draw_glyph-at c row col ch y x s r k h =
    let w = c.fb_pitch in
    let small_col : col * font_w % 2 ^ 32 ≡ col * font_w =
      omega (arith, pitch_small c s, s.cols_fit) in
    let small_row : row * font_h % 2 ^ 32 ≡ row * font_h = omega (arith, rows_small c s) in
    let room : (row * font_h + 8 + 1) * w ≤ 2 ^ 32 = omega (
      arith,
      lines_room c s,
      line_le w (row * font_h + 8 + 1) (c.fb_rows * font_h) (omega arith),
    ) in
    let room' : (row * font_h + 0 + 8) * w ≤ 2 ^ 32 =
      omega (arith, room, line_le w (row * font_h + 0 + 8) (row * font_h + 8 + 1) (omega arith)) in
    let pixel : ℕ → ℕ → ℕ = λ y x.
      (if get_or (get_or font8x8 (ch % 128) []) y 0 / 2 ^ (7 - x) % 2 == 1
        then c.colors.fg_color
        else c.colors.bg_color) in
    rw (small_col, small_row)
      (ground (
        arith,
        put_row-span w y x (row * font_h + 8) (col * font_w) 8 (λ x. c.colors.bg_color)
            (put_rows 8 0 (row * font_h) (col * font_w) 8 w pixel c.fb) (omega arith) h
            (omega (arith, s.cols_fit)) room,
        put_rows-rectangle 8 0 w y x (row * font_h) (col * font_w) 8 pixel c.fb (omega arith) h
            (omega (arith, s.cols_fit)) room',
      ))

-- On a screen whose cells fit into its framebuffer, `fb_scroll` moves every pixel of the text up by one text row, fills the last text row with the
-- background, and leaves the pixels outside the text alone.
pub scroll-at :
    (c : Console) (y x : ℕ)
    → IsScreen c
    → x < c.fb_pitch
    → at (scroll c) y x ≡ (
        if ltb x (c.fb_cols * font_w)
        then (if ltb y ((c.fb_rows - 1) * font_h)
            then at c (y + font_h) x
            else if ltb y (c.fb_rows * font_h)
            then c.colors.bg_color
            else at c y x)
        else at c y x)
unfolding scroll
scroll-at c y x s h =
    let w = c.fb_pitch in
    let n = c.fb_cols * font_w in
    let small : c.fb_cols * font_w % 2 ^ 32 ≡ n =
      omega (arith, pitch_small c s, s.cols_fit, s.cols_pos) in
    let last : (c.fb_rows + 2 ^ 32 - 1) * font_h % 2 ^ 32 ≡ (c.fb_rows - 1) * font_h =
      omega (arith, rows_small c s, s.rows_pos) in
    let px = copy_rows (c.fb_rows - 1) 1 n w c.fb in
    rw (small, last)
      (ground (
        arith,
        put_rows-rectangle font_h 0 w y x ((c.fb_rows - 1) * font_h) 0 n (λ y x. c.colors.bg_color)
            px (omega (arith, s.cols_pos)) h (omega (arith, s.cols_fit))
            (omega (
              arith,
              lines_room c s,
              line_le w ((c.fb_rows - 1) * font_h + 0 + font_h) (c.fb_rows * font_h)
                  (omega (arith, s.rows_pos)),
            )),
        copy_rows-moved (c.fb_rows - 1) 1 w y x n c.fb (omega (arith, s.cols_pos)) h
            (omega (arith, s.cols_fit)) (omega arith)
            (omega (
              arith,
              lines_room c s,
              line_le w ((1 + (c.fb_rows - 1)) * font_h) (c.fb_rows * font_h)
                  (omega (arith, s.rows_pos)),
            )),
      ))
