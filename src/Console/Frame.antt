-- ===== src/Console/Frame.antt =====
-- The loops over the framebuffer of kernel/kconsole.c, which `fb_draw_glyph`, `fb_scroll` and
-- `kconsole_clear` share.
use jeos.Prelude.{ℕ, zero, suc, ◌+◌, ◌-◌, ◌*◌, ◌%◌, ◌^◌, ◌==◌, if◌then◌else◌}

abbrev pub font_w : ℕ
font_w = 8

abbrev pub font_h : ℕ
font_h = 9

abbrev pub Pixels : Type 0
Pixels = ℕ → ℕ

-- `fb_addr[i] = v`.
abbrev pub store : Pixels → ℕ → ℕ → Pixels
store px i v j = if i == j then v else px j

-- `for (x = ...; ...; x++) fb_addr[base + x] = v(x)`, with `rounds` to go.
unfoldable pub put_row : (rounds x base : ℕ) → (ℕ → ℕ) → Pixels → Pixels
put_row zero x base v px = px
put_row (suc k) x base v px = put_row k (x + 1) base v (store px ((base + x) % 2 ^ 32) (v x))

-- A row of `n` pixels for each of `rounds` values of `y`, from the line `top + y` and the column
-- `left` on.
unfoldable pub put_rows : (rounds y top left n pitch : ℕ) → (ℕ → ℕ → ℕ) → Pixels → Pixels
put_rows zero y top left n pitch v px = px
put_rows (suc k) y top left n pitch v px =
    put_rows k (y + 1) top left n pitch v
      (put_row n 0 (((top + y) * pitch + left) % 2 ^ 32) (v y) px)

-- `fb_addr[dst + x] = fb_addr[src + x]`, with `rounds` to go.
unfoldable pub copy_line : (rounds x dst src : ℕ) → Pixels → Pixels
copy_line zero x dst src px = px
copy_line (suc k) x dst src px =
    copy_line k (x + 1) dst src (store px ((dst + x) % 2 ^ 32) (px ((src + x) % 2 ^ 32)))

-- The lines of the text row `r`, from `y` on, each moved up by one text row.
unfoldable pub copy_lines : (rounds y r n pitch : ℕ) → Pixels → Pixels
copy_lines zero y r n pitch px = px
copy_lines (suc k) y r n pitch px =
    copy_lines k (y + 1) r n pitch (
      copy_line n 0 (((r - 1) * font_h + y) * pitch % 2 ^ 32) ((r * font_h + y) * pitch % 2 ^ 32)
        px)

unfoldable pub copy_rows : (rounds r n pitch : ℕ) → Pixels → Pixels
copy_rows zero r n pitch px = px
copy_rows (suc k) r n pitch px = copy_rows k (r + 1) n pitch (copy_lines font_h 0 r n pitch px)
