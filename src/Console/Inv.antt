-- ===== src/Console/Inv.antt =====
-- What holds of the console of kernel/kconsole.c between two characters.
use jeos.Prelude.{
  ℕ, ◌+◌, ◌-◌, ◌*◌, ◌/◌, ◌%◌, ◌^◌, ◌≤◌, ◌<◌, ◌≡◌, refl, sym, ap, inl, inr, true, length, length-set,
  subst, ◌==◌, if◌then◌else◌, Bool-cases, get_or, arith,
}
use jeos.Console.Frame.{Pixels, font_w, font_h}
use jeos.Console.Grid.{line_le}
use jeos.Console.{
  Console, EscState, esc_none, esc_esc, esc_bracket, draw_glyph, scroll, clear, init, apply_sgr,
  next_row, bracket_char, plain_char, esc_char, putc,
}

-- The parameter that a digit would go to is one of the eight.
abbrev pub InParams : EscState → ℕ → Type 0
InParams esc_none n = Unit
InParams esc_esc n = Unit
InParams esc_bracket n = n ≤ 7

-- The screen: whole cells that fit into the framebuffer, whose words a u32 can number.
pub record IsScreen (c : Console) : Type 0 where
  pub cols_pos : 0 < c.fb_cols
  pub rows_pos : 0 < c.fb_rows
  pub cols_fit : c.fb_cols * font_w ≤ c.fb_pitch
  pub rows_fit : c.fb_rows * font_h ≤ c.fb_height
  pub memory : c.fb_height * c.fb_pitch ≤ 2 ^ 32

-- A screen is one whatever is painted on it.
pub IsScreen-same :
    (c d : Console)
    → d.fb_cols ≡ c.fb_cols
    → d.fb_rows ≡ c.fb_rows
    → d.fb_pitch ≡ c.fb_pitch
    → d.fb_height ≡ c.fb_height
    → IsScreen c
    → IsScreen d
IsScreen-same c d w r p h s = record {
  cols_pos = rw w s.cols_pos;
  rows_pos = rw r s.rows_pos;
  cols_fit = rw (w, p) s.cols_fit;
  rows_fit = rw (r, h) s.rows_fit;
  memory = rw (h, p) s.memory;
}

pub record IsValid (c : Console) : Type 0 where
  pub ready : c.fb_ready ≡ true
  pub screen : IsScreen c
  pub col_in : c.cur_col < c.fb_cols
  pub row_in : c.cur_row < c.fb_rows
  pub params : length c.esc_params ≡ 8
  pub nparam : InParams c.esc_state c.esc_nparam

module _ (c : Console) (s : IsScreen c) where
  pub lines_room : c.fb_rows * font_h * c.fb_pitch ≤ 2 ^ 32
  lines_room =
      omega (arith, s.memory, line_le c.fb_pitch (c.fb_rows * font_h) c.fb_height s.rows_fit)

  pub pitch_small : c.fb_pitch * 9 ≤ 2 ^ 32
  pitch_small =
      omega
        (arith, lines_room, line_le c.fb_pitch 9 (c.fb_rows * font_h) (omega (arith, s.rows_pos)))

  pub rows_small : c.fb_rows * font_h * 8 ≤ 2 ^ 32
  rows_small = omega (
    arith,
    lines_room,
    line_le (c.fb_rows * font_h) 8 c.fb_pitch (omega (arith, s.cols_pos, s.cols_fit)),
  )

-- `kconsole_init` makes a well-formed console of a framebuffer that holds one cell at least, whose
-- lines are no shorter than four bytes to a pixel and shorter than 2^34 bytes, and whose words a u32
-- can number, if the parser's parameters are eight and its index is one of them.
pub init-IsValid :
    (address : Pixels) (width height pitch : ℕ) (c : Console)
    → font_w ≤ width
    → font_h ≤ height
    → width * 4 ≤ pitch
    → pitch < 2 ^ 34
    → height * (pitch / 4) ≤ 2 ^ 32
    → length c.esc_params ≡ 8
    → InParams c.esc_state c.esc_nparam
    → IsValid (init address width height pitch c)
unfolding init clear
init-IsValid address width height pitch c w h p small room eight n = ground (arith, rooms, low)
  where
    rooms : (height % 2 ^ 32) * (pitch / 4 % 2 ^ 32) ≤ 2 ^ 32
    rooms =
        let whole : pitch / 4 % 2 ^ 32 ≡ pitch / 4 = omega arith in
        rw whole (omega (arith, room, line_le (pitch / 4) (height % 2 ^ 32) height (omega arith)))

    low : height * 8 ≤ 2 ^ 32
    low = omega (arith, room, line_le height 8 (pitch / 4) (omega arith))

next_row-IsValid :
    (c : Console)
    → IsScreen c
    → c.fb_ready ≡ true
    → c.cur_row < c.fb_rows
    → length c.esc_params ≡ 8
    → InParams c.esc_state c.esc_nparam
    → IsValid (next_row c)
unfolding next_row scroll
next_row-IsValid c s ready row eight n = ground (arith, rows_small c s)

plain_char-IsValid :
    (ch : ℕ) (c : Console) → c.esc_state ≡ esc_none → IsValid c → IsValid (plain_char ch c)
unfolding plain_char draw_glyph
plain_char-IsValid ch c none v = elim (Bool-cases (ch == 27)) [
  | inl escape ↦ rw escape (ground arith)
  | inr other ↦ elim (Bool-cases (ch == 10)) [
    | inl line ↦ let e : ch ≡ 10 = ground arith in rw e below
    | inr printed ↦
        rw (other, printed)
          (ground (arith, rows_small c v.screen, pitch_small c v.screen, below_drawn))
  ]
]
  where
    d : Console
    d = draw_glyph c.cur_col c.cur_row ch c

    same_screen : IsScreen c
    same_screen = v.screen

    below : IsValid (next_row c)
    below = next_row-IsValid c v.screen v.ready v.row_in v.params v.nparam

    below_drawn : IsValid (next_row d)
    below_drawn =
        next_row-IsValid d (IsScreen-same c d refl refl refl refl v.screen) v.ready v.row_in
          v.params v.nparam

bracket_char-IsValid :
    (ch : ℕ) (c : Console) → c.esc_state ≡ esc_bracket → IsValid c → IsValid (bracket_char ch c)
unfolding bracket_char apply_sgr
bracket_char-IsValid ch c e v =
    let n : c.esc_nparam ≤ 7 = subst (λ s. InParams s c.esc_nparam) e v.nparam in
    ground (
      arith,
      n,
      length-set c.esc_params c.esc_nparam
          ((get_or c.esc_params c.esc_nparam 0 * 10 + (ch - 48)) % 2 ^ 32),
      length-set c.esc_params (c.esc_nparam + 1) 0,
      length-set c.esc_params c.esc_nparam 0,
      length-set c.esc_params 0 0,
    )

esc_char-IsValid :
    (s : EscState) (ch : ℕ) (c : Console) → c.esc_state ≡ s → IsValid c → IsValid (esc_char s ch c)
unfolding esc_char
esc_char-IsValid esc_none ch c e v = plain_char-IsValid ch c e v
esc_char-IsValid esc_esc ch c e v = ground (arith, length-set c.esc_params 0 0)
esc_char-IsValid esc_bracket ch c e v = bracket_char-IsValid ch c e v

pub putc-ready : (ch : ℕ) (c : Console) → c.fb_ready ≡ true → putc ch c ≡ esc_char c.esc_state ch c
unfolding putc
putc-ready ch c e = ap (λ b. if b then esc_char c.esc_state ch c else c) e

-- A well-formed console stays so under every character: the cursor on the screen, the parameters of an
-- escape sequence in their array.
pub putc-IsValid : (ch : ℕ) (c : Console) → IsValid c → IsValid (putc ch c)
putc-IsValid ch c v =
    subst IsValid (sym (putc-ready ch c v.ready)) (esc_char-IsValid c.esc_state ch c refl v)
