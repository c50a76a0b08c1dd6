-- ===== src/Console/Puts.antt =====
-- `kconsole_putc` of kernel/kconsole.c against the text screen.
use jeos.Prelude.{
  ℕ, ◌+◌, ◌-◌, ◌%◌, ◌^◌, ◌<◌, ◌≡◌, refl, sym, subst, inl, inr, ◌&&◌, ◌||◌, List, [], ◌∷◌, ltb, leb,
  ◌==◌, if◌then◌else◌, Bool-cases, arith,
}
use jeos.Console.{
  Console, EscState, esc_none, esc_esc, esc_bracket, draw_glyph, apply_sgr, next_row, bracket_char,
  plain_char, esc_char, putc, puts,
}
use jeos.Console.Inv.{IsScreen-same, IsValid, putc-ready, putc-IsValid, pitch_small}
use jeos.Console.Text.{
  Text, Shows, cell_of, set_cell, feed, type_plain, type_in, type_char, type_text, draw_glyph-Shows,
  next_row-Shows,
}

bracket_char-Shows : (ch : ℕ) (c : Console) (t : Text) → Shows c t → Shows (bracket_char ch c) t
unfolding bracket_char apply_sgr
bracket_char-Shows ch c t h = elim (Bool-cases (leb 48 ch && leb ch 57)) [
  | inl digit ↦ rw digit h
  | inr no_digit ↦ elim (Bool-cases (ch == 59)) [
    | inl semicolon ↦ rw (no_digit, semicolon) h
    | inr last ↦ elim (Bool-cases (ch == 109)) [
      | inl colours ↦ elim (Bool-cases ((c.esc_nparam + 1) % 256 == 0)) [
        | inl none ↦ rw (no_digit, last, colours, none) h
        | inr some ↦ rw (no_digit, last, colours, some) h
      ]
      | inr other ↦ rw (no_digit, last, other) h
    ]
  ]
]

-- The cell before the cursor is blanked.
erase-Shows :
    (c : Console) (t : Text)
    → IsValid c
    → 0 < c.cur_col
    → Shows c t
    → Shows
        (draw_glyph (c.cur_col - 1) c.cur_row 32 (record c { cur_col = c.cur_col - 1 }))
        (set_cell c.cur_row (c.cur_col - 1) (cell_of 32 c) t)
erase-Shows c t v pos h =
    draw_glyph-Shows c' t c.cur_row (c.cur_col - 1) 32
      (IsScreen-same c c' refl refl refl refl v.screen) v.row_in (omega (arith, v.col_in)) h
  where
    c' : Console
    c' = record c { cur_col = c.cur_col - 1 }

print-Shows :
    (ch : ℕ) (c : Console) (t : Text)
    → IsValid c
    → Shows c t
    → let d = draw_glyph c.cur_col c.cur_row ch c in
      let t' = set_cell c.cur_row c.cur_col (cell_of ch c) t in
      Shows
        (if leb d.fb_cols ((d.cur_col + 1) % 2 ^ 32)
          then next_row d
          else record d { cur_col = (d.cur_col + 1) % 2 ^ 32 })
        (if leb c.fb_cols (c.cur_col + 1) then feed c t' else t')
unfolding draw_glyph
print-Shows ch c t v h =
    let d = draw_glyph c.cur_col c.cur_row ch c in
    let t' = set_cell c.cur_row c.cur_col (cell_of ch c) t in
    let drawn = draw_glyph-Shows c t c.cur_row c.cur_col ch v.screen v.row_in v.col_in h in
    let next : (c.cur_col + 1) % 2 ^ 32 ≡ c.cur_col + 1 =
      omega (arith, pitch_small c v.screen, v.screen.cols_fit) in
    elim (Bool-cases (leb c.fb_cols (c.cur_col + 1))) [
      | inl full ↦
          rw (next, full)
            (next_row-Shows d t' (IsScreen-same c d refl refl refl refl v.screen) v.row_in drawn)
      | inr more ↦ rw (next, more) drawn
    ]

plain_char-Shows :
    (ch : ℕ) (c : Console) (t : Text)
    → IsValid c
    → Shows c t
    → Shows (plain_char ch c) (type_plain ch c t)
unfolding plain_char type_plain
plain_char-Shows ch c t v h = (elim (Bool-cases (ch == 27)) [
  | inl escape ↦ let e : ch ≡ 27 = ground arith in rw e h
  | inr n1 ↦ elim (Bool-cases (ch == 13)) [
    | inl return ↦ let e : ch ≡ 13 = ground arith in rw e h
    | inr n2 ↦ elim (Bool-cases (ch == 10)) [
      | inl line ↦ rw (n1, n2, line) (next_row-Shows c t v.screen v.row_in h)
      | inr n3 ↦ elim (Bool-cases (ch == 8)) [
        | inl back ↦ elim (Bool-cases (ltb 0 c.cur_col)) [
          | inl room ↦ rw (n1, n2, n3, back, room) (erase-Shows c t v (ground arith) h)
          | inr start ↦ rw (n1, n2, n3, back, start) h
        ]
        | inr n4 ↦ elim (Bool-cases (ltb ch 32 || ltb 126 ch)) [
          | inl control ↦ rw (n1, n2, n3, n4, control) h
          | inr printable ↦ rw (n1, n2, n3, n4, printable) (print-Shows ch c t v h)
        ]
      ]
    ]
  ]
])

esc_char-Shows :
    (s : EscState) (ch : ℕ) (c : Console) (t : Text)
    → IsValid c
    → Shows c t
    → Shows (esc_char s ch c) (type_in s ch c t)
unfolding esc_char type_in
esc_char-Shows esc_none ch c t v h = plain_char-Shows ch c t v h
esc_char-Shows esc_esc ch c t v h = elim (Bool-cases (ch == 91)) [ inl e ↦ rw e h | inr e ↦ rw e h ]
esc_char-Shows esc_bracket ch c t v h = bracket_char-Shows ch c t h

-- One character: on a well-formed console whose framebuffer is the picture of a text, it is
-- afterwards the picture of the text with the character typed: put into the cell at the cursor in the
-- current colours, erased, fed to a new row with a scroll at the foot of the screen, or nothing, for
-- control characters and those of an escape sequence.
pub putc-Shows :
    (ch : ℕ) (c : Console) (t : Text) → IsValid c → Shows c t → Shows (putc ch c) (type_char ch c t)
putc-Shows ch c t v h =
    subst (λ d. Shows d (type_char ch c t)) (sym (putc-ready ch c v.ready))
      (esc_char-Shows c.esc_state ch c t v h)

-- A whole string: the framebuffer of a well-formed console that is the picture of a text is, after
-- the string, the picture of the text with the string typed, character by character.
pub puts-Shows :
    (s : List ℕ) (c : Console) (t : Text)
    → IsValid c
    → Shows c t
    → Shows (puts s c) (type_text s c t)
unfolding puts type_text
puts-Shows [] c t v h = h
puts-Shows (ch ∷ s) c t v h =
    puts-Shows s (putc ch c) (type_char ch c t) (putc-IsValid ch c v) (putc-Shows ch c t v h)
