-- ===== src/Console/Terminal/Plain.antt =====
-- The characters of kernel/kconsole.c outside escape sequences, on the terminal.
use jeos.Prelude.{
  ℕ, ◌+◌, ◌-◌, ◌*◌, ◌%◌, ◌^◌, ◌≤◌, ◌<◌, ◌≡◌, refl, sym, ap, subst, ◌∙◌, inl, inr, false, ◌||◌, ltb,
  leb, ◌==◌, if◌then◌else◌, Bool-cases, arith,
}
use jeos.Console.{Console, esc_none, draw_glyph, scroll, next_row, plain_char, esc_char, putc}
use jeos.Console.Inv.{IsValid, putc-ready, putc-IsValid, pitch_small, rows_small}
use jeos.Console.Text.{Text, Shows, type_plain, type_in, type_char}
use jeos.Console.Puts.{putc-Shows}
use jeos.Console.Terminal.{Terminal, letter, backspace, written, fed, act, terminal_of, IsTerminal}

-- One byte outside escape sequences.
pub plain-IsTerminal :
    (ch : ℕ) (c : Console) (text : Text) (t : Terminal)
    → IsValid c
    → c.esc_state ≡ esc_none
    → Shows c text
    → (plain_char ch c).esc_state ≡ esc_none
    → terminal_of (plain_char ch c) (type_plain ch c text) ≡ t
    → IsTerminal (putc ch c) t
unfolding type_in
plain-IsTerminal ch c text t v idle shows still same =
    let plain : putc ch c ≡ plain_char ch c =
      putc-ready ch c v.ready ∙ (ap (λ s. esc_char s ch c) idle ∙ unfold esc_char in refl) in
    let typed : type_char ch c text ≡ type_plain ch c text = ap (λ s. type_in s ch c text) idle in
    let drawn : Shows (plain_char ch c) (type_plain ch c text) =
      subst (λ d. Shows d (type_plain ch c text)) plain
        (subst (λ u. Shows (putc ch c) u) typed (putc-Shows ch c text v shows)) in
    let text_same : (type_plain ch c text) ≡ t.text = ap (λ (u : Terminal). u.text) same in
    subst (λ d. IsTerminal d t) (sym plain)
      (record {
        valid = subst IsValid plain (putc-IsValid ch c v);
        idle = still;
        state = ap (terminal_of (plain_char ch c)) (sym text_same) ∙ same;
        shows = subst (Shows (plain_char ch c)) text_same drawn;
      })

pub next_row-terminal :
    (c : Console) (text : Text)
    → c.cur_row < c.fb_rows
    → c.fb_rows * 8 ≤ 2 ^ 32
    → (terminal_of (next_row c) (
          if leb c.fb_rows (c.cur_row + 1)
          then (λ i j.
              if ltb (i + 1) c.fb_rows
              then text (i + 1) j
              else record { ch = 32; fg = c.colors.fg_color; bg = c.colors.bg_color })
          else text)
        ≡ fed (terminal_of c text))
      × ((next_row c).esc_state ≡ c.esc_state)
unfolding next_row scroll
next_row-terminal c text row_in small =
    let next : (c.cur_row + 1) % 2 ^ 32 ≡ c.cur_row + 1 = omega (arith, small, row_in) in
    let last : (c.fb_rows + 2 ^ 32 - 1) % 2 ^ 32 ≡ c.fb_rows - 1 = omega (arith, small, row_in) in
    elim (Bool-cases (leb c.fb_rows (c.cur_row + 1))) [
      | inl full ↦ rw (next, full, last) (refl, refl)
      | inr more ↦ rw (next, more) (refl, refl)
    ]

pub letter-terminal :
    (ch : ℕ) (c : Console) (text : Text)
    → 32 ≤ ch
    → ch ≤ 126
    → IsValid c
    → (terminal_of (plain_char ch c) (type_plain ch c text) ≡ act (letter ch) (terminal_of c text))
      × ((plain_char ch c).esc_state ≡ c.esc_state)
unfolding plain_char type_plain act draw_glyph
letter-terminal ch c text low high v =
    let n1 : (ch == 27) ≡ false = ground (arith, low) in
    let n2 : (ch == 13) ≡ false = ground (arith, low) in
    let n3 : (ch == 10) ≡ false = ground (arith, low) in
    let n4 : (ch == 8) ≡ false = ground (arith, low) in
    let n5 : (ltb ch 32 || ltb 126 ch) ≡ false = ground (arith, low, high) in
    let d = draw_glyph c.cur_col c.cur_row ch c in
    let small : c.fb_rows * 8 ≤ 2 ^ 32 = omega (arith, rows_small c v.screen) in
    let next : (c.cur_col + 1) % 2 ^ 32 ≡ c.cur_col + 1 =
      omega (arith, pitch_small c v.screen, v.screen.cols_fit, v.col_in) in
    let (fed_same, fed_idle) =
      next_row-terminal d (written c.cur_row c.cur_col ch (terminal_of c text)) v.row_in small in
    elim (Bool-cases (leb c.fb_cols (c.cur_col + 1))) [
      | inl full ↦ rw (n1, n2, n3, n4, n5, next, full) (fed_same, fed_idle)
      | inr more ↦ rw (n1, n2, n3, n4, n5, next, more) (refl, refl)
    ]

pub backspace-terminal :
    (c : Console) (text : Text)
    → (terminal_of (plain_char 8 c) (type_plain 8 c text) ≡ act backspace (terminal_of c text))
      × ((plain_char 8 c).esc_state ≡ c.esc_state)
unfolding plain_char type_plain act draw_glyph
backspace-terminal c text = elim (Bool-cases (ltb 0 c.cur_col)) [
  | inl there ↦ rw there (refl, refl)
  | inr start ↦ rw start (refl, refl)
]
