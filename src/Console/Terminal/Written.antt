-- ===== src/Console/Terminal/Written.antt =====
-- What is written to the console of kernel/kconsole.c, on the terminal.
use jeos.Prelude.{
  ℕ, ◌+◌, ◌≡◌, refl, sym, subst, ◌∙◌, true, false, List, [], ◌∷◌, ◌++◌, get_or, arith,
}
use jeos.Console.{Console, Colors, esc_none, ansi_palette, sgr_param, plain_char, putc, puts}
use jeos.Console.Inv.{IsValid, rows_small}
use jeos.Console.Text.{Text, Shows, type_plain}
use jeos.Console.Terminal.{
  Terminal, Item, letter, line_feed, carriage_return, backspace, ink_of, paper_of, colours_reset,
  IsItem, AreItems, bytes_for, fed, act, bytes_of_all, act_all, terminal_of, IsTerminal,
}
use jeos.Console.Terminal.Plain.{
  plain-IsTerminal, next_row-terminal, letter-terminal, backspace-terminal,
}
use jeos.Console.Terminal.Colours.{
  value, digits, AreDigits, sequence, colour-IsTerminal, ink-colour,
}

puts-append : (s r : List ℕ) (c : Console) → puts (s ++ r) c ≡ puts r (puts s c)
unfolding puts
puts-append [] r c = refl
puts-append (ch ∷ s) r c = puts-append s r (putc ch c)

recoloured :
    (ds : List ℕ) (p : ℕ) (k : Colors) (c : Console) (text : Text)
    → AreDigits ds
    → value 0 ds ≡ p
    → sgr_param p c.colors ≡ k
    → IsValid c
    → c.esc_state ≡ esc_none
    → Shows c text
    → IsTerminal (puts (sequence ds) c) (terminal_of (record c { colors = k }) text)
recoloured ds p k c text small at same v idle shows =
    subst (λ j. IsTerminal (puts (sequence ds) c) (terminal_of (record c { colors = j }) text)) same
      (colour-IsTerminal ds p c text small at v idle shows)

item-IsTerminal :
    (i : Item) (c : Console) (text : Text)
    → IsItem i
    → IsValid c
    → c.esc_state ≡ esc_none
    → Shows c text
    → IsTerminal (puts (bytes_for i) c) (act i (terminal_of c text))
unfolding puts bytes_for act plain_char type_plain sgr_param IsItem value digits AreDigits
item-IsTerminal (letter ch) c text (low, high) v idle shows =
    let (same, still) = letter-terminal ch c text low high v in
    plain-IsTerminal ch c text (act (letter ch) (terminal_of c text)) v idle shows (still ∙ idle)
      same
item-IsTerminal line_feed c text ok v idle shows =
    let (same, still) = next_row-terminal c text v.row_in (omega (arith, rows_small c v.screen)) in
    plain-IsTerminal 10 c text (fed (terminal_of c text)) v idle shows (still ∙ idle) same
item-IsTerminal carriage_return c text ok v idle shows =
    plain-IsTerminal 13 c text (act carriage_return (terminal_of c text)) v idle shows idle refl
item-IsTerminal backspace c text ok v idle shows =
    let (same, still) = backspace-terminal c text in
    plain-IsTerminal 8 c text (act backspace (terminal_of c text)) v idle shows (still ∙ idle) same
item-IsTerminal (ink_of false n) c text small v idle shows =
    recoloured (3 ∷ n ∷ []) (30 + n) (record c.colors { fg_color = get_or ansi_palette n 0 }) c text
      (omega arith, (omega arith, tt)) (omega arith) (ink-colour n c.colors small).0 v idle shows
item-IsTerminal (ink_of true n) c text small v idle shows =
    recoloured (9 ∷ n ∷ []) (90 + n) (record c.colors { fg_color = get_or ansi_palette (n + 8) 0 })
      c text (omega arith, (omega arith, tt)) (omega arith) (ink-colour n c.colors small).1 v idle
      shows
item-IsTerminal (paper_of false n) c text small v idle shows =
    recoloured (4 ∷ n ∷ []) (40 + n) (record c.colors { bg_color = get_or ansi_palette n 0 }) c text
      (omega arith, (omega arith, tt)) (omega arith) (ink-colour n c.colors small).2 v idle shows
item-IsTerminal (paper_of true n) c text small v idle shows =
    recoloured (1 ∷ 0 ∷ n ∷ []) (100 + n)
      (record c.colors { bg_color = get_or ansi_palette (n + 8) 0 }) c text
      (omega arith, (omega arith, (omega arith, tt))) (omega arith) (ink-colour n c.colors small).3
      v idle shows
item-IsTerminal colours_reset c text ok v idle shows =
    recoloured (0 ∷ []) 0
      (record c.colors { fg_color = c.colors.fg_default; bg_color = c.colors.bg_default }) c text
      (omega arith, tt) refl refl v idle shows

-- A well-formed console that is the picture of a terminal is, after a text of printable characters, line
-- feeds, carriage returns, backspaces and colour sequences, the picture of the terminal that they were
-- written on: a character fills the cell at the cursor in the two colours of the time and moves the
-- cursor, at the end of a line to the next one; the last line scrolls; a backspace goes back by one cell
-- and blanks it, and stays at the start of a line; a colour sequence changes one colour to one of the
-- sixteen, or both to the first ones.
pub puts-IsTerminal :
    (is : List Item) (c : Console) (t : Terminal)
    → AreItems is
    → IsTerminal c t
    → IsTerminal (puts (bytes_of_all is) c) (act_all is t)
unfolding puts bytes_of_all act_all AreItems
puts-IsTerminal [] c t ok h = h
puts-IsTerminal (i ∷ is) c t (one, ok) h =
    let first : IsTerminal (puts (bytes_for i) c) (act i t) =
      subst (λ u. IsTerminal (puts (bytes_for i) c) (act i u)) h.state
        (item-IsTerminal i c t.text one h.valid h.idle h.shows) in
    subst (λ d. IsTerminal d (act_all is (act i t)))
      (sym (puts-append (bytes_for i) (bytes_of_all is) c))
      (puts-IsTerminal is (puts (bytes_for i) c) (act i t) ok first)
