-- ===== src/Console/Terminal/Colours.antt =====
-- The colour sequences of kernel/kconsole.c, on the terminal.
use jeos.Prelude.{
  ℕ, ◌+◌, ◌-◌, ◌*◌, ◌%◌, ◌^◌, ◌<◌, ◌≡◌, refl, sym, ap, subst, ◌∙◌, true, ◌&&◌, List, [], ◌∷◌, ◌++◌,
  leb, get_or, set, length, get_or-set_self, length-set, arith,
}
use jeos.Console.{
  Console, Colors, esc_none, esc_esc, esc_bracket, ansi_palette, sgr_param, sgr_params, apply_sgr,
  bracket_char, plain_char, esc_char, putc, puts,
}
use jeos.Console.Inv.{IsValid, putc-ready, putc-IsValid}
use jeos.Console.Text.{Text, Shows}
use jeos.Console.Terminal.{terminal_of, IsTerminal}

-- In a colour sequence, with its parameters.
abbrev opened : Console → List ℕ → Console
opened c ps = record c { esc_state = esc_bracket; esc_nparam = 0; esc_params = ps }

abbrev next_digit : (v d : ℕ) → ℕ
next_digit v d = (v * 10 + (48 + d - 48)) % 2 ^ 32

unfoldable pub value : ℕ → List ℕ → ℕ
value v [] = v
value v (d ∷ ds) = value (next_digit v d) ds

unfoldable pub digits : List ℕ → List ℕ
digits [] = []
digits (d ∷ ds) = (48 + d) ∷ digits ds

unfoldable pub AreDigits : List ℕ → Type 0
AreDigits [] = Unit
AreDigits (d ∷ ds) = (d < 10) × AreDigits ds

putc-open :
    (c : Console)
    → c.fb_ready ≡ true
    → c.esc_state ≡ esc_none
    → putc 91 (putc 27 c) ≡ opened c (set c.esc_params 0 0)
unfolding plain_char esc_char
putc-open c ready idle =
    let first : putc 27 c ≡ record c { esc_state = esc_esc } =
      putc-ready 27 c ready ∙ (ap (λ s. esc_char s 27 c) idle) in
    ap (putc 91) first ∙ putc-ready 91 (record c { esc_state = esc_esc }) ready

putc-digit :
    (d : ℕ) (c : Console) (ps : List ℕ)
    → d < 10
    → c.fb_ready ≡ true
    → putc (48 + d) (opened c ps) ≡ opened c (set ps 0 (next_digit (get_or ps 0 0) d))
unfolding bracket_char esc_char
putc-digit d c ps small ready =
    let digit : (leb 48 (48 + d) && leb (48 + d) 57) ≡ true = ground (arith, small) in
    putc-ready (48 + d) (opened c ps) ready ∙ (rw digit refl)

puts-digits :
    (ds : List ℕ) (v : ℕ) (c : Console) (ps rest : List ℕ)
    → AreDigits ds
    → c.fb_ready ≡ true
    → length ps ≡ 8
    → get_or ps 0 0 ≡ v
    → (qs : List ℕ) × (puts (digits ds ++ rest) (opened c ps) ≡ puts rest (opened c qs))
      × (get_or qs 0 0 ≡ value v ds)
unfolding AreDigits digits value puts
puts-digits [] v c ps rest small ready eight at = (ps, refl, at)
puts-digits (d ∷ ds) v c ps rest (first, small) ready eight at =
    let x = next_digit (get_or ps 0 0) d in
    let (qs, run, end) =
      puts-digits ds (next_digit v d) c (set ps 0 x) rest small ready (length-set ps 0 x ∙ eight)
        (get_or-set_self ps 0 x 0 (omega (arith, eight)) ∙ ap (λ u. next_digit u d) at) in
    (qs, ap (puts (digits ds ++ rest)) (putc-digit d c ps first ready) ∙ run, end)

putc-close :
    (c : Console) (ps : List ℕ)
    → c.fb_ready ≡ true
    → putc 109 (opened c ps) ≡ record c {
      esc_state = esc_none;
      esc_nparam = 1;
      esc_params = ps;
      colors = sgr_param (get_or ps 0 0) c.colors;
    }
unfolding bracket_char esc_char apply_sgr sgr_params
putc-close c ps ready = putc-ready 109 (opened c ps) ready

puts-IsValid : (s : List ℕ) (c : Console) → IsValid c → IsValid (puts s c)
unfolding puts
puts-IsValid [] c v = v
puts-IsValid (ch ∷ s) c v = puts-IsValid s (putc ch c) (putc-IsValid ch c v)

abbrev pub sequence : List ℕ → List ℕ
sequence ds = 27 ∷ 91 ∷ (digits ds ++ (109 ∷ []))

pub colour-IsTerminal :
    (ds : List ℕ) (p : ℕ) (c : Console) (text : Text)
    → AreDigits ds
    → value 0 ds ≡ p
    → IsValid c
    → c.esc_state ≡ esc_none
    → Shows c text
    → IsTerminal
        (puts (sequence ds) c)
        (terminal_of (record c { colors = sgr_param p c.colors }) text)
unfolding puts
colour-IsTerminal ds p c text small at v idle shows =
    let first : get_or (set c.esc_params 0 0) 0 0 ≡ 0 =
      get_or-set_self c.esc_params 0 0 0 (omega (arith, v.params)) in
    let (qs, run, end) =
      puts-digits ds 0 c (set c.esc_params 0 0) (109 ∷ []) small v.ready
        (length-set c.esc_params 0 0 ∙ v.params) first in
    let done : Console = record c {
      esc_state = esc_none;
      esc_nparam = 1;
      esc_params = qs;
      colors = sgr_param (get_or qs 0 0) c.colors;
    } in
    let ran : puts (sequence ds) c ≡ done =
      ap (puts (digits ds ++ (109 ∷ []))) (putc-open c v.ready idle)
      ∙ run
      ∙ putc-close c qs v.ready in
    let same = end ∙ at in
    subst (λ d. IsTerminal d (terminal_of (record c { colors = sgr_param p c.colors }) text))
      (sym ran)
      (record {
        valid = subst IsValid ran (puts-IsValid (sequence ds) c v);
        idle = refl;
        state = ap (λ q. terminal_of (record c { colors = sgr_param q c.colors }) text) same;
        shows = shows;
      })

pub ink-colour :
    (n : ℕ) (k : Colors)
    → n < 8
    → (sgr_param (30 + n) k ≡ record k { fg_color = get_or ansi_palette n 0 })
      × (sgr_param (90 + n) k ≡ record k { fg_color = get_or ansi_palette (n + 8) 0 })
      × (sgr_param (40 + n) k ≡ record k { bg_color = get_or ansi_palette n 0 })
      × (sgr_param (100 + n) k ≡ record k { bg_color = get_or ansi_palette (n + 8) 0 })
unfolding sgr_param
ink-colour n k small = (
  ground (arith, small, ap (λ i. get_or ansi_palette i 0) {x = 30 + n - 30} {y = n} (omega arith)),
  ground (
    arith,
    small,
    ap (λ i. get_or ansi_palette i 0) {x = 90 + n - 90 + 8} {y = n + 8} (omega arith),
  ),
  ground (arith, small, ap (λ i. get_or ansi_palette i 0) {x = 40 + n - 40} {y = n} (omega arith)),
  ground (
    arith,
    small,
    ap (λ i. get_or ansi_palette i 0) {x = 100 + n - 100 + 8} {y = n + 8} (omega arith),
  ),
)
