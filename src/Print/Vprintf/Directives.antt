-- ===== src/Print/Vprintf/Directives.antt =====
-- How `do_vprintf` reads its format.
use Prim.Native.Nat.{◌*◌}
use jeos.Prelude.{
  ℕ, zero, suc, ◌+◌, ◌≤◌, ◌≡◌, ◌≢◌, refl, ap, ◌∙◌, Bool, true, false, not, ◌&&◌, ◌||◌, Option, some,
  List, [], ◌∷◌, ◌++◌, length, length-append, ◌==◌, ◌>>=◌, if◌then◌else◌, arith,
}
use jeos.Print.{Bytes}
use jeos.Print.Digits.{spelled, digit_value, Decimals}
use jeos.Print.Vprintf.{
  Value, Flags, no_flags, is_flag, set_flag, parse_flags, settle, max_int, is_digit, parse_width,
  convert, parse_directive, vprintf, do_vprintf,
}

-- A format by its parts: a byte that stands for itself, or a directive with its flags, the digits of
-- its width and its letter.
pub data Piece : Type 0 where
  plain : ℕ → Piece
  directive : (flags digits : Bytes) → (letter : ℕ) → Piece

unfoldable pub encode : List Piece → Bytes
encode [] = []
encode (plain c ∷ ps) = c ∷ encode ps
encode (directive flags digits letter ∷ ps) = b'%' ∷ (flags ++ (digits ++ (letter ∷ encode ps)))

unfoldable pub has : ℕ → Bytes → Bool
has c [] = false
has c (x ∷ s) = x == c || has c s

-- Left alignment and centring each switch the padding with zeros off.
unfoldable pub flags_of : Bytes → Flags
flags_of s = record {
  left_align = has b'-' s;
  zero_pad = has b'0' s && not (has b'-' s || has b'^' s);
  center = has b'^' s;
}

-- What a format of these parts prints.
unfoldable pub render : List Piece → List Value → Option Bytes
render [] args = some []
render (plain c ∷ ps) args = do more ← render ps args; some (c ∷ more)
render (directive flags digits letter ∷ ps) args = do
  (out, left) ← convert (flags_of flags) (spelled 10 0 digits) letter args
  more ← render ps left
  some (out ++ more)

unfoldable pub FlagBytes : Bytes → Type 0
FlagBytes [] = Unit
FlagBytes (c ∷ s) = (is_flag c ≡ true) × FlagBytes s

unfoldable pub StartsAboveZero : Bytes → Type 0
StartsAboveZero [] = Unit
StartsAboveZero (c ∷ s) = c ≢ b'0'

-- Each part is read as itself: a plain byte is no `%`, a width has no leading zero and fits an int, and
-- a letter is neither a digit nor a flag.
unfoldable pub Readable : List Piece → Type 0
Readable [] = Unit
Readable (plain c ∷ ps) = (c ≢ b'%') × Readable ps
Readable (directive flags digits letter ∷ ps) =
    FlagBytes flags
    × Decimals digits
    × StartsAboveZero digits
    × (spelled 10 0 digits ≤ max_int)
    × (is_digit letter ≡ false)
    × (is_flag letter ≡ false)
    × Readable ps

-- The flags of `s` added to `f`.
abbrev with_flags : Bytes → Flags → Flags
with_flags s f = record {
  left_align = has b'-' s || f.left_align;
  zero_pad = has b'0' s || f.zero_pad;
  center = has b'^' s || f.center;
}

or_swap : (a b c : Bool) → b || (a || c) ≡ a || b || c
or_swap true true c = refl
or_swap true false c = refl
or_swap false b c = refl

with_flags_step :
    (x : ℕ) (s : Bytes) (f : Flags) → with_flags s (set_flag x f) ≡ with_flags (x ∷ s) f
unfolding has
with_flags_step x s f = λ i. record {
  left_align = or_swap (x == b'-') (has b'-' s) f.left_align i;
  zero_pad = or_swap (x == b'0') (has b'0' s) f.zero_pad i;
  center = or_swap (x == b'^') (has b'^' s) f.center i;
}

parse_flags-append :
    (s : Bytes) (f : Flags) (c : ℕ) (r : Bytes)
    → FlagBytes s
    → is_flag c ≡ false
    → parse_flags f (s ++ (c ∷ r)) ≡ (with_flags s f, c ∷ r)
unfolding parse_flags FlagBytes has
parse_flags-append [] f c r flags stop =
    ap (λ b. if b then parse_flags (set_flag c f) r else (f, c ∷ r)) stop
parse_flags-append (x ∷ s) f c r (flag, flags) stop =
    ap (λ b. if b then parse_flags (set_flag x f) (s ++ (c ∷ r)) else (f, x ∷ (s ++ (c ∷ r)))) flag
    ∙ parse_flags-append s (set_flag x f) c r flags stop
    ∙ ap (λ g. (g, c ∷ r)) (with_flags_step x s f)

le-spelled : (n : ℕ) (s : Bytes) → n ≤ spelled 10 n s
unfolding spelled
le-spelled n [] = omega arith
le-spelled n (c ∷ s) = omega (arith, le-spelled (n * 10 + digit_value c) s)

parse_width-append :
    (width : ℕ) (s : Bytes) (c : ℕ) (r : Bytes)
    → Decimals s
    → is_digit c ≡ false
    → spelled 10 width s ≤ max_int
    → parse_width width (s ++ (c ∷ r)) ≡ some (spelled 10 width s, c ∷ r)
unfolding parse_width Decimals spelled
parse_width-append width [] c r digits stop fits = ground arith
parse_width-append width (x ∷ s) c r (low, high, digits) stop fits =
    let wider = width * 10 + digit_value x in
    ground (arith, le-spelled wider s, parse_width-append wider s c r digits stop)

or_false : (b : Bool) → b || false ≡ b
or_false true = refl
or_false false = refl

settle-with_flags : (s : Bytes) → settle (with_flags s no_flags) ≡ flags_of s
unfolding flags_of
settle-with_flags s = λ i.
    let left = or_false (has b'-' s) i in
    let zeros = or_false (has b'0' s) i in
    let middle = or_false (has b'^' s) i in
    record { left_align = left; zero_pad = zeros && not (left || middle); center = middle }

two_loops :
    (s : Bytes) {f : Flags} {t : Bytes} {width letter : ℕ} {r : Bytes}
    → parse_flags no_flags s ≡ (f, t)
    → parse_width 0 t ≡ some (width, letter ∷ r)
    → parse_directive s ≡ some (settle f, width, letter, r)
unfolding parse_directive
two_loops s flags width = rw (flags, width, flags)

parse_directive-append :
    (flags digits : Bytes) (letter : ℕ) (r : Bytes)
    → FlagBytes flags
    → Decimals digits
    → StartsAboveZero digits
    → spelled 10 0 digits ≤ max_int
    → is_digit letter ≡ false
    → is_flag letter ≡ false
    → parse_directive (flags ++ (digits ++ (letter ∷ r)))
      ≡ some (flags_of flags, spelled 10 0 digits, letter, r)
unfolding Decimals StartsAboveZero
parse_directive-append flags digits letter r are_flags are_digits above fits no_digit no_flag =
    two_loops (flags ++ (digits ++ (letter ∷ r))) (flags_end digits are_digits above)
      (parse_width-append 0 digits letter r are_digits no_digit fits)
    ∙ ap (λ f. some (f, spelled 10 0 digits, letter, r)) (settle-with_flags flags)
  where
    flags_end :
        (digits : Bytes)
        → Decimals digits
        → StartsAboveZero digits
        → parse_flags no_flags (flags ++ (digits ++ (letter ∷ r)))
          ≡ (with_flags flags no_flags, digits ++ (letter ∷ r))
    flags_end [] d above = parse_flags-append flags no_flags letter r are_flags no_flag
    flags_end (x ∷ s) (low, high, d) above =
        parse_flags-append flags no_flags x (s ++ (letter ∷ r)) are_flags (ground arith)

vprintf-render :
    (fuel : ℕ) (ps : List Piece) (args : List Value)
    → length (encode ps) ≤ fuel
    → Readable ps
    → vprintf fuel (encode ps) args ≡ render ps args
unfolding vprintf render encode Readable
vprintf-render fuel [] args enough ok = refl
vprintf-render zero (plain c ∷ ps) args enough ok = absurd (omega arith)
vprintf-render zero (directive flags digits letter ∷ ps) args enough ok = absurd (omega arith)
vprintf-render (suc k) (plain c ∷ ps) args enough (other, ok) =
    ground (arith, vprintf-render k ps args)
vprintf-render (suc k) (directive flags digits letter ∷ ps) args enough
      (ok0, ok1, ok2, ok3, ok4, ok5, ok) =
    let behind = letter ∷ encode ps in
    let fits : length (encode ps) ≤ k =
      omega (arith, length-append flags (digits ++ behind), length-append digits behind) in
    rw (parse_directive-append flags digits letter (encode ps) ok0 ok1 ok2 ok3 ok4 ok5) λ i. do
      (out, left) ← convert (flags_of flags) (spelled 10 0 digits) letter args
      more ← vprintf-render k ps left fits ok i
      some (out ++ more)

-- `do_vprintf` of a format whose parts are readable prints the parts one after the other, each
-- directive with the flags, the width and the letter it was written with; it stops with a result
-- whenever the arguments fit.
pub do_vprintf-render :
    (ps : List Piece) (args : List Value)
    → Readable ps
    → do_vprintf (encode ps) args ≡ render ps args
unfolding do_vprintf
do_vprintf-render ps args ok = vprintf-render (length (encode ps)) ps args (omega arith) ok
