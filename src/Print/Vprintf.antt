-- ===== src/Print/Vprintf.antt =====
-- `do_vprintf` of kernel/print.c. The format is the list of its bytes; the result is the list of the
-- bytes put, or `none` where C leaves the behaviour open: an argument that is missing or of another
-- kind, a width beyond an int, and a directive that the end of the format cuts short, after which the
-- code reads on behind the terminating zero.
pub mod Directives
pub mod Fields
use Prim.Native.Nat.{◌*◌, ◌^◌}
use jeos.Prelude.{
  ℕ, zero, suc, ◌+◌, ◌-◌, ◌/◌, ◌%◌, Bool, true, false, not, ◌&&◌, ◌||◌, Option, none, some, List,
  [], codes, ◌∷◌, ◌++◌, length, replicate, leb, ◌==◌, ◌>>=◌, if◌then◌else◌,
}
use jeos.Print.{Bytes, fmt_dec, fmt_hex, puthex64}

-- An argument: a number of up to 64 bits, or a pointer to a string.
pub data Value : Type 0 where
  number : ℕ → Value
  text : Option Bytes → Value

pub record Flags : Type 0 where
  pub left_align : Bool
  pub zero_pad : Bool
  pub center : Bool

abbrev pub no_flags : Flags
no_flags = record { left_align = false; zero_pad = false; center = false }

abbrev pub is_flag : ℕ → Bool
is_flag c = c == b'-' || (c == b'0') || (c == b'^')

abbrev pub set_flag : ℕ → Flags → Flags
set_flag c f = record {
  left_align = c == b'-' || f.left_align;
  zero_pad = c == b'0' || f.zero_pad;
  center = c == b'^' || f.center;
}

-- The loop over the flags, and the statement behind it.
unfoldable pub parse_flags : Flags → Bytes → Flags × Bytes
parse_flags f [] = (f, [])
parse_flags f (c ∷ s) =
    let more = parse_flags (set_flag c f) s in if is_flag c then more else (f, c ∷ s)

abbrev pub settle : Flags → Flags
settle f = record f { zero_pad = f.zero_pad && not (f.left_align || f.center) }

abbrev pub max_int : ℕ
max_int = 2 ^ 31 - 1

abbrev pub is_digit : ℕ → Bool
is_digit c = leb b'0' c && leb c b'9'

-- The loop over the width.
unfoldable pub parse_width : ℕ → Bytes → Option (ℕ × Bytes)
parse_width width [] = some (width, [])
parse_width width (c ∷ s) =
    let wider = width * 10 + (c - b'0') in
    let more = parse_width wider s in
    if is_digit c then if leb wider max_int then more else none else some (width, c ∷ s)

-- `pad`, with the count cut at zero, and under a condition.
abbrev pub pad : (count : ℕ) → ℕ → Bytes
pad count c = replicate count c

abbrev pub when : Bool → Bytes → Bytes
when b out = if b then out else []

-- The cases of the switch. `-n` of a negative i64 is written on its 64 bits; of the least one, for which C
-- leaves it open, as compilers do.
unfoldable pub put_signed : Flags → (width n : ℕ) → Bytes
put_signed f width n =
    let neg = leb (2 ^ 63) n in
    let buf = fmt_dec (if neg then (2 ^ 64 - n) % 2 ^ 64 else n) in
    let total = length buf + (if neg then 1 else 0) in
    when (not f.left_align && not f.zero_pad) (pad (width - total) b' ')
    ++ (when neg (b'-' ∷ [])
        ++ (when (not f.left_align && f.zero_pad) (pad (width - total) b'0')
            ++ (buf ++ when f.left_align (pad (width - total) b' '))))

-- `padchar`.
abbrev pub padchar : Flags → ℕ
padchar f = if f.zero_pad then b'0' else b' '

-- What `%u` and `%x` have in common: the digits between their padding.
unfoldable pub put_digits : Flags → (width : ℕ) → (buf : Bytes) → Bytes
put_digits f width buf =
    when (not f.left_align) (pad (width - length buf) (padchar f))
    ++ (buf ++ when f.left_align (pad (width - length buf) b' '))

abbrev pub put_unsigned : Flags → (width n : ℕ) → Bytes
put_unsigned f width n = put_digits f width (fmt_dec n)

abbrev pub put_hex : Flags → (width n : ℕ) → Bytes
put_hex f width n = put_digits f width (fmt_hex n)

unfoldable pub put_prefixed : Flags → (width n : ℕ) → Bytes
put_prefixed f width n =
    let buf = fmt_hex n in
    let total = length buf + 2 in
    when (not f.left_align) (pad (width - total) (padchar f))
    ++ (b'0' ∷ b'x' ∷ (buf ++ when f.left_align (pad (width - total) b' ')))

unfoldable pub put_pointer : ℕ → Bytes
put_pointer n = b'0' ∷ b'x' ∷ puthex64 n

abbrev pub string_of : Option Bytes → Bytes
string_of none = codes "(null)"
string_of (some s) = s

unfoldable pub put_text : Flags → (width : ℕ) → Option Bytes → Bytes
put_text f width arg =
    let s = string_of arg in
    let padding = width - length s in
    let left_pad = padding / 2 in
    let right_pad = padding - left_pad in
    if f.center
    then pad left_pad b' ' ++ (s ++ pad right_pad b' ')
    else when (not f.left_align) (pad padding b' ') ++ (s ++ when f.left_align (pad padding b' '))

unfoldable pub put_char : Flags → (width n : ℕ) → Bytes
put_char f width n =
    when (not f.left_align) (pad (width - 1) b' ')
    ++ (n % 256 ∷ when f.left_align (pad (width - 1) b' '))

with_number : List Value → (ℕ → Bytes) → Option (Bytes × List Value)
with_number (number n ∷ args) put = some (put n, args)
with_number _ put = none

with_text : List Value → (Option Bytes → Bytes) → Option (Bytes × List Value)
with_text (text s ∷ args) put = some (put s, args)
with_text _ put = none

-- The switch: the bytes put for the letter `c`, and the arguments that are left.
unfoldable pub convert : Flags → (width c : ℕ) → List Value → Option (Bytes × List Value)
unfolding with_number with_text
convert f width c args =
    if c == b'd' || (c == b'i')
    then with_number args (put_signed f width)
    else if c == b'u'
    then with_number args (put_unsigned f width)
    else if c == b'x'
    then with_number args (put_hex f width)
    else if c == b'X'
    then with_number args (put_prefixed f width)
    else if c == b'p'
    then with_number args put_pointer
    else if c == b's'
    then with_text args (put_text f width)
    else if c == b'c'
    then with_number args (put_char f width)
    else if c == b'%'
    then some (b'%' ∷ [], args)
    else some (b'%' ∷ c ∷ [], args)

-- What follows a `%`: the flags, the width, the letter, and the format behind it.
unfoldable pub parse_directive : Bytes → Option (Flags × ℕ × ℕ × Bytes)
parse_directive s =
    let (f, behind_flags) = parse_flags no_flags s in
    do
      (width, behind_width) ← parse_width 0 behind_flags
      elim behind_width [ [] ↦ none | c ∷ behind ↦ some (settle f, width, c, behind) ]

-- The outer loop. The fuel bounds the rounds, each of which takes at least a byte of the format.
unfoldable pub vprintf : (fuel : ℕ) → Bytes → List Value → Option Bytes
vprintf fuel [] args = some []
vprintf zero (c ∷ s) args = none
vprintf (suc k) (c ∷ s) args =
    if c == b'%'
    then (do
      (f, width, letter, behind) ← parse_directive s
      (out, left) ← convert f width letter args
      more ← vprintf k behind left
      some (out ++ more))
    else (do more ← vprintf k s args; some (c ∷ more))

unfoldable pub do_vprintf : Bytes → List Value → Option Bytes
do_vprintf fmt args = vprintf (length fmt) fmt args

-- The log lines: a tag, plain or in green or red, then a format with its arguments.
unfoldable pub logged : (head tag fmt : Bytes) → List Value → Option Bytes
logged head tag fmt args = do
  front ← do_vprintf head (text (some tag) ∷ [])
  body ← do_vprintf fmt args
  some (front ++ body)

unfoldable pub klog : (tag fmt : Bytes) → List Value → Option Bytes
klog = logged (codes "\r\n  [ %s ] ")

unfoldable pub klog_ok : (tag fmt : Bytes) → List Value → Option Bytes
klog_ok = logged (codes "\r\n  [ \u{1b}[32m%s\u{1b}[0m ] ")

unfoldable pub klog_fail : (tag fmt : Bytes) → List Value → Option Bytes
klog_fail = logged (codes "\r\n  [ \u{1b}[31m%s\u{1b}[0m ] ")
