-- ===== src/Print/Tests.antt =====
-- Runs of the printers.
use Prim.Native.Nat.{max, ◌^◌}
use jeos.Prelude.{
  codes, ◌+◌, ◌-◌, ◌≡◌, refl, some, none, List, [], ◌∷◌, ◌++◌, length, if◌then◌else◌, arith,
}
use jeos.Print.{
  Bytes, dec_digits, hex_digits, exchange, exchanges, reverse_in_place, fmt_dec, fmt_hex,
}
use jeos.Print.Digits.{spelled, Decimals}
use jeos.Print.Vprintf.{
  Value, number, parse_flags, parse_width, parse_directive, convert, vprintf, do_vprintf, logged,
  klog_ok, put_digits, put_signed, put_unsigned, put_hex, put_prefixed, put_text, put_char, when,
  string_of,
}
use jeos.Print.Vprintf.Directives.{
  Piece, plain, directive, encode, render, Readable, FlagBytes, StartsAboveZero, do_vprintf-render,
}
use jeos.Print.Vprintf.Fields.{zero_padded, negative, magnitude, length-fields, spelled-fields}

-- `a%-5d|%08x`.
abbrev pieces : List Piece
pieces =
    plain b'a'
    ∷ directive (b'-' ∷ []) (b'5' ∷ []) b'd'
    ∷ plain b'|'
    ∷ directive (b'0' ∷ []) (b'8' ∷ []) b'x'
    ∷ []

abbrev args : List Value
args = number (2 ^ 64 - 42) ∷ number 48879 ∷ []

run : do_vprintf (encode pieces) args ≡ some (codes "a-42  |0000beef")
unfolding encode do_vprintf vprintf parse_directive parse_flags parse_width convert put_signed
    put_digits fmt_dec fmt_hex dec_digits hex_digits reverse_in_place exchanges exchange
run = refl

-- `%5`: the code reads behind the end.
cut_short : do_vprintf (codes "%5") args ≡ none
unfolding do_vprintf vprintf parse_directive parse_flags parse_width
cut_short = refl

tagged : klog_ok (codes "fs") (codes "up") [] ≡ some (codes "\r\n  [ \u{1b}[32mfs\u{1b}[0m ] up")
unfolding klog_ok logged do_vprintf vprintf parse_directive parse_flags parse_width convert put_text
tagged = refl

escape : codes "\u{1b}" ≡ 27 ∷ []
escape = refl

pieces-Readable : Readable pieces
unfolding Readable FlagBytes Decimals StartsAboveZero spelled
pieces-Readable = ground arith

do_vprintf-render_example : do_vprintf (encode pieces) args ≡ render pieces args
do_vprintf-render_example = do_vprintf-render pieces args pieces-Readable

length-fields_example :
    (length (put_signed zero_padded 6 42)
      ≡ max 6 (length (fmt_dec (magnitude 42)) + (if negative 42 then 1 else 0)))
    × (length (put_unsigned zero_padded 6 42) ≡ max 6 (length (fmt_dec 42)))
    × (length (put_hex zero_padded 6 42) ≡ max 6 (length (fmt_hex 42)))
    × (length (put_prefixed zero_padded 6 42) ≡ max 6 (length (fmt_hex 42) + 2))
    × (length (put_text zero_padded 6 none) ≡ max 6 (length (string_of none)))
    × (length (put_char zero_padded 6 42) ≡ max 6 1)
length-fields_example = length-fields zero_padded 6 42 none (omega arith)

spelled-fields_example :
    (spelled 10 0 (put_unsigned zero_padded 6 42) ≡ 42)
    × (spelled 16 0 (put_hex zero_padded 6 42) ≡ 42)
    × ((s : Bytes) × (put_signed zero_padded 6 42 ≡ when (negative 42) (b'-' ∷ []) ++ s)
        × (spelled 10 0 s ≡ magnitude 42))
spelled-fields_example = spelled-fields 6 42 (omega arith)
