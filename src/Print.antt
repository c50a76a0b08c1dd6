-- ===== src/Print.antt =====
-- Formatted printing: kernel/print.c. A function that prints returns the bytes it hands to `putc`, in
-- order; a `char *` is the list of its bytes, without the terminating zero.
pub mod Reverse
pub mod Digits
pub mod Hex
pub mod Vprintf
mod Tests
use Prim.Native.Nat.{◌*◌, ◌^◌}
use jeos.Prelude.{
  ℕ, zero, suc, ◌+◌, ◌-◌, ◌/◌, ◌%◌, Bool, true, false, ◌&&◌, ◌||◌, Option, none, some, List, [],
  ◌∷◌, ◌++◌, length, get_or, set, replicate, ltb, leb, ◌==◌, if◌then◌else◌,
}

abbrev pub Bytes : Type 0
Bytes = List ℕ

-- The character of a nibble.
abbrev pub hex_digit : ℕ → ℕ
hex_digit nib = if ltb nib 10 then b'0' + nib else b'a' + nib - 10

-- The first loop of `fmt_dec` and of `putdec`: the digits in the order they are written, the lowest
-- first. The fuel bounds the rounds.
unfoldable pub dec_digits : (rounds : ℕ) → ℕ → Bytes
dec_digits zero n = []
dec_digits (suc k) n =
    let more = dec_digits k (n / 10) in if n == 0 then [] else (b'0' + n % 10) ∷ more

-- The first loop of `fmt_hex`.
unfoldable pub hex_digits : (rounds : ℕ) → ℕ → Bytes
hex_digits zero n = []
hex_digits (suc k) n =
    let more = hex_digits k (n / 16) in if n == 0 then [] else hex_digit (n % 16) ∷ more

-- One round of the second loop, `i` digits long: the bytes at `j` and `i - 1 - j` change places.
unfoldable pub exchange : (i j : ℕ) → Bytes → Bytes
exchange i j buf =
    let t = get_or buf j 0 in set (set buf j (get_or buf (i - 1 - j) 0)) (i - 1 - j) t

-- The rounds from `j` on.
unfoldable pub exchanges : (rounds i j : ℕ) → Bytes → Bytes
exchanges zero i j buf = buf
exchanges (suc k) i j buf = exchanges k i (j + 1) (exchange i j buf)

unfoldable pub reverse_in_place : Bytes → Bytes
reverse_in_place buf = exchanges (length buf / 2) (length buf) 0 buf

-- `fmt_dec` and `fmt_hex` of a u64: the first `len` bytes of the buffer.
unfoldable pub fmt_dec : ℕ → Bytes
fmt_dec n = if n == 0 then b'0' ∷ [] else reverse_in_place (dec_digits 20 n)

unfoldable pub fmt_hex : ℕ → Bytes
fmt_hex n = if n == 0 then b'0' ∷ [] else reverse_in_place (hex_digits 16 n)

-- `while (--i >= 0) putc(buf[i])`.
unfoldable pub put_backwards : (i : ℕ) → Bytes → Bytes
put_backwards zero buf = []
put_backwards (suc i) buf = get_or buf i 0 ∷ put_backwards i buf

unfoldable pub putdec : ℕ → Bytes
putdec n = if n == 0 then b'0' ∷ [] else let buf = dec_digits 20 n in put_backwards (length buf) buf

-- `puthex_n`, from digit `digits - 1` down.
unfoldable pub puthex_n : ℕ → (digits : ℕ) → Bytes
puthex_n n zero = []
puthex_n n (suc i) = hex_digit (n / 2 ^ (i * 4) % 16) ∷ puthex_n n i

abbrev pub puthex8 : ℕ → Bytes
puthex8 n = puthex_n n 2

abbrev pub puthex16 : ℕ → Bytes
puthex16 n = puthex_n n 4

abbrev pub puthex32 : ℕ → Bytes
puthex32 n = puthex_n n 8

abbrev pub puthex64 : ℕ → Bytes
puthex64 n = puthex_n n 16

-- The search of `puthex` for the highest nibble that is not zero.
unfoldable pub highest_nibble : ℕ → (digits : ℕ) → ℕ
highest_nibble n zero = 0
highest_nibble n (suc d) =
    let lower = highest_nibble n d in
    if ltb 1 (suc d) && (n / 2 ^ (d * 4) % 16 == 0) then lower else suc d

unfoldable pub puthex : ℕ → Bytes
puthex n = if n == 0 then b'0' ∷ [] else puthex_n n (highest_nibble n 16)
