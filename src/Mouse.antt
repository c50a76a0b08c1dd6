-- ===== src/Mouse.antt =====
-- The mouse half of kernel/ps2.c: packets of three bytes, the position, and the lines of text in the
-- mouse's ring. An i32 is the number of its 32 bits, and sums wrap around.
pub mod Reports
pub mod Integers
pub mod Moves
mod Tests
use Prim.Native.Nat.{bit_and, ◌^◌}
use jeos.Prelude.{
  ℕ, zero, suc, ◌+◌, ◌-◌, ◌/◌, ◌%◌, Bool, true, false, not, ◌&&◌, List, [], ◌∷◌, ◌++◌, ltb, leb,
  ◌==◌, if◌then◌else◌, length, take, replicate, get_or,
}
use jeos.Print.{put_backwards}
use jeos.Ring.{Ring, init, write, read}

abbrev pub mouse_buf_len : ℕ
mouse_buf_len = 256

-- The static variables of the file and of `mouse_interrupt`; the packet is the first `mouse_idx` bytes
-- of `mouse_buf`, the only ones that are read.
pub record Mouse : Type 0 where
  pub packet : List ℕ
  pub x : ℕ
  pub y : ℕ
  pub buttons : ℕ
  pub enabled : Bool
  pub ring : Ring

-- The mouse after `ps2_init` has set up its ring.
unfoldable pub fresh_mouse : Mouse
fresh_mouse = record {
  packet = [];
  x = 0;
  y = 0;
  buttons = 0;
  enabled = true;
  ring = init (replicate mouse_buf_len 0) mouse_buf_len;
}

-- The loop of `puti` that takes the digits of a positive i32, the lowest first, into `tmp`.
unfoldable pub int_digits : (rounds : ℕ) → ℕ → List ℕ
int_digits zero val = []
int_digits (suc k) val =
    let more = int_digits k (val / 10) in if ltb 0 val then (b'0' + val % 10) ∷ more else []

-- `puti`. The least i32 is its own negation, for which the loop puts no digit.
unfoldable pub puti : ℕ → List ℕ
puti val =
    let neg = leb (2 ^ 31) val in
    let size = if neg then (2 ^ 32 - val) % 2 ^ 32 else val in
    let tmp = if ltb size (2 ^ 31) then int_digits 10 size else [] in
    if size == 0
    then b'0' ∷ []
    else (if neg then b'-' ∷ [] else []) ++ put_backwards (length tmp) tmp

-- `(i8)b` as an i32.
unfoldable pub sign_extend : ℕ → ℕ
sign_extend b = if leb 128 b then b + 4294967040 else b

-- `dx`, and `dy` before it is negated: the or with 0xFFFFFF00 keeps the lowest byte.
unfoldable pub movement : (overflow sign : Bool) → ℕ → ℕ
movement overflow sign b =
    if overflow then 0 else if sign then 4294967040 + sign_extend b % 256 else sign_extend b

abbrev pub has_bit : ℕ → ℕ → Bool
has_bit status bit = not (bit_and status bit == 0)

abbrev pub dx_of : ℕ → ℕ → ℕ
dx_of status b = movement (has_bit status 64) (has_bit status 16) b

abbrev pub dy_of : ℕ → ℕ → ℕ
dy_of status b = (2 ^ 32 - movement (has_bit status 128) (has_bit status 32) b) % 2 ^ 32

-- The text that `mouse_interrupt` puts together in `buf`.
unfoldable pub line : (dx dy buttons : ℕ) → List ℕ
line dx dy buttons =
    b'm' ∷ b' ' ∷ (puti dx ++ b' ' ∷ (puti dy ++ b' ' ∷ (puti buttons ++ b'\n' ∷ [])))

-- The third byte of a packet.
unfoldable pub complete : (status b₁ b₂ : ℕ) → Mouse → Mouse
complete status b₁ b₂ m =
    let dx = dx_of status b₁ in
    let dy = dy_of status b₂ in
    let buttons = bit_and status 7 in
    let text = line dx dy buttons in
    if not (has_bit status 8)
    then m
    else if m.enabled
    then record m {
      x = (m.x + dx) % 2 ^ 32;
      y = (m.y + dy) % 2 ^ 32;
      buttons = buttons;
      ring = write m.ring text (length text);
    }
    else m

-- `mouse_buf[mouse_idx++] = data`, and the packet when it is complete.
unfoldable pub accept : (packet : List ℕ) → ℕ → Mouse → Mouse
accept [] data_byte m = record m { packet = data_byte ∷ [] }
accept (status ∷ []) data_byte m = record m { packet = status ∷ data_byte ∷ [] }
accept (status ∷ b₁ ∷ _) data_byte m = complete status b₁ data_byte (record m { packet = [] })

-- One round of `mouse_interrupt`, and the bytes that one or more interrupts read.
unfoldable pub mouse_byte : ℕ → Mouse → Mouse
mouse_byte data_byte m =
    if (length m.packet == 0) && not (has_bit data_byte 8) then m else accept m.packet data_byte m

unfoldable pub mouse_bytes : List ℕ → Mouse → Mouse
mouse_bytes [] m = m
mouse_bytes (b ∷ bs) m = mouse_bytes bs (mouse_byte b m)

-- `mouse_read`.
unfoldable pub mouse_read : (count : ℕ) → Mouse → List ℕ × Mouse
mouse_read count m =
    let n = if ltb count mouse_buf_len then count else mouse_buf_len in
    let (out, ring) = read m.ring n in (out, record m { ring = ring })

-- `mousectl_read` and `mousectl_write`.
unfoldable pub mousectl_read : (count : ℕ) → Mouse → List ℕ
mousectl_read count m =
    take count (puti m.x ++ b' ' ∷ (puti m.y ++ b' ' ∷ (puti m.buttons ++ b'\n' ∷ [])))

unfoldable pub mousectl_write : (cmd : List ℕ) → (count : ℕ) → Mouse → Mouse
mousectl_write cmd count m =
    let c₀ = get_or cmd 0 0 in
    let c₁ = get_or cmd 1 0 in
    let c₂ = get_or cmd 2 0 in
    if ltb count 3
    then m
    else if (c₀ == b'e') && ((c₁ == b'n') && (c₂ == b'a'))
    then record m { enabled = true }
    else if (c₀ == b'd') && ((c₁ == b'i') && (c₂ == b's'))
    then record m { enabled = false }
    else m
