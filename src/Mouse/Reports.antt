-- ===== src/Mouse/Reports.antt =====
-- The mouse of kernel/ps2.c as a reader of packets: what its ring and its position hold after them.
use Prim.Native.Nat.{bit_and, ◌^◌}
use jeos.Prelude.{
  ℕ, ◌+◌, ◌%◌, ◌≡◌, refl, sym, ap, subst, ◌∙◌, true, false, List, [], ◌∷◌, ◌++◌, length, arith,
}
use jeos.Ring.{write}
use jeos.Ring.Inv.{IsValid, contents}
use jeos.Ring.History.{keep_last}
use jeos.Ring.Puts.{Puts, Puts-nothing, write-Puts, Puts-then}
use jeos.Mouse.{Mouse, line, dx_of, dy_of, has_bit, complete, accept, mouse_byte, mouse_bytes}

-- A packet as the mouse sends it: its status byte and the two movements.
pub record Packet : Type 0 where
  pub status : ℕ
  pub right : ℕ
  pub up : ℕ

unfoldable pub sent : List Packet → List ℕ
sent [] = []
sent (p ∷ ps) = p.status ∷ p.right ∷ p.up ∷ sent ps

-- Every status byte has the bit by which the code knows it.
unfoldable pub Marked : List Packet → Type 0
Marked [] = Unit
Marked (p ∷ ps) = (has_bit p.status 8 ≡ true) × Marked ps

-- Bytes between packets, none of which looks like a status byte.
unfoldable pub Noise : List ℕ → Type 0
Noise [] = Unit
Noise (b ∷ bs) = (has_bit b 8 ≡ false) × Noise bs

-- The lines for the packets, and the positions after them.
unfoldable pub reports : List Packet → List ℕ
reports [] = []
reports (p ∷ ps) =
    line (dx_of p.status p.right) (dy_of p.status p.up) (bit_and p.status 7) ++ reports ps

unfoldable pub x_after : ℕ → List Packet → ℕ
x_after x [] = x
x_after x (p ∷ ps) = x_after ((x + dx_of p.status p.right) % 2 ^ 32) ps

unfoldable pub y_after : ℕ → List Packet → ℕ
y_after y [] = y
y_after y (p ∷ ps) = y_after ((y + dy_of p.status p.up) % 2 ^ 32) ps

-- A mouse whose next byte starts a packet, that is not switched off.
record Idle (m : Mouse) : Type 0 where
  pub between : m.packet ≡ []
  pub on : m.enabled ≡ true

-- What a packet does.
moved : Packet → Mouse → Mouse
moved p m =
    let text = line (dx_of p.status p.right) (dy_of p.status p.up) (bit_and p.status 7) in
    record m {
      packet = [];
      x = (m.x + dx_of p.status p.right) % 2 ^ 32;
      y = (m.y + dy_of p.status p.up) % 2 ^ 32;
      buttons = bit_and p.status 7;
      ring = write m.ring text (length text);
    }

mouse_byte-packet :
    (p : Packet) (m : Mouse)
    → has_bit p.status 8 ≡ true
    → Idle m
    → mouse_byte p.up (mouse_byte p.right (mouse_byte p.status m)) ≡ moved p m
unfolding mouse_byte accept complete moved
mouse_byte-packet p m marked idle = rw (idle.between, marked) rw (idle.on, marked) refl

mouse_byte-unmarked : (b : ℕ) (m : Mouse) → has_bit b 8 ≡ false → Idle m → mouse_byte b m ≡ m
unfolding mouse_byte
mouse_byte-unmarked b m bad idle = ground (arith, idle.between, bad)

mouse_bytes-Noise :
    (bs rest : List ℕ) (m : Mouse)
    → Noise bs
    → Idle m
    → mouse_bytes (bs ++ rest) m ≡ mouse_bytes rest m
unfolding mouse_bytes Noise
mouse_bytes-Noise [] rest m n idle = refl
mouse_bytes-Noise (b ∷ bs) rest m (bad, n) idle =
    ap (mouse_bytes (bs ++ rest)) (mouse_byte-unmarked b m bad idle)
    ∙ mouse_bytes-Noise bs rest m n idle

-- What packets do to a mouse.
record After (ps : List Packet) (m m' : Mouse) : Type 0 where
  pub puts : Puts (reports ps) m.ring m'.ring
  pub at_x : m'.x ≡ x_after m.x ps
  pub at_y : m'.y ≡ y_after m.y ps
  pub again : Idle m'

mouse_bytes-packets :
    (ps : List Packet) (m : Mouse)
    → Marked ps
    → Idle m
    → IsValid m.ring
    → After ps m (mouse_bytes (sent ps) m)
unfolding mouse_bytes sent reports x_after y_after Marked moved
mouse_bytes-packets [] m marked idle v = record {
  puts = Puts-nothing m.ring v;
  at_x = refl;
  at_y = refl;
  again = idle;
}
mouse_bytes-packets (p ∷ ps) m (mark, marked) idle v =
    let text = line (dx_of p.status p.right) (dy_of p.status p.up) (bit_and p.status 7) in
    let put = write-Puts text m.ring v in
    let next = moved p m in
    let later =
      mouse_bytes-packets ps next marked (record { between = refl; on = idle.on }) put.valid in
    let run = ap (mouse_bytes (sent ps)) (mouse_byte-packet p m mark idle) in
    subst (After (p ∷ ps) m) (sym run) (record {
      puts =
          Puts-then text (reports ps) m.ring next.ring (mouse_bytes (sent ps) next).ring put
            later.puts;
      at_x = later.at_x;
      at_y = later.at_y;
      again = later.again;
    })

-- A mouse that is switched on and between packets, with a well-formed ring, is sent noise and then
-- packets whose status bytes carry their mark: it ignores the noise and reads every packet whole. Its
-- ring holds the end, as much as its capacity, of what it held followed by the lines of the packets,
-- its position has moved by the sum of their movements, and it is between packets again.
pub mouse_bytes-reports :
    (noise : List ℕ) (ps : List Packet) (m : Mouse)
    → Noise noise
    → Marked ps
    → m.packet ≡ []
    → m.enabled ≡ true
    → IsValid m.ring
    → let m' = mouse_bytes (noise ++ sent ps) m in
      (contents m'.ring ≡ keep_last m.ring.cap (contents m.ring ++ reports ps))
      × (m'.x ≡ x_after m.x ps)
      × (m'.y ≡ y_after m.y ps)
      × (m'.packet ≡ [])
mouse_bytes-reports noise ps m quiet marked between on v =
    let idle : Idle m = record { between = between; on = on } in
    let read = mouse_bytes-packets ps m marked idle v in
    rw (mouse_bytes-Noise noise (sent ps) m quiet idle)
      (read.puts.history, read.at_x, read.at_y, read.again.between)
