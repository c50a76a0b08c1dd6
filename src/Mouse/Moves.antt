-- ===== src/Mouse/Moves.antt =====
-- The mouse of kernel/ps2.c by the moves of a user: what it sends for them by the PS/2 protocol, and
-- what a reader of the mouse file and the position see of them.
use Prim.Native.Nat.{bit_and, ◌^◌}
use jeos.Prelude.{
  ℕ, zero, suc, ◌+◌, ◌-◌, ◌*◌, ◌/◌, ◌%◌, ◌≤◌, ◌<◌, ◌≡◌, refl, ap, ap₂, ◌∙◌, Bool, true, false, not,
  ◌&&◌, List, [], ◌∷◌, ◌++◌, ltb, ◌==◌, if◌then◌else◌, dec_lt, arith,
}
use jeos.Print.{fmt_dec}
use jeos.Ring.Inv.{IsValid, contents}
use jeos.Ring.History.{keep_last}
use jeos.Mouse.{Mouse, puti, line, movement, sign_extend, has_bit, dx_of, dy_of, mouse_bytes}
use jeos.Mouse.Integers.{puti-fmt_dec}
use jeos.Mouse.Reports.{Packet, sent, Marked, Noise, reports, x_after, y_after, mouse_bytes-reports}

-- A move: the buttons that are down, and how far the mouse went to which side and which way.
pub record Move : Type 0 where
  pub left_button : Bool
  pub right_button : Bool
  pub middle_button : Bool
  pub to_left : Bool
  pub across : ℕ
  pub to_user : Bool
  pub along : ℕ

abbrev bit : Bool → ℕ
bit b = if b then 1 else 0

abbrev pub buttons_of : Move → ℕ
buttons_of v = bit v.left_button + 2 * bit v.right_button + 4 * bit v.middle_button

-- The packet of a move: the status byte with its mark and the signs, and each distance in two's
-- complement of nine bits, of which the ninth is the sign.
abbrev pub packet_of : Move → Packet
packet_of v = record {
  status = buttons_of v + 8 + 16 * bit v.to_left + 32 * bit v.to_user;
  right = if v.to_left then 256 - v.across else v.across;
  up = if v.to_user then 256 - v.along else v.along;
}

abbrev IsNear : (negative : Bool) → ℕ → Type 0
IsNear negative n = if negative then (1 ≤ n) × (n ≤ 256) else n ≤ 127

-- Moves of up to 127 to the right and away, and of up to 256 to the left and to the user.
unfoldable pub AreNear : List Move → Type 0
AreNear [] = Unit
AreNear (v ∷ vs) = IsNear v.to_left v.across × IsNear v.to_user v.along × AreNear vs

abbrev pub packets_of : List Move → List Packet
packets_of [] = []
packets_of (v ∷ vs) = packet_of v ∷ packets_of vs

-- A distance as an i32 and as text.
abbrev pub offset : (negative : Bool) → ℕ → ℕ
offset negative n = if negative then (2 ^ 32 - n) % 2 ^ 32 else n

abbrev pub int_text : (negative : Bool) → ℕ → List ℕ
int_text negative n = if negative && ltb 0 n then b'-' ∷ fmt_dec n else fmt_dec n

-- What is read of the moves, and where they lead: to the left and away from the user count down.
unfoldable pub texts : List Move → List ℕ
texts [] = []
texts (v ∷ vs) =
    b'm'
      ∷ b' '
      ∷ (int_text v.to_left v.across
          ++ b' '
            ∷ (int_text (not v.to_user) v.along ++ b' ' ∷ (fmt_dec (buttons_of v) ++ b'\n' ∷ [])))
    ++ texts vs

unfoldable pub x_of : ℕ → List Move → ℕ
x_of x [] = x
x_of x (v ∷ vs) = x_of ((x + offset v.to_left v.across) % 2 ^ 32) vs

unfoldable pub y_of : ℕ → List Move → ℕ
y_of y [] = y
y_of y (v ∷ vs) = y_of ((y + offset (not v.to_user) v.along) % 2 ^ 32) vs

-- What is checked of the status bytes without an overflow.
bits_agree : ℕ → Bool
bits_agree s =
    (bit_and s 7 == s % 8)
    && (bit_and s 8 == 8 * (s / 8 % 2))
    && (bit_and s 16 == 16 * (s / 16 % 2))
    && (bit_and s 32 == 32 * (s / 32 % 2))
    && (bit_and s 64 == 0)
    && (bit_and s 128 == 0)

all_agree : ℕ → Bool
all_agree zero = true
all_agree (suc n) = all_agree n && bits_agree n

all_agree-at : (n s : ℕ) → all_agree n ≡ true → s < n → bits_agree s ≡ true
unfolding all_agree
all_agree-at zero s e h = absurd (omega arith)
all_agree-at (suc n) s e h = elim (dec_lt s n) [
  | yes below ↦ all_agree-at n s (ground arith) below
  | no last ↦ let same : s ≡ n = omega arith in rw same (ground arith)
]

bits_checked : all_agree 64 ≡ true
unfolding all_agree bits_agree
bits_checked = refl

record Status (v : Move) : Type 0 where
  pub marked : has_bit (packet_of v).status 8 ≡ true
  pub x_sign : has_bit (packet_of v).status 16 ≡ v.to_left
  pub y_sign : has_bit (packet_of v).status 32 ≡ v.to_user
  pub x_fits : has_bit (packet_of v).status 64 ≡ false
  pub y_fits : has_bit (packet_of v).status 128 ≡ false
  pub buttons : bit_and (packet_of v).status 7 ≡ buttons_of v

move-Status : (v : Move) → Status v
unfolding bits_agree
move-Status v =
    let s = (packet_of v).status in
    let small : s < 64 = ground arith in
    let checked = all_agree-at 64 s bits_checked small in
    record {
      marked = ground (arith, checked);
      x_sign = ground (arith, checked);
      y_sign = ground (arith, checked);
      x_fits = ground (arith, checked);
      y_fits = ground (arith, checked);
      buttons = ground (arith, checked);
    }

movement-offset :
    (negative : Bool) (n : ℕ)
    → IsNear negative n
    → movement false negative (if negative then 256 - n else n) ≡ offset negative n
unfolding movement sign_extend
movement-offset true n (low, high) = ground arith
movement-offset false n high = ground arith

opposite :
    (negative : Bool) (n : ℕ)
    → n ≤ 256
    → (2 ^ 32 - offset negative n) % 2 ^ 32 ≡ offset (not negative) n
opposite true n h = omega arith
opposite false n h = omega arith

puti-int_text : (negative : Bool) (n : ℕ) → n ≤ 256 → puti (offset negative n) ≡ int_text negative n
puti-int_text true n h = ground (arith, puti-fmt_dec (offset true n))
puti-int_text false n h = ground (arith, puti-fmt_dec n)

record Read (v : Move) : Type 0 where
  pub dx : dx_of (packet_of v).status (packet_of v).right ≡ offset v.to_left v.across
  pub dy : dy_of (packet_of v).status (packet_of v).up ≡ offset (not v.to_user) v.along

move-Read : (v : Move) → IsNear v.to_left v.across → IsNear v.to_user v.along → Read v
move-Read v near_x near_y =
    let s = move-Status v in
    let far : v.along ≤ 256 = ground (arith, near_y) in
    record {
      dx =
          ap₂ (λ o n. movement o n (packet_of v).right) s.x_fits s.x_sign
          ∙ movement-offset v.to_left v.across near_x;
      dy =
          ap₂ (λ o n. (2 ^ 32 - movement o n (packet_of v).up) % 2 ^ 32) s.y_fits s.y_sign
          ∙ ap (λ m. (2 ^ 32 - m) % 2 ^ 32) (movement-offset v.to_user v.along near_y)
          ∙ opposite v.to_user v.along far;
    }

packets_of-Marked : (vs : List Move) → Marked (packets_of vs)
unfolding Marked
packets_of-Marked [] = tt
packets_of-Marked (v ∷ vs) = ((move-Status v).marked, packets_of-Marked vs)

line_of : (dx dy buttons : List ℕ) → List ℕ
line_of dx dy buttons = b'm' ∷ b' ' ∷ (dx ++ b' ' ∷ (dy ++ b' ' ∷ (buttons ++ b'\n' ∷ [])))

line-line_of : (dx dy buttons : ℕ) → line dx dy buttons ≡ line_of (puti dx) (puti dy) (puti buttons)
unfolding line line_of
line-line_of dx dy buttons = refl

move-line :
    (v : Move)
    → IsNear v.to_left v.across
    → IsNear v.to_user v.along
    → line
        (dx_of (packet_of v).status (packet_of v).right)
        (dy_of (packet_of v).status (packet_of v).up)
        (bit_and (packet_of v).status 7)
      ≡ line_of
          (int_text v.to_left v.across)
          (int_text (not v.to_user) v.along)
          (fmt_dec (buttons_of v))
move-line v near_x near_y =
    let r = move-Read v near_x near_y in
    let near : v.across ≤ 256 = ground (arith, near_x) in
    let far : v.along ≤ 256 = ground (arith, near_y) in
    let few : buttons_of v ≤ 256 = ground arith in
    line-line_of (dx_of (packet_of v).status (packet_of v).right)
      (dy_of (packet_of v).status (packet_of v).up) (bit_and (packet_of v).status 7)
    ∙ ap
        (λ t.
          line_of t (puti (dy_of (packet_of v).status (packet_of v).up))
            (puti (bit_and (packet_of v).status 7)))
        (ap puti r.dx ∙ puti-int_text v.to_left v.across near)
    ∙ ap₂ (λ t u. line_of (int_text v.to_left v.across) t u)
        (ap puti r.dy ∙ puti-int_text (not v.to_user) v.along far)
        (ap puti (move-Status v).buttons ∙ puti-int_text false (buttons_of v) few)

reports-texts : (vs : List Move) → AreNear vs → reports (packets_of vs) ≡ texts vs
unfolding reports texts AreNear line_of
reports-texts [] near = refl
reports-texts (v ∷ vs) (near_x, near_y, near) =
    ap₂ (λ t u. t ++ u) (move-line v near_x near_y) (reports-texts vs near)

x_after-x_of : (x : ℕ) (vs : List Move) → AreNear vs → x_after x (packets_of vs) ≡ x_of x vs
unfolding x_after x_of AreNear
x_after-x_of x [] near = refl
x_after-x_of x (v ∷ vs) (near_x, near_y, near) =
    ap (λ d. x_after ((x + d) % 2 ^ 32) (packets_of vs)) (move-Read v near_x near_y).dx
    ∙ x_after-x_of ((x + offset v.to_left v.across) % 2 ^ 32) vs near

y_after-y_of : (y : ℕ) (vs : List Move) → AreNear vs → y_after y (packets_of vs) ≡ y_of y vs
unfolding y_after y_of AreNear
y_after-y_of y [] near = refl
y_after-y_of y (v ∷ vs) (near_x, near_y, near) =
    ap (λ d. y_after ((y + d) % 2 ^ 32) (packets_of vs)) (move-Read v near_x near_y).dy
    ∙ y_after-y_of ((y + offset (not v.to_user) v.along) % 2 ^ 32) vs near

-- A mouse that is switched on and between packets, with a well-formed ring, gets bytes without the mark of
-- a status byte and then the packets of moves, of up to 127 to the right and away from the user and of up
-- to 256 to the left and to the user, as the protocol has them. Its ring holds the end, as much as its
-- capacity, of what it held followed by a line for each move, with the distances to the right and to the
-- user as signed numbers and the sum of the buttons that are down; its position has moved by those
-- distances; and it is between packets again.
pub mouse_bytes-moves :
    (noise : List ℕ) (vs : List Move) (m : Mouse)
    → Noise noise
    → AreNear vs
    → m.packet ≡ []
    → m.enabled ≡ true
    → IsValid m.ring
    → let m' = mouse_bytes (noise ++ sent (packets_of vs)) m in
      (contents m'.ring ≡ keep_last m.ring.cap (contents m.ring ++ texts vs))
      × (m'.x ≡ x_of m.x vs)
      × (m'.y ≡ y_of m.y vs)
      × (m'.packet ≡ [])
mouse_bytes-moves noise vs m quiet near between on v =
    let (ring, x, y, again) =
      mouse_bytes-reports noise (packets_of vs) m quiet (packets_of-Marked vs) between on v in
    (
      ring ∙ ap (λ t. keep_last m.ring.cap (contents m.ring ++ t)) (reports-texts vs near),
      x ∙ x_after-x_of m.x vs near,
      y ∙ y_after-y_of m.y vs near,
      again,
    )
