-- ===== src/Mouse/Tests.antt =====
-- Runs of the mouse.
use Prim.Native.Nat.{◌-◌, ◌^◌}
use jeos.Prelude.{
  ℕ, ◌≡◌, refl, true, false, List, [], ◌∷◌, ◌++◌, replicate, length-replicate, codes, arith,
}
use jeos.Print.{put_backwards, fmt_dec, reverse_in_place, exchanges, dec_digits, exchange}
use jeos.Ring.Inv.{IsValid, contents, init-IsValid}
use jeos.Ring.History.{keep_last}
use jeos.Mouse.{
  fresh_mouse, puti, int_digits, line, movement, sign_extend, mouse_bytes, mousectl_read,
  mousectl_write,
}
use jeos.Mouse.Reports.{Packet, sent, Noise, reports}
use jeos.Mouse.Moves.{Move, packets_of, AreNear, texts, x_of, y_of, mouse_bytes-moves}

least : puti (2 ^ 31) ≡ codes "-"
unfolding puti int_digits put_backwards
least = refl

minus_twelve : puti (2 ^ 32 - 12) ≡ codes "-12"
unfolding puti int_digits put_backwards
minus_twelve = refl

-- To the right and up, with the left button down.
abbrev packets : List Packet
packets = record { status = 41; right = 5; up = 251 } ∷ []

reported : reports packets ≡ codes "m 5 5 1" ++ (10 ∷ [])
unfolding reports line movement sign_extend puti int_digits put_backwards
reported = refl

switched_off : (mousectl_write (codes "disable") 7 fresh_mouse).enabled ≡ false
unfolding mousectl_write fresh_mouse
switched_off = refl

position : mousectl_read 3 fresh_mouse ≡ codes "0 0"
unfolding mousectl_read fresh_mouse puti
position = refl

fresh_mouse-IsValid : IsValid fresh_mouse.ring
unfolding fresh_mouse
fresh_mouse-IsValid =
    init-IsValid (replicate 256 0) 256 (omega arith) (omega arith)
      (omega (arith, length-replicate {A = ℕ} 256 0))

one_byte-Noise : Noise (3 ∷ [])
unfolding Noise
one_byte-Noise = ground arith

fresh-between : fresh_mouse.packet ≡ []
unfolding fresh_mouse
fresh-between = refl

fresh-on : fresh_mouse.enabled ≡ true
unfolding fresh_mouse
fresh-on = refl

-- To the right and away from the user with the left button down, then far to the left.
abbrev moves : List Move
moves =
    record {
      left_button = true;
      right_button = false;
      middle_button = false;
      to_left = false;
      across = 5;
      to_user = false;
      along = 7;
    }
    ∷ record {
      left_button = false;
      right_button = false;
      middle_button = false;
      to_left = true;
      across = 200;
      to_user = true;
      along = 1;
    }
    ∷ []

moves-AreNear : AreNear moves
unfolding AreNear
moves-AreNear = ground arith

texts-moves : texts moves ≡ codes "m 5 -7 1" ++ (10 ∷ codes "m -200 1 0" ++ (10 ∷ []))
unfolding texts fmt_dec reverse_in_place exchanges dec_digits exchange
texts-moves = refl

mouse_bytes-moves_example :
    let m = mouse_bytes ((3 ∷ []) ++ sent (packets_of moves)) fresh_mouse in
    (contents m.ring ≡ keep_last fresh_mouse.ring.cap (contents fresh_mouse.ring ++ texts moves))
    × (m.x ≡ x_of fresh_mouse.x moves)
    × (m.y ≡ y_of fresh_mouse.y moves)
    × (m.packet ≡ [])
mouse_bytes-moves_example =
    mouse_bytes-moves (3 ∷ []) moves fresh_mouse one_byte-Noise moves-AreNear fresh-between fresh-on
      fresh_mouse-IsValid
