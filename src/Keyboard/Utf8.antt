-- ===== src/Keyboard/Utf8.antt =====
-- The bytes of `kbd_put_rune` in kernel/ps2.c against a decoder of UTF-8.
use Prim.Native.Nat.{bit_or}
use jeos.Prelude.{
  ℕ, zero, suc, ◌+◌, ◌-◌, ◌*◌, ◌/◌, ◌%◌, ◌^◌, ◌<◌, ◌≡◌, refl, inl, inr, Bool, true, ◌&&◌, Option,
  none, some, List, [], ◌∷◌, ltb, leb, ◌==◌, if◌then◌else◌, Bool-cases, dec_lt, arith,
}
use jeos.Keyboard.{utf8}

-- A continuation byte.
pub is_tail : ℕ → Bool
is_tail b = leb 128 b && ltb b 192

-- The rune of one UTF-8 sequence: its length by the first byte, the shortest form only.
pub decode : List ℕ → Option ℕ
decode (a ∷ []) = if ltb a 128 then some a else none
decode (a ∷ b ∷ []) =
    let r = (a - 192) * 64 + (b - 128) in
    if leb 192 a && ltb a 224 && is_tail b && leb 128 r then some r else none
decode (a ∷ b ∷ c ∷ []) =
    let r = ((a - 224) * 64 + (b - 128)) * 64 + (c - 128) in
    if leb 224 a && ltb a 240 && is_tail b && is_tail c && leb 2048 r then some r else none
decode (a ∷ b ∷ c ∷ d ∷ []) =
    let r = (((a - 240) * 64 + (b - 128)) * 64 + (c - 128)) * 64 + (d - 128) in
    if leb 240 a && ltb a 248 && is_tail b && is_tail c && is_tail d && leb 65536 r
    then some r
    else none
decode _ = none

-- Whether `bit_or` with `high` adds, below `n`.
adds_below : (n high : ℕ) → Bool
adds_below zero high = true
adds_below (suc n) high = adds_below n high && bit_or high n == high + n

adds_below-at : (n high x : ℕ) → adds_below n high ≡ true → x < n → bit_or high x ≡ high + x
unfolding adds_below
adds_below-at zero high x e h = absurd (omega arith)
adds_below-at (suc n) high x e h = elim (dec_lt x n) [
  | yes below ↦ adds_below-at n high x (ground arith) below
  | no last ↦ let same : x ≡ n = omega arith in rw same (ground arith)
]

or_192 : (x : ℕ) → x < 32 → bit_or 192 x ≡ 192 + x
or_192 x h = adds_below-at 32 192 x (unfold adds_below in refl) h

or_128 : (x : ℕ) → x < 64 → bit_or 128 x ≡ 128 + x
or_128 x h = adds_below-at 64 128 x (unfold adds_below in refl) h

or_224 : (x : ℕ) → x < 16 → bit_or 224 x ≡ 224 + x
or_224 x h = adds_below-at 16 224 x (unfold adds_below in refl) h

or_240 : (x : ℕ) → x < 8 → bit_or 240 x ≡ 240 + x
or_240 x h = adds_below-at 8 240 x (unfold adds_below in refl) h

-- Every rune below 0x200000 comes back from the bytes that `kbd_put_rune` makes of it, by the
-- decoder, which takes the shortest form only.
pub decode-utf8 : (rune : ℕ) → rune < 2 ^ 21 → decode (utf8 rune) ≡ some rune
unfolding utf8 decode is_tail
decode-utf8 rune h = elim (Bool-cases (ltb rune 128)) [
  | inl one ↦ ground arith
  | inr n1 ↦ elim (Bool-cases (ltb rune 2048)) [
    | inl two ↦
        rw (n1, two, or_192 (rune / 2 ^ 6) (ground arith), or_128 (rune % 64) (omega arith))
          (ground arith)
    | inr n2 ↦ elim (Bool-cases (ltb rune 65536)) [
      | inl three ↦
          rw
            (
              n1,
              n2,
              three,
              or_224 (rune / 2 ^ 12) (ground arith),
              or_128 (rune / 2 ^ 6 % 64) (omega arith),
              or_128 (rune % 64) (omega arith),
            )
            (ground arith)
      | inr n3 ↦
          let byte : (240 + rune / 2 ^ 18) % 256 ≡ 240 + rune / 2 ^ 18 = omega arith in
          rw
            (
              n1,
              n2,
              n3,
              or_240 (rune / 2 ^ 18) (omega arith),
              or_128 (rune / 2 ^ 12 % 64) (omega arith),
              or_128 (rune / 2 ^ 6 % 64) (omega arith),
              or_128 (rune % 64) (omega arith),
              byte,
            )
            (ground arith)
    ]
  ]
]
