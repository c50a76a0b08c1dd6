-- ===== src/Console/Grid.antt =====
-- Pixels by line and column: what the drawing loops over the framebuffer of kernel/kconsole.c leave.
use jeos.Prelude.{
  ℕ, zero, suc, ◌+◌, ◌-◌, ◌*◌, ◌%◌, ◌^◌, ◌≤◌, ◌<◌, ◌≡◌, ap, ◌∙◌, inl, inr, ◌&&◌, ltb, leb, ◌==◌,
  if◌then◌else◌, dec_lt, Bool-cases, arith,
}
use jeos.Console.Frame.{Pixels, store, put_row, put_rows}

pub line_suc : (y w : ℕ) → (y + 1) * w ≡ y * w + w
line_suc y w = omega arith

pub line_le : (w a b : ℕ) → a ≤ b → a * w ≤ b * w
line_le w a zero h = let e : a ≡ 0 = omega arith in rw e (omega arith)
line_le w a (suc b) h = elim (dec_lt a (suc b)) [
  | yes below ↦ omega (arith, line_le w a b (omega arith))
  | no same ↦ let e : a ≡ suc b = omega arith in rw e (omega arith)
]

-- A pixel of a line lies in a span of a line exactly if the lines are the same and the column is in
-- the span.
pub span :
    (w y x y' x' n : ℕ)
    → x < w
    → x' + n ≤ w
    → (leb (y' * w + x') (y * w + x) && ltb (y * w + x) (y' * w + x' + n))
      ≡ ((y == y') && (leb x' x && ltb x (x' + n)))
span w y x y' x' n h h' = elim (dec_lt y y') [
  | yes above ↦ ground (arith, line_le w (y + 1) y' (omega arith), line_suc y w)
  | no low ↦ elim (dec_lt y' y) [
    | yes below ↦ ground (arith, line_le w (y' + 1) y (omega arith), line_suc y' w)
    | no same ↦ let e : y ≡ y' = omega arith in rw e (ground arith)
  ]
]

put_row-at :
    (k x base : ℕ) (v : ℕ → ℕ) (px : Pixels) (p : ℕ)
    → base + x + k ≤ 2 ^ 32
    → put_row k x base v px p
      ≡ (if leb (base + x) p && ltb p (base + x + k) then v (p - base) else px p)
unfolding put_row
put_row-at zero x base v px p h = ground arith
put_row-at (suc k) x base v px p h = elim (Bool-cases ((base + x) % 2 ^ 32 == p)) [
  | inl here ↦
      let same : v (p - base) ≡ v x = ap v (ground arith) in
      ground (
        arith,
        put_row-at k (x + 1) base v (store px ((base + x) % 2 ^ 32) (v x)) p (omega arith),
        same,
      )
  | inr other ↦
      ground
        (arith, put_row-at k (x + 1) base v (store px ((base + x) % 2 ^ 32) (v x)) p (omega arith))
]

-- A span of a line, by line and column.
pub put_row-span :
    (w y x y' x' n : ℕ) (v : ℕ → ℕ) (px : Pixels)
    → 0 < n
    → x < w
    → x' + n ≤ w
    → (y' + 1) * w ≤ 2 ^ 32
    → put_row n 0 ((y' * w + x') % 2 ^ 32) v px (y * w + x)
      ≡ (if (y == y') && (leb x' x && ltb x (x' + n)) then v (x - x') else px (y * w + x))
put_row-span w y x y' x' n v px pos h h' top =
    ap (λ b. put_row n 0 b v px (y * w + x)) {y = y' * w + x'} (omega (arith, line_suc y' w))
    ∙ put_row-at n 0 (y' * w + x') v px (y * w + x) (omega (arith, line_suc y' w))
    ∙ elim (Bool-cases (y == y')) [
      | inl same ↦
          let e : y ≡ y' = ground arith in
          let value : v (y * w + x - (y' * w + x')) ≡ v (x - x') = ap v (rw e (omega arith)) in
          ground (arith, span w y x y' x' n h h', value)
      | inr other ↦ ground (arith, span w y x y' x' n h h')
    ]

-- A rectangle, by line and column.
pub put_rows-rectangle :
    (k i w y x top left n : ℕ) (v : ℕ → ℕ → ℕ) (px : Pixels)
    → 0 < n
    → x < w
    → left + n ≤ w
    → (top + i + k) * w ≤ 2 ^ 32
    → put_rows k i top left n w v px (y * w + x) ≡ (
        if (leb (top + i) y && ltb y (top + i + k)) && (leb left x && ltb x (left + n))
        then v (y - top) (x - left)
        else px (y * w + x))
unfolding put_rows
put_rows-rectangle zero i w y x top left n v px pos h h' room = ground arith
put_rows-rectangle (suc k) i w y x top left n v px pos h h' room =
    let line : (top + i + 1) * w ≤ 2 ^ 32 =
      omega (arith, line_le w (top + i + 1) (top + i + suc k) (omega arith)) in
    let px' = put_row n 0 (((top + i) * w + left) % 2 ^ 32) (v i) px in
    let this = put_row-span w y x (top + i) left n (v i) px pos h h' line in
    let rest =
      put_rows-rectangle k (i + 1) w y x top left n v px' pos h h'
        (omega (arith, line_le w (top + (i + 1) + k) (top + i + suc k) (omega arith))) in
    elim (Bool-cases (y == top + i)) [
      | inl here ↦
          let same : v (y - top) (x - left) ≡ v i (x - left) =
            ap (λ j. v j (x - left)) (ground arith) in
          ground (arith, this, rest, same)
      | inr other ↦ ground (arith, this, rest)
    ]
