-- ===== src/Console/Move.antt =====
-- Pixels by line and column: what the copying loops of `fb_scroll` in kernel/kconsole.c leave.
use jeos.Prelude.{
  ℕ, zero, suc, ◌+◌, ◌-◌, ◌*◌, ◌%◌, ◌^◌, ◌≤◌, ◌<◌, ◌≡◌, ap, ◌∙◌, inl, inr, ◌&&◌, ltb, leb, ◌==◌,
  if◌then◌else◌, Bool-cases, ap₂, arith,
}
use jeos.Console.Frame.{font_h, Pixels, store, copy_line, copy_lines, copy_rows}
use jeos.Console.Grid.{line_suc, line_le, span}

copy_line-at :
    (k x dst src : ℕ) (px : Pixels) (p : ℕ)
    → dst ≤ src
    → src + x + k ≤ 2 ^ 32
    → copy_line k x dst src px p
      ≡ (if leb (dst + x) p && ltb p (dst + x + k) then px (p - dst + src) else px p)
unfolding copy_line
copy_line-at zero x dst src px p h room = ground arith
copy_line-at (suc k) x dst src px p h room =
    let px' = store px ((dst + x) % 2 ^ 32) (px ((src + x) % 2 ^ 32)) in
    let rest : copy_line k (x + 1) dst src px' p ≡ (
        if leb (dst + (x + 1)) p && ltb p (dst + (x + 1) + k) then px' (p - dst + src) else px' p) =
      copy_line-at k (x + 1) dst src px' p h (omega arith) in
    elim (Bool-cases ((dst + x) % 2 ^ 32 == p)) [
      | inl here ↦
          let same : px ((src + x) % 2 ^ 32) ≡ px (p - dst + src) = ap px (ground arith) in
          ground (arith, rest, same)
      | inr other ↦ ground (arith, rest)
    ]

-- A line copied from the one a text row below it.
copy_line-span :
    (w y x y' n : ℕ) (px : Pixels)
    → 0 < n
    → x < w
    → n ≤ w
    → (y' + font_h + 1) * w ≤ 2 ^ 32
    → copy_line n 0 (y' * w % 2 ^ 32) ((y' + font_h) * w % 2 ^ 32) px (y * w + x)
      ≡ (if (y == y') && ltb x n then px ((y + font_h) * w + x) else px (y * w + x))
copy_line-span w y x y' n px pos h h' room =
    ap₂ (λ d s. copy_line n 0 d s px (y * w + x)) {x = y' * w % 2 ^ 32} {y = y' * w}
      {v = (y' + font_h) * w} (omega (arith, apart, last)) (omega (arith, last))
    ∙ copy_line-at n 0 (y' * w) ((y' + font_h) * w) px (y * w + x) apart (omega (arith, last))
    ∙ elim (Bool-cases (y == y')) [
      | inl same ↦
          let e : y ≡ y' = ground arith in
          let value : px (y * w + x - y' * w + (y' + font_h) * w) ≡ px ((y + font_h) * w + x) =
            ap px (rw e (omega arith)) in
          ground (arith, span w y x y' 0 n h (omega arith), value)
      | inr other ↦ ground (arith, span w y x y' 0 n h (omega arith))
    ]
  where
    apart : y' * w ≤ (y' + font_h) * w
    apart = line_le w y' (y' + font_h) (omega arith)

    last : (y' + font_h) * w + w ≤ 2 ^ 32
    last = omega (arith, line_suc (y' + font_h) w)

copy_lines-moved :
    (k i r w y x n : ℕ) (px : Pixels)
    → 0 < n
    → x < w
    → n ≤ w
    → 0 < r
    → (r * font_h + i + k) * w ≤ 2 ^ 32
    → copy_lines k i r n w px (y * w + x) ≡ (
        if (leb ((r - 1) * font_h + i) y && ltb y ((r - 1) * font_h + i + k)) && ltb x n
        then px ((y + font_h) * w + x)
        else px (y * w + x))
unfolding copy_lines
copy_lines-moved zero i r w y x n px pos h h' row room = ground arith
copy_lines-moved (suc k) i r w y x n px pos h h' row room =
    let l = (r - 1) * font_h + i in
    let below : r * font_h + i ≡ l + font_h = omega arith in
    let line : (l + font_h + 1) * w ≤ 2 ^ 32 =
      omega (arith, line_le w (l + font_h + 1) (r * font_h + i + suc k) (omega arith)) in
    let px' = copy_line n 0 (l * w % 2 ^ 32) ((r * font_h + i) * w % 2 ^ 32) px in
    let this = λ (y : ℕ).
      ap (λ b. copy_line n 0 (l * w % 2 ^ 32) (b * w % 2 ^ 32) px (y * w + x)) below
      ∙ copy_line-span w y x l n px pos h h' line in
    ground (
      arith,
      this y,
      this (y + font_h),
      copy_lines-moved k (i + 1) r w y x n px' pos h h' row (
          omega
            (arith, line_le w (r * font_h + (i + 1) + k) (r * font_h + i + suc k) (omega arith))),
    )

-- After the copying, each line of the first `k` text rows from `r - 1` on holds what the line a text
-- row below it held, in the columns that text covers.
pub copy_rows-moved :
    (k r w y x n : ℕ) (px : Pixels)
    → 0 < n
    → x < w
    → n ≤ w
    → 0 < r
    → (r + k) * font_h * w ≤ 2 ^ 32
    → copy_rows k r n w px (y * w + x) ≡ (
        if (leb ((r - 1) * font_h) y && ltb y ((r - 1 + k) * font_h)) && ltb x n
        then px ((y + font_h) * w + x)
        else px (y * w + x))
unfolding copy_rows
copy_rows-moved zero r w y x n px pos h h' row room = ground arith
copy_rows-moved (suc k) r w y x n px pos h h' row room =
    let px' = copy_lines font_h 0 r n w px in
    let this = λ (y : ℕ).
      copy_lines-moved font_h 0 r w y x n px pos h h' row
        (omega (arith, line_le w (r * font_h + 0 + font_h) ((r + suc k) * font_h) (omega arith))) in
    ground (
      arith,
      this y,
      this (y + font_h),
      copy_rows-moved k (r + 1) w y x n px' pos h h' (omega arith)
          (omega (arith, line_le w ((r + 1 + k) * font_h) ((r + suc k) * font_h) (omega arith))),
    )
