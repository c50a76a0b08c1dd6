-- ===== src/Prelude/Circular.antt =====
-- A buffer of `cap` bytes read round its end: the view that the byte ring and the pipe share.
use Prim.Native.Nat.{ℕ, zero, suc, ◌+◌, ◌-◌, ◌≤◌, ◌<◌}
use mathlib.Core.Path.{◌≡◌, refl, ap, ap₂, ◌∙◌}
use mathlib.Core.List.{List, [], ◌∷◌, ◌++◌}
use native.Mathlib.Omega.{arith}
use jeos.Prelude.Tests.{◌==◌, ltb, if◌then◌else◌}
use jeos.Prelude.Lists.{length, get_or, set, get_or-set_self, get_or-set_ne}

-- The index behind `i`.
abbrev pub next : ℕ → ℕ → ℕ
next cap i = if i + 1 == cap then 0 else i + 1

-- The index `n` places behind `i`, for `n` at most `cap`.
abbrev pub advance : ℕ → ℕ → ℕ → ℕ
advance cap i n = if ltb (i + n) cap then i + n else i + n - cap

module _ (buf : List ℕ) (cap : ℕ) where
  -- The `n` bytes from index `i` on.
  unfoldable pub window : ℕ → ℕ → List ℕ
  window i zero = []
  window i (suc n) = get_or buf i 0 ∷ window (next cap i) n

  pub length-window : (i n : ℕ) → length (window i n) ≡ n
  unfolding window
  length-window i zero = refl
  length-window i (suc n) = ap suc (length-window (next cap i) n)

-- A byte written right behind a window extends it.
pub window-set :
    (buf : List ℕ) (cap x n i j : ℕ)
    → cap ≤ length buf
    → i < cap
    → n < cap
    → j ≡ advance cap i n
    → window (set buf j x) cap i (suc n) ≡ window buf cap i n ++ (x ∷ [])
unfolding window
window-set buf cap x zero i j fits inside short e =
    let here : j ≡ i = ground arith in rw (here, get_or-set_self buf i x 0 (omega arith))
window-set buf cap x (suc n) i j fits inside short e =
    ap₂ ◌∷◌ (get_or-set_ne buf x 0 (ground arith))
      (window-set buf cap x n (next cap i) j fits (ground arith) (omega arith) (ground arith))

-- A window is read in two parts.
pub window-append :
    (buf : List ℕ) (cap i m n : ℕ)
    → i < cap
    → m ≤ cap
    → window buf cap i (m + n) ≡ window buf cap i m ++ window buf cap (advance cap i m) n
unfolding window
window-append buf cap i zero n inside short =
    ap₂ (λ m k. window buf cap k m) (omega arith) (ground arith)
window-append buf cap i (suc m) n inside short =
    ap (λ k. window buf cap i k) {x = suc m + n} {y = suc (m + n)} (omega arith)
    ∙ ap (λ r. get_or buf i 0 ∷ r)
        (window-append buf cap (next cap i) m n (ground arith) (omega arith)
          ∙ ap (λ k. window buf cap (next cap i) m ++ window buf cap k n) (ground arith))
