-- ===== src/Path/Tests.antt =====
-- Runs of the path parser.
use jeos.Prelude.{ℕ, ◌≡◌, refl, some, List, [], ◌∷◌, arith}
use jeos.Path.{components, next_component, skip_slashes, component_length}
use jeos.Path.Compare.{NoNul}

-- `//a/bc/`.
abbrev path : List ℕ
path = 47 ∷ 47 ∷ 97 ∷ 47 ∷ 98 ∷ 99 ∷ 47 ∷ []

path-NoNul : NoNul path
path-NoNul = unfold NoNul in ground arith

components-path : components 8 path ≡ some ((97 ∷ []) ∷ (98 ∷ 99 ∷ []) ∷ [])
unfolding components next_component skip_slashes component_length
components-path = refl

dots-NoNul : NoNul (46 ∷ 46 ∷ [])
dots-NoNul = unfold NoNul in ground arith
