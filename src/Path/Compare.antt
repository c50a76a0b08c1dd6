-- ===== src/Path/Compare.antt =====
-- The two comparisons of a path component with a literal, `kstreq_nlit` of kernel/string.c and
-- `vfs_comp_eq` of kernel/vfs.c.
use jeos.Prelude.{ℕ, zero, suc, ◌≤◌, ◌<◌, ◌≡◌, ◌↔◌, refl, true, List, [], ◌∷◌, length, take, arith}
use jeos.Path.{compare_bytes, rest, string_length, kstrlen, kstreq_nlit, same_bytes, vfs_comp_eq}

-- No byte of the string is the terminator.
unfoldable pub NoNul : List ℕ → Type 0
NoNul [] = Unit
NoNul (x ∷ s) = (0 < x) × NoNul s

-- `kstreq_nlit` and `vfs_comp_eq` agree on every component and literal.
pub vfs_comp_eq-kstreq_nlit :
    (s : List ℕ) (len : ℕ) (lit : List ℕ) → vfs_comp_eq s len lit ≡ kstreq_nlit s len lit
unfolding vfs_comp_eq kstreq_nlit same_bytes kstrlen string_length
vfs_comp_eq-kstreq_nlit s zero [] = refl
vfs_comp_eq-kstreq_nlit s zero (c ∷ lit) = ground arith
vfs_comp_eq-kstreq_nlit s (suc k) [] = ground arith
vfs_comp_eq-kstreq_nlit s (suc k) (c ∷ lit) = ground (arith, vfs_comp_eq-kstreq_nlit (rest s) k lit)

-- When a string has `len` bytes and neither it nor the literal holds a zero byte, `kstreq_nlit` says
-- yes exactly if its first `len` bytes are the literal.
pub kstreq_nlit-take :
    (s : List ℕ) (len : ℕ) (lit : List ℕ)
    → len ≤ length s
    → NoNul s
    → NoNul lit
    → (kstreq_nlit s len lit ≡ true) ↔ (take len s ≡ lit)
unfolding kstreq_nlit NoNul
kstreq_nlit-take s zero [] h a b = ground arith
kstreq_nlit-take s zero (c ∷ lit) h a b = ground arith
kstreq_nlit-take [] (suc k) lit h a b = absurd (omega arith)
kstreq_nlit-take (x ∷ s) (suc k) [] h a b = ground arith
kstreq_nlit-take (x ∷ s) (suc k) (c ∷ lit) h a b =
    ground (arith, kstreq_nlit-take s k lit (omega arith) a.1 b.1)

-- The bytes of a string in memory.
unfoldable pub IsString : List ℕ → Type 0
IsString [] = Unit
IsString (x ∷ s) = (0 < x) × (x < 256) × IsString s

-- `kstrcmp` returns 0 for two strings exactly if they are equal.
pub compare_bytes-zero :
    (a b : List ℕ) → IsString a → IsString b → (compare_bytes a b ≡ 0) ↔ (a ≡ b)
unfolding compare_bytes IsString
compare_bytes-zero [] [] ha hb = ground arith
compare_bytes-zero [] (y ∷ b) ha (pos, byte, hb) = ground arith
compare_bytes-zero (x ∷ a) [] (pos, byte, ha) hb = ground arith
compare_bytes-zero (x ∷ a) (y ∷ b) (pos, byte, ha) (pos_y, byte_y, hb) =
    ground (arith, compare_bytes-zero a b ha hb)
