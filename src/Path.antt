-- ===== src/Path.antt =====
-- Strings and path components: kernel/string.c and the path parser of kernel/vfs.c. A `char *` is the
-- list of the bytes from it on; the end of the list stands for the terminating zero.
pub mod Compare
pub mod Walk
mod Tests
use Prim.Native.Nat.{◌-◌, ◌%◌, ◌^◌}
use jeos.Prelude.{
  ℕ, zero, suc, ◌+◌, Bool, true, false, not, ◌&&◌, ◌||◌, Option, none, some, List, [], ◌∷◌, ltb,
  ◌==◌, if◌then◌else◌, take, drop,
}

-- `*s`.
abbrev pub first : List ℕ → ℕ
first [] = 0
first (x ∷ s) = x

-- `s + 1`.
abbrev pub rest : List ℕ → List ℕ
rest [] = []
rest (x ∷ s) = s

-- `kstrlen` of a string, and of a pointer.
unfoldable pub string_length : List ℕ → ℕ
string_length [] = 0
string_length (x ∷ s) = let n = string_length s in if x == 0 then 0 else n + 1

unfoldable pub kstrlen : Option (List ℕ) → ℕ
kstrlen none = 0
kstrlen (some s) = string_length s

-- The loop of `kstrcmp` and the difference behind it, an i32 by its 32 bits.
unfoldable pub compare_bytes : List ℕ → List ℕ → ℕ
compare_bytes [] b = (2 ^ 32 - first b % 256) % 2 ^ 32
compare_bytes (x ∷ a) b =
    let more = compare_bytes a (rest b) in
    if not (x == 0) && (x == first b) then more else (x % 256 + (2 ^ 32 - first b % 256)) % 2 ^ 32

-- `kstrcmp`. Two pointers that are equal point to equal strings, so that the first test changes nothing
-- unless both are null.
unfoldable pub kstrcmp : Option (List ℕ) → Option (List ℕ) → ℕ
kstrcmp none none = 0
kstrcmp none (some b) = 2 ^ 32 - 1
kstrcmp (some a) none = 1
kstrcmp (some a) (some b) = compare_bytes a b

-- `kstreq_nlit`: the loop over `i`, with `len - i` to go, and the test after it.
pub kstreq_nlit : (s : List ℕ) (len : ℕ) (lit : List ℕ) → Bool
kstreq_nlit s zero lit = first lit == 0
kstreq_nlit s (suc k) lit =
    let more = kstreq_nlit (rest s) k (rest lit) in
    if first lit == 0 then false else if first s == first lit then more else false

-- The loop of `vfs_comp_eq`.
unfoldable pub same_bytes : (rounds : ℕ) (s lit : List ℕ) → Bool
same_bytes zero s lit = true
same_bytes (suc k) s lit =
    let more = same_bytes k (rest s) (rest lit) in if first s == first lit then more else false

unfoldable pub vfs_comp_eq : (s : List ℕ) (len : ℕ) (lit : List ℕ) → Bool
vfs_comp_eq s len lit = if kstrlen (some lit) == len then same_bytes len s lit else false

-- `while (*s == '/') s++`.
unfoldable pub skip_slashes : List ℕ → List ℕ
skip_slashes [] = []
skip_slashes (x ∷ s) = let s' = skip_slashes s in if x == 47 then s' else x ∷ s

-- `while (*s && *s != '/') s++`: how far it goes.
unfoldable pub component_length : List ℕ → ℕ
component_length [] = 0
component_length (x ∷ s) = let n = component_length s in if x == 0 || x == 47 then 0 else n + 1

-- `vfs_next_component`: the start of the component, its length, and where the path goes on.
unfoldable pub next_component : List ℕ → List ℕ × ℕ × List ℕ
next_component p =
    let s = skip_slashes p in
    if first s == 0
    then (s, 0, s)
    else (let n = component_length s in (s, n, skip_slashes (drop n s)))

-- The components that the loop of `vfs_lookup` goes through, on fuel: `none` when it runs out.
unfoldable pub components : (fuel : ℕ) → List ℕ → Option (List (List ℕ))
components zero p = none
components (suc k) p =
    let (s, n, p') = next_component p in
    let others = components k p' in
    if n == 0 then some [] else elim others [ none ↦ none | some cs ↦ some (take n s ∷ cs) ]
