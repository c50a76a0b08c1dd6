-- ===== src/Procs/Arguments/Bytes.antt =====
-- Bytes at a place of a page, and what a copy changes.
use jeos.Prelude.{
  ℕ, zero, suc, ◌+◌, ◌-◌, ◌/◌, ◌%◌, ◌^◌, ◌≤◌, ◌<◌, ◌≡◌, refl, ◌∙◌, true, false, List, length,
  get_or, ltb, arith,
}
use jeos.Procs.Arguments.{Page, copy_in, word_bytes}

-- The bytes stand in the page from the offset on.
abbrev pub IsAt : Page → (at : ℕ) → List ℕ → Type 0
IsAt page at bs = (i : ℕ) → i < length bs → page (at + i) ≡ get_or bs i 0

-- Two pages are the same from an offset to another.
abbrev pub IsSame : (from to : ℕ) → Page → Page → Type 0
IsSame from to p q = (x : ℕ) → from ≤ x → x < to → q x ≡ p x

pub copy_in-IsAt :
    (at : ℕ) (bs : List ℕ) (page : Page) → at + length bs ≤ 4096 → IsAt (copy_in at bs page) at bs
unfolding copy_in
copy_in-IsAt at bs page room i h =
    let place : (at + i + (2 ^ 64 - at)) % 2 ^ 64 ≡ i = omega (arith, room, h) in
    let inside : ltb i (length bs) ≡ true = ground (arith, h) in rw (place, inside) refl

pub copy_in-IsSame :
    (at : ℕ) (bs : List ℕ) (page : Page)
    → at + length bs ≤ 4096
    → IsSame (at + length bs) 4096 page (copy_in at bs page)
unfolding copy_in
copy_in-IsSame at bs page room x low high =
    let outside : ltb ((x + (2 ^ 64 - at)) % 2 ^ 64) (length bs) ≡ false =
      ground (arith, low, high) in
    rw outside refl

pub IsAt-IsSame :
    (at from : ℕ) (bs : List ℕ) (p q : Page)
    → from ≤ at
    → at + length bs ≤ 4096
    → IsSame from 4096 p q
    → IsAt p at bs
    → IsAt q at bs
IsAt-IsSame at from bs p q low high same is i h =
    same (at + i) (omega (arith, low)) (omega (arith, high, h)) ∙ is i h

pub IsSame-trans :
    (a b to : ℕ) (p q r : Page) → a ≤ b → IsSame a to p q → IsSame b to q r → IsSame b to p r
IsSame-trans a b to p q r h first second x low high =
    second x low high ∙ first x (omega (arith, h, low)) high

pub length-word_bytes : (n w : ℕ) → length (word_bytes n w) ≡ n
unfolding word_bytes
length-word_bytes zero w = refl
length-word_bytes (suc n) w = omega (arith, length-word_bytes n (w / 256))
