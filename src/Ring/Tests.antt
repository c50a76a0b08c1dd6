-- ===== src/Ring/Tests.antt =====
-- Runs of the byte ring on small inputs.
use jeos.Prelude.{◌≡◌, refl, [], ◌∷◌, ◌++◌, take, arith}
use jeos.Prelude.Circular.{window}
use jeos.Ring.{Ring, write, read, oldest, copy_out}
use jeos.Ring.Inv.{IsValid, contents}
use jeos.Ring.History.{keep_last}
use jeos.Ring.Write.{contents-write}

-- A ring of four bytes that wraps: the oldest byte is at 3.
abbrev wrapped : Ring
wrapped = record { buf = 4 ∷ 5 ∷ 0 ∷ 3 ∷ []; cap = 4; head = 2; len = 3 }

wrapped-IsValid : IsValid wrapped
wrapped-IsValid = record {
  storage = omega arith;
  nonempty = omega arith;
  small = omega arith;
  head_in = omega arith;
  len_in = omega arith;
}

contents-wrapped : contents wrapped ≡ 3 ∷ 4 ∷ 5 ∷ []
unfolding contents window
contents-wrapped = refl

write-bulk : contents (write wrapped (1 ∷ 2 ∷ 3 ∷ 4 ∷ 5 ∷ 6 ∷ []) 6) ≡ 3 ∷ 4 ∷ 5 ∷ 6 ∷ []
unfolding contents write window
write-bulk = refl

read-two : (read wrapped 2).0 ≡ 3 ∷ 4 ∷ []
unfolding read copy_out oldest
read-two = refl

contents-write_example :
    contents (write wrapped (6 ∷ 7 ∷ []) 2) ≡ keep_last 4 (contents wrapped ++ take 2 (6 ∷ 7 ∷ []))
contents-write_example = contents-write wrapped (6 ∷ 7 ∷ []) 2 wrapped-IsValid (omega arith)
