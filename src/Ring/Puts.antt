-- ===== src/Ring/Puts.antt =====
-- What the writers of kernel/ps2.c do to a ring: they put bytes at its end.
use mathlib.Core.List.{append-nil, append_assoc}
use jeos.Prelude.{ℕ, ◌-◌, ◌≡◌, refl, ap, ap₂, ◌∙◌, List, [], ◌++◌, length, take_of_le, arith}
use jeos.Ring.{Ring, write}
use jeos.Ring.Inv.{IsValid, contents, write-IsValid, cap-write}
use jeos.Ring.History.{keep_last, keep_last_append, length-contents}
use jeos.Ring.Write.{contents-write}

-- What a step does to the ring: it puts the bytes `out` into it.
pub record Puts (out : List ℕ) (r r' : Ring) : Type 0 where
  pub valid : IsValid r'
  pub cap : r'.cap ≡ r.cap
  pub history : contents r' ≡ keep_last r.cap (contents r ++ out)

pub Puts-nothing : (r : Ring) → IsValid r → Puts [] r r
Puts-nothing r v =
    let fits : length (contents r) - r.cap ≡ 0 = omega (arith, length-contents r) in
    record { valid = v; cap = refl; history = rw (append-nil (contents r), fits) refl }

pub write-Puts : (out : List ℕ) (r : Ring) → IsValid r → Puts out r (write r out (length out))
write-Puts out r v = record {
  valid = write-IsValid r out (length out) v;
  cap = cap-write r out (length out);
  history =
      contents-write r out (length out) v (omega arith)
      ∙ ap (λ xs. keep_last r.cap (contents r ++ xs)) (take_of_le (length out) out (omega arith));
}

pub Puts-then :
    (xs ys : List ℕ) (r r' r'' : Ring) → Puts xs r r' → Puts ys r' r'' → Puts (xs ++ ys) r r''
Puts-then xs ys r r' r'' p q = record {
  valid = q.valid;
  cap = q.cap ∙ p.cap;
  history =
      q.history
      ∙ ap₂ (λ n zs. keep_last n (zs ++ ys)) p.cap p.history
      ∙ keep_last_append r.cap (contents r ++ xs) ys
      ∙ ap (keep_last r.cap) (append_assoc (contents r) xs ys);
}
