-- ===== src/Pipe/Pass.antt =====
-- One pass of a reader or of a writer: no byte is lost, doubled or moved.
use mathlib.Core.List.{append_assoc}
use jeos.Prelude.{
  ℕ, suc, ◌+◌, ◌≤◌, ◌<◌, ◌≡◌, refl, sym, ap, ◌∙◌, ◌⊎◌, inl, inr, true, false, List, [], ◌∷◌, ◌++◌,
  ◌==◌, Bool-cases, length, length-append, get_or, take, take_snoc, dec_lt, ap₂, arith,
}
use jeos.Pipe.{
  Pipe, pipe_buf, Outcome, running, returned, broken, Reader, Writer, take_byte, put_byte, read_on,
  write_on, read_pass, write_pass,
}
use jeos.Pipe.Inv.{
  IsValid, contents, put_byte-IsValid, contents-put_byte, take_byte-IsValid, contents-take_byte,
}

-- Where a running reader stands.
pub record Reading (r : Reader) : Type 0 where
  pub more : length r.dst < r.len
  pub going : r.outcome ≡ running

pub record Writing (w : Writer) : Type 0 where
  pub more : w.pos < length w.src
  pub going : w.outcome ≡ running

-- What a call says when it has returned or goes on.
abbrev pub Told : Reader → Pipe → Outcome → Type 0
Told r p running = length r.dst < r.len
Told r p (returned n) =
    (n ≡ length r.dst) × ((n ≡ r.len) ⊎ (n < r.len) × (p.count ≡ 0) × (p.write_open ≡ 0))
Told r p broken = ⊥

-- The effect of a pass of a reader.
pub record Read (p : Pipe) (r : Reader) (p' : Pipe) (r' : Reader) : Type 0 where
  pub valid : IsValid p'
  pub kept : r'.dst ++ contents p' ≡ r.dst ++ contents p
  pub told : Told r' p' r'.outcome
  pub same_len : r'.len ≡ r.len
  pub ends : (p'.read_open ≡ p.read_open) × (p'.write_open ≡ p.write_open)
  pub advanced : (length r'.dst ≡ suc (length r.dst)) ⊎ (p.count ≡ 0)

Read-empty :
    (p : Pipe) (r : Reader)
    → IsValid p
    → Reading r
    → p.count ≡ 0
    → Read p r (read_pass p r).0 (read_pass p r).1
unfolding read_pass
Read-empty p r v run none_left = elim (Bool-cases (p.write_open == 0)) [
  | inl closed ↦
      rw (empty, closed)
        (record {
          valid = v;
          kept = refl;
          told = (refl, inr (run.more, none_left, ground arith));
          same_len = refl;
          ends = (refl, refl);
          advanced = inr none_left;
        })
  | inr still_open ↦
      rw (empty, still_open)
        (record {
          valid = v;
          kept = refl;
          told = rw run.going run.more;
          same_len = refl;
          ends = (refl, refl);
          advanced = inr none_left;
        })
]
  where
    empty : (p.count == 0) ≡ true
    empty = ground arith

take_byte-ends :
    (p : Pipe)
    → ((take_byte p).1.read_open ≡ p.read_open) × ((take_byte p).1.write_open ≡ p.write_open)
unfolding take_byte
take_byte-ends p = (refl, refl)

read_on-Told :
    (r : Reader) (p : Pipe) → length r.dst ≤ r.len → Told (read_on r) p (read_on r).outcome
unfolding read_on
read_on-Told r p h = elim (Bool-cases (length r.dst == r.len)) [
  | inl end ↦ rw end (refl, inl (ground arith))
  | inr more ↦ rw more (ground arith)
]

read_on-eq : (r : Reader) → ((read_on r).dst ≡ r.dst) × ((read_on r).len ≡ r.len)
unfolding read_on
read_on-eq r = (refl, refl)

Read-some :
    (p : Pipe) (r : Reader)
    → IsValid p
    → Reading r
    → 0 < p.count
    → Read p r (read_pass p r).0 (read_pass p r).1
unfolding read_pass
Read-some p r v run some_left =
    let c = (take_byte p).0 in
    let r' : Reader = record r { dst = r.dst ++ (c ∷ []) } in
    let longer : length r'.dst ≡ suc (length r.dst) =
      omega (arith, length-append {0} r.dst (c ∷ [])) in
    rw some_test (record {
      valid = take_byte-IsValid p v some_left;
      kept =
          ap (λ xs. xs ++ contents (take_byte p).1) (read_on-eq r').0
          ∙ append_assoc r.dst (c ∷ []) (contents (take_byte p).1)
          ∙ ap (λ xs. r.dst ++ xs) (sym (contents-take_byte p v some_left));
      told = read_on-Told r' (take_byte p).1 (omega (arith, run.more));
      same_len = (read_on-eq r').1;
      ends = take_byte-ends p;
      advanced = inl (ap length (read_on-eq r').0 ∙ longer);
    })
  where
    some_test : (p.count == 0) ≡ false
    some_test = ground arith

-- Whatever a pass of a running reader meets.
pub read_pass-Read :
    (p : Pipe) (r : Reader) → IsValid p → Reading r → Read p r (read_pass p r).0 (read_pass p r).1
read_pass-Read p r v run = elim (dec_lt 0 p.count) [
  | yes some_left ↦ Read-some p r v run some_left
  | no empty ↦ Read-empty p r v run (omega arith)
]

abbrev pub Said : Writer → Pipe → Outcome → Type 0
Said w p running = w.pos < length w.src
Said w p (returned n) = (n ≡ length w.src) × (w.pos ≡ length w.src)
Said w p broken = (w.pos < length w.src) × (p.read_open ≡ 0)

-- The effect of a pass of a writer.
pub record Wrote (p : Pipe) (w : Writer) (p' : Pipe) (w' : Writer) : Type 0 where
  pub valid : IsValid p'
  pub sent :
      (xs : List ℕ) → xs ++ contents p ≡ take w.pos w.src → xs ++ contents p' ≡ take w'.pos w'.src
  pub said : Said w' p' w'.outcome
  pub same_src : w'.src ≡ w.src
  pub ends : (p'.read_open ≡ p.read_open) × (p'.write_open ≡ p.write_open)
  pub advanced : (w'.pos ≡ suc w.pos) ⊎ (p.count ≡ pipe_buf)

write_full :
    (p : Pipe) (w : Writer)
    → IsValid p
    → Writing w
    → p.count ≡ pipe_buf
    → Wrote p w (write_pass p w).0 (write_pass p w).1
unfolding write_pass
write_full p w v run full = elim (Bool-cases (p.read_open == 0)) [
  | inl closed ↦
      rw (full_test, closed)
        (record {
          valid = v;
          sent = λ xs e. e;
          said = (run.more, ground arith);
          same_src = refl;
          ends = (refl, refl);
          advanced = inr full;
        })
  | inr still_open ↦
      rw (full_test, still_open)
        (record {
          valid = v;
          sent = λ xs e. e;
          said = rw run.going run.more;
          same_src = refl;
          ends = (refl, refl);
          advanced = inr full;
        })
]
  where
    full_test : (p.count == pipe_buf) ≡ true
    full_test = ground arith

put_byte-ends :
    (p : Pipe) (c : ℕ)
    → ((put_byte p c).read_open ≡ p.read_open) × ((put_byte p c).write_open ≡ p.write_open)
unfolding put_byte
put_byte-ends p c = (refl, refl)

write_on-Said :
    (w : Writer) (p : Pipe) → w.pos ≤ length w.src → Said (write_on w) p (write_on w).outcome
unfolding write_on
write_on-Said w p h = elim (Bool-cases (w.pos == length w.src)) [
  | inl end ↦ rw end (refl, ground arith)
  | inr more ↦ rw more (ground arith)
]

write_on-eq : (w : Writer) → ((write_on w).src ≡ w.src) × ((write_on w).pos ≡ w.pos)
unfolding write_on
write_on-eq w = (refl, refl)

write_room :
    (p : Pipe) (w : Writer)
    → IsValid p
    → Writing w
    → p.count < pipe_buf
    → Wrote p w (write_pass p w).0 (write_pass p w).1
unfolding write_pass
write_room p w v run room =
    let c = get_or w.src w.pos 0 in
    let w' : Writer = record w { pos = w.pos + 1 } in
    rw room_test (record {
      valid = put_byte-IsValid p c v room;
      sent = λ xs e.
          ap (λ ys. xs ++ ys) (contents-put_byte p c v room)
          ∙ sym (append_assoc xs (contents p) (c ∷ []))
          ∙ ap (λ ys. ys ++ (c ∷ [])) e
          ∙ sym (take_snoc w.pos w.src 0 run.more)
          ∙ ap₂ take (sym (write_on-eq w').1) (sym (write_on-eq w').0);
      said = write_on-Said w' (put_byte p c) (omega (arith, run.more));
      same_src = (write_on-eq w').0;
      ends = put_byte-ends p c;
      advanced = inl ((write_on-eq w').1 ∙ omega arith);
    })
  where
    room_test : (p.count == pipe_buf) ≡ false
    room_test = ground arith

-- Whatever a pass of a running writer meets.
pub write_pass-Wrote :
    (p : Pipe) (w : Writer)
    → IsValid p
    → Writing w
    → Wrote p w (write_pass p w).0 (write_pass p w).1
write_pass-Wrote p w v run = elim (dec_lt p.count pipe_buf) [
  | yes room ↦ write_room p w v run room
  | no full ↦ write_full p w v run (omega (arith, v.room))
]
