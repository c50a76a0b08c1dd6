-- ===== src/Pipe/Inv.antt =====
-- What holds of a pipe between two passes, and what it holds.
use jeos.Prelude.{
  ℕ, suc, ◌-◌, ◌%◌, ◌≤◌, ◌<◌, ◌≡◌, refl, ◌∙◌, ap, ap₂, List, [], ◌∷◌, ◌++◌, length, length-set, set,
  length-replicate, get_or, arith,
}
use jeos.Prelude.Circular.{window, window-set, length-window, advance}
use jeos.Pipe.{Pipe, pipe_buf, fresh, take_byte, put_byte}

pub record IsValid (p : Pipe) : Type 0 where
  pub storage : length p.buf ≡ pipe_buf
  pub room : p.count ≤ pipe_buf
  pub behind : p.write_pos % pipe_buf ≡ advance pipe_buf (p.read_pos % pipe_buf) p.count

-- The bytes in flight, the oldest first.
unfoldable pub contents : Pipe → List ℕ
contents p = window p.buf pipe_buf (p.read_pos % pipe_buf) p.count

pub fresh-IsValid : IsValid fresh
unfolding fresh
fresh-IsValid = record {
  storage = length-replicate {A = ℕ} 4096 0;
  room = omega arith;
  behind = refl;
}

pub contents-fresh : contents fresh ≡ []
unfolding contents fresh window
contents-fresh = refl

pub put_byte-IsValid : (p : Pipe) (c : ℕ) → IsValid p → p.count < pipe_buf → IsValid (put_byte p c)
unfolding put_byte
put_byte-IsValid p c v room = record {
  storage = length-set p.buf _ c ∙ v.storage;
  room = omega arith;
  behind = ground arith;
}

pub contents-put_byte :
    (p : Pipe) (c : ℕ)
    → IsValid p
    → p.count < pipe_buf
    → contents (put_byte p c) ≡ contents p ++ (c ∷ [])
unfolding put_byte contents
contents-put_byte p c v room =
    ap (λ n. window (set p.buf (p.write_pos % pipe_buf) c) pipe_buf (p.read_pos % pipe_buf) n)
      {y = suc p.count} (omega arith)
    ∙ window-set p.buf pipe_buf c p.count (p.read_pos % pipe_buf) (p.write_pos % pipe_buf)
        (omega (arith, v.storage)) (omega arith) room v.behind

pub take_byte-IsValid : (p : Pipe) → IsValid p → 0 < p.count → IsValid (take_byte p).1
unfolding take_byte
take_byte-IsValid p v some_left = record {
  storage = v.storage;
  room = omega arith;
  behind = ground arith;
}

pub contents-take_byte :
    (p : Pipe) → IsValid p → 0 < p.count → contents p ≡ (take_byte p).0 ∷ contents (take_byte p).1
unfolding take_byte contents window
contents-take_byte p v some_left =
    let first = p.read_pos % pipe_buf in
    ap (λ n. window p.buf pipe_buf first n) {y = suc (p.count - 1)} (omega arith)
    ∙ ap₂ (λ i n. get_or p.buf first 0 ∷ window p.buf pipe_buf i n) (ground arith) (omega arith)

pub length-contents : (p : Pipe) → length (contents p) ≡ p.count
unfolding contents
length-contents p = length-window p.buf pipe_buf (p.read_pos % pipe_buf) p.count

pub contents-empty : (p : Pipe) → p.count ≡ 0 → contents p ≡ []
unfolding contents window
contents-empty p e = rw e
