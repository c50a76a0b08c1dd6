-- ===== src/Pipe/Rounds.antt =====
-- A transfer comes to its end: a writer and a reader that take turns need as many rounds as there
-- are bytes.
use mathlib.Core.List.{append-nil}
use jeos.Prelude.{
  ℕ, zero, suc, ◌+◌, ◌≤◌, ◌<◌, ◌≡◌, refl, sym, ap, subst, ◌∙◌, inl, inr, List, ◌++◌, length,
  length-append, length-take_of_le, take, take_of_le, arith,
}
use jeos.Pipe.{
  Pipe, Outcome, running, returned, broken, Reader, Writer, read_pass, write_pass, fresh,
  start_read, start_write,
}
use jeos.Pipe.Inv.{contents, length-contents, contents-empty}
use jeos.Pipe.Pass.{Told, Read, read_pass-Read, Said, Wrote, write_pass-Wrote}
use jeos.Pipe.System.{
  System, start, Reach, here, next, read, write, Inv, Reach-Inv, after_read, after_write,
  read_step-running, write_step-running, reading, writing,
}
use jeos.Pipe.Transfer.{fifo}

-- One pass each, the writer's first.
abbrev round : System → System
round s = after_read (after_write s)

pub rounds : ℕ → System → System
rounds zero s = s
rounds (suc k) s = rounds k (round s)

-- `k` bytes have gone through, and both ends are open.
record Through (src : List ℕ) (k : ℕ) (s : System) : Type 0 where
  reach : Reach (start (length src) src) s
  written : s.writer.pos ≡ k
  arrived : length s.reader.dst ≡ k
  ends : (s.pipe.read_open ≡ 1) × (s.pipe.write_open ≡ 1)

still_writing :
    (w : Writer) (p : Pipe) (o : Outcome)
    → Said w p o
    → w.pos < length w.src
    → p.read_open ≡ 1
    → o ≡ running
still_writing w p running h more open_end = refl
still_writing w p (returned n) h more open_end = absurd (omega arith)
still_writing w p broken h more open_end = absurd (omega arith)

still_reading :
    (r : Reader) (p : Pipe) (o : Outcome)
    → Told r p o
    → length r.dst < r.len
    → p.write_open ≡ 1
    → o ≡ running
still_reading r p running h more open_end = refl
still_reading r p (returned n) h more open_end = absurd (omega arith)
still_reading r p broken h more open_end = elim h [ ]

-- The count of the bytes in flight.
in_flight :
    (len : ℕ) (src : List ℕ) (s : System)
    → Reach (start len src) s
    → s.writer.pos ≤ length src
    → length s.reader.dst + s.pipe.count ≡ s.writer.pos
in_flight len src s r short = omega (
  arith,
  ap length (fifo len src r),
  length-append {0} s.reader.dst (contents s.pipe),
  length-contents s.pipe,
  length-take_of_le s.writer.pos src short,
)

start-Through : (src : List ℕ) → Through src 0 (start (length src) src)
unfolding start start_read start_write fresh
start-Through src = record { reach = here; written = refl; arrived = refl; ends = (refl, refl) }

-- The writer's half of a round.
record Half (src : List ℕ) (k : ℕ) (s : System) : Type 0 where
  reach : Reach (start (length src) src) s
  written : s.writer.pos ≡ suc k
  arrived : length s.reader.dst ≡ k
  ends : (s.pipe.read_open ≡ 1) × (s.pipe.write_open ≡ 1)

module _ (src : List ℕ) (k : ℕ) (s : System) (more : k < length src) where
  write-Half : Through src k s → Half src k (after_write s)
  write-Half t = rw (write_step-running s.pipe s.writer going) (record {
    reach = rw (write_step-running s.pipe s.writer going) at (next t.reach (write s));
    written = elim (o.advanced) [
      | inl moved ↦ moved ∙ ap suc t.written
      | inr full ↦ absurd (
          omega (
            arith,
            t.written,
            t.arrived,
            in_flight (length src) src s t.reach (omega (arith, t.written)),
          ))
    ];
    arrived = t.arrived;
    ends = (o.ends.0 ∙ t.ends.0, o.ends.1 ∙ t.ends.1);
  })
    where
      i : Inv (length src) src s
      i = Reach-Inv t.reach

      going : s.writer.outcome ≡ running
      going =
          still_writing s.writer s.pipe s.writer.outcome i.said
            (omega (arith, t.written, ap length i.same_src)) t.ends.0

      o : Wrote s.pipe s.writer (write_pass s.pipe s.writer).0 (write_pass s.pipe s.writer).1
      o = write_pass-Wrote s.pipe s.writer i.valid (writing s i going)

  read-Through : Half src k s → Through src (suc k) (after_read s)
  read-Through t = rw (read_step-running s.pipe s.reader going) (record {
    reach = rw (read_step-running s.pipe s.reader going) at (next t.reach (read s));
    written = t.written;
    arrived = elim (o.advanced) [
      | inl moved ↦ moved ∙ ap suc t.arrived
      | inr none_left ↦ absurd (
          omega (
            arith,
            t.written,
            t.arrived,
            in_flight (length src) src s t.reach (omega (arith, t.written)),
          ))
    ];
    ends = (o.ends.0 ∙ t.ends.0, o.ends.1 ∙ t.ends.1);
  })
    where
      i : Inv (length src) src s
      i = Reach-Inv t.reach

      going : s.reader.outcome ≡ running
      going =
          still_reading s.reader s.pipe s.reader.outcome i.told
            (omega (arith, t.arrived, i.same_len)) t.ends.1

      o : Read s.pipe s.reader (read_pass s.pipe s.reader).0 (read_pass s.pipe s.reader).1
      o = read_pass-Read s.pipe s.reader i.valid (reading s i going)

rounds-Through :
    (src : List ℕ) (n k : ℕ) (s : System)
    → k + n ≡ length src
    → Through src k s
    → Through src (length src) (rounds n s)
unfolding rounds
rounds-Through src zero k s e t =
    let e' : k ≡ length src = omega arith in subst (λ m. Through src m s) e' t
rounds-Through src (suc n) k s e t =
    rounds-Through src n (suc k) (round s) (omega arith)
      (read-Through src k (after_write s) (omega arith) (write-Half src k s (omega arith) t))

-- The end of a call that has no byte left to move.
read_end_of :
    (r : Reader) (p : Pipe) (o : Outcome) → Told r p o → length r.dst ≡ r.len → o ≡ returned r.len
read_end_of r p running h e = absurd (omega arith)
read_end_of r p (returned n) h e = ap returned (h.0 ∙ e)
read_end_of r p broken h e = elim h [ ]

write_end_of :
    (w : Writer) (p : Pipe) (o : Outcome)
    → Said w p o
    → w.pos ≡ length w.src
    → o ≡ returned (length w.src)
write_end_of w p running h e = absurd (omega arith)
write_end_of w p (returned n) h e = ap returned h.0
write_end_of w p broken h e = absurd (omega arith)

-- Taking turns on a new pipe, a `pipe_write` of `src` and a `pipe_read` of as many bytes have both
-- returned after one round for each byte, and the reader has stored exactly `src`.
pub rounds_lem :
    (src : List ℕ)
    → let s = rounds (length src) (start (length src) src) in
      (s.reader.dst ≡ src)
      × (s.reader.outcome ≡ returned (length src))
      × (s.writer.outcome ≡ returned (length src))
rounds_lem src = (
  sym (append-nil s.reader.dst)
      ∙ ap (λ xs. s.reader.dst ++ xs) (sym (contents-empty s.pipe none_left))
      ∙ i.flow
      ∙ ap (λ k. take k src) t.written
      ∙ take_of_le (length src) src (omega arith),
  read_end_of s.reader s.pipe s.reader.outcome i.told (t.arrived ∙ sym i.same_len)
      ∙ ap returned i.same_len,
  write_end_of s.writer s.pipe s.writer.outcome i.said (t.written ∙ ap length (sym i.same_src))
      ∙ ap (λ xs. returned (length xs)) i.same_src,
)
  where
    s : System
    s = rounds (length src) (start (length src) src)

    t : Through src (length src) s
    t = rounds-Through src (length src) 0 (start (length src) src) (omega arith) (start-Through src)

    i : Inv (length src) src s
    i = Reach-Inv t.reach

    none_left : s.pipe.count ≡ 0
    none_left = omega (
      arith,
      t.written,
      t.arrived,
      in_flight (length src) src s t.reach (omega (arith, t.written)),
    )
