-- ===== src/Pipe/Transfer.antt =====
-- What a reader and a writer can rely on, whatever the interleaving.
use mathlib.Core.List.{append-nil}
use jeos.Prelude.{
  ℕ, suc, subst, ◌<◌, ◌≡◌, ◌≢◌, sym, ap, ◌∙◌, ◌⊎◌, inl, inr, List, ◌++◌, length, take, take_of_le,
  arith,
}
use jeos.Pipe.{Pipe, Outcome, running, returned, broken, Reader}
use jeos.Pipe.Inv.{contents, contents-empty}
use jeos.Pipe.Pass.{Told, read_pass-Read, Said, write_pass-Wrote}
use jeos.Pipe.System.{
  System, start, Reach, Inv, Reach-Inv, after_read, after_write, read_step-running,
  write_step-running, reading, writing,
}

Told-returned :
    (r : Reader) (p : Pipe) (o : Outcome) (n : ℕ)
    → o ≡ returned n
    → Told r p o
    → Told r p (returned n)
Told-returned r p o n e h = subst (Told r p) e h

-- First in, first out: in every state that one reader and one writer on a new pipe reach, by passes
-- and by closing an end at which no call is under way, what was read, followed by what is in flight, is
-- what was written so far. No byte is lost, doubled or moved, whatever the interleaving.
pub fifo :
    (len : ℕ) (src : List ℕ) {s : System}
    → Reach (start len src) s
    → s.reader.dst ++ contents s.pipe ≡ take s.writer.pos src
fifo len src r = (Reach-Inv r).flow

-- A `pipe_read` that has returned `n`, in a reachable state, has stored `n` bytes. It was asked for as many, or the writer
-- is done and the reader has all that was written.
pub read_result :
    (len : ℕ) (src : List ℕ) {s : System}
    → Reach (start len src) s
    → (n : ℕ) → s.reader.outcome ≡ returned n
    → (n ≡ length s.reader.dst)
      × ((n ≡ len) ⊎ (s.reader.dst ≡ take s.writer.pos src) × (s.writer.outcome ≢ running))
read_result len src {s} r n e = elim told.1 [
  | inl all ↦ (told.0, inl (all ∙ i.same_len))
  | inr (short, none_left, gone) ↦ (
    told.0,
    inr (
      sym (append-nil s.reader.dst)
          ∙ ap (λ xs. s.reader.dst ++ xs) (sym (contents-empty s.pipe none_left))
          ∙ i.flow,
      i.quiet_writer gone,
    ),
  )
]
  where
    i : Inv len src s
    i = Reach-Inv r

    told : Told s.reader s.pipe (returned n)
    told = Told-returned s.reader s.pipe s.reader.outcome n e i.told

-- A `pipe_write` that has returned `n`, in a reachable state, was asked for `n` bytes and has sent them all: what the
-- reader has, followed by what is in flight, is the whole of its buffer.
pub write_result :
    (len : ℕ) (src : List ℕ) {s : System}
    → Reach (start len src) s
    → (n : ℕ) → s.writer.outcome ≡ returned n
    → (n ≡ length src) × (s.reader.dst ++ contents s.pipe ≡ src)
write_result len src {s} r n e = (
  said.0 ∙ ap length i.same_src,
  i.flow
      ∙ ap (λ k. take k src) (said.1 ∙ ap length i.same_src)
      ∙ take_of_le (length src) src (omega arith),
)
  where
    i : Inv len src s
    i = Reach-Inv r

    said : Said s.writer s.pipe (returned n)
    said = subst (Said s.writer s.pipe) e i.said

-- A `pipe_write` that has failed has bytes left to write, its read end is closed, and no read is
-- under way.
pub write_broken :
    (len : ℕ) (src : List ℕ) {s : System}
    → Reach (start len src) s
    → s.writer.outcome ≡ broken
    → (s.writer.pos < length src) × (s.pipe.read_open ≡ 0) × (s.reader.outcome ≢ running)
write_broken len src {s} r e =
    (omega (arith, said.0, ap length i.same_src), said.1, i.quiet_reader said.1)
  where
    i : Inv len src s
    i = Reach-Inv r

    said : Said s.writer s.pipe broken
    said = subst (Said s.writer s.pipe) e i.said

-- In every reachable state in which both calls run, the next pass of one of them moves a byte: the two never wait for each
-- other.
pub no_deadlock :
    (len : ℕ) (src : List ℕ) {s : System}
    → Reach (start len src) s
    → s.reader.outcome ≡ running
    → s.writer.outcome ≡ running
    → (length (after_read s).reader.dst ≡ suc (length s.reader.dst))
      ⊎ ((after_write s).writer.pos ≡ suc s.writer.pos)
no_deadlock len src {s} r er ew =
    rw (read_step-running s.pipe s.reader er, write_step-running s.pipe s.writer ew)
      (ground (
        arith,
        (read_pass-Read s.pipe s.reader i.valid (reading s i er)).advanced,
        (write_pass-Wrote s.pipe s.writer i.valid (writing s i ew)).advanced,
      ))
  where
    i : Inv len src s
    i = Reach-Inv r
