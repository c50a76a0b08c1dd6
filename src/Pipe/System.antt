-- ===== src/Pipe/System.antt =====
-- A reader and a writer at the two ends of a pipe, in any interleaving of their passes, and the
-- closing of the ends. Each end is closed once, by a process that has no call under way at it.

use jeos.Prelude.{
  ℕ, ◌≡◌, ◌≢◌, refl, sym, ap, ◌∙◌, ◌⊎◌, inl, inr, List, ◌++◌, ◌==◌, Bool-cases, length, take, arith,
}
use jeos.Pipe.{
  Pipe, Outcome, running, returned, broken, Reader, Writer, start_read, start_write, fresh,
  read_pass, write_pass, read_step, write_step, End, read_end, write_end, close,
}
use jeos.Pipe.Inv.{IsValid, contents, fresh-IsValid, contents-fresh}
use jeos.Pipe.Pass.{Reading, Writing, Told, Read, read_pass-Read, Said, Wrote, write_pass-Wrote}

pub record System : Type 0 where
  pub pipe : Pipe
  pub reader : Reader
  pub writer : Writer

-- The state in which a call of each kind begins on a new pipe.
unfoldable pub start : ℕ → List ℕ → System
start len src = record { pipe = fresh; reader = start_read len; writer = start_write src }

abbrev pub after_read : System → System
after_read s =
    let (p, r) = read_step s.pipe s.reader in record { pipe = p; reader = r; writer = s.writer }

abbrev pub after_write : System → System
after_write s =
    let (p, w) = write_step s.pipe s.writer in record { pipe = p; reader = s.reader; writer = w }

abbrev pub after_close : End → System → System
after_close e s = record s { pipe = (close e s.pipe).0 }

pub data Step : System → System → Type 0 where
  read : (s : System) → Step s (after_read s)
  write : (s : System) → Step s (after_write s)
  close_read :
      (s : System)
      → s.pipe.read_open ≡ 1
      → s.reader.outcome ≢ running
      → Step s (after_close read_end s)
  close_write :
      (s : System)
      → s.pipe.write_open ≡ 1
      → s.writer.outcome ≢ running
      → Step s (after_close write_end s)

pub data Reach (s : System) : System → Type 0 where
  here : Reach s s
  next : {t u : System} → Reach s t → Step t u → Reach s u

-- What a call at one end may assume of the other end.
pub record Inv (len : ℕ) (src : List ℕ) (s : System) : Type 0 where
  pub valid : IsValid s.pipe
  pub flow : s.reader.dst ++ contents s.pipe ≡ take s.writer.pos src
  pub told : Told s.reader s.pipe s.reader.outcome
  pub said : Said s.writer s.pipe s.writer.outcome
  pub same_len : s.reader.len ≡ len
  pub same_src : s.writer.src ≡ src
  pub quiet_reader : s.pipe.read_open ≡ 0 → s.reader.outcome ≢ running
  pub quiet_writer : s.pipe.write_open ≡ 0 → s.writer.outcome ≢ running

pub read_step-running :
    (p : Pipe) (r : Reader) → r.outcome ≡ running → read_step p r ≡ read_pass p r
unfolding read_step
read_step-running p r e = ground arith

read_step-idle : (p : Pipe) (r : Reader) → r.outcome ≢ running → read_step p r ≡ (p, r)
unfolding read_step
read_step-idle p r ne = ground arith

pub write_step-running :
    (p : Pipe) (w : Writer) → w.outcome ≡ running → write_step p w ≡ write_pass p w
unfolding write_step
write_step-running p w e = ground arith

write_step-idle : (p : Pipe) (w : Writer) → w.outcome ≢ running → write_step p w ≡ (p, w)
unfolding write_step
write_step-idle p w ne = ground arith

-- What a call has been told stays true while the pipe is empty and its writer gone.
Told-keep :
    (r : Reader) (p p' : Pipe) (o : Outcome)
    → (p.count ≡ 0 → p.write_open ≡ 0 → (p'.count ≡ 0) × (p'.write_open ≡ 0))
    → Told r p o
    → Told r p' o
Told-keep r p p' running keep h = h
Told-keep r p p' broken keep h = elim h [ ]
Told-keep r p p' (returned n) keep (e, inl all) = (e, inl all)
Told-keep r p p' (returned n) keep (e, inr (short, none_left, gone)) =
    let (c, o) = keep none_left gone in (e, inr (short, c, o))

Said-keep :
    (w : Writer) (p p' : Pipe) (o : Outcome)
    → (p.read_open ≡ 0 → p'.read_open ≡ 0)
    → Said w p o
    → Said w p' o
Said-keep w p p' running keep h = h
Said-keep w p p' (returned n) keep h = h
Said-keep w p p' broken keep (h, gone) = (h, keep gone)

start-Inv : (len : ℕ) (src : List ℕ) → Inv len src (start len src)
unfolding start start_read start_write fresh
start-Inv len src = record {
  valid = fresh-IsValid;
  flow = contents-fresh;
  told = elim (Bool-cases (0 == len)) [
    | inl e ↦ rw e (refl, inl (ground arith))
    | inr e ↦ rw e (ground arith)
  ];
  said = elim (Bool-cases (0 == length src)) [
    | inl e ↦ rw e (ground arith, ground arith)
    | inr e ↦ rw e (ground arith)
  ];
  same_len = refl;
  same_src = refl;
  quiet_reader = ground arith;
  quiet_writer = ground arith;
}

module _ {len : ℕ} {src : List ℕ} (s : System) (i : Inv len src s) where
  pub reading : s.reader.outcome ≡ running → Reading s.reader
  reading e = record { more = rw e at i.told; going = e }

  pub writing : s.writer.outcome ≡ running → Writing s.writer
  writing e = record { more = rw e at i.said; going = e }

  read_pass-Inv :
      s.reader.outcome ≡ running
      → let (p, r) = read_pass s.pipe s.reader in
        Inv len src (record { pipe = p; reader = r; writer = s.writer })
  read_pass-Inv e = record {
    valid = o.valid;
    flow = o.kept ∙ i.flow;
    told = o.told;
    said = Said-keep s.writer s.pipe p' s.writer.outcome (λ h. o.ends.0 ∙ h) i.said;
    same_len = o.same_len ∙ i.same_len;
    same_src = i.same_src;
    quiet_reader = λ h. absurd (i.quiet_reader (sym o.ends.0 ∙ h) e);
    quiet_writer = λ h. i.quiet_writer (sym o.ends.1 ∙ h);
  }
    where
      p' : Pipe
      p' = (read_pass s.pipe s.reader).0

      o : Read s.pipe s.reader (read_pass s.pipe s.reader).0 (read_pass s.pipe s.reader).1
      o = read_pass-Read s.pipe s.reader i.valid (reading e)

  write_pass-Inv :
      s.writer.outcome ≡ running
      → let (p, w) = write_pass s.pipe s.writer in
        Inv len src (record { pipe = p; reader = s.reader; writer = w })
  write_pass-Inv e = record {
    valid = o.valid;
    flow =
        o.sent s.reader.dst (i.flow ∙ ap (take s.writer.pos) (sym i.same_src))
        ∙ ap (take w'.pos) (o.same_src ∙ i.same_src);
    told =
        Told-keep s.reader s.pipe p' s.reader.outcome (λ _ gone. absurd (i.quiet_writer gone e))
          i.told;
    said = o.said;
    same_len = i.same_len;
    same_src = o.same_src ∙ i.same_src;
    quiet_reader = λ h. i.quiet_reader (sym o.ends.0 ∙ h);
    quiet_writer = λ h. absurd (i.quiet_writer (sym o.ends.1 ∙ h) e);
  }
    where
      p' : Pipe
      p' = (write_pass s.pipe s.writer).0

      w' : Writer
      w' = (write_pass s.pipe s.writer).1

      o : Wrote s.pipe s.writer (write_pass s.pipe s.writer).0 (write_pass s.pipe s.writer).1
      o = write_pass-Wrote s.pipe s.writer i.valid (writing e)

  close_read-Inv :
      s.pipe.read_open ≡ 1 → s.reader.outcome ≢ running → Inv len src (after_close read_end s)
  unfolding close contents
  close_read-Inv h quiet = record {
    valid = record { storage = i.valid.storage; room = i.valid.room; behind = i.valid.behind };
    flow = i.flow;
    told =
        Told-keep s.reader s.pipe (close read_end s.pipe).0 s.reader.outcome (λ c o. (c, o)) i.told;
    said =
        Said-keep s.writer s.pipe (close read_end s.pipe).0 s.writer.outcome
          (λ gone. absurd (omega arith)) i.said;
    same_len = i.same_len;
    same_src = i.same_src;
    quiet_reader = λ _. quiet;
    quiet_writer = i.quiet_writer;
  }

  close_write-Inv :
      s.pipe.write_open ≡ 1 → s.writer.outcome ≢ running → Inv len src (after_close write_end s)
  unfolding close contents
  close_write-Inv h quiet = record {
    valid = record { storage = i.valid.storage; room = i.valid.room; behind = i.valid.behind };
    flow = i.flow;
    told =
        Told-keep s.reader s.pipe (close write_end s.pipe).0 s.reader.outcome
          (λ _ gone. absurd (omega arith)) i.told;
    said =
        Said-keep s.writer s.pipe (close write_end s.pipe).0 s.writer.outcome (λ gone. gone) i.said;
    same_len = i.same_len;
    same_src = i.same_src;
    quiet_reader = i.quiet_reader;
    quiet_writer = λ _. quiet;
  }

Outcome-cases : (o : Outcome) → (o ≡ running) ⊎ (o ≢ running)
Outcome-cases running = inl refl
Outcome-cases (returned n) = inr (λ e. cc)
Outcome-cases broken = inr (λ e. cc)

pub Step-Inv : {len : ℕ} {src : List ℕ} {s t : System} → Step s t → Inv len src s → Inv len src t
Step-Inv (read s) i = elim (Outcome-cases s.reader.outcome) [
  | inl e ↦ rw (read_step-running s.pipe s.reader e) (read_pass-Inv s i e)
  | inr ne ↦ rw (read_step-idle s.pipe s.reader ne) i
]
Step-Inv (write s) i = elim (Outcome-cases s.writer.outcome) [
  | inl e ↦ rw (write_step-running s.pipe s.writer e) (write_pass-Inv s i e)
  | inr ne ↦ rw (write_step-idle s.pipe s.writer ne) i
]
Step-Inv (close_read s h q) i = close_read-Inv s i h q
Step-Inv (close_write s h q) i = close_write-Inv s i h q

pub Reach-Inv : {len : ℕ} {src : List ℕ} {s : System} → Reach (start len src) s → Inv len src s
Reach-Inv {len} {src} here = start-Inv len src
Reach-Inv (next r st) = Step-Inv st (Reach-Inv r)
