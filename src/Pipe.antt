-- ===== src/Pipe.antt =====
-- The pipe of kernel/pipe.c. `pipe_read` and `pipe_write` hold the lock for one byte at a time and
-- yield in between, so each is modelled as a call in progress and the pass that it makes under the
-- lock: one round of its `while`, or one look at an empty or full pipe before the next yield.
pub mod Inv
pub mod Pass
pub mod System
pub mod Transfer
pub mod Rounds
pub mod Creation
mod Tests
use jeos.Prelude.{
  ℕ, ◌+◌, ◌-◌, ◌%◌, ◌^◌, Bool, true, false, ◌&&◌, Option, none, some, List, [], ◌∷◌, ◌++◌, ◌==◌,
  if◌then◌else◌, length, get_or, set, replicate,
}

abbrev pub pipe_buf : ℕ
pipe_buf = 4096

-- The `int` fields are their 32 bits. The spinlock is not a field: a pass is atomic.
pub record Pipe : Type 0 where
  pub buf : List ℕ
  pub read_pos : ℕ
  pub write_pos : ℕ
  pub count : ℕ
  pub read_open : ℕ
  pub write_open : ℕ

-- The structure as `pipe_create` sets it up: zeroed, with both ends open.
unfoldable pub fresh : Pipe
fresh = record {
  buf = replicate pipe_buf 0;
  read_pos = 0;
  write_pos = 0;
  count = 0;
  read_open = 1;
  write_open = 1;
}

-- What a call returns.
pub data Outcome : Type 0 where
  running : Outcome
  returned : ℕ → Outcome
  broken : Outcome

-- A `pipe_read(f, buf, len)` that has stored `dst`; its `n` is the length of `dst`.
pub record Reader : Type 0 where
  pub len : ℕ
  pub dst : List ℕ
  pub outcome : Outcome

-- A `pipe_write(f, src, len)` that has written the first `pos` bytes of `src`.
pub record Writer : Type 0 where
  pub src : List ℕ
  pub pos : ℕ
  pub outcome : Outcome

unfoldable pub start_read : ℕ → Reader
start_read len = record { len = len; dst = []; outcome = if 0 == len then returned 0 else running }

unfoldable pub start_write : List ℕ → Writer
start_write src = record {
  src = src;
  pos = 0;
  outcome = if 0 == length src then returned 0 else running;
}

-- The byte that a reader takes, and the pipe without it.
pub take_byte : Pipe → ℕ × Pipe
take_byte p = (
  get_or p.buf (p.read_pos % pipe_buf) 0,
  record p { read_pos = (p.read_pos + 1) % 2 ^ 32; count = (p.count + 2 ^ 32 - 1) % 2 ^ 32 },
)

pub put_byte : Pipe → ℕ → Pipe
put_byte p c = record p {
  buf = set p.buf (p.write_pos % pipe_buf) c;
  write_pos = (p.write_pos + 1) % 2 ^ 32;
  count = (p.count + 1) % 2 ^ 32;
}

-- The end of a round: the loop's test.
pub read_on : Reader → Reader
read_on r = record r {
  outcome = if length r.dst == r.len then returned (length r.dst) else running;
}

pub write_on : Writer → Writer
write_on w = record w {
  outcome = if w.pos == length w.src then returned (length w.src) else running;
}

-- One pass of a running `pipe_read`.
pub read_pass : Pipe → Reader → Pipe × Reader
read_pass p r =
    if p.count == 0
    then (if p.write_open == 0 then (p, record r { outcome = returned (length r.dst) }) else (p, r))
    else (let (c, p') = take_byte p in (p', read_on (record r { dst = r.dst ++ (c ∷ []) })))

-- One pass of a running `pipe_write`.
pub write_pass : Pipe → Writer → Pipe × Writer
write_pass p w =
    if p.count == pipe_buf
    then (if p.read_open == 0 then (p, record w { outcome = broken }) else (p, w))
    else (put_byte p (get_or w.src w.pos 0), write_on (record w { pos = w.pos + 1 }))

-- A call that has returned makes no more passes.
pub read_step : Pipe → Reader → Pipe × Reader
read_step p r = elim (r.outcome) [ running ↦ read_pass p r | _ ↦ (p, r) ]

pub write_step : Pipe → Writer → Pipe × Writer
write_step p w = elim (w.outcome) [ running ↦ write_pass p w | _ ↦ (p, w) ]

-- Which end a file stands for: the tag in its inode.
pub data End : Type 0 where
  read_end : End
  write_end : End

-- `pipe_close`: the pipe after it, and whether its page is freed.
pub close : End → Pipe → Pipe × Bool
close write_end p =
    let p' = record p { write_open = (p.write_open + 2 ^ 32 - 1) % 2 ^ 32 } in
    (p', (p'.read_open == 0) && (p'.write_open == 0))
close read_end p =
    let p' = record p { read_open = (p.read_open + 2 ^ 32 - 1) % 2 ^ 32 } in
    (p', (p'.read_open == 0) && (p'.write_open == 0))
