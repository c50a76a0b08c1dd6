-- ===== src/Pipe/Tests.antt =====
-- Runs of a reader and a writer on a new pipe.
use jeos.Prelude.{ℕ, none, suc, ◌≡◌, ◌⊎◌, refl, List, [], ◌∷◌, ◌++◌, length, take, arith}
use jeos.Pipe.{
  start_read, start_write, fresh, read_step, write_step, read_pass, write_pass, take_byte, put_byte,
  read_on, write_on, running, returned,
}
use jeos.Pipe.Inv.{contents}
use jeos.Pipe.System.{System, start, Reach, here, next, read, write, after_read, after_write}
use jeos.Pipe.Transfer.{fifo, no_deadlock}
use jeos.Vfs.{put_at}
use jeos.Pipe.Creation.{Pool, alloc_one, make_pipe_end, pipe_create, total, pipe_create-total}
use jeos.Pipe.Rounds.{rounds, rounds_lem}

abbrev hello : List ℕ
hello = 104 ∷ 105 ∷ []

-- The writer has written one byte.
abbrev one_sent : System
one_sent = after_write (start 1 hello)

one_sent-Reach : Reach (start 1 hello) one_sent
one_sent-Reach = next here (write (start 1 hello))

-- The reader has returned with it, and the writer has sent the other.
abbrev two_sent : System
two_sent = after_write (after_read one_sent)

two_sent-Reach : Reach (start 1 hello) two_sent
two_sent-Reach = next (next one_sent-Reach (read one_sent)) (write (after_read one_sent))

read_done : two_sent.reader.outcome ≡ returned 1
unfolding start start_read start_write fresh read_step write_step read_pass write_pass take_byte
    put_byte read_on write_on
read_done = refl

write_done : two_sent.writer.outcome ≡ returned 2
unfolding start start_read start_write fresh read_step write_step read_pass write_pass take_byte
    put_byte read_on write_on
write_done = refl

still_reading : one_sent.reader.outcome ≡ running
unfolding start start_read start_write fresh read_step write_step read_pass write_pass take_byte
    put_byte read_on write_on
still_reading = refl

still_writing : one_sent.writer.outcome ≡ running
unfolding start start_read start_write fresh read_step write_step read_pass write_pass take_byte
    put_byte read_on write_on
still_writing = refl

fifo_example : two_sent.reader.dst ++ contents two_sent.pipe ≡ take two_sent.writer.pos hello
fifo_example = fifo 1 hello two_sent-Reach

no_deadlock_example :
    (length (after_read one_sent).reader.dst ≡ suc (length one_sent.reader.dst))
    ⊎ ((after_write one_sent).writer.pos ≡ suc one_sent.writer.pos)
no_deadlock_example = no_deadlock 1 hello one_sent-Reach still_reading still_writing

rounds_lem_example :
    ((rounds 2 (start 2 hello)).reader.dst ≡ hello)
    × ((rounds 2 (start 2 hello)).reader.outcome ≡ returned 2)
    × ((rounds 2 (start 2 hello)).writer.outcome ≡ returned 2)
rounds_lem_example = rounds_lem hello

-- Four pages, one less than a pipe takes.
abbrev scarce : Pool
scarce = record {
  pages = 10 ∷ 11 ∷ 12 ∷ 13 ∷ [];
  freed = [];
  pipes = λ p. fresh;
  inodes = λ i. record { fops = 0; priv = 0; ino = 0; refcnt = 0 };
  files = λ f. record { refcnt = 0; flags = 0; pos = 0; inode = 0; fops = 0 };
}

emptied : Pool
emptied = (pipe_create 1 2 scarce).1

failed_create : pipe_create 1 2 scarce ≡ (none, emptied)
unfolding emptied pipe_create make_pipe_end alloc_one put_at
failed_create = refl

all_back : emptied.freed ≡ 10 ∷ 12 ∷ 11 ∷ 13 ∷ []
unfolding emptied pipe_create make_pipe_end alloc_one put_at
all_back = refl

pipe_create-total_example : total 11 emptied ≡ total 11 scarce
pipe_create-total_example = pipe_create-total 1 2 11 scarce emptied failed_create (omega arith)
