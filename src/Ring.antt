-- ===== src/Ring.antt =====
-- The byte ring of kernel/ring.h, which the keyboard and the mouse write and the console reads.
-- A function that updates `*r` returns the new ring. A byte is a number; the caller's array is the
-- list of its bytes, and a `u32` keeps its wrap.
pub mod Inv
pub mod History
pub mod Write
pub mod Puts
pub mod Read
mod Tests
use jeos.Prelude.{
  ℕ, zero, suc, ◌+◌, ◌-◌, ◌%◌, ◌^◌, List, [], ◌∷◌, ltb, leb, ◌==◌, if◌then◌else◌, get_or, set, drop,
}

pub record Ring : Type 0 where
  pub buf : List ℕ
  pub cap : ℕ
  pub head : ℕ
  pub len : ℕ

unfoldable pub init : List ℕ → ℕ → Ring
init storage capacity = record { buf = storage; cap = capacity; head = 0; len = 0 }

-- `u32` addition.
abbrev pub add_u32 : ℕ → ℕ → ℕ
add_u32 a b = (a + b) % 2 ^ 32

pub putc : Ring → ℕ → Ring
putc r c =
    let head = add_u32 r.head 1 in
    record r {
      buf = set r.buf r.head c;
      head = if head == r.cap then 0 else head;
      len = if ltb r.len r.cap then add_u32 r.len 1 else r.len;
    }

-- `for (i = 0; i < r->cap; i++) r->buf[i] = data[i]`, with `rounds` to go.
pub fill : (rounds i : ℕ) → List ℕ → List ℕ → List ℕ
fill zero i buf src = buf
fill (suc k) i buf src = fill k (i + 1) (set buf i (get_or src i 0)) src

-- `for (i = 0; i < n; i++) ring_putc(r, data[i])`, with `rounds` to go.
pub put_all : (rounds i : ℕ) → List ℕ → Ring → Ring
put_all zero i src r = r
put_all (suc k) i src r = put_all k (i + 1) src (putc r (get_or src i 0))

pub write : Ring → List ℕ → ℕ → Ring
unfolding fill put_all
write r src n =
    if leb r.cap n
    then record r { buf = fill r.cap 0 r.buf (drop (n - r.cap) src); head = 0; len = r.cap }
    else put_all n 0 src r

-- The index of the oldest byte.
pub oldest : Ring → ℕ
oldest r = if leb r.len r.head then r.head - r.len else r.cap - (r.len - r.head)

-- The `while (i < n)` of `ring_read`: what it stores in `out`.
pub copy_out : (rounds idx : ℕ) → Ring → List ℕ
copy_out zero idx r = []
copy_out (suc k) idx r =
    get_or r.buf idx 0 ∷ copy_out k (if add_u32 idx 1 == r.cap then 0 else add_u32 idx 1) r

-- The bytes read, their number the length of the list, and the ring after it.
pub read : Ring → ℕ → List ℕ × Ring
read r out_cap =
    let n = if ltb out_cap r.len then out_cap else r.len in
    if n == 0 then ([], r) else (copy_out n (oldest r) r, record r { len = r.len - n })
