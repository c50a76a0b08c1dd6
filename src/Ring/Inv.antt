-- ===== src/Ring/Inv.antt =====
-- What holds of every ring between two calls, and what a ring holds.
use jeos.Prelude.{
  ℕ, zero, suc, ◌+◌, ◌-◌, ◌^◌, ◌≤◌, ◌<◌, ◌≡◌, refl, ◌∙◌, List, drop, length, length-set, get_or,
  arith,
}
use jeos.Prelude.Circular.{window}
use jeos.Ring.{Ring, init, putc, write, read, oldest, fill, put_all}

pub record IsValid (r : Ring) : Type 0 where
  pub storage : r.cap ≤ length r.buf
  pub nonempty : 0 < r.cap
  pub small : r.cap < 2 ^ 32
  pub head_in : r.head < r.cap
  pub len_in : r.len ≤ r.cap

-- The bytes from the oldest to the newest.
unfoldable pub contents : Ring → List ℕ
unfolding oldest
contents r = window r.buf r.cap (oldest r) r.len

pub init-IsValid :
    (storage : List ℕ) (cap : ℕ)
    → 0 < cap
    → cap < 2 ^ 32
    → cap ≤ length storage
    → IsValid (init storage cap)
unfolding init
init-IsValid storage cap pos small fits = ground arith

pub putc-IsValid : (r : Ring) (c : ℕ) → IsValid r → IsValid (putc r c)
unfolding putc
putc-IsValid r c v = ground (arith, length-set r.buf r.head c)

pub cap-putc : (r : Ring) (c : ℕ) → (putc r c).cap ≡ r.cap
unfolding putc
cap-putc r c = refl

pub length-fill : (k i : ℕ) (buf src : List ℕ) → length (fill k i buf src) ≡ length buf
unfolding fill
length-fill zero i buf src = refl
length-fill (suc k) i buf src = length-fill k (i + 1) _ src ∙ length-set buf i _

pub put_all-IsValid : (k i : ℕ) (src : List ℕ) (r : Ring) → IsValid r → IsValid (put_all k i src r)
unfolding put_all
put_all-IsValid zero i src r v = v
put_all-IsValid (suc k) i src r v = put_all-IsValid k (i + 1) src _ (putc-IsValid r _ v)

-- `ring_write` of any number of bytes keeps a ring well formed: its indices inside the capacity, the
-- capacity inside the storage.
pub write-IsValid : (r : Ring) (src : List ℕ) (n : ℕ) → IsValid r → IsValid (write r src n)
unfolding write
write-IsValid r src n v =
    ground (arith, length-fill r.cap 0 r.buf (drop (n - r.cap) src), put_all-IsValid n 0 src r v)

pub read-IsValid : (r : Ring) (n : ℕ) → IsValid r → IsValid (read r n).1
unfolding read
read-IsValid r n v = ground arith

cap-put_all : (k i : ℕ) (src : List ℕ) (r : Ring) → (put_all k i src r).cap ≡ r.cap
unfolding put_all
cap-put_all zero i src r = refl
cap-put_all (suc k) i src r =
    cap-put_all k (i + 1) src (putc r (get_or src i 0)) ∙ cap-putc r (get_or src i 0)

pub cap-write : (r : Ring) (src : List ℕ) (n : ℕ) → (write r src n).cap ≡ r.cap
unfolding write
cap-write r src n = ground (arith, cap-put_all n 0 src r)
