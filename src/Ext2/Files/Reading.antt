-- ===== src/Ext2/Files/Reading.antt =====
-- What `ext2_read` returns.
use Prim.Native.Nat.{◌*◌, ◌^◌}
use native.Mathlib.Nat.{
  mod-eq_of_lt, mod-lt, div-eq_of_lt, div-add-mod, div-add-mod', div-lt_iff_lt-mul,
  mul-add-div_right, mul_comm,
}
use jeos.Prelude.{
  ℕ, zero, suc, ◌+◌, ◌-◌, ◌/◌, ◌%◌, ◌≤◌, ◌<◌, ◌≡◌, ◌≢◌, refl, sym, ap, ap₂, ◌∙◌, some, [], ◌∷◌,
  ◌++◌, length, get_or, ltb, leb, if◌then◌else◌, dec_lt, lt→ltb, false, min, arith,
}
use jeos.Ext2.{Bytes, Priv, DiskInode, kalloc_page, fresh_page}
use jeos.Ext2.Tree.{file_blocks}
use jeos.Ext2.Files.{no_block, bytes_from, slice, read_loop, file_size, ext2_read}
use jeos.Ext2.Files.Loading.{Answers, Mapped, file_byte, Cached, load-Cached}

bytes_from-append :
    (f : ℕ → ℕ) (k m n : ℕ) → bytes_from f k (m + n) ≡ bytes_from f k m ++ bytes_from f (k + m) n
unfolding bytes_from
bytes_from-append f k zero n = ap₂ (λ a b. bytes_from f a b) (omega arith) (omega arith)
bytes_from-append f k (suc m) n =
    ap (λ l. bytes_from f k l) {y = suc (m + n)} (omega arith)
    ∙ ap (λ r. f k ∷ r)
        (bytes_from-append f (k + 1) m n
          ∙ ap (λ a. bytes_from f (k + 1) m ++ bytes_from f a n) (omega arith))

bytes_from_none : (f : ℕ → ℕ) (k n : ℕ) → n ≡ 0 → [] ≡ bytes_from f k n
unfolding bytes_from
bytes_from_none f k zero h = refl
bytes_from_none f k (suc n) h = absurd (omega arith)

pub length-bytes_from : (f : ℕ → ℕ) (k n : ℕ) → length (bytes_from f k n) ≡ n
unfolding bytes_from
length-bytes_from f k zero = refl
length-bytes_from f k (suc n) = ap suc (length-bytes_from f (k + 1) n)

pub div_at : (q m r : ℕ) → r < m → (q * m + r) / m ≡ q
div_at q m r h = mul-add-div_right {m = m} (omega arith) q r ∙ omega (arith, div-eq_of_lt h)

pub mod_at : (q m r : ℕ) → r < m → (q * m + r) % m ≡ r
mod_at q m r h =
    let back : m * q + (q * m + r) % m ≡ q * m + r =
      ap (λ x. m * x + (q * m + r) % m) (sym (div_at q m r h)) ∙ div-add-mod (q * m + r) m in
    omega (arith, back, mul_comm m q)

module _ (p : Priv) (ei : DiskInode) (disk : (blk i : ℕ) → ℕ) where
  slice-bytes_from :
      (lbn : ℕ) (buf : Bytes) (start n : ℕ)
      → Cached p ei disk lbn buf
      → start + n ≤ p.block_size
      → slice buf start n ≡ bytes_from (file_byte p ei disk) (lbn * p.block_size + start) n
  unfolding bytes_from Cached
  slice-bytes_from lbn buf start zero cached h = refl
  slice-bytes_from lbn buf start (suc n) cached h =
      let bs = p.block_size in
      let here : get_or buf start 0 ≡ file_byte p ei disk (lbn * bs + start) =
        cached start (omega arith)
        ∙ ap₂ (λ q r. disk (get_or (file_blocks p ei) q 0) r)
            (sym (div_at lbn bs start (omega arith))) (sym (mod_at lbn bs start (omega arith))) in
      ap₂ ◌∷◌ here (
        slice-bytes_from lbn buf (start + 1) n cached (omega arith)
        ∙ ap (λ k. bytes_from (file_byte p ei disk) k n) (omega arith))

  module _ (blocks : ℕ) (answers : Answers p disk) (mapped : Mapped p ei blocks) where
    read_loop_lem :
        (k off count done cur_blk : ℕ) (buf : Bytes) (pages : ℕ)
        → count ≤ done + k
        → done ≤ count
        → 0 < p.block_size
        → off + count ≤ blocks * p.block_size
        → off + count < 2 ^ 64
        → 0 < pages
        → (cur_blk ≢ no_block → Cached p ei disk cur_blk buf)
        → read_loop k p ei off count done cur_blk buf pages
          ≡ (bytes_from (file_byte p ei disk) (off + done) (count - done), pages)
    unfolding read_loop
    read_loop_lem zero off count done cur_blk buf pages enough le pos inside fits free cached =
        ap (λ r. (r, pages))
          (bytes_from_none (file_byte p ei disk) (off + done) (count - done) (omega arith))
    read_loop_lem (suc k) off count done cur_blk buf pages enough le pos inside fits free cached =
        elim (dec_lt done count) [
          | no n ↦ ground (arith, bytes_from_none (file_byte p ei disk) (off + done) (count - done))
          | yes more ↦
              let bs = p.block_size in
              let at = off + done in
              let lbn = at / bs in
              let whole = bs - at % bs in
              let chunk = if ltb (count - done) whole then count - done else whole in
              let low : at % bs < bs = mod-lt at pos in
              let lbn_lt : lbn < blocks =
                (div-lt_iff_lt-mul {k = bs} {x = at} {y = blocks} pos).1 (omega arith) in
              let at_eq : at % 2 ^ 64 ≡ at = mod-eq_of_lt (omega arith) in
              let lbn_eq : lbn % 2 ^ 32 ≡ lbn = mod-eq_of_lt (omega (arith, mapped.below_none)) in
              let (read, loaded, held) =
                load-Cached p ei disk blocks answers mapped lbn cur_blk buf pages lbn_lt free
                  cached in
              let rest =
                read_loop_lem k off count (done + chunk) lbn read pages (ground arith)
                  (ground arith) pos inside fits free (λ _. held) in
              let part = slice-bytes_from lbn read (at % bs) chunk held (ground arith) in
              let f = file_byte p ei disk in
              let join : slice read (at % bs) chunk
                    ++ bytes_from f (off + (done + chunk)) (count - (done + chunk))
                  ≡ bytes_from f at (count - done) =
                ap₂ ◌++◌ (part ∙ ap (λ a. bytes_from f a chunk) (div-add-mod' at bs))
                  (ap₂ (λ a b. bytes_from f a b) (omega arith) (omega arith))
                ∙ sym (bytes_from-append f at chunk (count - done - chunk))
                ∙ ap (λ l. bytes_from f at l) (ground arith) in
              rw (lt→ltb done count more, at_eq, lbn_eq, loaded, at_eq, lbn_eq, loaded, rest)
                (ap (λ r. (r, pages)) join)
        ]

    -- `ext2_read` returns the bytes of the file from the offset on, as many as were asked for or as
    -- there are up to the end of the file, moves the offset behind them and gives every page back: on a
    -- device that answers, for a file without holes whose blocks the block map reaches, and with two
    -- pages free.
    pub ext2_read-bytes_from :
        (off count pages : ℕ)
        → 0 < p.block_size
        → file_size ei ≤ blocks * p.block_size
        → off + count < 2 ^ 64
        → 1 < pages
        → let n = min count (file_size ei - off) in
          ext2_read p ei off count pages
          ≡ (some (bytes_from (file_byte p ei disk) off n), off + n, pages)
    unfolding ext2_read
    ext2_read-bytes_from off count pages pos size fits free =
        let f = file_byte p ei disk in
        let n = min count (file_size ei - off) in
        elim (dec_lt off (file_size ei)) [
          | no behind ↦ ground (arith, bytes_from_none f off n)
          | yes inside ↦
              let clip : (if ltb (file_size ei) ((off + count) % 2 ^ 64)
                    then file_size ei - off
                    else count)
                  ≡ n =
                ground (arith, mod-eq_of_lt fits) in
              let before : leb (file_size ei) off ≡ false = ground arith in
              let page : kalloc_page pages ≡ some (pages - 1) = ground arith in
              let run : read_loop n p ei off n 0 no_block fresh_page (pages - 1)
                  ≡ (bytes_from f off n, pages - 1) =
                read_loop_lem n off n 0 no_block fresh_page (pages - 1) (omega arith) (omega arith)
                  pos (omega arith) (omega arith) (omega arith) (λ q. absurd (q refl))
                ∙ ap₂ (λ a b. (bytes_from f a b, pages - 1)) (omega arith) (omega arith) in
              rw (before, page, clip, run, length-bytes_from f off n)
                (ap (λ k. (some (bytes_from f off n), off + n, k)) {y = pages} (omega arith))
        ]
