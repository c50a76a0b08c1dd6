-- ===== src/Devices/Block/Sectors.antt =====
-- Reading and writing a device whose driver moves whole sectors.
use Prim.Native.Nat.{◌*◌, ◌^◌}
use native.Mathlib.Nat.{
  div-le_self, mod-eq_of_lt, div-mul-le_self, lt-div-mul-add, le_of_mul-le-mul_right,
}
use jeos.Prelude.{
  ℕ, ◌+◌, ◌-◌, ◌/◌, ◌%◌, ◌≤◌, ◌<◌, ◌≡◌, refl, sym, ap, subst, ◌∙◌, Bool, true, ◌&&◌, some, ◌⊎◌, inl,
  inr, get_or, length, ltb, leb, if◌then◌else◌, dec_lt, arith,
}
use jeos.Devices.Block.Copying.{bytes_at, copy_from-bytes_at, bytes_at_list, get_or-copy_into}
use jeos.Devices.Block.{
  Bytes, Image, BlkDevice, sectors, buffer_pages, fresh_buffer, copy_from, copy_into, bytes_read,
  blkdev_read, blkdev_write,
}

-- The driver moves `n` whole sectors between the device and a buffer that is large enough.
pub record Moves (dev : BlkDevice) : Type 0 where
  pub reads :
      (image : Image) (start n : ℕ) (buf : Bytes) → (dev.blk_read image start n buf).0 ≡ true
  pub length-read :
      (image : Image) (start n : ℕ) (buf : Bytes)
      → n * dev.sector_size ≤ length (dev.blk_read image start n buf).1
  pub byte_read :
      (image : Image) (start n : ℕ) (buf : Bytes) (i : ℕ)
      → i < n * dev.sector_size
      → get_or (dev.blk_read image start n buf).1 i 0 ≡ image (start * dev.sector_size + i)
  pub writes :
      (image : Image) (start n : ℕ) (buf : Bytes) → (dev.blk_write image start n buf).0 ≡ true
  pub byte_written :
      (image : Image) (start n : ℕ) (buf : Bytes) (i : ℕ)
      → i < n * dev.sector_size
      → (dev.blk_write image start n buf).1 (start * dev.sector_size + i) ≡ get_or buf i 0
  pub byte_kept :
      (image : Image) (start n : ℕ) (buf : Bytes) (k : ℕ)
      → (k < start * dev.sector_size) ⊎ ((start + n) * dev.sector_size ≤ k)
      → (dev.blk_write image start n buf).1 k ≡ image k

-- The bytes from `off` on lie within the sectors.
module _ (ss off count : ℕ) (pos : 0 < ss) (fits : off + count + ss < 2 ^ 64) where
  end_sec : ℕ
  end_sec = (off + count + ss - 1) / ss

  starts_below : off / ss * ss ≤ off
  starts_below = div-mul-le_self off ss

  ends_above : off + count ≤ end_sec * ss
  unfolding end_sec
  ends_above = omega (arith, lt-div-mul-add {a = off + count + ss - 1} {b = ss} pos)

  in_order : off / ss ≤ end_sec
  in_order = le_of_mul-le-mul_right {k = ss} (omega (arith, starts_below, ends_above)) pos

  sectors_lem : sectors ss off count ≡ end_sec - off / ss
  unfolding sectors end_sec
  sectors_lem =
      ap (λ x. (x / ss + (2 ^ 64 - off / ss)) % 2 ^ 64) (mod-eq_of_lt (omega arith))
      ∙ omega (arith, in_order, div-le_self (off + count + ss - 1) ss)

  covered : (off / ss + sectors ss off count) * ss ≡ end_sec * ss
  covered = ap (λ n. n * ss) (omega (arith, sectors_lem, in_order))

module _ (dev : BlkDevice) (kalloc : ℕ → Bool) (image : Image) (moves : Moves dev) (off count : ℕ)
    (pos : 0 < dev.sector_size) (fits : off + count + dev.sector_size < 2 ^ 64)
    (few : sectors dev.sector_size off count < 2 ^ 32)
    (memory : kalloc (buffer_pages (sectors dev.sector_size off count) dev.sector_size)
      ≡ true) where
  -- The bytes are in the buffer, behind those before `off`.
  enough :
      (off - off / dev.sector_size * dev.sector_size) + count
      ≤ sectors dev.sector_size off count * dev.sector_size
  enough = omega (
    arith,
    starts_below dev.sector_size off count pos fits,
    ends_above dev.sector_size off count pos fits,
    covered dev.sector_size off count pos fits,
  )

  blkdev_read-bytes_at :
      blkdev_read dev kalloc image off count ≡ (bytes_read (bytes_at image off count), off + count)
  unfolding blkdev_read
  blkdev_read-bytes_at =
      let ss = dev.sector_size in
      let start = off / ss in
      let nsecs = sectors ss off count in
      let delta = off - start * ss in
      let tmp = fresh_buffer (buffer_pages nsecs ss) in
      let whole : nsecs % 2 ^ 32 ≡ nsecs = mod-eq_of_lt few in
      let below = starts_below ss off count pos fits in
      let all : (if ltb count (nsecs * ss - delta) then count else nsecs * ss - delta) ≡ count =
        ground (arith, enough) in
      let copied : copy_from (dev.blk_read image start nsecs tmp).1 delta count
          ≡ bytes_at image off count =
        copy_from-bytes_at (dev.blk_read image start nsecs tmp).1 image delta off count λ i lt.
          moves.byte_read image start nsecs tmp (delta + i) (omega (arith, enough))
          ∙ ap image (omega (arith, below)) in
      rw (memory, whole, moves.reads image start nsecs tmp, all)
        (ap (λ b. (bytes_read b, off + count)) copied)

module _ (dev : BlkDevice) (kalloc : ℕ → Bool) (image : Image) (moves : Moves dev) (off : ℕ)
    (src : Bytes) (pos : 0 < dev.sector_size) (fits : off + length src + dev.sector_size < 2 ^ 64)
    (few : sectors dev.sector_size off (length src) < 2 ^ 32)
    (memory : kalloc (buffer_pages (sectors dev.sector_size off (length src)) dev.sector_size)
      ≡ true) where
  blkdev_write_result :
      ((blkdev_write dev kalloc image off src).0 ≡ some (length src))
      × ((blkdev_write dev kalloc image off src).1 ≡ off + length src)
      × ((k : ℕ)
          → (blkdev_write dev kalloc image off src).2 k
            ≡ (if leb off k && ltb k (off + length src) then get_or src (k - off) 0 else image k))
  unfolding blkdev_write
  blkdev_write_result =
      let ss = dev.sector_size in
      let start = off / ss in
      let nsecs = sectors ss off (length src) in
      let delta = off - start * ss in
      let buf = (dev.blk_read image start nsecs (fresh_buffer (buffer_pages nsecs ss))).1 in
      let new = copy_into buf delta src in
      let whole : nsecs % 2 ^ 32 ≡ nsecs = mod-eq_of_lt few in
      let below = starts_below ss off (length src) pos fits in
      let inside = enough dev kalloc image moves off (length src) pos fits few memory in
      let size = moves.length-read image start nsecs (fresh_buffer (buffer_pages nsecs ss)) in
      let byte : (k : ℕ)
          → (dev.blk_write image start nsecs new).1 k
            ≡ (if leb off k && ltb k (off + length src) then get_or src (k - off) 0 else image k) =
        λ k. elim (dec_lt k (start * ss)) [
          | yes before ↦ ground (arith, moves.byte_kept image start nsecs new k (inl before), below)
          | no n ↦ elim (dec_lt k ((start + nsecs) * ss)) [
            | no behind ↦ ground (
              arith,
              moves.byte_kept image start nsecs new k (inr (omega arith)),
              covered ss off (length src) pos fits,
              ends_above ss off (length src) pos fits,
            )
            | yes here ↦
                let i = k - start * ss in
                let in_buf : i < nsecs * ss = omega arith in
                let to : (dev.blk_write image start nsecs new).1 k ≡ get_or new i 0 =
                  ap (dev.blk_write image start nsecs new).1 {x = k} {y = start * ss + i}
                    (omega arith)
                  ∙ moves.byte_written image start nsecs new i in_buf in
                let from : get_or buf i 0 ≡ image k =
                  moves.byte_read image start nsecs (fresh_buffer (buffer_pages nsecs ss)) i in_buf
                  ∙ ap image (omega arith) in
                let at : i - delta ≡ k - off = omega (arith, below) in
                let moved : get_or src (i - delta) 0 ≡ get_or src (k - off) 0 =
                  ap (λ j. get_or src j 0) at in
                ground (
                  arith,
                  to,
                  from,
                  moved,
                  get_or-copy_into buf delta src i (omega (arith, inside, size)),
                  below,
                )
          ]
        ] in
      let run : blkdev_write dev kalloc image off src
          ≡ (some (length src), off + length src, (dev.blk_write image start nsecs new).1) =
        rw (memory, whole, moves.writes image start nsecs new) in
      subst
        (λ r.
          (r.0 ≡ some (length src))
          × (r.1 ≡ off + length src)
          × ((k : ℕ)
              → r.2 k ≡ (
                  if leb off k && ltb k (off + length src)
                  then get_or src (k - off) 0
                  else image k)))
        (sym run) (refl, refl, byte)

  -- Bytes written to a block device file are read back from the same place, and every other byte of the
  -- device is as before, wherever the first and the last byte lie in their sectors: when the driver
  -- moves whole sectors, there is memory for the buffer, and nothing overflows.
  pub blkdev_read-blkdev_write :
      let image' = (blkdev_write dev kalloc image off src).2 in
      (blkdev_read dev kalloc image' off (length src) ≡ (bytes_read src, off + length src))
      × ((k : ℕ) → (k < off) ⊎ (off + length src ≤ k) → image' k ≡ image k)
  blkdev_read-blkdev_write =
      let (count, moved, byte) = blkdev_write_result in
      let image' = (blkdev_write dev kalloc image off src).2 in
      let back : bytes_at image' off (length src) ≡ src = bytes_at_list image' off src λ i lt.
        ground (
          arith,
          byte (off + i),
          ap (λ j. get_or src j 0) {x = off + i - off} {y = i} (omega arith),
        ) in
      (
        blkdev_read-bytes_at dev kalloc image' moves off (length src) pos fits few memory
            ∙ ap (λ b. (bytes_read b, off + length src)) back,
        (λ k outside. elim outside [
          | inl before ↦ ground (arith, byte k)
          | inr behind ↦ ground (arith, byte k)
        ]),
      )
