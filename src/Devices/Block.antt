-- ===== src/Devices/Block.antt =====
-- The block device files of kernel/devfs.c. The driver is a parameter: what a read leaves in the buffer,
-- and what a write makes of the bytes of the device.
pub mod Copying
pub mod Sectors
use Prim.Native.Nat.{◌*◌, ◌^◌}
use jeos.Prelude.{
  ℕ, zero, suc, ◌+◌, ◌-◌, ◌/◌, ◌%◌, Bool, Option, none, some, List, [], ◌∷◌, get_or, set, replicate,
  length, ltb, ◌==◌, if◌then◌else◌,
}

abbrev pub Bytes : Type 0
Bytes = List ℕ

-- The bytes of a device, by their place.
abbrev pub Image : Type 0
Image = ℕ → ℕ

-- `blk_device` with the driver below `blk_read` and `blk_write`: whether the call succeeded, and the
-- buffer or the device afterwards.
pub record BlkDevice : Type 0 where
  pub sector_size : ℕ
  pub blk_read : Image → (start count : ℕ) → Bytes → Bool × Bytes
  pub blk_write : Image → (start count : ℕ) → Bytes → Bool × Image

-- The first sector, and the number of sectors, of `count` bytes from `off` on.
abbrev pub start_sec : (ss off : ℕ) → ℕ
start_sec ss off = off / ss

unfoldable pub sectors : (ss off count : ℕ) → ℕ
sectors ss off count =
    let end_sec = (off + count + ss - 1) % 2 ^ 64 / ss in
    (end_sec + (2 ^ 64 - start_sec ss off)) % 2 ^ 64

-- The pages of the buffer, and the pattern that `kalloc` fills it with.
unfoldable pub buffer_pages : (nsecs ss : ℕ) → ℕ
buffer_pages nsecs ss =
    let pages = (nsecs * ss + 4095) % 2 ^ 64 / 4096 in if pages == 0 then 1 else pages

unfoldable pub fresh_buffer : (pages : ℕ) → Bytes
fresh_buffer pages = replicate (pages * 4096) 5

-- memcpy out of a buffer, and into it.
unfoldable pub copy_from : Bytes → (start n : ℕ) → Bytes
copy_from buf i zero = []
copy_from buf i (suc n) = get_or buf i 0 ∷ copy_from buf (i + 1) n

unfoldable pub copy_into : Bytes → (start : ℕ) → Bytes → Bytes
copy_into buf i [] = buf
copy_into buf i (x ∷ s) = copy_into (set buf i x) (i + 1) s

-- A result: the bytes read, VFS_ENOMEM, or -1.
pub data Reading : Type 0 where
  bytes_read : Bytes → Reading
  no_memory : Reading
  failed : Reading

-- `blkdev_read`, with the offset afterwards. `kalloc` says whether so many pages are free.
unfoldable pub blkdev_read : BlkDevice → (kalloc : ℕ → Bool) → Image → (off count : ℕ) → Reading × ℕ
blkdev_read dev kalloc image off count =
    let ss = dev.sector_size in
    let start = start_sec ss off in
    let nsecs = sectors ss off count in
    let pages = buffer_pages nsecs ss in
    let (read, tmp) = dev.blk_read image start (nsecs % 2 ^ 32) (fresh_buffer pages) in
    let delta = off - start * ss in
    let rest = nsecs * ss - delta in
    let avail = if ltb count rest then count else rest in
    if kalloc pages
    then (if read then (bytes_read (copy_from tmp delta avail), off + avail) else (failed, off))
    else (no_memory, off)

-- `blkdev_write`: the number of bytes, or `none` for an error; the offset and the device afterwards.
-- Whether the read before it succeeded is not asked.
unfoldable pub blkdev_write :
    BlkDevice → (kalloc : ℕ → Bool) → Image → (off : ℕ) → Bytes → Option ℕ × ℕ × Image
blkdev_write dev kalloc image off src =
    let ss = dev.sector_size in
    let start = start_sec ss off in
    let nsecs = sectors ss off (length src) in
    let pages = buffer_pages nsecs ss in
    let (_, tmp) = dev.blk_read image start (nsecs % 2 ^ 32) (fresh_buffer pages) in
    let delta = off - start * ss in
    let (written, image') = dev.blk_write image start (nsecs % 2 ^ 32) (copy_into tmp delta src) in
    if kalloc pages
    then (if written then (some (length src), off + length src, image') else (none, off, image'))
    else (none, off, image)
