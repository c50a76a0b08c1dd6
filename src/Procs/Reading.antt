-- ===== src/Procs/Reading.antt =====
-- How kernel/proc.c reads a program: read_elf, over the files of kernel/vfs.c.
use jeos.Prelude.{ℕ, ◌+◌, ◌/◌, ◌%◌, ◌^◌, not, ◌||◌, Bool, List, leb, ◌==◌, if◌then◌else◌}
use jeos.Vfs.{Vfs, Tables}
use jeos.Vfs.Files.{put_file, vfs_open, vfs_fstat, vfs_read}

-- What became of the buffer: kalloc was not asked or had none, kfree has it back, or the caller gets it.
pub data Buffer : Type 0 where
  no_buffer : Buffer
  given_back : (buf pages : ℕ) → Buffer
  kept : (buf pages : ℕ) → Buffer

-- `vfs_close` of a file, with whether its `close` agrees.
abbrev pub close_file : {S : Type 0} → (closes : ℕ → Bool) → (f : ℕ) → Vfs S → Vfs S
close_file closes f v = if closes f then put_file f v else v

-- `read_elf` once the file is open; `kalloc` is the address of that many pages, 0 for none.
unfoldable pub read_open :
    {S : Type 0}
    → Tables S
    → (closes : ℕ → Bool) → (kalloc : ℕ → ℕ) → (f : ℕ) → Vfs S
    → Buffer × Vfs S
read_open fs closes kalloc f v =
    let ((rc, size), v₁) = vfs_fstat fs f v in
    let pages = (size + 4095) % 2 ^ 64 / 4096 % 2 ^ 32 in
    let buf = kalloc pages in
    let (n, v₂) = vfs_read fs f buf size v₁ in
    let result = if leb (2 ^ 63) n then given_back buf pages else kept buf pages in
    if not (rc == 0) || (buf == 0)
    then (no_buffer, close_file closes f v₁)
    else (result, close_file closes f v₂)

-- `read_elf`; VFS_O_RDONLY is 1.
unfoldable pub read_elf :
    {S : Type 0}
    → Tables S
    → (closes : ℕ → Bool) → (kalloc : ℕ → ℕ) → (path : List ℕ) → Vfs S
    → Buffer × Vfs S
read_elf fs closes kalloc path v =
    let ((rc, f), v₁) = vfs_open fs path 1 0 v in
    if rc == 0 then read_open fs closes kalloc f v₁ else (no_buffer, v₁)
