-- ===== src/Ext2/Directory/Entries.antt =====
-- The entries of a directory, read from the bytes of the file one behind the other.
use Prim.Native.Nat.{◌*◌}
use native.Mathlib.Nat.{div-add-mod'}
use jeos.Prelude.{
  ℕ, zero, suc, ◌+◌, ◌/◌, ◌%◌, ◌≤◌, ◌<◌, ◌≡◌, refl, sym, ap, ap₂, ◌∙◌, List, [], ◌∷◌, get_or, arith,
}
use jeos.Ext2.{Bytes, Priv, DiskInode, bytes_of, u16_of, u32_of}
use jeos.Ext2.Tree.{file_blocks}
use jeos.Ext2.Files.{bytes_from}
use jeos.Ext2.Files.Loading.{file_byte, Cached}
use jeos.Ext2.Files.Reading.{div_at, mod_at}
use jeos.Ext2.Directory.{Dirent, dirent_at}

-- Two places of bytes that agree on `n` bytes.
abbrev Agree : (f : ℕ → ℕ) (a : ℕ) (g : ℕ → ℕ) (b n : ℕ) → Type 0
Agree f a g b n = (k : ℕ) → k < n → f (a + k) ≡ g (b + k)

bytes_from-Agree : (f g : ℕ → ℕ) (a b n : ℕ) → Agree f a g b n → bytes_from f a n ≡ bytes_from g b n
unfolding bytes_from
bytes_from-Agree f g a b zero h = refl
bytes_from-Agree f g a b (suc n) h =
    ap₂ ◌∷◌ (ap f (omega arith) ∙ h 0 (omega arith) ∙ ap g (omega arith)) (
      bytes_from-Agree f g (a + 1) (b + 1) n
        λ k lt. ap f (omega arith) ∙ h (k + 1) (omega arith) ∙ ap g (omega arith))

module _ (f g : ℕ → ℕ) (a b n : ℕ) (h : Agree f a g b n) where
  u16_of-Agree : (k : ℕ) → k + 1 < n → u16_of f (a + k) ≡ u16_of g (b + k)
  u16_of-Agree k lt =
      ap₂ (λ x y. x + 256 * y) (h k (omega arith))
        (ap f (omega arith) ∙ h (k + 1) lt ∙ ap g (omega arith))

  u32_of-Agree : (k : ℕ) → k + 3 < n → u32_of f (a + k) ≡ u32_of g (b + k)
  u32_of-Agree k lt =
      ap₂ (λ x y. x + 65536 * y) (u16_of-Agree k (omega arith))
        (ap (λ i. u16_of f i) {y = a + (k + 2)} (omega arith)
          ∙ u16_of-Agree (k + 2) (omega arith)
          ∙ ap (λ i. u16_of g i) {y = b + k + 2} (omega arith))

  -- Where the header and the name agree, the entries are equal.
  dirent_at-Agree : 8 + f (a + 6) ≤ n → dirent_at f a ≡ dirent_at g b
  unfolding dirent_at
  dirent_at-Agree fits =
      let first : u32_of f a ≡ u32_of g b =
        ap (λ i. u32_of f i) {y = a + 0} (omega arith)
        ∙ u32_of-Agree 0 (omega arith)
        ∙ ap (λ i. u32_of g i) (omega arith) in
      let length_eq : f (a + 6) ≡ g (b + 6) = h 6 (omega arith) in
      let name_eq : bytes_from f (a + 8) (f (a + 6)) ≡ bytes_from g (b + 8) (g (b + 6)) =
        bytes_from-Agree f g (a + 8) (b + 8) (f (a + 6))
          (λ k lt. ap f (omega arith) ∙ h (8 + k) (omega arith) ∙ ap g (omega arith))
        ∙ ap (λ l. bytes_from g (b + 8) l) length_eq in
      λ i. record {
        inode = first i;
        rec_len = u16_of-Agree 4 (omega arith) i;
        name_len = length_eq i;
        file_type = h 7 (omega arith) i;
        name = name_eq i;
      }

-- Entry after entry from `offset` on: each inside its block and long enough for its name, the last one
-- ending at the end of the directory or behind it.
unfoldable pub Listing :
    (block_size size : ℕ) → (byte : ℕ → ℕ) → (offset : ℕ) → List Dirent → Type 0
Listing block_size size byte offset [] = size ≤ offset
Listing block_size size byte offset (de ∷ rest) =
    (offset < size)
    × (dirent_at byte offset ≡ de)
    × (8 + de.name_len ≤ de.rec_len)
    × (offset % block_size + de.rec_len ≤ block_size)
    × Listing block_size size byte (offset + de.rec_len) rest

-- The entry read from the buffer of its block is the one of the file.
pub dirent_at-Cached :
    (p : Priv) (ei : DiskInode) (disk : (blk i : ℕ) → ℕ) (offset : ℕ) (buf : Bytes) (de : Dirent)
    → 0 < p.block_size
    → Cached p ei disk (offset / p.block_size) buf
    → dirent_at (file_byte p ei disk) offset ≡ de
    → 8 + de.name_len ≤ de.rec_len
    → offset % p.block_size + de.rec_len ≤ p.block_size
    → dirent_at (bytes_of buf) (offset % p.block_size) ≡ de
unfolding Cached dirent_at
dirent_at-Cached p ei disk offset buf de pos cached entry long inside =
    let bs = p.block_size in
    let f = file_byte p ei disk in
    let start = offset % bs in
    let agree : Agree f offset (bytes_of buf) start de.rec_len = λ k lt.
      (ap f {y = offset / bs * bs + (start + k)} (omega (arith, div-add-mod' offset bs))
        ∙ ap₂ (λ q r. disk (get_or (file_blocks p ei) q 0) r)
            (div_at (offset / bs) bs (start + k) (omega arith))
            (mod_at (offset / bs) bs (start + k) (omega arith))
        ∙ sym (cached (start + k) (omega arith))) in
    let size : f (offset + 6) ≡ de.name_len = ap (λ d. d.name_len) {x = dirent_at f offset} entry in
    sym (dirent_at-Agree f (bytes_of buf) offset start de.rec_len agree (omega (arith, size)))
    ∙ entry
