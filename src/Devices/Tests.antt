-- ===== src/Devices/Tests.antt =====
-- Runs of the registry and of a small block device.
use Prim.Native.Nat.{◌*◌}
use jeos.Prelude.{
  ℕ, zero, suc, ◌+◌, ◌-◌, ◌≤◌, ◌<◌, ◌≡◌, ◌⊎◌, inl, inr, refl, ap, ◌∙◌, true, false, ◌&&◌, some, [],
  ◌∷◌, length, get_or, leb, ltb, codes, if◌then◌else◌, arith,
}
use jeos.Path.{string_length, kstrcmp, compare_bytes}
use jeos.Path.Compare.{IsString}
use jeos.Devices.{Node, Registry, ok, exists, fill_slot, register, release, unregister, find}
use jeos.Devices.Names.{AllNodes, Distinct, IsValid}
use jeos.Devices.Calls.{find-register}
use jeos.Devices.Block.{Image, BlkDevice, bytes_read, sectors, blkdev_read, blkdev_write}
use jeos.Devices.Block.Copying.{bytes_at}
use jeos.Devices.Block.Sectors.{Moves, blkdev_read-blkdev_write}

abbrev free_node : Node
free_node = record {
  name = [];
  name_len = 0;
  ino = 0;
  mode = 0;
  fops = 0;
  priv = 0;
  in_use = false;
}

abbrev null_node : Node
null_node = record {
  name = codes "null";
  name_len = 4;
  ino = 2;
  mode = 8630;
  fops = 1000;
  priv = 0;
  in_use = true;
}

abbrev before : Registry
before = record { nodes = free_node ∷ free_node ∷ []; next_ino = 2 }

abbrev after : Registry
after = record { nodes = null_node ∷ free_node ∷ []; next_ino = 3 }

abbrev released : Registry
released = record { nodes = record null_node { in_use = false } ∷ free_node ∷ []; next_ino = 3 }

register_run : register (some (codes "null")) 8630 1000 0 before ≡ (ok, after)
unfolding register exists fill_slot string_length kstrcmp compare_bytes
register_run = refl

unregister_run : unregister (some (codes "null")) after ≡ (ok, released)
unfolding unregister release kstrcmp compare_bytes
unregister_run = refl

before-IsValid : IsValid before.nodes
unfolding AllNodes Distinct find
before-IsValid = record {
  all = ((λ e. absurd (cc)), ((λ e. absurd (cc)), tt));
  distinct = ((λ e. refl), ((λ e. refl), tt));
}

null-IsString : IsString (codes "null")
unfolding IsString
null-IsString = ground arith

after-IsValid : IsValid after.nodes
after-IsValid =
    (find-register before after (codes "null") (codes "zero") 8630 1000 0 before-IsValid
      null-IsString register_run).2

-- A device with sectors of 4 bytes.
abbrev disk : BlkDevice
disk = record {
  sector_size = 4;
  blk_read = λ image start n buf. (true, bytes_at image (start * 4) (n * 4));
  blk_write = λ image start n buf. (
    true,
    λ k.
        if leb (start * 4) k && ltb k ((start + n) * 4)
        then get_or buf (k - start * 4) 0
        else image k,
  );
}

length-bytes_at : (image : Image) (k n : ℕ) → length (bytes_at image k n) ≡ n
unfolding bytes_at
length-bytes_at image k zero = refl
length-bytes_at image k (suc n) = ap suc (length-bytes_at image (k + 1) n)

get_or-bytes_at :
    (image : Image) (k n i : ℕ) → i < n → get_or (bytes_at image k n) i 0 ≡ image (k + i)
unfolding bytes_at
get_or-bytes_at image k zero i h = absurd (omega arith)
get_or-bytes_at image k (suc n) zero h = ap image (omega arith)
get_or-bytes_at image k (suc n) (suc i) h =
    get_or-bytes_at image (k + 1) n i (omega arith) ∙ ap image (omega arith)

disk-Moves : Moves disk
disk-Moves = record {
  reads = λ image start n buf. refl;
  length-read = λ image start n buf. omega (arith, length-bytes_at image (start * 4) (n * 4));
  byte_read = λ image start n buf i h. get_or-bytes_at image (start * 4) (n * 4) i h;
  writes = λ image start n buf. refl;
  byte_written = λ image start n buf i h.
      let back : get_or buf (start * 4 + i - start * 4) 0 ≡ get_or buf i 0 =
        ap (λ j. get_or buf j 0) (omega arith) in
      ground (arith, back);
  byte_kept = λ image start n buf k h. elim h [ inl low ↦ ground arith | inr high ↦ ground arith ];
}

abbrev blank : Image
blank k = k

blkdev_read-blkdev_write_example :
    let image' = (blkdev_write disk (λ n. true) blank 6 (1 ∷ 2 ∷ 3 ∷ [])).2 in
    (blkdev_read disk (λ n. true) image' 6 3 ≡ (bytes_read (1 ∷ 2 ∷ 3 ∷ []), 9))
    × ((k : ℕ) → (k < 6) ⊎ (9 ≤ k) → image' k ≡ blank k)
unfolding sectors
blkdev_read-blkdev_write_example =
    blkdev_read-blkdev_write disk (λ n. true) blank disk-Moves 6 (1 ∷ 2 ∷ 3 ∷ []) (omega arith)
      (omega arith) (omega arith) refl
