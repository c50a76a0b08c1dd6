-- ===== src/Devices.antt =====
-- The device files of kernel/devfs.c: the registry of nodes, and the block device files. A pointer to a
-- table of operations or to private data is the number of its address, 0 for null.
pub mod Names
pub mod Calls
pub mod Block
mod Tests
use Prim.Native.Nat.{bit_and, ◌^◌}
use jeos.Prelude.{
  ℕ, zero, suc, ◌+◌, ◌%◌, Bool, true, false, ◌&&◌, ◌||◌, Option, none, some, List, [], ◌∷◌, drop,
  ltb, leb, ◌==◌, if◌then◌else◌,
}
use jeos.Path.{string_length, kstrcmp, same_bytes}

-- `devfs_node`; the name is the string in its buffer.
pub record Node : Type 0 where
  pub name : List ℕ
  pub name_len : ℕ
  pub ino : ℕ
  pub mode : ℕ
  pub fops : ℕ
  pub priv : ℕ
  pub in_use : Bool

-- `g_nodes`, the slots of the table, and `g_next_ino`.
pub record Registry : Type 0 where
  pub nodes : List Node
  pub next_ino : ℕ

-- The results VFS_OK, VFS_EINVAL, VFS_EEXIST, VFS_ENOMEM and VFS_ENOENT.
pub data Code : Type 0 where
  ok : Code
  einval : Code
  eexist : Code
  enomem : Code
  enoent : Code

-- The comparison in the loops of `devfs_register` and `devfs_unregister`.
abbrev pub called : List ℕ → Node → Bool
called name n = n.in_use && (kstrcmp (some n.name) (some name) == 0)

unfoldable pub exists : List ℕ → List Node → Bool
exists name [] = false
exists name (n ∷ nodes) = called name n || exists name nodes

-- The first slot that is free is filled; `none` when there is none.
unfoldable pub fill_slot : Node → List Node → Option (List Node)
fill_slot new [] = none
fill_slot new (n ∷ nodes) =
    let later = fill_slot new nodes in
    if n.in_use
    then elim later [ none ↦ none | some rest ↦ some (n ∷ rest) ]
    else some (new ∷ nodes)

-- `devfs_register`.
unfoldable pub register :
    (name : Option (List ℕ)) → (mode fops priv : ℕ) → Registry → Code × Registry
register none mode fops priv r = (einval, r)
register (some name) mode fops priv r =
    let nlen = string_length name in
    let new : Node = record {
      name = name;
      name_len = nlen % 2 ^ 16;
      ino = r.next_ino;
      mode = mode;
      fops = fops;
      priv = priv;
      in_use = true;
    } in
    if fops == 0
    then (einval, r)
    else if nlen == 0 || leb 64 nlen
    then (einval, r)
    else if exists name r.nodes
    then (eexist, r)
    else elim (fill_slot new r.nodes) [
      | none ↦ (enomem, r)
      | some nodes ↦ (ok, record { nodes = nodes; next_ino = (r.next_ino + 1) % 2 ^ 32 })
    ]

-- The loop of `devfs_unregister`: `none` when no node has the name.
unfoldable pub release : List ℕ → List Node → Option (List Node)
release name [] = none
release name (n ∷ nodes) =
    let later = release name nodes in
    if called name n
    then some (record n { in_use = false } ∷ nodes)
    else elim later [ none ↦ none | some rest ↦ some (n ∷ rest) ]

-- `devfs_unregister`.
unfoldable pub unregister : Option (List ℕ) → Registry → Code × Registry
unregister none r = (einval, r)
unregister (some name) r = elim (release name r.nodes) [
  | none ↦ (enoent, r)
  | some nodes ↦ (ok, record r { nodes = nodes })
]

-- The test of `devfs_find`, and its loop over the slots.
abbrev pub is_named : List ℕ → (len : ℕ) → Node → Bool
is_named name len n = n.in_use && ((n.name_len == len) && same_bytes len n.name name)

unfoldable pub find : List ℕ → (len : ℕ) → List Node → Option Node
find name len [] = none
find name len (n ∷ nodes) =
    let later = find name len nodes in if is_named name len n then some n else later

-- `vfs_inode` as `devfs_make_node_inode` fills it, and `devfs_dir_lookup`, where a page for the inode
-- may be free or not.
pub record NodeInode : Type 0 where
  pub ino : ℕ
  pub mode : ℕ
  pub refcnt : ℕ
  pub fops : ℕ
  pub priv : ℕ

abbrev pub node_inode : Node → NodeInode
node_inode n = record { ino = n.ino; mode = n.mode; refcnt = 1; fops = n.fops; priv = n.priv }

unfoldable pub dir_lookup :
    List ℕ → (len : ℕ) → (page_free : Bool) → Registry → Code × Option NodeInode
dir_lookup name len page_free r = elim (find name len r.nodes) [
  | none ↦ (enoent, none)
  | some n ↦ if page_free then (ok, some (node_inode n)) else (enomem, none)
]

-- The type of a directory entry, by the type bits of the mode.
abbrev pub entry_type : ℕ → ℕ
entry_type mode =
    let type = bit_and mode 61440 in
    if type == 8192 then 3 else if type == 24576 then 4 else if type == 32768 then 1 else 0

-- The loop of `devfs_readdir` over the slots from `idx` on: the number, type and name of the entry, and
-- the position behind it; `none` at the end.
unfoldable pub next_node : (idx : ℕ) → List Node → Option (ℕ × ℕ × List ℕ × ℕ)
next_node idx [] = none
next_node idx (n ∷ nodes) =
    let later = next_node (idx + 1) nodes in
    if n.in_use then some (n.ino, entry_type n.mode, n.name, idx + 1) else later

unfoldable pub readdir_at : (pos : ℕ) → Registry → Option (ℕ × ℕ × List ℕ × ℕ)
readdir_at pos r = let idx = pos % 2 ^ 32 in next_node idx (drop idx r.nodes)
