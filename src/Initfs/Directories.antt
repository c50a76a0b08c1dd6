-- ===== src/Initfs/Directories.antt =====
-- The slots of kernel/initfs.c as a map from names to inode numbers.
use native.Mathlib.Nat.{mod-eq_of_lt}
use jeos.Prelude.{
  ℕ, ◌%◌, ◌^◌, ◌<◌, ◌≡◌, refl, ap, subst, ◌∙◌, Bool, true, false, ◌&&◌, none, some, Option-cases,
  Bool-cases, inl, inr, List, [], ◌∷◌, length, if◌then◌else◌, arith,
}
use jeos.Path.{kstrcmp}
use jeos.Path.Compare.{IsString, compare_bytes-zero}
use jeos.Devices.{ok, enomem}
use jeos.Devices.Names.{same, same_iff, same_third}
use jeos.Initfs.{Dir, Dirs, make_dir, has_name, find_dir, fill_dir, mkdir, outcome}

-- A directory in use has a string for its name, with its length.
abbrev pub IsDir : Dir → Type 0
IsDir d = (d.in_use ≡ true) → IsString d.name × (d.name_len ≡ length d.name)

unfoldable pub AllDirs : List Dir → Type 0
AllDirs [] = Unit
AllDirs (d ∷ dirs) = IsDir d × AllDirs dirs

has_name-same :
    (name : List ℕ) (d : Dir)
    → IsString name
    → IsDir d
    → has_name name d ≡ (d.in_use && same d.name name)
unfolding kstrcmp
has_name-same name d is good = elim (Bool-cases d.in_use) [
  | inr e ↦ ground arith
  | inl e ↦
      let equal = compare_bytes-zero d.name name (good e).0 is in
      let sized : (d.name ≡ name) → d.name_len ≡ length name = λ q. (good e).1 ∙ ap length q in
      ground (arith, e, equal, sized, same_iff d.name name)
]

pub find_dir-fill_dir :
    (new : Dir) (dirs rest : List Dir) (q : List ℕ)
    → AllDirs dirs
    → IsDir new
    → new.in_use ≡ true
    → IsString new.name
    → IsString q
    → find_dir new.name dirs ≡ none
    → fill_dir new dirs ≡ some rest
    → find_dir q rest ≡ (if same new.name q then some new else find_dir q dirs)
unfolding fill_dir find_dir AllDirs
find_dir-fill_dir new [] rest q all good used is is_q fresh e = cc
find_dir-fill_dir new (d ∷ dirs) rest q (good_d, all) good used is is_q fresh e =
    elim (Bool-cases d.in_use) [
      | inr free ↦
          let filled : new ∷ dirs ≡ rest = ground (arith, free) in
          subst (λ r. find_dir q r ≡ (if same new.name q then some new else find_dir q (d ∷ dirs)))
            filled (ground (arith, has_name-same q new is_q good, used, free))
      | inl busy ↦ elim (Option-cases (fill_dir new dirs)) [
        | inl full ↦ ground (arith, busy, full)
        | inr (later, some_later) ↦
            let filled : d ∷ later ≡ rest = ground (arith, busy, some_later) in
            let fresh_tail : find_dir new.name dirs ≡ none = ground arith in
            let below =
              find_dir-fill_dir new dirs later q all good used is is_q fresh_tail some_later in
            subst
              (λ r. find_dir q r ≡ (if same new.name q then some new else find_dir q (d ∷ dirs)))
              filled
              (ground (
                arith,
                below,
                busy,
                has_name-same new.name d is good_d,
                has_name-same q d is_q good_d,
                same_third new.name d.name q,
              ))
      ]
    ]

-- A directory that is made, with a page for its inode or without, is found under its name with the
-- next inode number, and every other name as before: in a table whose directories have strings for
-- their names, where the name was not there and a slot is free. Without a page the call returns
-- VFS_ENOMEM although the directory is there.
pub find_dir-mkdir :
    (r : Dirs) (rest : List Dir) (name q : List ℕ) (page_free : Bool)
    → AllDirs r.dirs
    → IsString name
    → IsString q
    → length name < 64
    → find_dir name r.dirs ≡ none
    → fill_dir
        (record { name = name; name_len = length name; in_use = true; ino = r.next_ino })
        r.dirs
      ≡ some rest
    → let (code, inode, r') = mkdir name page_free r in
      (code ≡ (if page_free then ok else enomem))
      × (find_dir q r'.dirs ≡ (
          if same name q
          then some
              (record { name = name; name_len = length name; in_use = true; ino = r.next_ino })
          else find_dir q r.dirs))
unfolding mkdir make_dir
find_dir-mkdir r rest name q page_free all is is_q short fresh filled =
    let node : ℕ → Dir =
      λ l. record { name = name; name_len = l; in_use = true; ino = r.next_ino } in
    let size : length name % 2 ^ 16 ≡ length name = mod-eq_of_lt (omega arith) in
    let placed : fill_dir (node (length name % 2 ^ 16)) r.dirs ≡ some rest =
      ap (λ l. fill_dir (node l) r.dirs) size ∙ filled in
    let found =
      find_dir-fill_dir (node (length name)) r.dirs rest q all (λ _. (is, refl)) refl is is_q fresh
        filled in
    rw (mkdir, fresh, placed) (code_of page_free, found)
  where
    code_of : (page : Bool) → (outcome (make_dir r.next_ino page)).0 ≡ (if page then ok else enomem)
    code_of true = refl
    code_of false = refl
