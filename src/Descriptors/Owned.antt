-- ===== src/Descriptors/Owned.antt =====
-- The count of an open file and the descriptors that refer to it: kernel/proc.c and kernel/vfs.c.
use jeos.Prelude.{
  ℕ, ◌+◌, ◌%◌, ◌^◌, ◌≤◌, ◌<◌, ◌≡◌, refl, ap, ◌∙◌, inl, inr, Option, none, some, List, [], ◌∷◌, ltb,
  ◌==◌, if◌then◌else◌, Bool-cases, length, length-set, get_or, set, arith,
}
use jeos.Descriptors.{Table, Call, returned, failed, wild, max_fds, file_get, file_put, fd_get}
use jeos.Descriptors.Count.{refers, count, count-set, Added}

-- The count of a file is what others hold of it and the descriptors that refer to it, and is far
-- from wrapping.
pub record Owned (others : ℕ → ℕ) (t : Table) : Type 0 where
  pub size : length t.files ≡ max_fds
  pub counts : (g : ℕ) → t.refcnt g ≡ others g + count g t.files
  pub room : (g : ℕ) → others g + 64 ≤ 2 ^ 32

-- What a call leaves when it stays inside the table.
abbrev pub OwnedAfter : (ℕ → ℕ) → Call → Type 0
OwnedAfter others (returned n t) = Owned others t
OwnedAfter others (failed t) = Owned others t
OwnedAfter others wild = ⊥

count_le : (g : ℕ) (fs : List (Option ℕ)) → count g fs ≤ length fs
unfolding count refers
count_le g [] = omega arith
count_le g (none ∷ fs) = omega (arith, count_le g fs)
count_le g (some f ∷ fs) = ground (arith, count_le g fs)

refers_self : (f : ℕ) → refers f (some f) ≡ 1
unfolding refers
refers_self f = ground arith

file_get-refcnt :
    (f g : ℕ) (t : Table)
    → t.refcnt f + 1 < 2 ^ 32
    → (file_get f t).refcnt g ≡ t.refcnt g + refers g (some f)
unfolding file_get refers
file_get-refcnt f g t h = elim (Bool-cases (f == g)) [
  | inl same ↦
      let e : t.refcnt f ≡ t.refcnt g = ap t.refcnt (ground arith) in rw same (omega (arith, e))
  | inr other ↦ rw other (omega arith)
]

file_put-refcnt :
    (f g : ℕ) (t : Table)
    → 0 < t.refcnt f
    → t.refcnt f < 2 ^ 32
    → (file_put f t).refcnt g + refers g (some f) ≡ t.refcnt g
unfolding file_put refers
file_put-refcnt f g t h k = elim (Bool-cases (f == g)) [
  | inl same ↦
      let e : t.refcnt f ≡ t.refcnt g = ap t.refcnt (ground arith) in rw same (omega (arith, e))
  | inr other ↦ rw other (omega arith)
]

refers-none : (g : ℕ) → refers g none ≡ 0
unfolding refers
refers-none g = refl

-- A count is far from wrapping.
pub refcnt_small : (others : ℕ → ℕ) (t : Table) (f : ℕ) → Owned others t → t.refcnt f + 1 < 2 ^ 32
refcnt_small others t f o = omega (arith, o.counts f, o.room f, count_le f t.files, o.size)

-- Another value in a descriptor.
replaced :
    (i g : ℕ) (v w : Option ℕ) (fs : List (Option ℕ))
    → i < length fs
    → get_or fs i none ≡ v
    → count g (set fs i w) + refers g v ≡ count g fs + refers g w
replaced i g v w fs h e = rw (← e) (count-set g i w fs h)

-- A descriptor emptied, and the reference of its file given back.
pub emptied :
    (others : ℕ → ℕ) (i f : ℕ) (t : Table)
    → i < max_fds
    → get_or t.files i none ≡ some f
    → Owned others t
    → Owned others (record (file_put f t) { files = set t.files i none })
emptied others i f t h e o = record {
  size = length-set t.files i none ∙ o.size;
  counts = λ g. omega (
    arith,
    file_put-refcnt f g t present (omega (arith, refcnt_small others t f o)),
    replaced i g (some f) none t.files inside e,
    refers-none g,
    o.counts g,
  );
  room = o.room;
}
  where
    inside : i < length t.files
    inside = omega (arith, o.size)

    present : 0 < t.refcnt f
    present = omega (
      arith,
      replaced i f (some f) none t.files inside e,
      refers_self f,
      refers-none f,
      o.counts f,
    )

-- An empty descriptor filled with one more reference to a file.
pub filled :
    (others : ℕ → ℕ) (i f : ℕ) (t : Table)
    → i < max_fds
    → get_or t.files i none ≡ none
    → Owned others t
    → Owned others (record (file_get f t) { files = set t.files i (some f) })
filled others i f t h e o = record {
  size = length-set t.files i (some f) ∙ o.size;
  counts = λ g. omega (
    arith,
    file_get-refcnt f g t (refcnt_small others t f o),
    replaced i g none (some f) t.files (omega (arith, o.size)) e,
    refers-none g,
    o.counts g,
  );
  room = o.room;
}

pub fd_get-some :
    (fd f : ℕ) (t : Table)
    → fd < 2 ^ 32
    → fd_get t fd ≡ some f
    → (fd < max_fds) × (get_or t.files fd none ≡ some f)
unfolding fd_get
fd_get-some fd f t small e =
    let whole : fd % 2 ^ 32 ≡ fd = omega arith in
    let e' : (if ltb fd max_fds then get_or t.files fd none else none) ≡ some f = rw whole at e in
    elim (Bool-cases (ltb fd max_fds)) [
      | inl inside ↦ (ground arith, (rw inside at e'))
      | inr outside ↦ absurd (ground arith)
    ]

put-get-refcnt :
    (others : ℕ → ℕ) (f g : ℕ) (t : Table)
    → Owned others t
    → (file_put f (file_get f t)).refcnt g ≡ t.refcnt g
put-get-refcnt others f g t o =
    let small = refcnt_small others t f o in
    let one_more : (file_get f t).refcnt f ≡ t.refcnt f + 1 =
      omega (arith, file_get-refcnt f f t small, refers_self f) in
    omega (
      arith,
      file_get-refcnt f g t small,
      file_put-refcnt f g (file_get f t) (omega (arith, one_more)) (omega (arith, one_more, small)),
    )

-- A reference taken and given back.
pub file_put-file_get :
    (others : ℕ → ℕ) (f : ℕ) (t : Table) → Owned others t → Owned others (file_put f (file_get f t))
unfolding file_put file_get
file_put-file_get others f t o = record {
  size = o.size;
  counts = λ g. put-get-refcnt others f g t o ∙ o.counts g;
  room = o.room;
}

-- A descriptor that `fd_alloc` takes for one more reference.
pub dup_taken :
    (others : ℕ → ℕ) (f i : ℕ) (t : Table) (fs : List (Option ℕ))
    → Added f t.files fs
    → Owned others t
    → Owned others (record (file_get f t) { files = fs })
dup_taken others f i t fs a o = record {
  size = a.same_length ∙ o.size;
  counts =
      λ g. omega (arith, file_get-refcnt f g t (refcnt_small others t f o), a.counts g, o.counts g);
  room = o.room;
}
