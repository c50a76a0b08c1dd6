-- ===== src/Pipe/Creation.antt =====
-- pipe_create and make_pipe_end of kernel/pipe.c, and the pages that they take and give back.
use jeos.Prelude.{
  ℕ, ◌+◌, ◌≡◌, ◌≢◌, refl, sym, subst, ap, ◌∙◌, inl, inr, Bool, true, false, ◌||◌, Option, none,
  some, List, [], ◌∷◌, ◌==◌, if◌then◌else◌, Bool-cases, List-cases, arith,
}
use jeos.Vfs.{File, put_at}
use jeos.Vfs.Kept.{if_cases, put_at-same}
use jeos.Pipe.{Pipe, fresh}

-- PIPE_READ_END and PIPE_WRITE_END.
abbrev pub read_end : ℕ
read_end = 1

abbrev pub write_end : ℕ
write_end = 2

-- The inode of an end, with the fields that `make_pipe_end` sets.
pub record EndInode : Type 0 where
  pub fops : ℕ
  pub priv : ℕ
  pub ino : ℕ
  pub refcnt : ℕ

-- `pages` is what kalloc will answer, in its order, and `freed` what kfree was given.
pub record Pool : Type 0 where
  pub pages : List ℕ
  pub freed : List ℕ
  pub pipes : ℕ → Pipe
  pub inodes : ℕ → EndInode
  pub files : ℕ → File

unfoldable pub alloc_one : Pool → ℕ × Pool
alloc_one s = elim s.pages [ [] ↦ (0, s) | p ∷ ps ↦ (p, record s { pages = ps }) ]

abbrev pub free_one : ℕ → Pool → Pool
free_one p s = record s { freed = p ∷ s.freed }

-- `make_pipe_end`: the file, or 0.
unfoldable pub make_pipe_end : (p ops end_tag : ℕ) → Pool → ℕ × Pool
make_pipe_end p ops end_tag s =
    let (i, s₁) = alloc_one s in
    let ino : EndInode = record { fops = ops; priv = p; ino = end_tag; refcnt = 1 } in
    let s₂ = record s₁ { inodes = put_at i ino s₁.inodes } in
    let (f, s₃) = alloc_one s₂ in
    let file : File = record { refcnt = 1; flags = 0; pos = 0; inode = i; fops = 0 } in
    if i == 0
    then (0, s₁)
    else if f == 0
    then (0, free_one i s₃)
    else (f, record s₃ { files = put_at f file s₃.files })

-- The inode and the file of an end that was made, given back.
abbrev pub drop_end : ℕ → Pool → Pool
drop_end f s = if f == 0 then s else free_one f (free_one (s.files f).inode s)

-- `pipe_create`, with the addresses of the two tables of operations.
unfoldable pub pipe_create : (read_ops write_ops : ℕ) → Pool → Option (ℕ × ℕ) × Pool
pipe_create read_ops write_ops s =
    let (p, s₁) = alloc_one s in
    let s₂ = record s₁ { pipes = put_at p fresh s₁.pipes } in
    let (r, s₃) = make_pipe_end p read_ops read_end s₂ in
    let (w, s₄) = make_pipe_end p write_ops write_end s₃ in
    if p == 0
    then (none, s₁)
    else if (r == 0) || (w == 0)
    then (none, free_one p (drop_end w (drop_end r s₄)))
    else (some (r, w), s₄)

-- How often a page is among those that kalloc will give or that it was given back.
pub hit : (x p : ℕ) → ℕ
hit x p = if x == p then 1 else 0

pub times : (x : ℕ) → List ℕ → ℕ
times x [] = 0
times x (p ∷ ps) = hit x p + times x ps

abbrev pub total : (x : ℕ) → Pool → ℕ
total x s = times x s.pages + times x s.freed

hit-zero : (x p : ℕ) → x ≢ 0 → (p == 0) ≡ true → hit x p ≡ 0
unfolding hit
hit-zero x p some_x e = ground (arith, some_x)

free_one-total : (x p : ℕ) (s : Pool) → total x (free_one p s) ≡ total x s + hit x p
unfolding times
free_one-total x p s = omega arith

alloc_one-total :
    (x : ℕ) (s : Pool) → x ≢ 0 → let (p, s') = alloc_one s in total x s ≡ total x s' + hit x p
unfolding alloc_one times hit
alloc_one-total x s some_x = elim (List-cases s.pages) [
  | inl none_left ↦ rw none_left (omega (arith, hit-zero x 0 some_x refl))
  | inr (p, ps, given) ↦ rw given (omega arith)
]

-- The pages of an end.
abbrev held : (x f : ℕ) → Pool → ℕ
held x f s = if f == 0 then 0 else hit x f + hit x (s.files f).inode

make_pipe_end-total :
    (x p ops tag : ℕ) (s : Pool)
    → x ≢ 0
    → let (f, s') = make_pipe_end p ops tag s in total x s ≡ total x s' + held x f s'
unfolding make_pipe_end put_at
make_pipe_end-total x p ops tag s some_x =
    let a = alloc_one s in
    let ino : EndInode = record { fops = ops; priv = p; ino = tag; refcnt = 1 } in
    let s₂ = record a.1 { inodes = put_at a.0 ino a.1.inodes } in
    let b = alloc_one s₂ in
    let first = alloc_one-total x s some_x in
    let second = alloc_one-total x s₂ some_x in
    let Good : ℕ × Pool → Type 0 = λ r. total x s ≡ total x r.1 + held x r.0 r.1 in
    if_cases Good (a.0 == 0) _ _ (λ e. omega (arith, first, hit-zero x a.0 some_x e))
      (λ e.
        if_cases Good (b.0 == 0) _ _
          (λ e'. omega (arith, first, second, free_one-total x a.0 b.1, hit-zero x b.0 some_x e'))
          (λ e'. rw (e', put_at-same b.0 _ b.1.files) (omega (arith, first, second))))

drop_end-files : (f : ℕ) (s : Pool) → (drop_end f s).files ≡ s.files
drop_end-files f s = if_cases (λ (u : Pool). u.files ≡ s.files) (f == 0) _ _ (λ e. refl) (λ e. refl)

drop_end-total : (x f : ℕ) (s : Pool) → total x (drop_end f s) ≡ total x s + held x f s
drop_end-total x f s = elim (Bool-cases (f == 0)) [
  | inl none_made ↦ rw none_made (omega arith)
  | inr made ↦ rw made (
      omega (
        arith,
        free_one-total x (s.files f).inode s,
        free_one-total x f (free_one (s.files f).inode s),
      ))
]

held-files : (x f : ℕ) (s u : Pool) → u.files ≡ s.files → held x f u ≡ held x f s
held-files x f s u e =
    ap (λ (files : ℕ → File). if f == 0 then 0 else hit x f + hit x (files f).inode) e

held_same :
    (x f : ℕ) (s u : Pool) (b : Bool)
    → ((f == 0) || b) ≡ true
    → (b ≡ true → u.files ≡ s.files)
    → held x f u ≡ held x f s
held_same x f s u true e same = held-files x f s u (same refl)
held_same x f s u false e same = let none_made : (f == 0) ≡ true = ground arith in rw none_made refl

alloc_one-files : (s : Pool) → (alloc_one s).1.files ≡ s.files
unfolding alloc_one
alloc_one-files s = elim (List-cases s.pages) [ inl e ↦ rw e refl | inr (p, ps, e) ↦ rw e refl ]

apart : {b : Bool} → b ≡ false → b ≡ true → ⊥
apart e h = let no : false ≡ true = sym e ∙ h in cc

not_none : {A : Type 0} {a : A} → ¬ (some a ≡ none)
not_none h = cc

-- An end that is not made leaves the files.
make_pipe_end-files :
    (p ops tag : ℕ) (s : Pool)
    → let (f, s') = make_pipe_end p ops tag s in (f == 0) ≡ true → s'.files ≡ s.files
unfolding make_pipe_end
make_pipe_end-files p ops tag s =
    let a = alloc_one s in
    let ino : EndInode = record { fops = ops; priv = p; ino = tag; refcnt = 1 } in
    let s₂ = record a.1 { inodes = put_at a.0 ino a.1.inodes } in
    let Kept : ℕ × Pool → Type 0 = λ r. (r.0 == 0) ≡ true → r.1.files ≡ s.files in
    if_cases Kept (a.0 == 0) _ _ (λ e h. alloc_one-files s)
      (λ e.
        if_cases Kept ((alloc_one s₂).0 == 0) _ _ (λ e' h. alloc_one-files s₂ ∙ alloc_one-files s)
          (λ e' h. absurd (apart e' h)))

-- A `pipe_create` that fails gives back every page that it took: every page is among those that kalloc
-- will still give and those that it was given back as often as before, whichever of the five kallocs
-- returned 0.
pub pipe_create-total :
    (read_ops write_ops x : ℕ) (s s' : Pool)
    → pipe_create read_ops write_ops s ≡ (none, s')
    → x ≢ 0
    → total x s' ≡ total x s
unfolding pipe_create
pipe_create-total read_ops write_ops x s s' e some_x = subst Good e whole refl
  where
    Good : Option (ℕ × ℕ) × Pool → Type 0
    Good r = r.0 ≡ none → total x r.1 ≡ total x s

    whole : Good (pipe_create read_ops write_ops s)
    whole =
        let a = alloc_one s in
        let s₂ = record a.1 { pipes = put_at a.0 fresh a.1.pipes } in
        let r = make_pipe_end a.0 read_ops read_end s₂ in
        let w = make_pipe_end a.0 write_ops write_end r.1 in
        let first = alloc_one-total x s some_x in
        let second = make_pipe_end-total x a.0 read_ops read_end s₂ some_x in
        let third = make_pipe_end-total x a.0 write_ops write_end r.1 some_x in
        if_cases Good (a.0 == 0) _ _ (λ e h. omega (arith, first, hit-zero x a.0 some_x e))
          (λ e.
            if_cases Good ((r.0 == 0) || (w.0 == 0)) _ _
              (λ e' h.
                let same : held x r.0 w.1 ≡ held x r.0 r.1 =
                  held_same x r.0 r.1 w.1 (w.0 == 0) e'
                    (make_pipe_end-files a.0 write_ops write_end r.1) in
                let u = drop_end r.0 w.1 in
                let still = held-files x w.0 w.1 u (drop_end-files r.0 w.1) in
                omega (
                  arith,
                  first,
                  second,
                  third,
                  same,
                  still,
                  drop_end-total x r.0 w.1,
                  drop_end-total x w.0 u,
                  free_one-total x a.0 (drop_end w.0 u),
                ))
              (λ e' h. absurd (not_none h)))
