-- ===== src/Procs/Files.antt =====
-- The descriptors in the slots of kernel/proc.c: their number, and that a dead process has none.
use jeos.Prelude.{
  ℕ, zero, suc, ◌+◌, ◌≡◌, refl, ap, ◌∙◌, inl, inr, Bool, true, false, Option, none, some, List,
  Option-cases, length, length-set, length-replicate, get_or, get_or-replicate, set,
}
use jeos.Descriptors.{Table, max_fds, file_get}
use jeos.Descriptors.Emptied.{file_get-files}
use jeos.Procs.{State, unused, embryo, zombie, Proc, zero_proc}
use jeos.Procs.Making.{share_at, share_loop, init_fds}

-- A slot with no process, with one that is being built, or with a zombie.
abbrev pub is_bare : State → Bool
is_bare unused = true
is_bare embryo = true
is_bare zombie = true
is_bare _ = false

-- The table of descriptors has its size, and is empty in a bare slot.
pub record HasFiles (p : Proc) : Type 0 where
  pub size : length p.files ≡ max_fds
  pub empty : is_bare p.state ≡ true → (j : ℕ) → get_or p.files j none ≡ none

pub zero_proc-HasFiles : HasFiles zero_proc
unfolding zero_proc
zero_proc-HasFiles = record {
  size = length-replicate {A = Option ℕ} max_fds none;
  empty = λ d j. get_or-replicate max_fds j none;
}

-- A slot whose files stay is dead only if it was.
pub same-HasFiles :
    (p q : Proc)
    → q.files ≡ p.files
    → (is_bare q.state ≡ true → is_bare p.state ≡ true)
    → HasFiles p
    → HasFiles q
same-HasFiles p q same dead h = record {
  size = ap length same ∙ h.size;
  empty = λ d j. ap (λ fs. get_or fs j none) same ∙ h.empty (dead d) j;
}

-- A slot that is alive needs only the size.
pub live-HasFiles : (q : Proc) → length q.files ≡ max_fds → is_bare q.state ≡ false → HasFiles q
live-HasFiles q size live = record { size = size; empty = λ d. cc }

share_at-size :
    (i : ℕ) (parent : List (Option ℕ)) (t : Table)
    → length (share_at i parent t).files ≡ length t.files
unfolding share_at
share_at-size i parent t = elim (Option-cases (get_or parent i none)) [
  | inl e ↦ rw (share_at, e) refl
  | inr (f, e) ↦ rw (share_at, e, file_get-files f t) (length-set t.files i (some f))
]

pub share_loop-size :
    (r i : ℕ) (parent : List (Option ℕ)) (t : Table)
    → length (share_loop r i parent t).files ≡ length t.files
unfolding share_loop
share_loop-size zero i parent t = refl
share_loop-size (suc r) i parent t =
    share_loop-size r (i + 1) parent (share_at i parent t) ∙ share_at-size i parent t

stderr : (b : ℕ) (t : Table) → length (set (file_get b t).files 2 (some b)) ≡ length t.files
stderr b t = rw (file_get-files b t) (length-set t.files 2 (some b))

pub init_fds-size :
    (input output : Option ℕ) (t : Table) → length (init_fds input output t).files ≡ length t.files
unfolding init_fds
init_fds-size none none t = refl
init_fds-size (some a) none t = length-set t.files 0 (some a)
init_fds-size none (some b) t =
    stderr b (record t { files = set t.files 1 (some b) }) ∙ length-set t.files 1 (some b)
init_fds-size (some a) (some b) t =
    stderr b (record t { files = set (set t.files 0 (some a)) 1 (some b) })
    ∙ length-set (set t.files 0 (some a)) 1 (some b)
    ∙ length-set t.files 0 (some a)
