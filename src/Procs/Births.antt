-- ===== src/Procs/Births.antt =====
-- The calls of kernel/proc.c that make a process, as sequences of elementary writes.
use jeos.Prelude.{
  ℕ, ◌+◌, ◌%◌, ◌^◌, ◌≡◌, refl, ap, ◌∙◌, inl, inr, Option, none, some, List, Option-cases, length,
  get_or, arith,
}
use jeos.Descriptors.{max_fds}
use jeos.Procs.{
  unused, embryo, runnable, Proc, Kernel, proc_at, set_proc, kstack_setup, build_fork_tf,
  user_stack_top, user_heap_base,
}
use jeos.Procs.Making.{
  share_loop, proc_fork_in, proc_fork, init_fds, proc_create_in, proc_create, name_of,
}
use jeos.Procs.Slots.{proc_at-set_proc}
use jeos.Procs.Files.{HasFiles, same-HasFiles, live-HasFiles, share_loop-size, init_fds-size}
use jeos.Procs.Placed.{IsPlaced, running_count}
use jeos.Procs.Writes.{done, claim, update}
use jeos.Procs.Calls.{
  Does, IsClaimed, claimed, full, no_stack, given, proc_alloc-Alloc, kstack_setup-keeps,
}

-- A slot that was claimed, alone and with one more write to it.
claim-Does :
    (i : ℕ) (p : Proc) (k : Kernel)
    → IsClaimed i p k
    → running_count p.state ≡ 0
    → Does k (claimed i p k)
claim-Does i p k c stops = (
  1,
  omega arith,
  claim i p c.inside c.free stops c.pid
      (same-HasFiles (proc_at k i) p c.files (λ d. ground (arith, c.free))) done,
)

claim_update-Does :
    (i : ℕ) (p q : Proc) (refcnt : ℕ → ℕ) (k : Kernel)
    → IsClaimed i p k
    → p.state ≡ embryo
    → IsPlaced k
    → running_count q.state ≡ 0
    → q.pid ≡ (proc_at (claimed i p k) i).pid
    → (HasFiles (proc_at (claimed i p k) i) → HasFiles q)
    → Does k (set_proc i q (record (claimed i p k) { refcnt = refcnt }))
claim_update-Does i p q refcnt k c young v stops pid f =
    let at : proc_at (claimed i p k) i ≡ p = ground (
      arith,
      proc_at-set_proc i i p (record k { next_pid = (k.next_pid + 1) % 2 ^ 32 })
          (omega (arith, v.size, c.inside)),
    ) in
    (
      1,
      omega arith,
      claim i p c.inside c.free (ground arith) c.pid
          (same-HasFiles (proc_at k i) p c.files (λ d. ground (arith, c.free)))
          (update i q refcnt c.inside (ground (arith, at)) pid (ground (arith, at)) f done),
    )

-- A claimed slot given up: its files are those of a slot that was unused.
retire-Does :
    (i : ℕ) (p : Proc) (pml4 : Option ℕ) (k : Kernel)
    → IsClaimed i p k
    → p.state ≡ embryo
    → IsPlaced k
    → Does k (
        set_proc i
          (record (proc_at (claimed i p k) i) { pml4 = pml4; state = unused })
          (claimed i p k))
retire-Does i p pml4 k c young v =
    let k₁ = record k { next_pid = (k.next_pid + 1) % 2 ^ 32 } in
    let at = proc_at-set_proc i i p k₁ (omega (arith, v.size, c.inside)) in
    let old = proc_at (claimed i p k) i in
    let q = record old { pml4 = pml4; state = unused } in
    claim_update-Does i p q k.refcnt k c young v refl refl
      (same-HasFiles old q refl (λ d. ground (arith, at)))

proc_fork_in-Does :
    (pml4 : Option ℕ) (parent i : ℕ) (p : Proc) (k : Kernel)
    → IsClaimed i p k
    → p.state ≡ embryo
    → IsPlaced k
    → Does k (proc_fork_in parent i pml4 (claimed i p k)).1
unfolding proc_fork_in
proc_fork_in-Does none parent i p k c young v =
    let k₁ = claimed i p k in retire-Does i p (none) k c young v
proc_fork_in-Does (some space) parent i p k c young v =
    let k₁ = claimed i p k in
    let old = proc_at k₁ parent in
    let new = record (proc_at k₁ i) { pml4 = some space; tf = build_fork_tf old.tf } in
    let child = kstack_setup 0 0 new in
    let t = share_loop max_fds 0 old.files (record { files = child.files; refcnt = k.refcnt }) in
    let child' = record child {
      files = t.files;
      name = old.name;
      ppid = old.pid;
      brk = old.brk;
      state = runnable;
    } in
    claim_update-Does i p child' t.refcnt k c young v refl (kstack_setup-keeps 0 0 new).0 (λ h.
      live-HasFiles child'
        (share_loop-size max_fds 0 old.files (record { files = child.files; refcnt = k.refcnt })
          ∙ ap length (kstack_setup-keeps 0 0 new).2
          ∙ h.size)
        refl)

proc_create_in-Does :
    (path : List ℕ) (pml4 entry input output : Option ℕ) (i : ℕ) (p : Proc) (k : Kernel)
    → IsClaimed i p k
    → p.state ≡ embryo
    → IsPlaced k
    → Does k (proc_create_in path i pml4 entry input output (claimed i p k)).1
unfolding proc_create_in
proc_create_in-Does path none entry input output i p k c young v =
    let k₁ = claimed i p k in retire-Does i p (none) k c young v
proc_create_in-Does path (some space) none input output i p k c young v =
    let k₁ = claimed i p k in retire-Does i p (some space) k c young v
proc_create_in-Does path (some space) (some e) input output i p k c young v =
    let k₁ = claimed i p k in
    let new = record (proc_at k₁ i) { pml4 = some space } in
    let made = kstack_setup e user_stack_top new in
    let t = init_fds input output (record { files = made.files; refcnt = k.refcnt }) in
    let p' = record made {
      files = t.files;
      name = name_of path;
      ppid = 0;
      brk = user_heap_base;
      state = runnable;
    } in
    claim_update-Does i p p' t.refcnt k c young v refl (kstack_setup-keeps e user_stack_top new).0
      (λ h.
        live-HasFiles p'
          (init_fds-size input output (record { files = made.files; refcnt = k.refcnt })
            ∙ ap length (kstack_setup-keeps e user_stack_top new).2
            ∙ h.size)
          refl)

pub proc_fork-Does :
    (c : ℕ) (kstack pml4 : Option ℕ) (k : Kernel)
    → IsPlaced k
    → Does k (proc_fork c kstack pml4 k).1
unfolding proc_fork
proc_fork-Does c kstack pml4 k v = elim (Option-cases (get_or k.cpus c none)) [
  | inl idle ↦ rw (proc_fork, idle) (0, omega arith, done)
  | inr (parent, here) ↦ elim (proc_alloc-Alloc kstack k v) [
    | full e ↦ rw (proc_fork, here, e, e) (0, omega arith, done)
    | no_stack i p c' s e ↦ rw (proc_fork, here, e, e) (claim-Does i p k c' (ground arith))
    | given i p c' s e ↦ rw (proc_fork, here, e, e) (proc_fork_in-Does pml4 parent i p k c' s v)
  ]
]

pub proc_create-Does :
    (path : List ℕ) (kstack pml4 entry input output : Option ℕ) (k : Kernel)
    → IsPlaced k
    → Does k (proc_create path kstack pml4 entry input output k).1
unfolding proc_create
proc_create-Does path kstack pml4 entry input output k v = elim (proc_alloc-Alloc kstack k v) [
  | full e ↦ rw (proc_create, e, e) (0, omega arith, done)
  | no_stack i p c s e ↦ rw (proc_create, e, e) (claim-Does i p k c (ground arith))
  | given i p c s e ↦
      rw (proc_create, e, e) (proc_create_in-Does path pml4 entry input output i p k c s v)
]
