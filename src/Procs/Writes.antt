-- ===== src/Procs/Writes.antt =====
-- What the calls of kernel/proc.c are made of: elementary writes to a slot and to a processor, and the
-- invariants that these keep.
use jeos.Prelude.{
  ℕ, suc, ◌+◌, ◌%◌, ◌^◌, ◌<◌, ◌≡◌, sym, subst, inl, inr, true, false, none, some, List, ◌==◌,
  Bool-cases, length, get_or, set, arith,
}
use jeos.Procs.{Proc, Kernel, max_procs, proc_at, set_proc, is_unused}
use jeos.Procs.Slots.{proc_at-set_proc}
use jeos.Procs.Files.{HasFiles}
use jeos.Procs.Placed.{
  IsPlaced, running_count, set_proc-IsPlaced, leave-IsPlaced, take-IsPlaced, on_cpu-running,
}

-- A sequence of writes, with the number of pids that it hands out.
pub data Writes (k' : Kernel) : (pids : ℕ) → Kernel → Type 0 where
  done : Writes k' 0 k'
  -- An unused slot gets the next pid.
  claim :
      {n : ℕ} {k : Kernel} (i : ℕ) (p : Proc)
      → i < max_procs
      → is_unused (proc_at k i).state ≡ true
      → running_count p.state ≡ 0
      → p.pid ≡ k.next_pid
      → (HasFiles (proc_at k i) → HasFiles p)
      → Writes k' n (set_proc i p (record k { next_pid = (k.next_pid + 1) % 2 ^ 32 }))
      → Writes k' (suc n) k
  -- A slot is written that keeps its pid, runs as before, and comes into use by no such write.
  update :
      {n : ℕ} {k : Kernel} (i : ℕ) (p : Proc) (refcnt : ℕ → ℕ)
      → i < max_procs
      → running_count p.state ≡ running_count (proc_at k i).state
      → p.pid ≡ (proc_at k i).pid
      → (is_unused (proc_at k i).state ≡ true → is_unused p.state ≡ true)
      → (HasFiles (proc_at k i) → HasFiles p)
      → Writes k' n (set_proc i p (record k { refcnt = refcnt }))
      → Writes k' n k
  -- The process of a processor stops to run.
  leave :
      {n : ℕ} {k : Kernel} (c i : ℕ) (p : Proc) (refcnt : ℕ → ℕ)
      → get_or k.cpus c none ≡ some i
      → running_count p.state ≡ 0
      → p.pid ≡ (proc_at k i).pid
      → (HasFiles (proc_at k i) → HasFiles p)
      → Writes k' n (set_proc i p (record k { refcnt = refcnt; cpus = set k.cpus c none }))
      → Writes k' n k
  -- An idle processor runs a process.
  take :
      {n : ℕ} {k : Kernel} (c i : ℕ) (p : Proc) (turns : List ℕ)
      → c < length k.cpus
      → get_or k.cpus c none ≡ none
      → i < max_procs
      → running_count (proc_at k i).state ≡ 0
      → is_unused (proc_at k i).state ≡ false
      → running_count p.state ≡ 1
      → p.pid ≡ (proc_at k i).pid
      → (HasFiles (proc_at k i) → HasFiles p)
      → Writes k' n (set_proc i p (record k { turns = turns; cpus = set k.cpus c (some i) }))
      → Writes k' n k
  turn :
      {n : ℕ} {k : Kernel} (turns : List ℕ)
      → Writes k' n (record k { turns = turns })
      → Writes k' n k

-- The parts of the state that the invariant does not read.
other_fields :
    (n : ℕ) (r : ℕ → ℕ) (ts : List ℕ) (k : Kernel)
    → IsPlaced k
    → IsPlaced (record k { next_pid = n; refcnt = r; turns = ts })
other_fields n r ts k v = record { size = v.size; held = v.held }

pub Writes-IsPlaced : {k' : Kernel} {n : ℕ} {k : Kernel} → Writes k' n k → IsPlaced k → IsPlaced k'
Writes-IsPlaced done v = v
Writes-IsPlaced (claim {k = k} i p inside free stops pid f w) v = Writes-IsPlaced w (
    set_proc-IsPlaced i p (record k { next_pid = (k.next_pid + 1) % 2 ^ 32 }) inside (ground arith)
      (other_fields ((k.next_pid + 1) % 2 ^ 32) k.refcnt k.turns k v))
Writes-IsPlaced (update {k = k} i p r inside same pid used f w) v = Writes-IsPlaced w (
    set_proc-IsPlaced i p (record k { refcnt = r }) inside same
      (other_fields k.next_pid r k.turns k v))
Writes-IsPlaced (leave {k = k} c i p r here stops pid f w) v = Writes-IsPlaced w (
    leave-IsPlaced c i p (record k { refcnt = r }) here stops
      (other_fields k.next_pid r k.turns k v))
Writes-IsPlaced (take {k = k} c i p ts there idle inside free used runs pid f w) v =
    Writes-IsPlaced w (
      take-IsPlaced c i p (record k { turns = ts }) there idle inside free runs
        (other_fields k.next_pid k.refcnt ts k v))
Writes-IsPlaced (turn {k = k} ts w) v = Writes-IsPlaced w (other_fields k.next_pid k.refcnt ts k v)

-- The pids of the slots in use are different, and all have been handed out.
pub record HasPids (k : Kernel) : Type 0 where
  pub low : (i : ℕ) → is_unused (proc_at k i).state ≡ false → (proc_at k i).pid < k.next_pid
  pub unique :
      (i j : ℕ)
      → is_unused (proc_at k i).state ≡ false
      → is_unused (proc_at k j).state ≡ false
      → (proc_at k i).pid ≡ (proc_at k j).pid
      → i ≡ j

-- A slot written with its own pid, or an unused one.
keep-HasPids :
    (i : ℕ) (p : Proc) (k : Kernel)
    → i < length k.table
    → p.pid ≡ (proc_at k i).pid
    → (is_unused (proc_at k i).state ≡ true → is_unused p.state ≡ true)
    → HasPids k
    → HasPids (set_proc i p k)
keep-HasPids i p k inside same used h = record {
  low = λ j u. ground (arith, proc_at-set_proc i j p k inside, h.low j);
  unique = λ a b u w e.
      ground
        (arith, proc_at-set_proc i a p k inside, proc_at-set_proc i b p k inside, h.unique a b);
}

claim-HasPids :
    (i : ℕ) (p : Proc) (k : Kernel)
    → i < length k.table
    → p.pid ≡ k.next_pid
    → k.next_pid + 1 < 2 ^ 32
    → HasPids k
    → HasPids (set_proc i p (record k { next_pid = (k.next_pid + 1) % 2 ^ 32 }))
claim-HasPids i p k inside pid room h =
    let k₁ = record k { next_pid = (k.next_pid + 1) % 2 ^ 32 } in
    record {
      low = λ j u. ground (arith, proc_at-set_proc i j p k₁ inside, h.low j);
      unique = λ a b u w e. ground (
        arith,
        proc_at-set_proc i a p k₁ inside,
        proc_at-set_proc i b p k₁ inside,
        h.low a,
        h.low b,
        h.unique a b,
      );
    }

-- A sequence of writes hands out the pids one after the other.
pub Writes-HasPids :
    {k' : Kernel} {n : ℕ} {k : Kernel}
    → Writes k' n k
    → IsPlaced k
    → k.next_pid + n < 2 ^ 32
    → HasPids k
    → HasPids k' × (k'.next_pid ≡ k.next_pid + n)
Writes-HasPids done v room h = (h, omega arith)
Writes-HasPids (claim {n} {k} i p inside free stops pid f w) v room h =
    let k₁ = record k { next_pid = (k.next_pid + 1) % 2 ^ 32 } in
    let v₁ =
      set_proc-IsPlaced i p k₁ inside (ground arith)
        (other_fields ((k.next_pid + 1) % 2 ^ 32) k.refcnt k.turns k v) in
    let h₁ = claim-HasPids i p k (omega (arith, v.size)) pid (omega arith) h in
    let (h', e) = Writes-HasPids w v₁ (omega arith) h₁ in (h', omega (arith, e))
Writes-HasPids (update {n} {k} i p r inside same pid used f w) v room h =
    Writes-HasPids w
      (set_proc-IsPlaced i p (record k { refcnt = r }) inside same
        (other_fields k.next_pid r k.turns k v))
      room
      (keep-HasPids i p (record k { refcnt = r }) (omega (arith, v.size)) pid used
        (record { low = h.low; unique = h.unique }))
Writes-HasPids (leave {n} {k} c i p r here stops pid f w) v room h =
    let k₁ = record k { refcnt = r; cpus = set k.cpus c none } in
    let (inside, runs) = on_cpu-running c i k here v in
    Writes-HasPids w
      (leave-IsPlaced c i p (record k { refcnt = r }) here stops
        (other_fields k.next_pid r k.turns k v))
      room
      (keep-HasPids i p k₁ (omega (arith, v.size)) pid (ground arith)
        (record { low = h.low; unique = h.unique }))
Writes-HasPids (take {n} {k} c i p ts there idle inside free used runs pid f w) v room h =
    let k₁ = record k { turns = ts; cpus = set k.cpus c (some i) } in
    Writes-HasPids w
      (take-IsPlaced c i p (record k { turns = ts }) there idle inside free runs
        (other_fields k.next_pid k.refcnt ts k v))
      room
      (keep-HasPids i p k₁ (omega (arith, v.size)) pid (ground arith)
        (record { low = h.low; unique = h.unique }))
Writes-HasPids (turn {n} {k} ts w) v room h =
    Writes-HasPids w (other_fields k.next_pid k.refcnt ts k v) room
      (record { low = h.low; unique = h.unique })

-- Every slot has its descriptors, and none if it is dead.
abbrev pub IsClean : Kernel → Type 0
IsClean k = (i : ℕ) → HasFiles (proc_at k i)

set_proc-IsClean :
    (i : ℕ) (p : Proc) (k : Kernel)
    → i < length k.table
    → (HasFiles (proc_at k i) → HasFiles p)
    → IsClean k
    → IsClean (set_proc i p k)
set_proc-IsClean i p k inside f c j =
    subst HasFiles (sym (proc_at-set_proc i j p k inside))
      (elim (Bool-cases (i == j)) [ inl same ↦ rw same (f (c i)) | inr other ↦ rw other (c j) ])

pub Writes-IsClean :
    {k' : Kernel} {n : ℕ} {k : Kernel} → Writes k' n k → IsPlaced k → IsClean k → IsClean k'
Writes-IsClean done v c = c
Writes-IsClean (claim {n} {k} i p inside free stops pid f w) v c =
    let k₁ = record k { next_pid = (k.next_pid + 1) % 2 ^ 32 } in
    Writes-IsClean w
      (set_proc-IsPlaced i p k₁ inside (ground arith)
        (other_fields ((k.next_pid + 1) % 2 ^ 32) k.refcnt k.turns k v))
      (set_proc-IsClean i p k₁ (omega (arith, v.size)) f c)
Writes-IsClean (update {n} {k} i p r inside same pid used f w) v c =
    Writes-IsClean w
      (set_proc-IsPlaced i p (record k { refcnt = r }) inside same
        (other_fields k.next_pid r k.turns k v))
      (set_proc-IsClean i p (record k { refcnt = r }) (omega (arith, v.size)) f c)
Writes-IsClean (leave {n} {k} cpu i p r here stops pid f w) v c =
    let inside = (on_cpu-running cpu i k here v).0 in
    Writes-IsClean w
      (leave-IsPlaced cpu i p (record k { refcnt = r }) here stops
        (other_fields k.next_pid r k.turns k v))
      (set_proc-IsClean i p (record k { refcnt = r; cpus = set k.cpus cpu none })
        (omega (arith, v.size, inside)) f c)
Writes-IsClean (take {n} {k} cpu i p ts there idle inside free used runs pid f w) v c =
    Writes-IsClean w
      (take-IsPlaced cpu i p (record k { turns = ts }) there idle inside free runs
        (other_fields k.next_pid k.refcnt ts k v))
      (set_proc-IsClean i p (record k { turns = ts; cpus = set k.cpus cpu (some i) })
        (omega (arith, v.size)) f c)
Writes-IsClean (turn {n} {k} ts w) v c =
    Writes-IsClean w (other_fields k.next_pid k.refcnt ts k v) c
