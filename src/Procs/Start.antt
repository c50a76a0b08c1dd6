-- ===== src/Procs/Start.antt =====
-- The frame with which a process of kernel/proc.c starts.
use jeos.Prelude.{
  ℕ, ◌<◌, ◌≡◌, ◌≢◌, ap, ◌∙◌, false, Option, none, some, get_or, List, ◌==◌, if◌then◌else◌, length,
  length-set, get_or-set_self, arith,
}
use jeos.Procs.{
  unused, embryo, runnable, TrapFrame, zero_frame, Proc, Kernel, zero_proc, proc_at, free_slot,
  kstack_setup, user_stack_top, user_heap_base,
}
use jeos.Procs.Making.{init_fds, proc_create_in, proc_create, name_of}
use jeos.Procs.Scheduling.{zombie_child, wait_round}
use jeos.Procs.Slots.{free_slot-some, zombie_child-some}
use jeos.Procs.Calls.{claimed}
use jeos.Procs.Fork.{proc_alloc-given}

-- A new program starts at its entry, at the top of the user stack, with interrupts on.
abbrev pub entry_frame : ℕ → TrapFrame
entry_frame entry = record zero_frame {
  cs = 0x43;
  ss = 0x3B;
  rip = entry;
  rsp = user_stack_top;
  rflags = 0x202;
}

create_in-frame :
    (path : List ℕ) (i m e : ℕ) (input output : Option ℕ) (k : Kernel)
    → i < length k.table
    → (proc_at (proc_create_in path i (some m) (some e) input output k).1 i).first_frame
      ≡ (if (proc_at k i).tf.rip == 0 then entry_frame e else (proc_at k i).tf)
unfolding proc_create_in kstack_setup
create_in-frame path i m e input output k inside =
    let p = kstack_setup e user_stack_top (record (proc_at k i) { pml4 = some m }) in
    let t = init_fds input output (record { files = p.files; refcnt = k.refcnt }) in
    let p' = record p {
      files = t.files;
      name = name_of path;
      ppid = 0;
      brk = user_heap_base;
      state = runnable;
    } in
    ap (λ (q : Proc). q.first_frame) (get_or-set_self k.table i p' zero_proc inside) ∙ ground arith

-- The first frame of a process that proc_create makes in a slot, by the frame that is left there.
proc_create-first_frame :
    (path : List ℕ) (i s m e : ℕ) (input output : Option ℕ) (k : Kernel)
    → free_slot 0 k.table ≡ some i
    → (proc_at (proc_create path (some s) (some m) (some e) input output k).1 i).first_frame
      ≡ (if (proc_at k i).tf.rip == 0 then entry_frame e else (proc_at k i).tf)
unfolding proc_create
proc_create-first_frame path i s m e input output k free =
    let p = record (proc_at k i) { pid = k.next_pid; kstack = some s; state = embryo } in
    let inside = (free_slot-some 0 i k.table free).1 in
    let at : proc_at (claimed i p k) i ≡ p =
      get_or-set_self k.table i p zero_proc (omega (arith, inside)) in
    rw (proc_create, proc_alloc-given i s k free, proc_alloc-given i s k free)
      (create_in-frame path i m e input output (claimed i p k)
          (omega (arith, inside, length-set k.table i p))
        ∙ ap (λ (q : Proc). if q.tf.rip == 0 then entry_frame e else q.tf) at)

wait_round-keeps_tf :
    (c i j : ℕ) (k : Kernel)
    → get_or k.cpus c none ≡ some i
    → zombie_child (proc_at k i).pid 0 k.table ≡ some j
    → (proc_at (wait_round c k).1 j).tf ≡ (proc_at k j).tf
unfolding wait_round
wait_round-keeps_tf c i j k on e =
    let inside = (zombie_child-some (proc_at k i).pid 0 j k.table e).1 in
    let p = record (proc_at k j) { pml4 = none; kstack = none; state = unused } in
    rw (wait_round, on, e)
      (ap (λ (q : Proc). q.tf) (get_or-set_self k.table j p zero_proc (omega (arith, inside))))

-- A program that is started in the slot of a process that its parent has reaped does not start at its
-- entry: when the reaped process had a frame, and its slot is the first unused one, the process that
-- proc_create makes there, for any program and any entry, has the first frame of the process that
-- is gone, its instruction pointer and its stack pointer among the rest.
pub proc_create-stale_frame :
    (c i j : ℕ) (path : List ℕ) (s m e : ℕ) (input output : Option ℕ) (k : Kernel)
    → get_or k.cpus c none ≡ some i
    → zombie_child (proc_at k i).pid 0 k.table ≡ some j
    → free_slot 0 (wait_round c k).1.table ≡ some j
    → (proc_at k j).tf.rip ≢ 0
    → (proc_at
        (proc_create path (some s) (some m) (some e) input output (wait_round c k).1).1
        j).first_frame
      ≡ (proc_at k j).tf
proc_create-stale_frame c i j path s m e input output k on child free left =
    let k' = (wait_round c k).1 in
    let kept = wait_round-keeps_tf c i j k on child in
    let test : ((proc_at k' j).tf.rip == 0) ≡ false =
      ground (arith, ap (λ (t : TrapFrame). t.rip) kept, left) in
    proc_create-first_frame path j s m e input output k' free ∙ rw test kept
