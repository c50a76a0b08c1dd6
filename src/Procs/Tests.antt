-- ===== src/Procs/Tests.antt =====
-- Runs of the process table: the first process, its child, and the child's end.
use jeos.Prelude.{
  ℕ, ◌<◌, ◌≡◌, ◌≢◌, ◌↔◌, refl, true, false, none, some, List, get_or, length, codes, arith,
}
use jeos.Procs.{
  running, Kernel, zero_proc, max_procs, proc_at, is_unused, free_slot, proc_alloc, kstack_setup,
  build_fork_tf,
}
use jeos.Procs.Making.{
  share_at, share_loop, proc_fork_in, proc_fork, basename, name_of, init_fds, proc_create_in,
  proc_create, proc_exec,
}
use jeos.Procs.Scheduling.{sys_exit, zombie_child, reaped, wait_round, schedule}
use jeos.Procs.Placed.{IsPlaced}
use jeos.Procs.Writes.{IsClean}
use jeos.Procs.Runs.{
  booted, schedules, creates, Reach, here, next, Reach-IsClean, booted-IsPlaced, booted-IsClean,
  running-iff-cpu, pids-differ,
}
use jeos.Procs.Turns.{Overtaken, overtaken_bounds}
use jeos.Procs.Reaping.{Waited, wait_round-Waited}
use jeos.Procs.Start.{proc_create-stale_frame}

abbrev no_refs : ℕ → ℕ
no_refs f = 0

abbrev path : List ℕ
path = codes "/bin/init"

init_name : name_of path ≡ codes "init"
unfolding basename
init_name = refl

-- Two processors, and the first process made and taken by processor 0.
made : Kernel
unfolding proc_create booted proc_alloc free_slot proc_create_in zero_proc kstack_setup init_fds
made = (proc_create path (some 7) (some 8) (some 0x400000) none none (booted 2 no_refs)).1

first : Kernel
unfolding made schedule
first = schedule 0 made

first-Reach : Reach (booted 2 no_refs) 2 first
unfolding first
first-Reach =
    next (next here (creates path (some 7) (some 8) (some 0x400000) none none refl))
      (schedules 0 (omega arith) refl refl)

on_cpu : get_or first.cpus 0 none ≡ some 0
unfolding first
on_cpu = refl

placed : IsPlaced first × IsClean first
placed = Reach-IsClean first-Reach (booted-IsPlaced 2 no_refs) (booted-IsClean 2 no_refs)

in_use : is_unused (proc_at first 0).state ≡ false
unfolding first
in_use = refl

running-iff-cpu_example :
    ((i : ℕ)
      → ((proc_at first i).state ≡ running) ↔ ((c : ℕ) × (get_or first.cpus c none ≡ some i)))
    × ((i c d : ℕ) → get_or first.cpus c none ≡ some i → get_or first.cpus d none ≡ some i → c ≡ d)
running-iff-cpu_example = running-iff-cpu 2 no_refs first-Reach

pids-differ_example : ◌≡◌ {A = ℕ} 0 0
pids-differ_example = pids-differ 2 no_refs first-Reach (omega arith) 0 0 in_use in_use refl

-- The first process runs another program, whose frame it has from then on, and forks.
ready : Kernel
unfolding first proc_exec
ready = (proc_exec 0 path (some 12) (some 0x401000) 0x7fffffef00 first).1

forked : Kernel
unfolding ready proc_fork proc_fork_in build_fork_tf share_loop share_at
forked = (proc_fork 0 (some 9) (some 10) ready).1

-- Processor 1 passes over the first process, which runs, while the second one can run.
passed : Overtaken 1 1 forked 1 (schedule 1 forked)
unfolding forked
passed = Overtaken.next Overtaken.here refl (schedules 1 (omega arith) refl refl) (λ e. cc) refl

turns : (1 < length forked.turns) × (get_or forked.turns 1 0 < max_procs)
unfolding forked
turns = (omega arith, omega arith)

overtaken_bounds_example : 1 < max_procs
overtaken_bounds_example =
    overtaken_bounds 1 1 1 forked (schedule 1 forked) (omega arith) turns.0 turns.1 passed

wait_round-Waited_example : Waited 0 0 first (wait_round 0 first)
wait_round-Waited_example = wait_round-Waited 0 0 first placed.0 on_cpu

-- The child of the first process runs on processor 1, exits with 5, and its parent reaps it.
reaped_child :
    let k = sys_exit (λ f. true) 1 5 (schedule 1 (schedule 1 forked)) in
    (wait_round 0 k).0 ≡ reaped 2 5 (some 10) (some 9)
unfolding forked wait_round zombie_child sys_exit
reaped_child = refl

-- The child has exited, and its parent has not waited yet.
exited : Kernel
unfolding forked sys_exit
exited = sys_exit (λ f. true) 1 5 (schedule 1 (schedule 1 forked))

exited_on_cpu : get_or exited.cpus 0 none ≡ some 0
unfolding exited
exited_on_cpu = refl

exited_child : zombie_child (proc_at exited 0).pid 0 exited.table ≡ some 1
unfolding exited zombie_child
exited_child = refl

exited_slot : free_slot 0 (wait_round 0 exited).1.table ≡ some 1
unfolding exited wait_round zombie_child
exited_slot = refl

exited_frame : (proc_at exited 1).tf.rip ≢ 0
unfolding exited
exited_frame = omega arith

proc_create-stale_frame_example :
    (proc_at
      (proc_create path (some 7) (some 8) (some 0x400000) none none (wait_round 0 exited).1).1
      1).first_frame
    ≡ (proc_at exited 1).tf
proc_create-stale_frame_example =
    proc_create-stale_frame 0 0 1 path 7 8 0x400000 none none exited exited_on_cpu exited_child
      exited_slot exited_frame
