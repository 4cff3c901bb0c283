-- ===== src/Simulator.antt =====
-- The threads of src/os.c together: every CPU, the loader and the timer, in any interleaving. A
-- step has one access to what the threads share, but for the test of `done`, which is set once and
-- never cleared. Process `i` is the one that the loader makes at its index `i`. Of `run` only the
-- step of `pc` is kept, and the messages and the memories are left out.
pub mod Steps
pub mod Places
pub mod Conserved
pub mod OnePlace
pub mod Kept
pub mod Clock
pub mod Slots
pub mod Loading
pub mod Progress
pub mod Served
pub mod Serving
pub mod Finished
mod Tests
use operating_system_assignm.Prelude.{
  ℕ, zero, suc, ◌+◌, Bool, true, false, ltb, ◌==◌, if◌then◌else◌, Option, none, some, List, [], ◌∷◌,
  update,
}
use operating_system_assignm.Queue.{max_queue_size}
use operating_system_assignm.Sched.{Mlq, init_scheduler, get_mlq_proc, put_mlq_proc}
use operating_system_assignm.Os.{Pcb, run_pc, less_one}
use operating_system_assignm.Timer.{
  Timer, attach_event, start_timer, current_time, signal, wake, detach_event,
}

-- Where `cpu_routine` is: at the head of its loop; before the `get_proc` that replaces a process;
-- at the second test; before `next_slot`; in its wait; at its end.
pub data Place : Type 0 where
  top : Place
  replacing : Place
  rechecking : Place
  slot_over : Place
  resting : Place
  stopped : Place

-- `executed` counts the instructions that the CPU has run, which the code does not.
pub record Cpu : Type 0 where
  pub place : Place
  pub proc : Option ℕ
  pub time_left : ℕ
  pub executed : ℕ

-- Where `ld_routine` is: at the head of its loop; with a process whose time is to come; in a wait
-- for it; before the `next_slot` behind `add_proc`; in its wait; before `detach_event`; at its end.
pub data LoadPlace : Type 0 where
  testing : LoadPlace
  awaiting : LoadPlace
  too_early : LoadPlace
  added : LoadPlace
  pausing : LoadPlace
  closing : LoadPlace
  over : LoadPlace

-- `ld_processes` at one index, and the size of the process that `load` makes of the file.
pub record File : Type 0 where
  pub start_time : ℕ
  pub prio : ℕ
  pub size : ℕ

-- `ended` and `dropped` are the processes that have finished and those that a full queue has not
-- taken, which the code does not keep.
pub record Simulator : Type 0 where
  pub mlq : Mlq
  pub pcbs : ℕ → Pcb
  pub finished : Bool  -- `done`
  pub time_slot : ℕ
  pub num_cpus : ℕ
  pub cpus : ℕ → Cpu
  pub num_processes : ℕ
  pub at : LoadPlace
  pub i : ℕ
  pub timer : Timer
  pub ended : List ℕ
  pub dropped : List ℕ

-- The loop of `main` that attaches the CPUs.
pub attach_cpus : ℕ → Timer → Timer
attach_cpus zero t = t
attach_cpus (suc n) t = attach_cpus n (attach_event t).1

-- The loader of the number behind the CPUs, and the start.
unfoldable pub boot_timer : ℕ → Timer → Timer
unfolding attach_cpus
boot_timer num_cpus t = start_timer (attach_event (attach_cpus num_cpus t)).1

-- `main`, behind `read_config` and up to the start of the threads.
unfoldable pub boot : ℕ → ℕ → ℕ → Timer → (ℕ → Pcb) → Simulator
unfolding boot_timer
boot time_slot num_cpus num_processes timer pcbs = record {
  mlq = init_scheduler;
  pcbs = pcbs;
  finished = false;
  time_slot = time_slot;
  num_cpus = num_cpus;
  cpus = λ _. record { place = top; proc = none; time_left = 0; executed = 0 };
  num_processes = num_processes;
  at = testing;
  i = 0;
  timer = boot_timer num_cpus timer;
  ended = [];
  dropped = [];
}

abbrev pub set_cpu : Simulator → ℕ → Cpu → Simulator
set_cpu s c d = record s { cpus = update s.cpus c d }

-- Whether the queue of a process has a place for it.
abbrev pub has_room : Simulator → ℕ → Bool
has_room s p = ltb (s.mlq.queues (s.pcbs p).prio).size max_queue_size

-- The head of the loop of a CPU without a process, after `get_proc`.
pub first_get : Simulator → ℕ → Option ℕ × Mlq → Simulator
first_get s c (none, mlq) =
    record (set_cpu s c (record (s.cpus c) { place = slot_over; proc = none })) { mlq = mlq }
first_get s c (some p, mlq) =
    record (set_cpu s c (record (s.cpus c) { place = rechecking; proc = some p })) { mlq = mlq }

-- The process has finished.
unfoldable pub free_proc : Simulator → ℕ → ℕ → Simulator
free_proc s c p =
    record (set_cpu s c (record (s.cpus c) { place = replacing; proc = none; time_left = 0 })) {
      ended = p ∷ s.ended;
    }

-- Its time is over.
unfoldable pub put_back : Simulator → ℕ → ℕ → Simulator
put_back s c p = record (set_cpu s c (record (s.cpus c) { place = replacing; proc = none })) {
  mlq = put_mlq_proc s.mlq (s.pcbs p).prio p;
  dropped = if has_room s p then s.dropped else p ∷ s.dropped;
}

pub check : Simulator → ℕ → ℕ → Simulator
unfolding free_proc put_back
check s c p =
    if (s.pcbs p).pc == (s.pcbs p).size
    then free_proc s c p
    else if (s.cpus c).time_left == 0
    then put_back s c p
    else set_cpu s c (record (s.cpus c) { place = rechecking })

pub replace : Simulator → ℕ → Option ℕ × Mlq → Simulator
replace s c (proc, mlq) =
    record (set_cpu s c (record (s.cpus c) { place = rechecking; proc = proc })) { mlq = mlq }

unfoldable pub stop : Simulator → ℕ → Simulator
stop s c = record (set_cpu s c (record (s.cpus c) { place = stopped })) {
  timer = detach_event s.timer c;
}

-- The CPU after the dispatch and `run`.
abbrev pub after_run : ℕ → Cpu → Cpu
after_run time_slot d = record d {
  place = slot_over;
  time_left = less_one (if d.time_left == 0 then time_slot else d.time_left);
  executed = d.executed + 1;
}

unfoldable pub run_proc : Simulator → ℕ → ℕ → Simulator
unfolding run_pc
run_proc s c p = record (set_cpu s c (after_run s.time_slot (s.cpus c))) {
  pcbs = update s.pcbs p (run_pc (s.pcbs p));
}

unfoldable pub cpu_signal : Simulator → ℕ → Simulator
cpu_signal s c = record (set_cpu s c (record (s.cpus c) { place = resting })) {
  timer = signal s.timer c;
}

unfoldable pub cpu_wake : Simulator → ℕ → Simulator
cpu_wake s c = record (set_cpu s c (record (s.cpus c) { place = top })) { timer = wake s.timer c }

-- A step of CPU `c`, by its place and its process; `none` where it waits or has stopped.
pub cpu_at : Simulator → ℕ → Place → Option ℕ → Option Simulator
unfolding first_get check replace stop run_proc cpu_signal cpu_wake
cpu_at s c top none = some (first_get s c (get_mlq_proc s.mlq))
cpu_at s c top (some p) = some (check s c p)
cpu_at s c replacing proc = some (replace s c (get_mlq_proc s.mlq))
cpu_at s c rechecking none =
    some (if s.finished then stop s c else set_cpu s c (record (s.cpus c) { place = slot_over }))
cpu_at s c rechecking (some p) = some (run_proc s c p)
cpu_at s c slot_over proc = some (cpu_signal s c)
cpu_at s c resting proc = if (s.timer.devs c).done then none else some (cpu_wake s c)
cpu_at s c stopped proc = none

unfoldable pub cpu_routine : Simulator → ℕ → Option Simulator
unfolding cpu_at
cpu_routine s c = cpu_at s c (s.cpus c).place (s.cpus c).proc
