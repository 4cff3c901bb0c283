-- ===== src/Simulator/Finished.antt =====
-- The end of src/os.c: what has become of the processes.
use operating_system_assignm.Prelude.{
  ℕ, suc, ◌+◌, ◌<◌, ◌≡◌, ◌≢◌, refl, ap, inl, inr, true, false, ltb, Option, some, arith, Bool-cases,
  weigh,
}
use operating_system_assignm.Os.{Pcb}
use operating_system_assignm.Totals.{total-zero, sum_below}
use operating_system_assignm.Sched.{max_prio, init_scheduler}
use operating_system_assignm.Sched.Occurs.{occurs-empty}
use operating_system_assignm.Timer.{Timer, working, lets, ended, timer_routine}
use operating_system_assignm.Timer.Steps.{cleared}
use operating_system_assignm.Timer.Routine.{timer_routine-release}
use operating_system_assignm.Simulator.{
  Place, top, replacing, rechecking, slot_over, resting, stopped, LoadPlace, testing, awaiting,
  too_early, added, pausing, closing, over, File, Simulator, cpu_routine, boot,
}
use operating_system_assignm.Simulator.Steps.{
  ld_routine, Step, cpu, loader, tick, Steps, here, next,
}
use operating_system_assignm.Simulator.Places.{on, placed, IsPlaced}
use operating_system_assignm.Simulator.Conserved.{Steps-IsPlaced, boot-IsPlaced}
use operating_system_assignm.Simulator.Clock.{phase_of}
use operating_system_assignm.Simulator.Slots.{Clocked}
use operating_system_assignm.Simulator.Loading.{Steps-Clocked}
use operating_system_assignm.Simulator.Progress.{main, boot-Clocked, simulator_ended}
use operating_system_assignm.Simulator.Served.{awake, late, Closing, SomeAwake, IsServed}
use operating_system_assignm.Simulator.Serving.{cpu_at-IsServed, load_at-IsServed}

resting_awake :
    (place : Place) (proc : Option ℕ)
    → phase_of place ≢ working
    → place ≢ stopped
    → awake place proc ≡ true
resting_awake top proc a b = refl
resting_awake replacing proc a b = refl
resting_awake rechecking proc a b = absurd (a refl)
resting_awake slot_over proc a b = refl
resting_awake resting proc a b = refl
resting_awake stopped proc a b = absurd (b refl)

-- Before the timer lets the loader out, it holds every CPU.
held_awake :
    (s : Simulator) (fsh event : ℕ)
    → s.timer.stage ≡ lets (suc s.num_cpus) fsh event
    → s.finished ≡ false
    → Clocked s
    → IsServed s
    → SomeAwake s.num_cpus s.cpus
held_awake s fsh event h f v w = (
  0,
  w.some_cpu,
  resting_awake (s.cpus 0).place (s.cpus 0).proc
      (λ e. ground (arith, v.timed.device 0, v.devices, (v.cpu 0 w.some_cpu).0))
      (λ e. ground (arith, w.stops 0 w.some_cpu e)),
)

tick_served :
    (s : Simulator) (t : Timer) (at : LoadPlace)
    → s.at ≡ at
    → Closing at s.finished s.i s.num_processes
    → timer_routine s.timer ≡ some t
    → Clocked s
    → IsServed s
    → 0 < s.mlq.proc_count
    → late at (t.devs s.num_cpus).done ≡ false
    → SomeAwake s.num_cpus s.cpus
tick_served s t testing a k e v w p l = w.served p (ground arith)
tick_served s t awaiting a k e v w p l = w.served p (ground arith)
tick_served s t too_early a k e v w p l = w.served p (ground arith)
tick_served s t added a k e v w p l = absurd (cc)
tick_served s t pausing a k e v w p l = elim (Bool-cases (s.timer.devs s.num_cpus).done) [
  | inl d ↦
      let (fsh, event, h) = timer_routine-release s.timer t s.num_cpus e d l in
      held_awake s fsh event h k.0 v w
  | inr d ↦ w.served p (ground arith)
]
tick_served s t closing a k e v w p l = w.served p (ground arith)
tick_served s t over a k e v w p l = w.served p (ground arith)

module _ {files : ℕ → File} (prios : (x : ℕ) → (files x).prio < max_prio) where
  Step-IsServed :
      {s u : Simulator} → Step files s u → IsPlaced s → Clocked s → IsServed s → IsServed u
  unfolding cpu_routine ld_routine
  Step-IsServed {s} {u} (cpu c h e) m v w =
      cpu_at-IsServed s u c (s.cpus c).place (s.cpus c).proc h refl refl e m w
  Step-IsServed {s} {u} (loader e) m v w = load_at-IsServed files s u s.at refl e w w.closing
  Step-IsServed {s} {u} (tick {t} e) m v w = record {
    some_cpu = w.some_cpu;
    stops = w.stops;
    closing = w.closing;
    served = tick_served s t s.at refl w.closing e v w;
  }

  Steps-IsServed :
      {s u : Simulator} → Steps files s u → IsPlaced s → Clocked s → IsServed s → IsServed u
  Steps-IsServed here m v w = w
  Steps-IsServed (next r st) m v w =
      Step-IsServed st (Steps-IsPlaced files prios r m) (Steps-Clocked r v) (Steps-IsServed r m v w)

proc_count-boot :
    (time_slot num_cpus num_processes : ℕ) (pcbs : ℕ → Pcb)
    → (main time_slot num_cpus num_processes pcbs).mlq.proc_count ≡ 0
unfolding boot init_scheduler
proc_count-boot time_slot num_cpus num_processes pcbs = refl

boot-IsServed :
    (time_slot num_cpus num_processes : ℕ) (pcbs : ℕ → Pcb)
    → 0 < num_cpus
    → IsServed (main time_slot num_cpus num_processes pcbs)
unfolding boot
boot-IsServed time_slot num_cpus num_processes pcbs h = record {
  some_cpu = h;
  stops = λ c l e. cc;
  closing = (refl, omega arith);
  served = λ p l. absurd (omega (arith, proc_count-boot time_slot num_cpus num_processes pcbs));
}

abbrev AllStopped : Simulator → Type 0
AllStopped s = (c : ℕ) → c < s.num_cpus → (s.cpus c).place ≡ stopped

-- At the end the queues are empty.
nothing_waits :
    (s : Simulator) (at : LoadPlace)
    → s.at ≡ at
    → at ≡ over
    → AllStopped s
    → IsServed s
    → s.mlq.proc_count ≡ 0
nothing_waits s at a o stops v = elim (Bool-cases (ltb 0 s.mlq.proc_count)) [
  | inl some_left ↦
      let (c, h, wakes) = v.served (ground arith) (ground (arith, a, o)) in
      absurd (ground (arith, wakes, stops c h))
  | inr none_left ↦ ground arith
]

ended_weigh :
    (s : Simulator) (w : ℕ → ℕ)
    → s.at ≡ over
    → AllStopped s
    → IsPlaced s
    → IsServed s
    → weigh w s.ended + weigh w s.dropped ≡ sum_below s.num_processes w
unfolding placed
ended_weigh s w o stops m v =
    let all : s.i ≡ s.num_processes = ground (arith, o, v.closing) in
    omega (
      arith,
      m.once w,
      ap (λ n. sum_below n w) all,
      occurs-empty w s.mlq m.sched (nothing_waits s s.at refl o stops v),
      total-zero (on w) s.num_cpus s.cpus (λ c h. ground (arith, v.stops c h (stops c h))),
    )

-- Let the priorities be below max_prio and let there be a CPU. In any interleaving from the start
-- of main, once the timer has ended, the processes that have finished and those that a full queue
-- has not taken are, together and each once, all that were to be loaded: every weight sums to the
-- same over both.
pub all_finished :
    {files : ℕ → File}
    → ((x : ℕ) → (files x).prio < max_prio)
    → (time_slot num_cpus num_processes : ℕ) (pcbs : ℕ → Pcb) {s : Simulator} → 0 < num_cpus
    → Steps files (main time_slot num_cpus num_processes pcbs) s
    → s.timer.stage ≡ ended
    → (w : ℕ → ℕ) → weigh w s.ended + weigh w s.dropped ≡ sum_below s.num_processes w
all_finished {files} prios time_slot num_cpus num_processes pcbs {s} h r e w =
    let (o, stops) = simulator_ended time_slot num_cpus num_processes pcbs r e in
    let b = boot-IsPlaced time_slot num_cpus num_processes cleared pcbs in
    ended_weigh s w o stops (Steps-IsPlaced files prios r b) (
      Steps-IsServed prios r b (boot-Clocked time_slot num_cpus num_processes pcbs)
        (boot-IsServed time_slot num_cpus num_processes pcbs h))
