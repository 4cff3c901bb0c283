-- ===== src/Simulator/Progress.antt =====
-- The start of src/os.c, the slots of its threads, and their end.
use mathlib.Core.Path.{subst}
use operating_system_assignm.Prelude.{
  ℕ, zero, suc, ◌+◌, ◌≤◌, ◌<◌, ◌≡◌, ◌≢◌, refl, sym, ◌∙◌, inl, inr, true, false, ltb, Option, none,
  some, arith, Bool-cases,
}
use operating_system_assignm.Os.{Pcb}
use operating_system_assignm.Timer.{
  Timer, working, gone, Device, ended, attach_event, start_timer, wake,
}
use operating_system_assignm.Timer.Steps.{cleared}
use operating_system_assignm.Timer.Invariant.{
  IsTimer, cleared-IsTimer, attach_event_lem, attach_event-IsTimer, start_timer-IsTimer,
}
use operating_system_assignm.Timer.Barrier.{CanMove, IsTimer-Moves, IsTimer-ended}
use operating_system_assignm.Simulator.{
  Place, top, replacing, rechecking, slot_over, resting, stopped, Cpu, LoadPlace, testing, awaiting,
  too_early, added, pausing, closing, over, File, Simulator, cpu_wake, cpu_at, cpu_routine,
  attach_cpus, boot_timer, boot,
}
use operating_system_assignm.Simulator.Steps.{load_at, ld_routine, Step, cpu, loader, tick, Steps}
use operating_system_assignm.Simulator.Clock.{IsClocked, phase_of, load_phase}
use operating_system_assignm.Simulator.Slots.{Clocked}
use operating_system_assignm.Simulator.Loading.{Steps-Clocked}

-- A timer to which devices are attached.
record IsFresh (n : ℕ) (t : Timer) : Type 0 where
  timed : IsTimer t
  num : t.num ≡ n
  started : t.timer_started ≡ false
  unstopped : t.timer_stop ≡ false
  works : (j : ℕ) → (t.devs j).phase ≡ working

attach-IsFresh : (n : ℕ) (t : Timer) → IsFresh n t → IsFresh (n + 1) (attach_event t).1
attach-IsFresh n t v =
    let e = attach_event_lem t v.started in
    record {
      timed = attach_event-IsTimer t v.timed;
      num = ground (arith, e, v.num);
      started = ground (arith, e, v.started);
      unstopped = ground (arith, e, v.unstopped);
      works = λ j. ground (arith, e, v.works j);
    }

attach_cpus-IsFresh : (k n : ℕ) (t : Timer) → IsFresh n t → IsFresh (k + n) (attach_cpus k t)
unfolding attach_cpus
attach_cpus-IsFresh zero n t v = subst (λ m. IsFresh m t) {x = n} {y = 0 + n} (omega arith) v
attach_cpus-IsFresh (suc k) n t v =
    subst (λ m. IsFresh m (attach_cpus k (attach_event t).1)) {x = k + (n + 1)} {y = suc k + n}
      (omega arith) (attach_cpus-IsFresh k (n + 1) (attach_event t).1 (attach-IsFresh n t v))

start-IsClocked :
    (n : ℕ) (t : Timer)
    → IsFresh (n + 1) t
    → IsClocked n
        (λ _. record { place = top; proc = none; time_left = 0; executed = 0 })
        testing
        0
        (start_timer t)
unfolding start_timer
start-IsClocked n t v = record {
  timed = start_timer-IsTimer t v.started v.timed;
  devices = v.num;
  started = refl;
  unstopped = v.unstopped;
  cpu = λ c h. (v.works c, omega arith);
  loader = (v.works n, omega arith);
}

-- `main` on the static storage of src/timer.c.
abbrev pub main : ℕ → ℕ → ℕ → (ℕ → Pcb) → Simulator
main time_slot num_cpus num_processes pcbs = boot time_slot num_cpus num_processes cleared pcbs

pub boot-Clocked :
    (time_slot num_cpus num_processes : ℕ) (pcbs : ℕ → Pcb)
    → Clocked (main time_slot num_cpus num_processes pcbs)
unfolding boot boot_timer
boot-Clocked time_slot num_cpus num_processes pcbs =
    start-IsClocked num_cpus (attach_event (attach_cpus num_cpus cleared)).1 (
      attach-IsFresh num_cpus (attach_cpus num_cpus cleared) (
        subst (λ m. IsFresh m (attach_cpus num_cpus cleared)) {x = num_cpus + 0} {y = num_cpus}
          (omega arith)
          (attach_cpus-IsFresh num_cpus 0 cleared (record {
            timed = cleared-IsTimer;
            num = refl;
            started = refl;
            unstopped = refl;
            works = λ j. refl;
          }))))

-- The slots of a device in order.
passed-le :
    (num : ℕ) (cpus : ℕ → Cpu) (at : LoadPlace) (i : ℕ) (t : Timer) (j : ℕ)
    → IsClocked num cpus at i t
    → j < num + 1
    → (t.devs j).passed ≤ t.ticks
passed-le num cpus at i t j v h =
    ground (arith, v.timed.device j (omega (arith, v.devices)), v.devices)

cpu_moves :
    (s : Simulator) (c : ℕ) (place : Place) (proc : Option ℕ) (d : Device)
    → CanMove d
    → d.phase ≡ phase_of place
    → d ≡ s.timer.devs c
    → (u : Simulator) × (cpu_at s c place proc ≡ some u)
unfolding cpu_at
cpu_moves s c top none d m p e = (_, refl)
cpu_moves s c top (some q) d m p e = (_, refl)
cpu_moves s c replacing proc d m p e = (_, refl)
cpu_moves s c rechecking none d m p e = (_, refl)
cpu_moves s c rechecking (some q) d m p e = (_, refl)
cpu_moves s c slot_over proc d m p e = (_, refl)
cpu_moves s c resting proc d m p e = (cpu_wake s c, ground arith)
cpu_moves s c stopped proc d m p e = absurd (ground arith)

load_moves :
    (files : ℕ → File) (s : Simulator) (at : LoadPlace) (d : Device)
    → CanMove d
    → d.phase ≡ load_phase at
    → d ≡ s.timer.devs s.num_cpus
    → (u : Simulator) × (load_at files s at ≡ some u)
unfolding load_at
load_moves files s testing d m p e = (_, refl)
load_moves files s awaiting d m p e = (_, refl)
load_moves files s too_early d m p e =
    (record s { at = awaiting; timer = wake s.timer s.num_cpus }, ground arith)
load_moves files s added d m p e = (_, refl)
load_moves files s pausing d m p e =
    (record s { at = testing; timer = wake s.timer s.num_cpus }, ground arith)
load_moves files s closing d m p e = (_, refl)
load_moves files s over d m p e = absurd (ground arith)

device_moves :
    (files : ℕ → File) (s : Simulator) (j : ℕ)
    → Clocked s
    → j < s.timer.num
    → CanMove (s.timer.devs j)
    → (u : Simulator) × Step files s u
unfolding cpu_routine ld_routine
device_moves files s j v h m = elim (Bool-cases (ltb j s.num_cpus)) [
  | inl l ↦
      let k : j < s.num_cpus = ground arith in
      let (u, e) =
        cpu_moves s j (s.cpus j).place (s.cpus j).proc (s.timer.devs j) m (v.cpu j k).0 refl in
      (u, cpu j k e)
  | inr l ↦
      let k : j ≡ s.num_cpus = ground (arith, v.devices) in
      let (u, e) =
        load_moves files s s.at (s.timer.devs s.num_cpus)
          (subst (λ i. CanMove (s.timer.devs i)) k m) v.loader.0 refl in
      (u, loader e)
]

cpu_stops : (place : Place) → phase_of place ≡ gone → place ≡ stopped
cpu_stops top e = cc
cpu_stops replacing e = cc
cpu_stops rechecking e = cc
cpu_stops slot_over e = cc
cpu_stops resting e = cc
cpu_stops stopped e = refl

load_stops : (at : LoadPlace) → load_phase at ≡ gone → at ≡ over
load_stops testing e = cc
load_stops awaiting e = cc
load_stops too_early e = cc
load_stops added e = cc
load_stops pausing e = cc
load_stops closing e = cc
load_stops over e = refl

fsh-gone :
    (t : Timer) (j : ℕ) → IsTimer t → j < t.num → (t.devs j).fsh ≡ true → (t.devs j).phase ≡ gone
fsh-gone t j v h e = ground (arith, v.device j h)

module _ {files : ℕ → File} (time_slot num_cpus num_processes : ℕ) (pcbs : ℕ → Pcb) {s : Simulator}
    (r : Steps files (main time_slot num_cpus num_processes pcbs) s) where
  clocked : Clocked s
  clocked = Steps-Clocked r (boot-Clocked time_slot num_cpus num_processes pcbs)

  -- In any interleaving from the start of main, the loader has added at most one process, and each
  -- CPU has run at most one instruction, for each slot of the timer and the present one.
  pub slots_bound :
      (s.i ≤ s.timer.ticks + 1)
      × ((c : ℕ) → c < s.num_cpus → (s.cpus c).executed ≤ s.timer.ticks + 1)
  slots_bound = (
    ground (arith, clocked.loader, passed-le s.num_cpus s.cpus s.at s.i s.timer s.num_cpus clocked),
    λ c h. ground (arith, clocked.cpu c h, passed-le s.num_cpus s.cpus s.at s.i s.timer c clocked),
  )

  -- In any interleaving from the start of main, some thread can make a step as long as the timer
  -- has not ended.
  pub simulator_moves : s.timer.stage ≢ ended → (u : Simulator) × Step files s u
  simulator_moves e = elim (IsTimer-Moves s.timer clocked.timed clocked.started e) [
    | inl (t, k) ↦ (record s { timer = t }, tick k)
    | inr (j, h, m) ↦ device_moves files s j clocked h m
  ]

  -- Where the threads are when the timer has ended.
  pub simulator_ended :
      s.timer.stage ≡ ended
      → (s.at ≡ over) × ((c : ℕ) → c < s.num_cpus → (s.cpus c).place ≡ stopped)
  simulator_ended e = elim (IsTimer-ended s.timer clocked.timed e) [
    | inl stop ↦ absurd (cc (stop, clocked.unstopped))
    | inr all ↦ (
      load_stops s.at (
          sym clocked.loader.0
          ∙ fsh-gone s.timer s.num_cpus clocked.timed (omega (arith, clocked.devices))
              (all s.num_cpus (omega (arith, clocked.devices)))),
      λ c h. cpu_stops (s.cpus c).place (
          sym (clocked.cpu c h).0
          ∙ fsh-gone s.timer c clocked.timed (omega (arith, clocked.devices))
              (all c (omega (arith, clocked.devices)))),
    )
  ]
