-- ===== src/Timer/Tests.antt =====
-- Two devices under the timer of src/timer.c, step by step.
use operating_system_assignm.Prelude.{
  ℕ, suc, ◌≤◌, ◌≡◌, refl, inl, inr, false, ltb, none, some, arith, if◌then◌else◌, Option-cases,
  or_else, zero,
}
use operating_system_assignm.Timer.{
  awaits, Timer, current_time, attach_event, attach, start_timer, signal, wake, detach_event,
  timer_routine, stop_timer, free_devices,
}
use operating_system_assignm.Timer.Steps.{
  cleared, attaches, starts, signals, wakes, times, Reachable, start, next,
}
use operating_system_assignm.Timer.Barrier.{slots_done, no_device_ahead}
use operating_system_assignm.Timer.Rounds.{steps, detached, steps-round}

-- Two devices are attached and the timer runs.
two_devices : Timer
unfolding attach attach_event start_timer
two_devices = start_timer (attach_event (attach_event cleared).1).1

two_devices-Reachable : Reachable two_devices
unfolding two_devices
two_devices-Reachable = next (next (next start (attaches cleared)) (attaches _)) (starts _ refl)

late_attach : (attach_event two_devices).0 ≡ none
unfolding attach_event two_devices
late_attach = refl

-- Both have called `next_slot`.
both_in : Timer
unfolding signal two_devices
both_in = signal (signal two_devices 0) 1

both_in-Reachable : Reachable both_in
unfolding both_in
both_in-Reachable =
    next (next two_devices-Reachable (signals _ 0 (omega arith) refl))
      (signals _ 1 (omega arith) refl)

one_in_waits : timer_routine (signal two_devices 0) ≡ none
unfolding timer_routine signal two_devices
one_in_waits = refl

-- Up to `n` steps of the timer.
later : ℕ → Timer → Timer
later zero t = t
later (suc n) t = later n (or_else (timer_routine t) t)

later-Reachable : (n : ℕ) (t : Timer) → Reachable t → Reachable (later n t)
unfolding later
later-Reachable zero t r = r
later-Reachable (suc n) t r = elim (Option-cases (timer_routine t)) [
  | inl e ↦ rw e (later-Reachable n t r)
  | inr (u, e) ↦ rw e (later-Reachable n u (next r (times e)))
]

-- The timer has let out the device that was attached last, which goes to work.
ahead : Timer
unfolding both_in later timer_routine wake
ahead = wake (later 4 both_in) 1

ahead-Reachable : Reachable ahead
unfolding ahead
ahead-Reachable =
    next (later-Reachable 4 both_in both_in-Reachable) (wakes _ 1 (omega arith) refl refl)

no_device_ahead_example :
    (ahead.devs 1).passed ≤ slots_done (ahead.devs 0).phase (ahead.devs 0).passed
unfolding ahead
no_device_ahead_example =
    no_device_ahead ahead 1 0 ahead-Reachable (omega arith) (omega arith) (cc) (cc)

time_of_ahead : current_time ahead ≡ 1
unfolding current_time ahead
time_of_ahead = refl

-- Both have detached, and the timer has gone through a round.
over : Timer
unfolding two_devices detach_event later timer_routine
over = later 6 (detach_event (detach_event two_devices 0) 1)

stop_frees : (free_devices (stop_timer over)).num ≡ 0
unfolding free_devices stop_timer
stop_frees = refl

steps-round_example :
    steps 6 both_in
    ≡ some (record both_in {
      devs = λ j. if ltb j 2 then record (both_in.devs j) { done = false } else both_in.devs j;
      ticks = 1;
      stage = awaits 2 0 0;
    })
unfolding both_in detached
steps-round_example = steps-round both_in refl (λ j h. ground arith)
