-- ===== src/Timer/Steps.antt =====
-- The steps of the threads around src/timer.c: each device, `timer_routine`, and the thread that
-- attaches devices, starts the timer and stops it.
use operating_system_assignm.Prelude.{ℕ, ◌<◌, ◌≡◌, true, false, some}
use operating_system_assignm.Timer.{
  working, waiting, off, ended, Timer, fresh, attach_event, start_timer, signal, wake, detach_event,
  timer_routine, stop_timer, free_devices,
}

-- `static` storage before any call.
abbrev pub cleared : Timer
cleared = record {
  num = 0;
  devs = λ _. fresh;
  ticks = 0;
  stage = off;
  timer_started = false;
  timer_stop = false;
}

-- The timer is started once. A device calls `next_slot` or `detach_event` out of its work.
pub data Step : Timer → Timer → Type 0 where
  attaches : (t : Timer) → Step t (attach_event t).1
  starts : (t : Timer) → t.timer_started ≡ false → Step t (start_timer t)
  signals : (t : Timer) (i : ℕ) → i < t.num → (t.devs i).phase ≡ working → Step t (signal t i)
  wakes :
      (t : Timer) (i : ℕ)
      → i < t.num
      → (t.devs i).phase ≡ waiting
      → (t.devs i).done ≡ false
      → Step t (wake t i)
  detaches :
      (t : Timer) (i : ℕ) → i < t.num → (t.devs i).phase ≡ working → Step t (detach_event t i)
  times : {t u : Timer} → timer_routine t ≡ some u → Step t u
  stops : (t : Timer) → Step t (stop_timer t)
  frees : (t : Timer) → t.stage ≡ ended → t.timer_stop ≡ true → Step t (free_devices t)

-- The states that the threads can reach, in any interleaving.
pub data Reachable : Timer → Type 0 where
  start : Reachable cleared
  next : {t u : Timer} → Reachable t → Step t u → Reachable u
