-- ===== src/Timer/Barrier.antt =====
-- The timer of src/timer.c as a barrier for its devices, and its end.
use operating_system_assignm.Prelude.{
  ℕ, zero, suc, ◌+◌, ◌%◌, ◌^◌, ◌≤◌, ◌<◌, ◌≡◌, refl, ◌≢◌, ◌⊎◌, inl, inr, true, false, ◌||◌,
  if◌then◌else◌, some, arith, Bool-cases,
}
use operating_system_assignm.Timer.{
  Phase, working, waiting, gone, Device, Stage, off, awaits, lets, ended, Timer, current_time,
  routine, timer_routine,
}
use operating_system_assignm.Timer.Steps.{
  Step, attaches, starts, signals, wakes, detaches, times, stops, frees, Reachable, start, next,
}
use operating_system_assignm.Timer.Invariant.{
  IsTimer, AllDetached, Counted, cleared-IsTimer, attach_event-IsTimer, start_timer-IsTimer,
  signal-IsTimer, wake-IsTimer, detach_event-IsTimer, stop_timer-IsTimer, free_devices-IsTimer,
}
use operating_system_assignm.Timer.Routine.{timer_routine-IsTimer}

Step-IsTimer : {t u : Timer} → Step t u → IsTimer t → IsTimer u
Step-IsTimer (attaches t) v = attach_event-IsTimer t v
Step-IsTimer (starts t h) v = start_timer-IsTimer t h v
Step-IsTimer (signals t i h w) v = signal-IsTimer t i h v w
Step-IsTimer (wakes t i h w d) v = wake-IsTimer t i h v w d
Step-IsTimer (detaches t i h w) v = detach_event-IsTimer t i h v w
Step-IsTimer (times {t} {u} e) v = timer_routine-IsTimer t u e v
Step-IsTimer (stops t) v = stop_timer-IsTimer t v
Step-IsTimer (frees t h e) v = free_devices-IsTimer t h e v

pub Reachable-IsTimer : {t : Timer} → Reachable t → IsTimer t
Reachable-IsTimer start = cleared-IsTimer
Reachable-IsTimer (next r s) = Step-IsTimer s (Reachable-IsTimer r)

-- The slots whose work a device has done: those that it has left, and the one that it waits to
-- leave.
abbrev pub slots_done : Phase → ℕ → ℕ
slots_done working passed = passed
slots_done waiting passed = passed + 1
slots_done gone passed = passed

-- In every state that the threads can reach, of two devices that have not detached, the one has
-- left no more slots than the other has done the work of.
pub no_device_ahead :
    (t : Timer) (i j : ℕ)
    → Reachable t
    → i < t.num
    → j < t.num
    → (t.devs i).phase ≢ gone
    → (t.devs j).phase ≢ gone
    → (t.devs i).passed ≤ slots_done (t.devs j).phase (t.devs j).passed
no_device_ahead t i j r h k a b =
    ground (arith, (Reachable-IsTimer r).device i h, (Reachable-IsTimer r).device j k)

-- A device at work is in the slot that the timer is in.
pub current_time-working :
    (t : Timer) (i : ℕ)
    → Reachable t
    → i < t.num
    → (t.devs i).phase ≡ working
    → current_time t ≡ (t.devs i).passed % 2 ^ 64
unfolding current_time
current_time-working t i r h w = ground (arith, (Reachable-IsTimer r).device i h)

-- A device that the timer is about to let go on is in its wait, or has detached.
pub releases_waiting :
    (t : Timer) (i fsh event : ℕ)
    → Reachable t
    → t.stage ≡ lets (suc i) fsh event
    → i < t.num
    → ((t.devs i).phase ≡ gone) ⊎ (((t.devs i).phase ≡ waiting) × ((t.devs i).done ≡ true))
releases_waiting t i fsh event r h l = ground (arith, (Reachable-IsTimer r).device i l)

-- The count of a stage says where the devices are: at the end every one has detached, unless the
-- timer was stopped.
ended_stage :
    (t : Timer) (s : Stage) → s ≡ ended → Counted t s → (t.timer_stop ≡ true) ⊎ AllDetached t 0
ended_stage t off h c = cc
ended_stage t (awaits k fsh event) h c = cc
ended_stage t (lets k fsh event) h c = cc
ended_stage t ended h c = c.1

pub IsTimer-ended :
    (t : Timer)
    → IsTimer t
    → t.stage ≡ ended
    → (t.timer_stop ≡ true) ⊎ ((j : ℕ) → j < t.num → (t.devs j).fsh ≡ true)
IsTimer-ended t v h = elim (ended_stage t t.stage h v.counted) [
  | inl e ↦ inl e
  | inr all ↦ inr (λ j l. all j (omega arith) l)
]

pub ends_detached :
    (t : Timer)
    → Reachable t
    → t.stage ≡ ended
    → (t.timer_stop ≡ true) ⊎ ((j : ℕ) → j < t.num → (t.devs j).fsh ≡ true)
ends_detached t r h = IsTimer-ended t (Reachable-IsTimer r) h

-- Device `i` can go on: it is at work, or let out of its wait.
abbrev pub CanMove : Device → Type 0
CanMove d = (d.phase ≡ working) ⊎ ((d.phase ≡ waiting) × (d.done ≡ false))

abbrev pub Moves : Timer → Type 0
Moves t = ((u : Timer) × (timer_routine t ≡ some u)) ⊎ ((i : ℕ) × (i < t.num) × CanMove (t.devs i))

routine_moves :
    (t : Timer) (s : Stage)
    → t.stage ≡ s
    → Counted t s
    → IsTimer t
    → t.timer_started ≡ true
    → s ≢ ended
    → ((u : Timer) × (routine t s ≡ some u)) ⊎ ((i : ℕ) × (i < t.num) × CanMove (t.devs i))
unfolding routine
routine_moves t off h c v b e = absurd (cc)
routine_moves t ended h c v b e = absurd (e refl)
routine_moves t (awaits zero fsh event) h c v b e = inl (_, refl)
routine_moves t (awaits (suc i) fsh event) h c v b e =
    elim (Bool-cases ((t.devs i).done || (t.devs i).fsh)) [
      | inl d ↦ inl (
        record t { stage = awaits i (if (t.devs i).fsh then fsh + 1 else fsh) (event + 1) },
        ground arith,
      )
      | inr d ↦ inr (i, omega arith, ground (arith, v.device i (omega arith)))
    ]
routine_moves t (lets zero fsh event) h c v b e = inl (_, refl)
routine_moves t (lets (suc i) fsh event) h c v b e = inl (_, refl)

pub IsTimer-Moves : (t : Timer) → IsTimer t → t.timer_started ≡ true → t.stage ≢ ended → Moves t
unfolding timer_routine
IsTimer-Moves t v b e = routine_moves t t.stage refl v.counted v b e

pub never_stuck : (t : Timer) → Reachable t → t.timer_started ≡ true → t.stage ≢ ended → Moves t
never_stuck t r b e = IsTimer-Moves t (Reachable-IsTimer r) b e
