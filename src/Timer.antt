-- ===== src/Timer.antt =====
-- src/timer.c: the clock that steps the loader and the processors. A device is a
-- `struct timer_id_container_t`; the one attached as number `i` is device `i`, so the list from
-- `dev_list` on is `num - 1`, ..., 0, and a pointer into it is the number of devices from there
-- on: `suc i` is at device `i` and 0 is NULL.
--
-- A critical section of a lock is one step. A wait on a condition is a step that is possible when
-- the loop around it would end.
pub mod Steps
pub mod Invariant
pub mod Routine
pub mod Barrier
pub mod Rounds
mod Tests
use operating_system_assignm.Prelude.{
  ℕ, zero, suc, ◌+◌, ◌%◌, ◌^◌, Bool, true, false, ◌||◌, ◌==◌, if◌then◌else◌, Option, none, some,
  update,
}

-- Where the thread of a device is: at its own work, in the wait of `next_slot`, or detached.
pub data Phase : Type 0 where
  working : Phase
  waiting : Phase
  gone : Phase

-- `struct timer_id_t`, the place of its thread, and the count of the calls of `next_slot` that have
-- returned, which the code does not keep.
pub record Device : Type 0 where
  pub done : Bool
  pub fsh : Bool
  pub phase : Phase
  pub passed : ℕ

-- Where `timer_routine` is: not started; in its first loop or its second one, with the pointer
-- `temp` and the counts `fsh` and `event`; at its end.
pub data Stage : Type 0 where
  off : Stage
  awaits : ℕ → ℕ → ℕ → Stage
  lets : ℕ → ℕ → ℕ → Stage
  ended : Stage

-- `ticks` is `_time`, before it is cut to 64 bits.
pub record Timer : Type 0 where
  pub num : ℕ
  pub devs : ℕ → Device
  pub ticks : ℕ
  pub stage : Stage
  pub timer_started : Bool
  pub timer_stop : Bool

unfoldable pub current_time : Timer → ℕ
current_time t = t.ticks % 2 ^ 64

abbrev pub fresh : Device
fresh = record { done = false; fsh = false; phase = working; passed = 0 }

-- By `timer_started`. The result is the device, or NULL.
pub attach : Bool → Timer → Option ℕ × Timer
attach true t = (none, t)
attach false t = (some t.num, record t { num = t.num + 1; devs = update t.devs t.num fresh })

unfoldable pub attach_event : Timer → Option ℕ × Timer
unfolding attach
attach_event t = attach t.timer_started t

-- `while (!timer_stop)`: a new round, or the end.
abbrev next_round : Bool → ℕ → Stage
next_round stop num = if stop then ended else awaits num 0 0

unfoldable pub start_timer : Timer → Timer
start_timer t = record t { timer_started = true; stage = next_round t.timer_stop t.num }

-- `next_slot` up to its wait.
unfoldable pub signal : Timer → ℕ → Timer
signal t i = record t {
  devs = update t.devs i (record (t.devs i) { done = true; phase = waiting });
}

-- `next_slot` from the end of its wait on.
unfoldable pub wake : Timer → ℕ → Timer
wake t i = record t {
  devs = update t.devs i (record (t.devs i) { phase = working; passed = (t.devs i).passed + 1 });
}

unfoldable pub detach_event : Timer → ℕ → Timer
detach_event t i = record t {
  devs = update t.devs i (record (t.devs i) { fsh = true; phase = gone });
}

-- A step of `timer_routine` at a stage; `none` where it waits or does not run.
pub routine : Timer → Stage → Option Timer
routine t off = none
routine t ended = none
routine t (awaits zero fsh event) =
    some (record t { ticks = t.ticks + 1; stage = lets t.num fsh event })
routine t (awaits (suc i) fsh event) =
    if (t.devs i).done || (t.devs i).fsh
    then some (record t { stage = awaits i (if (t.devs i).fsh then fsh + 1 else fsh) (event + 1) })
    else none
routine t (lets zero fsh event) =
    some (record t { stage = if fsh == event then ended else next_round t.timer_stop t.num })
routine t (lets (suc i) fsh event) = some (record t {
  devs = update t.devs i (record (t.devs i) { done = false });
  stage = lets i fsh event;
})

unfoldable pub timer_routine : Timer → Option Timer
unfolding routine
timer_routine t = routine t t.stage

-- `stop_timer` up to its wait for the thread of the timer.
unfoldable pub stop_timer : Timer → Timer
stop_timer t = record t { timer_stop = true }

-- `stop_timer` from there on: every device is freed.
unfoldable pub free_devices : Timer → Timer
free_devices t = record t { num = 0 }
