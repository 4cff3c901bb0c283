-- ===== src/Timer/Invariant.antt =====
-- What holds between the timer of src/timer.c and its devices at every step.
use operating_system_assignm.Prelude.{
  ℕ, ◌+◌, ◌≤◌, ◌<◌, ◌≡◌, refl, ◌⊎◌, inl, inr, Bool, true, false, not, ◌&&◌, ltb, leb, some, update,
  arith,
}
use operating_system_assignm.Timer.{
  Phase, working, waiting, gone, Device, Stage, off, awaits, lets, ended, Timer, fresh, next_round,
  attach, attach_event, start_timer, signal, wake, detach_event, stop_timer, free_devices,
}
use operating_system_assignm.Timer.Steps.{cleared}

-- The slots that a device has been let into: those that it has entered, and one more if it still
-- has to notice.
abbrev pub let_in : Phase → Bool → ℕ → ℕ
let_in working done passed = passed
let_in waiting true passed = passed
let_in waiting false passed = passed + 1
let_in gone done passed = passed

-- Device `j` is yet to be released in this round.
abbrev pub held : Stage → ℕ → Bool
held off j = false
held (awaits k fsh event) j = false
held (lets k fsh event) j = ltb j k
held ended j = false

-- The timer has seen device `j` in this round, and not released it.
abbrev pub seen : Stage → ℕ → Bool
seen off j = false
seen (awaits k fsh event) j = leb k j
seen (lets k fsh event) j = ltb j k
seen ended j = false

abbrev pub plus : Bool → ℕ
plus true = 1
plus false = 0

-- What holds of a device that the stage holds or has seen, at time `ticks`.
abbrev pub InStep : Bool → Bool → ℕ → Bool → Bool → Phase → ℕ → Type 0
InStep held seen ticks done fsh working passed =
    (done ≡ false) × (fsh ≡ false) × (seen ≡ false) × (passed + plus held ≡ ticks)
InStep held seen ticks done fsh waiting passed =
    (fsh ≡ false) × ((seen && not done) ≡ false) × (let_in waiting done passed + plus held ≡ ticks)
InStep held seen ticks done fsh gone passed = (fsh ≡ true) × (passed ≤ ticks)

abbrev pub IsDevice : Stage → ℕ → ℕ → Device → Type 0
IsDevice stage ticks j d = InStep (held stage j) (seen stage j) ticks d.done d.fsh d.phase d.passed

-- Every device from `k` on has detached.
abbrev pub AllDetached : Timer → ℕ → Type 0
AllDetached t k = (j : ℕ) → k ≤ j → j < t.num → (t.devs j).fsh ≡ true

-- The counts of a stage.
abbrev pub Counted : Timer → Stage → Type 0
Counted t off = (t.timer_started ≡ false) × (t.ticks ≡ 0)
Counted t (awaits k fsh event) =
    (t.timer_started ≡ true) × (k ≤ t.num) × (fsh ≤ event) × (fsh ≡ event → AllDetached t k)
Counted t (lets k fsh event) =
    (t.timer_started ≡ true) × (k ≤ t.num) × (fsh ≡ event → AllDetached t 0)
Counted t ended = (t.timer_started ≡ true) × ((t.timer_stop ≡ true) ⊎ AllDetached t 0)

pub record IsTimer (t : Timer) : Type 0 where
  pub device : (j : ℕ) → j < t.num → IsDevice t.stage t.ticks j (t.devs j)
  pub counted : Counted t t.stage

pub cleared-IsTimer : IsTimer cleared
cleared-IsTimer = record { device = λ j h. absurd (omega arith); counted = (refl, refl) }

-- A step of a device keeps the counts, if no device comes back.
keeps_Counted :
    (t : Timer) (g : ℕ → Device) (s : Stage)
    → ((j : ℕ) → (t.devs j).fsh ≡ true → (g j).fsh ≡ true)
    → Counted t s
    → Counted (record t { devs = g }) s
keeps_Counted t g off keep c = c
keeps_Counted t g (awaits k fsh event) keep c = (c.0, c.1, c.2, λ e j l h. keep j (c.3 e j l h))
keeps_Counted t g (lets k fsh event) keep c = (c.0, c.1, λ e j l h. keep j (c.2 e j l h))
keeps_Counted t g ended keep (started, inl stop) = (started, inl stop)
keeps_Counted t g ended keep (started, inr all) = (started, inr (λ j l h. keep j (all j l h)))

module _ (t : Timer) (i : ℕ) (h : i < t.num) (v : IsTimer t) where
  pub signal-IsTimer : (t.devs i).phase ≡ working → IsTimer (signal t i)
  unfolding signal
  signal-IsTimer w = record {
    device = λ j l. ground (arith, v.device j l, v.device i h);
    counted = keeps_Counted t (signal t i).devs t.stage (λ j f. ground arith) v.counted;
  }

  pub wake-IsTimer : (t.devs i).phase ≡ waiting → (t.devs i).done ≡ false → IsTimer (wake t i)
  unfolding wake
  wake-IsTimer w d = record {
    device = λ j l. ground (arith, v.device j l, v.device i h);
    counted = keeps_Counted t (wake t i).devs t.stage (λ j f. ground arith) v.counted;
  }

  pub detach_event-IsTimer : (t.devs i).phase ≡ working → IsTimer (detach_event t i)
  unfolding detach_event
  detach_event-IsTimer w = record {
    device = λ j l. ground (arith, v.device j l, v.device i h);
    counted = keeps_Counted t (detach_event t i).devs t.stage (λ j f. ground arith) v.counted;
  }

-- A stage of a timer that runs.
started_stage : (t : Timer) (s : Stage) → t.timer_started ≡ false → Counted t s → s ≡ off
started_stage t off h c = refl
started_stage t (awaits k fsh event) h c = cc
started_stage t (lets k fsh event) h c = cc
started_stage t ended h c = cc

idle : (t : Timer) (s : Stage) → s ≡ off → Counted t s → t.ticks ≡ 0
idle t off h c = c.1
idle t (awaits k fsh event) h c = cc
idle t (lets k fsh event) h c = cc
idle t ended h c = cc

attached-Counted :
    (t : Timer) (s : Stage)
    → s ≡ off
    → Counted t s
    → Counted (record t { num = t.num + 1; devs = update t.devs t.num fresh }) s
attached-Counted t off h c = c
attached-Counted t (awaits k fsh event) h c = cc
attached-Counted t (lets k fsh event) h c = cc
attached-Counted t ended h c = cc

attached :
    (t : Timer)
    → t.stage ≡ off
    → IsTimer t
    → IsTimer (record t { num = t.num + 1; devs = update t.devs t.num fresh })
attached t h v = record {
  device = λ j l. ground (arith, v.device j, idle t t.stage h v.counted);
  counted = attached-Counted t t.stage h v.counted;
}

attach_lem :
    (t : Timer) (b : Bool)
    → b ≡ false
    → attach b t ≡ (some t.num, record t { num = t.num + 1; devs = update t.devs t.num fresh })
unfolding attach
attach_lem t true e = cc
attach_lem t false e = refl

pub attach_event_lem :
    (t : Timer)
    → t.timer_started ≡ false
    → attach_event t ≡ (some t.num, record t { num = t.num + 1; devs = update t.devs t.num fresh })
unfolding attach_event
attach_event_lem t e = attach_lem t t.timer_started e

attach-IsTimer : (t : Timer) (b : Bool) → t.timer_started ≡ b → IsTimer t → IsTimer (attach b t).1
unfolding attach
attach-IsTimer t true e v = v
attach-IsTimer t false e v = attached t (started_stage t t.stage e v.counted) v

pub attach_event-IsTimer : (t : Timer) → IsTimer t → IsTimer (attach_event t).1
unfolding attach_event
attach_event-IsTimer t v = attach-IsTimer t t.timer_started refl v

started :
    (t : Timer) (stop : Bool)
    → t.timer_stop ≡ stop
    → t.stage ≡ off
    → IsTimer t
    → IsTimer (record t { timer_started = true; stage = next_round stop t.num })
started t true e h v = record {
  device = λ j l. ground (arith, v.device j l);
  counted = (refl, inl e);
}
started t false e h v = record {
  device = λ j l. ground (arith, v.device j l);
  counted = (refl, omega arith, omega arith, λ _ j l h. absurd (omega arith));
}

pub start_timer-IsTimer :
    (t : Timer) → t.timer_started ≡ false → IsTimer t → IsTimer (start_timer t)
unfolding start_timer
start_timer-IsTimer t h v = started t t.timer_stop refl (started_stage t t.stage h v.counted) v

stop-Counted : (t : Timer) (s : Stage) → Counted t s → Counted (record t { timer_stop = true }) s
stop-Counted t off c = c
stop-Counted t (awaits k fsh event) c = c
stop-Counted t (lets k fsh event) c = c
stop-Counted t ended c = (c.0, inl refl)

pub stop_timer-IsTimer : (t : Timer) → IsTimer t → IsTimer (stop_timer t)
unfolding stop_timer
stop_timer-IsTimer t v = record { device = v.device; counted = stop-Counted t t.stage v.counted }

free-Counted :
    (t : Timer) (s : Stage)
    → s ≡ ended
    → t.timer_stop ≡ true
    → Counted t s
    → Counted (record t { num = 0 }) s
free-Counted t off h e c = cc
free-Counted t (awaits k fsh event) h e c = cc
free-Counted t (lets k fsh event) h e c = cc
free-Counted t ended h e c = (c.0, inl e)

pub free_devices-IsTimer :
    (t : Timer) → t.stage ≡ ended → t.timer_stop ≡ true → IsTimer t → IsTimer (free_devices t)
unfolding free_devices
free_devices-IsTimer t h e v = record {
  device = λ j l. absurd (omega arith);
  counted = free-Counted t t.stage h e v.counted;
}
