-- ===== src/Timer/Rounds.antt =====
-- A whole round of `timer_routine`, src/timer.c, in which it waits for nobody.
use mathlib.Core.Path.{fun_ext}
use operating_system_assignm.Prelude.{
  ℕ, zero, suc, ◌+◌, ◌<◌, ◌≡◌, refl, true, false, ◌||◌, ◌==◌, if◌then◌else◌, ltb, Option, none,
  some, update, arith, ◌∙◌, ap,
}
use operating_system_assignm.Timer.{
  Device, awaits, lets, ended, Timer, next_round, routine, timer_routine,
}

abbrev bind : Option Timer → (Timer → Option Timer) → Option Timer
bind none f = none
bind (some t) f = f t

-- `n` steps of the timer, while it can go on.
pub steps : ℕ → Timer → Option Timer
steps zero t = some t
steps (suc n) t = bind (timer_routine t) (steps n)

-- How many of the first `n` devices have detached.
unfoldable pub detached : ℕ → (ℕ → Device) → ℕ
detached zero devs = 0
detached (suc n) devs = if (devs n).fsh then detached n devs + 1 else detached n devs

abbrev clear : ℕ → (ℕ → Device) → ℕ → Device
clear n devs j = if ltb j n then record (devs j) { done = false } else devs j

bind-bind :
    (f g h : Timer → Option Timer)
    → ((t : Timer) → h t ≡ bind (f t) g)
    → (o : Option Timer) → bind o h ≡ bind (bind o f) g
bind-bind f g h e none = refl
bind-bind f g h e (some t) = e t

-- `k` steps, then `n`.
steps-add : (k n : ℕ) (t : Timer) → steps (k + n) t ≡ bind (steps k t) (steps n)
unfolding steps
steps-add zero n t = ap (λ m. steps m t) {y = n} (omega arith)
steps-add (suc k) n t =
    ap (λ m. steps m t) {y = suc (k + n)} (omega arith)
    ∙ bind-bind (steps k) (steps n) (steps (k + n)) (steps-add k n) (timer_routine t)

abbrev In : (ℕ → Device) → ℕ → Type 0
In devs k = (j : ℕ) → j < k → ((devs j).done || (devs j).fsh) ≡ true

-- The first loop, from a device on, if every device from there on is in.
steps-awaits :
    (k : ℕ) (t : Timer) (fsh event : ℕ)
    → In t.devs k
    → steps (suc k) (record t { stage = awaits k fsh event })
      ≡ some (record t {
        ticks = t.ticks + 1;
        stage = lets t.num (fsh + detached k t.devs) (event + k);
      })
unfolding steps detached timer_routine routine
steps-awaits zero t fsh event d = ground arith
steps-awaits (suc k) t fsh event d = ground (
  arith,
  d k,
  steps-awaits k t (if (t.devs k).fsh then fsh + 1 else fsh) (event + 1) (λ j h. d j (omega arith)),
)

clear-zero : (devs : ℕ → Device) → devs ≡ clear 0 devs
clear-zero devs = fun_ext λ j. ground arith

clear-suc :
    (k : ℕ) (devs : ℕ → Device)
    → clear k (update devs k (record (devs k) { done = false })) ≡ clear (suc k) devs
clear-suc k devs = fun_ext λ j. ground arith

-- The second loop, and the test after it.
steps-lets :
    (k : ℕ) (t : Timer) (fsh event : ℕ)
    → steps (suc k) (record t { stage = lets k fsh event })
      ≡ some (record t {
        devs = clear k t.devs;
        stage = if fsh == event then ended else next_round t.timer_stop t.num;
      })
unfolding steps timer_routine routine
steps-lets zero t fsh event = rw (← clear-zero t.devs) refl
steps-lets (suc k) t fsh event = rw (← clear-suc k t.devs) (
    steps-lets k (record t { devs = update t.devs k (record (t.devs k) { done = false }) }) fsh
      event)

-- If a round of timer_routine starts when every device is done or detached, it comes to its end in
-- two steps for each device and two more: the time is one slot later, the devices are released, and
-- the timer goes on to its next round or ends.
pub steps-round :
    (t : Timer)
    → t.stage ≡ awaits t.num 0 0
    → In t.devs t.num
    → steps (suc t.num + suc t.num) t
      ≡ some (record t {
        devs = clear t.num t.devs;
        ticks = t.ticks + 1;
        stage = if detached t.num t.devs == t.num then ended else next_round t.timer_stop t.num;
      })
steps-round t h d =
    steps-add (suc t.num) (suc t.num) t
    ∙ ap (λ o. bind o (steps (suc t.num)))
        (ap (steps (suc t.num)) (λ i. record t { stage = h i }) ∙ steps-awaits t.num t 0 0 d)
    ∙ steps-lets t.num (record t { ticks = t.ticks + 1 }) (0 + detached t.num t.devs) (0 + t.num)
    ∙ ground arith
