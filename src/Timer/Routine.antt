-- ===== src/Timer/Routine.antt =====
-- The steps of `timer_routine`, src/timer.c.
use mathlib.Core.Path.{subst}
use operating_system_assignm.Prelude.{
  ℕ, zero, suc, ◌+◌, ◌≤◌, ◌≡◌, refl, inl, inr, Bool, true, false, ◌||◌, ◌==◌, if◌then◌else◌, some,
  update, arith, Bool-cases,
}
use operating_system_assignm.Timer.{
  Stage, off, awaits, lets, ended, Timer, next_round, routine, timer_routine,
}
use operating_system_assignm.Timer.Invariant.{IsTimer, AllDetached, Counted}

-- After a look at device `i`, which is in or has detached.
detached_from :
    (t : Timer) (i fsh event : ℕ) (gone : Bool)
    → (t.devs i).fsh ≡ gone
    → fsh ≤ event
    → (fsh ≡ event → AllDetached t (suc i))
    → (if gone then fsh + 1 else fsh) ≡ event + 1
    → AllDetached t i
detached_from t i fsh event true f l all e j k h = ground (arith, f, all (omega arith) j)
detached_from t i fsh event false f l all e j k h = absurd (omega arith)

looked :
    (t : Timer) (i fsh event : ℕ)
    → t.stage ≡ awaits (suc i) fsh event
    → Counted t (awaits (suc i) fsh event)
    → ((t.devs i).done || (t.devs i).fsh) ≡ true
    → IsTimer t
    → IsTimer (record t { stage = awaits i (if (t.devs i).fsh then fsh + 1 else fsh) (event + 1) })
looked t i fsh event h c d v = record {
  device = λ j l. ground (arith, v.device j l);
  counted =
      (c.0, omega arith, ground arith, detached_from t i fsh event (t.devs i).fsh refl c.2 c.3);
}

-- Every device is in.
ticked :
    (t : Timer) (fsh event : ℕ)
    → t.stage ≡ awaits 0 fsh event
    → Counted t (awaits 0 fsh event)
    → IsTimer t
    → IsTimer (record t { ticks = t.ticks + 1; stage = lets t.num fsh event })
ticked t fsh event h c v = record {
  device = λ j l. ground (arith, v.device j l);
  counted = (c.0, omega arith, c.3);
}

released :
    (t : Timer) (i fsh event : ℕ)
    → t.stage ≡ lets (suc i) fsh event
    → Counted t (lets (suc i) fsh event)
    → IsTimer t
    → IsTimer (record t {
      devs = update t.devs i (record (t.devs i) { done = false });
      stage = lets i fsh event;
    })
released t i fsh event h c v = record {
  device = λ j l. ground (arith, v.device j l, v.device i);
  counted = (c.0, omega arith, λ e j k l. ground (arith, c.2 e j k l, c.2 e i));
}

-- The end of a round: the test of the counts, then that of `timer_stop`.
turned :
    (t : Timer) (fsh event : ℕ) (over stop : Bool)
    → t.stage ≡ lets 0 fsh event
    → Counted t (lets 0 fsh event)
    → (fsh == event) ≡ over
    → t.timer_stop ≡ stop
    → IsTimer t
    → IsTimer (record t { stage = if over then ended else next_round stop t.num })
turned t fsh event true stop h c o e v = record {
  device = λ j l. ground (arith, v.device j l);
  counted = (c.0, inr (c.2 (ground arith)));
}
turned t fsh event false true h c o e v = record {
  device = λ j l. ground (arith, v.device j l);
  counted = (c.0, inl e);
}
turned t fsh event false false h c o e v = record {
  device = λ j l. ground (arith, v.device j l);
  counted = (c.0, omega arith, omega arith, λ _ j l h. absurd (omega arith));
}

routine-IsTimer :
    (t : Timer) (s : Stage)
    → t.stage ≡ s
    → Counted t s
    → IsTimer t
    → {u : Timer} → routine t s ≡ some u
    → IsTimer u
unfolding routine
routine-IsTimer t off h c v e = cc
routine-IsTimer t ended h c v e = cc
routine-IsTimer t (awaits zero fsh event) h c v e = subst IsTimer (cc) (ticked t fsh event h c v)
routine-IsTimer t (awaits (suc i) fsh event) h c v e =
    elim (Bool-cases ((t.devs i).done || (t.devs i).fsh)) [
      | inl d ↦ subst IsTimer (ground arith) (looked t i fsh event h c d v)
      | inr d ↦ absurd (ground arith)
    ]
routine-IsTimer t (lets zero fsh event) h c v e =
    subst IsTimer (cc) (turned t fsh event (fsh == event) t.timer_stop h c refl refl v)
routine-IsTimer t (lets (suc i) fsh event) h c v e =
    subst IsTimer (cc) (released t i fsh event h c v)

pub timer_routine-IsTimer : (t u : Timer) → timer_routine t ≡ some u → IsTimer t → IsTimer u
unfolding timer_routine
timer_routine-IsTimer t u e v = routine-IsTimer t t.stage refl v.counted v e

-- The devices and the counts of their slots are left alone.
abbrev pub Keeps : Timer → Timer → Type 0
Keeps t u =
    (u.num ≡ t.num)
    × (u.timer_started ≡ t.timer_started)
    × (u.timer_stop ≡ t.timer_stop)
    × ((j : ℕ) → ((u.devs j).phase ≡ (t.devs j).phase) × ((u.devs j).passed ≡ (t.devs j).passed))

routine-Keeps : (t u : Timer) (s : Stage) → routine t s ≡ some u → Keeps t u
unfolding routine
routine-Keeps t u off e = cc
routine-Keeps t u ended e = cc
routine-Keeps t u (awaits zero fsh event) e = (cc, cc, cc, λ j. (ground arith, ground arith))
routine-Keeps t u (awaits (suc k) fsh event) e =
    (ground arith, ground arith, ground arith, λ j. (ground arith, ground arith))
routine-Keeps t u (lets zero fsh event) e =
    (ground arith, ground arith, ground arith, λ j. (ground arith, ground arith))
routine-Keeps t u (lets (suc k) fsh event) e =
    (ground arith, ground arith, ground arith, λ j. (ground arith, ground arith))

pub timer_routine-Keeps : (t u : Timer) → timer_routine t ≡ some u → Keeps t u
unfolding timer_routine
timer_routine-Keeps t u e = routine-Keeps t u t.stage e

-- The timer clears `done` of a device only where its second loop is at it.
routine-release :
    (t u : Timer) (s : Stage) (n : ℕ)
    → routine t s ≡ some u
    → (t.devs n).done ≡ true
    → (u.devs n).done ≡ false
    → (fsh : ℕ) × (event : ℕ) × (s ≡ lets (suc n) fsh event)
unfolding routine
routine-release t u off n e d f = cc
routine-release t u ended n e d f = cc
routine-release t u (awaits zero fsh event) n e d f = absurd (ground arith)
routine-release t u (awaits (suc k) fsh event) n e d f = absurd (ground arith)
routine-release t u (lets zero fsh event) n e d f = absurd (ground arith)
routine-release t u (lets (suc k) fsh event) n e d f = (fsh, event, ground arith)

pub timer_routine-release :
    (t u : Timer) (n : ℕ)
    → timer_routine t ≡ some u
    → (t.devs n).done ≡ true
    → (u.devs n).done ≡ false
    → (fsh : ℕ) × (event : ℕ) × (t.stage ≡ lets (suc n) fsh event)
unfolding timer_routine
timer_routine-release t u n e d f = routine-release t u t.stage n e d f
