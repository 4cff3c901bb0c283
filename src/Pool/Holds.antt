-- ===== src/Pool/Holds.antt =====
-- What a worker of src/TA section/BKthreadpool holds, while its thread and the one that assigns tasks to
-- it make their accesses.
use mathlib.Core.Path.{subst}
use operating_system_assignm.Prelude.{
  ℕ, ◌≡◌, ◌≢◌, refl, ◌⊎◌, inl, inr, Bool, true, false, ◌==◌, Option, some, arith, Bool-cases,
}
use operating_system_assignm.Pool.{
  Task, Place, asleep, woken, calls, has_func, has_arg, working, returned, busy_cleared,
  func_cleared, arg_cleared, Worker, Caller, outside_calls, before_busy, before_func, before_arg,
  before_id, before_signal, Pool, bktask_get_byid,
}
use operating_system_assignm.Pool.Tasks.{IsNumbered}
use operating_system_assignm.Pool.Threads.{access}

-- The worker waits, and no signal is on its way.
abbrev pub Waits : Worker → Type 0
Waits d = (d.place ≡ asleep) × (d.pending ≡ false)

-- What a worker holds is a task of the list, under its number.
abbrev pub Holds : (ℕ → Option Task) → Worker → Type 0
Holds tasks d =
    (d.func ≡ 0)
    ⊎ ((j : ℕ) × (t : Task) × (d.bktaskid ≡ some j)
        × (tasks j ≡ some t)
        × (t.func ≡ d.func)
        × (t.arg ≡ d.arg))

-- What a thread has read is what its worker holds, `func` and `arg`.
abbrev pub HasRead : Place → ℕ → ℕ → Type 0
HasRead calls func arg = func ≢ 0
HasRead (has_func f) func arg = (f ≡ func) × (func ≢ 0)
HasRead (has_arg a) func arg = (a ≡ arg) × (func ≢ 0)
HasRead (working f a) func arg = (f ≡ func) × (a ≡ arg) × (func ≢ 0)
HasRead func_cleared func arg = func ≡ 0
HasRead arg_cleared func arg = func ≡ 0
HasRead _ func arg = Unit

abbrev pub Settled : (ℕ → Option Task) → Worker → Type 0
Settled tasks d = Holds tasks d × HasRead d.place d.func d.arg

into :
    (tasks : ℕ → Option Task) (d d' : Worker)
    → some d ≡ some d'
    → Settled tasks d
    → Settled tasks d'
into tasks d d' e h = subst (Settled tasks) {x = d} {y = d'} (cc) h

-- A worker that is settled stays so by a step of its own.
access-Settled :
    (tasks : ℕ → Option Task) (place : Place) (b : Bool) (d d' : Worker)
    → Holds tasks d
    → HasRead place d.func d.arg
    → access place b d ≡ some d'
    → Settled tasks d'
unfolding access
access-Settled tasks asleep b d d' h k e = elim (Bool-cases d.pending) [
  | inl sent ↦ into tasks _ d' (rw sent at e) (h, tt)
  | inr waits ↦ absurd (ground (arith, e))
]
access-Settled tasks woken b d d' h k e = elim (Bool-cases (d.func == 0)) [
  | inl empty ↦ into tasks _ d' (rw empty at e) (h, tt)
  | inr filled ↦ into tasks _ d' (rw filled at e) (h, ground (arith, filled))
]
access-Settled tasks calls true d d' h k e = into tasks _ d' e (h, (refl, k))
access-Settled tasks calls false d d' h k e = into tasks _ d' e (h, (refl, k))
access-Settled tasks (has_func f) b d d' h k e = into tasks _ d' e (h, (k.0, refl, k.1))
access-Settled tasks (has_arg a) b d d' h k e = into tasks _ d' e (h, (refl, k.0, k.1))
access-Settled tasks (working f a) b d d' h k e = into tasks _ d' e (h, tt)
access-Settled tasks returned b d d' h k e = into tasks _ d' e (h, tt)
access-Settled tasks busy_cleared b d d' h k e = into tasks _ d' e (inl refl, refl)
access-Settled tasks func_cleared b d d' h k e = into tasks _ d' e (inl k, k)
access-Settled tasks arg_cleared b d d' h k e = into tasks _ d' e (inl k, tt)

-- A worker, by what the other thread is at.
abbrev pub Fits : (ℕ → Option Task) → Caller → ℕ → Worker → Type 0
Fits tasks outside_calls u d = Settled tasks d
Fits tasks (before_signal w) u d = Settled tasks d
Fits tasks (before_busy t j w) u d = Settled tasks d × (u ≡ w → Waits d)
Fits tasks (before_func t j w) u d = Settled tasks d × (u ≡ w → Waits d)
Fits tasks (before_arg t j w) u d =
    (u ≢ w → Settled tasks d) × (u ≡ w → Waits d × (d.func ≡ t.func))
Fits tasks (before_id t j w) u d =
    (u ≢ w → Settled tasks d) × (u ≡ w → Waits d × (d.func ≡ t.func) × (d.arg ≡ t.arg))

-- The task of an assignment under way is the one with its number.
abbrev pub Named : (ℕ → Option Task) → Caller → Type 0
Named tasks outside_calls = Unit
Named tasks (before_signal w) = Unit
Named tasks (before_busy t j w) = tasks j ≡ some t
Named tasks (before_func t j w) = tasks j ≡ some t
Named tasks (before_arg t j w) = tasks j ≡ some t
Named tasks (before_id t j w) = tasks j ≡ some t

pub record IsPool (p : Pool) : Type 0 where
  pub numbered : IsNumbered p
  pub named : Named (bktask_get_byid p) p.caller
  pub fits : (u : ℕ) → Fits (bktask_get_byid p) p.caller u (p.worker u)

Waits-still : (b : Bool) (d d' : Worker) → Waits d → access d.place b d ≡ some d' → ⊥
unfolding access
Waits-still b d d' h e =
    let here : access asleep b d ≡ some d' = rw (h.0) at e in ground (arith, h.1, here)

-- A worker that makes a step fits as before.
pub access-Fits :
    (tasks : ℕ → Option Task) (c : Caller) (u : ℕ) (b : Bool) (d d' : Worker)
    → Fits tasks c u d
    → access d.place b d ≡ some d'
    → Fits tasks c u d'
access-Fits tasks outside_calls u b d d' h e = access-Settled tasks d.place b d d' h.0 h.1 e
access-Fits tasks (before_signal w) u b d d' h e = access-Settled tasks d.place b d d' h.0 h.1 e
access-Fits tasks (before_busy t j w) u b d d' h e =
    (access-Settled tasks d.place b d d' h.0.0 h.0.1 e, λ z. absurd (Waits-still b d d' (h.1 z) e))
access-Fits tasks (before_func t j w) u b d d' h e =
    (access-Settled tasks d.place b d d' h.0.0 h.0.1 e, λ z. absurd (Waits-still b d d' (h.1 z) e))
access-Fits tasks (before_arg t j w) u b d d' h e = (
  λ ne. access-Settled tasks d.place b d d' (h.0 ne).0 (h.0 ne).1 e,
  λ z. absurd (Waits-still b d d' (h.1 z).0 e),
)
access-Fits tasks (before_id t j w) u b d d' h e = (
  λ ne. access-Settled tasks d.place b d d' (h.0 ne).0 (h.0 ne).1 e,
  λ z. absurd (Waits-still b d d' (h.1 z).0 e),
)

-- The worker of an assignment under way is not in a call.
in_call :
    (tasks : ℕ → Option Task) (u w f a : ℕ) (d : Worker)
    → (u ≢ w → Settled tasks d)
    → (u ≡ w → Waits d)
    → d.place ≡ working f a
    → Settled tasks d
in_call tasks u w f a d apart under at = elim (Bool-cases (u == w)) [
  | inl same ↦ absurd (ground (arith, (under (ground (arith, same))).0, at))
  | inr other ↦ apart (λ z. ground (arith, other, z))
]

pub working-Settled :
    (tasks : ℕ → Option Task) (c : Caller) (u f a : ℕ) (d : Worker)
    → Fits tasks c u d
    → d.place ≡ working f a
    → Settled tasks d
working-Settled tasks outside_calls u f a d h at = h
working-Settled tasks (before_signal w) u f a d h at = h
working-Settled tasks (before_busy t j w) u f a d h at = h.0
working-Settled tasks (before_func t j w) u f a d h at = h.0
working-Settled tasks (before_arg t j w) u f a d h at =
    in_call tasks u w f a d h.0 (λ z. (h.1 z).0) at
working-Settled tasks (before_id t j w) u f a d h at =
    in_call tasks u w f a d h.0 (λ z. (h.1 z).0) at
