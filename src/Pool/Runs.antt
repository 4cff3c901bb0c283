-- ===== src/Pool/Runs.antt =====
-- What the workers of src/TA section/BKthreadpool make of the tasks that are assigned to them.
use mathlib.Core.Path.{subst}
use operating_system_assignm.Prelude.{
  ℕ, ◌+◌, ◌≤◌, ◌<◌, ◌≡◌, ◌≢◌, ◌⊎◌, inl, inr, refl, Bool, true, false, ◌==◌, if◌then◌else◌, some,
  arith, Bool-cases,
}
use operating_system_assignm.Pool.{
  Task, Place, asleep, woken, calls, has_func, has_arg, working, returned, busy_cleared,
  func_cleared, arg_cleared, Worker, Caller, outside_calls, before_busy, before_func, before_arg,
  before_id, before_signal, Pool, bktask_init, write_func,
}
use operating_system_assignm.Pool.Threads.{
  access, go_on, test_func, cleared, Step, inits, assigns, dispatches, goes_on, works, Steps, start,
  next,
}

-- Whether the function that a worker holds is one that it has yet to read, by where it is.
abbrev pub unread : Place → Bool
unread (has_func f) = false
unread (working f a) = false
unread returned = false
unread busy_cleared = false
unread _ = true

abbrev pub to_run : Worker → ℕ
to_run d = if d.func == 0 then 0 else if unread d.place then 1 else 0

-- At least `k` assignments to a worker have been lost.
abbrev pub LostBy : ℕ → Worker → Type 0
LostBy k d = d.runs + to_run d + k ≤ d.assigned

access-LostBy :
    (k : ℕ) (place : Place) (b : Bool) (d d' : Worker)
    → d.place ≡ place
    → access place b d ≡ some d'
    → LostBy k d
    → LostBy k d'
unfolding access
access-LostBy k asleep b d d' at e h = ground arith
access-LostBy k woken b d d' at e h = ground arith
access-LostBy k calls true d d' at e h = ground arith
access-LostBy k calls false d d' at e h = ground arith
access-LostBy k (has_func f) b d d' at e h = ground arith
access-LostBy k (has_arg a) b d d' at e h = ground arith
access-LostBy k (working f a) b d d' at e h = ground arith
access-LostBy k returned b d d' at e h = ground arith
access-LostBy k busy_cleared b d d' at e h = ground arith
access-LostBy k func_cleared b d d' at e h = ground arith
access-LostBy k arg_cleared b d d' at e h = ground arith

abbrev pub Lost : ℕ → ℕ → Pool → Type 0
Lost u k p = LostBy k (p.worker u)

go_on-Lost : (u k : ℕ) (c : Caller) (p q : Pool) → go_on c p ≡ some q → Lost u k p → Lost u k q
unfolding go_on
go_on-Lost u k outside_calls p q e h = absurd (ground arith)
go_on-Lost u k (before_busy t j w) p q e h = ground arith
go_on-Lost u k (before_func t j w) p q e h = ground arith
go_on-Lost u k (before_arg t j w) p q e h = ground arith
go_on-Lost u k (before_id t j w) p q e h = ground arith
go_on-Lost u k (before_signal w) p q e h = ground arith

Step-Lost : (u k : ℕ) {p q : Pool} → Step p q → Lost u k p → Lost u k q
unfolding bktask_init test_func
Step-Lost u k (inits p func arg i) h = h
Step-Lost u k (assigns p t j w i g l) h = h
Step-Lost u k (dispatches p w i l) h = ground arith
Step-Lost u k (goes_on p q e) h = go_on-Lost u k p.caller p q e h
Step-Lost u k (works p w b d l e) h = elim (Bool-cases (u == w)) [
  | inl same ↦
      let eq : u ≡ w = ground (arith, same) in
      rw same (
        access-LostBy k (p.worker w).place b (p.worker w) d refl e
          (subst (λ x. LostBy k (p.worker x)) eq h))
  | inr other ↦ rw other h
]

Steps-Lost : (u k : ℕ) {p q : Pool} → Steps p q → Lost u k p → Lost u k q
Steps-Lost u k start h = h
Steps-Lost u k (next r s) h = Step-Lost u k s (Steps-Lost u k r h)

-- A worker has run no more tasks than it was assigned.
pub runs-le-assigned :
    (p : Pool) (w : ℕ) → Steps cleared p → (p.worker w).runs ≤ (p.worker w).assigned
runs-le-assigned p w r = omega (arith, Steps-Lost w 0 r (omega arith))

write_func-Lost :
    (w : ℕ) (p : Pool) (t : Task)
    → ((p.worker w).func ≢ 0) ⊎ ((p.worker w).place ≡ busy_cleared)
    → Lost w 0 p
    → Lost w 1 (write_func p t w)
write_func-Lost w p t (inl holds) h = ground arith
write_func-Lost w p t (inr ending) h = ground arith

-- In every state that the threads can reach with their accesses one at a time: if the function of a
-- task is written to a worker that has one already, or whose thread has cleared its busy flag but
-- not yet its function, the worker has run fewer tasks than it was assigned from then on, whatever
-- follows.
pub busy_loses :
    (p q r : Pool) (t : Task) (j w : ℕ)
    → Steps cleared p
    → p.caller ≡ before_func t j w
    → ((p.worker w).func ≢ 0) ⊎ ((p.worker w).place ≡ busy_cleared)
    → go_on p.caller p ≡ some q
    → Steps q r
    → (r.worker w).runs < (r.worker w).assigned
unfolding go_on
busy_loses p q r t j w s at lost e more =
    let here : go_on (before_func t j w) p ≡ some q = rw at at e in
    let h : Lost w 1 (write_func p t w) =
      write_func-Lost w p t lost (Steps-Lost w 0 s (omega arith)) in
    let c : Lost w 1 q = ground (arith, here, h) in omega (arith, Steps-Lost w 1 more c)
