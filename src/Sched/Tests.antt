-- ===== src/Sched/Tests.antt =====
-- The scheduler theorems on a scheduler with one process, of priority 1.
use operating_system_assignm.Prelude.{
  ℕ, zero, suc, ◌+◌, ◌<◌, ◌≤◌, ◌≡◌, ◌⊎◌, refl, true, arith, none, some, List, [], ◌∷◌, ◌++◌,
}
use operating_system_assignm.Queue.{empty, enqueue}
use operating_system_assignm.Sched.{
  Mlq, init_scheduler, init_queues, has_turn, put_mlq_proc, get_mlq_proc,
}
use operating_system_assignm.Totals.{total}
use operating_system_assignm.Sched.Invariant.{IsMlq, init-IsMlq, put-IsMlq}
use operating_system_assignm.Sched.Serve.{Turn}
use operating_system_assignm.Sched.Policy.{Choice, get_mlq_proc-Choice, get_mlq_proc-IsMlq}
use operating_system_assignm.Sched.Waiting.{Call, get, calls, gets, ahead, calls-Turn}

abbrev one : Mlq
one = put_mlq_proc init_scheduler 1 7

one-IsMlq : IsMlq one
one-IsMlq = put-IsMlq init_scheduler 1 7 (omega arith) init-IsMlq

get_mlq_proc-Choice_example : Choice one (get_mlq_proc one).0 (get_mlq_proc one).1
get_mlq_proc-Choice_example = get_mlq_proc-Choice one one-IsMlq

get_mlq_proc-IsMlq_example :
    IsMlq (get_mlq_proc one).1
    × (((one.proc_count ≡ 0)
          × ((get_mlq_proc one).0 ≡ none)
          × ((get_mlq_proc one).1.proc_count ≡ 0))
        ⊎ ((p : ℕ) × ((get_mlq_proc one).0 ≡ some p)
            × ((get_mlq_proc one).1.proc_count + 1 ≡ one.proc_count)))
get_mlq_proc-IsMlq_example = get_mlq_proc-IsMlq one one-IsMlq

-- Queue 0 has 140 slots, so the 141st call serves queue 1 at the latest.
abbrev calls_of : ℕ → List Call
calls_of zero = []
calls_of (suc n) = get ∷ calls_of n

due : has_turn (one.queues 1) ≡ true
unfolding has_turn empty enqueue put_mlq_proc init_scheduler init_queues
due = refl

few_ahead : ahead 1 one < gets (calls_of 141)
unfolding ahead total enqueue put_mlq_proc init_scheduler init_queues
few_ahead = omega arith

calls-Turn_example :
    (before : List Call) × (after : List Call) × (calls_of 141 ≡ before ++ (get ∷ after))
    × (gets before ≤ ahead 1 one)
    × Turn (calls one before).queues 1
calls-Turn_example = calls-Turn (calls_of 141) one 1 one-IsMlq tt (omega arith) due few_ahead
