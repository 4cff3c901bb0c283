-- ===== src/Pool/Tests.antt =====
-- Runs of src/TA section/BKthreadpool, after its main.c.
use operating_system_assignm.Prelude.{ℕ, ◌<◌, ◌≡◌, refl, inl, true, Option, none, some, arith}
use operating_system_assignm.Pool.{
  Task, Worker, before_busy, Pool, bktask_get_byid, bktask_init, set_worker, outside,
  bktask_assign_worker, bkwrk_get_worker,
}
use operating_system_assignm.Pool.Tasks.{IsNumbered, bktask_assign_worker_lem}
use operating_system_assignm.Pool.Threads.{
  access, bkwrk_worker, go_on, test_func, cleared, inits, assigns, dispatches, goes_on, works,
  Steps, start, next,
}
use operating_system_assignm.Pool.Work.{Careful, working-Task}
use operating_system_assignm.Pool.Runs.{busy_loses}

abbrev going : Option Pool → Pool
going none = cleared
going (some p) = p

abbrev moving : Worker → Option Worker → Worker
moving d none = d
moving d (some d') = d'

-- The next access of the thread that makes the tasks, and that of worker 0.
abbrev on : Pool → Pool
on p = going (go_on p.caller p)

abbrev worker_on : Pool → Pool
worker_on p = set_worker p 0 (moving (p.worker 0) (bkwrk_worker true (p.worker 0)))

-- Three tasks of the function at 7.
abbrev three : Pool
three = (bktask_init (bktask_init (bktask_init cleared 7 1).1 7 2).1 7 5).1

task : ℕ → ℕ → Task
task arg j = record { func = 7; arg = arg; bktaskid = j }

-- The first is given to the worker that `bkwrk_get_worker` chooses.
abbrev one_given : Pool
one_given = on (on (on (on (record three { caller = before_busy (task 1 0) 0 0 }))))

three-Steps : Steps cleared three
unfolding bktask_init
three-Steps = next (next (next start (inits _ 7 1 refl)) (inits _ 7 2 refl)) (inits _ 7 5 refl)

one_given-Steps : Steps cleared one_given
unfolding bktask_init bktask_get_byid go_on task bkwrk_get_worker
one_given-Steps =
    next
      (next
        (next
          (next
            (next three-Steps
              (assigns three (task 1 0) 0 (bkwrk_get_worker three) refl refl (omega arith)))
            (goes_on _ _ refl))
          (goes_on _ _ refl))
        (goes_on _ _ refl))
      (goes_on _ _ refl)

-- The second goes to the same worker, up to the write of its function.
abbrev second_at_func : Pool
second_at_func = on (record one_given { caller = before_busy (task 2 1) 1 0 })

second_at_func-Steps : Steps cleared second_at_func
unfolding bktask_init bktask_get_byid go_on task
second_at_func-Steps =
    next (next one_given-Steps (assigns one_given (task 2 1) 1 0 refl refl (omega arith)))
      (goes_on _ _ refl)

busy_loses_example : ((on second_at_func).worker 0).runs < ((on second_at_func).worker 0).assigned
unfolding bktask_init go_on task
busy_loses_example =
    busy_loses second_at_func (on second_at_func) (on second_at_func) (task 2 1) 1 0
      second_at_func-Steps refl (inl (cc)) refl start

-- The signal is sent to the worker, and it comes to its call.
abbrev called : Pool
called = worker_on (worker_on (worker_on (worker_on (on (test_func one_given 0)))))

called-Steps : Steps cleared called
unfolding bktask_init go_on test_func task access
called-Steps =
    next
      (next
        (next
          (next
            (next (next one_given-Steps (dispatches one_given 0 refl (omega arith)))
              (goes_on _ _ refl))
            (works _ 0 true _ (omega arith) refl))
          (works _ 0 true _ (omega arith) refl))
        (works _ 0 true _ (omega arith) refl))
      (works _ 0 true _ (omega arith) refl)

called-Careful : Careful called-Steps
unfolding called-Steps one_given-Steps three-Steps bktask_init go_on test_func task access
    bkwrk_get_worker
called-Careful =
    ((((((((((((((tt, tt), tt), tt), (refl, refl)), tt), tt), tt), tt), tt), tt), tt), tt), tt), tt)

working-Task_example :
    (j : ℕ) × (t : Task) × ((called.worker 0).bktaskid ≡ some j)
    × (bktask_get_byid called j ≡ some t)
    × (t.func ≡ 7)
    × (t.arg ≡ 1)
unfolding bktask_init go_on test_func task access
working-Task_example = working-Task called 0 7 1 called-Steps called-Careful refl

three-IsNumbered : IsNumbered three
unfolding bktask_init
three-IsNumbered = record { numbered = omega arith; sized = refl }

bktask_assign_worker_lem_example :
    (t : Task) × (bktask_get_byid three 2 ≡ some t)
    × (t.bktaskid ≡ 2)
    × (bktask_assign_worker three 2 10 ≡ outside)
unfolding bktask_init
bktask_assign_worker_lem_example =
    bktask_assign_worker_lem three three-IsNumbered 2 10 (omega arith)
