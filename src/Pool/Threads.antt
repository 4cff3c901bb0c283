-- ===== src/Pool/Threads.antt =====
-- The threads of src/TA section/BKthreadpool: the workers of bkwrk.c, and the one that makes the tasks,
-- assigns them and sends the signals, as main.c does. They hold no lock. Each makes its accesses to
-- what they share one at a time and in the order of the program, and the others may come in between
-- any two of them.
use operating_system_assignm.Prelude.{
  ℕ, ◌+◌, ◌<◌, ◌≡◌, Bool, true, false, ◌==◌, if◌then◌else◌, Option, none, some, [], refl,
}
use operating_system_assignm.Pool.{
  max_worker, Task, Place, asleep, woken, calls, has_func, has_arg, working, returned, busy_cleared,
  func_cleared, arg_cleared, Worker, Caller, outside_calls, before_busy, before_func, before_arg,
  before_id, before_signal, Pool, bktask_get_byid, bktask_init, set_worker, write_busy, write_func,
  write_arg, write_id, send_signal, give,
}

-- The read of `func` for the call, in a worker that is then at `place`.
abbrev read_func : Place → Worker → Worker
read_func place w = record w { place = place; runs = if w.func == 0 then w.runs else w.runs + 1 }

-- The next access of `bkwrk_worker`, from where it is; `none` while it waits for the signal. C leaves
-- open whether `func` or `arg` is read first for the call, so the flag chooses.
unfoldable pub access : Place → Bool → Worker → Option Worker
access asleep func_first w =
    if w.pending then some (record w { pending = false; place = woken }) else none
access woken func_first w = some (record w { place = if w.func == 0 then returned else calls })
access calls true w = some (read_func (has_func w.func) w)
access calls false w = some (record w { place = has_arg w.arg })
access (has_func f) func_first w = some (record w { place = working f w.arg })
access (has_arg a) func_first w = some (read_func (working w.func a) w)
access (working f a) func_first w = some (record w { place = returned })
access returned func_first w = some (record w { busy = false; place = busy_cleared })
access busy_cleared func_first w = some (record w { func = 0; place = func_cleared })
access func_cleared func_first w = some (record w { arg = 0; place = arg_cleared })
access arg_cleared func_first w = some (record w { bktaskid = none; place = asleep })

abbrev pub bkwrk_worker : Bool → Worker → Option Worker
bkwrk_worker func_first w = access w.place func_first w

-- The next access of the other thread inside of `bktask_assign_worker` or `bkwrk_dispatch_worker`.
unfoldable pub go_on : Caller → Pool → Option Pool
go_on outside_calls p = none
go_on (before_busy t j w) p = some (record (write_busy p w) { caller = before_func t j w })
go_on (before_func t j w) p = some (record (write_func p t w) { caller = before_arg t j w })
go_on (before_arg t j w) p = some (record (write_arg p t w) { caller = before_id t j w })
go_on (before_id t j w) p = some (record (write_id p j w) { caller = outside_calls })
go_on (before_signal w) p = some (record (send_signal p w) { caller = outside_calls })

-- The test of `func` in `bkwrk_dispatch_worker`.
unfoldable pub test_func : Pool → ℕ → Pool
test_func p wrkid =
    if (p.worker wrkid).func == 0 then p else record p { caller = before_signal wrkid }

-- The memory of a process at its start, where the pointers are NULL.
abbrev pub cleared : Pool
cleared = record {
  taskid_seed = 0;
  bktask_sz = 0;
  bktask = [];
  worker = λ _. record {
    func = 0;
    arg = 0;
    bktaskid = some 0;
    busy = false;
    pending = false;
    place = asleep;
    assigned = 0;
    runs = 0;
  };
  caller = outside_calls;
}

-- An assignment that is refused changes nothing, and one to the worker max_worker is undefined.
pub data Step : Pool → Pool → Type 0 where
  inits : (p : Pool) (func arg : ℕ) → p.caller ≡ outside_calls → Step p (bktask_init p func arg).1
  assigns :
      (p : Pool) (t : Task) (j w : ℕ)
      → p.caller ≡ outside_calls
      → bktask_get_byid p j ≡ some t
      → w < max_worker
      → Step p (record p { caller = before_busy t j w })
  dispatches :
      (p : Pool) (w : ℕ) → p.caller ≡ outside_calls → w < max_worker → Step p (test_func p w)
  goes_on : (p q : Pool) → go_on p.caller p ≡ some q → Step p q
  works :
      (p : Pool) (w : ℕ) (func_first : Bool) (d : Worker)
      → w < max_worker
      → bkwrk_worker func_first (p.worker w) ≡ some d
      → Step p (set_worker p w d)

-- Any number of steps.
pub data Steps (p : Pool) : Pool → Type 0 where
  start : Steps p p
  next : {q r : Pool} → Steps p q → Step q r → Steps p r

-- An assignment, when no other thread comes in between, does what `bktask_assign_worker` does.
assign_alone :
    (p : Pool) (t : Task) (j w : ℕ)
    → (p1 p2 p3 : Pool) × (go_on (before_busy t j w) p ≡ some p1)
      × (go_on p1.caller p1 ≡ some p2)
      × (go_on p2.caller p2 ≡ some p3)
      × (go_on p3.caller p3 ≡ some (record (give p t j w) { caller = outside_calls }))
unfolding go_on give
assign_alone p t j w = (_, _, _, refl, refl, refl, refl)
