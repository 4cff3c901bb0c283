-- ===== src/Pool.antt =====
-- src/TA section/BKthreadpool: tasks, and workers that run them when they get a signal. A `func` is
-- an address, and 0 is NULL. Creating the threads, what a task does, and signals from elsewhere are
-- left out. The functions of this file run from start to end by themselves; Pool.Threads has the
-- threads, which hold no lock, one access at a time.
-- The numbers of tasks stay below 2 ^ 31, where C's `int` holds them.
pub mod Tasks
pub mod Threads
pub mod Holds
pub mod Work
pub mod Runs
mod Tests
use operating_system_assignm.Prelude.{
  ℕ, ◌+◌, ltb, Bool, true, false, ◌==◌, if◌then◌else◌, Option, none, some, List, [], ◌∷◌, update,
}

abbrev pub max_worker : ℕ
max_worker = 10

-- `struct bktask_t`; the list is that from `bktask` on.
pub record Task : Type 0 where
  pub func : ℕ
  pub arg : ℕ
  pub bktaskid : ℕ

-- Where `bkwrk_worker` is: in `sigwait`; before its test of `func`; before the call, with what it has
-- read of `func` and `arg` so far; in the call of a function; before each of the four assignments
-- behind it.
pub data Place : Type 0 where
  asleep : Place
  woken : Place
  calls : Place
  has_func : ℕ → Place
  has_arg : ℕ → Place
  working : ℕ → ℕ → Place
  returned : Place
  busy_cleared : Place
  func_cleared : Place
  arg_cleared : Place

-- `struct bkworker_t` with the entry of `wrkid_busy`; then the thread of the worker: whether the
-- signal is pending for it, and where it is. The last two are counts that the code does not keep:
-- the tasks whose function was written to the worker, and those that it has called.
pub record Worker : Type 0 where
  pub func : ℕ
  pub arg : ℕ
  pub bktaskid : Option ℕ  -- `none` is -1
  pub busy : Bool
  pub pending : Bool
  pub place : Place
  pub assigned : ℕ
  pub runs : ℕ

-- Where the thread is that makes the tasks: before one of the four writes of
-- `bktask_assign_worker`, of a task under a number to a worker; before the signal of
-- `bkwrk_dispatch_worker`; or outside of both.
pub data Caller : Type 0 where
  outside_calls : Caller
  before_busy : Task → ℕ → ℕ → Caller
  before_func : Task → ℕ → ℕ → Caller
  before_arg : Task → ℕ → ℕ → Caller
  before_id : Task → ℕ → ℕ → Caller
  before_signal : ℕ → Caller

pub record Pool : Type 0 where
  pub taskid_seed : ℕ
  pub bktask_sz : ℕ
  pub bktask : List Task
  pub worker : ℕ → Worker
  pub caller : Caller

-- The loop of `bktask_get_byid`.
find_task : ℕ → List Task → Option Task
find_task bktaskid [] = none
find_task bktaskid (t ∷ ts) = if t.bktaskid == bktaskid then some t else find_task bktaskid ts

unfoldable pub bktask_get_byid : Pool → ℕ → Option Task
unfolding find_task
bktask_get_byid p bktaskid = if ltb p.bktask_sz bktaskid then none else find_task bktaskid p.bktask

-- The result is the number of the task.
unfoldable pub bktask_init : Pool → ℕ → ℕ → ℕ × Pool
bktask_init p func arg = (
  p.taskid_seed,
  record p {
    taskid_seed = p.taskid_seed + 1;
    bktask_sz = p.bktask_sz + 1;
    bktask = record { func = func; arg = arg; bktaskid = p.taskid_seed } ∷ p.bktask;
  },
)

-- What comes of `bktask_assign_worker`: -1, 0, or a write behind the end of `worker`.
pub data Assigning : Type 0 where
  refused : Assigning
  accepted : Pool → Assigning
  outside : Assigning

abbrev pub set_worker : Pool → ℕ → Worker → Pool
set_worker p w d = record p { worker = update p.worker w d }

-- The four writes of an assignment.
abbrev pub write_busy : Pool → ℕ → Pool
write_busy p wrkid = set_worker p wrkid (record (p.worker wrkid) { busy = true })

abbrev pub write_func : Pool → Task → ℕ → Pool
write_func p t wrkid =
    set_worker p wrkid
      (record (p.worker wrkid) { func = t.func; assigned = (p.worker wrkid).assigned + 1 })

abbrev pub write_arg : Pool → Task → ℕ → Pool
write_arg p t wrkid = set_worker p wrkid (record (p.worker wrkid) { arg = t.arg })

abbrev pub write_id : Pool → ℕ → ℕ → Pool
write_id p bktaskid wrkid =
    set_worker p wrkid (record (p.worker wrkid) { bktaskid = some bktaskid })

-- The four of them, when no other thread comes in between.
unfoldable pub give : Pool → Task → ℕ → ℕ → Pool
give p t bktaskid wrkid =
    write_id (write_arg (write_func (write_busy p wrkid) t wrkid) t wrkid) bktaskid wrkid

assign_task : Pool → Option Task → ℕ → ℕ → Assigning
assign_task p none bktaskid wrkid = refused
assign_task p (some t) bktaskid wrkid =
    if ltb wrkid max_worker then accepted (give p t bktaskid wrkid) else outside

unfoldable pub bktask_assign_worker : Pool → ℕ → ℕ → Assigning
unfolding assign_task
bktask_assign_worker p bktaskid wrkid =
    if ltb max_worker wrkid
    then refused
    else assign_task p (bktask_get_byid p bktaskid) bktaskid wrkid

unfoldable pub bkwrk_get_worker : Pool → ℕ
bkwrk_get_worker p = 0

-- A signal that is pending already is not counted twice.
abbrev pub send_signal : Pool → ℕ → Pool
send_signal p wrkid = set_worker p wrkid (record (p.worker wrkid) { pending = true })

-- The flag tells whether the signal was sent; the function itself returns -1 or nothing at all.
pub bkwrk_dispatch_worker : Pool → ℕ → Bool × Pool
bkwrk_dispatch_worker p wrkid =
    if (p.worker wrkid).func == 0 then (false, p) else (true, send_signal p wrkid)
