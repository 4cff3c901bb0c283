-- ===== src/Queue.antt =====
-- src/queue.c: a queue of at most ten processes in an array. A process is the address of its
-- `struct pcb_t`; 0 is NULL. `swap` and `sortQueue` change nothing and are left out.
pub mod Refine
mod Tests
use operating_system_assignm.Prelude.{
  ℕ, zero, suc, ◌+◌, ◌-◌, Bool, true, false, ltb, ◌==◌, if◌then◌else◌, Option, none, some, List,
  set, get_or,
}

abbrev pub max_queue_size : ℕ
max_queue_size = 10

-- `struct queue_t`
pub record Queue : Type 0 where
  pub proc : List ℕ
  pub size : ℕ
  pub slot : ℕ

unfoldable pub empty : Queue → Bool
empty q = q.size == 0

-- The flag is the test of the caller, `enqueue (…) == 0`.
unfoldable pub enqueue : Queue → ℕ → Bool × Queue
enqueue q p =
    if ltb q.size max_queue_size
    then (true, record q { proc = set q.proc q.size p; size = q.size + 1 })
    else (false, q)

-- The loop that shifts to the left, from index `i` on, by the rounds that are left.
shift : ℕ → ℕ → List ℕ → List ℕ
shift zero i proc = proc
shift (suc left) i proc = shift left (i + 1) (set proc (i - 1) (get_or proc i 0))

unfoldable pub dequeue : Queue → Option ℕ × Queue
unfolding empty shift
dequeue q = if empty q then (none, q) else (
  some (get_or q.proc 0 0),
  record q { proc = shift (q.size - 1) 1 q.proc; size = q.size - 1 },
)
