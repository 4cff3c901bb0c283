-- ===== src/Sched.antt =====
-- src/sched.c with MLQ_SCHED: one queue for each priority, and a number of slots for each queue. The
-- global `mlq_ready_queue` is passed along; `queue_lock` is held for the whole of each call, so a
-- call is one step. `ready_queue` and `run_queue` are never used in this configuration.
pub mod Invariant
pub mod Serve
pub mod Policy
pub mod Waiting
pub mod Occurs
mod Tests
use operating_system_assignm.Prelude.{
  ℕ, zero, suc, ◌+◌, ◌-◌, ◌*◌, ◌/◌, Bool, true, false, ltb, not, ◌==◌, ◌&&◌, ◌||◌, if◌then◌else◌,
  Option, none, some, update, replicate,
}
use operating_system_assignm.Queue.{Queue, empty, enqueue, dequeue, max_queue_size}

abbrev pub max_prio : ℕ
max_prio = 140

-- `struct mlq_t`; `queues` is meant below `max_prio`.
pub record Mlq : Type 0 where
  pub queues : ℕ → Queue
  pub proc_count : ℕ
  pub slot_count : ℕ

abbrev all_slots : ℕ
all_slots = max_prio * (max_prio + 1) / 2

unfoldable pub queue_empty : Mlq → Bool
queue_empty m = m.proc_count == 0

-- The loop of `init_scheduler` over the queues from `i` on.
unfoldable pub init_queues : ℕ → ℕ → (ℕ → Queue) → ℕ → Queue
init_queues zero i queues = queues
init_queues (suc left) i queues =
    init_queues left (i + 1) (update queues i (record (queues i) { size = 0; slot = max_prio - i }))

-- On the statically cleared `mlq_ready_queue`.
unfoldable pub init_scheduler : Mlq
init_scheduler = record {
  queues =
      init_queues max_prio 0
        (λ _. record { proc = replicate max_queue_size 0; size = 0; slot = 0 });
  slot_count = all_slots;
  proc_count = 0;
}

-- The loop of `refill_slots_of_mlq` over the queues from `i` on.
unfoldable pub refill_queues : ℕ → ℕ → (ℕ → Queue) → ℕ → Queue
refill_queues zero i queues = queues
refill_queues (suc left) i queues =
    refill_queues left (i + 1) (update queues i (record (queues i) { slot = max_prio - i }))

unfoldable pub refill_slots_of_mlq : Mlq → Mlq
refill_slots_of_mlq m = record m {
  queues = refill_queues max_prio 0 m.queues;
  slot_count = all_slots;
}

-- `!empty (&queues[i]) && queues[i].slot > 0`
unfoldable pub has_turn : Queue → Bool
has_turn q = not (empty q) && ltb 0 q.slot

-- The loop of `get_proc_by_slot`: the queue at which it stops, among `left` from `i` on.
unfoldable pub first_turn : ℕ → ℕ → (ℕ → Queue) → Option ℕ
first_turn zero i queues = none
first_turn (suc left) i queues =
    let rest = first_turn left (i + 1) queues in if has_turn (queues i) then some i else rest

-- The body of that loop, at the queue where it stops.
unfoldable pub serve : Mlq → ℕ → Option ℕ × Mlq
serve m i =
    let q = record (m.queues i) { slot = (m.queues i).slot - 1 } in
    let (proc, q') = dequeue q in
    (
      proc,
      record m {
        queues = update m.queues i q';
        proc_count = m.proc_count - 1;
        slot_count = m.slot_count - 1;
      },
    )

serve_at : Mlq → Option ℕ → Option ℕ × Mlq
serve_at m none = (none, m)
serve_at m (some i) = serve m i

unfoldable pub get_proc_by_slot : Mlq → Option ℕ × Mlq
unfolding serve_at
get_proc_by_slot m =
    if m.proc_count == 0 then (none, m) else serve_at m (first_turn max_prio 0 m.queues)

abbrev is_none : Option ℕ → Bool
is_none none = true
is_none (some p) = false

unfoldable pub get_mlq_proc : Mlq → Option ℕ × Mlq
get_mlq_proc m =
    let (proc, m1) = if not (queue_empty m) then get_proc_by_slot m else (none, m) in
    let m2 = if m1.proc_count == 0 || is_none proc then refill_slots_of_mlq m1 else m1 in
    if is_none proc then get_proc_by_slot m2 else (proc, m2)

-- `put_mlq_proc` and `add_mlq_proc`, which are the same, on a process of priority `prio`. From
-- `max_prio` on C writes outside of the array.
unfoldable pub put_mlq_proc : Mlq → ℕ → ℕ → Mlq
put_mlq_proc m prio proc =
    let (stored, q) = enqueue (m.queues prio) proc in
    record m {
      queues = update m.queues prio q;
      proc_count = if stored then m.proc_count + 1 else m.proc_count;
    }
