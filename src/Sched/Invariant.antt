-- ===== src/Sched/Invariant.antt =====
-- The counters and the slots of the scheduler, src/sched.c.
use operating_system_assignm.Prelude.{
  ℕ, zero, suc, ◌+◌, ◌-◌, ◌≤◌, ◌<◌, ◌≡◌, refl, sym, arith, ltb, leb, ◌&&◌, if◌then◌else◌, update,
  replicate, ◌∙◌,
}
use operating_system_assignm.Queue.{Queue, enqueue, max_queue_size}
use operating_system_assignm.Queue.Refine.{IsQueue, enqueue_refines}
use operating_system_assignm.Sched.{
  Mlq, max_prio, all_slots, init_queues, init_scheduler, refill_queues, refill_slots_of_mlq,
  put_mlq_proc,
}
use operating_system_assignm.Totals.{
  total, total-cong, total-update, total-map, sum_below, sum_below-cong,
}

abbrev pub size_of : Queue → ℕ
size_of q = q.size

abbrev pub slot_of : Queue → ℕ
slot_of q = q.slot

-- `proc_count` and `slot_count` are the sums over the queues, and no queue has more slots than a
-- refill gives it.
pub record IsMlq (m : Mlq) : Type 0 where
  pub queue : (i : ℕ) → i < max_prio → IsQueue (m.queues i)
  pub counted : m.proc_count ≡ total size_of max_prio m.queues
  pub slots : m.slot_count ≡ total slot_of max_prio m.queues
  pub bounded : (i : ℕ) → i < max_prio → (m.queues i).slot ≤ max_prio - i

pub refill_queues_lem :
    (left i j : ℕ) (t : ℕ → Queue)
    → refill_queues left i t j
      ≡ (if leb i j && ltb j (i + left) then record (t j) { slot = max_prio - j } else t j)
unfolding refill_queues
refill_queues_lem zero i j t = ground arith
refill_queues_lem (suc left) i j t =
    ground
      (arith, refill_queues_lem left (i + 1) j (update t i (record (t i) { slot = max_prio - i })))

init_queues_lem :
    (left i j : ℕ) (t : ℕ → Queue)
    → init_queues left i t j ≡ (
        if leb i j && ltb j (i + left) then record (t j) { size = 0; slot = max_prio - j } else t j)
unfolding init_queues
init_queues_lem zero i j t = ground arith
init_queues_lem (suc left) i j t = ground (
  arith,
  init_queues_lem left (i + 1) j (update t i (record (t i) { size = 0; slot = max_prio - i })),
)

full_slots : sum_below max_prio (λ j. max_prio - j) ≡ all_slots
unfolding sum_below
full_slots = refl

no_process : sum_below max_prio (λ _. 0) ≡ 0
unfolding sum_below
no_process = refl

refilled_slots :
    (t : ℕ → Queue)
    → ((i : ℕ) → i < max_prio → (t i).slot ≡ max_prio - i)
    → all_slots ≡ total slot_of max_prio t
refilled_slots t h = sym (
    total-map slot_of max_prio t
    ∙ sum_below-cong max_prio (λ j. slot_of (t j)) (λ j. max_prio - j) h
    ∙ full_slots)

pub refill-IsMlq : (m : Mlq) → IsMlq m → IsMlq (refill_slots_of_mlq m)
unfolding refill_slots_of_mlq
refill-IsMlq m v = record {
  queue = λ i h. ground (arith, refill_queues_lem max_prio 0 i m.queues, v.queue i);
  counted =
      v.counted
      ∙ total-cong size_of max_prio _ _
          (λ i h. ground (arith, refill_queues_lem max_prio 0 i m.queues));
  slots = refilled_slots _ (λ i h. ground (arith, refill_queues_lem max_prio 0 i m.queues));
  bounded = λ i h. ground (arith, refill_queues_lem max_prio 0 i m.queues);
}

-- The scheduler is consistent at the start.
pub init-IsMlq : IsMlq init_scheduler
unfolding init_scheduler
init-IsMlq = record {
  queue = λ i h. ground (arith, init_queues_lem max_prio 0 i (λ _. blank));
  counted = sym (
      total-map size_of max_prio _
      ∙ sum_below-cong max_prio _ (λ _. 0)
          (λ i h. ground (arith, init_queues_lem max_prio 0 i (λ _. blank)))
      ∙ no_process);
  slots = refilled_slots _ (λ i h. ground (arith, init_queues_lem max_prio 0 i (λ _. blank)));
  bounded = λ i h. ground (arith, init_queues_lem max_prio 0 i (λ _. blank));
}
  where
    blank : Queue
    blank = record { proc = replicate max_queue_size 0; size = 0; slot = 0 }

-- put_mlq_proc keeps a consistent state consistent, if the priority is below max_prio.
pub put-IsMlq : (m : Mlq) (prio p : ℕ) → prio < max_prio → IsMlq m → IsMlq (put_mlq_proc m prio p)
unfolding put_mlq_proc
put-IsMlq m prio p h v = record {
  queue = λ i l. ground (arith, v.queue i l, enqueue_refines (m.queues prio) p (v.queue prio h));
  counted = ground (
    arith,
    v.counted,
    enqueue_refines (m.queues prio) p (v.queue prio h),
    total-update size_of max_prio prio m.queues (enqueue (m.queues prio) p).1,
  );
  slots = ground (
    arith,
    v.slots,
    enqueue_refines (m.queues prio) p (v.queue prio h),
    total-update slot_of max_prio prio m.queues (enqueue (m.queues prio) p).1,
  );
  bounded =
      λ i l. ground (arith, v.bounded i l, enqueue_refines (m.queues prio) p (v.queue prio h));
}

-- The count of the processes after a put; ten are in a full queue.
pub put-proc_count :
    (m : Mlq) (prio p : ℕ)
    → prio < max_prio
    → IsMlq m
    → (put_mlq_proc m prio p).proc_count
      ≡ (if ltb (m.queues prio).size max_queue_size then m.proc_count + 1 else m.proc_count)
unfolding put_mlq_proc
put-proc_count m prio p h v = ground (arith, enqueue_refines (m.queues prio) p (v.queue prio h))
