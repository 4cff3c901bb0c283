-- ===== src/Sched/Serve.antt =====
-- One turn of `get_proc_by_slot`: which queue, and what is taken from it.
use operating_system_assignm.Prelude.{
  ℕ, zero, suc, ◌+◌, ◌-◌, ◌≤◌, ◌<◌, ◌≡◌, ◌≢◌, ◌⊎◌, inl, inr, refl, sym, true, false, arith, Option,
  none, some, ◌∷◌, Bool-cases,
}
use operating_system_assignm.Queue.{Queue, empty, dequeue}
use operating_system_assignm.Queue.Refine.{IsQueue, processes, processes-slot, dequeue_refines}
use operating_system_assignm.Sched.{Mlq, max_prio, has_turn, first_turn, serve}
use operating_system_assignm.Totals.{total-update, le-total}
use operating_system_assignm.Sched.Invariant.{IsMlq, size_of, slot_of}

-- The loop stops at the first queue that has its turn.
pub first_turn_lem :
    (left i : ℕ) (t : ℕ → Queue) (r : Option ℕ)
    → first_turn left i t ≡ r
    → ((r ≡ none) × ((j : ℕ) → i ≤ j → j < i + left → has_turn (t j) ≡ false))
      ⊎ ((k : ℕ) × (r ≡ some k)
          × (i ≤ k)
          × (k < i + left)
          × (has_turn (t k) ≡ true)
          × ((j : ℕ) → i ≤ j → j < k → has_turn (t j) ≡ false))
unfolding first_turn
first_turn_lem zero i t r h = inl (sym h, λ j a b. absurd (omega arith))
first_turn_lem (suc left) i t r h = elim (Bool-cases (has_turn (t i))) [
  | inl here ↦ inr (i, ground arith, omega arith, omega arith, here, λ j a b. absurd (omega arith))
  | inr later ↦ elim (first_turn_lem left (i + 1) t (first_turn left (i + 1) t) refl) [
    | inl (e, none_there) ↦ inl (ground arith, λ j a b. ground (arith, later, none_there j))
    | inr (k, e, a, b, c, d) ↦
        inr (k, ground arith, omega arith, omega arith, c, λ j a' b'. ground (arith, later, d j))
  ]
]

-- Queue `i` has its turn and no queue of higher priority has.
pub record Turn (t : ℕ → Queue) (i : ℕ) : Type 0 where
  pub inside : i < max_prio
  pub due : has_turn (t i) ≡ true
  pub first : (j : ℕ) → j < i → has_turn (t j) ≡ false

-- The first process of queue `i` has been given out for one of its slots; all else is as it was.
pub record Served (m : Mlq) (i : ℕ) (out : Option ℕ) (m' : Mlq) : Type 0 where
  pub head : (p : ℕ) × (out ≡ some p) × (processes (m.queues i) ≡ p ∷ processes (m'.queues i))
  pub slot : (m'.queues i).slot + 1 ≡ (m.queues i).slot
  pub size : (m'.queues i).size + 1 ≡ (m.queues i).size
  pub others : (j : ℕ) → j ≢ i → m'.queues j ≡ m.queues j
  pub count : m'.proc_count + 1 ≡ m.proc_count
  pub slots : m'.slot_count + 1 ≡ m.slot_count
  pub still : IsMlq m'

pub serve-Served :
    (m : Mlq) (i : ℕ)
    → IsMlq m
    → i < max_prio
    → has_turn (m.queues i) ≡ true
    → Served m i (serve m i).0 (serve m i).1
unfolding serve has_turn empty
serve-Served m i v h due =
    let q : Queue = record (m.queues i) { slot = (m.queues i).slot - 1 } in
    let iq : IsQueue q = record { array = (v.queue i h).array; fits = (v.queue i h).fits } in
    let sizes = total-update size_of max_prio i m.queues (dequeue q).1 in
    let slots = total-update slot_of max_prio i m.queues (dequeue q).1 in
    let some_size = le-total size_of max_prio i m.queues h in
    let some_slot = le-total slot_of max_prio i m.queues h in
    let d = dequeue_refines q iq in
    elim d.3 [
      | inl (z, _, _) ↦ absurd (ground arith)
      | inr (p, out, rest) ↦ record {
        head = (p, out, ground (arith, processes-slot (m.queues i) ((m.queues i).slot - 1), rest));
        slot = ground (arith, d);
        size = ground (arith, d);
        others = λ j ne. ground arith;
        count = ground (arith, d, sizes, some_size, v.counted);
        slots = ground (arith, d, slots, some_slot, v.slots);
        still = record {
          queue = λ j l. ground (arith, v.queue j l, d);
          counted = ground (arith, d, sizes, some_size, v.counted);
          slots = ground (arith, d, slots, some_slot, v.slots);
          bounded = λ j l. ground (arith, v.bounded j l, d);
        };
      }
    ]
