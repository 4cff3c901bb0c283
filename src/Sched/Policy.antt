-- ===== src/Sched/Policy.antt =====
-- The choices of `get_mlq_proc` of src/sched.c.
use operating_system_assignm.Prelude.{
  ℕ, ◌+◌, ◌<◌, ◌≡◌, ◌⊎◌, inl, inr, refl, ap, false, arith, ◌==◌, if◌then◌else◌, Option, none, some,
  Bool-cases,
}
use operating_system_assignm.Queue.{Queue, empty}
use operating_system_assignm.Sched.{
  Mlq, max_prio, queue_empty, refill_slots_of_mlq, has_turn, first_turn, serve_at, get_proc_by_slot,
  get_mlq_proc,
}
use operating_system_assignm.Totals.{total-zero}
use operating_system_assignm.Sched.Invariant.{IsMlq, size_of, refill-IsMlq, refill_queues_lem}
use operating_system_assignm.Sched.Serve.{first_turn_lem, Turn, Served, serve-Served}

-- No queue has its turn.
abbrev pub NoTurn : (ℕ → Queue) → Type 0
NoTurn t = (j : ℕ) → j < max_prio → has_turn (t j) ≡ false

get_proc_by_slot-first_turn :
    (m : Mlq) (r : Option ℕ)
    → 0 < m.proc_count
    → first_turn max_prio 0 m.queues ≡ r
    → get_proc_by_slot m ≡ serve_at m r
unfolding get_proc_by_slot
get_proc_by_slot-first_turn m r some_left e = ground (arith, e)

get_proc_by_slot_lem :
    (m : Mlq)
    → IsMlq m
    → 0 < m.proc_count
    → let (out, m') = get_proc_by_slot m in
      (NoTurn m.queues × (out ≡ none) × (m' ≡ m)) ⊎ ((i : ℕ) × Turn m.queues i × Served m i out m')
unfolding serve_at
get_proc_by_slot_lem m v some_left =
    elim (first_turn_lem max_prio 0 m.queues (first_turn max_prio 0 m.queues) refl) [
      | inl (e, none_due) ↦ inl (
        λ j l. none_due j (omega arith) (omega arith),
        ap (λ r. r.0) (get_proc_by_slot-first_turn m none some_left e),
        ap (λ r. r.1) (get_proc_by_slot-first_turn m none some_left e),
      )
      | inr (i, e, _, l, due, first) ↦ inr (
        i,
        record { inside = omega arith; due = due; first = λ j. first j (omega arith) },
        rw (get_proc_by_slot-first_turn m (some i) some_left e)
            (serve-Served m i v (omega arith) due),
      )
    ]

-- After a refill a queue with a process has its turn.
refilled_turn :
    (m : Mlq) (i : ℕ)
    → i < max_prio
    → has_turn ((refill_slots_of_mlq m).queues i) ≡ false
    → (m.queues i).size ≡ 0
unfolding has_turn empty refill_slots_of_mlq
refilled_turn m i h e = ground (arith, refill_queues_lem max_prio 0 i m.queues)

refill-Turn : (m : Mlq) → IsMlq m → NoTurn (refill_slots_of_mlq m).queues → m.proc_count ≡ 0
refill-Turn m v none_due = omega (
  arith,
  v.counted,
  total-zero size_of max_prio m.queues (λ i h. refilled_turn m i h (none_due i h)),
)

-- What a call of `get_mlq_proc` may do.
pub data Choice (m : Mlq) : Option ℕ → Mlq → Type 0 where
  -- there is no process: a refill
  idle : m.proc_count ≡ 0 → Choice m none (refill_slots_of_mlq m)
  -- the first queue in turn is served, and another process is left
  served :
      {out : Option ℕ} {m' : Mlq}
      → (i : ℕ) → Turn m.queues i
      → Served m i out m'
      → 0 < m'.proc_count
      → Choice m out m'
  -- the first queue in turn is served, it held the last process: a refill afterwards
  emptied :
      {out : Option ℕ} {m' : Mlq}
      → (i : ℕ) → Turn m.queues i
      → Served m i out m'
      → m'.proc_count ≡ 0
      → Choice m out (refill_slots_of_mlq m')
  -- no queue has its turn: a refill before
  renewed :
      {out : Option ℕ} {m' : Mlq}
      → (i : ℕ) → NoTurn m.queues
      → Turn (refill_slots_of_mlq m).queues i
      → Served (refill_slots_of_mlq m) i out m'
      → Choice m out m'

refill-proc_count : (m : Mlq) → (refill_slots_of_mlq m).proc_count ≡ m.proc_count
unfolding refill_slots_of_mlq
refill-proc_count m = refl

get_proc_by_slot-idle : (m : Mlq) → m.proc_count ≡ 0 → get_proc_by_slot m ≡ (none, m)
unfolding get_proc_by_slot
get_proc_by_slot-idle m z = ground (arith, z)

get_mlq_proc-idle : (m : Mlq) → m.proc_count ≡ 0 → get_mlq_proc m ≡ (none, refill_slots_of_mlq m)
unfolding get_mlq_proc queue_empty refill_slots_of_mlq
get_mlq_proc-idle m z = ground (arith, z, get_proc_by_slot-idle (refill_slots_of_mlq m) z)

get_mlq_proc-again :
    (m : Mlq)
    → 0 < m.proc_count
    → (get_proc_by_slot m).0 ≡ none
    → (get_proc_by_slot m).1 ≡ m
    → get_mlq_proc m ≡ get_proc_by_slot (refill_slots_of_mlq m)
unfolding get_mlq_proc queue_empty
get_mlq_proc-again m l e same = ground (arith, l, e, same)

get_mlq_proc-once :
    (m : Mlq) (p : ℕ)
    → 0 < m.proc_count
    → (get_proc_by_slot m).0 ≡ some p
    → let (out, m') = get_proc_by_slot m in
      get_mlq_proc m ≡ (out, if m'.proc_count == 0 then refill_slots_of_mlq m' else m')
unfolding get_mlq_proc queue_empty
get_mlq_proc-once m p l e = ground (arith, l, e)

-- From a consistent state every call of get_mlq_proc makes one of four choices: no process, so a
-- refill; the first queue in turn is served; the same, with a refill behind the last process; or no
-- queue has its turn, a refill gives slots and the first queue in turn is served.
pub get_mlq_proc-Choice : (m : Mlq) → IsMlq m → Choice m (get_mlq_proc m).0 (get_mlq_proc m).1
get_mlq_proc-Choice m v = elim (Bool-cases (m.proc_count == 0)) [
  | inl z ↦ rw (get_mlq_proc-idle m (ground arith)) (idle (ground arith))
  | inr nz ↦ elim (get_proc_by_slot_lem m v (ground arith)) [
    | inl (none_due, e, same) ↦
        rw (get_mlq_proc-again m (ground arith) e same) (again m v (ground arith) none_due)
    | inr (i, turn, s) ↦ rw (get_mlq_proc-once m s.head.0 (ground arith) s.head.1) (once m i turn s)
  ]
]
  where
    again :
        (m : Mlq)
        → IsMlq m
        → 0 < m.proc_count
        → NoTurn m.queues
        → Choice m
            (get_proc_by_slot (refill_slots_of_mlq m)).0
            (get_proc_by_slot (refill_slots_of_mlq m)).1
    again m v l none_due =
        elim (get_proc_by_slot_lem (refill_slots_of_mlq m) (refill-IsMlq m v)
          (omega (arith, refill-proc_count m))) [
            | inl (still_none, _, _) ↦ absurd (omega (arith, refill-Turn m v still_none))
            | inr (i, turn, s) ↦ renewed i none_due turn s
          ]

    once :
        (m : Mlq) (i : ℕ)
        → Turn m.queues i
        → let (out, m') = get_proc_by_slot m in
          Served m i out m'
          → Choice m out (if m'.proc_count == 0 then refill_slots_of_mlq m' else m')
    once m i turn s = elim (Bool-cases ((get_proc_by_slot m).1.proc_count == 0)) [
      | inl z ↦ rw z (emptied i turn s (ground arith))
      | inr nz ↦ rw nz (served i turn s (ground arith))
    ]

-- From a consistent state, get_mlq_proc leaves a consistent state; it gives no process if there is
-- none, and otherwise gives one, of which the count loses one.
pub get_mlq_proc-IsMlq :
    (m : Mlq)
    → IsMlq m
    → let (out, m') = get_mlq_proc m in
      IsMlq m'
      × (((m.proc_count ≡ 0) × (out ≡ none) × (m'.proc_count ≡ 0))
          ⊎ ((p : ℕ) × (out ≡ some p) × (m'.proc_count + 1 ≡ m.proc_count)))
get_mlq_proc-IsMlq m v =
    by_choice m (get_mlq_proc m).0 (get_mlq_proc m).1 v (get_mlq_proc-Choice m v)
  where
    by_choice :
        (m : Mlq) (out : Option ℕ) (m' : Mlq)
        → IsMlq m
        → Choice m out m'
        → IsMlq m'
          × (((m.proc_count ≡ 0) × (out ≡ none) × (m'.proc_count ≡ 0))
              ⊎ ((p : ℕ) × (out ≡ some p) × (m'.proc_count + 1 ≡ m.proc_count)))
    by_choice m out m' v (idle z) =
        (refill-IsMlq m v, inl (z, refl, omega (arith, refill-proc_count m)))
    by_choice m out m' v (served i t s l) = (s.still, inr (s.head.0, s.head.1, s.count))
    by_choice m out m' v (emptied i t s l) = (
      refill-IsMlq _ s.still,
      inr (s.head.0, s.head.1, omega (arith, s.count, refill-proc_count _)),
    )
    by_choice m out m' v (renewed i n t s) =
        (s.still, inr (s.head.0, s.head.1, omega (arith, s.count, refill-proc_count m)))
