-- ===== src/Sched/Waiting.antt =====
-- How long a queue in turn waits for `get_mlq_proc`, while processes are put into any queues.
use operating_system_assignm.Prelude.{
  ℕ, ◌+◌, ◌≤◌, ◌<◌, ◌≡◌, ◌⊎◌, inl, inr, refl, ap, true, arith, ltb, ◌==◌, Option, update, List, ◌∷◌,
  [], ◌++◌, Bool-cases, ==→eq,
}
use operating_system_assignm.Queue.{Queue, empty, enqueue}
use operating_system_assignm.Queue.Refine.{enqueue_refines}
use operating_system_assignm.Sched.{Mlq, max_prio, has_turn, get_mlq_proc, put_mlq_proc}
use operating_system_assignm.Totals.{total, total-update, total-cong, le-total}
use operating_system_assignm.Sched.Invariant.{IsMlq, size_of, slot_of, put-IsMlq}
use operating_system_assignm.Sched.Serve.{Turn, Served}
use operating_system_assignm.Sched.Policy.{
  Choice, idle, served, emptied, renewed, get_mlq_proc-Choice, get_mlq_proc-IsMlq,
}

-- A call that a CPU or the loader makes.
pub data Call : Type 0 where
  get : Call
  put : ℕ → ℕ → Call

pub call : Mlq → Call → Mlq
call m get = (get_mlq_proc m).1
call m (put prio p) = put_mlq_proc m prio p

unfoldable pub calls : Mlq → List Call → Mlq
unfolding call
calls m [] = m
calls m (c ∷ cs) = calls (call m c) cs

abbrev pub gets : List Call → ℕ
gets [] = 0
gets (get ∷ cs) = gets cs + 1
gets (put prio p ∷ cs) = gets cs

-- Every process that is put has a priority.
abbrev pub HavePrio : List Call → Type 0
HavePrio [] = Unit {0}
HavePrio (get ∷ cs) = HavePrio cs
HavePrio (put prio p ∷ cs) = (prio < max_prio) × HavePrio cs

-- The slots that the queues of higher priority have left.
unfoldable pub ahead : ℕ → Mlq → ℕ
ahead i m = total slot_of i m.queues

put-has_turn :
    (m : Mlq) (prio p i : ℕ)
    → IsMlq m
    → prio < max_prio
    → has_turn (m.queues i) ≡ true
    → has_turn ((put_mlq_proc m prio p).queues i) ≡ true
unfolding put_mlq_proc has_turn empty
put-has_turn m prio p i v h due = ground (arith, enqueue_refines (m.queues prio) p (v.queue prio h))

put-ahead :
    (m : Mlq) (prio p i : ℕ)
    → IsMlq m
    → prio < max_prio
    → ahead i (put_mlq_proc m prio p) ≡ ahead i m
unfolding put_mlq_proc ahead
put-ahead m prio p i v h = ground (
  arith,
  enqueue_refines (m.queues prio) p (v.queue prio h),
  total-update slot_of i prio m.queues (enqueue (m.queues prio) p).1,
)

-- Serving an earlier queue uses up one of its slots.
Served-ahead :
    (m : Mlq) (k i : ℕ) (out : Option ℕ) (m' : Mlq)
    → Served m k out m'
    → k < i
    → ahead i m' + 1 ≡ ahead i m
unfolding ahead
Served-ahead m k i out m' s h = ground (
  arith,
  total-cong slot_of i m'.queues (update m.queues k (m'.queues k))
      (λ j l. ground (arith, s.others j)),
  total-update slot_of i k m.queues (m'.queues k),
  s.slot,
  le-total slot_of i k m'.queues h,
  le-total slot_of i k m.queues h,
)

-- Another queue is served first only if it stands before.
Served-due :
    (m : Mlq) (k i : ℕ) (out : Option ℕ) (m' : Mlq)
    → Turn m.queues k
    → Served m k out m'
    → i < max_prio
    → has_turn (m.queues i) ≡ true
    → Turn m.queues i ⊎ ((has_turn (m'.queues i) ≡ true) × (ahead i m' + 1 ≡ ahead i m))
Served-due m k i out m' t s h due = elim (Bool-cases (k == i)) [
  | inl e ↦ inl (rw (==→eq k i e) at t)
  | inr ne ↦ elim (Bool-cases (ltb k i)) [
    | inl l ↦ inr (ground (arith, s.others i), Served-ahead m k i out m' s (ground arith))
    | inr ge ↦ absurd (ground (arith, t.first i))
  ]
]

due-size : (q : Queue) → has_turn q ≡ true → 0 < q.size
unfolding has_turn empty
due-size q e = ground arith

-- While the queue has its turn, there is a process.
due-proc_count :
    (m : Mlq) (i : ℕ) → IsMlq m → i < max_prio → has_turn (m.queues i) ≡ true → 0 < m.proc_count
due-proc_count m i v h due =
    omega (arith, v.counted, le-total size_of max_prio i m.queues h, due-size (m.queues i) due)

get_step :
    (m : Mlq) (i : ℕ) (out : Option ℕ) (m' : Mlq)
    → IsMlq m
    → i < max_prio
    → has_turn (m.queues i) ≡ true
    → Choice m out m'
    → Turn m.queues i ⊎ ((has_turn (m'.queues i) ≡ true) × (ahead i m' + 1 ≡ ahead i m))
get_step m i out m' v h due (idle z) = absurd (omega (arith, due-proc_count m i v h due))
get_step m i out m' v h due (served k t s l) = Served-due m k i out m' t s h due
get_step m i out m' v h due (emptied {m' = m''} k t s z) =
    elim (Served-due m k i out m'' t s h due) [
      | inl turn ↦ inl turn
      | inr (due', _) ↦ absurd (omega (arith, due-proc_count m'' i s.still h due'))
    ]
get_step m i out m' v h due (renewed k no_turn t s) = absurd (ground (arith, no_turn i h, due))

-- Let calls of get_mlq_proc, and of put_mlq_proc with priorities below max_prio, start in a
-- consistent state where a queue has its turn, and let there be more of the former than the queues
-- of higher priority have slots left. Then one of them finds that queue as the first one in turn,
-- and no more are made before it than those slots.
pub calls-Turn :
    (cs : List Call) (m : Mlq) (i : ℕ)
    → IsMlq m
    → HavePrio cs
    → i < max_prio
    → has_turn (m.queues i) ≡ true
    → ahead i m < gets cs
    → (before : List Call) × (after : List Call) × (cs ≡ before ++ (get ∷ after))
      × (gets before ≤ ahead i m)
      × Turn (calls m before).queues i
unfolding calls call
calls-Turn [] m i v p h due l = absurd (omega arith)
calls-Turn (get ∷ cs) m i v p h due l =
    elim (get_step m i (get_mlq_proc m).0 (get_mlq_proc m).1 v h due (get_mlq_proc-Choice m v)) [
      | inl turn ↦ ([], cs, refl, omega arith, turn)
      | inr (due', fewer) ↦
          let (before, after, e, few, turn) =
            calls-Turn cs (get_mlq_proc m).1 i (get_mlq_proc-IsMlq m v).0 p h due' (omega arith) in
          (get ∷ before, after, ap (λ xs. get ∷ xs) e, omega arith, turn)
    ]
calls-Turn (put prio q ∷ cs) m i v p h due l =
    let (before, after, e, few, turn) =
      calls-Turn cs (put_mlq_proc m prio q) i (put-IsMlq m prio q p.0 v) p.1 h
        (put-has_turn m prio q i v p.0 due) (omega (arith, put-ahead m prio q i v p.0)) in
    (
      put prio q ∷ before,
      after,
      ap (λ xs. put prio q ∷ xs) e,
      omega (arith, put-ahead m prio q i v p.0),
      turn,
    )
