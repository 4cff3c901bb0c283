-- ===== src/Sched/Occurs.antt =====
-- Where a process stands in the queues of src/sched.c.
use operating_system_assignm.Prelude.{
  ℕ, ◌+◌, ◌-◌, ◌<◌, ◌≡◌, sym, ap, ◌∙◌, arith, ltb, if◌then◌else◌, Option, none, some, [], ◌∷◌, ◌++◌,
  weigh, weigh-append, Bool-cases, inl, inr,
}
use operating_system_assignm.Queue.{Queue, enqueue, max_queue_size}
use operating_system_assignm.Queue.Refine.{
  processes, IsQueue, processes-slot, processes-nil, weigh-processes, enqueue_refines,
}
use operating_system_assignm.Sched.{
  Mlq, max_prio, refill_queues, refill_slots_of_mlq, put_mlq_proc, get_mlq_proc,
}
use operating_system_assignm.Totals.{
  total, total-cong, total-change, total-update, total-zero, le-total, total-map, sum_below-cong,
}
use operating_system_assignm.Sched.Invariant.{IsMlq, size_of, refill_queues_lem}
use operating_system_assignm.Sched.Serve.{Served}
use operating_system_assignm.Sched.Policy.{
  Choice, idle, served, emptied, renewed, get_mlq_proc-Choice,
}

abbrev in_queue : (ℕ → ℕ) → Queue → ℕ
in_queue w q = weigh w (processes q)

-- The sum of the weights of the processes in the queues.
pub occurs : (ℕ → ℕ) → Mlq → ℕ
occurs w m = total (in_queue w) max_prio m.queues

abbrev pub weight : (ℕ → ℕ) → Option ℕ → ℕ
weight w none = 0
weight w (some p) = w p

refill_at :
    (t : ℕ → Queue) (i : ℕ)
    → i < max_prio
    → refill_queues max_prio 0 t i ≡ record (t i) { slot = max_prio - i }
refill_at t i h = ground (arith, refill_queues_lem max_prio 0 i t)

refill-occurs : (w : ℕ → ℕ) (m : Mlq) → occurs w (refill_slots_of_mlq m) ≡ occurs w m
unfolding occurs refill_slots_of_mlq
refill-occurs w m = total-cong (in_queue w) max_prio _ _ (λ i h.
    ap (in_queue w) (refill_at m.queues i h)
    ∙ ap (weigh w) (processes-slot (m.queues i) (max_prio - i)))

Served-occurs :
    (w : ℕ → ℕ) (m m' : Mlq) (i : ℕ) (out : Option ℕ)
    → i < max_prio
    → Served m i out m'
    → occurs w m ≡ occurs w m' + weight w out
unfolding occurs
Served-occurs w m m' i out h s =
    let (p, e, front) = s.head in
    let front' : in_queue w (m.queues i) ≡ w p + in_queue w (m'.queues i) = ap (weigh w) front in
    rw e (
      omega (
        arith,
        front',
        total-change (in_queue w) max_prio i m.queues m'.queues h
            (λ j ne. ap (in_queue w) (sym (s.others j ne))),
      ))

Choice-occurs :
    (w : ℕ → ℕ) (m : Mlq) (out : Option ℕ) (m' : Mlq)
    → Choice m out m'
    → occurs w m ≡ occurs w m' + weight w out
Choice-occurs w m out m' (idle z) = omega (arith, refill-occurs w m)
Choice-occurs w m out m' (served i t s l) = Served-occurs w m m' i out t.inside s
Choice-occurs w m out m' (emptied i t s l) =
    Served-occurs w m _ i out t.inside s ∙ ap (λ k. k + weight w out) (sym (refill-occurs w _))
Choice-occurs w m out m' (renewed i n t s) =
    sym (refill-occurs w m) ∙ Served-occurs w _ m' i out t.inside s

-- What `get_mlq_proc` gives out has left the queues.
pub get-occurs :
    (w : ℕ → ℕ) (m : Mlq)
    → IsMlq m
    → let (out, m') = get_mlq_proc m in occurs w m ≡ occurs w m' + weight w out
get-occurs w m v = Choice-occurs w m _ _ (get_mlq_proc-Choice m v)

enqueue-in_queue :
    (w : ℕ → ℕ) (q : Queue) (p : ℕ)
    → IsQueue q
    → in_queue w (enqueue q p).1
      ≡ in_queue w q + (if ltb q.size max_queue_size then weight w (some p) else 0)
enqueue-in_queue w q p v = elim (Bool-cases (ltb q.size max_queue_size)) [
  | inl l ↦
      let front : processes (enqueue q p).1 ≡ processes q ++ (p ∷ []) =
        ground (arith, enqueue_refines q p v) in
      rw (l, front) (omega (arith, weigh-append w (processes q) (p ∷ [])))
  | inr l ↦
      let same : processes (enqueue q p).1 ≡ processes q = ground (arith, enqueue_refines q p v) in
      rw (l, same) (omega arith)
]

-- What `put_mlq_proc` stores is in the queues.
pub put-occurs :
    (w : ℕ → ℕ) (m : Mlq) (prio p : ℕ)
    → prio < max_prio
    → IsMlq m
    → occurs w (put_mlq_proc m prio p)
      ≡ occurs w m + (if ltb (m.queues prio).size max_queue_size then weight w (some p) else 0)
unfolding occurs put_mlq_proc
put-occurs w m prio p h v = ground (
  arith,
  enqueue-in_queue w (m.queues prio) p (v.queue prio h),
  total-update (in_queue w) max_prio prio m.queues (enqueue (m.queues prio) p).1,
)

-- Without a process the queues weigh nothing.
pub occurs-empty : (w : ℕ → ℕ) (m : Mlq) → IsMlq m → m.proc_count ≡ 0 → occurs w m ≡ 0
unfolding occurs
occurs-empty w m v z = total-zero (in_queue w) max_prio m.queues (λ i h.
    ap (weigh w) (
      processes-nil (m.queues i)
        (omega (arith, v.counted, le-total size_of max_prio i m.queues h))))

-- By the weight 1 the queues weigh the count of their processes.
pub occurs-one : (m : Mlq) → IsMlq m → occurs (λ _. 1) m ≡ m.proc_count
unfolding occurs
occurs-one m v =
    total-map (in_queue (λ _. 1)) max_prio m.queues
    ∙ sum_below-cong max_prio _ _ (λ i h. weigh-processes (m.queues i))
    ∙ sym (total-map size_of max_prio m.queues)
    ∙ sym v.counted
