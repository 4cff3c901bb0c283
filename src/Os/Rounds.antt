-- ===== src/Os/Rounds.antt =====
-- The processes through the rounds of `cpu_routine` of src/os.c.
use operating_system_assignm.Prelude.{
  ℕ, zero, suc, ◌+◌, ◌-◌, ◌<◌, ◌≡◌, inl, inr, refl, Bool, true, false, arith, ltb, not, ◌==◌, ◌&&◌,
  if◌then◌else◌, Option, none, some, Bool-cases,
}
use operating_system_assignm.Queue.{max_queue_size}
use operating_system_assignm.Sched.{max_prio, get_mlq_proc, put_mlq_proc}
use operating_system_assignm.Sched.Invariant.{IsMlq, put-IsMlq, put-proc_count}
use operating_system_assignm.Sched.Policy.{get_mlq_proc-IsMlq}
use operating_system_assignm.Os.{
  Shared, Local, Turnout, stopped, goes_on, load, recheck, first_load, replace, running, round,
}

abbrev is_stopped : Turnout → Bool
is_stopped stopped = true
is_stopped goes_on = false

-- The rounds of a CPU, until it stops.
pub rounds : ℕ → Option ℕ → ℕ → Shared → Turnout × Local × Shared
rounds zero proc time_left s = (goes_on, record { proc = proc; time_left = time_left }, s)
rounds (suc n) proc time_left s =
    let (t, l, s') = round proc time_left s in
    let rest = rounds n l.proc l.time_left s' in if is_stopped t then (t, l, s') else rest

idle_round :
    (time_left : ℕ) (s : Shared)
    → IsMlq s.mlq
    → s.mlq.proc_count ≡ 0
    → round none time_left s ≡ (
      goes_on,
      record { proc = none; time_left = time_left },
      record s { mlq = (get_mlq_proc s.mlq).1 },
    )
unfolding round first_load load
idle_round time_left s v z = ground (arith, get_mlq_proc-IsMlq s.mlq v)

-- A CPU without a process never stops, whether the loader is done or not, if the scheduler is
-- consistent, its queues are empty and nothing is put.
pub rounds-idle :
    (n time_left : ℕ) (s : Shared)
    → IsMlq s.mlq
    → s.mlq.proc_count ≡ 0
    → ((rounds n none time_left s).0 ≡ goes_on)
      × ((rounds n none time_left s).2.finished ≡ s.finished)
unfolding rounds
rounds-idle zero time_left s v z = (refl, refl)
rounds-idle (suc n) time_left s v z =
    let g = get_mlq_proc-IsMlq s.mlq v in
    rw (idle_round time_left s v z, rounds)
      (rounds-idle n time_left (record s { mlq = (get_mlq_proc s.mlq).1 }) g.0 (ground (arith, g)))

abbrev pub held : Option ℕ → ℕ
held none = 0
held (some p) = 1

-- The processes that a round removes: one that has finished, and one whose time is over and whose
-- queue is full.
pub removed : Option ℕ → ℕ → Shared → ℕ
removed none time_left s = 0
removed (some p) time_left s =
    if (s.pcbs p).pc == (s.pcbs p).size
    then 1
    else if (time_left == 0) && not (ltb (s.mlq.queues (s.pcbs p).prio).size max_queue_size)
    then 1
    else 0

-- The scheduler is in order, and so many processes are in it or on the CPU.
abbrev pub Holds : ℕ → Turnout × Local × Shared → Type 0
Holds n r = IsMlq r.2.mlq × (r.2.mlq.proc_count + held r.1.proc ≡ n)

recheck-Holds :
    (proc : Option ℕ) (time_left : ℕ) (s : Shared)
    → IsMlq s.mlq
    → Holds (s.mlq.proc_count + held proc) (recheck proc time_left s)
unfolding recheck
recheck-Holds none time_left s v = (v, refl)
recheck-Holds (some p) time_left s v = (v, refl)

load-count :
    (s : Shared)
    → IsMlq s.mlq
    → IsMlq (load s).1.mlq × ((load s).1.mlq.proc_count + held (load s).0 ≡ s.mlq.proc_count)
unfolding load
load-count s v = let g = get_mlq_proc-IsMlq s.mlq v in (g.0, ground (arith, g))

first_load-Holds :
    (time_left : ℕ) (r : Option ℕ × Shared)
    → IsMlq r.1.mlq
    → Holds (r.1.mlq.proc_count + held r.0) (first_load time_left r)
unfolding first_load
first_load-Holds time_left (none, s) v = (v, refl)
first_load-Holds time_left (some p, s) v = recheck-Holds (some p) time_left s v

-- From a consistent scheduler, a round of a CPU, whose process has a priority, leaves a consistent
-- scheduler, and the processes in it or on the CPU are as many as before but for one that has
-- finished, or whose time is over and whose queue is full.
pub round-Holds :
    (proc : Option ℕ) (time_left : ℕ) (s : Shared)
    → IsMlq s.mlq
    → ((p : ℕ) → proc ≡ some p → (s.pcbs p).prio < max_prio)
    → Holds (s.mlq.proc_count + held proc - removed proc time_left s) (round proc time_left s)
unfolding round removed running replace
round-Holds none time_left s v prio =
    let l = load-count s v in
    let f = first_load-Holds time_left (load s) l.0 in (f.0, omega (arith, f.1, l.1))
round-Holds (some p) time_left s v prio = elim (Bool-cases ((s.pcbs p).pc == (s.pcbs p).size)) [
  | inl over ↦
      let l = load-count s v in
      let f = recheck-Holds (load s).0 0 (load s).1 l.0 in rw over (f.0, omega (arith, f.1, l.1))
  | inr unfinished ↦ elim (Bool-cases (time_left == 0)) [
    | inl out_of_time ↦
        let put : Shared = record s { mlq = put_mlq_proc s.mlq (s.pcbs p).prio p } in
        let count = put-proc_count s.mlq (s.pcbs p).prio p (prio p refl) v in
        let l = load-count put (put-IsMlq s.mlq (s.pcbs p).prio p (prio p refl) v) in
        let f = recheck-Holds (load put).0 0 (load put).1 l.0 in
        rw (unfinished, out_of_time) (f.0, ground (arith, f.1, l.1, count))
    | inr in_time ↦
        let f = recheck-Holds (some p) time_left s v in rw (unfinished, in_time) (f.0, omega arith)
  ]
]
