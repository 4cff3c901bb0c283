-- ===== src/Simulator/Places.antt =====
-- Where the processes of src/os.c are: in the queues, on the CPUs, finished or dropped.
use operating_system_assignm.Prelude.{
  ℕ, ◌+◌, ◌<◌, ◌≡◌, ◌≢◌, refl, inl, inr, ◌==◌, none, some, arith, Bool-cases, weigh,
}
use operating_system_assignm.Os.{run_pc}
use operating_system_assignm.Totals.{
  total, total-update, le-total, sum_below, single, sum_below-single,
}
use operating_system_assignm.Sched.{max_prio, get_mlq_proc}
use operating_system_assignm.Sched.Invariant.{IsMlq, put-IsMlq}
use operating_system_assignm.Sched.Policy.{get_mlq_proc-IsMlq}
use operating_system_assignm.Sched.Occurs.{occurs, weight, get-occurs, put-occurs}
use operating_system_assignm.Timer.{Timer}
use operating_system_assignm.Simulator.{
  replacing, rechecking, Cpu, Simulator, set_cpu, free_proc, put_back, check, after_run, run_proc,
}

abbrev pub on : (ℕ → ℕ) → Cpu → ℕ
on w c = weight w c.proc

-- The sum of the weights of the processes in all places.
unfoldable pub placed : (ℕ → ℕ) → Simulator → ℕ
placed w s = occurs w s.mlq + total (on w) s.num_cpus s.cpus + weigh w s.ended + weigh w s.dropped

abbrev pub Replaceable : Cpu → Type 0
Replaceable d = d.place ≡ replacing → d.proc ≡ none

-- The scheduler is in order, the processes that were made have a priority, and, by whatever weight,
-- the places hold these processes.
pub record IsPlaced (s : Simulator) : Type 0 where
  pub sched : IsMlq s.mlq
  pub prio : (x : ℕ) → x < s.i → (s.pcbs x).prio < max_prio
  pub free : (c : ℕ) → c < s.num_cpus → Replaceable (s.cpus c)
  pub once : (w : ℕ → ℕ) → placed w s ≡ sum_below s.i w

module _ (s : Simulator) (c : ℕ) (h : c < s.num_cpus) (v : IsPlaced s) where
  -- A process on a CPU is one that was made.
  pub on_cpu : (p : ℕ) → (s.cpus c).proc ≡ some p → p < s.i
  unfolding placed
  on_cpu p e = ground (
    arith,
    v.once (single p),
    sum_below-single s.i p,
    le-total (on (single p)) s.num_cpus c s.cpus h,
  )

  -- A CPU takes what the scheduler gives.
  pub get-IsPlaced :
      (d : Cpu)
      → (s.cpus c).proc ≡ none
      → d.proc ≡ (get_mlq_proc s.mlq).0
      → d.place ≢ replacing
      → IsPlaced (record (set_cpu s c d) { mlq = (get_mlq_proc s.mlq).1 })
  unfolding placed
  get-IsPlaced d e g ne = record {
    sched = (get_mlq_proc-IsMlq s.mlq v.sched).0;
    prio = v.prio;
    free = λ k l. ground (arith, v.free k l);
    once = λ w.
        ground
          (arith, v.once w, get-occurs w s.mlq v.sched, total-update (on w) s.num_cpus c s.cpus d);
  }

  -- A CPU goes on with its process; the timer does not matter.
  pub keep-IsPlaced :
      (d : Cpu) (t : Timer)
      → d.proc ≡ (s.cpus c).proc
      → d.place ≢ replacing
      → IsPlaced (record (set_cpu s c d) { timer = t })
  unfolding placed
  keep-IsPlaced d t e ne = record {
    sched = v.sched;
    prio = v.prio;
    free = λ k l. ground (arith, v.free k l);
    once = λ w. ground (arith, v.once w, total-update (on w) s.num_cpus c s.cpus d);
  }

  free_proc-IsPlaced : (p : ℕ) → (s.cpus c).proc ≡ some p → IsPlaced (free_proc s c p)
  unfolding placed free_proc
  free_proc-IsPlaced p e = record {
    sched = v.sched;
    prio = v.prio;
    free = λ k l. ground (arith, v.free k l);
    once = λ w. ground (
      arith,
      v.once w,
      total-update (on w) s.num_cpus c s.cpus
          (record (s.cpus c) { place = replacing; proc = none; time_left = 0 }),
    );
  }

  put_back-IsPlaced : (p : ℕ) → (s.cpus c).proc ≡ some p → IsPlaced (put_back s c p)
  unfolding placed put_back
  put_back-IsPlaced p e = record {
    sched = put-IsMlq s.mlq (s.pcbs p).prio p (v.prio p (on_cpu p e)) v.sched;
    prio = v.prio;
    free = λ k l. ground (arith, v.free k l);
    once = λ w. ground (
      arith,
      v.once w,
      put-occurs w s.mlq (s.pcbs p).prio p (v.prio p (on_cpu p e)) v.sched,
      total-update (on w) s.num_cpus c s.cpus
          (record (s.cpus c) { place = replacing; proc = none }),
    );
  }

  pub check-IsPlaced : (p : ℕ) → (s.cpus c).proc ≡ some p → IsPlaced (check s c p)
  unfolding check
  check-IsPlaced p e = elim (Bool-cases ((s.pcbs p).pc == (s.pcbs p).size)) [
    | inl over ↦ rw over (free_proc-IsPlaced p e)
    | inr more ↦ elim (Bool-cases ((s.cpus c).time_left == 0)) [
      | inl out ↦ rw (more, out) (put_back-IsPlaced p e)
      | inr in_time ↦
          rw (more, in_time)
            (keep-IsPlaced (record (s.cpus c) { place = rechecking }) s.timer refl (cc))
    ]
  ]

  pub run_proc-IsPlaced : (p : ℕ) → (s.cpus c).proc ≡ some p → IsPlaced (run_proc s c p)
  unfolding placed run_proc run_pc
  run_proc-IsPlaced p e = record {
    sched = v.sched;
    prio = λ x l. ground (arith, v.prio x l);
    free = λ k l. ground (arith, v.free k l);
    once = λ w. ground (
      arith,
      v.once w,
      total-update (on w) s.num_cpus c s.cpus (after_run s.time_slot (s.cpus c)),
    );
  }
