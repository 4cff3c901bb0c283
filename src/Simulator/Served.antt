-- ===== src/Simulator/Served.antt =====
-- Why no process of src/os.c is left behind: while the queues hold one, some CPU will look there.
use operating_system_assignm.Prelude.{
  ℕ, ◌≤◌, ◌<◌, ◌≡◌, ◌≢◌, refl, ap, ==-refl, inl, inr, Bool, true, false, ◌==◌, Option, none, some,
  update, arith, Bool-cases,
}
use operating_system_assignm.Sched.{Mlq, get_mlq_proc}
use operating_system_assignm.Sched.Invariant.{IsMlq}
use operating_system_assignm.Sched.Policy.{get_mlq_proc-IsMlq}
use operating_system_assignm.Timer.{detach_event}
use operating_system_assignm.Simulator.{
  Place, top, replacing, rechecking, slot_over, resting, stopped, Cpu, LoadPlace, testing, awaiting,
  too_early, added, pausing, closing, over, Simulator, set_cpu, first_get, free_proc, put_back,
  check, replace, stop,
}

-- The CPU will call `get_proc` before it stops.
abbrev pub awake : Place → Option ℕ → Bool
awake top proc = true
awake replacing proc = true
awake rechecking none = false
awake rechecking (some p) = true
awake slot_over proc = true
awake resting proc = true
awake stopped proc = false

-- The loader has added a process and the timer has not let it out since.
abbrev pub late : LoadPlace → Bool → Bool
late testing done = false
late awaiting done = false
late too_early done = false
late added done = true
late pausing done = done
late closing done = false
late over done = false

-- The loader ends when it has added the last process.
abbrev pub Closing : LoadPlace → Bool → ℕ → ℕ → Type 0
Closing testing finished i n = (finished ≡ false) × (i ≤ n)
Closing awaiting finished i n = (finished ≡ false) × (i < n)
Closing too_early finished i n = (finished ≡ false) × (i < n)
Closing added finished i n = (finished ≡ false) × (i ≤ n)
Closing pausing finished i n = (finished ≡ false) × (i ≤ n)
Closing closing finished i n = (finished ≡ true) × (i ≡ n)
Closing over finished i n = (finished ≡ true) × (i ≡ n)

abbrev pub SomeAwake : ℕ → (ℕ → Cpu) → Type 0
SomeAwake num cpus = (c : ℕ) × (c < num) × (awake (cpus c).place (cpus c).proc ≡ true)

abbrev pub is_late : Simulator → Bool
is_late s = late s.at (s.timer.devs s.num_cpus).done

abbrev Stops : Bool → Cpu → Type 0
Stops finished d = d.place ≡ stopped → (d.proc ≡ none) × (finished ≡ true)

pub record IsServed (s : Simulator) : Type 0 where
  pub some_cpu : 0 < s.num_cpus
  pub stops : (c : ℕ) → c < s.num_cpus → Stops s.finished (s.cpus c)
  pub closing : Closing s.at s.finished s.i s.num_processes
  pub served : 0 < s.mlq.proc_count → is_late s ≡ false → SomeAwake s.num_cpus s.cpus

finished_late :
    (at : LoadPlace) (done : Bool) (i n : ℕ) {finished : Bool}
    → finished ≡ true
    → Closing at finished i n
    → late at done ≡ false
finished_late testing done i n f k = refl
finished_late awaiting done i n f k = refl
finished_late too_early done i n f k = refl
finished_late added done i n f k = absurd (ground arith)
finished_late pausing done i n f k = absurd (ground arith)
finished_late closing done i n f k = refl
finished_late over done i n f k = refl

module _ (s : Simulator) (c : ℕ) (h : c < s.num_cpus) (v : IsServed s) where
  -- A CPU goes on and will look at the queues.
  pub awake-IsServed :
      (u : Simulator) (d : Cpu)
      → awake d.place d.proc ≡ true
      → u.num_cpus ≡ s.num_cpus
      → u.cpus ≡ update s.cpus c d
      → u.finished ≡ s.finished
      → u.at ≡ s.at
      → u.i ≡ s.i
      → u.num_processes ≡ s.num_processes
      → IsServed u
  awake-IsServed u d a n e f at i num = record {
    some_cpu = omega (arith, n, v.some_cpu);
    stops = λ k l. ground (arith, ap (λ g. g k) e, f, n, v.stops k, a);
    closing = rw (at, f, i, num) v.closing;
    served = λ p l. (c, omega (arith, n, h), rw (e, ==-refl c) a);
  }

  -- A CPU goes on without a process from the queues, which hold none.
  empty-IsServed :
      (d : Cpu) (mlq : Mlq)
      → mlq.proc_count ≡ 0
      → d.place ≢ stopped
      → IsServed (record (set_cpu s c d) { mlq = mlq })
  empty-IsServed d mlq z ne = record {
    some_cpu = v.some_cpu;
    stops = λ k l. ground (arith, v.stops k);
    closing = v.closing;
    served = λ p l. absurd (omega arith);
  }

  -- A CPU stops, where it was not to look at the queues.
  pub stop-IsServed :
      (s.cpus c).place ≡ rechecking
      → (s.cpus c).proc ≡ none
      → s.finished ≡ true
      → IsServed (stop s c)
  unfolding stop detach_event
  stop-IsServed k e f = record {
    some_cpu = v.some_cpu;
    stops = λ j l. ground (arith, v.stops j);
    closing = v.closing;
    served = λ p l.
        let (d, hd, a) = v.served p (finished_late s.at _ s.i s.num_processes f v.closing) in
        (d, hd, ground (arith, a, k, e));
  }

  pub replace-IsServed :
      (r : Option ℕ × Mlq) → r ≡ get_mlq_proc s.mlq → IsMlq s.mlq → IsServed (replace s c r)
  unfolding replace
  replace-IsServed (none, mlq) e m =
      empty-IsServed (record (s.cpus c) { place = rechecking; proc = none }) mlq
        (ground (arith, get_mlq_proc-IsMlq s.mlq m)) (cc)
  replace-IsServed (some p, mlq) e m =
      awake-IsServed _ (record (s.cpus c) { place = rechecking; proc = some p }) refl refl refl refl
        refl refl refl

  pub first_get-IsServed : (r : Option ℕ × Mlq) → IsServed (first_get s c r)
  unfolding first_get
  first_get-IsServed (none, mlq) =
      awake-IsServed _ (record (s.cpus c) { place = slot_over; proc = none }) refl refl refl refl
        refl refl refl
  first_get-IsServed (some p, mlq) =
      awake-IsServed _ (record (s.cpus c) { place = rechecking; proc = some p }) refl refl refl refl
        refl refl refl

  pub check-IsServed : (p : ℕ) → (s.cpus c).proc ≡ some p → IsServed (check s c p)
  unfolding check free_proc put_back
  check-IsServed p e = elim (Bool-cases ((s.pcbs p).pc == (s.pcbs p).size)) [
    | inl done ↦ rw done (
        awake-IsServed _ (record (s.cpus c) { place = replacing; proc = none; time_left = 0 }) refl
          refl refl refl refl refl refl)
    | inr more ↦ elim (Bool-cases ((s.cpus c).time_left == 0)) [
      | inl out ↦
          rw (more, out)
            (awake-IsServed _ (record (s.cpus c) { place = replacing; proc = none }) refl refl refl
              refl refl refl refl)
      | inr in_time ↦
          rw (more, in_time)
            (awake-IsServed _ (record (s.cpus c) { place = rechecking }) (ground (arith, e)) refl
              refl refl refl refl refl)
    ]
  ]
