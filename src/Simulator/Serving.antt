-- ===== src/Simulator/Serving.antt =====
-- The steps of src/os.c and the CPUs that will look at the queues.
use mathlib.Core.Path.{subst}
use operating_system_assignm.Prelude.{
  ℕ, ◌<◌, ◌≡◌, refl, inl, inr, Bool, true, false, ltb, Option, none, some, arith, Bool-cases,
}
use operating_system_assignm.Sched.{get_mlq_proc}
use operating_system_assignm.Timer.{Timer, current_time, signal, wake, detach_event}
use operating_system_assignm.Simulator.{
  Place, top, replacing, rechecking, slot_over, resting, stopped, LoadPlace, testing, awaiting,
  too_early, added, pausing, closing, over, File, Simulator, set_cpu, after_run, run_proc,
  cpu_signal, cpu_wake, cpu_at,
}
use operating_system_assignm.Simulator.Steps.{add_proc, load_at}
use operating_system_assignm.Simulator.Places.{IsPlaced}
use operating_system_assignm.Simulator.Served.{
  late, is_late, Closing, IsServed, awake-IsServed, first_get-IsServed, check-IsServed,
  replace-IsServed, stop-IsServed,
}

pub cpu_at-IsServed :
    (s u : Simulator) (c : ℕ) (place : Place) (proc : Option ℕ)
    → c < s.num_cpus
    → (s.cpus c).place ≡ place
    → (s.cpus c).proc ≡ proc
    → cpu_at s c place proc ≡ some u
    → IsPlaced s
    → IsServed s
    → IsServed u
unfolding cpu_at run_proc cpu_signal cpu_wake signal wake
cpu_at-IsServed s u c top none h k e g m v =
    subst IsServed (cc) (first_get-IsServed s c h v (get_mlq_proc s.mlq))
cpu_at-IsServed s u c top (some p) h k e g m v = subst IsServed (cc) (check-IsServed s c h v p e)
cpu_at-IsServed s u c replacing proc h k e g m v =
    subst IsServed (cc) (replace-IsServed s c h v (get_mlq_proc s.mlq) refl m.sched)
cpu_at-IsServed s u c rechecking none h k e g m v = elim (Bool-cases s.finished) [
  | inl f ↦ subst IsServed (ground arith) (stop-IsServed s c h v k e f)
  | inr f ↦ subst IsServed (ground arith) (
      awake-IsServed s c h v (set_cpu s c (record (s.cpus c) { place = slot_over }))
        (record (s.cpus c) { place = slot_over }) refl refl refl refl refl refl refl)
]
cpu_at-IsServed s u c rechecking (some p) h k e g m v = subst IsServed (cc) (
    awake-IsServed s c h v (run_proc s c p) (after_run s.time_slot (s.cpus c)) refl refl refl refl
      refl refl refl)
cpu_at-IsServed s u c slot_over proc h k e g m v = subst IsServed (cc) (
    awake-IsServed s c h v (cpu_signal s c) (record (s.cpus c) { place = resting }) refl refl refl
      refl refl refl refl)
cpu_at-IsServed s u c resting proc h k e g m v = elim (Bool-cases (s.timer.devs c).done) [
  | inl d ↦ absurd (ground arith)
  | inr d ↦ subst IsServed (ground arith) (
      awake-IsServed s c h v (cpu_wake s c) (record (s.cpus c) { place = top }) refl refl refl refl
        refl refl refl)
]
cpu_at-IsServed s u c stopped proc h k e g m v = cc

module _ (s : Simulator) (v : IsServed s) where
  -- The loader goes on, and it was not late before.
  to-IsServed :
      (at : LoadPlace) (finished : Bool) (t : Timer)
      → (s.finished ≡ true → finished ≡ true)
      → Closing at finished s.i s.num_processes
      → (late at (t.devs s.num_cpus).done ≡ false → is_late s ≡ false)
      → IsServed (record s { at = at; finished = finished; timer = t })
  to-IsServed at finished t f k l = record {
    some_cpu = v.some_cpu;
    stops = λ c h e. let (p, q) = v.stops c h e in (p, f q);
    closing = k;
    served = λ p e. v.served p (l e);
  }

  add_proc-IsServed :
      (f : File) → s.finished ≡ false → s.i < s.num_processes → IsServed (add_proc f s)
  unfolding add_proc
  add_proc-IsServed f e l = record {
    some_cpu = v.some_cpu;
    stops = v.stops;
    closing = (e, omega arith);
    served = λ p q. absurd (cc);
  }

pub load_at-IsServed :
    (files : ℕ → File) (s u : Simulator) (at : LoadPlace)
    → s.at ≡ at
    → load_at files s at ≡ some u
    → IsServed s
    → Closing at s.finished s.i s.num_processes
    → IsServed u
unfolding load_at signal wake detach_event
load_at-IsServed files s u testing a g v k = elim (Bool-cases (ltb s.i s.num_processes)) [
  | inl l ↦
      subst IsServed (ground arith) (
        to-IsServed s v awaiting s.finished s.timer (λ f. f) (k.0, ground arith)
          (λ e. ground arith))
  | inr l ↦
      subst IsServed (ground arith)
        (to-IsServed s v closing true s.timer (λ f. refl) (refl, ground arith) (λ e. ground arith))
]
load_at-IsServed files s u awaiting a g v k =
    elim (Bool-cases (ltb (current_time s.timer) (files s.i).start_time)) [
      | inl l ↦ subst IsServed (ground arith) (
          to-IsServed s v too_early s.finished (signal s.timer s.num_cpus) (λ f. f) k
            (λ e. ground arith))
      | inr l ↦ subst IsServed (ground arith) (add_proc-IsServed s v (files s.i) k.0 k.1)
    ]
load_at-IsServed files s u too_early a g v k = elim (Bool-cases (s.timer.devs s.num_cpus).done) [
  | inl d ↦ absurd (ground arith)
  | inr d ↦
      subst IsServed (ground arith) (
        to-IsServed s v awaiting s.finished (wake s.timer s.num_cpus) (λ f. f) k
          (λ e. ground arith))
]
load_at-IsServed files s u added a g v k = subst IsServed (cc) (
    to-IsServed s v pausing s.finished (signal s.timer s.num_cpus) (λ f. f) k
      (λ e. absurd (ground arith)))
load_at-IsServed files s u pausing a g v k = elim (Bool-cases (s.timer.devs s.num_cpus).done) [
  | inl d ↦ absurd (ground arith)
  | inr d ↦
      subst IsServed (ground arith) (
        to-IsServed s v testing s.finished (wake s.timer s.num_cpus) (λ f. f) k (λ e. ground arith))
]
load_at-IsServed files s u closing a g v k = subst IsServed (cc) (
    to-IsServed s v over s.finished (detach_event s.timer s.num_cpus) (λ f. f) k
      (λ e. ground arith))
load_at-IsServed files s u over a g v k = cc
