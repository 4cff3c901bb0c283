-- ===== src/Simulator/Conserved.antt =====
-- Every process of src/os.c is in one place, in all interleavings.
use mathlib.Core.Path.{subst}
use operating_system_assignm.Prelude.{
  ℕ, ◌<◌, ◌≡◌, refl, inl, inr, Bool, true, ltb, Option, none, some, arith, Bool-cases,
}
use operating_system_assignm.Os.{Pcb}
use operating_system_assignm.Totals.{total-zero, sum_below-add_one, sum_below}
use operating_system_assignm.Sched.{Mlq, max_prio, get_mlq_proc, init_scheduler}
use operating_system_assignm.Sched.Invariant.{init-IsMlq, put-IsMlq}
use operating_system_assignm.Sched.Occurs.{occurs-empty, put-occurs}
use operating_system_assignm.Timer.{Timer, current_time, signal, wake, detach_event}
use operating_system_assignm.Simulator.{
  Place, top, replacing, rechecking, slot_over, resting, stopped, File, LoadPlace, testing,
  awaiting, too_early, added, pausing, closing, over, Simulator, first_get, cpu_at, cpu_routine,
  boot,
}
use operating_system_assignm.Simulator.Places.{
  on, placed, IsPlaced, get-IsPlaced, keep-IsPlaced, check-IsPlaced, run_proc-IsPlaced,
}
use operating_system_assignm.Simulator.Steps.{
  add_proc, load_at, ld_routine, Step, cpu, loader, tick, Steps, here, next,
}

-- What `get_mlq_proc` gives, at the head of the loop.
first_get-IsPlaced :
    (s : Simulator) (c : ℕ) (r : Option ℕ × Mlq)
    → c < s.num_cpus
    → (s.cpus c).proc ≡ none
    → r ≡ get_mlq_proc s.mlq
    → IsPlaced s
    → IsPlaced (first_get s c r)
unfolding first_get
first_get-IsPlaced s c (none, mlq) h e g v = subst IsPlaced (ground arith) (
    get-IsPlaced s c h v (record (s.cpus c) { place = slot_over; proc = none }) e (ground arith)
      (cc))
first_get-IsPlaced s c (some p, mlq) h e g v = subst IsPlaced (ground arith) (
    get-IsPlaced s c h v (record (s.cpus c) { place = rechecking; proc = some p }) e (ground arith)
      (cc))

cpu_at-IsPlaced :
    (s u : Simulator) (c : ℕ) (place : Place) (proc : Option ℕ)
    → c < s.num_cpus
    → (s.cpus c).place ≡ place
    → (s.cpus c).proc ≡ proc
    → cpu_at s c place proc ≡ some u
    → IsPlaced s
    → IsPlaced u
unfolding cpu_at
cpu_at-IsPlaced s u c top none h k e g v =
    subst IsPlaced (cc) (first_get-IsPlaced s c (get_mlq_proc s.mlq) h e refl v)
cpu_at-IsPlaced s u c top (some p) h k e g v = subst IsPlaced (cc) (check-IsPlaced s c h v p e)
cpu_at-IsPlaced s u c replacing proc h k e g v = subst IsPlaced (cc) (
    get-IsPlaced s c h v (record (s.cpus c) { place = rechecking; proc = (get_mlq_proc s.mlq).0 })
      (v.free c h k) refl (cc))
cpu_at-IsPlaced s u c rechecking none h k e g v = elim (Bool-cases s.finished) [
  | inl f ↦ subst IsPlaced (ground arith) (
      keep-IsPlaced s c h v (record (s.cpus c) { place = stopped }) (detach_event s.timer c) refl
        (cc))
  | inr f ↦
      subst IsPlaced (ground arith)
        (keep-IsPlaced s c h v (record (s.cpus c) { place = slot_over }) s.timer refl (cc))
]
cpu_at-IsPlaced s u c rechecking (some p) h k e g v =
    subst IsPlaced (cc) (run_proc-IsPlaced s c h v p e)
cpu_at-IsPlaced s u c slot_over proc h k e g v =
    subst IsPlaced (cc)
      (keep-IsPlaced s c h v (record (s.cpus c) { place = resting }) (signal s.timer c) refl (cc))
cpu_at-IsPlaced s u c resting proc h k e g v = elim (Bool-cases (s.timer.devs c).done) [
  | inl d ↦ absurd (ground arith)
  | inr d ↦
      subst IsPlaced (ground arith)
        (keep-IsPlaced s c h v (record (s.cpus c) { place = top }) (wake s.timer c) refl (cc))
]
cpu_at-IsPlaced s u c stopped proc h k e g v = cc

add_proc-IsPlaced :
    (f : File) (s : Simulator) → f.prio < max_prio → IsPlaced s → IsPlaced (add_proc f s)
unfolding add_proc placed
add_proc-IsPlaced f s h v = record {
  sched = put-IsMlq s.mlq f.prio s.i h v.sched;
  prio = λ x l. ground (arith, v.prio x);
  free = v.free;
  once = λ w.
      ground (arith, v.once w, sum_below-add_one s.i w, put-occurs w s.mlq f.prio s.i h v.sched);
}

-- The loader goes on to another place.
at-IsPlaced :
    (s : Simulator) (at : LoadPlace) (finished : Bool) (t : Timer)
    → IsPlaced s
    → IsPlaced (record s { at = at; finished = finished; timer = t })
unfolding placed
at-IsPlaced s at finished t v = record {
  sched = v.sched;
  prio = v.prio;
  free = v.free;
  once = v.once;
}

load_at-IsPlaced :
    (files : ℕ → File) (s u : Simulator) (at : LoadPlace)
    → ((x : ℕ) → (files x).prio < max_prio)
    → load_at files s at ≡ some u
    → IsPlaced s
    → IsPlaced u
unfolding load_at
load_at-IsPlaced files s u testing h g v = elim (Bool-cases (ltb s.i s.num_processes)) [
  | inl l ↦ subst IsPlaced (ground arith) (at-IsPlaced s awaiting s.finished s.timer v)
  | inr l ↦ subst IsPlaced (ground arith) (at-IsPlaced s closing true s.timer v)
]
load_at-IsPlaced files s u awaiting h g v =
    elim (Bool-cases (ltb (current_time s.timer) (files s.i).start_time)) [
      | inl l ↦
          subst IsPlaced (ground arith)
            (at-IsPlaced s too_early s.finished (signal s.timer s.num_cpus) v)
      | inr l ↦ subst IsPlaced (ground arith) (add_proc-IsPlaced (files s.i) s (h s.i) v)
    ]
load_at-IsPlaced files s u too_early h g v = elim (Bool-cases (s.timer.devs s.num_cpus).done) [
  | inl d ↦ absurd (ground arith)
  | inr d ↦
      subst IsPlaced (ground arith) (at-IsPlaced s awaiting s.finished (wake s.timer s.num_cpus) v)
]
load_at-IsPlaced files s u added h g v =
    subst IsPlaced (cc) (at-IsPlaced s pausing s.finished (signal s.timer s.num_cpus) v)
load_at-IsPlaced files s u pausing h g v = elim (Bool-cases (s.timer.devs s.num_cpus).done) [
  | inl d ↦ absurd (ground arith)
  | inr d ↦
      subst IsPlaced (ground arith) (at-IsPlaced s testing s.finished (wake s.timer s.num_cpus) v)
]
load_at-IsPlaced files s u closing h g v =
    subst IsPlaced (cc) (at-IsPlaced s over s.finished (detach_event s.timer s.num_cpus) v)
load_at-IsPlaced files s u over h g v = cc

sum_below-none : (w : ℕ → ℕ) → sum_below 0 w ≡ 0
unfolding sum_below
sum_below-none w = refl

proc_count-init : init_scheduler.proc_count ≡ 0
unfolding init_scheduler
proc_count-init = refl

module _ (files : ℕ → File) (prios : (x : ℕ) → (files x).prio < max_prio) where
  pub Step-IsPlaced : {s u : Simulator} → Step files s u → IsPlaced s → IsPlaced u
  unfolding cpu_routine ld_routine
  Step-IsPlaced {s} {u} (cpu c h e) v =
      cpu_at-IsPlaced s u c (s.cpus c).place (s.cpus c).proc h refl refl e v
  Step-IsPlaced {s} {u} (loader e) v = load_at-IsPlaced files s u s.at prios e v
  Step-IsPlaced {s} {u} (tick {t} e) v = at-IsPlaced s s.at s.finished t v

  pub Steps-IsPlaced : {s u : Simulator} → Steps files s u → IsPlaced s → IsPlaced u
  Steps-IsPlaced here v = v
  Steps-IsPlaced (next r st) v = Step-IsPlaced st (Steps-IsPlaced r v)

pub boot-IsPlaced :
    (time_slot num_cpus num_processes : ℕ) (t : Timer) (pcbs : ℕ → Pcb)
    → IsPlaced (boot time_slot num_cpus num_processes t pcbs)
unfolding boot placed
boot-IsPlaced time_slot num_cpus num_processes t pcbs = record {
  sched = init-IsMlq;
  prio = λ x l. absurd (omega arith);
  free = λ c l e. refl;
  once = λ w. omega (
    arith,
    sum_below-none w,
    occurs-empty w init_scheduler init-IsMlq proc_count-init,
    total-zero (on w) num_cpus
        (λ _. record { place = top; proc = none; time_left = 0; executed = 0 }) (λ i h. refl),
  );
}

-- Let the priorities be below max_prio. In any interleaving from the start of main, every weight of
-- the loaded processes is that of the queues, the CPUs, the finished and the dropped ones together.
pub placed_lem :
    (files : ℕ → File)
    → ((x : ℕ) → (files x).prio < max_prio)
    → (time_slot num_cpus num_processes : ℕ) (t : Timer) (pcbs : ℕ → Pcb) {s : Simulator}
    → Steps files (boot time_slot num_cpus num_processes t pcbs) s
    → (w : ℕ → ℕ) → placed w s ≡ sum_below s.i w
placed_lem files prios time_slot num_cpus num_processes t pcbs r =
    (Steps-IsPlaced files prios r (boot-IsPlaced time_slot num_cpus num_processes t pcbs)).once
