-- ===== src/Simulator/Loading.antt =====
-- The slots of the loader of src/os.c, and the start of the threads.
use mathlib.Core.Path.{subst}
use operating_system_assignm.Prelude.{
  ℕ, ◌+◌, ◌≡◌, refl, inl, inr, true, false, ltb, some, arith, Bool-cases,
}
use operating_system_assignm.Timer.{working, waiting, current_time, signal, wake, detach_event}
use operating_system_assignm.Timer.Invariant.{signal-IsTimer, wake-IsTimer, detach_event-IsTimer}
use operating_system_assignm.Simulator.{
  LoadPlace, testing, awaiting, too_early, added, pausing, closing, over, File, Simulator,
  cpu_routine,
}
use operating_system_assignm.Simulator.Steps.{
  add_proc, load_at, ld_routine, Step, cpu, loader, tick, Steps, here, next,
}
use operating_system_assignm.Simulator.Clock.{
  LoaderIn, IsClocked, loader-IsClocked, timer_routine-IsClocked,
}
use operating_system_assignm.Simulator.Slots.{Clocked, cpu_at-Clocked}

module _ (s : Simulator) (v : Clocked s) where
  -- The loader goes to another place in its slot.
  to :
      (at : LoadPlace) (i : ℕ)
      → LoaderIn at i (s.timer.devs s.num_cpus)
      → IsClocked s.num_cpus s.cpus at i s.timer
  to at i e =
      loader-IsClocked s.num_cpus s.cpus s.at at s.i i s.timer s.timer v v.timed
        (refl, refl, refl, λ j ne. refl) e

  signalled :
      (at : LoadPlace)
      → (s.timer.devs s.num_cpus).phase ≡ working
      → LoaderIn at s.i ((signal s.timer s.num_cpus).devs s.num_cpus)
      → IsClocked s.num_cpus s.cpus at s.i (signal s.timer s.num_cpus)
  unfolding signal
  signalled at w e =
      loader-IsClocked s.num_cpus s.cpus s.at at s.i s.i s.timer (signal s.timer s.num_cpus) v
        (signal-IsTimer s.timer s.num_cpus (omega (arith, v.devices)) v.timed w)
        (refl, refl, refl, λ j ne. ground arith) e

  woken :
      (at : LoadPlace)
      → (s.timer.devs s.num_cpus).phase ≡ waiting
      → (s.timer.devs s.num_cpus).done ≡ false
      → LoaderIn at s.i ((wake s.timer s.num_cpus).devs s.num_cpus)
      → IsClocked s.num_cpus s.cpus at s.i (wake s.timer s.num_cpus)
  unfolding wake
  woken at w d e =
      loader-IsClocked s.num_cpus s.cpus s.at at s.i s.i s.timer (wake s.timer s.num_cpus) v
        (wake-IsTimer s.timer s.num_cpus (omega (arith, v.devices)) v.timed w d)
        (refl, refl, refl, λ j ne. ground arith) e

  left : s.at ≡ closing → IsClocked s.num_cpus s.cpus over s.i (detach_event s.timer s.num_cpus)
  unfolding detach_event
  left k =
      loader-IsClocked s.num_cpus s.cpus s.at over s.i s.i s.timer (detach_event s.timer s.num_cpus)
        v
        (detach_event-IsTimer s.timer s.num_cpus (omega (arith, v.devices)) v.timed
          (ground (arith, v.loader)))
        (refl, refl, refl, λ j ne. ground arith) (ground (arith, v.loader))

load_at-Clocked :
    (files : ℕ → File) (s u : Simulator) (at : LoadPlace)
    → s.at ≡ at
    → load_at files s at ≡ some u
    → Clocked s
    → Clocked u
unfolding load_at add_proc signal wake
load_at-Clocked files s u testing k g v = elim (Bool-cases (ltb s.i s.num_processes)) [
  | inl l ↦
      subst Clocked {x = record s { at = awaiting }} {y = u} (ground arith)
        (to s v awaiting s.i (ground (arith, v.loader)))
  | inr l ↦
      subst Clocked {x = record s { at = closing; finished = true }} {y = u} (ground arith)
        (to s v closing s.i (ground (arith, v.loader)))
]
load_at-Clocked files s u awaiting k g v =
    elim (Bool-cases (ltb (current_time s.timer) (files s.i).start_time)) [
      | inl l ↦
          subst Clocked {x = record s { at = too_early; timer = signal s.timer s.num_cpus }} {y = u}
            (ground arith)
            (signalled s v too_early (ground (arith, v.loader)) (ground (arith, v.loader)))
      | inr l ↦
          subst Clocked {x = add_proc (files s.i) s} {y = u} (ground arith)
            (to s v added (s.i + 1) (ground (arith, v.loader)))
    ]
load_at-Clocked files s u too_early k g v = elim (Bool-cases (s.timer.devs s.num_cpus).done) [
  | inl d ↦ absurd (ground arith)
  | inr d ↦
      subst Clocked {x = record s { at = awaiting; timer = wake s.timer s.num_cpus }} {y = u}
        (ground arith) (woken s v awaiting (ground (arith, v.loader)) d (ground (arith, v.loader)))
]
load_at-Clocked files s u added k g v =
    subst Clocked {x = record s { at = pausing; timer = signal s.timer s.num_cpus }} {y = u} (cc)
      (signalled s v pausing (ground (arith, v.loader)) (ground (arith, v.loader)))
load_at-Clocked files s u pausing k g v = elim (Bool-cases (s.timer.devs s.num_cpus).done) [
  | inl d ↦ absurd (ground arith)
  | inr d ↦
      subst Clocked {x = record s { at = testing; timer = wake s.timer s.num_cpus }} {y = u}
        (ground arith) (woken s v testing (ground (arith, v.loader)) d (ground (arith, v.loader)))
]
load_at-Clocked files s u closing k g v =
    subst Clocked {x = record s { at = over; timer = detach_event s.timer s.num_cpus }} {y = u} (cc)
      (left s v k)
load_at-Clocked files s u over k g v = cc

Step-Clocked : {files : ℕ → File} {s u : Simulator} → Step files s u → Clocked s → Clocked u
unfolding cpu_routine ld_routine
Step-Clocked {files} {s} {u} (cpu c h e) v =
    cpu_at-Clocked s u c (s.cpus c).place (s.cpus c).proc h refl e v
Step-Clocked {files} {s} {u} (loader e) v = load_at-Clocked files s u s.at refl e v
Step-Clocked {files} {s} {u} (tick {t} e) v =
    timer_routine-IsClocked s.num_cpus s.cpus s.at s.i s.timer t e v

pub Steps-Clocked : {files : ℕ → File} {s u : Simulator} → Steps files s u → Clocked s → Clocked u
Steps-Clocked here v = v
Steps-Clocked (next r st) v = Step-Clocked st (Steps-Clocked r v)
