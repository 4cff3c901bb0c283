-- ===== src/Simulator/Slots.antt =====
-- The slots of the threads of src/os.c, and that they do not block one another.
use mathlib.Core.Path.{subst}
use operating_system_assignm.Prelude.{
  ℕ, ◌<◌, ◌≡◌, refl, inl, inr, false, ◌==◌, Option, none, some, update, arith, Bool-cases,
}
use operating_system_assignm.Sched.{Mlq, get_mlq_proc}
use operating_system_assignm.Timer.{signal, wake, detach_event}
use operating_system_assignm.Timer.Invariant.{signal-IsTimer, wake-IsTimer, detach_event-IsTimer}
use operating_system_assignm.Simulator.{
  Place, top, replacing, rechecking, slot_over, resting, stopped, Cpu, Simulator, first_get, check,
  replace, stop, after_run, run_proc, cpu_signal, cpu_wake, cpu_at,
}
use operating_system_assignm.Simulator.Clock.{CpuIn, IsClocked, cpu-IsClocked}

abbrev pub Clocked : Simulator → Type 0
Clocked s = IsClocked s.num_cpus s.cpus s.at s.i s.timer

module _ (s : Simulator) (c : ℕ) (h : c < s.num_cpus) (v : Clocked s) where
  -- A CPU that stays in its slot.
  stay :
      (d : Cpu)
      → CpuIn d (s.timer.devs c)
      → IsClocked s.num_cpus (update s.cpus c d) s.at s.i s.timer
  stay d e =
      cpu-IsClocked s.num_cpus s.cpus s.at s.i s.timer s.timer c d v h v.timed
        (refl, refl, refl, λ j ne. refl) e

  first_get-Clocked : (r : Option ℕ × Mlq) → (s.cpus c).place ≡ top → Clocked (first_get s c r)
  unfolding first_get
  first_get-Clocked (none, mlq) k =
      stay (record (s.cpus c) { place = slot_over; proc = none }) (ground (arith, v.cpu c h))
  first_get-Clocked (some p, mlq) k =
      stay (record (s.cpus c) { place = rechecking; proc = some p }) (ground (arith, v.cpu c h))

  check-Clocked : (p : ℕ) → (s.cpus c).place ≡ top → Clocked (check s c p)
  unfolding check
  check-Clocked p k = elim (Bool-cases ((s.pcbs p).pc == (s.pcbs p).size)) [
    | inl done ↦ rw done (
        stay (record (s.cpus c) { place = replacing; proc = none; time_left = 0 })
          (ground (arith, v.cpu c h)))
    | inr more ↦ elim (Bool-cases ((s.cpus c).time_left == 0)) [
      | inl out ↦
          rw (more, out)
            (stay (record (s.cpus c) { place = replacing; proc = none })
              (ground (arith, v.cpu c h)))
      | inr in_time ↦
          rw (more, in_time)
            (stay (record (s.cpus c) { place = rechecking }) (ground (arith, v.cpu c h)))
    ]
  ]

  stop-Clocked : (s.cpus c).place ≡ rechecking → Clocked (stop s c)
  unfolding stop detach_event
  stop-Clocked k =
      cpu-IsClocked s.num_cpus s.cpus s.at s.i s.timer (detach_event s.timer c) c
        (record (s.cpus c) { place = stopped }) v h
        (detach_event-IsTimer s.timer c (omega (arith, v.devices)) v.timed
          (ground (arith, v.cpu c h)))
        (refl, refl, refl, λ j ne. ground arith) (ground (arith, v.cpu c h))

  run_proc-Clocked : (p : ℕ) → (s.cpus c).place ≡ rechecking → Clocked (run_proc s c p)
  unfolding run_proc
  run_proc-Clocked p k = stay (after_run s.time_slot (s.cpus c)) (ground (arith, v.cpu c h))

  cpu_signal-Clocked : (s.cpus c).place ≡ slot_over → Clocked (cpu_signal s c)
  unfolding cpu_signal signal
  cpu_signal-Clocked k =
      cpu-IsClocked s.num_cpus s.cpus s.at s.i s.timer (signal s.timer c) c
        (record (s.cpus c) { place = resting }) v h
        (signal-IsTimer s.timer c (omega (arith, v.devices)) v.timed (ground (arith, v.cpu c h)))
        (refl, refl, refl, λ j ne. ground arith) (ground (arith, v.cpu c h))

  cpu_wake-Clocked :
      (s.cpus c).place ≡ resting → (s.timer.devs c).done ≡ false → Clocked (cpu_wake s c)
  unfolding cpu_wake wake
  cpu_wake-Clocked k d =
      cpu-IsClocked s.num_cpus s.cpus s.at s.i s.timer (wake s.timer c) c
        (record (s.cpus c) { place = top }) v h
        (wake-IsTimer s.timer c (omega (arith, v.devices)) v.timed (ground (arith, v.cpu c h)) d)
        (refl, refl, refl, λ j ne. ground arith) (ground (arith, v.cpu c h))

pub cpu_at-Clocked :
    (s u : Simulator) (c : ℕ) (place : Place) (proc : Option ℕ)
    → c < s.num_cpus
    → (s.cpus c).place ≡ place
    → cpu_at s c place proc ≡ some u
    → Clocked s
    → Clocked u
unfolding cpu_at replace
cpu_at-Clocked s u c top none h k g v =
    subst Clocked {x = first_get s c (get_mlq_proc s.mlq)} {y = u} (cc)
      (first_get-Clocked s c h v (get_mlq_proc s.mlq) k)
cpu_at-Clocked s u c top (some p) h k g v =
    subst Clocked {x = check s c p} {y = u} (cc) (check-Clocked s c h v p k)
cpu_at-Clocked s u c replacing proc h k g v =
    subst Clocked {x = replace s c (get_mlq_proc s.mlq)} {y = u} (cc) (
      stay s c h v (record (s.cpus c) { place = rechecking; proc = (get_mlq_proc s.mlq).0 })
        (ground (arith, v.cpu c h)))
cpu_at-Clocked s u c rechecking none h k g v = elim (Bool-cases s.finished) [
  | inl f ↦ subst Clocked {x = stop s c} {y = u} (ground arith) (stop-Clocked s c h v k)
  | inr f ↦
      subst Clocked
        {x = record s { cpus = update s.cpus c (record (s.cpus c) { place = slot_over }) }} {y = u}
        (ground arith)
        (stay s c h v (record (s.cpus c) { place = slot_over }) (ground (arith, v.cpu c h)))
]
cpu_at-Clocked s u c rechecking (some p) h k g v =
    subst Clocked {x = run_proc s c p} {y = u} (cc) (run_proc-Clocked s c h v p k)
cpu_at-Clocked s u c slot_over proc h k g v =
    subst Clocked {x = cpu_signal s c} {y = u} (cc) (cpu_signal-Clocked s c h v k)
cpu_at-Clocked s u c resting proc h k g v = elim (Bool-cases (s.timer.devs c).done) [
  | inl d ↦ absurd (ground arith)
  | inr d ↦ subst Clocked {x = cpu_wake s c} {y = u} (ground arith) (cpu_wake-Clocked s c h v k d)
]
cpu_at-Clocked s u c stopped proc h k g v = cc
