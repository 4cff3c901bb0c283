-- ===== src/Simulator/Tests.antt =====
-- Runs of src/os.c with a given interleaving.
use operating_system_assignm.Prelude.{
  ℕ, zero, suc, ◌+◌, ◌≤◌, ◌<◌, ◌≡◌, ◌≢◌, refl, inl, inr, ltb, if◌then◌else◌, none, some, List, [],
  ◌∷◌, arith, Bool-cases, Option-cases, or_else, weigh,
}
use operating_system_assignm.Os.{Pcb}
use operating_system_assignm.Totals.{single, sum_below}
use operating_system_assignm.Queue.{empty, enqueue, dequeue}
use operating_system_assignm.Sched.{
  init_scheduler, init_queues, max_prio, get_mlq_proc, queue_empty, get_proc_by_slot, first_turn,
  has_turn, serve, refill_slots_of_mlq, refill_queues, put_mlq_proc,
}
use operating_system_assignm.Sched.Occurs.{occurs}
use operating_system_assignm.Timer.{
  awaits, ended, attach_event, start_timer, current_time, signal, wake, detach_event, timer_routine,
}
use operating_system_assignm.Timer.Steps.{cleared}
use operating_system_assignm.Simulator.{File, Simulator, cpu_routine, boot}
use operating_system_assignm.Simulator.Steps.{
  ld_routine, Step, cpu, loader, tick, Steps, here, next,
}
use operating_system_assignm.Simulator.OnePlace.{one_place}
use operating_system_assignm.Simulator.Kept.{nothing_dropped}
use operating_system_assignm.Simulator.Finished.{all_finished}
use operating_system_assignm.Simulator.Progress.{main, slots_bound, simulator_moves}

-- Which thread goes on.
data Move : Type 0 where
  cpu_0 : Move
  cpu_1 : Move
  load : Move
  time : Move

files : ℕ → File
files _ = record { start_time = 0; prio = 3; size = 1 }

-- The thread goes on, if it can.
move : Move → Simulator → Simulator
unfolding files
move cpu_0 s = if ltb 0 s.num_cpus then or_else (cpu_routine s 0) s else s
move cpu_1 s = if ltb 1 s.num_cpus then or_else (cpu_routine s 1) s else s
move load s = or_else (ld_routine files s) s
move time s = elim (timer_routine s.timer) [ none ↦ s | some t ↦ record s { timer = t } ]

drive : List Move → Simulator → Simulator
drive [] s = s
drive (m ∷ ms) s = drive ms (move m s)

cpu_move-Steps :
    (b s : Simulator) (c : ℕ)
    → Steps files b s
    → Steps files b (if ltb c s.num_cpus then or_else (cpu_routine s c) s else s)
cpu_move-Steps b s c r = elim (Bool-cases (ltb c s.num_cpus)) [
  | inl l ↦ rw l (elim (Option-cases (cpu_routine s c)) [
    | inl e ↦ rw e r
    | inr (u, e) ↦ rw e (next r (cpu c (ground arith) e))
  ])
  | inr l ↦ rw l r
]

move-Steps : (b s : Simulator) (m : Move) → Steps files b s → Steps files b (move m s)
unfolding move
move-Steps b s cpu_0 r = cpu_move-Steps b s 0 r
move-Steps b s cpu_1 r = cpu_move-Steps b s 1 r
move-Steps b s load r = elim (Option-cases (ld_routine files s)) [
  | inl e ↦ rw e r
  | inr (u, e) ↦ rw e (next r (loader e))
]
move-Steps b s time r = elim (Option-cases (timer_routine s.timer)) [
  | inl e ↦ rw (e, move) r
  | inr (t, e) ↦ rw (e, move) (next r (tick e))
]

drive-Steps : (b s : Simulator) (ms : List Move) → Steps files b s → Steps files b (drive ms s)
unfolding drive
drive-Steps b s [] r = r
drive-Steps b s (m ∷ ms) r = drive-Steps b (move m s) ms (move-Steps b s m r)

no_pcbs : ℕ → Pcb
no_pcbs _ = record { pc = 0; size = 0; prio = 0 }

-- The loader adds a process, and CPU 0 takes it.
taken : Simulator
unfolding drive no_pcbs
taken = drive (load ∷ load ∷ cpu_0 ∷ []) (main 2 2 1 no_pcbs)

taken-Steps : Steps files (main 2 2 1 no_pcbs) taken
unfolding taken
taken-Steps = drive-Steps _ (main 2 2 1 no_pcbs) (load ∷ load ∷ cpu_0 ∷ []) here

taken_lem :
    ((taken.cpus 0).proc ≡ some 0)
    × (taken.num_cpus ≡ 2)
    × (taken.timer.stage ≡ awaits 3 0 0)
    × (taken.i ≡ 1)
unfolding taken move cpu_routine ld_routine boot current_time start_timer attach_event get_mlq_proc
    queue_empty get_proc_by_slot first_turn has_turn serve refill_slots_of_mlq refill_queues
    init_scheduler init_queues put_mlq_proc dequeue enqueue empty
taken_lem = (refl, refl, refl, refl)

low : (x : ℕ) → (files x).prio < max_prio
unfolding files
low x = omega arith

one_place_example :
    (0 < taken.i)
    × (occurs (single 0) taken.mlq ≡ 0)
    × (weigh (single 0) taken.ended ≡ 0)
    × (weigh (single 0) taken.dropped ≡ 0)
    × ((d : ℕ) → d < taken.num_cpus → d ≢ 0 → (taken.cpus d).proc ≢ some 0)
one_place_example =
    one_place files low 2 2 1 cleared no_pcbs taken-Steps 0 0 (omega (arith, taken_lem.1))
      taken_lem.0

nothing_dropped_example : (taken.dropped ≡ []) × (taken.i ≤ taken.num_processes)
nothing_dropped_example = nothing_dropped files low 2 2 1 cleared no_pcbs (omega arith) taken-Steps

slots_bound_example :
    (taken.i ≤ taken.timer.ticks + 1)
    × ((c : ℕ) → c < taken.num_cpus → (taken.cpus c).executed ≤ taken.timer.ticks + 1)
slots_bound_example = slots_bound 2 2 1 no_pcbs taken-Steps

simulator_moves_example : (u : Simulator) × Step files taken u
simulator_moves_example = simulator_moves 2 2 1 no_pcbs taken-Steps (λ e. cc (e, taken_lem.2))

-- The threads in turn, `n` times.
turns : ℕ → List Move
turns zero = []
turns (suc n) = load ∷ cpu_0 ∷ time ∷ turns n

-- One CPU and one process, to the end.
finished_run : Simulator
unfolding drive no_pcbs turns
finished_run = drive (turns 30) (main 2 1 1 no_pcbs)

finished_run-Steps : Steps files (main 2 1 1 no_pcbs) finished_run
unfolding finished_run
finished_run-Steps = drive-Steps _ (main 2 1 1 no_pcbs) (turns 30) here

finished_run_lem : (finished_run.timer.stage ≡ ended) × (finished_run.ended ≡ 0 ∷ [])
unfolding finished_run move cpu_routine ld_routine boot current_time start_timer attach_event
    get_mlq_proc queue_empty get_proc_by_slot first_turn has_turn serve refill_slots_of_mlq
    refill_queues init_scheduler init_queues put_mlq_proc dequeue enqueue empty timer_routine signal
    wake detach_event
finished_run_lem = (refl, refl)

all_finished_example :
    weigh (single 0) finished_run.ended + weigh (single 0) finished_run.dropped
    ≡ sum_below finished_run.num_processes (single 0)
all_finished_example =
    all_finished low 2 1 1 no_pcbs (omega arith) finished_run-Steps finished_run_lem.0 (single 0)
