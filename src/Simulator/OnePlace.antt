-- ===== src/Simulator/OnePlace.antt =====
-- What src/os.c does with one process, and with all of them if they fit one queue.
use operating_system_assignm.Prelude.{ℕ, ◌<◌, ◌≡◌, ◌≢◌, some, arith, weigh}
use operating_system_assignm.Os.{Pcb}
use operating_system_assignm.Totals.{le-total, pair-le, single, sum_below-single}
use operating_system_assignm.Sched.{max_prio}
use operating_system_assignm.Sched.Occurs.{occurs}
use operating_system_assignm.Timer.{Timer}
use operating_system_assignm.Simulator.{File, Simulator, boot}
use operating_system_assignm.Simulator.Steps.{Steps}
use operating_system_assignm.Simulator.Places.{on, placed}
use operating_system_assignm.Simulator.Conserved.{placed_lem}

-- Let the priorities be below max_prio. In any interleaving from the start of main, a process on a
-- CPU is one that was loaded, and it is in no queue, has not finished, was not dropped, and is on
-- no other CPU.
pub one_place :
    (files : ℕ → File)
    → ((x : ℕ) → (files x).prio < max_prio)
    → (time_slot num_cpus num_processes : ℕ) (t : Timer) (pcbs : ℕ → Pcb) {s : Simulator}
    → Steps files (boot time_slot num_cpus num_processes t pcbs) s
    → (c p : ℕ) → c < s.num_cpus
    → (s.cpus c).proc ≡ some p
    → (p < s.i)
      × (occurs (single p) s.mlq ≡ 0)
      × (weigh (single p) s.ended ≡ 0)
      × (weigh (single p) s.dropped ≡ 0)
      × ((d : ℕ) → d < s.num_cpus → d ≢ c → (s.cpus d).proc ≢ some p)
unfolding placed
one_place files prios time_slot num_cpus num_processes t pcbs {s} r c p h e =
    let once = placed_lem files prios time_slot num_cpus num_processes t pcbs r (single p) in
    let one = sum_below-single s.i p in
    let mine = le-total (on (single p)) s.num_cpus c s.cpus h in
    (
      ground (arith, once, one, mine),
      ground (arith, once, one, mine),
      ground (arith, once, one, mine),
      ground (arith, once, one, mine),
      λ d l ne f. ground (arith, once, one, pair-le (on (single p)) s.num_cpus c d s.cpus h l),
    )
