-- ===== src/Os/Tests.antt =====
-- Rounds of a CPU with one process of priority 1.
use operating_system_assignm.Prelude.{◌≡◌, refl, true, none}
use operating_system_assignm.Sched.{init_scheduler}
use operating_system_assignm.Sched.Invariant.{init-IsMlq}
use operating_system_assignm.Os.{Shared, goes_on}
use operating_system_assignm.Os.Rounds.{rounds, rounds-idle}

abbrev shared : Shared
shared = record {
  mlq = init_scheduler;
  pcbs = λ _. record { pc = 2; size = 5; prio = 1 };
  finished = true;
  time_slot = 2;
}

empty_run : shared.mlq.proc_count ≡ 0
unfolding init_scheduler
empty_run = refl

-- The loader is done, and the CPU goes on.
rounds-idle_example :
    ((rounds 100 none 0 shared).0 ≡ goes_on) × ((rounds 100 none 0 shared).2.finished ≡ true)
rounds-idle_example = rounds-idle 100 0 shared init-IsMlq empty_run
