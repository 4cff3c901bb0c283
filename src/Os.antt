-- ===== src/Os.antt =====
-- `cpu_routine` of src/os.c: one round of the loop of a CPU. The calls of `next_slot` and the
-- messages are left out, and so is what the other threads do during the round. Of `run` only the
-- step of `pc` is kept, since its status is not looked at. An `int` is a number of 32 bits.
pub mod Rounds
mod Tests
use operating_system_assignm.Prelude.{
  ℕ, ◌+◌, ◌-◌, ◌%◌, ◌^◌, Bool, true, false, ltb, ◌==◌, if◌then◌else◌, Option, none, some, update,
}
use operating_system_assignm.Sched.{Mlq, get_mlq_proc, put_mlq_proc}

-- What the loop reads of a `struct pcb_t`.
pub record Pcb : Type 0 where
  pub pc : ℕ
  pub size : ℕ
  pub prio : ℕ

-- What the threads share; a process is the address of its `struct pcb_t`.
pub record Shared : Type 0 where
  pub mlq : Mlq
  pub pcbs : ℕ → Pcb
  pub finished : Bool  -- `done`
  pub time_slot : ℕ

-- The local variables.
pub record Local : Type 0 where
  pub proc : Option ℕ
  pub time_left : ℕ

pub data Turnout : Type 0 where
  stopped : Turnout
  goes_on : Turnout

-- `time_left--`; from 0 it gives -1.
abbrev pub less_one : ℕ → ℕ
less_one n = (n + (2 ^ 32 - 1)) % 2 ^ 32

-- `proc = get_proc ()`
load : Shared → Option ℕ × Shared
load s = let (proc, mlq) = get_mlq_proc s.mlq in (proc, record s { mlq = mlq })

-- `run (proc)`, of which the status is dropped.
unfoldable pub run_pc : Pcb → Pcb
run_pc pcb = if ltb pcb.pc pcb.size then record pcb { pc = pcb.pc + 1 } else pcb

-- From the second test of the status on.
recheck : Option ℕ → ℕ → Shared → Turnout × Local × Shared
unfolding run_pc
recheck none time_left s =
    (if s.finished then stopped else goes_on, record { proc = none; time_left = time_left }, s)
recheck (some p) time_left s = (
  goes_on,
  record {
    proc = some p;
    time_left = less_one (if time_left == 0 then s.time_slot else time_left);
  },
  record s { pcbs = update s.pcbs p (run_pc (s.pcbs p)) },
)

-- After the first `get_proc` of a CPU without a process.
first_load : ℕ → Option ℕ × Shared → Turnout × Local × Shared
unfolding recheck
first_load time_left (none, s) = (goes_on, record { proc = none; time_left = time_left }, s)
first_load time_left (some p, s) = recheck (some p) time_left s

replace : ℕ → Option ℕ × Shared → Turnout × Local × Shared
unfolding recheck
replace time_left (proc, s) = recheck proc time_left s

-- A round with a process.
running : ℕ → ℕ → Shared → Turnout × Local × Shared
unfolding load replace recheck
running p time_left s =
    if (s.pcbs p).pc == (s.pcbs p).size
    then replace 0 (load s)
    else if time_left == 0
    then replace 0 (load (record s { mlq = put_mlq_proc s.mlq (s.pcbs p).prio p }))
    else recheck (some p) time_left s

pub round : Option ℕ → ℕ → Shared → Turnout × Local × Shared
unfolding load first_load running
round none time_left s = first_load time_left (load s)
round (some p) time_left s = running p time_left s
