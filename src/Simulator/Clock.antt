-- ===== src/Simulator/Clock.antt =====
-- The threads of src/os.c as devices of the timer of src/timer.c.
use mathlib.Core.Path.{subst}
use operating_system_assignm.Prelude.{
  ℕ, ◌+◌, ◌≤◌, ◌<◌, ◌≡◌, ◌≢◌, ◌∙◌, sym, ==→eq, inl, inr, true, false, ◌==◌, some, update, arith,
  Bool-cases,
}
use operating_system_assignm.Timer.{Timer, Phase, working, waiting, gone, Device, timer_routine}
use operating_system_assignm.Timer.Invariant.{IsTimer}
use operating_system_assignm.Timer.Routine.{timer_routine-IsTimer, timer_routine-Keeps}
use operating_system_assignm.Simulator.{
  Place, top, replacing, rechecking, slot_over, resting, stopped, Cpu, LoadPlace, testing, awaiting,
  too_early, added, pausing, closing, over,
}

abbrev pub phase_of : Place → Phase
phase_of top = working
phase_of replacing = working
phase_of rechecking = working
phase_of slot_over = working
phase_of resting = waiting
phase_of stopped = gone

abbrev pub load_phase : LoadPlace → Phase
load_phase testing = working
load_phase awaiting = working
load_phase too_early = waiting
load_phase added = working
load_phase pausing = waiting
load_phase closing = working
load_phase over = gone

-- The CPU may have run an instruction in this slot.
abbrev pub ran : Place → ℕ
ran top = 0
ran replacing = 0
ran rechecking = 0
ran slot_over = 1
ran resting = 1
ran stopped = 0

-- The loader has added a process in this slot.
abbrev pub has_added : LoadPlace → ℕ
has_added testing = 0
has_added awaiting = 0
has_added too_early = 0
has_added added = 1
has_added pausing = 1
has_added closing = 0
has_added over = 0

abbrev pub CpuIn : Cpu → Device → Type 0
CpuIn d e = (e.phase ≡ phase_of d.place) × (d.executed ≤ e.passed + ran d.place)

abbrev pub LoaderIn : LoadPlace → ℕ → Device → Type 0
LoaderIn at i e = (e.phase ≡ load_phase at) × (i ≤ e.passed + has_added at)

-- Each thread is where its device says, and has not done more than its slots allow.
pub record IsClocked (num : ℕ) (cpus : ℕ → Cpu) (at : LoadPlace) (i : ℕ) (t : Timer) : Type 0 where
  pub timed : IsTimer t
  pub devices : t.num ≡ num + 1
  pub started : t.timer_started ≡ true
  pub unstopped : t.timer_stop ≡ false
  pub cpu : (c : ℕ) → c < num → CpuIn (cpus c) (t.devs c)
  pub loader : LoaderIn at i (t.devs num)

-- The timers differ at most at one device.
abbrev pub Beside : ℕ → Timer → Timer → Type 0
Beside k t u =
    (u.num ≡ t.num)
    × (u.timer_started ≡ t.timer_started)
    × (u.timer_stop ≡ t.timer_stop)
    × ((j : ℕ) → j ≢ k → u.devs j ≡ t.devs j)

-- A step of CPU `c` and of its device.
pub cpu-IsClocked :
    (num : ℕ) (cpus : ℕ → Cpu) (at : LoadPlace) (i : ℕ) (t u : Timer) (c : ℕ) (d : Cpu)
    → IsClocked num cpus at i t
    → c < num
    → IsTimer u
    → Beside c t u
    → CpuIn d (u.devs c)
    → IsClocked num (update cpus c d) at i u
cpu-IsClocked num cpus at i t u c d v h w b e = record {
  timed = w;
  devices = b.0 ∙ v.devices;
  started = b.1 ∙ v.started;
  unstopped = b.2 ∙ v.unstopped;
  cpu = λ k l. elim (Bool-cases (k == c)) [
    | inl same ↦ rw same (subst (λ j. CpuIn d (u.devs j)) (sym (==→eq k c same)) e)
    | inr other ↦ rw (other, b.3 k (λ q. absurd (ground arith))) (v.cpu k l)
  ];
  loader = rw (b.3 num (λ q. absurd (omega arith))) v.loader;
}

-- A step of the loader and of its device.
pub loader-IsClocked :
    (num : ℕ) (cpus : ℕ → Cpu) (at at' : LoadPlace) (i i' : ℕ) (t u : Timer)
    → IsClocked num cpus at i t
    → IsTimer u
    → Beside num t u
    → LoaderIn at' i' (u.devs num)
    → IsClocked num cpus at' i' u
loader-IsClocked num cpus at at' i i' t u v w b e = record {
  timed = w;
  devices = b.0 ∙ v.devices;
  started = b.1 ∙ v.started;
  unstopped = b.2 ∙ v.unstopped;
  cpu = λ k l. rw (b.3 k (λ q. absurd (omega arith))) (v.cpu k l);
  loader = e;
}

-- A step of the timer.
pub timer_routine-IsClocked :
    (num : ℕ) (cpus : ℕ → Cpu) (at : LoadPlace) (i : ℕ) (t u : Timer)
    → timer_routine t ≡ some u
    → IsClocked num cpus at i t
    → IsClocked num cpus at i u
timer_routine-IsClocked num cpus at i t u e v =
    let k = timer_routine-Keeps t u e in
    record {
      timed = timer_routine-IsTimer t u e v.timed;
      devices = k.0 ∙ v.devices;
      started = k.1 ∙ v.started;
      unstopped = k.2 ∙ v.unstopped;
      cpu = λ c l. ground (arith, v.cpu c l, k.3 c);
      loader = ground (arith, v.loader, k.3 num);
    }
