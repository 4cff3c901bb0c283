-- ===== src/Simulator/Steps.antt =====
-- `ld_routine` of src/os.c, and the steps of all threads.
use operating_system_assignm.Prelude.{
  ℕ, ◌+◌, ◌<◌, ◌≡◌, true, ltb, if◌then◌else◌, Option, none, some, ◌∷◌, update,
}
use operating_system_assignm.Sched.{put_mlq_proc}
use operating_system_assignm.Timer.{Timer, current_time, signal, wake, detach_event, timer_routine}
use operating_system_assignm.Simulator.{
  LoadPlace, testing, awaiting, too_early, added, pausing, closing, over, File, Simulator, has_room,
  cpu_routine,
}

-- `add_proc`, for the process `i` as the loader has made it.
unfoldable pub add_proc : File → Simulator → Simulator
add_proc f s =
    let s' = record s {
      pcbs = update s.pcbs s.i (record { pc = 0; size = f.size; prio = f.prio });
    } in
    record s' {
      mlq = put_mlq_proc s.mlq f.prio s.i;
      dropped = if has_room s' s.i then s.dropped else s.i ∷ s.dropped;
      i = s.i + 1;
      at = added;
    }

-- Device `num_cpus` is that of the loader.
unfoldable pub load_at : (ℕ → File) → Simulator → LoadPlace → Option Simulator
unfolding add_proc
load_at files s testing = some (
    if ltb s.i s.num_processes
    then record s { at = awaiting }
    else record s { at = closing; finished = true })
load_at files s awaiting = some (
    if ltb (current_time s.timer) (files s.i).start_time
    then record s { at = too_early; timer = signal s.timer s.num_cpus }
    else add_proc (files s.i) s)
load_at files s too_early =
    if (s.timer.devs s.num_cpus).done
    then none
    else some (record s { at = awaiting; timer = wake s.timer s.num_cpus })
load_at files s added = some (record s { at = pausing; timer = signal s.timer s.num_cpus })
load_at files s pausing =
    if (s.timer.devs s.num_cpus).done
    then none
    else some (record s { at = testing; timer = wake s.timer s.num_cpus })
load_at files s closing = some (record s { at = over; timer = detach_event s.timer s.num_cpus })
load_at files s over = none

unfoldable pub ld_routine : (ℕ → File) → Simulator → Option Simulator
unfolding load_at
ld_routine files s = load_at files s s.at

pub data Step (files : ℕ → File) (s : Simulator) : Simulator → Type 0 where
  cpu : {u : Simulator} → (c : ℕ) → c < s.num_cpus → cpu_routine s c ≡ some u → Step files s u
  loader : {u : Simulator} → ld_routine files s ≡ some u → Step files s u
  tick : {t : Timer} → timer_routine s.timer ≡ some t → Step files s (record s { timer = t })

-- Any number of steps.
pub data Steps (files : ℕ → File) (s : Simulator) : Simulator → Type 0 where
  here : Steps files s s
  next : {u v : Simulator} → Steps files s u → Step files u v → Steps files s v
