-- ===== src/Simulator/Kept.antt =====
-- A run of src/os.c with no more processes than a queue holds.
use mathlib.Core.Path.{subst}
use native.Mathlib.Nat.{le_trans}
use operating_system_assignm.Prelude.{
  ℕ, ◌+◌, ◌≤◌, ◌<◌, ◌≡◌, refl, ◌∙◌, inl, inr, Bool, true, ltb, ◌==◌, Option, none, some, [], arith,
  Bool-cases,
}
use operating_system_assignm.Os.{Pcb}
use operating_system_assignm.Totals.{total, le-total, sum_below-one}
use operating_system_assignm.Queue.{max_queue_size}
use operating_system_assignm.Sched.{Mlq, max_prio, get_mlq_proc}
use operating_system_assignm.Sched.Invariant.{size_of}
use operating_system_assignm.Sched.Occurs.{occurs-one}
use operating_system_assignm.Timer.{Timer, current_time, signal, wake, detach_event}
use operating_system_assignm.Simulator.{
  Place, top, replacing, rechecking, slot_over, resting, stopped, LoadPlace, testing, awaiting,
  too_early, added, pausing, closing, over, File, Simulator, has_room, first_get, check, cpu_at,
  cpu_routine, boot,
}
use operating_system_assignm.Simulator.Steps.{
  add_proc, load_at, ld_routine, Step, cpu, loader, tick, Steps, here, next,
}
use operating_system_assignm.Simulator.Places.{on, placed, IsPlaced, on_cpu}
use operating_system_assignm.Simulator.Conserved.{Steps-IsPlaced, boot-IsPlaced}

-- While the loader may still add a process, fewer are made than there are.
abbrev IsLoading : ℕ → ℕ → LoadPlace → Type 0
IsLoading i n testing = i ≤ n
IsLoading i n awaiting = i < n
IsLoading i n too_early = i < n
IsLoading i n added = i ≤ n
IsLoading i n pausing = i ≤ n
IsLoading i n closing = i ≤ n
IsLoading i n over = i ≤ n

pub record IsKept (s : Simulator) : Type 0 where
  pub few : s.num_processes ≤ max_queue_size
  pub loading : IsLoading s.i s.num_processes s.at
  pub kept : s.dropped ≡ []

IsLoading-le : (i n : ℕ) (at : LoadPlace) → IsLoading i n at → i ≤ n
IsLoading-le i n testing h = h
IsLoading-le i n awaiting h = omega arith
IsLoading-le i n too_early h = omega arith
IsLoading-le i n added h = h
IsLoading-le i n pausing h = h
IsLoading-le i n closing h = h
IsLoading-le i n over h = h

-- The processes of a queue, those on the CPUs and the others are no more than were made.
queue-le :
    (s : Simulator) (q : ℕ)
    → q < max_prio
    → IsPlaced s
    → (s.mlq.queues q).size + total (on (λ _. 1)) s.num_cpus s.cpus ≤ s.i
unfolding placed
queue-le s q h v = omega (
  arith,
  v.once (λ _. 1),
  sum_below-one s.i,
  occurs-one s.mlq v.sched,
  v.sched.counted,
  le-total size_of max_prio q s.mlq.queues h,
)

put_back-room :
    (s : Simulator) (c p : ℕ)
    → c < s.num_cpus
    → (s.cpus c).proc ≡ some p
    → s.i ≤ max_queue_size
    → IsPlaced s
    → has_room s p ≡ true
put_back-room s c p h e few v = ground (
  arith,
  queue-le s (s.pcbs p).prio (v.prio p (on_cpu s c h v p e)) v,
  le-total (on (λ _. 1)) s.num_cpus c s.cpus h,
)

-- What a step of a CPU leaves alone, if there is room for its process.
abbrev Same : Simulator → Simulator → Type 0
Same s u =
    (u.num_processes ≡ s.num_processes) × (u.i ≡ s.i) × (u.at ≡ s.at) × (u.dropped ≡ s.dropped)

first_get-Same : (s : Simulator) (c : ℕ) (r : Option ℕ × Mlq) → Same s (first_get s c r)
unfolding first_get
first_get-Same s c (none, mlq) = (refl, refl, refl, refl)
first_get-Same s c (some p, mlq) = (refl, refl, refl, refl)

check-Same : (s : Simulator) (c p : ℕ) → has_room s p ≡ true → Same s (check s c p)
unfolding check
check-Same s c p room = elim (Bool-cases ((s.pcbs p).pc == (s.pcbs p).size)) [
  | inl done ↦ rw done (refl, refl, refl, refl)
  | inr more ↦ elim (Bool-cases ((s.cpus c).time_left == 0)) [
    | inl out ↦ rw (more, out) (refl, refl, refl, rw room refl)
    | inr in_time ↦ rw (more, in_time) (refl, refl, refl, refl)
  ]
]

cpu_at-Same :
    (s u : Simulator) (c : ℕ) (place : Place) (proc : Option ℕ)
    → ((p : ℕ) → proc ≡ some p → has_room s p ≡ true)
    → cpu_at s c place proc ≡ some u
    → Same s u
unfolding cpu_at
cpu_at-Same s u c top none room g =
    subst (Same s) {x = first_get s c (get_mlq_proc s.mlq)} {y = u} (cc)
      (first_get-Same s c (get_mlq_proc s.mlq))
cpu_at-Same s u c top (some p) room g =
    subst (Same s) {x = check s c p} {y = u} (cc) (check-Same s c p (room p refl))
cpu_at-Same s u c replacing proc room g = ground arith
cpu_at-Same s u c rechecking none room g = ground arith
cpu_at-Same s u c rechecking (some p) room g = ground arith
cpu_at-Same s u c slot_over proc room g = ground arith
cpu_at-Same s u c resting proc room g = ground arith
cpu_at-Same s u c stopped proc room g = ground arith

cpu_at-IsKept :
    (s u : Simulator) (c : ℕ) (place : Place) (proc : Option ℕ)
    → ((p : ℕ) → proc ≡ some p → has_room s p ≡ true)
    → cpu_at s c place proc ≡ some u
    → IsKept s
    → IsKept u
cpu_at-IsKept s u c place proc room g k =
    let (num, i, at, dropped) = cpu_at-Same s u c place proc room g in
    record {
      few = omega (arith, num, k.few);
      loading = rw (num, i, at) k.loading;
      kept = dropped ∙ k.kept;
    }

add_proc-room :
    (s : Simulator) (f : File)
    → f.prio < max_prio
    → s.i < max_queue_size
    → IsPlaced s
    → ltb (s.mlq.queues f.prio).size max_queue_size ≡ true
add_proc-room s f h l v = ground (arith, queue-le s f.prio h v)

place-IsKept :
    (s : Simulator) (at : LoadPlace) (finished : Bool) (t : Timer)
    → IsLoading s.i s.num_processes at
    → IsKept s
    → IsKept (record s { at = at; finished = finished; timer = t })
place-IsKept s at finished t l k = record { few = k.few; loading = l; kept = k.kept }

add_proc-IsKept :
    (s : Simulator) (f : File)
    → f.prio < max_prio
    → s.i < s.num_processes
    → IsPlaced s
    → IsKept s
    → IsKept (add_proc f s)
unfolding add_proc
add_proc-IsKept s f h l v k = record {
  few = k.few;
  loading = omega arith;
  kept = ground (arith, k.few, k.kept, queue-le s f.prio h v);
}

load_at-IsKept :
    (files : ℕ → File) (s u : Simulator) (at : LoadPlace)
    → ((x : ℕ) → (files x).prio < max_prio)
    → load_at files s at ≡ some u
    → IsPlaced s
    → IsKept s
    → IsLoading s.i s.num_processes at
    → IsKept u
unfolding load_at
load_at-IsKept files s u testing h g v k l = elim (Bool-cases (ltb s.i s.num_processes)) [
  | inl e ↦
      subst IsKept (ground arith) (place-IsKept s awaiting s.finished s.timer (ground arith) k)
  | inr e ↦ subst IsKept (ground arith) (place-IsKept s closing true s.timer l k)
]
load_at-IsKept files s u awaiting h g v k l =
    elim (Bool-cases (ltb (current_time s.timer) (files s.i).start_time)) [
      | inl e ↦
          subst IsKept (ground arith)
            (place-IsKept s too_early s.finished (signal s.timer s.num_cpus) l k)
      | inr e ↦ subst IsKept (ground arith) (add_proc-IsKept s (files s.i) (h s.i) l v k)
    ]
load_at-IsKept files s u too_early h g v k l = elim (Bool-cases (s.timer.devs s.num_cpus).done) [
  | inl d ↦ absurd (ground arith)
  | inr d ↦
      subst IsKept (ground arith) (place-IsKept s awaiting s.finished (wake s.timer s.num_cpus) l k)
]
load_at-IsKept files s u added h g v k l =
    subst IsKept (cc) (place-IsKept s pausing s.finished (signal s.timer s.num_cpus) l k)
load_at-IsKept files s u pausing h g v k l = elim (Bool-cases (s.timer.devs s.num_cpus).done) [
  | inl d ↦ absurd (ground arith)
  | inr d ↦
      subst IsKept (ground arith) (place-IsKept s testing s.finished (wake s.timer s.num_cpus) l k)
]
load_at-IsKept files s u closing h g v k l =
    subst IsKept (cc) (place-IsKept s over s.finished (detach_event s.timer s.num_cpus) l k)
load_at-IsKept files s u over h g v k l = cc

module _ (files : ℕ → File) (prios : (x : ℕ) → (files x).prio < max_prio) where
  Step-IsKept : {s u : Simulator} → Step files s u → IsPlaced s → IsKept s → IsKept u
  unfolding cpu_routine ld_routine
  Step-IsKept {s} {u} (cpu c h e) v k =
      cpu_at-IsKept s u c (s.cpus c).place (s.cpus c).proc
        (λ p f.
          put_back-room s c p h f (le_trans (IsLoading-le s.i s.num_processes s.at k.loading) k.few)
            v)
        e k
  Step-IsKept {s} {u} (loader e) v k = load_at-IsKept files s u s.at prios e v k k.loading
  Step-IsKept {s} {u} (tick {t} e) v k = place-IsKept s s.at s.finished t k.loading k

  Steps-IsKept : {s u : Simulator} → Steps files s u → IsPlaced s → IsKept s → IsKept u
  Steps-IsKept here v k = k
  Steps-IsKept (next r st) v k =
      Step-IsKept st (Steps-IsPlaced files prios r v) (Steps-IsKept r v k)

-- Let the priorities be below max_prio, and let no more than ten processes be to load. In any
-- interleaving from the start of main, no process is dropped, and the loader does not go past their
-- number.
pub nothing_dropped :
    (files : ℕ → File)
    → ((x : ℕ) → (files x).prio < max_prio)
    → (time_slot num_cpus num_processes : ℕ) (t : Timer) (pcbs : ℕ → Pcb) {s : Simulator}
    → num_processes ≤ max_queue_size
    → Steps files (boot time_slot num_cpus num_processes t pcbs) s
    → (s.dropped ≡ []) × (s.i ≤ s.num_processes)
unfolding boot
nothing_dropped files prios time_slot num_cpus num_processes t pcbs {s} few r =
    let k =
      Steps-IsKept files prios r (boot-IsPlaced time_slot num_cpus num_processes t pcbs)
        (record { few = few; loading = omega arith; kept = refl }) in
    (k.kept, IsLoading-le s.i s.num_processes s.at k.loading)
