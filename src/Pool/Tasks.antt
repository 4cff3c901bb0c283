-- ===== src/Pool/Tasks.antt =====
-- The list of tasks of src/TA section/BKthreadpool/bktask.c, and their assignment.
use operating_system_assignm.Prelude.{
  ℕ, suc, ◌≤◌, ◌<◌, ◌≡◌, refl, inl, inr, ltb, ◌==◌, if◌then◌else◌, Option, none, some, List, [],
  ◌∷◌, arith, Bool-cases,
}
use operating_system_assignm.Pool.{
  max_worker, Task, Pool, find_task, bktask_get_byid, bktask_init, refused, accepted, outside, give,
  assign_task, bktask_assign_worker,
}

-- The numbers of the tasks are those below `n`, from the largest on.
abbrev pub Numbered : List Task → ℕ → Type 0
Numbered [] n = n ≡ 0
Numbered (t ∷ ts) n = (n ≡ suc t.bktaskid) × Numbered ts t.bktaskid

pub record IsNumbered (p : Pool) : Type 0 where
  pub numbered : Numbered p.bktask p.taskid_seed
  pub sized : p.bktask_sz ≡ p.taskid_seed

find_task-none : (ts : List Task) (n j : ℕ) → Numbered ts n → n ≤ j → find_task j ts ≡ none
unfolding find_task
find_task-none [] n j h l = refl
find_task-none (t ∷ ts) n j h l = ground (arith, find_task-none ts t.bktaskid j h.1)

find_task-some :
    (ts : List Task) (n j : ℕ)
    → Numbered ts n
    → j < n
    → (t : Task) × (find_task j ts ≡ some t) × (t.bktaskid ≡ j)
unfolding find_task
find_task-some [] n j h l = absurd (omega arith)
find_task-some (t ∷ ts) n j h l = elim (Bool-cases (t.bktaskid == j)) [
  | inl e ↦ (t, rw e refl, ground arith)
  | inr e ↦ rw e (find_task-some ts t.bktaskid j h.1 (ground arith))
]

module _ (p : Pool) (v : IsNumbered p) where
  pub bktask_get_byid_found :
      (j : ℕ) → j < p.taskid_seed → (t : Task) × (bktask_get_byid p j ≡ some t) × (t.bktaskid ≡ j)
  unfolding bktask_get_byid
  bktask_get_byid_found j h =
      let (t, e, i) = find_task-some p.bktask p.taskid_seed j v.numbered h in
      (t, ground (arith, v.sized), i)

  pub bktask_get_byid_absent : (j : ℕ) → p.taskid_seed ≤ j → bktask_get_byid p j ≡ none
  unfolding bktask_get_byid
  bktask_get_byid_absent j h = ground (arith, find_task-none p.bktask p.taskid_seed j v.numbered)

  pub get-init :
      (func arg j : ℕ)
      → bktask_get_byid (bktask_init p func arg).1 j ≡ (
          if j == (bktask_init p func arg).0
          then some (record { func = func; arg = arg; bktaskid = (bktask_init p func arg).0 })
          else bktask_get_byid p j)
  unfolding bktask_get_byid bktask_init find_task
  get-init func arg j = ground (arith, v.sized, find_task-none p.bktask p.taskid_seed j v.numbered)

  pub init-IsNumbered : (func arg : ℕ) → IsNumbered (bktask_init p func arg).1
  unfolding bktask_init
  init-IsNumbered func arg = record {
    numbered = (ground arith, v.numbered);
    sized = ground (arith, v.sized);
  }

  -- In a pool whose tasks are numbered from 0 on, the assignment of a task that was made finds it
  -- by its number, and is accepted for the workers below max_worker, writes past their array for
  -- the number max_worker itself, and is refused above.
  pub bktask_assign_worker_lem :
      (j w : ℕ)
      → j < p.taskid_seed
      → (t : Task) × (bktask_get_byid p j ≡ some t)
        × (t.bktaskid ≡ j)
        × (bktask_assign_worker p j w ≡ (
            if ltb w max_worker
            then accepted (give p t j w)
            else if w == max_worker
            then outside
            else refused))
  unfolding bktask_assign_worker
  bktask_assign_worker_lem j w h =
      let (t, e, i) = bktask_get_byid_found j h in (t, e, i, rw e (ground arith))

  pub bktask_assign_worker_absent :
      (j w : ℕ) → p.taskid_seed ≤ j → bktask_assign_worker p j w ≡ refused
  unfolding bktask_assign_worker
  bktask_assign_worker_absent j w h = rw (bktask_get_byid_absent j h) (ground arith)

assign_task-accepted :
    (p q : Pool) (o : Option Task) (j w : ℕ)
    → assign_task p o j w ≡ accepted q
    → (t : Task) × (o ≡ some t) × (q ≡ give p t j w) × (w < max_worker)
unfolding assign_task
assign_task-accepted p q none j w e = cc
assign_task-accepted p q (some t) j w e = elim (Bool-cases (ltb w max_worker)) [
  | inl l ↦ (t, refl, ground arith, ground arith)
  | inr l ↦ absurd (ground arith)
]

-- What an assignment that is accepted has done.
pub bktask_assign_worker-accepted :
    (p q : Pool) (j w : ℕ)
    → bktask_assign_worker p j w ≡ accepted q
    → (t : Task) × (bktask_get_byid p j ≡ some t) × (q ≡ give p t j w) × (w < max_worker)
unfolding bktask_assign_worker
bktask_assign_worker-accepted p q j w e = elim (Bool-cases (ltb max_worker w)) [
  | inl l ↦ absurd (ground arith)
  | inr l ↦ assign_task-accepted p q (bktask_get_byid p j) j w (rw l at e)
]
