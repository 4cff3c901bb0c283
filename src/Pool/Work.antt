-- ===== src/Pool/Work.antt =====
-- What the workers of src/TA section/BKthreadpool/bkwrk.c call, when tasks are assigned to workers
-- that wait.
use mathlib.Core.Path.{subst, sym, ◌∙◌}
use operating_system_assignm.Prelude.{
  ℕ, ◌+◌, ◌≡◌, ◌≢◌, refl, inl, inr, true, ◌==◌, some, arith, Bool-cases,
}
use operating_system_assignm.Pool.{
  Task, working, Worker, Caller, outside_calls, before_busy, before_func, before_arg, before_id,
  before_signal, Pool, bktask_get_byid, bktask_init, set_worker,
}
use operating_system_assignm.Pool.Tasks.{
  IsNumbered, bktask_get_byid_absent, get-init, init-IsNumbered,
}
use operating_system_assignm.Pool.Threads.{
  go_on, test_func, cleared, Step, inits, assigns, dispatches, goes_on, works, Steps, start, next,
}
use operating_system_assignm.Pool.Holds.{
  Waits, Holds, HasRead, Fits, Named, IsPool, access-Fits, working-Settled,
}

-- Tasks are assigned to workers that wait only.
abbrev pub CarefulStep : {p q : Pool} → Step p q → Type 0
CarefulStep (assigns p t j w i g l) = Waits (p.worker w)
CarefulStep _ = Unit

abbrev pub Careful : {p q : Pool} → Steps p q → Type 0
Careful start = Unit
Careful (next r s) = Careful r × CarefulStep s

init-Holds :
    (p : Pool) (func arg : ℕ) (d : Worker)
    → IsNumbered p
    → Holds (bktask_get_byid p) d
    → Holds (bktask_get_byid (bktask_init p func arg).1) d
unfolding bktask_init
init-Holds p func arg d v (inl e) = inl e
init-Holds p func arg d v (inr (j, t, b, g, f, a)) =
    inr (j, t, b, ground (arith, get-init p v func arg j, bktask_get_byid_absent p v j), f, a)

abbrev AllFit : Pool → Caller → Type 0
AllFit p c = (u : ℕ) → Fits (bktask_get_byid p) c u (p.worker u)

init-IsPool :
    (p : Pool) (func arg : ℕ)
    → p.caller ≡ outside_calls
    → IsPool p
    → IsPool (bktask_init p func arg).1
unfolding bktask_init
init-IsPool p func arg i v = record {
  numbered = init-IsNumbered p v.numbered func arg;
  named = subst (Named (bktask_get_byid (bktask_init p func arg).1)) (sym i) tt;
  fits = subst (AllFit (bktask_init p func arg).1) (sym i) (λ u.
      let (h, k) = subst (AllFit p) i v.fits u in
      (init-Holds p func arg (p.worker u) v.numbered h, k));
}

module _ (p : Pool) (v : IsPool p) where
  -- One worker is written, and the other thread is somewhere else.
  set-IsPool :
      (c : Caller) (w : ℕ) (d : Worker)
      → Named (bktask_get_byid p) c
      → Fits (bktask_get_byid p) c w d
      → ((u : ℕ) → u ≢ w → Fits (bktask_get_byid p) c u (p.worker u))
      → IsPool (record (set_worker p w d) { caller = c })
  unfolding bktask_get_byid
  set-IsPool c w d n own others = record {
    numbered = record { numbered = v.numbered.numbered; sized = v.numbered.sized };
    named = n;
    fits = λ u. elim (Bool-cases (u == w)) [
      | inl e ↦
          let same : w ≡ u = ground (arith, e) in
          rw e (subst (λ k. Fits (bktask_get_byid p) c k d) same own)
      | inr e ↦ rw e (others u (λ z. ground (arith, e, z)))
    ];
  }

  go_on-IsPool : (c : Caller) (q : Pool) → p.caller ≡ c → go_on c p ≡ some q → IsPool q
  unfolding go_on
  go_on-IsPool outside_calls q at e = absurd (ground arith)
  go_on-IsPool (before_busy t j w) q at e =
      let fits = subst (AllFit p) at v.fits in
      subst IsPool (cc) (
        set-IsPool (before_func t j w) w (record (p.worker w) { busy = true })
          (subst (Named (bktask_get_byid p)) at v.named) (fits w) (λ u ne. fits u))
  go_on-IsPool (before_func t j w) q at e =
      let fits = subst (AllFit p) at v.fits in
      subst IsPool (cc) (
        set-IsPool (before_arg t j w) w
          (record (p.worker w) { func = t.func; assigned = (p.worker w).assigned + 1 })
          (subst (Named (bktask_get_byid p)) at v.named)
          (λ ne. absurd (ne refl), λ z. ((fits w).1 z, refl))
          (λ u ne. (λ k. (fits u).0, λ z. absurd (ne z))))
  go_on-IsPool (before_arg t j w) q at e =
      let fits = subst (AllFit p) at v.fits in
      subst IsPool (cc) (
        set-IsPool (before_id t j w) w (record (p.worker w) { arg = t.arg })
          (subst (Named (bktask_get_byid p)) at v.named)
          (λ ne. absurd (ne refl), λ z. (((fits w).1 z).0, ((fits w).1 z).1, refl))
          (λ u ne. (λ k. (fits u).0 k, λ z. absurd (ne z))))
  go_on-IsPool (before_id t j w) q at e =
      let fits = subst (AllFit p) at v.fits in
      let (waits, f, a) = (fits w).1 refl in
      let d : Worker = record (p.worker w) { bktaskid = some j } in
      subst IsPool (cc) (
        set-IsPool outside_calls w d tt
          (
            inr (j, t, refl, subst (Named (bktask_get_byid p)) at v.named, sym f, sym a),
            subst (λ place. HasRead place d.func d.arg) (sym waits.0) tt,
          )
          (λ u ne. (fits u).0 ne))
  go_on-IsPool (before_signal w) q at e =
      let fits = subst (AllFit p) at v.fits in
      subst IsPool (cc) (
        set-IsPool outside_calls w (record (p.worker w) { pending = true }) tt (fits w)
          (λ u ne. fits u))

  assign-IsPool :
      (t : Task) (j w : ℕ)
      → p.caller ≡ outside_calls
      → bktask_get_byid p j ≡ some t
      → Waits (p.worker w)
      → IsPool (record p { caller = before_busy t j w })
  unfolding bktask_get_byid
  assign-IsPool t j w i g waits = record {
    numbered = record { numbered = v.numbered.numbered; sized = v.numbered.sized };
    named = g;
    fits = λ u. (subst (AllFit p) i v.fits u, λ z. subst (λ k. Waits (p.worker k)) (sym z) waits);
  }

  dispatch-IsPool : (w : ℕ) → p.caller ≡ outside_calls → IsPool (test_func p w)
  unfolding test_func bktask_get_byid
  dispatch-IsPool w i = elim (Bool-cases ((p.worker w).func == 0)) [
    | inl e ↦ rw e v
    | inr e ↦ rw e (record {
      numbered = record { numbered = v.numbered.numbered; sized = v.numbered.sized };
      named = tt;
      fits = λ u. subst (AllFit p) i v.fits u;
    })
  ]

Step-IsPool : {p q : Pool} (s : Step p q) → CarefulStep s → IsPool p → IsPool q
Step-IsPool (inits p func arg i) k v = init-IsPool p func arg i v
Step-IsPool (assigns p t j w i g l) k v = assign-IsPool p v t j w i g k
Step-IsPool (dispatches p w i l) k v = dispatch-IsPool p v w i
Step-IsPool (goes_on p q e) k v = go_on-IsPool p v p.caller q refl e
Step-IsPool (works p w b d l e) k v =
    set-IsPool p v p.caller w d v.named
      (access-Fits (bktask_get_byid p) p.caller w b (p.worker w) d (v.fits w) e) (λ u ne. v.fits u)

cleared-IsPool : IsPool cleared
cleared-IsPool = record {
  numbered = record { numbered = refl; sized = refl };
  named = tt;
  fits = λ u. (inl refl, tt);
}

Steps-IsPool : {p q : Pool} (r : Steps p q) → Careful r → IsPool p → IsPool q
Steps-IsPool start k v = v
Steps-IsPool (next r s) k v = Step-IsPool s k.1 (Steps-IsPool r k.0 v)

-- Let tasks be assigned only to workers that wait in sigwait with no signal pending. Then in every
-- state that the threads can reach with their accesses one at a time, what a worker is calling is
-- the function with the argument of one task of the list, the one with the number that the worker
-- holds.
pub working-Task :
    (p : Pool) (w func arg : ℕ) (r : Steps cleared p)
    → Careful r
    → (p.worker w).place ≡ working func arg
    → (j : ℕ) × (t : Task) × ((p.worker w).bktaskid ≡ some j)
      × (bktask_get_byid p j ≡ some t)
      × (t.func ≡ func)
      × (t.arg ≡ arg)
working-Task p w func arg r k at =
    let d = p.worker w in
    let v = Steps-IsPool r k cleared-IsPool in
    let (holds, read) = working-Settled (bktask_get_byid p) p.caller w func arg d (v.fits w) at in
    let (f, a, filled) = subst (λ place. HasRead place d.func d.arg) at read in
    elim holds [
      | inl empty ↦ absurd (filled empty)
      | inr (j, t, b, g, same_func, same_arg) ↦ (j, t, b, g, same_func ∙ sym f, same_arg ∙ sym a)
    ]
