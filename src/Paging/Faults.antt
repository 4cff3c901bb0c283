-- ===== src/Paging/Faults.antt =====
-- The failures of `pg_getpage` of src/mm-vm.c, and of what calls it.
use operating_system_assignm.Prelude.{
  ℕ, ◌-◌, ◌≡◌, ◌⊎◌, inl, inr, refl, ap, sym, ◌∙◌, Bool, true, false, arith, has, none, some, List,
  [], ◌∷◌,
}
use operating_system_assignm.Status.{Status, invalid_access, swapping, Outcome, done, err}
use operating_system_assignm.Memphy.Frames.{get_freefp-Taken}
use operating_system_assignm.Mm.{Mm, find_victim_page, pick_victim}
use operating_system_assignm.Mm.Fifo.{find_victim_page-IsQueue, find_victim_page_lem}
use operating_system_assignm.Paging.{
  Machine, swap_in, pg_getpage, pg_getval, pg_setval, fetch, deposit, and_then,
}
use operating_system_assignm.Paging.Place.{
  Place, unmapped, in_ram, in_swap, is_ram, where_is, place, byte_at, contents,
}
use operating_system_assignm.Paging.Valid.{Valid}
use operating_system_assignm.Paging.GetPage.{
  outcome_state, swap_in-no_slot, swap_in-Swaps, getpage-unmapped, getpage-ram, getpage-swap,
  getpage-exchange,
}
use operating_system_assignm.Pte.{paging_pgn}

pick_victim-none : (xs : List ℕ) → pick_victim xs none ≡ none → xs ≡ []
unfolding pick_victim
pick_victim-none [] h = refl
pick_victim-none (p ∷ []) h = ground arith
pick_victim-none (p ∷ q ∷ rest) h = ground arith

find_victim_page-none : (mm : Mm) → find_victim_page mm none ≡ none → mm.fifo_using_pgn ≡ []
unfolding find_victim_page
find_victim_page-none mm h = ground (arith, pick_victim-none mm.fifo_using_pgn)

pick_victim-first : (v : ℕ) (rest : List ℕ) → pick_victim (v ∷ rest) none ≡ some (v, rest)
unfolding pick_victim
pick_victim-first v [] = refl
pick_victim-first v (q ∷ rest) = refl

module _ {foreign_ram foreign_swp : ℕ → Bool} (m : Machine)
    (valid : Valid foreign_ram foreign_swp m) where
  -- What a failed call may have found and done.
  abbrev pub Fault : ℕ → Outcome ℕ × Machine → Type 0
  Fault p r =
      ((where_is m p ≡ unmapped) × (r ≡ (err invalid_access, m)))
      ⊎ ((t : ℕ) × (where_is m p ≡ in_swap t)
          × (((m.mm.fifo_using_pgn ≡ []) × (r ≡ (err swapping, m)))
              ⊎ ((victim : ℕ) × (mm : Mm) × (m.mswp.free_fp_list ≡ [])
                  × (find_victim_page m.mm none ≡ some (victim, mm))
                  × (r ≡ (err swapping, record m { mm = mm })))))

  -- On a valid machine, pg_getpage gives a frame, or the page is not mapped, or it is in swap and
  -- there is no victim or no free swap frame; each failure with its code and state.
  pub pg_getpage_total :
      (p : ℕ)
      → ((f : ℕ) × (m' : Machine) × (pg_getpage m p ≡ (done f, m'))) ⊎ (Fault p (pg_getpage m p))
  pg_getpage_total p = at (where_is m p) refl
    where
      at :
          (pl : Place)
          → where_is m p ≡ pl
          → ((f : ℕ) × (m' : Machine) × (pg_getpage m p ≡ (done f, m')))
            ⊎ (Fault p (pg_getpage m p))
      at unmapped e = inr (inl (e, getpage-unmapped m valid p e))
      at (in_ram x) e = inl (x, m, getpage-ram m valid p x e)
      at (in_swap t) e = elim (swap_in-Swaps m valid swapping swapping p) [
        | inl c ↦
            inr (
              inr
                (t, e, inl (find_victim_page-none m.mm c.0, rw (getpage-swap m valid p t e, c.1))))
        | inr (inl (v, mm, found, no_slot, c)) ↦ inr (
            inr (
              t,
              e,
              inr (
                v,
                mm,
                ground (arith, get_freefp-Taken m.mswp),
                found,
                rw (getpage-swap m valid p t e, c),
              ),
            ))
        | inr (inr (ev, c)) ↦ inl (_, _, getpage-exchange m valid ev p t e c)
      ]

  -- On a valid machine, a failed call of pg_getpage changes no byte of the process.
  pub pg_getpage-err :
      (p q o : ℕ) (e : Status) (m' : Machine)
      → pg_getpage m p ≡ (err e, m')
      → contents m' q o ≡ contents m q o
  unfolding contents
  pg_getpage-err p q o e m' h = elim (pg_getpage_total p) [
    | inl c ↦ absurd (ground (arith, c.2))
    | inr (inl c) ↦ rw (← outcome_state (sym c.1 ∙ h)) refl
    | inr (inr (t, _, inl c)) ↦ rw (← outcome_state (sym c.1 ∙ h)) refl
    | inr (inr (t, _, inr (v, mm, _, found, c))) ↦ rw (← outcome_state (sym c ∙ h)) (
        ap (λ (g : ℕ → ℕ). byte_at m.mram m.mswp (place (g q)) o)
          (find_victim_page-IsQueue m.mm none v mm valid.queue found).4)
  ]

  -- On a valid machine whose swap device is full, an access to a page in swap fails, and the page
  -- that was to make room is off the queue though it stays in RAM, so the machine is no longer
  -- valid.
  pub pg_getpage_loses_victim :
      (p t v : ℕ) (rest : List ℕ)
      → where_is m p ≡ in_swap t
      → m.mswp.free_fp_list ≡ []
      → m.mm.fifo_using_pgn ≡ v ∷ rest
      → let (r, m') = pg_getpage m p in
        (r ≡ err swapping)
        × (m'.mm.fifo_using_pgn ≡ rest)
        × (is_ram (where_is m' v) ≡ true)
        × (has v m'.mm.fifo_using_pgn ≡ false)
        × (¬ Valid foreign_ram foreign_swp m')
  pg_getpage_loses_victim p t v rest away full queue =
      rw (lost) (refl, refl, present, queued, λ ok. ground (arith, ok.queued v, present, queued))
    where
      mm : Mm
      mm = record m.mm {
        fifo_using_pgn = rest;
        num_of_fifo_using_pgn = m.mm.num_of_fifo_using_pgn - 1;
      }

      found : find_victim_page m.mm none ≡ some (v, mm)
      found = find_victim_page_lem m.mm none v rest (rw queue (pick_victim-first v rest))

      swapped : swap_in swapping swapping m p ≡ (err swapping, record m { mm = mm })
      swapped =
          swap_in-no_slot m valid swapping swapping p v mm found
            (ground (arith, get_freefp-Taken m.mswp))

      lost : pg_getpage m p ≡ (err swapping, record m { mm = mm })
      lost = rw (getpage-swap m valid p t away, swapped) refl

      present : is_ram (where_is m v) ≡ true
      present = ground (arith, valid.queued v, queue)

      queued : has v rest ≡ false
      queued = ground (arith, valid.queue.distinct, queue)

  -- A failed call, by its code alone.
  pub pg_getpage_fails :
      (p : ℕ) (e : Status)
      → (pg_getpage m p).0 ≡ err e
      → (where_is m p ≡ unmapped)
        ⊎ ((e ≡ swapping)
            × ((t : ℕ) × (where_is m p ≡ in_swap t))
            × ((m.mm.fifo_using_pgn ≡ []) ⊎ (m.mswp.free_fp_list ≡ [])))
  pg_getpage_fails p e h = elim (pg_getpage_total p) [
    | inl c ↦ absurd (ground (arith, c.2))
    | inr (inl c) ↦ inl c.0
    | inr (inr (t, away, inl c)) ↦ inr (ground (arith, c.1), (t, away), inl c.0)
    | inr (inr (t, away, inr (v, mm, no_slot, _, c))) ↦
        inr (ground (arith, c), (t, away), inr no_slot)
  ]

  -- `fetch` and `deposit` do not fail.
  pub pg_getval-fails :
      (addr : ℕ) (e : Status)
      → (pg_getval m addr).0 ≡ err e
      → (pg_getpage m (paging_pgn addr)).0 ≡ err e
  unfolding pg_getval fetch
  pg_getval-fails addr e h = at (pg_getpage m (paging_pgn addr)) h
    where
      at : (r : Outcome ℕ × Machine) → (and_then r (fetch addr)).0 ≡ err e → r.0 ≡ err e
      at (done f, s) h = absurd (ground arith)
      at (err x, s) h = h

  pub pg_setval-fails :
      (addr v : ℕ) (e : Status)
      → (pg_setval m addr v).0 ≡ err e
      → (pg_getpage m (paging_pgn addr)).0 ≡ err e
  unfolding pg_setval deposit
  pg_setval-fails addr v e h = at (pg_getpage m (paging_pgn addr)) h
    where
      at : (r : Outcome ℕ × Machine) → (and_then r (deposit addr v)).0 ≡ err e → r.0 ≡ err e
      at (done f, s) h = absurd (ground arith)
      at (err x, s) h = ground arith
