-- ===== src/Paging/GetPage.antt =====
-- `pg_getpage` of src/mm-vm.c and the swap-in that it shares with bring_to_ram.
use operating_system_assignm.Prelude.{
  ℕ, ◌≡◌, ◌⊎◌, inl, inr, refl, ap, sym, ◌∙◌, Bool, arith, none, some, Option-cases, ◌==◌, ◌||◌,
  true,
}
use operating_system_assignm.Status.{
  Status, invalid_access, swapping, Outcome, done, err, lack_mem_ram, lack_mem_swp,
}
use operating_system_assignm.Pte.{paging_fpn, page_present}
use operating_system_assignm.Memphy.{get_freefp}
use operating_system_assignm.Mm.{Mm, find_victim_page}
use operating_system_assignm.Paging.{Machine, exchange, swap_in, pg_getpage, and_then, bring_to_ram}
use operating_system_assignm.Paging.Place.{
  Place, unmapped, in_ram, in_swap, where_is, place-unmapped, place-ram, place-swap,
}
use operating_system_assignm.Paging.Valid.{Valid, Keeps}
use operating_system_assignm.Paging.Victim.{Eviction, vf}
use operating_system_assignm.Paging.Exchange.{
  place-exchange, contents-exchange, exchange-foreign_ram, exchange-foreign_swp,
}
use operating_system_assignm.Paging.Exchange.Keeps.{exchange-Valid}

pub outcome_state :
    {A : Type 0} {a b : Outcome A} {s t : Machine}
    → ◌≡◌ {A = Outcome A × Machine} (a, s) (b, t)
    → s ≡ t
outcome_state {A} h = ap (λ (r : Outcome A × Machine). r.1) h

pub outcome :
    {a b : ℕ} {s t : Machine}
    → ◌≡◌ {A = Outcome ℕ × Machine} (done a, s) (done b, t)
    → (a ≡ b) × (s ≡ t)
outcome h = (ground arith, outcome_state h)

module _ {foreign_ram foreign_swp : ℕ → Bool} (m : Machine)
    (valid : Valid foreign_ram foreign_swp m) where
  pub Keeps-refl : Keeps foreign_ram foreign_swp m m
  Keeps-refl = record {
    valid = valid;
    same = λ q o h. refl;
    ram_kept = λ f o e h. refl;
    swp_kept = λ f o e h. refl;
  }

  -- No victim; no slot for the victim, which is off the queue by then; or an exchange.
  abbrev pub Swaps : Status → Status → ℕ → Outcome (Unit {0}) × Machine → Type 0
  Swaps e e' p r =
      ((find_victim_page m.mm none ≡ none) × (r ≡ (err e, m)))
      ⊎ (((victim : ℕ) × (mm : Mm) × (find_victim_page m.mm none ≡ some (victim, mm))
            × (get_freefp m.mswp ≡ none)
            × (r ≡ (err e', record m { mm = mm })))
          ⊎ ((ev : Eviction foreign_ram foreign_swp m none) × (r
                ≡ (done tt, exchange m ev.victim ev.mm ev.slot ev.swp p))))

  pub swap_in-no_slot :
      (e e' : Status) (p victim : ℕ) (mm : Mm)
      → find_victim_page m.mm none ≡ some (victim, mm)
      → get_freefp m.mswp ≡ none
      → swap_in e e' m p ≡ (err e', record m { mm = mm })
  unfolding swap_in
  swap_in-no_slot e e' p victim mm found no_slot = rw (found, no_slot, swap_in)

  pub swap_in-Swaps : (e e' : Status) (p : ℕ) → Swaps e e' p (swap_in e e' m p)
  unfolding swap_in
  swap_in-Swaps e e' p = elim (Option-cases (find_victim_page m.mm none)) [
    | inl no_page ↦ inl (no_page, rw (no_page, swap_in))
    | inr ((victim, mm), found) ↦ elim (Option-cases (get_freefp m.mswp)) [
      | inl no_slot ↦
          inr (inl (victim, mm, found, no_slot, swap_in-no_slot e e' p victim mm found no_slot))
      | inr ((slot, swp), got) ↦ inr (
          inr (
            record {
              valid = valid;
              victim = victim;
              mm = mm;
              found = found;
              slot = slot;
              swp = swp;
              got = got;
            },
            rw (found, got, swap_in),
          ))
    ]
  ]

  exchange-Keeps :
      (ev : Eviction foreign_ram foreign_swp m none) (p t : ℕ)
      → where_is m p ≡ in_swap t
      → Keeps foreign_ram foreign_swp m (exchange m ev.victim ev.mm ev.slot ev.swp p)
  exchange-Keeps ev p t away = record {
    valid = exchange-Valid ev p t away;
    same = contents-exchange ev p t away;
    ram_kept = exchange-foreign_ram ev p t away;
    swp_kept = exchange-foreign_swp ev p t away;
  }

  placed :
      (ev : Eviction foreign_ram foreign_swp m none) (p t : ℕ)
      → where_is m p ≡ in_swap t
      → where_is (exchange m ev.victim ev.mm ev.slot ev.swp p) p ≡ in_ram (vf ev)
  placed ev p t away = ground (arith, place-exchange ev p t away p)

  -- A swap-in that succeeds keeps every byte, and the page is in RAM.
  pub swap_in-done :
      (e e' : Status) (p t : ℕ) (m' : Machine)
      → where_is m p ≡ in_swap t
      → swap_in e e' m p ≡ (done tt, m')
      → Keeps foreign_ram foreign_swp m m' × ((f : ℕ) × (where_is m' p ≡ in_ram f))
  swap_in-done e e' p t m' away h = elim (swap_in-Swaps e e' p) [
    | inl c ↦ absurd (cc (c.1))
    | inr (inl c) ↦ absurd (cc (c.4))
    | inr (inr (ev, c)) ↦
        let same : exchange m ev.victim ev.mm ev.slot ev.swp p ≡ m' =
          ap (λ (r : Outcome (Unit {0}) × Machine). r.1) (sym c ∙ h) in
        rw (← same) (exchange-Keeps ev p t away, (vf ev, placed ev p t away))
  ]

  -- `bring_to_ram` succeeds without a change at a page that is unmapped or in RAM, and by a swap-in
  -- at one in swap.
  pub bring_to_ram-done :
      (p : ℕ) (m' : Machine) → bring_to_ram m p ≡ (done tt, m') → Keeps foreign_ram foreign_swp m m'
  unfolding bring_to_ram
  bring_to_ram-done p m' h = at (where_is m p) refl
    where
      stays : (m.mm.pgd p == 0 || page_present (m.mm.pgd p)) ≡ true → m ≡ m'
      stays c = outcome_state (rw c at h)

      at : (pl : Place) → where_is m p ≡ pl → Keeps foreign_ram foreign_swp m m'
      at unmapped e = rw (← stays (ground (arith, place-unmapped (m.mm.pgd p) e))) Keeps-refl
      at (in_ram x) e = rw (← stays (ground (arith, place-ram (m.mm.pgd p) x e))) Keeps-refl
      at (in_swap t) e =
          (swap_in-done lack_mem_ram lack_mem_swp p t m' e
            (ground (arith, place-swap (m.mm.pgd p) t e))).0

  pub getpage-unmapped :
      (p : ℕ) → where_is m p ≡ unmapped → pg_getpage m p ≡ (err invalid_access, m)
  unfolding pg_getpage
  getpage-unmapped p e = ground (arith, place-unmapped (m.mm.pgd p) e)

  pub getpage-ram : (p f : ℕ) → where_is m p ≡ in_ram f → pg_getpage m p ≡ (done f, m)
  unfolding pg_getpage
  getpage-ram p f e = ground (arith, place-ram (m.mm.pgd p) f e)

  pub getpage-swap :
      (p t : ℕ)
      → where_is m p ≡ in_swap t
      → pg_getpage m p
        ≡ and_then (swap_in swapping swapping m p) (λ _ m'. (done (paging_fpn (m'.mm.pgd p)), m'))
  unfolding pg_getpage
  getpage-swap p t e = ground (arith, place-swap (m.mm.pgd p) t e)

  pub getpage-exchange :
      (ev : Eviction foreign_ram foreign_swp m none) (p t : ℕ)
      → where_is m p ≡ in_swap t
      → swap_in swapping swapping m p ≡ (done tt, exchange m ev.victim ev.mm ev.slot ev.swp p)
      → pg_getpage m p ≡ (done (vf ev), exchange m ev.victim ev.mm ev.slot ev.swp p)
  getpage-exchange ev p t e c =
      rw (getpage-swap p t e, c)
        (ap (λ (f : ℕ). (done f, exchange m ev.victim ev.mm ev.slot ev.swp p))
          (place-ram _ (vf ev) (placed ev p t e)).2)

  -- On a valid machine, if pg_getpage gives a frame, the page is in that frame, no byte of the
  -- process or of the other processes has changed, and the machine is valid.
  pub pg_getpage-Keeps :
      (p f : ℕ) (m' : Machine)
      → pg_getpage m p ≡ (done f, m')
      → Keeps foreign_ram foreign_swp m m' × (where_is m' p ≡ in_ram f)
  pg_getpage-Keeps p f m' h = at (where_is m p) refl
    where
      at :
          (pl : Place)
          → where_is m p ≡ pl
          → Keeps foreign_ram foreign_swp m m' × (where_is m' p ≡ in_ram f)
      at unmapped e = absurd (ground (arith, getpage-unmapped p e))
      at (in_ram x) e =
          let same : (x ≡ f) × (m ≡ m') = outcome (sym (getpage-ram p x e) ∙ h) in
          rw (← same.0, ← same.1) (Keeps-refl, e)
      at (in_swap t) e = elim (swap_in-Swaps swapping swapping p) [
        | inl c ↦ absurd (ground (arith, getpage-swap p t e, c.1))
        | inr (inl c) ↦ absurd (ground (arith, getpage-swap p t e, c.4))
        | inr (inr (ev, c)) ↦
            let same : (vf ev ≡ f) × (exchange m ev.victim ev.mm ev.slot ev.swp p ≡ m') =
              outcome (sym (getpage-exchange ev p t e c) ∙ h) in
            rw (← same.0, ← same.1) (exchange-Keeps ev p t e, placed ev p t e)
      ]
