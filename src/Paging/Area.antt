-- ===== src/Paging/Area.antt =====
-- The area and the symbol table of the process, through the functions of Paging.
use operating_system_assignm.Prelude.{
  ℕ, zero, suc, ◌≡◌, refl, ◌∙◌, arith, ◌==◌, ◌||◌, ◌&&◌, ltb, ◌-◌, Option, none, some, List, [],
  ◌∷◌, Option-cases, inl, inr, Bool-cases,
}
use operating_system_assignm.Status.{
  Status, lack_mem_ram, lack_mem_swp, swapping, Outcome, done, err,
}
use operating_system_assignm.Pte.{page_present, paging_fpn, paging_pgn}
use operating_system_assignm.Memphy.{Memphy, get_freefp, count_free_frame}
use operating_system_assignm.Mm.{
  Mm, find_victim_page, pick_victim, count_available_victim, enlist_tail_pgn_node,
}
use operating_system_assignm.Paging.{
  Machine, exchange, evict, swap_in, bring_to_ram, steal_frame, obtain_frame, obtain_frames,
  alloc_pages_range, and_then, pg_getpage, pg_getval, pg_setval, fetch, deposit,
}

abbrev pub SameArea : Mm → Mm → Type 0
SameArea mm mm' = (mm'.mmap ≡ mm.mmap) × (mm'.symrgtbl ≡ mm.symrgtbl)

find_victim_page-area :
    (mm : Mm) (e : Option ℕ) (v : ℕ) (mm' : Mm)
    → find_victim_page mm e ≡ some (v, mm')
    → SameArea mm mm'
unfolding find_victim_page
find_victim_page-area mm e v mm' h = elim (Option-cases (pick_victim mm.fifo_using_pgn e)) [
  | inl n ↦ absurd (ground arith)
  | inr ((w, left), f) ↦ ground arith
]

swap_in-area : (e e' : Status) (m : Machine) (p : ℕ) → SameArea m.mm (swap_in e e' m p).1.mm
unfolding swap_in exchange enlist_tail_pgn_node
swap_in-area e e' m p = at (find_victim_page m.mm none) refl (get_freefp m.mswp) refl
  where
    at :
        (f : Option (ℕ × Mm))
        → find_victim_page m.mm none ≡ f
        → (g : Option (ℕ × Memphy)) → get_freefp m.mswp ≡ g
        → SameArea m.mm (swap_in e e' m p).1.mm
    at none h g k = rw (h, swap_in) (refl, refl)
    at (some (v, mm)) h none k = rw (h, k, swap_in) (find_victim_page-area m.mm none v mm h)
    at (some (v, mm)) h (some (slot, swp)) k =
        rw (h, k, swap_in) (find_victim_page-area m.mm none v mm h)

pub bring_to_ram-area : (m : Machine) (p : ℕ) → SameArea m.mm (bring_to_ram m p).1.mm
unfolding bring_to_ram
bring_to_ram-area m p = elim (Bool-cases (m.mm.pgd p == 0 || page_present (m.mm.pgd p))) [
  | inl stays ↦ rw stays (refl, refl)
  | inr comes ↦ rw comes (swap_in-area lack_mem_ram lack_mem_swp m p)
]

steal_frame-area : (m : Machine) (e : Option ℕ) → SameArea m.mm (steal_frame m e).1.mm
unfolding steal_frame evict
steal_frame-area m e = at (find_victim_page m.mm e) refl (get_freefp m.mswp) refl
  where
    at :
        (f : Option (ℕ × Mm))
        → find_victim_page m.mm e ≡ f
        → (g : Option (ℕ × Memphy)) → get_freefp m.mswp ≡ g
        → SameArea m.mm (steal_frame m e).1.mm
    at none h g k = rw (h, steal_frame) (refl, refl)
    at (some (v, mm)) h none k = rw (h, k, steal_frame) (find_victim_page-area m.mm e v mm h)
    at (some (v, mm)) h (some (slot, swp)) k =
        rw (h, k, steal_frame) (find_victim_page-area m.mm e v mm h)

obtain_frame-area : (m : Machine) (e : Option ℕ) → SameArea m.mm (obtain_frame m e).1.mm
unfolding obtain_frame
obtain_frame-area m e = elim (Option-cases (get_freefp m.mram)) [
  | inl n ↦ rw (n, obtain_frame) (steal_frame-area m e)
  | inr ((f, ram), s) ↦ rw (s, obtain_frame) (refl, refl)
]

-- What a call leaves, if each of its two parts leaves the area.
and_then-area :
    {A B : Type 0} (mm : Mm) (r : Outcome A × Machine) (k : A → Machine → Outcome B × Machine)
    → SameArea mm r.1.mm
    → ((a : A) (m : Machine) → SameArea m.mm (k a m).1.mm)
    → SameArea mm (and_then r k).1.mm
and_then-area mm (done a, m) k s t = ((t a m).0 ∙ s.0, (t a m).1 ∙ s.1)
and_then-area mm (err e, m) k s t = s

obtain_frames-area :
    (n : ℕ) (m : Machine) (e : Option ℕ) (acc : List ℕ)
    → SameArea m.mm (obtain_frames n m e acc).1.mm
unfolding obtain_frames
obtain_frames-area zero m e acc = (refl, refl)
obtain_frames-area (suc n) m e acc =
    and_then-area m.mm (obtain_frame m e) (λ f m'. obtain_frames n m' e (f ∷ acc))
      (obtain_frame-area m e) (λ f m'. obtain_frames-area n m' e (f ∷ acc))

pub alloc_pages_range-area :
    (m : Machine) (n : ℕ) (e : Option ℕ) → SameArea m.mm (alloc_pages_range m n e).1.mm
unfolding alloc_pages_range
alloc_pages_range-area m n e =
    elim (Bool-cases (
      ltb (count_free_frame m.mram) n
      && ltb (count_available_victim m.mm e) (n - count_free_frame m.mram))) [
        | inl few ↦ rw few (refl, refl)
        | inr victims ↦
            elim (Bool-cases (
              ltb (count_free_frame m.mram) n
              && ltb (count_free_frame m.mswp) (n - count_free_frame m.mram))) [
                | inl full ↦ rw (victims, full) (refl, refl)
                | inr room ↦ rw (victims, room) (obtain_frames-area n m e [])
              ]
      ]

pub pg_getpage-area : (m : Machine) (p : ℕ) → SameArea m.mm (pg_getpage m p).1.mm
unfolding pg_getpage
pg_getpage-area m p = elim (Bool-cases (m.mm.pgd p == 0)) [
  | inl zero_entry ↦ rw zero_entry (refl, refl)
  | inr entry ↦ elim (Bool-cases (page_present (m.mm.pgd p))) [
    | inl here ↦ rw (entry, here) (refl, refl)
    | inr away ↦
        rw (entry, away)
          (and_then-area m.mm (swap_in swapping swapping m p)
            (λ _ m'. (done (paging_fpn (m'.mm.pgd p)), m')) (swap_in-area swapping swapping m p)
            (λ _ m'. (refl, refl)))
  ]
]

pub pg_getval-area : (m : Machine) (addr : ℕ) → SameArea m.mm (pg_getval m addr).1.mm
unfolding pg_getval fetch
pg_getval-area m addr =
    and_then-area m.mm (pg_getpage m (paging_pgn addr)) (fetch addr)
      (pg_getpage-area m (paging_pgn addr)) (λ f m'. (refl, refl))

pub pg_setval-area : (m : Machine) (addr v : ℕ) → SameArea m.mm (pg_setval m addr v).1.mm
unfolding pg_setval deposit
pg_setval-area m addr v =
    and_then-area m.mm (pg_getpage m (paging_pgn addr)) (deposit addr v)
      (pg_getpage-area m (paging_pgn addr)) (λ f m'. (refl, refl))
