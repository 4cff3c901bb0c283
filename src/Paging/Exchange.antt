-- ===== src/Paging/Exchange.antt =====
-- The exchange of a page in swap with a victim in RAM, cell by cell.
pub mod Keeps
use operating_system_assignm.Prelude.{
  ℕ, ◌+◌, ◌-◌, ◌*◌, ◌/◌, ◌%◌, ◌^◌, ◌≤◌, ◌<◌, ◌≡◌, ◌≢◌, ◌⊎◌, inl, inr, refl, ap, Bool, true, false,
  arith, has, ◌==◌, ◌&&◌, not, if◌then◌else◌, Option, none, some, List, [], ◌∷◌, has-append, length,
}
use operating_system_assignm.Pte.{paging_fpn, paging_swapfpn, pte_set_swap}
use operating_system_assignm.Memphy.{Memphy, copy_page, get_freefp, put_freefp}
use operating_system_assignm.Memphy.Copy.{copy_page_lem}
use operating_system_assignm.Memphy.Frames.{IsFormatted, get_freefp-some}
use operating_system_assignm.Mm.{Mm, find_victim_page, enlist_tail_pgn_node}
use operating_system_assignm.Mm.Fifo.{
  IsQueue, Without, find_victim_page-IsQueue, enlist_tail_pgn_node-IsQueue,
}
use operating_system_assignm.Paging.{Machine, exchange, set_entry}
use operating_system_assignm.Paging.Place.{
  Place, unmapped, in_ram, in_swap, is_ram, is_ram-in_ram, where_is, place, place-set_fpn,
  place-set_swap, place-ram, place-swap, contents,
}
use operating_system_assignm.Paging.Valid.{Valid, IsDevice, Holds}
use operating_system_assignm.Paging.Victim.{
  Eviction, vf, left, victim_place, taken, ram_random, swp_random, swp_storage, vf_small,
  slot_small,
}

module _ {foreign_ram foreign_swp : ℕ → Bool} {m : Machine}
    (ev : Eviction foreign_ram foreign_swp m none) (pgn target : ℕ)
    (away : where_is m pgn ≡ in_swap target) where
  open ev use {valid, victim, mm, slot, swp}

  abbrev pub m' : Machine
  m' = exchange m victim mm slot swp pgn

  target_fpn : paging_swapfpn (m.mm.pgd pgn) ≡ target
  target_fpn = (place-swap (m.mm.pgd pgn) target away).2

  pub target_ne_slot : target ≢ slot
  target_ne_slot e = ground (arith, (taken ev).1, valid.slots.taken pgn target away)

  pub exchange_eq : exchange m victim mm slot swp pgn ≡ record m {
    mm = m'.mm;
    mram = record m.mram {
      storage = λ a.
          if a / 256 == (vf ev)
          then (if (target * 256 + a % 256) / 256 == slot
              then m.mram.storage ((vf ev) * 256 + (target * 256 + a % 256) % 256)
              else swp.storage (target * 256 + a % 256))
          else m.mram.storage a;
    };
    mswp =
        put_freefp
          (record swp {
            storage = λ a.
                if a / 256 == slot then m.mram.storage ((vf ev) * 256 + a % 256) else swp.storage a;
          })
          target;
  }
  unfolding exchange
  exchange_eq =
      rw
        (
          target_fpn,
          copy_page_lem m.junk m.mram (vf ev) swp slot (ram_random ev) (swp_random ev),
          copy_page_lem m.junk
              (record swp {
                storage = λ a.
                    if a / 256 == slot
                    then m.mram.storage ((vf ev) * 256 + a % 256)
                    else swp.storage a;
              })
              target m.mram (vf ev) (swp_random ev) (ram_random ev),
        )
        refl

  -- What has happened to each page and each cell.
  pub place-exchange :
      (q : ℕ)
      → where_is m' q
        ≡ (if q == pgn then in_ram (vf ev) else if q == victim then in_swap slot else where_is m q)
  unfolding exchange enlist_tail_pgn_node
  place-exchange q = ground (
    arith,
    ap (λ (t : ℕ → ℕ). t q) (left ev).2,
    place-set_fpn ((set_entry mm victim (pte_set_swap (mm.pgd victim) 0 slot)).pgd pgn) (vf ev)
        (vf_small ev),
    place-set_swap (mm.pgd victim) 0 slot (slot_small ev),
    target_ne_slot,
  )

  pub ram-exchange :
      (a : ℕ)
      → m'.mram.storage a
        ≡ (if a / 256 == (vf ev) then m.mswp.storage (target * 256 + a % 256) else m.mram.storage a)
  unfolding put_freefp
  ram-exchange a = rw (exchange_eq, (swp_storage ev)) (ground (arith, target_ne_slot))

  pub swp-exchange :
      (a : ℕ)
      → m'.mswp.storage a
        ≡ (if a / 256 == slot then m.mram.storage ((vf ev) * 256 + a % 256) else m.mswp.storage a)
  unfolding put_freefp
  swp-exchange a = rw (exchange_eq, (swp_storage ev)) refl

  pub exchange-frees :
      (m'.mram.free_fp_list ≡ m.mram.free_fp_list)
      × (m'.mswp.free_fp_list ≡ target ∷ (taken ev).0)
      × (m'.mram.maxsz ≡ m.mram.maxsz)
      × (m'.mswp.maxsz ≡ m.mswp.maxsz)
  unfolding put_freefp
  exchange-frees = rw (exchange_eq, (taken ev).2) (refl, refl, refl, refl)

  contents-exchange_at :
      (pl : Place) (q o : ℕ) → where_is m q ≡ pl → o < 256 → contents m' q o ≡ contents m q o
  unfolding contents
  contents-exchange_at unmapped q o e h = ground (arith, place-exchange q, away, (victim_place ev))
  contents-exchange_at (in_ram x) q o e h = ground (
    arith,
    place-exchange q,
    ram-exchange (x * 256 + o),
    swp-exchange (slot * 256 + o),
    valid.frames.single q victim x,
    away,
    (victim_place ev),
  )
  contents-exchange_at (in_swap x) q o e h = ground (
    arith,
    place-exchange q,
    ram-exchange ((vf ev) * 256 + o),
    swp-exchange (x * 256 + o),
    valid.slots.taken q x,
    (taken ev).1,
    away,
    (victim_place ev),
  )

  -- No byte of the process is lost or changed.
  pub contents-exchange : (q o : ℕ) → o < 256 → contents m' q o ≡ contents m q o
  contents-exchange q o h = contents-exchange_at (where_is m q) q o refl h

  -- The frames of the other processes keep their bytes.
  pub exchange-foreign_ram :
      (f o : ℕ)
      → foreign_ram f ≡ true
      → o < 256
      → m'.mram.storage (f * 256 + o) ≡ m.mram.storage (f * 256 + o)
  exchange-foreign_ram f o e h =
      ground
        (arith, ram-exchange (f * 256 + o), valid.frames.local victim (vf ev) (victim_place ev))

  pub exchange-foreign_swp :
      (f o : ℕ)
      → foreign_swp f ≡ true
      → o < 256
      → m'.mswp.storage (f * 256 + o) ≡ m.mswp.storage (f * 256 + o)
  exchange-foreign_swp f o e h =
      ground (arith, swp-exchange (f * 256 + o), valid.slots.apart f, (taken ev).1)
