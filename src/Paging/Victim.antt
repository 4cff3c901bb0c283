-- ===== src/Paging/Victim.antt =====
-- The choice of a victim page and of a swap frame for it, which `exchange` and `evict` share.
use operating_system_assignm.Prelude.{
  false, ℕ, ◌+◌, ◌-◌, ◌^◌, ◌<◌, ◌≡◌, ap, Bool, true, arith, Option, some, List, ◌∷◌,
}
use operating_system_assignm.Pte.{paging_fpn}
use operating_system_assignm.Memphy.{Memphy, get_freefp}
use operating_system_assignm.Memphy.Frames.{get_freefp-some}
use operating_system_assignm.Mm.{Mm, is_exception, find_victim_page}
use operating_system_assignm.Mm.Fifo.{IsQueue, Without, find_victim_page-IsQueue}
use operating_system_assignm.Paging.{Machine}
use operating_system_assignm.Paging.Place.{in_ram, is_ram-in_ram, where_is, place-ram}
use operating_system_assignm.Paging.Valid.{Valid}

-- The calls of `find_victim_page` and of `get_freefp` on the swap device have succeeded.
pub record Eviction (foreign_ram foreign_swp : ℕ → Bool) (m : Machine) (exception_page : Option ℕ)
    : Type 0 where
  pub valid : Valid foreign_ram foreign_swp m
  pub victim : ℕ
  pub mm : Mm
  pub found : find_victim_page m.mm exception_page ≡ some (victim, mm)
  pub slot : ℕ
  pub swp : Memphy
  pub got : get_freefp m.mswp ≡ some (slot, swp)

module _ {foreign_ram foreign_swp : ℕ → Bool} {m : Machine} {e : Option ℕ}
    (ev : Eviction foreign_ram foreign_swp m e) where
  open ev use {valid, victim, mm, found, slot, swp, got}

  abbrev pub vf : ℕ
  vf = paging_fpn (m.mm.pgd victim)

  pub left : IsQueue mm × Without m.mm.fifo_using_pgn victim mm.fifo_using_pgn × (mm.pgd ≡ m.mm.pgd)
  left = let l = find_victim_page-IsQueue m.mm e victim mm valid.queue found in (l.0, l.1, l.4)

  pub spared : is_exception victim e ≡ false
  spared = (find_victim_page-IsQueue m.mm e victim mm valid.queue found).2

  pub fewer :
      (mm.num_of_fifo_using_pgn + 1 ≡ m.mm.num_of_fifo_using_pgn)
      × (mm.current_max_pgn ≡ m.mm.current_max_pgn)
  fewer = let l = find_victim_page-IsQueue m.mm e victim mm valid.queue found in (l.3, l.5)

  pub victim_place : where_is m victim ≡ in_ram vf
  victim_place =
      let (f, e) =
        is_ram-in_ram (where_is m victim) (ground (arith, valid.queued victim, left.1.member)) in
      ground (arith, e, place-ram (m.mm.pgd victim) f e)

  pub taken :
      (rest : List ℕ) × (m.mswp.free_fp_list ≡ slot ∷ rest)
      × (swp
          ≡ record m.mswp { free_fp_list = rest; num_of_free_frame = m.mswp.num_of_free_frame - 1 })
  taken = get_freefp-some m.mswp slot swp got

  pub ram_random : m.mram.rdmflg ≡ true
  ram_random = valid.ram.random

  pub swp_random : swp.rdmflg ≡ true
  swp_random = ground (arith, taken.2, valid.swp.random)

  pub swp_storage : swp.storage ≡ m.mswp.storage
  swp_storage = ap (λ (d : Memphy). d.storage) taken.2

  pub vf_small : vf < 1024
  vf_small = omega (arith, valid.frames.inside victim vf victim_place, valid.ram.small)

  pub slot_small : slot < 2 ^ 21
  slot_small = ground (arith, taken.1, valid.swp.formatted.inside, valid.swp.small)
