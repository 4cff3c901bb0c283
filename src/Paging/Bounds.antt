-- ===== src/Paging/Bounds.antt =====
-- The addresses in `storage` that pg_getval, pg_setval and the exchange of pages use.
use operating_system_assignm.Prelude.{ℕ, ◌+◌, ◌*◌, ◌<◌, ◌≡◌, Bool, arith, none, some}
use operating_system_assignm.Status.{done}
use operating_system_assignm.Pte.{paging_pgn, paging_fpn, paging_swapfpn}
use operating_system_assignm.Memphy.{Memphy, get_freefp}
use operating_system_assignm.Mm.{Mm, find_victim_page}
use operating_system_assignm.Paging.{Machine, pg_getpage, phyaddr}
use operating_system_assignm.Paging.Place.{in_swap, where_is, place-swap}
use operating_system_assignm.Paging.Valid.{Valid}
use operating_system_assignm.Paging.Victim.{Eviction, vf, victim_place, taken}
use operating_system_assignm.Paging.GetPage.{pg_getpage-Keeps}

module _ {foreign_ram foreign_swp : ℕ → Bool} (m : Machine)
    (valid : Valid foreign_ram foreign_swp m) where
  -- On a valid machine, the physical address that pg_getval and pg_setval form after a successful
  -- pg_getpage lies in RAM.
  pub phyaddr_bound :
      (addr f : ℕ) (m' : Machine)
      → pg_getpage m (paging_pgn addr) ≡ (done f, m')
      → phyaddr f addr < m'.mram.maxsz
  phyaddr_bound addr f m' h =
      let (k, here) = pg_getpage-Keeps m valid (paging_pgn addr) f m' h in
      omega (arith, k.valid.frames.inside (paging_pgn addr) f here)

  -- On a valid machine, the cells that an exchange copies, of the victim's frame, of the free swap
  -- frame and of the swap frame of the page, lie in the two devices.
  pub exchange_bound :
      (victim slot p t o : ℕ) (mm : Mm) (swp : Memphy)
      → find_victim_page m.mm none ≡ some (victim, mm)
      → get_freefp m.mswp ≡ some (slot, swp)
      → where_is m p ≡ in_swap t
      → o < 256
      → (paging_fpn (m.mm.pgd victim) * 256 + o < m.mram.maxsz)
        × (slot * 256 + o < m.mswp.maxsz)
        × (paging_swapfpn (m.mm.pgd p) * 256 + o < m.mswp.maxsz)
  exchange_bound victim slot p t o mm swp found got away small = (
    omega (arith, valid.frames.inside victim (vf ev) (victim_place ev)),
    ground (arith, (taken ev).1, valid.swp.formatted.inside),
    ground (arith, valid.slots.inside p t away, place-swap (m.mm.pgd p) t away),
  )
    where
      ev : Eviction foreign_ram foreign_swp m none
      ev = record {
        valid = valid;
        victim = victim;
        mm = mm;
        found = found;
        slot = slot;
        swp = swp;
        got = got;
      }
