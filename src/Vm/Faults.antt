-- ===== src/Vm/Faults.antt =====
-- The tests of `__read` and `__write` of src/mm-vm.c, and the failures of an access.
use operating_system_assignm.Prelude.{ℕ, ◌<◌, ◌≡◌, ◌⊎◌, inl, inr, Bool, true, arith, []}
use operating_system_assignm.Status.{Status, swapping, done, err}
use operating_system_assignm.Pte.{paging_pgn}
use operating_system_assignm.Mm.{Mm}
use operating_system_assignm.Paging.{Machine, pg_getpage}
use operating_system_assignm.Paging.Place.{in_swap, where_is}
use operating_system_assignm.Paging.Faults.{pg_getpage_fails, pg_getval-fails, pg_setval-fails}
use operating_system_assignm.Vm.{
  paging_max_symtbl_sz, get_symbol_region_by_id, address, locate, read, write,
}
use operating_system_assignm.Vm.Owners.{IsArea}
use operating_system_assignm.Vm.Space.{IsSpace}
use operating_system_assignm.Vm.Symbols.{
  Inside, addr_of, inside-sbrk, inside-page, located-read, located-write,
}

-- On an area whose regions do not overlap, an offset that leads from a valid symbol of the table
-- into the region of another one passes the tests of __read and __write.
pub locate_past_end :
    (mm : Mm) (r k s p : ℕ)
    → IsArea mm
    → r < paging_max_symtbl_sz
    → (mm.symrgtbl r).valid ≡ true
    → Inside mm s p
    → addr_of mm r k ≡ addr_of mm s p
    → locate mm r k ≡ done (addr_of mm s p)
unfolding locate get_symbol_region_by_id address
locate_past_end mm r k s p v named valid i e =
    ground (arith, inside-sbrk mm s p v i, v.starts, v.room, v.on_bus)

module _ {foreign_ram foreign_swp : ℕ → Bool} (m : Machine)
    (space : IsSpace foreign_ram foreign_swp m) (rgid offset : ℕ)
    (inside : Inside m.mm rgid offset) where
  -- A read or a write in the region of a valid symbol of a memory in order fails only with the code
  -- for swapping, when the page is in swap and there is no victim or no free swap frame for it.
  pub access_fails :
      (v : ℕ) (e : Status)
      → ((read m rgid offset).0 ≡ err e) ⊎ ((write m v rgid offset).0 ≡ err e)
      → (e ≡ swapping)
        × ((t : ℕ) × (where_is m (paging_pgn (addr_of m.mm rgid offset)) ≡ in_swap t))
        × ((m.mm.fifo_using_pgn ≡ []) ⊎ (m.mswp.free_fp_list ≡ []))
  access_fails v e h = elim (pg_getpage_fails m space.valid (paging_pgn addr) e (failed h)) [
    | inl out ↦
        absurd (space.backed (paging_pgn addr) (inside-page m.mm rgid offset space.area inside) out)
    | inr c ↦ c
  ]
    where
      addr : ℕ
      addr = addr_of m.mm rgid offset

      failed :
          ((read m rgid offset).0 ≡ err e) ⊎ ((write m v rgid offset).0 ≡ err e)
          → (pg_getpage m (paging_pgn addr)).0 ≡ err e
      failed (inl h) =
          pg_getval-fails m space.valid addr e (rw (located-read m space rgid offset inside) at h)
      failed (inr h) =
          pg_setval-fails m space.valid addr v e
            (rw (located-write m space rgid offset inside v) at h)
