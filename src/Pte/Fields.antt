-- ===== src/Pte/Fields.antt =====
-- What the macros read from an entry that the functions of src/mm.c have set.
use operating_system_assignm.Prelude.{ℕ, ◌+◌, ◌*◌, ◌%◌, ◌^◌, ◌<◌, ◌≡◌, ◌≢◌, true, false, arith}
use operating_system_assignm.Pte.{
  get_val, paging_pgn, paging_offst, page_present, paging_fpn, paging_swapfpn, paging_swptyp,
  pte_set_swap, pte_set_fpn, mapped_pte,
}

pub page_present-set_fpn : (pte fpn : ℕ) → page_present (pte_set_fpn pte fpn) ≡ true
unfolding page_present pte_set_fpn
page_present-set_fpn pte fpn = ground arith

pub paging_fpn-set_fpn : (pte fpn : ℕ) → fpn < 1024 → paging_fpn (pte_set_fpn pte fpn) ≡ fpn
unfolding paging_fpn pte_set_fpn
paging_fpn-set_fpn pte fpn h = ground arith

pub pte_set_fpn-ne_zero : (pte fpn : ℕ) → pte_set_fpn pte fpn ≢ 0
unfolding pte_set_fpn
pte_set_fpn-ne_zero pte fpn = omega arith

pub page_present-set_swap : (pte typ off : ℕ) → page_present (pte_set_swap pte typ off) ≡ false
unfolding page_present pte_set_swap
page_present-set_swap pte typ off = ground arith

pub paging_swapfpn-set_swap :
    (pte typ off : ℕ) → off < 2 ^ 21 → paging_swapfpn (pte_set_swap pte typ off) ≡ off
unfolding paging_swapfpn pte_set_swap
paging_swapfpn-set_swap pte typ off h = ground arith

pub pte_set_swap-ne_zero : (pte typ off : ℕ) → pte_set_swap pte typ off ≢ 0
unfolding pte_set_swap
pte_set_swap-ne_zero pte typ off = omega arith

pub page_present-mapped : (f : ℕ) → f < 1024 → page_present (mapped_pte f) ≡ true
unfolding page_present mapped_pte
page_present-mapped f h = ground arith

pub paging_fpn-mapped : (f : ℕ) → f < 1024 → paging_fpn (mapped_pte f) ≡ f
unfolding paging_fpn mapped_pte
paging_fpn-mapped f h = ground arith

pub mapped_pte-ne_zero : (f : ℕ) → mapped_pte f ≢ 0
unfolding mapped_pte
mapped_pte-ne_zero f = omega arith

-- On a 32-bit entry, pte_set_fpn makes a 32-bit entry that is present, not swapped, and holds the
-- low 13 bits of the frame number; the bits 13 to 29 stay; PAGING_FPN reads the frame number modulo
-- 1024.
pub pte_set_fpn_lem :
    (pte fpn : ℕ)
    → pte < 2 ^ 32
    → (pte_set_fpn pte fpn < 2 ^ 32)
      × (page_present (pte_set_fpn pte fpn) ≡ true)
      × (get_val (pte_set_fpn pte fpn) 30 1 ≡ 0)
      × (get_val (pte_set_fpn pte fpn) 0 13 ≡ fpn % 2 ^ 13)
      × (get_val (pte_set_fpn pte fpn) 13 17 ≡ get_val pte 13 17)
      × (paging_fpn (pte_set_fpn pte fpn) ≡ fpn % 1024)
unfolding page_present paging_fpn pte_set_fpn
pte_set_fpn_lem pte fpn h = ground arith

-- On a 32-bit entry, pte_set_swap makes a 32-bit entry that is not present, is swapped, and gives
-- back the type and the swap frame that fit in their fields; the bits 26 to 29 stay.
pub pte_set_swap_lem :
    (pte typ off : ℕ)
    → pte < 2 ^ 32
    → typ < 2 ^ 5
    → off < 2 ^ 21
    → (pte_set_swap pte typ off < 2 ^ 32)
      × (page_present (pte_set_swap pte typ off) ≡ false)
      × (get_val (pte_set_swap pte typ off) 30 1 ≡ 1)
      × (paging_swptyp (pte_set_swap pte typ off) ≡ typ)
      × (paging_swapfpn (pte_set_swap pte typ off) ≡ off)
      × (get_val (pte_set_swap pte typ off) 26 4 ≡ get_val pte 26 4)
unfolding page_present paging_swptyp paging_swapfpn pte_set_swap
pte_set_swap_lem pte typ off h t o = ground arith

-- The page number and the offset give back each address of the 22-bit bus.
pub address_split :
    (addr : ℕ)
    → addr < 2 ^ 22
    → (paging_pgn addr * 256 + paging_offst addr ≡ addr) × (paging_offst addr < 256)
address_split addr h = omega arith
