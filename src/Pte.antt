-- ===== src/Pte.antt =====
-- Page table entries: the bit macros of include/mm.h and include/bitops.h, and the functions of
-- src/mm.c that set an entry. An entry is a `uint32_t`, held as a number below 2 ^ 32.
pub mod Fields
pub mod Masks
mod Tests
use operating_system_assignm.Prelude.{
  ℕ, ◌+◌, ◌-◌, ◌*◌, ◌/◌, ◌%◌, ◌^◌, Bool, not, ◌==◌, if◌then◌else◌, Option, none, some,
}

-- GETVAL (v, GENMASK (lo + w - 1, lo), lo): the `w` bits from bit `lo` on.
abbrev pub get_val : ℕ → ℕ → ℕ → ℕ
get_val v lo w = v / 2 ^ lo % 2 ^ w

-- SETVAL (v, value, GENMASK (lo + w - 1, lo), lo): those bits out, the low bits of `value` in.
-- SETBIT and CLRBIT of BIT (n) are the case of one bit, with the value 1 and 0.
abbrev pub set_val : ℕ → ℕ → ℕ → ℕ → ℕ
set_val v value lo w = v - v / 2 ^ lo % 2 ^ w * 2 ^ lo + value % 2 ^ w * 2 ^ lo

abbrev set_bit : ℕ → ℕ → ℕ
set_bit v n = set_val v 1 n 1

abbrev clr_bit : ℕ → ℕ → ℕ
clr_bit v n = set_val v 0 n 1

abbrev pub paging_pagesz : ℕ
paging_pagesz = 256

-- PAGING_MAX_PGN, the number of entries of `pgd`.
abbrev pub paging_max_pgn : ℕ
paging_max_pgn = 2 ^ 14

-- PAGING_PAGE_ALIGNSZ
abbrev pub page_alignsz : ℕ → ℕ
page_alignsz sz = (sz + paging_pagesz - 1) / paging_pagesz * paging_pagesz

-- PAGING_PGN: bits 8 to 21 of an address.
abbrev pub paging_pgn : ℕ → ℕ
paging_pgn addr = get_val addr 8 14

-- PAGING_OFFST: bits 0 to 7.
abbrev pub paging_offst : ℕ → ℕ
paging_offst addr = get_val addr 0 8

-- PAGING_PAGE_PRESENT: bit 31.
unfoldable pub page_present : ℕ → Bool
page_present pte = not (get_val pte 31 1 == 0)

-- PAGING_FPN: NBITS (PAGING_MEMRAMSZ) is 10, so bits 0 to 9.
unfoldable pub paging_fpn : ℕ → ℕ
paging_fpn pte = get_val pte 0 10

-- PAGING_SWAPFPN: bits 5 to 25.
unfoldable pub paging_swapfpn : ℕ → ℕ
paging_swapfpn pte = get_val pte 5 21

-- PAGING_SWPTYP: bits 0 to 4.
pub paging_swptyp : ℕ → ℕ
paging_swptyp pte = get_val pte 0 5

unfoldable pub pte_set_swap : ℕ → ℕ → ℕ → ℕ
pte_set_swap pte swptyp swpoff =
    set_val (set_val (set_bit (clr_bit pte 31) 30) swptyp 0 5) swpoff 5 21

unfoldable pub pte_set_fpn : ℕ → ℕ → ℕ
pte_set_fpn pte fpn = set_val (clr_bit (set_bit pte 31) 30) fpn 0 13

-- `none` is the code's -1, which leaves the entry as it is.
pub init_pte : ℕ → ℕ → ℕ → ℕ → ℕ → ℕ → Option ℕ
init_pte pte pre fpn swp swptyp swpoff =
    if pre == 0
    then some pte
    else if swp == 0
    then (if fpn == 0
        then none
        else some (set_val (clr_bit (clr_bit (set_bit pte 31) 30) 28) fpn 0 13))
    else some (set_val (set_val (clr_bit (set_bit (set_bit pte 31) 30) 28) swptyp 0 5) swpoff 5 21)

-- The entry that `vmap_page_range` writes: the frame number, and the present bit.
unfoldable pub mapped_pte : ℕ → ℕ
mapped_pte frame_number = set_bit frame_number 31
