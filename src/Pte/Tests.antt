-- ===== src/Pte/Tests.antt =====
-- The entry theorems on some entries and addresses.
use operating_system_assignm.Prelude.{◌^◌, ◌<◌, ◌≡◌, true, arith}
use operating_system_assignm.Pte.{get_val, set_val, page_present, paging_fpn, pte_set_fpn}
use operating_system_assignm.Pte.Fields.{pte_set_fpn_lem}
use operating_system_assignm.Pte.Masks.{masked_get, masked_set, masked_lem}

-- Frame 1030 is read back as frame 6.
pte_set_fpn_lem_example :
    (pte_set_fpn 96 1030 < 2 ^ 32)
    × (page_present (pte_set_fpn 96 1030) ≡ true)
    × (get_val (pte_set_fpn 96 1030) 30 1 ≡ 0)
    × (get_val (pte_set_fpn 96 1030) 0 13 ≡ 1030)
    × (get_val (pte_set_fpn 96 1030) 13 17 ≡ 0)
    × (paging_fpn (pte_set_fpn 96 1030) ≡ 6)
pte_set_fpn_lem_example = pte_set_fpn_lem 96 1030 (omega arith)

masked_lem_example :
    (masked_get 2147483744 5 21 ≡ get_val 2147483744 5 21)
    × (masked_set 2147483744 1030 5 21 ≡ set_val 2147483744 1030 5 21)
masked_lem_example = masked_lem 2147483744 1030 5 21 (omega arith) (omega arith)
