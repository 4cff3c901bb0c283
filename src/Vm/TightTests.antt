-- ===== src/Vm/TightTests.antt =====
-- A process with two pages on a machine with one frame in RAM and one in swap.
use operating_system_assignm.Prelude.{ℕ, ◌+◌, ◌^◌, ◌≤◌, ◌≡◌, ◌⊎◌, inl, refl, arith, some, [], ◌∷◌}
use operating_system_assignm.Status.{swapping, done, err}
use operating_system_assignm.Pte.{paging_pgn, page_present, paging_fpn, mapped_pte, pte_set_swap}
use operating_system_assignm.Memphy.{
  get_freefp, take_free, count_free_frame, concat_usedfp, read as read_cell, write as write_cell,
  copy_page, swap_cells,
}
use operating_system_assignm.Mm.{
  init_mm, init_vm_rg, count_available_victim, enlist_tail_pgn_node, set_pte, map_frames,
  vmap_page_range, find_victim_page, pick_victim,
}
use operating_system_assignm.Paging.{
  Machine, vm_map_ram, bring_to_ram, alloc_pages_range, obtain_frames, obtain_frame, map_obtained,
  pg_setval, deposit, pg_getpage, steal_frame, evict, swap_in, pg_getval, fetch,
}
use operating_system_assignm.Paging.Place.{in_swap, where_is}
use operating_system_assignm.Paging.Valid.{IsDevice}
use operating_system_assignm.Vm.{
  alloc, read, locate, get_free_vmrg_area, first_fit, extend, grown, increase_vma_limit,
  validate_overlap_vm_area, create_vm_rg_of_pcb_at_brk, get_symbol_region_by_id, address,
}
use operating_system_assignm.Vm.Space.{IsSpace}
use operating_system_assignm.Vm.Alloc.{alloc-Allocated}
use operating_system_assignm.Vm.Symbols.{Inside, addr_of}
use operating_system_assignm.Vm.Start.{init_mm-IsSpace}
use operating_system_assignm.Vm.Faults.{access_fails}
use operating_system_assignm.Vm.Tests.{device, alone}

-- With one frame in RAM and one in swap, two pages leave no room for an access to the first.
abbrev tiny : Machine
tiny = record { mm = init_mm []; mram = device (0 ∷ []) 1; mswp = device (0 ∷ []) 1; junk = 0 }

tiny-IsDevice : (reach : ℕ) → 1 ≤ reach → IsDevice reach tiny.mram
tiny-IsDevice reach h = record {
  formatted = record { counted = refl; distinct = (refl, tt); inside = (omega arith, tt) };
  random = refl;
  small = omega arith;
}

tiny-IsSpace : IsSpace alone alone tiny
tiny-IsSpace =
    init_mm-IsSpace alone alone tiny.mram tiny.mswp 0 (tiny-IsDevice 1024 (omega arith))
      (tiny-IsDevice (2 ^ 21) (omega arith)) (λ f h. absurd (ground arith))
      (λ f h. absurd (ground arith)) (λ f h. absurd (ground arith)) (λ f h. absurd (ground arith))

abbrev tiny_one : Machine
tiny_one = (alloc tiny 256 0).1

tiny_one_run : alloc tiny 256 0 ≡ (done (some 0), tiny_one)
unfolding alloc get_free_vmrg_area first_fit extend grown increase_vma_limit
    validate_overlap_vm_area create_vm_rg_of_pcb_at_brk vm_map_ram bring_to_ram alloc_pages_range
    obtain_frames obtain_frame get_freefp take_free count_free_frame count_available_victim
    map_obtained concat_usedfp vmap_page_range map_frames set_pte enlist_tail_pgn_node init_mm
    init_vm_rg
tiny_one_run = refl

tiny_one-IsSpace : IsSpace alone alone tiny_one
unfolding init_mm
tiny_one-IsSpace =
    (alloc-Allocated alone alone tiny 256 0 tiny-IsSpace (omega arith) (some 0) tiny_one
      (omega arith) tiny_one_run).space

abbrev tight : Machine
tight = (alloc tiny_one 256 1).1

tight_run : alloc tiny_one 256 1 ≡ (done (some 256), tight)
unfolding alloc get_free_vmrg_area first_fit extend grown increase_vma_limit
    validate_overlap_vm_area create_vm_rg_of_pcb_at_brk vm_map_ram bring_to_ram alloc_pages_range
    obtain_frames obtain_frame get_freefp take_free count_free_frame count_available_victim
    map_obtained concat_usedfp vmap_page_range map_frames set_pte enlist_tail_pgn_node init_mm
    init_vm_rg steal_frame find_victim_page pick_victim
tight_run = refl

tight_small : tiny_one.mm.mmap.sbrk + 256 ≤ 2 ^ 22
unfolding alloc get_free_vmrg_area first_fit extend grown increase_vma_limit
    validate_overlap_vm_area create_vm_rg_of_pcb_at_brk vm_map_ram bring_to_ram alloc_pages_range
    obtain_frames obtain_frame get_freefp take_free count_free_frame count_available_victim
    map_obtained concat_usedfp vmap_page_range map_frames set_pte enlist_tail_pgn_node init_mm
    init_vm_rg
tight_small = omega arith

tight-IsSpace : IsSpace alone alone tight
tight-IsSpace =
    (alloc-Allocated alone alone tiny_one 256 1 tiny_one-IsSpace (omega arith) (some 256) tight
      tight_small tight_run).space

swapped : Inside tight.mm 0 5
unfolding alloc get_free_vmrg_area first_fit extend grown increase_vma_limit
    validate_overlap_vm_area create_vm_rg_of_pcb_at_brk vm_map_ram bring_to_ram alloc_pages_range
    obtain_frames obtain_frame get_freefp take_free count_free_frame count_available_victim
    map_obtained concat_usedfp vmap_page_range map_frames set_pte enlist_tail_pgn_node init_mm
    init_vm_rg steal_frame find_victim_page pick_victim evict
swapped = record { named = omega arith; is_valid = refl; below = omega arith }

failed : (read tight 0 5).0 ≡ err swapping
unfolding alloc get_free_vmrg_area first_fit extend grown increase_vma_limit
    validate_overlap_vm_area create_vm_rg_of_pcb_at_brk vm_map_ram bring_to_ram alloc_pages_range
    obtain_frames obtain_frame get_freefp take_free count_free_frame count_available_victim
    map_obtained concat_usedfp vmap_page_range map_frames set_pte enlist_tail_pgn_node init_mm
    init_vm_rg locate get_symbol_region_by_id address pg_setval deposit pg_getpage page_present
    paging_fpn mapped_pte steal_frame find_victim_page pick_victim evict pg_getval fetch swap_in
    pte_set_swap read copy_page swap_cells read_cell write_cell
failed = refl

access_fails_example :
    (swapping ≡ swapping)
    × ((t : ℕ) × (where_is tight (paging_pgn (addr_of tight.mm 0 5)) ≡ in_swap t))
    × ((tight.mm.fifo_using_pgn ≡ []) ⊎ (tight.mswp.free_fp_list ≡ []))
access_fails_example = access_fails tight tight-IsSpace 0 5 swapped 0 swapping (inl failed)
