-- ===== src/Vm/Tests.antt =====
-- A process that has allocated 300 bytes as symbol 0 and 10 bytes as symbol 1, on a RAM of four
-- frames.
use operating_system_assignm.Prelude.{
  ℕ, ◌+◌, ◌*◌, ◌^◌, ◌<◌, ◌≤◌, ◌≡◌, ◌≢◌, refl, Bool, true, false, arith, ◌==◌, ◌&&◌, if◌then◌else◌,
  Option, none, some, List, [], ◌∷◌,
}
use operating_system_assignm.Status.{done}
use operating_system_assignm.Pte.{page_present, paging_fpn, mapped_pte}
use operating_system_assignm.Memphy.{
  Memphy, get_freefp, take_free, count_free_frame, concat_usedfp, read as read_cell,
}
use operating_system_assignm.Mm.{
  Mm, init_mm, init_vm_rg, count_available_victim, enlist_tail_pgn_node, set_pte, map_frames,
  vmap_page_range,
}
use operating_system_assignm.Paging.{
  Machine, vm_map_ram, bring_to_ram, alloc_pages_range, obtain_frames, obtain_frame, map_obtained,
  pg_setval, deposit, pg_getpage, pg_getval, fetch,
}
use operating_system_assignm.Paging.Valid.{IsDevice}
use operating_system_assignm.Paging.Area.{SameArea}
use operating_system_assignm.Vm.{
  alloc, free, read, write, locate, get_free_vmrg_area, first_fit, extend, grown,
  increase_vma_limit, validate_overlap_vm_area, create_vm_rg_of_pcb_at_brk, get_symbol_region_by_id,
  address,
}
use operating_system_assignm.Vm.Owners.{IsArea, owner, free_owners, free-IsArea, free_twice}
use operating_system_assignm.Vm.Space.{IsSpace}
use operating_system_assignm.Vm.Alloc.{Allocated, alloc-Allocated}
use operating_system_assignm.Vm.Symbols.{Inside, byte_of, read_lem, write_lem}
use operating_system_assignm.Vm.Start.{init_mm-IsSpace}

abbrev pub device : List ℕ → ℕ → Memphy
device free count = record {
  storage = λ _. 0;
  maxsz = count * 256;
  rdmflg = true;
  cursor = 0;
  free_fp_list = free;
  num_of_free_frame = count;
  used_fp_list = [];
  num_of_used_frame = 0;
}

abbrev pub start : Machine
start = record {
  mm = init_mm [];
  mram = device (0 ∷ 1 ∷ 2 ∷ 3 ∷ []) 4;
  mswp = device (0 ∷ 1 ∷ []) 2;
  junk = 0;
}

abbrev pub alone : ℕ → Bool
alone _ = false

ram-IsDevice : IsDevice 1024 start.mram
ram-IsDevice = record {
  formatted = record {
    counted = refl;
    distinct = (refl, (refl, (refl, (refl, tt))));
    inside = (omega arith, (omega arith, (omega arith, (omega arith, tt))));
  };
  random = refl;
  small = omega arith;
}

swp-IsDevice : IsDevice (2 ^ 21) start.mswp
swp-IsDevice = record {
  formatted = record {
    counted = refl;
    distinct = (refl, (refl, tt));
    inside = (omega arith, (omega arith, tt));
  };
  random = refl;
  small = omega arith;
}

init_mm-IsSpace_example : IsSpace alone alone start
init_mm-IsSpace_example =
    init_mm-IsSpace alone alone start.mram start.mswp 0 ram-IsDevice swp-IsDevice
      (λ f h. absurd (ground arith)) (λ f h. absurd (ground arith)) (λ f h. absurd (ground arith))
      (λ f h. absurd (ground arith))

start-IsSpace : IsSpace alone alone start
start-IsSpace =
    init_mm-IsSpace alone alone start.mram start.mswp 0 ram-IsDevice swp-IsDevice
      (λ f h. absurd (ground arith)) (λ f h. absurd (ground arith)) (λ f h. absurd (ground arith))
      (λ f h. absurd (ground arith))

abbrev pub one : Machine
one = (alloc start 300 0).1

one_run : alloc start 300 0 ≡ (done (some 0), one)
unfolding alloc get_free_vmrg_area first_fit extend grown increase_vma_limit
    validate_overlap_vm_area create_vm_rg_of_pcb_at_brk vm_map_ram bring_to_ram alloc_pages_range
    obtain_frames obtain_frame get_freefp take_free count_free_frame count_available_victim
    map_obtained init_mm init_vm_rg
one_run = refl

alloc-Allocated_example : Allocated alone alone start 300 0 one
unfolding init_mm
alloc-Allocated_example =
    alloc-Allocated alone alone start 300 0 start-IsSpace (omega arith) (some 0) one (omega arith)
      one_run

one-IsSpace : IsSpace alone alone one
unfolding init_mm
one-IsSpace =
    (alloc-Allocated alone alone start 300 0 start-IsSpace (omega arith) (some 0) one (omega arith)
      one_run).space

abbrev pub two : Machine
two = (alloc one 10 1).1

two_run : alloc one 10 1 ≡ (done none, two)
unfolding alloc get_free_vmrg_area first_fit extend grown increase_vma_limit
    validate_overlap_vm_area create_vm_rg_of_pcb_at_brk vm_map_ram bring_to_ram alloc_pages_range
    obtain_frames obtain_frame get_freefp take_free count_free_frame count_available_victim
    map_obtained concat_usedfp vmap_page_range map_frames set_pte enlist_tail_pgn_node init_mm
    init_vm_rg
two_run = refl

small : one.mm.mmap.sbrk + 10 ≤ 2 ^ 22
unfolding alloc get_free_vmrg_area first_fit extend grown increase_vma_limit
    validate_overlap_vm_area create_vm_rg_of_pcb_at_brk vm_map_ram bring_to_ram alloc_pages_range
    obtain_frames obtain_frame get_freefp take_free count_free_frame count_available_victim
    map_obtained concat_usedfp vmap_page_range map_frames set_pte enlist_tail_pgn_node init_mm
    init_vm_rg
small = omega arith

pub two-IsSpace : IsSpace alone alone two
two-IsSpace =
    (alloc-Allocated alone alone one 10 1 one-IsSpace (omega arith) none two small two_run).space

pub last : Inside two.mm 0 299
unfolding alloc get_free_vmrg_area first_fit extend grown increase_vma_limit
    validate_overlap_vm_area create_vm_rg_of_pcb_at_brk vm_map_ram bring_to_ram alloc_pages_range
    obtain_frames obtain_frame get_freefp take_free count_free_frame count_available_victim
    map_obtained concat_usedfp vmap_page_range map_frames set_pte enlist_tail_pgn_node init_mm
    init_vm_rg
last = record { named = omega arith; is_valid = refl; below = omega arith }

first : Inside two.mm 1 4
unfolding alloc get_free_vmrg_area first_fit extend grown increase_vma_limit
    validate_overlap_vm_area create_vm_rg_of_pcb_at_brk vm_map_ram bring_to_ram alloc_pages_range
    obtain_frames obtain_frame get_freefp take_free count_free_frame count_available_victim
    map_obtained concat_usedfp vmap_page_range map_frames set_pte enlist_tail_pgn_node init_mm
    init_vm_rg
first = record { named = omega arith; is_valid = refl; below = omega arith }

abbrev pub written : Machine
written = (write two 7 0 299).1

pub write_run : write two 7 0 299 ≡ (done tt, written)
unfolding alloc get_free_vmrg_area first_fit extend grown increase_vma_limit
    validate_overlap_vm_area create_vm_rg_of_pcb_at_brk vm_map_ram bring_to_ram alloc_pages_range
    obtain_frames obtain_frame get_freefp take_free count_free_frame count_available_victim
    map_obtained concat_usedfp vmap_page_range map_frames set_pte enlist_tail_pgn_node init_mm
    init_vm_rg write locate get_symbol_region_by_id address pg_setval deposit pg_getpage
    page_present paging_fpn mapped_pte
write_run = refl

write_lem_example :
    IsSpace alone alone written
    × SameArea two.mm written.mm
    × ((s p : ℕ)
        → Inside two.mm s p
        → byte_of written s p ≡ (if (s == 0) && (p == 299) then some 7 else byte_of two s p))
write_lem_example = write_lem two two-IsSpace 0 299 last 7 written write_run

abbrev after_read : Machine
after_read = (read two 0 299).1

read_run : read two 0 299 ≡ (done 0, after_read)
unfolding alloc get_free_vmrg_area first_fit extend grown increase_vma_limit
    validate_overlap_vm_area create_vm_rg_of_pcb_at_brk vm_map_ram bring_to_ram alloc_pages_range
    obtain_frames obtain_frame get_freefp take_free count_free_frame count_available_victim
    map_obtained concat_usedfp vmap_page_range map_frames set_pte enlist_tail_pgn_node init_mm
    init_vm_rg locate get_symbol_region_by_id address pg_setval deposit pg_getpage page_present
    paging_fpn mapped_pte pg_getval fetch read_cell read
read_run = refl

read_lem_example :
    (byte_of two 0 299 ≡ some 0)
    × IsSpace alone alone after_read
    × SameArea two.mm after_read.mm
    × ((s p : ℕ) → Inside two.mm s p → byte_of after_read s p ≡ byte_of two s p)
read_lem_example = read_lem two two-IsSpace 0 299 last 0 after_read read_run

free-IsArea_example :
    (mm' : Mm) × (free two.mm 1 ≡ some mm')
    × IsArea mm'
    × ((mm'.symrgtbl 1).valid ≡ false)
    × ((j : ℕ) → j ≢ 1 → mm'.symrgtbl j ≡ two.mm.symrgtbl j)
    × (mm' ≡ record (two.mm) { mmap = mm'.mmap; symrgtbl = mm'.symrgtbl })
    × (mm'.mmap.vm_end ≡ two.mm.mmap.vm_end)
    × (mm'.mmap.sbrk ≡ two.mm.mmap.sbrk)
    × ((a : ℕ)
        → free_owners a mm'.mmap.vm_freerg_list
          ≡ owner (two.mm.symrgtbl 1).rg_start (two.mm.symrgtbl 1).rg_end a
            + free_owners a two.mm.mmap.vm_freerg_list)
free-IsArea_example = free-IsArea two.mm 1 two-IsSpace.area first.named first.is_valid

abbrev mm_of : Option Mm → Mm
mm_of none = two.mm
mm_of (some mm) = mm

abbrev once : Mm
once = mm_of (free two.mm 1)

abbrev twice : Mm
twice = mm_of (free once 1)

filled :
    ((two.mm.symrgtbl 1).rg_start ≤ (two.mm.symrgtbl 1).rg_start)
    × ((two.mm.symrgtbl 1).rg_start < (two.mm.symrgtbl 1).rg_end)
unfolding alloc get_free_vmrg_area first_fit extend grown increase_vma_limit
    validate_overlap_vm_area create_vm_rg_of_pcb_at_brk vm_map_ram bring_to_ram alloc_pages_range
    obtain_frames obtain_frame get_freefp take_free count_free_frame count_available_victim
    map_obtained concat_usedfp vmap_page_range map_frames set_pte enlist_tail_pgn_node init_mm
    init_vm_rg
filled = (omega arith, omega arith)

once_run : free two.mm 1 ≡ some once
unfolding free
once_run = refl

twice_run : free once 1 ≡ some twice
unfolding free
twice_run = refl

free_twice_example : 2 ≤ free_owners (two.mm.symrgtbl 1).rg_start twice.mmap.vm_freerg_list
free_twice_example =
    free_twice two.mm once twice 1 (two.mm.symrgtbl 1).rg_start filled.0 filled.1 once_run twice_run

abbrev two_pages : Machine
two_pages = (vm_map_ram start 0 0 2).1
