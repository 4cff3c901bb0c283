-- ===== src/System/Tests.antt =====
-- Two processes that write to their symbol 0, on a RAM of two frames.
use operating_system_assignm.Prelude.{ℕ, ◌≡◌, refl, arith, true, some, [], ◌∷◌}
use operating_system_assignm.Memphy.{
  Memphy, get_freefp, take_free, count_free_frame, concat_usedfp, init_memphy, format,
}
use operating_system_assignm.Pte.{page_present, paging_fpn, mapped_pte}
use operating_system_assignm.Mm.{
  init_mm, init_vm_rg, count_available_victim, enlist_tail_pgn_node, set_pte, map_frames,
  vmap_page_range,
}
use operating_system_assignm.Paging.{
  vm_map_ram, bring_to_ram, alloc_pages_range, obtain_frames, obtain_frame, map_obtained, pg_setval,
  deposit, pg_getpage,
}
use operating_system_assignm.Vm
use operating_system_assignm.Vm.{
  get_free_vmrg_area, first_fit, extend, grown, increase_vma_limit, validate_overlap_vm_area,
  create_vm_rg_of_pcb_at_brk, get_symbol_region_by_id, address, locate,
}
use operating_system_assignm.Vm.Symbols.{Inside, byte_of}
use operating_system_assignm.Cpu.{Inst, alloc, write, success, execute, run, step}
use operating_system_assignm.Cpu.Steps.{Proper}
use operating_system_assignm.Cpu.View.{Spares, replay_all}
use operating_system_assignm.System.{System, boot_memories, load_process, run_process}
use operating_system_assignm.System.Invariant.{IsSystem, machine}
use operating_system_assignm.System.Loading.{boot_memories-IsSystem}
use operating_system_assignm.System.Isolation.{
  Runs, stop, loads, runs, Runs-IsSystem, Runs-isolated,
}

abbrev blank : Memphy
blank = record {
  storage = λ _. 0;
  maxsz = 0;
  rdmflg = true;
  cursor = 0;
  free_fp_list = [];
  num_of_free_frame = 0;
  used_fp_list = [];
  num_of_used_frame = 0;
}

abbrev start : System
start =
    boot_memories blank blank 512 512 [] [] (λ _. record { text = []; pc = 0; mm = init_mm [] }) 0

abbrev get : Inst
get = record { opcode = alloc; arg_0 = 200; arg_1 = 0; arg_2 = 0 }

abbrev put : ℕ → Inst
put value = record { opcode = write; arg_0 = value; arg_1 = 0; arg_2 = 5 }

abbrev loaded : System
loaded = load_process (load_process start (get ∷ put 7 ∷ []) []) (get ∷ put 9 ∷ []) []

abbrev first : System
first = (run_process loaded 0).1

abbrev second : System
second = (run_process first 1).1

abbrev third : System
third = (run_process second 0).1

abbrev fourth : System
fourth = (run_process third 1).1

first_run : run_process loaded 0 ≡ (success, first)
unfolding boot_memories init_memphy format load_process run_process run step execute Vm.alloc
    get_free_vmrg_area first_fit extend grown increase_vma_limit validate_overlap_vm_area
    create_vm_rg_of_pcb_at_brk vm_map_ram bring_to_ram alloc_pages_range obtain_frames obtain_frame
    get_freefp take_free count_free_frame count_available_victim map_obtained init_mm init_vm_rg
    concat_usedfp vmap_page_range map_frames set_pte enlist_tail_pgn_node
first_run = refl

second_run : run_process first 1 ≡ (success, second)
unfolding boot_memories init_memphy format load_process run_process run step execute Vm.alloc
    get_free_vmrg_area first_fit extend grown increase_vma_limit validate_overlap_vm_area
    create_vm_rg_of_pcb_at_brk vm_map_ram bring_to_ram alloc_pages_range obtain_frames obtain_frame
    get_freefp take_free count_free_frame count_available_victim map_obtained init_mm init_vm_rg
    concat_usedfp vmap_page_range map_frames set_pte enlist_tail_pgn_node
second_run = refl

third_run : run_process second 0 ≡ (success, third)
unfolding boot_memories init_memphy format load_process run_process run step execute Vm.alloc
    get_free_vmrg_area first_fit extend grown increase_vma_limit validate_overlap_vm_area
    create_vm_rg_of_pcb_at_brk vm_map_ram bring_to_ram alloc_pages_range obtain_frames obtain_frame
    get_freefp take_free count_free_frame count_available_victim map_obtained init_mm init_vm_rg
    concat_usedfp vmap_page_range map_frames set_pte enlist_tail_pgn_node Vm.write locate
    get_symbol_region_by_id address pg_setval deposit pg_getpage page_present paging_fpn mapped_pte
third_run = refl

fourth_run : run_process third 1 ≡ (success, fourth)
unfolding boot_memories init_memphy format load_process run_process run step execute Vm.alloc
    get_free_vmrg_area first_fit extend grown increase_vma_limit validate_overlap_vm_area
    create_vm_rg_of_pcb_at_brk vm_map_ram bring_to_ram alloc_pages_range obtain_frames obtain_frame
    get_freefp take_free count_free_frame count_available_victim map_obtained init_mm init_vm_rg
    concat_usedfp vmap_page_range map_frames set_pte enlist_tail_pgn_node Vm.write locate
    get_symbol_region_by_id address pg_setval deposit pg_getpage page_present paging_fpn mapped_pte
fourth_run = refl

loaded-IsSystem : IsSystem loaded
loaded-IsSystem =
    Runs-IsSystem {uninit = λ _. []} (λ n. refl)
      (loads (get ∷ put 7 ∷ []) (loads (get ∷ put 9 ∷ []) stop))
      (boot_memories-IsSystem blank blank 512 512 [] [] _ 0 (omega arith) (omega arith)
        (omega arith) (omega arith) (λ l. refl) (λ l. refl))

second-IsSystem : IsSystem second
unfolding boot_memories init_memphy format load_process run_process run step execute Vm.alloc
    get_free_vmrg_area first_fit extend grown increase_vma_limit validate_overlap_vm_area
    create_vm_rg_of_pcb_at_brk vm_map_ram bring_to_ram alloc_pages_range obtain_frames obtain_frame
    get_freefp take_free count_free_frame count_available_victim map_obtained init_mm init_vm_rg
    concat_usedfp vmap_page_range map_frames set_pte enlist_tail_pgn_node Proper
second-IsSystem =
    Runs-IsSystem {uninit = λ _. []} (λ n. refl)
      (runs 0 (omega arith) refl (omega arith, omega arith) first_run
        (runs 1 (omega arith) refl (omega arith, omega arith) second_run stop))
      loaded-IsSystem

inside : Inside (second.procs 0).mm 0 5
unfolding boot_memories init_memphy format load_process run_process run step execute Vm.alloc
    get_free_vmrg_area first_fit extend grown increase_vma_limit validate_overlap_vm_area
    create_vm_rg_of_pcb_at_brk vm_map_ram bring_to_ram alloc_pages_range obtain_frames obtain_frame
    get_freefp take_free count_free_frame count_available_victim map_obtained init_mm init_vm_rg
    concat_usedfp vmap_page_range map_frames set_pte enlist_tail_pgn_node
inside = record { named = omega arith; is_valid = refl; below = omega arith }

writes : Runs (λ _. []) second ((0, put 7) ∷ (1, put 9) ∷ []) fourth
unfolding boot_memories init_memphy format load_process run_process run step execute Vm.alloc
    get_free_vmrg_area first_fit extend grown increase_vma_limit validate_overlap_vm_area
    create_vm_rg_of_pcb_at_brk vm_map_ram bring_to_ram alloc_pages_range obtain_frames obtain_frame
    get_freefp take_free count_free_frame count_available_victim map_obtained init_mm init_vm_rg
    concat_usedfp vmap_page_range map_frames set_pte enlist_tail_pgn_node Vm.write locate
    get_symbol_region_by_id address pg_setval deposit pg_getpage page_present paging_fpn mapped_pte
    Proper
writes = runs 0 (omega arith) refl inside third_run (
    runs 1 (omega arith) refl (record { named = omega arith; is_valid = refl; below = omega arith })
      fourth_run stop)

-- The byte of process 0 is the one that it has written.
Runs-isolated_example :
    IsSystem fourth × Inside (fourth.procs 0).mm 0 5 × (byte_of (machine fourth 0) 0 5 ≡ some 7)
unfolding boot_memories init_memphy format load_process run_process run step execute Vm.alloc
    get_free_vmrg_area first_fit extend grown increase_vma_limit validate_overlap_vm_area
    create_vm_rg_of_pcb_at_brk vm_map_ram bring_to_ram alloc_pages_range obtain_frames obtain_frame
    get_freefp take_free count_free_frame count_available_victim map_obtained init_mm init_vm_rg
    concat_usedfp vmap_page_range map_frames set_pte enlist_tail_pgn_node Vm.write locate
    get_symbol_region_by_id address pg_setval deposit pg_getpage page_present paging_fpn mapped_pte
    Spares replay_all
Runs-isolated_example =
    Runs-isolated (λ _. []) ((0, put 7) ∷ (1, put 9) ∷ []) 0 0 5 (λ n. refl) second-IsSystem
      (omega arith) inside (tt, tt) writes
