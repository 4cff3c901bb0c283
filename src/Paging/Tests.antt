-- ===== src/Paging/Tests.antt =====
-- A machine with one RAM frame and two swap frames, on which the theorems are tried: page 0 is in
-- RAM, page 1 in the swap frame 0, and the swap frame 1 is free.
use operating_system_assignm.Prelude.{
  ℕ, ◌+◌, ◌*◌, ◌^◌, ◌<◌, ◌≤◌, ◌≡◌, ◌⊎◌, refl, Bool, true, false, arith, has, ◌==◌, ltb,
  if◌then◌else◌, none, some, List, [], ◌∷◌,
}
use operating_system_assignm.Status.{swapping, lack_mem_ram, lack_mem_swp, done, err}
use operating_system_assignm.Pte.{page_present, paging_fpn, paging_swapfpn, pte_set_fpn}
use operating_system_assignm.Memphy.{
  Memphy, get_freefp, take_free, read, write, swap_cells, copy_page,
}
use operating_system_assignm.Mm.{
  Mm, find_victim_page, pick_victim, enlist_tail_pgn_node, count_available_victim,
}
use operating_system_assignm.Paging.{
  Machine, pg_getpage, swap_in, pg_getval, pg_setval, fetch, deposit, exchange, alloc_pages_range,
}
use operating_system_assignm.Paging.Place.{
  unmapped, in_ram, in_swap, where_is, place, is_ram, contents,
}
use operating_system_assignm.Paging.Valid.{Valid, Keeps}
use operating_system_assignm.Paging.GetPage.{pg_getpage-Keeps}
use operating_system_assignm.Paging.Faults.{Fault, pg_getpage_total, pg_getpage_loses_victim}
use operating_system_assignm.Paging.Access.{Wrote, pg_getval-contents, pg_setval-Wrote, get-set}
use operating_system_assignm.Paging.Round.{capacity}
use operating_system_assignm.Paging.Obtain.{Obtained, alloc_pages_range_exact}

abbrev entries : ℕ → ℕ
entries p = if p == 0 then 2 ^ 31 else if p == 1 then 2 ^ 30 else 0

abbrev device : ℕ → ℕ → List ℕ → ℕ → Memphy
device byte frames free count = record {
  storage = λ _. byte;
  maxsz = frames * 256;
  rdmflg = true;
  cursor = 0;
  free_fp_list = free;
  num_of_free_frame = count;
  used_fp_list = [];
  num_of_used_frame = 0;
}

abbrev descriptor : Mm
descriptor = record {
  pgd = entries;
  mmap = record { vm_id = 0; vm_start = 0; vm_end = 512; sbrk = 512; vm_freerg_list = [] };
  symrgtbl = λ _. record { rg_start = 0; rg_end = 0; valid = false };
  fifo_using_pgn = 0 ∷ [];
  current_max_pgn = some 1;
  num_of_fifo_using_pgn = 1;
}

abbrev demo : Machine
demo = record { mm = descriptor; mram = device 7 1 [] 0; mswp = device 9 2 (1 ∷ []) 1; junk = 0 }

abbrev alone : ℕ → Bool
alone _ = false

demo_place :
    (p : ℕ)
    → where_is demo p ≡ (if p == 0 then in_ram 0 else if p == 1 then in_swap 0 else unmapped)
unfolding place page_present paging_fpn paging_swapfpn
demo_place p = ground arith

demo-Valid : Valid alone alone demo
demo-Valid = record {
  queue = record { counted = refl; distinct = (refl, tt); topped = λ p h. ground arith };
  ram = record {
    formatted = record { counted = refl; distinct = tt; inside = tt };
    random = refl;
    small = omega arith;
  };
  swp = record {
    formatted = record { counted = refl; distinct = (refl, tt); inside = (omega arith, tt) };
    random = refl;
    small = omega arith;
  };
  queued = λ p. ground (arith, demo_place p);
  frames = record {
    inside = λ p f h. ground (arith, demo_place p);
    taken = λ p f h. refl;
    local = λ p f h. refl;
    single = λ p q f h k. ground (arith, demo_place p, demo_place q);
    apart = λ f h. absurd (ground arith);
    reach = λ f h. absurd (ground arith);
  };
  slots = record {
    inside = λ p f h. ground (arith, demo_place p);
    taken = λ p f h. ground (arith, demo_place p);
    local = λ p f h. refl;
    single = λ p q f h k. ground (arith, demo_place p, demo_place q);
    apart = λ f h. absurd (ground arith);
    reach = λ f h. absurd (ground arith);
  };
}

-- The same with a swap device of the one frame that page 1 takes.
abbrev full : Machine
full = record { mm = descriptor; mram = device 7 1 [] 0; mswp = device 9 1 [] 0; junk = 0 }

full_place :
    (p : ℕ)
    → where_is full p ≡ (if p == 0 then in_ram 0 else if p == 1 then in_swap 0 else unmapped)
unfolding place page_present paging_fpn paging_swapfpn
full_place p = ground arith

full-Valid : Valid alone alone full
full-Valid = record {
  queue = record { counted = refl; distinct = (refl, tt); topped = λ p h. ground arith };
  ram = record {
    formatted = record { counted = refl; distinct = tt; inside = tt };
    random = refl;
    small = omega arith;
  };
  swp = record {
    formatted = record { counted = refl; distinct = tt; inside = tt };
    random = refl;
    small = omega arith;
  };
  queued = λ p. ground (arith, full_place p);
  frames = record {
    inside = λ p f h. ground (arith, full_place p);
    taken = λ p f h. refl;
    local = λ p f h. refl;
    single = λ p q f h k. ground (arith, full_place p, full_place q);
    apart = λ f h. absurd (ground arith);
    reach = λ f h. absurd (ground arith);
  };
  slots = record {
    inside = λ p f h. ground (arith, full_place p);
    taken = λ p f h. ground (arith, full_place p);
    local = λ p f h. refl;
    single = λ p q f h k. ground (arith, full_place p, full_place q);
    apart = λ f h. absurd (ground arith);
    reach = λ f h. absurd (ground arith);
  };
}

-- The machine after the access to page 1.
abbrev swapped : Machine
swapped = (pg_getpage demo 1).1

demo_run : pg_getpage demo 1 ≡ (done 0, swapped)
unfolding pg_getpage swap_in find_victim_page pick_victim get_freefp take_free page_present
    paging_fpn exchange enlist_tail_pgn_node pte_set_fpn
demo_run = refl

pg_getpage-Keeps_example : Keeps alone alone demo swapped × (where_is swapped 1 ≡ in_ram 0)
pg_getpage-Keeps_example = pg_getpage-Keeps demo demo-Valid 1 0 swapped demo_run

abbrev after_read : Machine
after_read = (pg_getval demo 260).1

read_run : pg_getval demo 260 ≡ (done 9, after_read)
unfolding pg_getval fetch exchange pg_getpage swap_in find_victim_page pick_victim get_freefp
    take_free page_present paging_fpn paging_swapfpn read write swap_cells copy_page
    enlist_tail_pgn_node pte_set_fpn
read_run = refl

pg_getval-contents_example : (contents demo 1 4 ≡ some 9) × Keeps alone alone demo after_read
pg_getval-contents_example = pg_getval-contents demo demo-Valid 260 9 after_read read_run

abbrev after_write : Machine
after_write = (pg_setval demo 260 5).1

write_run : pg_setval demo 260 5 ≡ (done tt, after_write)
unfolding pg_setval deposit pg_getpage swap_in find_victim_page pick_victim get_freefp take_free
    page_present
write_run = refl

pg_setval-Wrote_example : Wrote demo demo-Valid 260 5 after_write
pg_setval-Wrote_example = pg_setval-Wrote demo demo-Valid 260 5 after_write write_run

get-set_example : pg_getval after_write 260 ≡ (done 5, after_write)
get-set_example = get-set demo demo-Valid 260 5 after_write write_run

pg_getpage_total_example :
    ((f : ℕ) × (m' : Machine) × (pg_getpage full 1 ≡ (done f, m')))
    ⊎ (Fault full full-Valid 1 (pg_getpage full 1))
pg_getpage_total_example = pg_getpage_total full full-Valid 1

abbrev refused : Machine
refused = (pg_getpage full 1).1

pg_getpage_loses_victim_example :
    ((pg_getpage full 1).0 ≡ err swapping)
    × (refused.mm.fifo_using_pgn ≡ [])
    × (is_ram (where_is refused 0) ≡ true)
    × (has 0 refused.mm.fifo_using_pgn ≡ false)
    × (¬ Valid alone alone refused)
pg_getpage_loses_victim_example =
    pg_getpage_loses_victim full full-Valid 1 0 0 [] (full_place 1) refl refl

-- One frame can be got: that of page 0, which goes to swap.
alloc_pages_range_exact_example :
    ((1 ≤ capacity demo none)
      × ((frames : List ℕ) × (m' : Machine) × (alloc_pages_range demo 1 none ≡ (done frames, m'))
          × Obtained alone alone none demo 1 frames m'))
    ⊎ ((capacity demo none < 1)
        × (alloc_pages_range demo 1 none ≡ (
          err (
              if ltb (demo.mram.num_of_free_frame + count_available_victim demo.mm none) 1
              then lack_mem_ram
              else lack_mem_swp),
          demo,
        )))
alloc_pages_range_exact_example = alloc_pages_range_exact alone alone none demo 1 demo-Valid

abbrev victim_gone : Mm
victim_gone = record descriptor { fifo_using_pgn = []; num_of_fifo_using_pgn = 0 }

victim_run : find_victim_page descriptor none ≡ some (0, victim_gone)
unfolding find_victim_page pick_victim
victim_run = refl
