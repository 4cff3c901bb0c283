-- ===== src/Mm/Tests.antt =====
-- The queue theorems on a queue of two pages.
use operating_system_assignm.Prelude.{ℕ, ◌≡◌, refl, false, arith, some, List, [], ◌∷◌}
use operating_system_assignm.Mm.{Mm, find_victim_page, pick_victim}
use operating_system_assignm.Mm.Fifo.{IsQueue}

abbrev queue_of : List ℕ → ℕ → Mm
queue_of pages count = record {
  pgd = λ _. 0;
  mmap = record { vm_id = 0; vm_start = 0; vm_end = 0; sbrk = 0; vm_freerg_list = [] };
  symrgtbl = λ _. record { rg_start = 0; rg_end = 0; valid = false };
  fifo_using_pgn = pages;
  current_max_pgn = some 8;
  num_of_fifo_using_pgn = count;
}

two_pages : IsQueue (queue_of (4 ∷ 7 ∷ []) 2)
two_pages = record { counted = refl; distinct = (refl, (refl, tt)); topped = λ p h. ground arith }

-- The first page is the exception.
victim_run : find_victim_page (queue_of (4 ∷ 7 ∷ []) 2) (some 4) ≡ some (7, queue_of (4 ∷ []) 1)
unfolding find_victim_page pick_victim
victim_run = refl
