-- ===== src/Mm.antt =====
-- The memory descriptor of a process, `struct mm_struct` of include/os-mm.h, and the functions of
-- src/mm.c and src/mm-vm.c that work on it alone: the page queue and the page table.
pub mod Fifo
mod Tests
use operating_system_assignm.Prelude.{
  ℕ, zero, suc, ◌+◌, ◌-◌, Bool, true, false, ltb, ◌==◌, if◌then◌else◌, Option, none, some, List, [],
  ◌∷◌, ◌++◌, update,
}
use operating_system_assignm.Pte.{mapped_pte, paging_pgn}

-- `struct vm_rg_struct`; `valid` is 0 or 1.
pub record Region : Type 0 where
  pub rg_start : ℕ
  pub rg_end : ℕ
  pub valid : Bool

-- `struct vm_area_struct`. No code links a second area, so `vm_next` is always NULL.
pub record Vma : Type 0 where
  pub vm_id : ℕ
  pub vm_start : ℕ
  pub vm_end : ℕ
  pub sbrk : ℕ
  pub vm_freerg_list : List Region

-- `struct mm_struct`. `none` as `current_max_pgn` is -1.
pub record Mm : Type 0 where
  pub pgd : ℕ → ℕ
  pub mmap : Vma
  pub symrgtbl : ℕ → Region
  pub fifo_using_pgn : List ℕ
  pub current_max_pgn : Option ℕ
  pub num_of_fifo_using_pgn : ℕ

unfoldable pub init_vm_rg : ℕ → ℕ → Region
init_vm_rg rg_start rg_end = record { rg_start = rg_start; rg_end = rg_end; valid = false }

-- `init_mm` on a descriptor that `calloc` has cleared. `uninit` is what `vm_freerg_list` of the area
-- holds when `enlist_vm_rg_node` reads it: `malloc` gives no value to it.
unfoldable pub init_mm : List Region → Mm
unfolding init_vm_rg
init_mm uninit = record {
  pgd = λ _. 0;
  mmap = record {
    vm_id = 1;
    vm_start = 0;
    vm_end = 0;
    sbrk = 0;
    vm_freerg_list = init_vm_rg 0 0 ∷ uninit;
  };
  symrgtbl = λ _. record { rg_start = 0; rg_end = 0; valid = false };
  fifo_using_pgn = [];
  current_max_pgn = none;
  num_of_fifo_using_pgn = 0;
}

-- The only area is that of index 0; `none` is NULL.
pub get_vma_by_index : Mm → ℕ → Option Vma
get_vma_by_index mm zero = some mm.mmap
get_vma_by_index mm (suc vmaid) = none

-- `pgn > current_max_pgn`, where `none` is -1
abbrev pub above_max : ℕ → Option ℕ → Bool
above_max pgn none = true
above_max pgn (some top) = ltb top pgn

-- The walk to the last node, and the new node behind it.
unfoldable pub enlist_tail_pgn_node : Mm → ℕ → Mm
enlist_tail_pgn_node mm pgn = record mm {
  fifo_using_pgn = mm.fifo_using_pgn ++ (pgn ∷ []);
  current_max_pgn = if above_max pgn mm.current_max_pgn then some pgn else mm.current_max_pgn;
  num_of_fifo_using_pgn = mm.num_of_fifo_using_pgn + 1;
}

-- `*retpgn == exception_page`, where `none` is -1
abbrev pub is_exception : ℕ → Option ℕ → Bool
is_exception pgn none = false
is_exception pgn (some e) = pgn == e

-- The page to take from the queue, and the queue without it; `none` is the return of -1.
unfoldable pub pick_victim : List ℕ → Option ℕ → Option (ℕ × List ℕ)
pick_victim [] exception_page = none
pick_victim (p ∷ []) exception_page = if is_exception p exception_page then none else some (p, [])
pick_victim (p ∷ q ∷ rest) exception_page =
    if is_exception p exception_page then some (q, p ∷ rest) else some (p, q ∷ rest)

unfoldable pub find_victim_page : Mm → Option ℕ → Option (ℕ × Mm)
find_victim_page mm exception_page = elim (pick_victim mm.fifo_using_pgn exception_page) [
  | none ↦ none
  | some (victim, left) ↦ some (
    victim,
    record mm { fifo_using_pgn = left; num_of_fifo_using_pgn = mm.num_of_fifo_using_pgn - 1 },
  )
]

-- At an empty queue the code may return -1 where this is 0; no request is below either.
unfoldable pub count_available_victim : Mm → Option ℕ → ℕ
count_available_victim mm none = mm.num_of_fifo_using_pgn
count_available_victim mm (some exception_page) =
    if above_max exception_page mm.current_max_pgn
    then mm.num_of_fifo_using_pgn
    else mm.num_of_fifo_using_pgn - 1

unfoldable pub set_pte : Mm → ℕ → ℕ → Mm
set_pte mm pgn pte = record mm { pgd = update mm.pgd pgn pte }

-- The loop of `vmap_page_range` from page `pgn` on. The region that it also sets is set anew by its
-- caller, `vm_map_ram`, whose own caller drops it.
unfoldable pub map_frames : Mm → ℕ → List ℕ → Mm
unfolding set_pte
map_frames mm pgn [] = mm
map_frames mm pgn (f ∷ frames) =
    map_frames (enlist_tail_pgn_node (set_pte mm pgn (mapped_pte f)) pgn) (pgn + 1) frames

unfoldable pub vmap_page_range : Mm → ℕ → List ℕ → Mm
vmap_page_range mm addr frames = map_frames mm (paging_pgn addr) frames
