-- ===== src/Memphy.antt =====
-- Physical memory, src/mm-memphy.c: a device of bytes and the lists of its free and used frames.
-- The mutexes are left out: each function holds one from its first access to its last, so a call
-- is one step. Where C reads past `storage` the model reads the cell at that index; Paging.Bounds is
-- about the addresses that are used.
pub mod Frames
pub mod Cells
pub mod Copy
mod Tests
use operating_system_assignm.Prelude.{
  ℕ, zero, suc, ◌+◌, ◌-◌, ◌*◌, ◌/◌, ◌%◌, Bool, ltb, leb, or_else, ◌==◌, ◌&&◌, if◌then◌else◌, not,
  Option, none, some, List, [], ◌∷◌, ◌++◌, update,
}
use operating_system_assignm.Pte.{paging_pagesz}

-- `struct memphy_struct`; a node of a frame list is its `fpn`.
pub record Memphy : Type 0 where
  pub storage : ℕ → ℕ
  pub maxsz : ℕ
  pub rdmflg : Bool
  pub cursor : ℕ
  pub free_fp_list : List ℕ
  pub num_of_free_frame : ℕ
  pub used_fp_list : List ℕ
  pub num_of_used_frame : ℕ

-- The loop of `MEMPHY_move_cursor`, by the rounds that are left before `numstep` is `offset`.
advance : ℕ → ℕ → ℕ → ℕ → ℕ
advance zero numstep maxsz cursor = cursor
advance (suc left) numstep maxsz cursor =
    let rest = advance left (numstep + 1) maxsz ((cursor + 1) % maxsz) in
    if ltb numstep maxsz then rest else cursor

move_cursor : Memphy → ℕ → Memphy
move_cursor mp offset = record mp { cursor = advance offset 0 mp.maxsz 0 }

-- `none` is the return of -1, with nothing written to `value`.
pub seq_read : Memphy → ℕ → Option (ℕ × Memphy)
seq_read mp addr =
    if not mp.rdmflg then none else (let mp' = move_cursor mp addr in some (mp'.storage addr, mp'))

unfoldable pub read : Memphy → ℕ → Option (ℕ × Memphy)
read mp addr = if mp.rdmflg then some (mp.storage addr, mp) else seq_read mp addr

abbrev store : Memphy → ℕ → ℕ → Memphy
store mp addr value = record mp { storage = update mp.storage addr value }

pub seq_write : Memphy → ℕ → ℕ → Option Memphy
seq_write mp addr value =
    if not mp.rdmflg then none else some (store (move_cursor mp addr) addr value)

unfoldable pub write : Memphy → ℕ → ℕ → Option Memphy
write mp addr value = if mp.rdmflg then some (store mp addr value) else seq_write mp addr value

-- `from, from + 1, …`, `n` numbers: the list that the loop of `MEMPHY_format` links up.
abbrev pub count_up : ℕ → ℕ → List ℕ
count_up from zero = []
count_up from (suc n) = from ∷ count_up (from + 1) n

-- `none` is the return of -1, before anything is set. At a device of one frame C leaves `fp_next` of
-- its only node unset: `uninit` is the list that malloc's memory makes it point to.
unfoldable pub format : Memphy → ℕ → List ℕ → Option Memphy
format mp pagesz uninit =
    let numfp = mp.maxsz / pagesz in
    if numfp == 0
    then none
    else some (record mp {
      free_fp_list = if numfp == 1 then 0 ∷ uninit else count_up 0 numfp;
      used_fp_list = [];
      num_of_free_frame = numfp;
      num_of_used_frame = 0;
    })

deformat : Memphy → Memphy
deformat mp = record mp { free_fp_list = [] }

-- `none` is the return of -1: no frame is free.
unfoldable pub take_free : Memphy → List ℕ → Option (ℕ × Memphy)
take_free mp [] = none
take_free mp (f ∷ rest) =
    some (f, record mp { free_fp_list = rest; num_of_free_frame = mp.num_of_free_frame - 1 })

unfoldable pub get_freefp : Memphy → Option (ℕ × Memphy)
unfolding take_free
get_freefp mp = take_free mp mp.free_fp_list

unfoldable pub put_freefp : Memphy → ℕ → Memphy
put_freefp mp fpn = record mp {
  free_fp_list = fpn ∷ mp.free_fp_list;
  num_of_free_frame = mp.num_of_free_frame + 1;
}

-- `memset` of one frame to 0.
pub clean_frame : Memphy → ℕ → Memphy
clean_frame mp fpn = record mp {
  storage = λ a.
      if leb (fpn * paging_pagesz) a && ltb a (fpn * paging_pagesz + paging_pagesz)
      then 0
      else mp.storage a;
}

-- The walk to the last node and the link to `start_node`. An empty list is the NULL that is refused.
unfoldable pub concat_usedfp : Memphy → List ℕ → Option Memphy
concat_usedfp mp [] = none
concat_usedfp mp (f ∷ fs) = some (record mp { used_fp_list = mp.used_fp_list ++ (f ∷ fs) })

unfoldable pub count_free_frame : Memphy → ℕ
count_free_frame mp = mp.num_of_free_frame

-- `init_memphy`. What `format` leaves unset, at a device smaller than a page, stays as in `mp`, the
-- device before the call, whose memory main does not clear.
unfoldable pub init_memphy : Memphy → ℕ → ℕ → List ℕ → Memphy
init_memphy mp max_size randomflg uninit =
    let blank = record mp { storage = λ _. 0; maxsz = max_size } in
    let formatted = or_else (format blank paging_pagesz uninit) blank in
    let flagged = record formatted { rdmflg = not (randomflg == 0) } in
    if not flagged.rdmflg then record flagged { cursor = 0 } else flagged

-- `__swap_cp_page` of src/mm.c: the loop over the cells of a page, by the rounds that are left. A
-- read that fails leaves `data` unset; `garbage` is that byte, which `write` then fails to store.
unfoldable pub swap_cells : ℕ → ℕ → ℕ → Memphy → ℕ → Memphy → ℕ → Memphy × Memphy
swap_cells garbage zero cellidx src srcfpn dst dstfpn = (src, dst)
swap_cells garbage (suc left) cellidx src srcfpn dst dstfpn =
    let (byte, src') = or_else (read src (srcfpn * paging_pagesz + cellidx)) (garbage, src) in
    let dst' = or_else (write dst (dstfpn * paging_pagesz + cellidx) byte) dst in
    swap_cells garbage left (cellidx + 1) src' srcfpn dst' dstfpn

unfoldable pub copy_page : ℕ → Memphy → ℕ → Memphy → ℕ → Memphy × Memphy
copy_page garbage src srcfpn dst dstfpn = swap_cells garbage paging_pagesz 0 src srcfpn dst dstfpn
