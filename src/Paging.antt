-- ===== src/Paging.antt =====
-- Demand paging: the parts of src/mm.c and src/mm-vm.c in which the page table of a process and the
-- two physical memories change together.
pub mod Place
pub mod Valid
pub mod Victim
pub mod Exchange
pub mod Evict
pub mod Round
pub mod Obtain
pub mod Area
pub mod GetPage
pub mod Faults
pub mod Access
pub mod Bounds
mod Tests
use operating_system_assignm.Prelude.{
  ℕ, zero, suc, ◌+◌, ◌-◌, ◌*◌, Bool, true, false, ltb, ◌==◌, ◌&&◌, ◌||◌, not, if◌then◌else◌,
  or_else, Option, none, some, List, [], ◌∷◌, update,
}
use operating_system_assignm.Status.{
  Status, lack_mem_ram, lack_mem_swp, invalid_access, swapping, Outcome, done, err,
}
use operating_system_assignm.Pte.{
  paging_pagesz, paging_pgn, paging_offst, page_present, paging_fpn, paging_swapfpn, pte_set_swap,
  pte_set_fpn,
}
use operating_system_assignm.Memphy.{
  Memphy, read, write, get_freefp, put_freefp, clean_frame, concat_usedfp, count_free_frame,
  copy_page,
}
use operating_system_assignm.Mm.{
  Mm, find_victim_page, count_available_victim, enlist_tail_pgn_node, vmap_page_range,
}

-- What a call reaches through `caller`: the descriptor of the process, RAM and the active swap.
-- `junk` is the byte of an uninitialised local variable.
pub record Machine : Type 0 where
  pub mm : Mm
  pub mram : Memphy
  pub mswp : Memphy
  pub junk : ℕ

-- The rest of a function behind `if (status < 0) return status`.
abbrev pub and_then {ℓ κ} :
    {A : Type ℓ} {B : Type κ}
    → Outcome A × Machine
    → (A → Machine → Outcome B × Machine)
    → Outcome B × Machine
and_then (done a, m) k = k a m
and_then (err e, m) k = (err e, m)

-- SWPTYP of include/common.h
abbrev swptyp : ℕ
swptyp = 0

abbrev pub set_entry : Mm → ℕ → ℕ → Mm
set_entry mm pgn pte = record mm { pgd = update mm.pgd pgn pte }

-- The statements of `pg_getpage` and `bring_to_ram` once a victim and a swap frame `slot` are found:
-- the victim's frame goes to `slot`, the frame of `pgn` comes from swap in its place.
pub exchange : Machine → ℕ → Mm → ℕ → Memphy → ℕ → Machine
exchange m victim mm slot swp pgn =
    let tgtfpn = paging_swapfpn (m.mm.pgd pgn) in
    let victim_fpn = paging_fpn (m.mm.pgd victim) in
    let (ram1, swp1) = copy_page m.junk m.mram victim_fpn swp slot in
    let (swp2, ram2) = copy_page m.junk swp1 tgtfpn ram1 victim_fpn in
    let mm1 = set_entry mm victim (pte_set_swap (mm.pgd victim) swptyp slot) in
    let mm2 = set_entry mm1 pgn (pte_set_fpn (mm1.pgd pgn) victim_fpn) in
    record m { mm = enlist_tail_pgn_node mm2 pgn; mram = ram2; mswp = put_freefp swp2 tgtfpn }

-- Bring a page that is in swap to RAM, with the error codes of the caller. On the second error the
-- victim has left the queue already.
unfoldable pub swap_in : Status → Status → Machine → ℕ → Outcome (Unit {0}) × Machine
swap_in no_victim no_slot m pgn = elim (find_victim_page m.mm none) [
  | none ↦ (err no_victim, m)
  | some (victim, mm) ↦ elim (get_freefp m.mswp) [
    | none ↦ (err no_slot, record m { mm = mm })
    | some (slot, swp) ↦ (done tt, exchange m victim mm slot swp pgn)
  ]
]

unfoldable pub pg_getpage : Machine → ℕ → Outcome ℕ × Machine
pg_getpage m pgn =
    let pte = m.mm.pgd pgn in
    if pte == 0
    then (err invalid_access, m)
    else if not (page_present pte)
    then and_then (swap_in swapping swapping m pgn)
        (λ _ m'. (done (paging_fpn (m'.mm.pgd pgn)), m'))
    else (done (paging_fpn pte), m)

unfoldable pub bring_to_ram : Machine → ℕ → Outcome (Unit {0}) × Machine
bring_to_ram m pgn =
    if m.mm.pgd pgn == 0 || page_present (m.mm.pgd pgn)
    then (done tt, m)
    else swap_in lack_mem_ram lack_mem_swp m pgn

abbrev pub phyaddr : ℕ → ℕ → ℕ
phyaddr fpn addr = fpn * paging_pagesz + paging_offst addr

-- The returned byte is what `*data` holds; a read that RAM refuses leaves it uninitialised.
unfoldable pub fetch : ℕ → ℕ → Machine → Outcome ℕ × Machine
fetch addr fpn m =
    let (byte, ram) = or_else (read m.mram (phyaddr fpn addr)) (m.junk, m.mram) in
    (done byte, record m { mram = ram })

unfoldable pub pg_getval : Machine → ℕ → Outcome ℕ × Machine
pg_getval m addr = and_then (pg_getpage m (paging_pgn addr)) (fetch addr)

unfoldable pub deposit : ℕ → ℕ → ℕ → Machine → Outcome (Unit {0}) × Machine
deposit addr value fpn m =
    (done tt, record m { mram = or_else (write m.mram (phyaddr fpn addr) value) m.mram })

unfoldable pub pg_setval : Machine → ℕ → ℕ → Outcome (Unit {0}) × Machine
pg_setval m addr value = and_then (pg_getpage m (paging_pgn addr)) (deposit addr value)

-- `alloc_pages_range`, one round of its loop where RAM has no free frame: a victim gives up its.
unfoldable pub evict : Machine → ℕ → Mm → ℕ → Memphy → Machine
evict m victim mm slot swp =
    let victim_fpn = paging_fpn (m.mm.pgd victim) in
    let (ram1, swp1) = copy_page m.junk m.mram victim_fpn swp slot in
    let mm1 = set_entry mm victim (pte_set_swap (mm.pgd victim) swptyp slot) in
    record m { mm = mm1; mram = clean_frame ram1 victim_fpn; mswp = swp1 }

unfoldable pub steal_frame : Machine → Option ℕ → Outcome ℕ × Machine
steal_frame m exception_page = elim (find_victim_page m.mm exception_page) [
  | none ↦ (err lack_mem_ram, m)
  | some (victim, mm) ↦ elim (get_freefp m.mswp) [
    | none ↦ (err lack_mem_swp, record m { mm = mm })
    | some (slot, swp) ↦ (done (paging_fpn (m.mm.pgd victim)), evict m victim mm slot swp)
  ]
]

-- One round of the loop: the frame that goes to the head of `frm_lst`.
unfoldable pub obtain_frame : Machine → Option ℕ → Outcome ℕ × Machine
unfolding steal_frame
obtain_frame m exception_page = elim (get_freefp m.mram) [
  | some (fpn, ram) ↦ (done fpn, record m { mram = ram })
  | none ↦ steal_frame m exception_page
]

-- The loop, by the rounds that are left; `frm_lst` has the last frame at its head.
unfoldable pub obtain_frames : ℕ → Machine → Option ℕ → List ℕ → Outcome (List ℕ) × Machine
obtain_frames zero m exception_page frm_lst = (done frm_lst, m)
obtain_frames (suc left) m exception_page frm_lst =
    and_then (obtain_frame m exception_page)
      (λ fpn m'. obtain_frames left m' exception_page (fpn ∷ frm_lst))

-- The frames that are asked for; a successful call also returns their number, which is `req_pgnum`.
unfoldable pub alloc_pages_range : Machine → ℕ → Option ℕ → Outcome (List ℕ) × Machine
alloc_pages_range m req_pgnum exception_page =
    let swap_frame_count = req_pgnum - count_free_frame m.mram in
    if ltb (count_free_frame m.mram) req_pgnum
      && ltb (count_available_victim m.mm exception_page) swap_frame_count
    then (err lack_mem_ram, m)
    else if ltb (count_free_frame m.mram) req_pgnum
        && ltb (count_free_frame m.mswp) swap_frame_count
    then (err lack_mem_swp, m)
    else obtain_frames req_pgnum m exception_page []

-- The end of `vm_map_ram`, when the frames are there.
unfoldable pub map_obtained : ℕ → List ℕ → Machine → Outcome (Unit {0}) × Machine
map_obtained mapstart frames m = (
  done tt,
  record m {
    mm = vmap_page_range m.mm mapstart frames;
    mram = or_else (concat_usedfp m.mram frames) m.mram;
  },
)

unfoldable pub vm_map_ram : Machine → ℕ → ℕ → ℕ → Outcome (Unit {0}) × Machine
unfolding map_obtained
vm_map_ram m astart mapstart increase_page_number =
    and_then (bring_to_ram m (paging_pgn astart)) (λ _ m1.
      and_then (alloc_pages_range m1 increase_page_number (some (paging_pgn astart)))
        (map_obtained mapstart))
