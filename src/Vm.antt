-- ===== src/Vm.antt =====
-- The regions of a process, src/mm-vm.c: pgalloc, pgfree_data, pgread, pgwrite and what they call.
-- Every caller passes 0 as `vmaid`, so the area is `mmap`, and no pointer to it is NULL. A size is
-- below 2 ^ 31, where C's `int` holds it. What only prints is left out.
pub mod Tests
mod TightTests
pub mod Owners
pub mod Map
pub mod MapRam
pub mod Space
pub mod Alloc
pub mod Symbols
pub mod Start
pub mod Faults
use operating_system_assignm.Prelude.{
  ℕ, ◌+◌, ◌-◌, ◌*◌, ◌/◌, ◌%◌, ◌^◌, Bool, true, false, ltb, leb, ◌==◌, ◌&&◌, ◌||◌, not,
  if◌then◌else◌, Option, none, some, List, [], ◌∷◌, update, zero, suc,
}
use operating_system_assignm.Status.{
  Status, failed, rw_undefined, invalid_access, Outcome, done, err,
}
use operating_system_assignm.Pte.{
  paging_pagesz, page_alignsz, page_present, paging_fpn, paging_swapfpn, paging_max_pgn,
}
use operating_system_assignm.Mm.{Region, Vma, Mm, get_vma_by_index}
use operating_system_assignm.Paging.{Machine, and_then, pg_getval, pg_setval, vm_map_ram}
use operating_system_assignm.Memphy.{put_freefp}

-- PAGING_MAX_SYMTBL_SZ, the size of `symrgtbl`.
abbrev pub paging_max_symtbl_sz : ℕ
paging_max_symtbl_sz = 30

-- What is left of a region behind its first `size` bytes, where the next node is cloned into a node
-- that is used up, and the last node stays as a region of size 0.
unfoldable pub shrink : Region → ℕ → List Region → List Region
shrink rgit size [] =
    if ltb (rgit.rg_start + size) rgit.rg_end
    then record rgit { rg_start = rgit.rg_start + size } ∷ []
    else record rgit { rg_start = rgit.rg_end } ∷ []
shrink rgit size (nextrg ∷ rest) =
    if ltb (rgit.rg_start + size) rgit.rg_end
    then record rgit { rg_start = rgit.rg_start + size } ∷ nextrg ∷ rest
    else record rgit { rg_start = nextrg.rg_start; rg_end = nextrg.rg_end } ∷ rest

-- The loop of `get_free_vmrg_area`: the start of the first region with enough space, and the list
-- without the bytes that are taken.
unfoldable pub first_fit : List Region → ℕ → Option (ℕ × List Region)
unfolding shrink
first_fit [] size = none
first_fit (rgit ∷ rest) size =
    if leb (rgit.rg_start + size) rgit.rg_end
    then some (rgit.rg_start, shrink rgit size rest)
    else elim (first_fit rest size) [
      | none ↦ none
      | some (start, rest') ↦ some (start, rgit ∷ rest')
    ]

abbrev pub set_freerg_list : Mm → List Region → Mm
set_freerg_list mm regions = record mm { mmap = record (mm.mmap) { vm_freerg_list = regions } }

unfoldable pub get_free_vmrg_area : Mm → ℕ → Option (ℕ × Mm)
get_free_vmrg_area mm size = elim (first_fit mm.mmap.vm_freerg_list size) [
  | none ↦ none
  | some (start, regions) ↦ some (start, set_freerg_list mm regions)
]

-- The three assignments to `symrgtbl[rgid]`. From 30 on C writes behind the table.
abbrev pub set_symbol : Mm → ℕ → ℕ → ℕ → Mm
set_symbol mm rgid rg_start rg_end = record mm {
  symrgtbl =
      update mm.symrgtbl rgid (record { rg_start = rg_start; rg_end = rg_end; valid = true });
}

-- `validate_overlap_vm_area` returns 0 for every area.
unfoldable pub validate_overlap_vm_area : Mm → ℕ → ℕ → ℕ
validate_overlap_vm_area mm vmastart vmaend = 0

-- `create_vm_rg_of_pcb_at_brk`
unfoldable pub create_vm_rg_of_pcb_at_brk : Mm → ℕ → Region
create_vm_rg_of_pcb_at_brk mm size = record {
  rg_start = mm.mmap.sbrk;
  rg_end = mm.mmap.sbrk + size;
  valid = false;
}

unfoldable pub increase_vma_limit : Machine → ℕ → ℕ → Outcome (Unit {0}) × Machine
unfolding validate_overlap_vm_area create_vm_rg_of_pcb_at_brk
increase_vma_limit m demand_size true_inc_size =
    let next_area = create_vm_rg_of_pcb_at_brk m.mm true_inc_size in
    if not (validate_overlap_vm_area m.mm next_area.rg_start next_area.rg_end == 0)
    then (err failed, m)
    else vm_map_ram m next_area.rg_start m.mm.mmap.vm_end (page_alignsz demand_size / paging_pagesz)

-- The end of `__alloc`, after the limit has been increased. `demand_size` and `old_sbrk` are locals
-- from before.
unfoldable pub grown : ℕ → ℕ → ℕ → ℕ → Machine → Outcome (Option ℕ) × Machine
grown rgid size old_sbrk demand_size m =
    let mm = set_symbol m.mm rgid old_sbrk (old_sbrk + size) in
    (
      done (some old_sbrk),
      record m {
        mm = record mm {
          mmap = record (mm.mmap) {
            sbrk = mm.mmap.sbrk + size;
            vm_end = mm.mmap.vm_end + page_alignsz demand_size;
          };
        };
      },
    )

-- `__alloc` without a free region that is large enough.
unfoldable pub extend : Machine → ℕ → ℕ → Outcome (Option ℕ) × Machine
unfolding grown
extend m rgid size =
    let vma = m.mm.mmap in
    if leb (vma.sbrk + size) vma.vm_end
    then (
      done none,
      record m {
        mm = record (set_symbol m.mm rgid vma.sbrk (vma.sbrk + size)) {
          mmap = record vma { sbrk = vma.sbrk + size };
        };
      },
    )
    else and_then (increase_vma_limit m (vma.sbrk + size - vma.vm_end) size)
        (λ _. grown rgid size vma.sbrk (vma.sbrk + size - vma.vm_end))

-- `__alloc` and `pgalloc`. The result is what is written to `alloc_addr`: nothing where the area has
-- enough space below its end.
unfoldable pub alloc : Machine → ℕ → ℕ → Outcome (Option ℕ) × Machine
unfolding extend
alloc m size rgid = elim (get_free_vmrg_area m.mm size) [
  | some (start, mm) ↦
      (done (some start), record m { mm = set_symbol mm rgid start (start + size) })
  | none ↦ extend m rgid size
]

-- `none` is NULL. Index 30 lies behind the table, and is let through.
unfoldable pub get_symbol_region_by_id : Mm → ℕ → Option Region
get_symbol_region_by_id mm rgid =
    if ltb paging_max_symtbl_sz rgid then none else some (mm.symrgtbl rgid)

-- A region of no bytes is refused with -1, which the caller ignores.
enlist_vm_freerg_list : Mm → Region → Mm
enlist_vm_freerg_list mm rg_elmt =
    if leb rg_elmt.rg_end rg_elmt.rg_start
    then mm
    else set_freerg_list mm (rg_elmt ∷ mm.mmap.vm_freerg_list)

-- `__free` and `pgfree_data`; `none` is the return of -1.
pub free : Mm → ℕ → Option Mm
unfolding enlist_vm_freerg_list
free mm rgid =
    if ltb paging_max_symtbl_sz rgid
    then none
    else (let removed_item = mm.symrgtbl rgid in
        let mm1 = record mm {
          symrgtbl = update mm.symrgtbl rgid (record removed_item { valid = false });
        } in
        some (
          enlist_vm_freerg_list mm1 (record {
            rg_start = removed_item.rg_start;
            rg_end = removed_item.rg_end;
            valid = false;
          })))

-- `currg->rg_start + offset` as `unsigned long`, where `offset` has been a `uint32_t` and an `int`.
unfoldable pub address : Region → ℕ → ℕ
address currg offset =
    if ltb offset (2 ^ 31)
    then (currg.rg_start + offset) % 2 ^ 64
    else (currg.rg_start + offset + (2 ^ 64 - 2 ^ 32)) % 2 ^ 64

-- The tests that `__read` and `__write` share: the address, or the code that they return.
unfoldable pub locate : Mm → ℕ → ℕ → Outcome ℕ
unfolding get_symbol_region_by_id address
locate mm rgid offset = elim (get_symbol_region_by_id mm rgid) [
  | none ↦ err rw_undefined
  | some currg ↦
      if not currg.valid
      then err rw_undefined
      else if ltb (address currg offset) mm.mmap.vm_start || leb mm.mmap.sbrk (address currg offset)
      then err invalid_access
      else done (address currg offset)
]

-- `__read` and `pgread`; the byte is dropped by `pgread`, whose `destination` is a local.
pub read : Machine → ℕ → ℕ → Outcome ℕ × Machine
read m rgid offset = and_then (locate m.mm rgid offset, m) (λ addr m'. pg_getval m' addr)

-- `__write` and `pgwrite`
unfoldable pub write : Machine → ℕ → ℕ → ℕ → Outcome (Unit {0}) × Machine
write m value rgid offset =
    and_then (locate m.mm rgid offset, m) (λ addr m'. pg_setval m' addr value)

-- The loop of `free_pcb_memph` over the pages from `pagenum` on. The test of the present bit is the
-- wrong way round in the code.
give_back : ℕ → ℕ → Machine → Machine
give_back zero pagenum m = m
give_back (suc left) pagenum m =
    let pte = m.mm.pgd pagenum in
    give_back left (pagenum + 1) (
      if not (page_present pte)
      then record m { mram = put_freefp m.mram (paging_fpn pte) }
      else record m { mswp = put_freefp m.mswp (paging_swapfpn pte) })

-- Nothing calls it.
free_pcb_memph : Machine → Machine
free_pcb_memph m = give_back paging_max_pgn 0 m
