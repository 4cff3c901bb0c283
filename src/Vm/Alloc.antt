-- ===== src/Vm/Alloc.antt =====
-- `pgalloc` of src/mm-vm.c on a process whose memory is in order.
use operating_system_assignm.Prelude.{
  ℕ, ◌+◌, ◌-◌, ◌*◌, ◌/◌, ◌%◌, ◌^◌, ◌≤◌, ◌<◌, ◌≡◌, ◌≢◌, inl, inr, refl, sym, ◌∙◌, Bool, true, arith,
  leb, Option, some, Bool-cases, Option-cases,
}
use native.Mathlib.Decide.{dec_lt}
use operating_system_assignm.Status.{Outcome, done, err}
use operating_system_assignm.Pte.{page_alignsz}
use operating_system_assignm.Mm.{Mm}
use operating_system_assignm.Paging.{Machine, and_then, vm_map_ram}
use operating_system_assignm.Paging.Place.{unmapped, where_is, contents}
use operating_system_assignm.Paging.Valid.{Valid}
use operating_system_assignm.Paging.GetPage.{outcome_state}
use operating_system_assignm.Paging.Area.{SameArea}
use operating_system_assignm.Vm.{
  paging_max_symtbl_sz, get_free_vmrg_area, set_symbol, alloc, extend, grown, increase_vma_limit,
  validate_overlap_vm_area, create_vm_rg_of_pcb_at_brk,
}
use operating_system_assignm.Vm.MapRam.{
  MapsRam, vm_map_ram-MapsRam, contents-unmapped, unmapped-contents,
}
use operating_system_assignm.Vm.Owners.{
  IsArea, get_free-IsArea, get_free_vmrg_area-list, extend-IsArea,
}
use operating_system_assignm.Vm.Space.{IsSpace, is_ram-mapped, with_area, with_area-Valid}

-- Symbol `rgid` has got `size` bytes of its own; no mapped byte and no other symbol has changed.
pub record Allocated (foreign_ram foreign_swp : ℕ → Bool) (m : Machine) (size rgid : ℕ)
    (m' : Machine) : Type 0 where
  pub space : IsSpace foreign_ram foreign_swp m'
  pub is_valid : (m'.mm.symrgtbl rgid).valid ≡ true
  pub sized : (m'.mm.symrgtbl rgid).rg_end ≡ (m'.mm.symrgtbl rgid).rg_start + size
  pub others : (j : ℕ) → j ≢ rgid → m'.mm.symrgtbl j ≡ m.mm.symrgtbl j
  pub same : (q o : ℕ) → o < 256 → q < m.mm.mmap.vm_end / 256 → contents m' q o ≡ contents m q o
  pub ram_kept :
      (f o : ℕ)
      → foreign_ram f ≡ true
      → o < 256
      → m'.mram.storage (f * 256 + o) ≡ m.mram.storage (f * 256 + o)
  pub swp_kept :
      (f o : ℕ)
      → foreign_swp f ≡ true
      → o < 256
      → m'.mswp.storage (f * 256 + o) ≡ m.mswp.storage (f * 256 + o)

module _ (foreign_ram foreign_swp : ℕ → Bool) (m : Machine) (size rgid : ℕ)
    (space : IsSpace foreign_ram foreign_swp m) (named : rgid < paging_max_symtbl_sz) where
  -- From a free region.
  reused :
      (start : ℕ) (mm : Mm)
      → get_free_vmrg_area m.mm size ≡ some (start, mm)
      → Allocated foreign_ram foreign_swp m size rgid
          (record m { mm = set_symbol mm rgid start (start + size) })
  unfolding contents
  reused start mm got =
      let (regions, e) = get_free_vmrg_area-list m.mm mm size start got in
      let area = get_free-IsArea m.mm mm size start rgid space.area named got in
      rw e (record {
        space = record {
          valid = with_area-Valid _ _ space.valid;
          area = rw e at area;
          backed = space.backed;
          beyond = space.beyond;
        };
        is_valid = ground arith;
        sized = ground arith;
        others = λ j ne. ground arith;
        same = λ q o s b. refl;
        ram_kept = λ f o g s. refl;
        swp_kept = λ f o g s. refl;
      })

  -- The area from `sbrk` on, with the end at `vm_end`, of a machine in which that is mapped.
  extended :
      (m1 : Machine) (vm_end : ℕ)
      → Valid foreign_ram foreign_swp m1
      → SameArea m.mm m1.mm
      → ((q : ℕ) → q < vm_end / 256 → where_is m1 q ≢ unmapped)
      → ((q : ℕ) → vm_end / 256 ≤ q → where_is m1 q ≡ unmapped)
      → m.mm.mmap.sbrk + size ≤ vm_end
      → vm_end % 256 ≡ 0
      → vm_end ≤ 2 ^ 22
      → IsSpace foreign_ram foreign_swp (
          with_area m1
            (record (m.mm.mmap) { sbrk = m.mm.mmap.sbrk + size; vm_end = vm_end })
            (set_symbol m.mm rgid m.mm.mmap.sbrk (m.mm.mmap.sbrk + size)).symrgtbl)
  extended m1 vm_end v same backed beyond fits aligned on_bus = record {
    valid = with_area-Valid _ _ v;
    area = area;
    backed = backed;
    beyond = beyond;
  }
    where
      old : IsArea (record (set_symbol m.mm rgid m.mm.mmap.sbrk (m.mm.mmap.sbrk + size)) {
        mmap = record (m.mm.mmap) { sbrk = m.mm.mmap.sbrk + size; vm_end = vm_end };
      })
      old = extend-IsArea m.mm size rgid vm_end space.area named fits aligned on_bus

      area : IsArea (record (m1.mm) {
        mmap = record (m.mm.mmap) { sbrk = m.mm.mmap.sbrk + size; vm_end = vm_end };
        symrgtbl = (set_symbol m.mm rgid m.mm.mmap.sbrk (m.mm.mmap.sbrk + size)).symrgtbl;
      })
      area = record {
        disjoint = old.disjoint;
        bounded = old.bounded;
        starts = old.starts;
        room = old.room;
        aligned = old.aligned;
        on_bus = old.on_bus;
      }

  -- Below the end of the area.
  within :
      m.mm.mmap.sbrk + size ≤ m.mm.mmap.vm_end
      → Allocated foreign_ram foreign_swp m size rgid (
          with_area m
            (record (m.mm.mmap) { sbrk = m.mm.mmap.sbrk + size })
            (set_symbol m.mm rgid m.mm.mmap.sbrk (m.mm.mmap.sbrk + size)).symrgtbl)
  unfolding contents
  within fits = record {
    space =
        extended m m.mm.mmap.vm_end space.valid (refl, refl) space.backed space.beyond fits
          space.area.aligned space.area.on_bus;
    is_valid = ground arith;
    sized = ground arith;
    others = λ j ne. ground arith;
    same = λ q o s b. refl;
    ram_kept = λ f o g s. refl;
    swp_kept = λ f o g s. refl;
  }

  abbrev demand : ℕ
  demand = m.mm.mmap.sbrk + size - m.mm.mmap.vm_end

  -- With new pages behind the end.
  increased :
      (m1 : Machine)
      → m.mm.mmap.vm_end < m.mm.mmap.sbrk + size
      → m.mm.mmap.sbrk + size ≤ 2 ^ 22
      → MapsRam foreign_ram foreign_swp m (m.mm.mmap.vm_end / 256) (page_alignsz demand / 256) m1
      → Allocated foreign_ram foreign_swp m size rgid (
          with_area m1
            (record (m.mm.mmap) {
              sbrk = m.mm.mmap.sbrk + size;
              vm_end = m.mm.mmap.vm_end + page_alignsz demand;
            })
            (set_symbol m.mm rgid m.mm.mmap.sbrk (m.mm.mmap.sbrk + size)).symrgtbl)
  unfolding contents
  increased m1 above bus maps = record {
    space =
        extended m1 (m.mm.mmap.vm_end + page_alignsz demand) maps.valid maps.area backed beyond
          (omega arith) (omega (arith, space.area.aligned)) (omega (arith, space.area.aligned));
    is_valid = ground arith;
    sized = ground arith;
    others = λ j ne. ground arith;
    same = λ q o s b. maps.same q o s (inl b);
    ram_kept = maps.ram_kept;
    swp_kept = maps.swp_kept;
  }
    where
      backed :
          (q : ℕ) → q < (m.mm.mmap.vm_end + page_alignsz demand) / 256 → where_is m1 q ≢ unmapped
      backed q b = elim (dec_lt q (m.mm.mmap.vm_end / 256)) [
        | yes old ↦ λ e. space.backed q old (
            contents-unmapped m q 0
              (sym (maps.same q 0 (omega arith) (inl old)) ∙ unmapped-contents m1 q 0 e))
        | no new ↦
            is_ram-mapped (where_is m1 q)
              (maps.there q (omega arith) (omega (arith, space.area.aligned)))
      ]

      beyond :
          (q : ℕ) → (m.mm.mmap.vm_end + page_alignsz demand) / 256 ≤ q → where_is m1 q ≡ unmapped
      beyond q b = contents-unmapped m1 q 0 (
          maps.same q 0 (omega arith) (inr (omega (arith, space.area.aligned)))
          ∙ unmapped-contents m q 0 (space.beyond q (omega arith)))

  grown_lem :
      (m1 : Machine)
      → SameArea m.mm m1.mm
      → grown rgid size m.mm.mmap.sbrk demand m1 ≡ (
        done (some m.mm.mmap.sbrk),
        with_area m1
            (record (m.mm.mmap) {
              sbrk = m.mm.mmap.sbrk + size;
              vm_end = m.mm.mmap.vm_end + page_alignsz demand;
            })
            (set_symbol m.mm rgid m.mm.mmap.sbrk (m.mm.mmap.sbrk + size)).symrgtbl,
      )
  unfolding grown
  grown_lem m1 same = rw (same.0, same.1) refl

  extend-Allocated :
      (r : Option ℕ) (m' : Machine)
      → m.mm.mmap.sbrk + size ≤ 2 ^ 22
      → extend m rgid size ≡ (done r, m')
      → Allocated foreign_ram foreign_swp m size rgid m'
  unfolding extend increase_vma_limit validate_overlap_vm_area create_vm_rg_of_pcb_at_brk
  extend-Allocated r m' bus h = elim (Bool-cases (leb (m.mm.mmap.sbrk + size) m.mm.mmap.vm_end)) [
    | inl fits ↦ rw (← outcome_state (rw fits at h)) (within (ground arith))
    | inr over ↦
        mapped_then (vm_map_ram m m.mm.mmap.sbrk m.mm.mmap.vm_end (page_alignsz demand / 256)) refl
          (ground arith) (rw over at h)
  ]
    where
      mapped_then :
          (s : Outcome (Unit {0}) × Machine)
          → vm_map_ram m m.mm.mmap.sbrk m.mm.mmap.vm_end (page_alignsz demand / 256) ≡ s
          → m.mm.mmap.vm_end < m.mm.mmap.sbrk + size
          → and_then s (λ _. grown rgid size m.mm.mmap.sbrk demand) ≡ (done r, m')
          → Allocated foreign_ram foreign_swp m size rgid m'
      mapped_then (err e, m1) run above h = absurd (ground arith)
      mapped_then (done _, m1) run above h =
          let maps =
            vm_map_ram-MapsRam foreign_ram foreign_swp m.mm.mmap.vm_end (page_alignsz demand / 256)
              space.area.aligned (omega (arith, space.area.aligned)) m m1 m.mm.mmap.sbrk space.valid
              (λ q l b. space.beyond q l) run in
          rw (← outcome_state (sym (grown_lem m1 maps.area) ∙ h)) (increased m1 above bus maps)

  -- On a memory in order, if pgalloc for a symbol of the table succeeds and the area stays within
  -- the 22-bit bus, the symbol has got size bytes, all memory is in order, so no other region has
  -- these bytes, and no other symbol, no mapped byte of the process and no byte of another process
  -- has changed.
  pub alloc-Allocated :
      (r : Option ℕ) (m' : Machine)
      → m.mm.mmap.sbrk + size ≤ 2 ^ 22
      → alloc m size rgid ≡ (done r, m')
      → Allocated foreign_ram foreign_swp m size rgid m'
  unfolding alloc
  alloc-Allocated r m' bus h = elim (Option-cases (get_free_vmrg_area m.mm size)) [
    | inl nowhere ↦ extend-Allocated r m' bus (rw (nowhere, alloc) at h)
    | inr ((start, mm), got) ↦ rw (← outcome_state (rw (got, alloc) at h)) (reused start mm got)
  ]
