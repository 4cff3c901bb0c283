-- ===== src/Vm/Owners.antt =====
-- Whom the addresses of an area belong to: the symbol table and the free list of src/mm-vm.c.
use operating_system_assignm.Prelude.{
  ℕ, ◌+◌, ◌%◌, ◌^◌, ◌≤◌, ◌<◌, ◌≡◌, ◌≢◌, inl, inr, true, false, arith, ltb, leb, ◌&&◌, if◌then◌else◌,
  some, List, [], ◌∷◌, update, Bool-cases, Option-cases,
}
use operating_system_assignm.Mm.{Region, Mm}
use operating_system_assignm.Totals.{total, total-update}
use operating_system_assignm.Vm.{
  paging_max_symtbl_sz, shrink, first_fit, get_free_vmrg_area, set_freerg_list, set_symbol, free,
  enlist_vm_freerg_list,
}

-- 1 for the addresses of a region, 0 for the others.
abbrev pub owner : ℕ → ℕ → ℕ → ℕ
owner start end a = if leb start a && ltb a end then 1 else 0

abbrev pub symbol_owner : ℕ → Region → ℕ
symbol_owner a r = if r.valid then owner r.rg_start r.rg_end a else 0

abbrev pub free_owners : ℕ → List Region → ℕ
free_owners a [] = 0
free_owners a (r ∷ rs) = owner r.rg_start r.rg_end a + free_owners a rs

-- How many regions an address belongs to.
abbrev pub owners : Mm → ℕ → ℕ
owners mm a =
    total (symbol_owner a) paging_max_symtbl_sz mm.symrgtbl + free_owners a mm.mmap.vm_freerg_list

pub record IsArea (mm : Mm) : Type 0 where
  pub disjoint : (a : ℕ) → owners mm a ≤ 1
  pub bounded : (a : ℕ) → mm.mmap.sbrk ≤ a → owners mm a ≡ 0
  pub starts : mm.mmap.vm_start ≡ 0
  pub room : mm.mmap.sbrk ≤ mm.mmap.vm_end
  pub aligned : mm.mmap.vm_end % 256 ≡ 0
  pub on_bus : mm.mmap.vm_end ≤ 2 ^ 22

shrink_lem :
    (r : Region) (size : ℕ) (rest : List Region) (a : ℕ)
    → r.rg_start + size ≤ r.rg_end
    → free_owners a (shrink r size rest) + owner r.rg_start (r.rg_start + size) a
      ≡ owner r.rg_start r.rg_end a + free_owners a rest
unfolding shrink
shrink_lem r size [] a h = ground arith
shrink_lem r size (next ∷ rest) a h = ground arith

-- The bytes that are found are taken off the list, and no others.
first_fit_lem :
    (xs : List Region) (size start : ℕ) (ys : List Region) (a : ℕ)
    → first_fit xs size ≡ some (start, ys)
    → free_owners a ys + owner start (start + size) a ≡ free_owners a xs
unfolding first_fit
first_fit_lem [] size start ys a h = absurd (ground arith)
first_fit_lem (r ∷ rest) size start ys a h = elim (Bool-cases (leb (r.rg_start + size) r.rg_end)) [
  | inl fits ↦ ground (arith, rw fits at h, shrink_lem r size rest a)
  | inr tight ↦ elim (Option-cases (first_fit rest size)) [
    | inl nowhere ↦ absurd (ground (arith, nowhere, rw tight at h))
    | inr ((start', rest'), found) ↦
        ground (arith, rw (tight, found) at h, first_fit_lem rest size start' rest' a found)
  ]
]

-- The symbol table after the assignments to one entry.
symbols_update :
    (mm : Mm) (rgid : ℕ) (r : Region) (a : ℕ)
    → rgid < paging_max_symtbl_sz
    → total (symbol_owner a) paging_max_symtbl_sz (update mm.symrgtbl rgid r)
        + symbol_owner a (mm.symrgtbl rgid)
      ≡ total (symbol_owner a) paging_max_symtbl_sz mm.symrgtbl + symbol_owner a r
symbols_update mm rgid r a h =
    ground (arith, total-update (symbol_owner a) paging_max_symtbl_sz rgid mm.symrgtbl r)

-- Only the free list changes.
pub get_free_vmrg_area-list :
    (mm mm' : Mm) (size start : ℕ)
    → get_free_vmrg_area mm size ≡ some (start, mm')
    → (regions : List Region) × (mm' ≡ set_freerg_list mm regions)
unfolding get_free_vmrg_area
get_free_vmrg_area-list mm mm' size start got =
    elim (Option-cases (first_fit mm.mmap.vm_freerg_list size)) [
      | inl nowhere ↦ absurd (ground (arith, nowhere, got))
      | inr ((start', ys), found) ↦ (ys, ground (arith, found, got))
    ]

-- A symbol takes the bytes from a region that is free.
pub get_free-IsArea :
    (mm mm' : Mm) (size start rgid : ℕ)
    → IsArea mm
    → rgid < paging_max_symtbl_sz
    → get_free_vmrg_area mm size ≡ some (start, mm')
    → IsArea (set_symbol mm' rgid start (start + size))
unfolding get_free_vmrg_area
get_free-IsArea mm mm' size start rgid v h got =
    elim (Option-cases (first_fit mm.mmap.vm_freerg_list size)) [
      | inl nowhere ↦ absurd (ground (arith, nowhere, got))
      | inr ((start', ys), found) ↦
          let e : (start' ≡ start) × (set_freerg_list mm ys ≡ mm') = ground (arith, found, got) in
          rw (← e.0, ← e.1)
            (record {
              disjoint = λ a. ground (
                arith,
                v.disjoint a,
                first_fit_lem mm.mmap.vm_freerg_list size start' ys a found,
                symbols_update mm rgid
                    (record { rg_start = start'; rg_end = start' + size; valid = true }) a h,
              );
              bounded = λ a b. ground (
                arith,
                v.bounded a b,
                first_fit_lem mm.mmap.vm_freerg_list size start' ys a found,
                symbols_update mm rgid
                    (record { rg_start = start'; rg_end = start' + size; valid = true }) a h,
              );
              starts = v.starts;
              room = v.room;
              aligned = v.aligned;
              on_bus = v.on_bus;
            })
    ]

-- A symbol takes the bytes from `sbrk` on, below the end that the area gets.
pub extend-IsArea :
    (mm : Mm) (size rgid vm_end : ℕ)
    → IsArea mm
    → rgid < paging_max_symtbl_sz
    → mm.mmap.sbrk + size ≤ vm_end
    → vm_end % 256 ≡ 0
    → vm_end ≤ 2 ^ 22
    → IsArea (record (set_symbol mm rgid mm.mmap.sbrk (mm.mmap.sbrk + size)) {
      mmap = record (mm.mmap) { sbrk = mm.mmap.sbrk + size; vm_end = vm_end };
    })
extend-IsArea mm size rgid vm_end v h room aligned on_bus = record {
  disjoint = λ a. ground (
    arith,
    v.disjoint a,
    v.bounded a,
    symbols_update mm rgid
        (record { rg_start = mm.mmap.sbrk; rg_end = mm.mmap.sbrk + size; valid = true }) a h,
  );
  bounded = λ a b. ground (
    arith,
    v.bounded a,
    symbols_update mm rgid
        (record { rg_start = mm.mmap.sbrk; rg_end = mm.mmap.sbrk + size; valid = true }) a h,
  );
  starts = v.starts;
  room = room;
  aligned = aligned;
  on_bus = on_bus;
}

-- On an area in order (no byte belongs to two of its regions, they lie below sbrk, and its end is
-- aligned and on the bus), freeing a valid symbol of the table succeeds, and the area is in order
-- after it; the symbol is not valid any more, each byte of its region is once more in the free
-- list, the other bytes of the list, the other symbols, sbrk and the end of the area are as before,
-- and nothing but the area and the symbols changes.
pub free-IsArea :
    (mm : Mm) (rgid : ℕ)
    → IsArea mm
    → rgid < paging_max_symtbl_sz
    → (mm.symrgtbl rgid).valid ≡ true
    → (mm' : Mm) × (free mm rgid ≡ some mm')
      × IsArea mm'
      × ((mm'.symrgtbl rgid).valid ≡ false)
      × ((j : ℕ) → j ≢ rgid → mm'.symrgtbl j ≡ mm.symrgtbl j)
      × (mm' ≡ record mm { mmap = mm'.mmap; symrgtbl = mm'.symrgtbl })
      × (mm'.mmap.vm_end ≡ mm.mmap.vm_end)
      × (mm'.mmap.sbrk ≡ mm.mmap.sbrk)
      × ((a : ℕ)
          → free_owners a mm'.mmap.vm_freerg_list
            ≡ owner (mm.symrgtbl rgid).rg_start (mm.symrgtbl rgid).rg_end a
              + free_owners a mm.mmap.vm_freerg_list)
unfolding free enlist_vm_freerg_list
free-IsArea mm rgid v h valid =
    let r = mm.symrgtbl rgid in
    let gone : Region = record { rg_start = r.rg_start; rg_end = r.rg_end; valid = false } in
    let mm1 : Mm = record mm { symrgtbl = update mm.symrgtbl rgid gone } in
    (
      enlist_vm_freerg_list mm1 gone,
      ground arith,
      record {
        disjoint = λ a. ground (arith, v.disjoint a, symbols_update mm rgid gone a h);
        bounded = λ a b. ground (arith, v.bounded a, symbols_update mm rgid gone a h);
        starts = ground (arith, v.starts);
        room = ground (arith, v.room);
        aligned = ground (arith, v.aligned);
        on_bus = ground (arith, v.on_bus);
      },
      ground arith,
      λ j ne. ground arith,
      ground arith,
      ground arith,
      ground arith,
      λ a. ground arith,
    )

free_owners-free :
    (mm mm' : Mm) (rgid a : ℕ)
    → free mm rgid ≡ some mm'
    → (free_owners a mm'.mmap.vm_freerg_list
        ≡ owner (mm.symrgtbl rgid).rg_start (mm.symrgtbl rgid).rg_end a
          + free_owners a mm.mmap.vm_freerg_list)
      × ((mm'.symrgtbl rgid).rg_start ≡ (mm.symrgtbl rgid).rg_start)
      × ((mm'.symrgtbl rgid).rg_end ≡ (mm.symrgtbl rgid).rg_end)
unfolding free enlist_vm_freerg_list
free_owners-free mm mm' rgid a h = ground arith

-- If a symbol is freed and freed again, each byte of its region is in the free list twice or more
-- afterwards, so regions of the list overlap.
pub free_twice :
    (mm mm1 mm2 : Mm) (rgid a : ℕ)
    → (mm.symrgtbl rgid).rg_start ≤ a
    → a < (mm.symrgtbl rgid).rg_end
    → free mm rgid ≡ some mm1
    → free mm1 rgid ≡ some mm2
    → 2 ≤ free_owners a mm2.mmap.vm_freerg_list
free_twice mm mm1 mm2 rgid a l m e f =
    ground (arith, free_owners-free mm mm1 rgid a e, free_owners-free mm1 mm2 rgid a f)
