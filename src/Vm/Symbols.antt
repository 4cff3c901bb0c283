-- ===== src/Vm/Symbols.antt =====
-- `pgread` and `pgwrite` of src/mm-vm.c on the bytes of the symbols.
use operating_system_assignm.Prelude.{
  ℕ, ◌+◌, ◌/◌, ◌≤◌, ◌<◌, ◌≡◌, inl, inr, refl, ap, sym, ◌∙◌, Bool, true, arith, ◌==◌, ◌&&◌,
  if◌then◌else◌, Option, none, some, Bool-cases, ==→eq,
}
use mathlib.Core.Path.{ap₂}
use operating_system_assignm.Status.{done}
use operating_system_assignm.Pte.{paging_pgn, paging_offst}
use operating_system_assignm.Mm.{Region, Mm}
use operating_system_assignm.Totals.{le-total, pair-le}
use operating_system_assignm.Paging.{Machine, pg_getval, pg_setval}
use operating_system_assignm.Paging.Place.{contents}
use operating_system_assignm.Paging.Valid.{Valid}
use operating_system_assignm.Paging.Access.{pg_getval-contents, pg_setval-Wrote}
use operating_system_assignm.Paging.Area.{SameArea, pg_getval-area, pg_setval-area}
use operating_system_assignm.Vm.{
  paging_max_symtbl_sz, get_symbol_region_by_id, address, locate, read, write,
}
use operating_system_assignm.Vm.MapRam.{contents-unmapped, unmapped-contents}
use operating_system_assignm.Vm.Owners.{IsArea, symbol_owner}
use operating_system_assignm.Vm.Space.{IsSpace}

-- The symbol is in the table and valid, and the offset lies in its region.
pub record Inside (mm : Mm) (rgid offset : ℕ) : Type 0 where
  pub named : rgid < paging_max_symtbl_sz
  pub is_valid : (mm.symrgtbl rgid).valid ≡ true
  pub below : (mm.symrgtbl rgid).rg_start + offset < (mm.symrgtbl rgid).rg_end

-- The address, and the byte there.
abbrev pub addr_of : Mm → ℕ → ℕ → ℕ
addr_of mm rgid offset = (mm.symrgtbl rgid).rg_start + offset

abbrev pub byte_of : Machine → ℕ → ℕ → Option ℕ
byte_of m rgid offset =
    contents m (paging_pgn (addr_of m.mm rgid offset)) (paging_offst (addr_of m.mm rgid offset))

-- The addresses of a symbol lie below `sbrk`.
pub inside-sbrk :
    (mm : Mm) (rgid offset : ℕ)
    → IsArea mm
    → Inside mm rgid offset
    → addr_of mm rgid offset < mm.mmap.sbrk
inside-sbrk mm rgid offset v i =
    let a = addr_of mm rgid offset in
    ground (
      arith,
      le-total (symbol_owner a) paging_max_symtbl_sz rgid mm.symrgtbl i.named,
      v.bounded a,
      i.is_valid,
      i.below,
    )

-- Different places have different addresses.
apart :
    (mm : Mm) (r o s p : ℕ)
    → IsArea mm
    → Inside mm r o
    → Inside mm s p
    → addr_of mm r o ≡ addr_of mm s p
    → (r ≡ s) × (o ≡ p)
apart mm r o s p v i j e = elim (Bool-cases (r == s)) [
  | inl same ↦
      let eq : r ≡ s = ==→eq r s same in
      (eq, omega (arith, e, ap (λ (k : ℕ). (mm.symrgtbl k).rg_start) eq))
  | inr other ↦
      let a = addr_of mm r o in
      absurd (
        ground (
          arith,
          pair-le (symbol_owner a) paging_max_symtbl_sz r s mm.symrgtbl i.named j.named
              (λ q. ground arith),
          v.disjoint a,
          i.is_valid,
          i.below,
          j.is_valid,
          j.below,
          e,
        ))
]

pub locate_lem :
    (mm : Mm) (rgid offset : ℕ)
    → IsArea mm
    → Inside mm rgid offset
    → locate mm rgid offset ≡ done (addr_of mm rgid offset)
unfolding locate get_symbol_region_by_id address
locate_lem mm rgid offset v i =
    ground (arith, inside-sbrk mm rgid offset v i, i.is_valid, i.named, v.starts, v.room, v.on_bus)

pub byte_of-area :
    (mm : Mm) (m' : Machine) (s p : ℕ)
    → SameArea mm m'.mm
    → byte_of m' s p ≡ contents m' (paging_pgn (addr_of mm s p)) (paging_offst (addr_of mm s p))
byte_of-area mm m' s p same =
    ap
      (λ (t : ℕ → Region).
        contents m' (paging_pgn ((t s).rg_start + p)) (paging_offst ((t s).rg_start + p)))
      same.1

-- The pages of a symbol are mapped.
pub inside-page :
    (mm : Mm) (rgid offset : ℕ)
    → IsArea mm
    → Inside mm rgid offset
    → paging_pgn (addr_of mm rgid offset) < mm.mmap.vm_end / 256
inside-page mm rgid offset v i =
    omega (arith, inside-sbrk mm rgid offset v i, v.room, v.on_bus, v.aligned)

Keeps-IsSpace :
    {foreign_ram foreign_swp : ℕ → Bool} (m m' : Machine)
    → IsSpace foreign_ram foreign_swp m
    → Valid foreign_ram foreign_swp m'
    → SameArea m.mm m'.mm
    → ((q : ℕ) → contents m' q 0 ≡ none → contents m q 0 ≡ none)
    → ((q : ℕ) → m.mm.mmap.vm_end / 256 ≤ q → contents m' q 0 ≡ contents m q 0)
    → IsSpace foreign_ram foreign_swp m'
Keeps-IsSpace m m' s v same back forth = record {
  valid = v;
  area = record {
    disjoint = λ a. rw (same.0, same.1) (s.area.disjoint a);
    bounded = λ a. rw (same.0, same.1) (s.area.bounded a);
    starts = rw (same.0) s.area.starts;
    room = rw (same.0) s.area.room;
    aligned = rw (same.0) s.area.aligned;
    on_bus = rw (same.0) s.area.on_bus;
  };
  backed = λ q b e.
      s.backed q (rw (same.0) at b) (contents-unmapped m q 0 (back q (unmapped-contents m' q 0 e)));
  beyond = λ q b.
      let l : m.mm.mmap.vm_end / 256 ≤ q = rw (same.0) at b in
      contents-unmapped m' q 0 (forth q l ∙ unmapped-contents m q 0 (s.beyond q l));
}

module _ {foreign_ram foreign_swp : ℕ → Bool} (m : Machine)
    (space : IsSpace foreign_ram foreign_swp m) (rgid offset : ℕ)
    (inside : Inside m.mm rgid offset) where
  abbrev addr : ℕ
  addr = addr_of m.mm rgid offset

  pub located-read : read m rgid offset ≡ pg_getval m addr
  unfolding read
  located-read = rw (locate_lem m.mm rgid offset space.area inside) refl

  pub located-write : (v : ℕ) → write m v rgid offset ≡ pg_setval m addr v
  unfolding write
  located-write v = rw (locate_lem m.mm rgid offset space.area inside) refl

  -- The test of the page and the offset tells the places apart.
  same_place :
      (s p : ℕ)
      → Inside m.mm s p
      → (paging_pgn (addr_of m.mm s p) == paging_pgn addr)
          && (paging_offst (addr_of m.mm s p) == paging_offst addr)
        ≡ (s == rgid) && (p == offset)
  same_place s p i = elim (Bool-cases ((s == rgid) && (p == offset))) [
    | inl here ↦
        let eq : (s ≡ rgid) × (p ≡ offset) = (ground arith, ground arith) in
        let addr_eq : addr_of m.mm s p ≡ addr = ap₂ (addr_of m.mm) eq.0 eq.1 in
        rw (here, addr_eq) (ground (arith))
    | inr beside ↦ ground (
      arith,
      beside,
      apart m.mm s p rgid offset space.area i inside,
      inside-sbrk m.mm s p space.area i,
      inside-sbrk m.mm rgid offset space.area inside,
      space.area.room,
      space.area.on_bus,
    )
  ]

  -- A read in the region of a valid symbol of a memory in order that succeeds gives the byte there,
  -- changes no byte of any symbol, and leaves the memory in order.
  pub read_lem :
      (b : ℕ) (m' : Machine)
      → read m rgid offset ≡ (done b, m')
      → (byte_of m rgid offset ≡ some b)
        × IsSpace foreign_ram foreign_swp m'
        × SameArea m.mm m'.mm
        × ((s p : ℕ) → Inside m.mm s p → byte_of m' s p ≡ byte_of m s p)
  read_lem b m' h =
      let run : pg_getval m addr ≡ (done b, m') = sym located-read ∙ h in
      let (byte, k) = pg_getval-contents m space.valid addr b m' run in
      let same : SameArea m.mm m'.mm = rw run at (pg_getval-area m addr) in
      (
        byte,
        Keeps-IsSpace m m' space k.valid same (λ q e. sym (k.same q 0 (omega arith)) ∙ e)
            (λ q l. k.same q 0 (omega arith)),
        same,
        λ s p i.
            byte_of-area m.mm m' s p same
            ∙ k.same (paging_pgn (addr_of m.mm s p)) (paging_offst (addr_of m.mm s p))
                (omega arith),
      )

  -- A write in the region of a valid symbol of a memory in order that succeeds changes the byte
  -- there and no byte of the same or another symbol beside it, and leaves the memory in order.
  pub write_lem :
      (v : ℕ) (m' : Machine)
      → write m v rgid offset ≡ (done tt, m')
      → IsSpace foreign_ram foreign_swp m'
        × SameArea m.mm m'.mm
        × ((s p : ℕ)
            → Inside m.mm s p
            → byte_of m' s p ≡ (if (s == rgid) && (p == offset) then some v else byte_of m s p))
  write_lem v m' h =
      let run : pg_setval m addr v ≡ (done tt, m') = sym (located-write v) ∙ h in
      let w = pg_setval-Wrote m space.valid addr v m' run in
      let same : SameArea m.mm m'.mm = rw run at (pg_setval-area m addr v) in
      let page = inside-page m.mm rgid offset space.area inside in
      (
        Keeps-IsSpace m m' space w.still same (λ q e. ground (arith, w.written q 0))
            (λ q l. ground (arith, w.written q 0)),
        same,
        λ s p i.
            byte_of-area m.mm m' s p same
            ∙ w.written (paging_pgn (addr_of m.mm s p)) (paging_offst (addr_of m.mm s p))
                (omega arith)
            ∙ ap (λ (c : Bool). if c then some v else byte_of m s p) (same_place s p i),
      )
