-- ===== src/Cpu/Steps.antt =====
-- `execute` of src/cpu.c on memories in order: which instructions are proper, and what they leave.
use operating_system_assignm.Prelude.{
  ℕ, ◌+◌, ◌%◌, ◌^◌, ◌<◌, ◌≤◌, ◌≡◌, refl, ap, Bool, true, arith, Option,
}
use operating_system_assignm.Status.{Outcome, done, err}
use operating_system_assignm.Mm.{Mm}
use operating_system_assignm.Paging.{Machine}
use operating_system_assignm.Vm
use operating_system_assignm.Vm.{paging_max_symtbl_sz}
use operating_system_assignm.Vm.Owners.{free-IsArea}
use operating_system_assignm.Vm.Space.{IsSpace, with_area-Valid}
use operating_system_assignm.Vm.Alloc.{alloc-Allocated}
use operating_system_assignm.Paging.Valid.{Valid}
use operating_system_assignm.Vm.Symbols.{Inside, read_lem, write_lem}
use operating_system_assignm.Cpu.{
  Stat, success, Opcode, calc, alloc, free, read, write, execute, freed, run, status_of,
}

-- An instruction that names symbols of the table, frees and accesses valid ones only, accesses them
-- inside of their regions, and does not grow the area past the 22-bit bus.
unfoldable pub Proper : Mm → Opcode → ℕ → ℕ → ℕ → Type 0
Proper mm calc arg_0 arg_1 arg_2 = Unit {0}
Proper mm alloc arg_0 arg_1 arg_2 = (arg_1 < paging_max_symtbl_sz) × (mm.mmap.sbrk + arg_0 ≤ 2 ^ 22)
Proper mm free arg_0 arg_1 arg_2 =
    (arg_0 < paging_max_symtbl_sz) × ((mm.symrgtbl arg_0).valid ≡ true)
Proper mm read arg_0 arg_1 arg_2 = Inside mm arg_0 arg_1
Proper mm write arg_0 arg_1 arg_2 = Inside mm arg_1 arg_2

free-IsSpace :
    {foreign_ram foreign_swp : ℕ → Bool} (m : Machine) (rgid : ℕ) (m' : Machine)
    → IsSpace foreign_ram foreign_swp m
    → rgid < paging_max_symtbl_sz
    → (m.mm.symrgtbl rgid).valid ≡ true
    → freed m (Vm.free m.mm rgid) ≡ (success, m')
    → IsSpace foreign_ram foreign_swp m'
unfolding freed
free-IsSpace {foreign_ram} {foreign_swp} m rgid m' s h v e =
    let (mm, run, area, _, _, rest, vm_end, _, _) = free-IsArea m.mm rgid s.area h v in
    let same : record m { mm = mm } ≡ m' =
      ap (λ (r : Stat × Machine). r.1) (rw (run, freed) at e) in
    let valid : Valid foreign_ram foreign_swp (record m { mm = mm }) =
      rw rest (with_area-Valid mm.mmap mm.symrgtbl s.valid) in
    rw (← same) (record {
      valid = valid;
      area = area;
      backed = λ q b. rw (ap (λ (x : Mm). x.pgd) rest) (s.backed q (rw vm_end at b));
      beyond = λ q b. rw (ap (λ (x : Mm). x.pgd) rest) (s.beyond q (rw vm_end at b));
    })

module _ {foreign_ram foreign_swp : ℕ → Bool} where
  -- A proper instruction that succeeds on a memory in order leaves it in order.
  pub execute-IsSpace :
      (m m' : Machine) (op : Opcode) (a b c : ℕ)
      → IsSpace foreign_ram foreign_swp m
      → Proper m.mm op a b c
      → execute m op a b c ≡ (success, m')
      → IsSpace foreign_ram foreign_swp m'
  unfolding execute Proper
  execute-IsSpace m m' calc a b c s p h = rw (← ap (λ (r : Stat × Machine). r.1) h) s
  execute-IsSpace m m' alloc a b c s p h = at (Vm.alloc m a b) refl h
    where
      at :
          (r : Outcome (Option ℕ) × Machine)
          → Vm.alloc m a b ≡ r
          → ◌≡◌ {A = Stat × Machine} (status_of r.0, r.1) (success, m')
          → IsSpace foreign_ram foreign_swp m'
      at (err e, m1) run h = absurd (ground arith)
      at (done x, m1) run h =
          rw (← ap (λ (r : Stat × Machine). r.1) h)
            (alloc-Allocated foreign_ram foreign_swp m a b s p.0 x m1 p.1 run).space
  execute-IsSpace m m' free a b c s p h = free-IsSpace m a m' s p.0 p.1 h
  execute-IsSpace m m' read a b c s p h = at (Vm.read m a b) refl h
    where
      at :
          (r : Outcome ℕ × Machine)
          → Vm.read m a b ≡ r
          → ◌≡◌ {A = Stat × Machine} (status_of r.0, r.1) (success, m')
          → IsSpace foreign_ram foreign_swp m'
      at (err e, m1) run h = absurd (ground arith)
      at (done x, m1) run h =
          rw (← ap (λ (r : Stat × Machine). r.1) h) (read_lem m s a b p x m1 run).1
  execute-IsSpace m m' write a b c s p h = at (Vm.write m (a % 256) b c) refl h
    where
      at :
          (r : Outcome (Unit {0}) × Machine)
          → Vm.write m (a % 256) b c ≡ r
          → ◌≡◌ {A = Stat × Machine} (status_of r.0, r.1) (success, m')
          → IsSpace foreign_ram foreign_swp m'
      at (err e, m1) run h = absurd (ground arith)
      at (done _, m1) run h =
          rw (← ap (λ (r : Stat × Machine). r.1) h) (write_lem m s b c p (a % 256) m1 run).0
