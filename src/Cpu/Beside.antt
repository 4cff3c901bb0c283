-- ===== src/Cpu/Beside.antt =====
-- What an instruction leaves of the memories that other processes hold.
use operating_system_assignm.Prelude.{
  ℕ, ◌+◌, ◌*◌, ◌%◌, ◌^◌, ◌≤◌, ◌<◌, ◌≡◌, refl, ap, sym, ◌∙◌, Bool, true, arith, Option,
}
use operating_system_assignm.Status.{Outcome, done, err}
use operating_system_assignm.Memphy.{Memphy}
use operating_system_assignm.Paging.{Machine}
use operating_system_assignm.Paging.Access.{pg_getval-contents, pg_setval-Wrote}
use operating_system_assignm.Vm
use operating_system_assignm.Vm.{paging_max_symtbl_sz}
use operating_system_assignm.Vm.Owners.{free-IsArea}
use operating_system_assignm.Vm.Space.{IsSpace}
use operating_system_assignm.Vm.Alloc.{alloc-Allocated}
use operating_system_assignm.Vm.Symbols.{Inside, addr_of, located-read, located-write}
use operating_system_assignm.Cpu.{
  Stat, success, Opcode, calc, alloc, free, read, write, execute, freed, status_of,
}
use operating_system_assignm.Cpu.Steps.{Proper}

-- The bytes of some frames are the same in two devices.
abbrev pub SameFrames : (ℕ → Bool) → Memphy → Memphy → Type 0
SameFrames foreign mp mp' =
    (f o : ℕ) → foreign f ≡ true → o < 256 → mp'.storage (f * 256 + o) ≡ mp.storage (f * 256 + o)

abbrev pub Beside : (ℕ → Bool) → (ℕ → Bool) → Machine → Machine → Type 0
Beside foreign_ram foreign_swp m m' =
    SameFrames foreign_ram m.mram m'.mram × SameFrames foreign_swp m.mswp m'.mswp

module _ {foreign_ram foreign_swp : ℕ → Bool} (m m' : Machine) (a b c : ℕ)
    (space : IsSpace foreign_ram foreign_swp m) where
  alloc-Beside :
      b < paging_max_symtbl_sz
      → m.mm.mmap.sbrk + a ≤ 2 ^ 22
      → (r : Outcome (Option ℕ) × Machine) → Vm.alloc m a b ≡ r
      → ◌≡◌ {A = Stat × Machine} (status_of r.0, r.1) (success, m')
      → Beside foreign_ram foreign_swp m m'
  alloc-Beside named bus (err e, m1) run h = absurd (ground arith)
  alloc-Beside named bus (done x, m1) run h =
      let g = alloc-Allocated foreign_ram foreign_swp m a b space named x m1 bus run in
      rw (← ap (λ (r : Stat × Machine). r.1) h) (g.ram_kept, g.swp_kept)

  free-Beside :
      a < paging_max_symtbl_sz
      → (m.mm.symrgtbl a).valid ≡ true
      → execute m free a b c ≡ (success, m')
      → Beside foreign_ram foreign_swp m m'
  unfolding execute freed
  free-Beside named valid h =
      let (mm, run, _, _, _, _, _, _, _) = free-IsArea m.mm a space.area named valid in
      let same : record m { mm = mm } ≡ m' =
        ap (λ (r : Stat × Machine). r.1) (rw (run, freed) at h) in
      rw (← same) ((λ f o e l. refl), (λ f o e l. refl))

  read-Beside :
      Inside m.mm a b
      → (r : Outcome ℕ × Machine) → Vm.read m a b ≡ r
      → ◌≡◌ {A = Stat × Machine} (status_of r.0, r.1) (success, m')
      → Beside foreign_ram foreign_swp m m'
  read-Beside i (err e, m1) run h = absurd (ground arith)
  read-Beside i (done x, m1) run h =
      let (_, k) =
        pg_getval-contents m space.valid (addr_of m.mm a b) x m1
          (sym (located-read m space a b i) ∙ run) in
      rw (← ap (λ (r : Stat × Machine). r.1) h) (k.ram_kept, k.swp_kept)

  write-Beside :
      Inside m.mm b c
      → (r : Outcome (Unit {0}) × Machine) → Vm.write m (a % 256) b c ≡ r
      → ◌≡◌ {A = Stat × Machine} (status_of r.0, r.1) (success, m')
      → Beside foreign_ram foreign_swp m m'
  write-Beside i (err e, m1) run h = absurd (ground arith)
  write-Beside i (done _, m1) run h =
      let k =
        pg_setval-Wrote m space.valid (addr_of m.mm b c) (a % 256) m1
          (sym (located-write m space b c i (a % 256)) ∙ run) in
      rw (← ap (λ (r : Stat × Machine). r.1) h) (k.ram_kept, k.swp_kept)

  pub execute-Beside :
      (op : Opcode)
      → Proper m.mm op a b c
      → execute m op a b c ≡ (success, m')
      → Beside foreign_ram foreign_swp m m'
  unfolding execute Proper
  execute-Beside calc q h =
      rw (← ap (λ (r : Stat × Machine). r.1) h) ((λ f o e l. refl), (λ f o e l. refl))
  execute-Beside alloc q h = alloc-Beside q.0 q.1 (Vm.alloc m a b) refl h
  execute-Beside free q h = free-Beside q.0 q.1 h
  execute-Beside read q h = read-Beside q (Vm.read m a b) refl h
  execute-Beside write q h = write-Beside q (Vm.write m (a % 256) b c) refl h
