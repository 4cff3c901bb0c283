-- ===== src/Cpu/View.antt =====
-- The bytes of the symbols along the instructions that `run` of src/cpu.c executes.
use operating_system_assignm.Prelude.{
  ℕ, ◌+◌, ◌%◌, ◌^◌, ◌<◌, ◌≤◌, ◌≡◌, ◌≢◌, refl, ap, ◌∙◌, Bool, true, arith, ◌==◌, ◌&&◌, if◌then◌else◌,
  Option, some, List, [], ◌∷◌, get_elem?,
}
use operating_system_assignm.Status.{Outcome, done, err}
use operating_system_assignm.Pte.{paging_pgn, paging_offst}
use operating_system_assignm.Mm.{Mm, Region}
use operating_system_assignm.Paging.{Machine}
use operating_system_assignm.Paging.Place.{contents}
use operating_system_assignm.Vm
use operating_system_assignm.Vm.{paging_max_symtbl_sz}
use operating_system_assignm.Vm.Owners.{free-IsArea}
use operating_system_assignm.Vm.Space.{IsSpace}
use operating_system_assignm.Vm.Alloc.{alloc-Allocated}
use operating_system_assignm.Vm.Symbols.{Inside, addr_of, byte_of, inside-page, read_lem, write_lem}
use operating_system_assignm.Cpu.{
  Stat, success, Opcode, calc, alloc, free, read, write, Inst, execute, freed, status_of, Process,
  run, step,
}
use operating_system_assignm.Cpu.Steps.{Proper, execute-IsSpace}

-- The instruction does not give symbol `s` a new region or take its region away.
unfoldable pub Spares : ℕ → Inst → Type 0
Spares s i = elim i.opcode [
  | calc ↦ Unit {0}
  | alloc ↦ s ≢ i.arg_1
  | free ↦ s ≢ i.arg_0
  | read ↦ Unit {0}
  | write ↦ Unit {0}
]

-- The byte of a place after an instruction, by the byte before.
abbrev pub replay : ℕ → ℕ → Opcode → ℕ → ℕ → ℕ → Option ℕ → Option ℕ
replay s p calc a b c old = old
replay s p alloc a b c old = old
replay s p free a b c old = old
replay s p read a b c old = old
replay s p write a b c old = if (s == b) && (p == c) then some (a % 256) else old

-- The region of a symbol is what it was, and so are its places.
Inside-same :
    (mm mm' : Mm) (s p : ℕ) → mm'.symrgtbl s ≡ mm.symrgtbl s → Inside mm s p → Inside mm' s p
Inside-same mm mm' s p e i = record {
  named = i.named;
  is_valid = ap (λ (r : Region). r.valid) e ∙ i.is_valid;
  below = rw e i.below;
}

byte_of-same :
    (m m' : Machine) (s p : ℕ)
    → m'.mm.symrgtbl s ≡ m.mm.symrgtbl s
    → byte_of m' s p ≡ contents m' (paging_pgn (addr_of m.mm s p)) (paging_offst (addr_of m.mm s p))
byte_of-same m m' s p e =
    ap (λ (r : Region). contents m' (paging_pgn (r.rg_start + p)) (paging_offst (r.rg_start + p))) e

module _ {foreign_ram foreign_swp : ℕ → Bool} (m m' : Machine) (a b c s p : ℕ)
    (space : IsSpace foreign_ram foreign_swp m) (inside : Inside m.mm s p) where
  alloc-byte :
      b < paging_max_symtbl_sz
      → m.mm.mmap.sbrk + a ≤ 2 ^ 22
      → s ≢ b
      → execute m alloc a b c ≡ (success, m')
      → Inside m'.mm s p × (byte_of m' s p ≡ byte_of m s p)
  unfolding execute
  alloc-byte named bus ne h = at (Vm.alloc m a b) refl h
    where
      at :
          (r : Outcome (Option ℕ) × Machine)
          → Vm.alloc m a b ≡ r
          → ◌≡◌ {A = Stat × Machine} (status_of r.0, r.1) (success, m')
          → Inside m'.mm s p × (byte_of m' s p ≡ byte_of m s p)
      at (err e, m1) run h = absurd (ground arith)
      at (done x, m1) run h =
          let g = alloc-Allocated foreign_ram foreign_swp m a b space named x m1 bus run in
          rw (← ap (λ (r : Stat × Machine). r.1) h) (
            Inside-same m.mm m1.mm s p (g.others s ne) inside,
            byte_of-same m m1 s p (g.others s ne)
                ∙ g.same _ _ (omega arith) (inside-page m.mm s p space.area inside),
          )

  free-byte :
      a < paging_max_symtbl_sz
      → (m.mm.symrgtbl a).valid ≡ true
      → s ≢ a
      → execute m free a b c ≡ (success, m')
      → Inside m'.mm s p × (byte_of m' s p ≡ byte_of m s p)
  unfolding execute freed contents
  free-byte named valid ne h =
      let (mm, run, _, _, others, rest, _, _, _) = free-IsArea m.mm a space.area named valid in
      let same : record m { mm = mm } ≡ m' =
        ap (λ (r : Stat × Machine). r.1) (rw (run, freed) at h) in
      rw (← same) (
        Inside-same m.mm mm s p (others s ne) inside,
        byte_of-same m (record m { mm = mm }) s p (others s ne)
            ∙ ap
                (λ (x : Mm).
                  contents (record m { mm = x }) (paging_pgn (addr_of m.mm s p))
                    (paging_offst (addr_of m.mm s p)))
                rest,
      )

  read-byte :
      Inside m.mm a b
      → execute m read a b c ≡ (success, m')
      → Inside m'.mm s p × (byte_of m' s p ≡ byte_of m s p)
  unfolding execute
  read-byte i h = at (Vm.read m a b) refl h
    where
      at :
          (r : Outcome ℕ × Machine)
          → Vm.read m a b ≡ r
          → ◌≡◌ {A = Stat × Machine} (status_of r.0, r.1) (success, m')
          → Inside m'.mm s p × (byte_of m' s p ≡ byte_of m s p)
      at (err e, m1) run h = absurd (ground arith)
      at (done x, m1) run h =
          let (_, _, area, bytes) = read_lem m space a b i x m1 run in
          rw (← ap (λ (r : Stat × Machine). r.1) h) (
            Inside-same m.mm m1.mm s p (ap (λ (t : ℕ → Region). t s) area.1) inside,
            bytes s p inside,
          )

  write-byte :
      Inside m.mm b c
      → execute m write a b c ≡ (success, m')
      → Inside m'.mm s p × (byte_of m' s p ≡ replay s p write a b c (byte_of m s p))
  unfolding execute
  write-byte i h = at (Vm.write m (a % 256) b c) refl h
    where
      at :
          (r : Outcome (Unit {0}) × Machine)
          → Vm.write m (a % 256) b c ≡ r
          → ◌≡◌ {A = Stat × Machine} (status_of r.0, r.1) (success, m')
          → Inside m'.mm s p × (byte_of m' s p ≡ replay s p write a b c (byte_of m s p))
      at (err e, m1) run h = absurd (ground arith)
      at (done _, m1) run h =
          let (_, area, bytes) = write_lem m space b c i (a % 256) m1 run in
          rw (← ap (λ (r : Stat × Machine). r.1) h) (
            Inside-same m.mm m1.mm s p (ap (λ (t : ℕ → Region). t s) area.1) inside,
            bytes s p inside,
          )

  calc-byte :
      execute m calc a b c ≡ (success, m') → Inside m'.mm s p × (byte_of m' s p ≡ byte_of m s p)
  unfolding execute
  calc-byte h = rw (← ap (λ (r : Stat × Machine). r.1) h) (inside, refl)

  pub execute-byte :
      (op : Opcode)
      → Proper m.mm op a b c
      → Spares s (record { opcode = op; arg_0 = a; arg_1 = b; arg_2 = c })
      → execute m op a b c ≡ (success, m')
      → Inside m'.mm s p × (byte_of m' s p ≡ replay s p op a b c (byte_of m s p))
  unfolding Proper Spares
  execute-byte calc q n h = calc-byte h
  execute-byte alloc q n h = alloc-byte q.0 q.1 n h
  execute-byte free q n h = free-byte q.0 q.1 n h
  execute-byte read q n h = read-byte q h
  execute-byte write q n h = write-byte q h

pub run-execute :
    (q q' : Process) (i : Inst)
    → get_elem? q.text q.pc ≡ some i
    → run q ≡ (success, q')
    → execute q.machine i.opcode i.arg_0 i.arg_1 i.arg_2 ≡ (success, q'.machine)
unfolding run step
run-execute q q' i e h =
    let h' = rw (e, run, step) at h in ap (λ (r : Stat × Process). (r.0, r.1.machine)) h'

-- The CPU runs a process for some instructions, each proper and successful.
pub data Runs : Process → List Inst → Process → Type 0 where
  stop : {q : Process} → Runs q [] q
  next :
      {q q1 q' : Process} {i : Inst} {rest : List Inst}
      → get_elem? q.text q.pc ≡ some i
      → Proper q.machine.mm i.opcode i.arg_0 i.arg_1 i.arg_2
      → run q ≡ (success, q1)
      → Runs q1 rest q'
      → Runs q (i ∷ rest) q'

-- The byte of a place after the instructions, by the byte before: the last write to it, if any.
unfoldable pub replay_all : ℕ → ℕ → List Inst → Option ℕ → Option ℕ
replay_all s p [] old = old
replay_all s p (i ∷ rest) old =
    replay_all s p rest (replay s p i.opcode i.arg_0 i.arg_1 i.arg_2 old)

abbrev pub SparesAll : ℕ → List Inst → Type 0
SparesAll s [] = Unit {0}
SparesAll s (i ∷ rest) = Spares s i × SparesAll s rest

-- While the CPU runs proper instructions that succeed on a process whose memory is in order, a byte
-- of a symbol that is not freed or allocated again is that of the last write to it, whatever the
-- other instructions do and wherever its page goes; the memory stays in order.
pub Runs-replay :
    {foreign_ram foreign_swp : ℕ → Bool} (program : List Inst) (q q' : Process) (s p : ℕ)
    → IsSpace foreign_ram foreign_swp q.machine
    → Inside q.machine.mm s p
    → SparesAll s program
    → Runs q program q'
    → IsSpace foreign_ram foreign_swp q'.machine
      × Inside q'.machine.mm s p
      × (byte_of q'.machine s p ≡ replay_all s p program (byte_of q.machine s p))
unfolding replay_all
Runs-replay [] q q' s p space i spares stop = (space, i, refl)
Runs-replay (x ∷ rest) q q' s p space i spares (next {q1 = q1} fetched proper ran more) =
    let finished = run-execute q q1 x fetched ran in
    let (i1, byte) =
      execute-byte q.machine q1.machine x.arg_0 x.arg_1 x.arg_2 s p space i x.opcode proper spares.0
        finished in
    let space1 =
      execute-IsSpace q.machine q1.machine x.opcode x.arg_0 x.arg_1 x.arg_2 space proper finished in
    let (space', i', e) = Runs-replay rest q1 q' s p space1 i1 spares.1 more in
    (space', i', e ∙ ap (replay_all s p rest) byte)
