-- ===== src/System.antt =====
-- The processes of src/os.c on the memories that they share: what `main` and `ld_routine` set up,
-- and `run` of src/cpu.c. The calls of `run` come one after another, in any order, as on one CPU;
-- the locks of src/mm-memphy.c cover single accesses, and calls at the same time are not modelled.
pub mod Frames
pub mod Owners
pub mod Invariant
pub mod Loading
pub mod Kept
pub mod Isolation
mod Tests
use operating_system_assignm.Prelude.{ℕ, ◌+◌, List, update}
use operating_system_assignm.Memphy.{Memphy, init_memphy}
use operating_system_assignm.Mm.{Region, Mm, init_mm}
use operating_system_assignm.Cpu.{Inst, Process, Stat, run}

-- What is a process' own.
pub record Program : Type 0 where
  pub text : List Inst
  pub pc : ℕ
  pub mm : Mm

-- `mram` and `mswp[0]`, of which each process has pointers, and the processes that were made.
-- `junk` is the byte of an uninitialised variable.
pub record System : Type 0 where
  pub procs : ℕ → Program
  pub count : ℕ
  pub mram : Memphy
  pub mswp : Memphy
  pub junk : ℕ

-- What `run` reaches from process `p`.
abbrev pub process : System → ℕ → Process
process s p = record {
  text = (s.procs p).text;
  pc = (s.procs p).pc;
  machine = record { mm = (s.procs p).mm; mram = s.mram; mswp = s.mswp; junk = s.junk };
}

abbrev pub with_process : System → ℕ → Process → System
with_process s p q = record {
  procs = update s.procs p (record { text = q.text; pc = q.pc; mm = q.machine.mm });
  count = s.count;
  mram = q.machine.mram;
  mswp = q.machine.mswp;
  junk = q.machine.junk;
}

-- `main` on the devices `ram` and `swp` as they are on its stack, with what malloc leaves in their
-- frame lists.
unfoldable pub boot_memories :
    Memphy → Memphy → ℕ → ℕ → List ℕ → List ℕ → (ℕ → Program) → ℕ → System
boot_memories ram swp memramsz memswpsz ram_uninit swp_uninit procs junk = record {
  procs = procs;
  count = 0;
  mram = init_memphy ram memramsz 1 ram_uninit;
  mswp = init_memphy swp memswpsz 1 swp_uninit;
  junk = junk;
}

-- `ld_routine` with a process whose code is `text`. `uninit` is what `init_mm` reads of its area
-- before it is set.
unfoldable pub load_process : System → List Inst → List Region → System
load_process s text uninit = record s {
  procs = update s.procs s.count (record { text = text; pc = 0; mm = init_mm uninit });
  count = s.count + 1;
}

unfoldable pub run_process : System → ℕ → Stat × System
run_process s p = let (stat, q) = run (process s p) in (stat, with_process s p q)
