-- ===== src/Cpu.antt =====
-- src/cpu.c with MM_PAGING: one instruction of a process. `pgalloc`, `pgfree_data`, `pgread` and
-- `pgwrite` of src/mm-vm.c pass the calls on; a BYTE is its value modulo 256.
pub mod Steps
pub mod View
pub mod Beside
mod Tests
use operating_system_assignm.Prelude.{ℕ, ◌+◌, ◌%◌, Option, none, some, List, get_elem?}
use operating_system_assignm.Status.{Status, failed, Outcome, done, err}
use operating_system_assignm.Mm.{Mm}
use operating_system_assignm.Paging.{Machine}
use operating_system_assignm.Vm

-- `enum ins_opcode_t`
pub data Opcode : Type 0 where
  calc : Opcode
  alloc : Opcode
  free : Opcode
  read : Opcode
  write : Opcode

-- `struct inst_t`
pub record Inst : Type 0 where
  pub opcode : Opcode
  pub arg_0 : ℕ
  pub arg_1 : ℕ
  pub arg_2 : ℕ

-- The part of `struct pcb_t` that `run` uses, and the memories that its pointers reach.
pub record Process : Type 0 where
  pub text : List Inst
  pub pc : ℕ
  pub machine : Machine

-- What `run` returns: 1 when the program is over, 0, or a negative code.
pub data Stat : Type 0 where
  over : Stat
  success : Stat
  error : Status → Stat

abbrev pub status_of {ℓ} : {A : Type ℓ} → Outcome A → Stat
status_of (done a) = success
status_of (err e) = error e

unfoldable pub freed : Machine → Option Mm → Stat × Machine
freed m none = (error failed, m)
freed m (some mm) = (success, record m { mm = mm })

-- The `switch`. `read_mem` and the other functions without MM_PAGING are not compiled.
unfoldable pub execute : Machine → Opcode → ℕ → ℕ → ℕ → Stat × Machine
unfolding freed
execute m calc arg_0 arg_1 arg_2 = (success, m)
execute m alloc arg_0 arg_1 arg_2 = let (r, m') = Vm.alloc m arg_0 arg_1 in (status_of r, m')
execute m free arg_0 arg_1 arg_2 = freed m (Vm.free m.mm arg_0)
execute m read arg_0 arg_1 arg_2 = let (r, m') = Vm.read m arg_0 arg_1 in (status_of r, m')
execute m write arg_0 arg_1 arg_2 =
    let (r, m') = Vm.write m (arg_0 % 256) arg_1 arg_2 in (status_of r, m')

unfoldable pub step : Process → Option Inst → Stat × Process
step p none = (over, p)
step p (some ins) =
    let (stat, m) = execute p.machine ins.opcode ins.arg_0 ins.arg_1 ins.arg_2 in
    (stat, record p { pc = p.pc + 1; machine = m })

unfoldable pub run : Process → Stat × Process
unfolding step
run p = step p (get_elem? p.text p.pc)
