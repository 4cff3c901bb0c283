-- ===== src/Cpu/Tests.antt =====
-- A program of one write, on the process of Vm.Tests.
use operating_system_assignm.Prelude.{◌≡◌, refl, some, [], ◌∷◌}
use operating_system_assignm.Vm.Space.{IsSpace}
use operating_system_assignm.Vm.Symbols.{Inside, byte_of}
use operating_system_assignm.Vm.Tests.{two, written, alone, two-IsSpace, write_run, last}
use operating_system_assignm.Cpu.{success, write, Inst, Process, execute, step, run}
use operating_system_assignm.Cpu.Steps.{Proper}
use operating_system_assignm.Cpu.View.{Spares, replay_all, Runs, stop, next, Runs-replay}

abbrev store : Inst
store = record { opcode = write; arg_0 = 7; arg_1 = 0; arg_2 = 299 }

abbrev before : Process
before = record { text = store ∷ []; pc = 0; machine = two }

abbrev after : Process
after = record { text = store ∷ []; pc = 1; machine = written }

executed : execute two write 7 0 299 ≡ (success, written)
unfolding execute
executed = rw write_run refl

ran : run before ≡ (success, after)
unfolding run step
ran = rw executed refl

runs : Runs before (store ∷ []) after
unfolding Proper
runs = next refl last ran stop

Runs-replay_example :
    IsSpace alone alone written × Inside written.mm 0 299 × (byte_of written 0 299 ≡ some 7)
unfolding Spares replay_all
Runs-replay_example = Runs-replay (store ∷ []) before after 0 299 two-IsSpace last (tt, tt) runs
