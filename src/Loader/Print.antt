-- ===== src/Loader/Print.antt =====
-- Process files as src/loader.c expects them.
use operating_system_assignm.Prelude.{ℕ, ◌+◌, ◌^◌, List, [], ◌∷◌, ◌++◌, AllBelow}
use operating_system_assignm.Cpu.{Opcode, Inst}
use operating_system_assignm.Scan.{Text}
use operating_system_assignm.Scan.Decimal.{print_u}
use operating_system_assignm.Scan.Args.{print_args}
use operating_system_assignm.Loader.{opt_calc, opt_alloc, opt_free, opt_read, opt_write}

-- An instruction with the arguments that its line has.
pub data Line : Type 0 where
  calc : Line
  alloc : ℕ → ℕ → Line
  free : ℕ → Line
  read : ℕ → ℕ → ℕ → Line
  write : ℕ → ℕ → ℕ → Line

abbrev pub opcode_of : Line → Opcode
opcode_of calc = Opcode.calc
opcode_of (alloc a b) = Opcode.alloc
opcode_of (free a) = Opcode.free
opcode_of (read a b c) = Opcode.read
opcode_of (write a b c) = Opcode.write

abbrev pub args_of : Line → List ℕ
args_of calc = []
args_of (alloc a b) = a ∷ b ∷ []
args_of (free a) = a ∷ []
args_of (read a b c) = a ∷ b ∷ c ∷ []
args_of (write a b c) = a ∷ b ∷ c ∷ []

abbrev pub name : Opcode → Text
name Opcode.calc = opt_calc
name Opcode.alloc = opt_alloc
name Opcode.free = opt_free
name Opcode.read = opt_read
name Opcode.write = opt_write

-- The arguments fit a `uint32_t`.
abbrev pub AllFit : List Line → Type 0
AllFit [] = Unit {0}
AllFit (l ∷ ls) = AllBelow (2 ^ 32) (args_of l) × AllFit ls

-- The line in the memory of an instruction, of which it sets a part.
abbrev pub placed : Inst → Line → Inst
placed ins calc = record ins { opcode = Opcode.calc }
placed ins (alloc a b) = record ins { opcode = Opcode.alloc; arg_0 = a; arg_1 = b }
placed ins (free a) = record ins { opcode = Opcode.free; arg_0 = a }
placed ins (read a b c) = record { opcode = Opcode.read; arg_0 = a; arg_1 = b; arg_2 = c }
placed ins (write a b c) = record { opcode = Opcode.write; arg_0 = a; arg_1 = b; arg_2 = c }

abbrev pub placed_all : (ℕ → Inst) → ℕ → List Line → List Inst
placed_all raw i [] = []
placed_all raw i (l ∷ ls) = placed (raw i) l ∷ placed_all raw (i + 1) ls

-- `gap` stands before each part of a file but the first, and `end` at its end.
module _ (gap end : Text) where
  abbrev pub print_lines : List Line → Text
  print_lines [] = end
  print_lines (l ∷ ls) = gap ++ (name (opcode_of l) ++ print_args gap (args_of l) (print_lines ls))

  -- A file that announces `size` instructions.
  abbrev pub print_file : ℕ → ℕ → List Line → Text
  print_file priority size ls = print_u priority ++ print_args gap (size ∷ []) (print_lines ls)
