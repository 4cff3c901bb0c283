-- ===== src/Loader/Tests.antt =====
-- Process files of src/loader.c.
use operating_system_assignm.Prelude.{◌≡◌, refl, none, some, List, [], ◌∷◌, ◌++◌, arith}
use operating_system_assignm.Cpu.{Opcode}
use operating_system_assignm.Scan.{
  Text, skip, number, unsigned, signed, scan_u, scan_us, word, scan_s,
}
use operating_system_assignm.Scan.Decimal.{print_u}
use operating_system_assignm.Loader.{Raw, loaded, exits, page_size, read_args, get_opcode, load}
use operating_system_assignm.Loader.Print.{Line, alloc, free, write, placed_all, print_file}
use operating_system_assignm.Loader.Files.{repeats, load-print, load_short}

gap : Text
gap = b' ' ∷ []

line_end : Text
line_end = 10 ∷ []

raw : Raw
raw = record {
  priority = 0;
  size = 0;
  text = λ _. record { opcode = Opcode.calc; arg_0 = 7; arg_1 = 7; arg_2 = 7 };
  opcode = [];
}

lines : List Line
lines = alloc 300 0 ∷ free 0 ∷ write 102 1 20 ∷ []

-- As input/proc/m0s: the file announces more instructions than it has.
short_text : Text
unfolding print_u
short_text = print_file gap line_end 1 4 lines

short_loaded : load raw 1 (some (print_file gap line_end 1 4 lines)) ≡ (
  loaded (record {
    pid = 1;
    bp = page_size;
    pc = 0;
    priority = 1;
    size = 4;
    text =
        placed_all raw.text 0 lines
        ++ (record { opcode = Opcode.write; arg_0 = 7; arg_1 = 7; arg_2 = 7 } ∷ []);
  }),
  2,
)
unfolding load raw gap line_end lines print_u scan_us scan_u signed unsigned number skip scan_s word
    read_args get_opcode
short_loaded = refl

no_file : (load raw 1 none).0 ≡ exits
unfolding load
no_file = refl

load-print_example : load raw 1 (some (print_file gap line_end 1 3 lines)) ≡ (
  loaded (record {
    pid = 1;
    bp = page_size;
    pc = 0;
    priority = 1;
    size = 3;
    text = placed_all raw.text 0 lines;
  }),
  2,
)
unfolding raw lines gap line_end
load-print_example =
    load-print gap (refl, tt) (cc) raw 1 1 (omega arith) line_end lines (refl, tt) (omega arith)
      (omega arith)

load_short_example : load raw 1 (some (print_file gap line_end 1 5 lines)) ≡ (
  loaded (record {
    pid = 1;
    bp = page_size;
    pc = 0;
    priority = 1;
    size = 5;
    text = placed_all raw.text 0 lines ++ repeats raw.text Opcode.write 2 3;
  }),
  2,
)
unfolding raw lines gap line_end
load_short_example =
    load_short gap (refl, tt) (cc) raw 1 1 (omega arith) line_end 2 (alloc 300 0)
      (free 0 ∷ write 102 1 20 ∷ []) (refl, tt) (omega arith) (omega arith)
