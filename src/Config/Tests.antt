-- ===== src/Config/Tests.antt =====
-- Configuration files of src/os.c.
use operating_system_assignm.Prelude.{
  ℕ, ◌≡◌, refl, none, some, List, [], ◌∷◌, ◌++◌, arith, replicate,
}
use operating_system_assignm.Scan.{Text, skip, number, unsigned, signed, scan_u, word, scan_s}
use operating_system_assignm.Loader.{loaded, exits, overruns}
use operating_system_assignm.Config.{Row, read_row, read_rows, read_config}
use operating_system_assignm.Config.RoundTrip.{
  Named, AllFit, entries, print_config, read_config-print,
}

gap : Text
gap = b' ' ∷ []

line_end : Text
line_end = 10 ∷ []

raw : ℕ → Row
raw _ = record { start_time = 0; proc = []; prio = 0; rest = [] }

-- "m0s"
m0s : Text
m0s = b'm' ∷ b'0' ∷ b's' ∷ []

processes : List Named
processes = record { start_time = 7; name = m0s; prio = 3 } ∷ []

processes-AllFit : AllFit processes
unfolding processes m0s
processes-AllFit = (
  record {
    start = omega arith;
    word = ground arith;
    some_name = cc;
    room = refl;
    prio = omega arith;
  },
  tt,
)

read_config-print_example :
    read_config raw
      (some (print_config gap line_end 2 (1 ∷ 1 ∷ []) (256 ∷ 1000000 ∷ 0 ∷ 0 ∷ 0 ∷ []) processes))
    ≡ loaded (record {
      time_slot = 2;
      num_cpus = 1;
      num_processes = 1;
      memramsz = 256;
      memswpsz = 1000000 ∷ 0 ∷ 0 ∷ 0 ∷ [];
      processes = entries processes;
    })
unfolding processes gap line_end
read_config-print_example =
    read_config-print gap line_end (refl, tt) (cc) (refl, tt) raw 2 1 256 (1000000 ∷ 0 ∷ 0 ∷ 0 ∷ [])
      processes (omega arith) refl (omega arith) processes-AllFit

no_config : read_config raw none ≡ exits
unfolding read_config
no_config = refl

-- A name of 89 characters fits the variable `proc` but not the path.
long_name : read_rows raw 1 0 (b'1' ∷ gap ++ (replicate 89 b'a' ++ (gap ++ (b'3' ∷ [])))) ≡ overruns
unfolding read_rows read_row raw gap scan_u signed unsigned number skip scan_s word
long_name = refl
