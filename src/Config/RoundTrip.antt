-- ===== src/Config/RoundTrip.antt =====
-- Printed configuration files and what `read_config` of src/os.c makes of them.
use operating_system_assignm.Prelude.{
  ℕ, ◌+◌, ◌^◌, ◌<◌, ◌≡◌, ◌≢◌, refl, sym, ltb, true, some, List, [], ◌∷◌, ◌++◌, length, arith,
  AllBelow,
}
use operating_system_assignm.Scan.{Text, scan_us, assign}
use operating_system_assignm.Scan.Decimal.{
  print_u, Spaces, Stops, Solid, scan_u-print_u, scan_u-Spaces, scan_s-Spaces, scan_s-word,
}
use operating_system_assignm.Scan.Args.{
  print_args, Spaces-stop, Spaces-end, Spaces-Stops, args_stop, scan_us-print_args,
  scan_each-print_args,
}
use operating_system_assignm.Loader.{loaded}
use operating_system_assignm.Config.{
  Entry, Row, input_proc, path_len, read_start, read_proc, read_row, keep_row, read_rows, rounds_of,
  read_processes, read_memory, read_config,
}

-- A process of a configuration file.
pub record Named : Type 0 where
  pub start_time : ℕ
  pub name : Text
  pub prio : ℕ

-- The numbers fit, the name is a word, and its path fits too.
pub record Fits (p : Named) : Type 0 where
  pub start : p.start_time < 2 ^ 64
  pub word : Solid p.name
  pub some_name : p.name ≢ []
  pub room : ltb (length (input_proc ++ p.name)) path_len ≡ true
  pub prio : p.prio < 2 ^ 64

abbrev pub AllFit : List Named → Type 0
AllFit [] = Unit {0}
AllFit (p ∷ ps) = Fits p × AllFit ps

abbrev pub entries : List Named → List Entry
entries [] = []
entries (p ∷ ps) =
    record { start_time = p.start_time; path = input_proc ++ p.name; prio = p.prio } ∷ entries ps

-- `gap` stands before each part of the file but the first, and `end` at its end.
module _ (gap end : Text) where
  abbrev pub print_rows : List Named → Text
  print_rows [] = end
  print_rows (p ∷ ps) =
      gap
      ++ (print_u p.start_time ++ (gap ++ (p.name ++ (gap ++ (print_u p.prio ++ print_rows ps)))))

  abbrev pub print_config : ℕ → List ℕ → List ℕ → List Named → Text
  print_config time_slot counts memory ps =
      print_u time_slot ++ print_args gap counts (print_args gap memory (print_rows ps))

rounds_lem : (n : ℕ) → n < 2 ^ 31 → rounds_of n ≡ n
rounds_lem n h = ground arith

module _ (gap end : Text) (spaces : Spaces gap) (gap_ne : gap ≢ []) (ends : Spaces end) where
  rows_stop : (ps : List Named) → Stops (print_rows gap end ps)
  rows_stop [] = Spaces-Stops end ends
  rows_stop (p ∷ ps) = Spaces-stop gap _ spaces gap_ne

  read_row-print :
      (r : Row) (p : Named) (t : Text)
      → Fits p
      → Stops t
      → read_row r
          (gap ++ (print_u p.start_time ++ (gap ++ (p.name ++ (gap ++ (print_u p.prio ++ t))))))
        ≡ record { start_time = p.start_time; proc = p.name; prio = p.prio; rest = t }
  unfolding read_row
  read_row-print r p t f s =
      rw
        (
          scan_u-Spaces 64 gap
              (print_u p.start_time ++ (gap ++ (p.name ++ (gap ++ (print_u p.prio ++ t))))) spaces,
          scan_u-print_u 64 p.start_time (gap ++ (p.name ++ (gap ++ (print_u p.prio ++ t)))) f.start
              (Spaces-stop gap _ spaces gap_ne),
          read_start,
          scan_s-Spaces gap (p.name ++ (gap ++ (print_u p.prio ++ t))) spaces,
          scan_s-word p.name (gap ++ (print_u p.prio ++ t)) f.word f.some_name
              (Spaces-end gap _ spaces gap_ne),
          read_proc,
          scan_u-Spaces 64 gap (print_u p.prio ++ t) spaces,
          scan_u-print_u 64 p.prio t f.prio s,
        )
        refl

  read_rows-print :
      (raw : ℕ → Row) (i : ℕ) (ps : List Named)
      → AllFit ps
      → read_rows raw (length ps) i (print_rows gap end ps) ≡ loaded (entries ps)
  unfolding read_rows
  read_rows-print raw i [] f = refl
  read_rows-print raw i (p ∷ ps) f =
      rw
        (
          read_row-print (raw i) p (print_rows gap end ps) f.0 (rows_stop ps),
          keep_row,
          f.0.room,
          read_rows-print raw (i + 1) ps f.1,
        )
        refl

  scan_head :
      (time_slot num_cpus num_processes : ℕ) (memory : List ℕ) (ps : List Named)
      → time_slot < 2 ^ 32
      → num_cpus < 2 ^ 32
      → num_processes < 2 ^ 32
      → scan_us 32
          (0 ∷ 0 ∷ 0 ∷ [])
          (print_config gap end time_slot (num_cpus ∷ num_processes ∷ []) memory ps)
        ≡ (time_slot ∷ num_cpus ∷ num_processes ∷ [], print_args gap memory (print_rows gap end ps))
  unfolding scan_us
  scan_head time_slot num_cpus num_processes memory ps a b c =
      let t : Text = print_args gap memory (print_rows gap end ps) in
      let s = args_stop gap spaces gap_ne memory _ (rows_stop ps) in
      rw
        (
          scan_u-print_u 32 time_slot (print_args gap (num_cpus ∷ num_processes ∷ []) t) a
              (args_stop gap spaces gap_ne (num_cpus ∷ num_processes ∷ []) t s),
          assign,
          scan_us-print_args gap spaces gap_ne 32 (0 ∷ 0 ∷ []) (num_cpus ∷ num_processes ∷ []) t
              refl (b, (c, tt)) s,
        )
        refl

  -- Let the parts of a file stand apart by white space and end in it. From a printed configuration
  -- whose numbers and paths fit, with four swap sizes, read_config gets exactly the values that
  -- were printed, each name behind the path of the process files.
  pub read_config-print :
      (raw : ℕ → Row) (time_slot num_cpus memramsz : ℕ) (memswpsz : List ℕ) (ps : List Named)
      → AllBelow (2 ^ 32) (time_slot ∷ num_cpus ∷ memramsz ∷ memswpsz)
      → length memswpsz ≡ 4
      → length ps < 2 ^ 31
      → AllFit ps
      → read_config raw (
          some
            (print_config gap end time_slot (num_cpus ∷ length ps ∷ []) (memramsz ∷ memswpsz) ps))
        ≡ loaded (record {
          time_slot = time_slot;
          num_cpus = num_cpus;
          num_processes = length ps;
          memramsz = memramsz;
          memswpsz = memswpsz;
          processes = entries ps;
        })
  unfolding read_config
  read_config-print raw time_slot num_cpus memramsz memswpsz ps b four few f =
      rw
        (
          scan_head time_slot num_cpus (length ps) (memramsz ∷ memswpsz) ps b.0 b.1.0 (omega arith),
          read_memory,
          scan_us-print_args gap spaces gap_ne 32 (0 ∷ []) (memramsz ∷ [])
              (print_args gap memswpsz (print_rows gap end ps)) refl (b.1.1.0, tt)
              (args_stop gap spaces gap_ne memswpsz _ (rows_stop ps)),
          scan_each-print_args gap spaces gap_ne 32 (0 ∷ 0 ∷ 0 ∷ 0 ∷ []) memswpsz
              (print_rows gap end ps) (sym four) b.1.1.1 (rows_stop ps),
          read_processes,
          rounds_lem (length ps) few,
          read_rows-print raw 0 ps f,
        )
        refl
