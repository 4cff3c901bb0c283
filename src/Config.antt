-- ===== src/Config.antt =====
-- `read_config` of src/os.c without MM_FIXED_MEMSZ: the configuration file. A file is the list of
-- its characters, without the character 0, or `none` where `fopen` fails. An `int` is a number of
-- 32 bits, and from 2 ^ 31 on it is negative.
pub mod RoundTrip
mod Tests
use operating_system_assignm.Prelude.{
  ℕ, zero, suc, ◌+◌, ◌^◌, ltb, if◌then◌else◌, Option, none, some, List, [], ◌∷◌, ◌++◌, get_or,
  length,
}
use operating_system_assignm.Scan.{Text, scan_u, scan_us, scan_each, scan_s}
use operating_system_assignm.Loader.{Loading, loaded, exits, overruns, map_loading}

-- `ld_processes` at one index.
pub record Entry : Type 0 where
  pub start_time : ℕ
  pub path : Text
  pub prio : ℕ

pub record Config : Type 0 where
  pub time_slot : ℕ
  pub num_cpus : ℕ
  pub num_processes : ℕ
  pub memramsz : ℕ
  pub memswpsz : List ℕ
  pub processes : List Entry

-- "input/proc/"
abbrev pub input_proc : Text
input_proc = b'i' ∷ b'n' ∷ b'p' ∷ b'u' ∷ b't' ∷ b'/' ∷ b'p' ∷ b'r' ∷ b'o' ∷ b'c' ∷ b'/' ∷ []

-- `malloc (sizeof (char) * 100)`, the room for a path and its end.
abbrev pub path_len : ℕ
path_len = 100

-- The variables of a line after `fscanf`: the time, the name, the priority; and the rest.
pub record Row : Type 0 where
  pub start_time : ℕ
  pub proc : Text
  pub prio : ℕ
  pub rest : Text

read_prio : Row → Option ℕ × Text → Row
read_prio r (none, rest) = record r { rest = rest }
read_prio r (some n, rest) = record r { prio = n; rest = rest }

read_proc : Row → Option Text × Text → Row
unfolding read_prio
read_proc r (none, rest) = record r { rest = rest }
read_proc r (some w, rest) = read_prio (record r { proc = w }) (scan_u 64 rest)

read_start : Row → Option ℕ × Text → Row
unfolding read_proc
read_start r (none, rest) = record r { rest = rest }
read_start r (some n, rest) = read_proc (record r { start_time = n }) (scan_s rest)

-- `"%lu %s %lu\n"`, into variables that hold those of `r`.
unfoldable pub read_row : Row → Text → Row
unfolding read_start
read_row r s = read_start r (scan_u 64 s)

-- The `strcat` of the name, and `more`. A name that overruns `proc` overruns the path as well.
keep_row : Row → (Text → Loading (List Entry)) → Loading (List Entry)
keep_row r more =
    let entry : Entry = record {
      start_time = r.start_time;
      path = input_proc ++ r.proc;
      prio = r.prio;
    } in
    let rest = map_loading (λ es. entry ∷ es) (more r.rest) in
    if ltb (length (input_proc ++ r.proc)) path_len then rest else overruns

-- The loop over the processes. `raw` is what the variables hold before.
unfoldable pub read_rows : (ℕ → Row) → ℕ → ℕ → Text → Loading (List Entry)
unfolding keep_row
read_rows raw zero i s = loaded []
read_rows raw (suc left) i s = keep_row (read_row (raw i) s) (read_rows raw left (i + 1))

-- The rounds of a loop up to an `int`.
abbrev pub rounds_of : ℕ → ℕ
rounds_of n = if ltb n (2 ^ 31) then n else 0

read_processes : (ℕ → Row) → List ℕ → List ℕ → List ℕ × Text → Loading Config
unfolding read_rows
read_processes raw head ram (swap, s) =
    map_loading
      (λ es. record {
        time_slot = get_or head 0 0;
        num_cpus = get_or head 1 0;
        num_processes = get_or head 2 0;
        memramsz = get_or ram 0 0;
        memswpsz = swap;
        processes = es;
      })
      (read_rows raw (rounds_of (get_or head 2 0)) 0 s)

-- The line of the memories.
read_memory : (ℕ → Row) → List ℕ × Text → Loading Config
unfolding read_processes
read_memory raw (head, s) =
    let (ram, rest) = scan_us 32 (0 ∷ []) s in
    read_processes raw head ram (scan_each 32 (0 ∷ 0 ∷ 0 ∷ 0 ∷ []) rest)

-- The variables that the file fills are static and cleared.
unfoldable pub read_config : (ℕ → Row) → Option Text → Loading Config
unfolding read_memory
read_config raw none = exits
read_config raw (some file) = read_memory raw (scan_us 32 (0 ∷ 0 ∷ 0 ∷ []) file)
