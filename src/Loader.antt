-- ===== src/Loader.antt =====
-- src/loader.c: the reader of a process file. A file is the list of its characters, without the
-- character 0. `load` is given the file, or `none` where `fopen` fails, and what the memory of the
-- process holds before: `malloc` does not clear it, and a conversion that fails assigns nothing.
pub mod Print
pub mod RoundTrip
pub mod Files
mod Tests
use operating_system_assignm.Prelude.{
  ℕ, zero, suc, ◌+◌, ◌%◌, ◌^◌, ltb, Bool, true, false, ◌&&◌, ◌==◌, if◌then◌else◌, Option, none,
  some, List, [], ◌∷◌, get_or, length,
}
use operating_system_assignm.Scan.{Text, scan_us, scan_s}
use operating_system_assignm.Cpu.{Opcode, calc, alloc, free, read, write, Inst}

abbrev pub opt_calc : Text
opt_calc = b'c' ∷ b'a' ∷ b'l' ∷ b'c' ∷ []

abbrev pub opt_alloc : Text
opt_alloc = b'a' ∷ b'l' ∷ b'l' ∷ b'o' ∷ b'c' ∷ []

abbrev pub opt_free : Text
opt_free = b'f' ∷ b'r' ∷ b'e' ∷ b'e' ∷ []

abbrev pub opt_read : Text
opt_read = b'r' ∷ b'e' ∷ b'a' ∷ b'd' ∷ []

abbrev pub opt_write : Text
opt_write = b'w' ∷ b'r' ∷ b'i' ∷ b't' ∷ b'e' ∷ []

-- `!strcmp (…)`
pub same : Text → Text → Bool
same [] [] = true
same [] (d ∷ t) = false
same (c ∷ s) [] = false
same (c ∷ s) (d ∷ t) = (c == d) && same s t

-- `none` is the call of `exit`.
unfoldable pub get_opcode : Text → Option Opcode
unfolding same
get_opcode opt =
    if same opt opt_calc
    then some calc
    else if same opt opt_alloc
    then some alloc
    else if same opt opt_free
    then some free
    else if same opt opt_read
    then some read
    else if same opt opt_write
    then some write
    else none

-- What `load` sets of a `struct pcb_t`.
pub record Pcb : Type 0 where
  pub pid : ℕ
  pub bp : ℕ
  pub pc : ℕ
  pub priority : ℕ
  pub size : ℕ
  pub text : List Inst

-- The process, the call of `exit`, or a word that is too long for `opcode`, which C writes past its
-- end.
pub data Loading (A : Type 0) : Type 0 where
  loaded : A → Loading A
  exits : Loading A
  overruns : Loading A

-- `char opcode[10]`
abbrev pub opcode_len : ℕ
opcode_len = 10

-- The memory of the new process before it is filled: its numbers, the array of its instructions,
-- and the variable `opcode`.
pub record Raw : Type 0 where
  pub priority : ℕ
  pub size : ℕ
  pub text : ℕ → Inst
  pub opcode : Text

-- The `switch`: the arguments of an instruction.
unfoldable pub read_args : Opcode → Inst → Text → Inst × Text
read_args calc ins s = (record ins { opcode = calc }, s)
read_args alloc ins s =
    let (ns, rest) = scan_us 32 (ins.arg_0 ∷ ins.arg_1 ∷ []) s in
    (record ins { opcode = alloc; arg_0 = get_or ns 0 0; arg_1 = get_or ns 1 0 }, rest)
read_args free ins s =
    let (ns, rest) = scan_us 32 (ins.arg_0 ∷ []) s in
    (record ins { opcode = free; arg_0 = get_or ns 0 0 }, rest)
read_args read ins s =
    let (ns, rest) = scan_us 32 (ins.arg_0 ∷ ins.arg_1 ∷ ins.arg_2 ∷ []) s in
    (
      record { opcode = read; arg_0 = get_or ns 0 0; arg_1 = get_or ns 1 0; arg_2 = get_or ns 2 0 },
      rest,
    )
read_args write ins s =
    let (ns, rest) = scan_us 32 (ins.arg_0 ∷ ins.arg_1 ∷ ins.arg_2 ∷ []) s in
    (
      record {
        opcode = write;
        arg_0 = get_or ns 0 0;
        arg_1 = get_or ns 1 0;
        arg_2 = get_or ns 2 0;
      },
      rest,
    )

-- `fscanf (file, "%s", opcode)`: at the end of the file the variable stays as it was.
abbrev pub token : Text → Option Text × Text → Text × Text
token opcode (none, rest) = (opcode, rest)
token opcode (some w, rest) = (w, rest)

abbrev pub map_loading : {A B : Type 0} → (A → B) → Loading A → Loading B
map_loading f (loaded a) = loaded (f a)
map_loading f exits = exits
map_loading f overruns = overruns

-- An instruction is read, and `more` reads those after it.
read_inst :
    Inst → Text → Option Opcode → Text → (Text → Text → Loading (List Inst)) → Loading (List Inst)
unfolding read_args
read_inst ins opcode none s more = exits
read_inst ins opcode (some op) s more =
    let (ins', rest) = read_args op ins s in map_loading (λ l. ins' ∷ l) (more opcode rest)

read_line : Inst → Text × Text → (Text → Text → Loading (List Inst)) → Loading (List Inst)
unfolding read_inst
read_line ins (opcode, s) more =
    if ltb (length opcode) opcode_len
    then read_inst ins opcode (get_opcode opcode) s more
    else overruns

-- The loop, at instruction `i`, with `left` of them to read.
pub read_text : (ℕ → Inst) → ℕ → ℕ → Text → Text → Loading (List Inst)
unfolding read_line
read_text raw zero i opcode s = loaded []
read_text raw (suc left) i opcode s =
    read_line (raw i) (token opcode (scan_s s)) (read_text raw left (i + 1))

abbrev pub page_size : ℕ
page_size = 1024

-- After `"%u %u"`, which assigns to the priority and the size.
read_code : Raw → ℕ → List ℕ × Text → Loading Pcb
unfolding read_text
read_code raw pid (ns, s) =
    map_loading
      (λ l. record {
        pid = pid;
        bp = page_size;
        pc = 0;
        priority = get_or ns 0 0;
        size = get_or ns 1 0;
        text = l;
      })
      (read_text raw.text (get_or ns 1 0) 0 raw.opcode s)

-- `avail_pid` is given and returned.
unfoldable pub load : Raw → ℕ → Option Text → Loading Pcb × ℕ
unfolding read_code
load raw avail_pid none = (exits, (avail_pid + 1) % 2 ^ 32)
load raw avail_pid (some file) = (
  read_code raw avail_pid (scan_us 32 (raw.priority ∷ raw.size ∷ []) file),
  (avail_pid + 1) % 2 ^ 32,
)
