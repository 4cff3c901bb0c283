-- ===== src/Loader/Files.antt =====
-- Whole process files of src/loader.c: those of the size that they announce, shorter ones, and
-- those with a word that is no opcode.
use native.Mathlib.Nat.{add-zero}
use mathlib.Core.List.{append-nil}
use operating_system_assignm.Prelude.{
  ℕ, zero, suc, ◌+◌, ◌%◌, ◌^◌, ◌<◌, ◌≡◌, ◌≢◌, refl, ◌∙◌, ap, sym, none, some, List, [], ◌∷◌, ◌++◌,
  length, ltb, Bool, true, false, if◌then◌else◌, arith,
}
use operating_system_assignm.Cpu.{Opcode, calc, alloc, free, read, write, Inst}
use operating_system_assignm.Scan.{Text, scan_us, scan_u, signed, skip}
use operating_system_assignm.Scan.Decimal.{
  Spaces, Solid, Ends, scan_s-end, scan_s-Spaces, scan_s-word,
}
use operating_system_assignm.Scan.Args.{Spaces-stop, Spaces-end, Spaces-Stops, Spaces-Ends}
use operating_system_assignm.Loader.{
  Raw, loaded, exits, overruns, get_opcode, opcode_len, page_size, read_args, map_loading,
  read_inst, read_line, read_text, load,
}
use operating_system_assignm.Loader.Print.{Line, opcode_of, name, AllFit, placed_all, print_file}
use operating_system_assignm.Loader.RoundTrip.{
  get_opcode-name, name_short, last_name, load-print_file,
}

-- `extra` instructions from the one at `i` on, of which only the opcode is set.
abbrev pub repeats : (ℕ → Inst) → Opcode → ℕ → ℕ → List Inst
repeats raw op zero i = []
repeats raw op (suc extra) i = record (raw i) { opcode = op } ∷ repeats raw op extra (i + 1)

-- The opcode of the last line.
abbrev pub last_opcode : Line → List Line → Opcode
last_opcode l [] = opcode_of l
last_opcode l (k ∷ ls) = last_opcode k ls

last_name_lem :
    (opcode : Text) (l : Line) (ls : List Line)
    → last_name opcode (l ∷ ls) ≡ name (last_opcode l ls)
last_name_lem opcode l [] = refl
last_name_lem opcode l (k ∷ ls) = last_name_lem (name (opcode_of l)) k ls

read_args-nil : (op : Opcode) (ins : Inst) → read_args op ins [] ≡ (record ins { opcode = op }, [])
unfolding read_args scan_us scan_u signed skip
read_args-nil calc ins = refl
read_args-nil alloc ins = refl
read_args-nil free ins = refl
read_args-nil read ins = refl
read_args-nil write ins = refl

-- Behind the last word of a file, `opcode` keeps its value.
read_text-end :
    (raw : ℕ → Inst) (op : Opcode) (extra i : ℕ) (end : Text)
    → Spaces end
    → read_text raw extra i (name op) end ≡ loaded (repeats raw op extra i)
unfolding read_text
read_text-end raw op zero i end h = refl
read_text-end raw op (suc extra) i end h =
    rw
      (
        scan_s-end end h,
        read_line,
        name_short op,
        get_opcode-name op,
        read_args-nil op (raw i),
        read_text-end raw op extra (i + 1) [] tt,
      )
      refl

map_loading-if :
    {A B : Type 0} (f : A → B) (b : Bool)
    → map_loading f (if b then exits else overruns) ≡ (if b then exits else overruns)
map_loading-if f true = refl
map_loading-if f false = refl

module _ (gap : Text) (spaces : Spaces gap) (gap_ne : gap ≢ []) (raw : Raw) (pid priority : ℕ)
    (fits : priority < 2 ^ 32) where
  -- Let the parts of a file stand apart by white space and its numbers fit 32 bits. From a printed
  -- process file load makes a process with the number, the priority and exactly the instructions
  -- that were printed, and takes the next number.
  pub load-print :
      (end : Text) (ls : List Line)
      → Spaces end
      → length ls < 2 ^ 32
      → AllFit ls
      → load raw pid (some (print_file gap end priority (length ls) ls)) ≡ (
        loaded (record {
          pid = pid;
          bp = page_size;
          pc = 0;
          priority = priority;
          size = length ls;
          text = placed_all raw.text 0 ls;
        }),
        (pid + 1) % 2 ^ 32,
      )
  unfolding read_text
  load-print end ls ends l h =
      ap (λ n. load raw pid (some (print_file gap end priority n ls))) (sym (add-zero (length ls)))
      ∙ load-print_file gap end spaces gap_ne (Spaces-Stops end ends) (Spaces-Ends end ends) raw pid
          priority 0 ls fits (omega arith) h
      ∙ rw (add-zero, append-nil) refl

  -- Let the parts of a file stand apart by white space and its numbers fit 32 bits. From a process
  -- file with at least one instruction that announces more than it has, load makes a process of the
  -- announced size; the missing instructions repeat the opcode of the last line, with what their
  -- memory held as arguments.
  pub load_short :
      (end : Text) (extra : ℕ) (l : Line) (ls : List Line)
      → Spaces end
      → length (l ∷ ls) + extra < 2 ^ 32
      → AllFit (l ∷ ls)
      → load raw pid (some (print_file gap end priority (length (l ∷ ls) + extra) (l ∷ ls))) ≡ (
        loaded (record {
          pid = pid;
          bp = page_size;
          pc = 0;
          priority = priority;
          size = length (l ∷ ls) + extra;
          text =
              placed_all raw.text 0 (l ∷ ls)
              ++ repeats raw.text (last_opcode l ls) extra (length (l ∷ ls));
        }),
        (pid + 1) % 2 ^ 32,
      )
  load_short end extra l ls ends b h =
      load-print_file gap end spaces gap_ne (Spaces-Stops end ends) (Spaces-Ends end ends) raw pid
        priority extra (l ∷ ls) fits b h
      ∙ rw
          (
            last_name_lem raw.opcode l ls,
            read_text-end raw.text (last_opcode l ls) extra (length (l ∷ ls)) end ends,
          )
          refl

  -- Let the parts of a file stand apart by white space and its numbers fit 32 bits. Where a word
  -- that is no opcode stands behind some printed instructions, load leaves the simulator, or writes
  -- past the end of its variable if the word has ten characters or more.
  pub load_bad_word :
      (left : ℕ) (w rest : Text) (ls : List Line)
      → length ls + suc left < 2 ^ 32
      → AllFit ls
      → Solid w
      → w ≢ []
      → Ends rest
      → get_opcode w ≡ none
      → load raw pid (some (print_file gap (gap ++ (w ++ rest)) priority (length ls + suc left) ls))
        ≡ (if ltb (length w) opcode_len then exits else overruns, (pid + 1) % 2 ^ 32)
  unfolding read_text read_line
  load_bad_word left w rest ls b h solid ne e bad =
      load-print_file gap (gap ++ (w ++ rest)) spaces gap_ne (Spaces-stop gap _ spaces gap_ne)
        (Spaces-end gap _ spaces gap_ne) raw pid priority (suc left) ls fits b h
      ∙ rw
          (
            scan_s-Spaces gap (w ++ rest) spaces,
            scan_s-word w rest solid ne e,
            read_line,
            bad,
            read_inst,
          )
          (ap (λ o. (o, (pid + 1) % 2 ^ 32)) (map_loading-if _ (ltb (length w) opcode_len)))
