-- ===== src/Loader/RoundTrip.antt =====
-- What src/loader.c reads of the lines of a process file.
use native.Mathlib.Nat.{zero-add}
use operating_system_assignm.Prelude.{
  ℕ, suc, ◌+◌, ◌%◌, ◌^◌, ◌<◌, ◌≡◌, ◌≢◌, refl, ◌∙◌, ap, sym, some, List, [], ◌∷◌, ◌++◌, length, ltb,
  true, arith, AllBelow,
}
use operating_system_assignm.Cpu.{Opcode, calc, alloc, free, read, write, Inst}
use operating_system_assignm.Scan.{Text, scan_us, assign, scan_s}
use operating_system_assignm.Scan.Decimal.{
  Spaces, Stops, Ends, Solid, scan_u-print_u, scan_s-Spaces, scan_s-word,
}
use operating_system_assignm.Scan.Args.{
  print_args, Spaces-stop, Spaces-end, args_stop, args_end, scan_us-print_args,
}
use operating_system_assignm.Loader.{
  Raw, Loading, loaded, exits, overruns, get_opcode, opcode_len, read_args, map_loading, read_inst,
  read_line, read_text, read_code, load, page_size,
}
use operating_system_assignm.Loader.Print.{
  Line, opcode_of, args_of, name, AllFit, placed, placed_all, print_lines, print_file,
}

name_solid : (op : Opcode) → Solid (name op) × (name op ≢ [])
name_solid calc = ground arith
name_solid alloc = ground arith
name_solid free = ground arith
name_solid read = ground arith
name_solid write = ground arith

pub get_opcode-name : (op : Opcode) → get_opcode (name op) ≡ some op
unfolding get_opcode
get_opcode-name calc = refl
get_opcode-name alloc = refl
get_opcode-name free = refl
get_opcode-name read = refl
get_opcode-name write = refl

pub name_short : (op : Opcode) → ltb (length (name op)) opcode_len ≡ true
name_short calc = refl
name_short alloc = refl
name_short free = refl
name_short read = refl
name_short write = refl

map_loading-id : {A : Type 0} (o : Loading A) → map_loading (λ a. a) o ≡ o
map_loading-id (loaded a) = refl
map_loading-id exits = refl
map_loading-id overruns = refl

map_loading-map_loading :
    {A B C : Type 0} (f : B → C) (g : A → B) (o : Loading A)
    → map_loading f (map_loading g o) ≡ map_loading (λ a. f (g a)) o
map_loading-map_loading f g (loaded a) = refl
map_loading-map_loading f g exits = refl
map_loading-map_loading f g overruns = refl

-- The instructions of the lines and `extra` more.
abbrev pub rounds : List Line → ℕ → ℕ
rounds [] extra = extra
rounds (l ∷ ls) extra = suc (rounds ls extra)

rounds_lem : (ls : List Line) (extra : ℕ) → length ls + extra ≡ rounds ls extra
rounds_lem [] extra = omega arith
rounds_lem (l ∷ ls) extra = omega (arith, rounds_lem ls extra)

-- What the variable `opcode` holds after the lines.
abbrev pub last_name : Text → List Line → Text
last_name opcode [] = opcode
last_name opcode (l ∷ ls) = last_name (name (opcode_of l)) ls

module _ (gap end : Text) (spaces : Spaces gap) (gap_ne : gap ≢ []) (stops : Stops end)
    (ends : Ends end) where
  lines_stop : (ls : List Line) → Stops (print_lines gap end ls)
  lines_stop [] = stops
  lines_stop (l ∷ ls) = Spaces-stop gap _ spaces gap_ne

  lines_end : (ls : List Line) → Ends (print_lines gap end ls)
  lines_end [] = ends
  lines_end (l ∷ ls) = Spaces-end gap _ spaces gap_ne

  read_args-print_args :
      (l : Line) (ins : Inst) (t : Text)
      → AllBelow (2 ^ 32) (args_of l)
      → Stops t
      → read_args (opcode_of l) ins (print_args gap (args_of l) t) ≡ (placed ins l, t)
  unfolding read_args
  read_args-print_args Line.calc ins t h s = refl
  read_args-print_args (Line.alloc a b) ins t h s =
      rw
        (scan_us-print_args gap spaces gap_ne 32 (ins.arg_0 ∷ ins.arg_1 ∷ []) (a ∷ b ∷ []) t refl h
          s)
        refl
  read_args-print_args (Line.free a) ins t h s =
      rw (scan_us-print_args gap spaces gap_ne 32 (ins.arg_0 ∷ []) (a ∷ []) t refl h s) refl
  read_args-print_args (Line.read a b c) ins t h s =
      rw
        (scan_us-print_args gap spaces gap_ne 32 (ins.arg_0 ∷ ins.arg_1 ∷ ins.arg_2 ∷ [])
          (a ∷ b ∷ c ∷ []) t refl h s)
        refl
  read_args-print_args (Line.write a b c) ins t h s =
      rw
        (scan_us-print_args gap spaces gap_ne 32 (ins.arg_0 ∷ ins.arg_1 ∷ ins.arg_2 ∷ [])
          (a ∷ b ∷ c ∷ []) t refl h s)
        refl

  -- One line.
  read_line-name :
      (l : Line) (ins : Inst) (t : Text) (more : Text → Text → Loading (List Inst))
      → AllBelow (2 ^ 32) (args_of l)
      → Stops t
      → read_line ins (name (opcode_of l), print_args gap (args_of l) t) more
        ≡ map_loading (λ k. placed ins l ∷ k) (more (name (opcode_of l)) t)
  unfolding read_line read_inst
  read_line-name l ins t more h s =
      rw (name_short (opcode_of l), get_opcode-name (opcode_of l), read_args-print_args l ins t h s)
        refl

  scan_s-line :
      (l : Line) (t : Text)
      → Ends t
      → scan_s (gap ++ (name (opcode_of l) ++ print_args gap (args_of l) t))
        ≡ (some (name (opcode_of l)), print_args gap (args_of l) t)
  scan_s-line l t e =
      scan_s-Spaces gap _ spaces
      ∙ scan_s-word (name (opcode_of l)) (print_args gap (args_of l) t) (name_solid (opcode_of l)).0
          (name_solid (opcode_of l)).1 (args_end gap spaces gap_ne (args_of l) t e)

  -- The lines, and `extra` instructions after them.
  pub read_text-print_lines :
      (raw : ℕ → Inst) (extra i : ℕ) (opcode : Text) (ls : List Line)
      → AllFit ls
      → read_text raw (rounds ls extra) i opcode (print_lines gap end ls)
        ≡ map_loading
            (λ k. placed_all raw i ls ++ k)
            (read_text raw extra (i + length ls) (last_name opcode ls) end)
  unfolding read_text
  read_text-print_lines raw extra i opcode [] h =
      ap (λ j. read_text raw extra j opcode end) {y = i + 0} (omega arith)
      ∙ sym (map_loading-id (read_text raw extra (i + 0) opcode end))
  read_text-print_lines raw extra i opcode (l ∷ ls) h =
      rw
        (
          scan_s-line l (print_lines gap end ls) (lines_end ls),
          read_line-name l (raw i) (print_lines gap end ls)
              (read_text raw (rounds ls extra) (i + 1)) h.0 (lines_stop ls),
          read_text-print_lines raw extra (i + 1) (name (opcode_of l)) ls h.1,
        )
        (map_loading-map_loading _ _
            (read_text raw extra (i + 1 + length ls) (last_name (name (opcode_of l)) ls) end)
          ∙ ap
              (λ j.
                map_loading (λ k. placed_all raw i (l ∷ ls) ++ k)
                  (read_text raw extra j (last_name opcode (l ∷ ls)) end))
              {y = i + length (l ∷ ls)} (omega arith))

  scan_us-print_file :
      (a b priority size : ℕ) (ls : List Line)
      → priority < 2 ^ 32
      → size < 2 ^ 32
      → scan_us 32 (a ∷ b ∷ []) (print_file gap end priority size ls)
        ≡ (priority ∷ size ∷ [], print_lines gap end ls)
  unfolding scan_us
  scan_us-print_file a b priority size ls p h =
      rw
        (
          scan_u-print_u 32 priority (print_args gap (size ∷ []) (print_lines gap end ls)) p
              (args_stop gap spaces gap_ne (size ∷ []) _ (lines_stop ls)),
          assign,
          scan_us-print_args gap spaces gap_ne 32 (b ∷ []) (size ∷ []) (print_lines gap end ls) refl
              (h, tt) (lines_stop ls),
        )
        refl

  -- The file of the lines that announces `extra` instructions more.
  pub load-print_file :
      (raw : Raw) (pid priority extra : ℕ) (ls : List Line)
      → priority < 2 ^ 32
      → length ls + extra < 2 ^ 32
      → AllFit ls
      → load raw pid (some (print_file gap end priority (length ls + extra) ls)) ≡ (
        map_loading
            (λ k. record {
              pid = pid;
              bp = page_size;
              pc = 0;
              priority = priority;
              size = length ls + extra;
              text = placed_all raw.text 0 ls ++ k;
            })
            (read_text raw.text extra (length ls) (last_name raw.opcode ls) end),
        (pid + 1) % 2 ^ 32,
      )
  unfolding load read_code
  load-print_file raw pid priority extra ls p l h =
      rw
        (
          scan_us-print_file raw.priority raw.size priority (length ls + extra) ls p l,
          rounds_lem ls extra,
          read_text-print_lines raw.text extra 0 raw.opcode ls h,
          zero-add,
          map_loading-map_loading,
        )
        refl
