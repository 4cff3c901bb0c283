-- ===== src/Scan/Args.antt =====
-- Numbers with white space before each, as src/loader.c and src/os.c read them.
use operating_system_assignm.Prelude.{
  ℕ, ◌^◌, ◌≡◌, ◌≢◌, refl, arith, List, [], ◌∷◌, ◌++◌, length, AllBelow,
}
use operating_system_assignm.Scan.{Text, scan_us, scan_each}
use operating_system_assignm.Scan.Decimal.{
  print_u, Spaces, Stops, Ends, scan_u-print_u, scan_u-Spaces,
}

-- `gap` stands before each number, and `t` behind the last one.
abbrev pub print_args : Text → List ℕ → Text → Text
print_args gap [] t = t
print_args gap (n ∷ ns) t = gap ++ (print_u n ++ print_args gap ns t)

pub Spaces-stop : (gap s : Text) → Spaces gap → gap ≢ [] → Stops (gap ++ s)
Spaces-stop [] s h ne = absurd (ne refl)
Spaces-stop (c ∷ gap) s h ne = ground (arith, h.0)

pub Spaces-end : (gap s : Text) → Spaces gap → gap ≢ [] → Ends (gap ++ s)
Spaces-end [] s h ne = absurd (ne refl)
Spaces-end (c ∷ gap) s h ne = h.0

pub Spaces-Stops : (s : Text) → Spaces s → Stops s
Spaces-Stops [] h = tt
Spaces-Stops (c ∷ s) h = ground (arith, h.0)

pub Spaces-Ends : (s : Text) → Spaces s → Ends s
Spaces-Ends [] h = tt
Spaces-Ends (c ∷ s) h = h.0

module _ (gap : Text) (spaces : Spaces gap) (gap_ne : gap ≢ []) where
  pub args_stop : (ns : List ℕ) (t : Text) → Stops t → Stops (print_args gap ns t)
  args_stop [] t h = h
  args_stop (n ∷ ns) t h = Spaces-stop gap _ spaces gap_ne

  pub args_end : (ns : List ℕ) (t : Text) → Ends t → Ends (print_args gap ns t)
  args_end [] t h = h
  args_end (n ∷ ns) t h = Spaces-end gap _ spaces gap_ne

  pub scan_us-print_args :
      (bits : ℕ) (olds ns : List ℕ) (t : Text)
      → length olds ≡ length ns
      → AllBelow (2 ^ bits) ns
      → Stops t
      → scan_us bits olds (print_args gap ns t) ≡ (ns, t)
  unfolding scan_us
  scan_us-print_args bits [] [] t l h s = refl
  scan_us-print_args bits [] (n ∷ ns) t l h s = absurd (omega arith)
  scan_us-print_args bits (old ∷ olds) [] t l h s = absurd (omega arith)
  scan_us-print_args bits (old ∷ olds) (n ∷ ns) t l h s =
      rw
        (
          scan_u-Spaces bits gap (print_u n ++ print_args gap ns t) spaces,
          scan_u-print_u bits n (print_args gap ns t) h.0 (args_stop ns t s),
          scan_us-print_args bits olds ns t (omega arith) h.1 s,
        )
        refl

  pub scan_each-print_args :
      (bits : ℕ) (olds ns : List ℕ) (t : Text)
      → length olds ≡ length ns
      → AllBelow (2 ^ bits) ns
      → Stops t
      → scan_each bits olds (print_args gap ns t) ≡ (ns, t)
  unfolding scan_each
  scan_each-print_args bits [] [] t l h s = refl
  scan_each-print_args bits [] (n ∷ ns) t l h s = absurd (omega arith)
  scan_each-print_args bits (old ∷ olds) [] t l h s = absurd (omega arith)
  scan_each-print_args bits (old ∷ olds) (n ∷ ns) t l h s =
      rw
        (
          scan_u-Spaces bits gap (print_u n ++ print_args gap ns t) spaces,
          scan_u-print_u bits n (print_args gap ns t) h.0 (args_stop ns t s),
          scan_each-print_args bits olds ns t (omega arith) h.1 s,
        )
        refl
