-- ===== src/Scan.antt =====
-- What src/loader.c and src/os.c use of `fscanf`: `%u` (and `%lu`, and `%d` for an `int` as a number of 32 bits), `%s`, and white space.
pub mod Decimal
pub mod Args
use operating_system_assignm.Prelude.{
  ℕ, ◌+◌, ◌-◌, ◌*◌, ◌%◌, ◌^◌, leb, Bool, true, false, ◌&&◌, ◌||◌, ◌==◌, if◌then◌else◌, Option, none,
  some, or_else, List, [], ◌∷◌,
}

abbrev pub Text : Type 0
Text = List ℕ

-- As `isspace`: a blank, or one of the characters 9 to 13.
abbrev pub is_space : ℕ → Bool
is_space c = (c == b' ') || (leb 9 c && leb c 13)

abbrev pub is_digit : ℕ → Bool
is_digit c = leb b'0' c && leb c b'9'

unfoldable pub skip : Text → Text
skip [] = []
skip (c ∷ s) = if is_space c then skip s else c ∷ s

-- The digits at the front, after those that make up `n`.
unfoldable pub number : ℕ → Text → ℕ × Text
number n [] = (n, [])
number n (c ∷ s) = if is_digit c then number (n * 10 + (c - b'0')) s else (n, c ∷ s)

-- The type of the variable has `bits` bits. A number that does not fit 64 bits is not considered.
unfoldable pub unsigned : ℕ → Text → Option ℕ × Text
unsigned bits [] = (none, [])
unsigned bits (c ∷ s) =
    let (n, rest) = number 0 (c ∷ s) in
    if is_digit c then (some (n % 2 ^ bits), rest) else (none, c ∷ s)

negated : ℕ → Option ℕ × Text → Option ℕ × Text
negated bits (none, s) = (none, s)
negated bits (some n, s) = (some ((2 ^ bits - n) % 2 ^ bits), s)

unfoldable pub signed : ℕ → Text → Option ℕ × Text
unfolding negated
signed bits [] = (none, [])
signed bits (c ∷ s) =
    if c == b'-'
    then negated bits (unsigned bits s)
    else if c == b'+'
    then unsigned bits s
    else unsigned bits (c ∷ s)

-- `%u`: the number that is assigned, if any, and the rest of the file.
unfoldable pub scan_u : ℕ → Text → Option ℕ × Text
scan_u bits s = signed bits (skip s)

-- The variable and those after it, which `more` reads if this one was read.
pub assign : ℕ → List ℕ → (Text → List ℕ × Text) → Option ℕ × Text → List ℕ × Text
assign old olds more (none, rest) = (old ∷ olds, rest)
assign old olds more (some n, rest) = let (ns, rest') = more rest in (n ∷ ns, rest')

-- `%u ... %u` into variables that hold `olds`. A `\n` after it is left out: it skips white space,
-- which the next conversion skips as well.
unfoldable pub scan_us : ℕ → List ℕ → Text → List ℕ × Text
unfolding assign
scan_us bits [] s = ([], s)
scan_us bits (old ∷ olds) s = assign old olds (scan_us bits olds) (scan_u bits s)

-- A call of `fscanf` with one `%u` for each variable; one that fails does not stop the next.
unfoldable pub scan_each : ℕ → List ℕ → Text → List ℕ × Text
scan_each bits [] s = ([], s)
scan_each bits (old ∷ olds) s =
    let (o, rest) = scan_u bits s in
    let (ns, rest') = scan_each bits olds rest in (or_else o old ∷ ns, rest')

-- The characters up to the next white space.
unfoldable pub word : Text → Text × Text
word [] = ([], [])
word (c ∷ s) = let (w, rest) = word s in if is_space c then ([], c ∷ s) else (c ∷ w, rest)

pub at_word : Text → Option Text × Text
at_word [] = (none, [])
at_word (c ∷ s) = let (w, rest) = word (c ∷ s) in (some w, rest)

-- `%s`
unfoldable pub scan_s : Text → Option Text × Text
unfolding at_word
scan_s s = at_word (skip s)
