-- ===== src/Scan/Decimal.antt =====
-- Decimal numbers, and what `fscanf` of src/loader.c reads of them.
use native.Mathlib.Nat.{mod-eq_of_lt}
use operating_system_assignm.Prelude.{
  ℕ, zero, suc, ◌+◌, ◌/◌, ◌%◌, ◌^◌, ◌<◌, ◌≡◌, ◌≢◌, refl, ◌∙◌, ltb, true, false, if◌then◌else◌, none,
  some, [], ◌∷◌, ◌++◌, arith, ap, Bool-cases, inl, inr,
}
use operating_system_assignm.Scan.{
  Text, is_space, is_digit, skip, number, unsigned, signed, scan_u, word, scan_s, at_word,
}

-- The digits of `n` in front of `s`, with fuel.
digits : ℕ → ℕ → Text → Text
digits zero n s = s
digits (suc fuel) n s =
    let more = digits fuel (n / 10) ((b'0' + n % 10) ∷ s) in
    if ltb n 10 then (b'0' + n) ∷ s else more

unfoldable pub print_u : ℕ → Text
unfolding digits
print_u n = digits (suc n) n []

-- A text that no digit begins.
abbrev pub Stops : Text → Type 0
Stops [] = Unit {0}
Stops (c ∷ s) = is_digit c ≡ false

number-Stops : (n : ℕ) (s : Text) → Stops s → number n s ≡ (n, s)
unfolding number
number-Stops n [] h = refl
number-Stops n (c ∷ s) h = rw h refl

number-digits : (fuel n : ℕ) (s : Text) → n < fuel → number 0 (digits fuel n s) ≡ number n s
unfolding number digits
number-digits zero n s h = absurd (omega arith)
number-digits (suc fuel) n s h = elim (Bool-cases (ltb n 10)) [
  | inl e ↦ rw e (ground arith)
  | inr e ↦ rw e (number-digits fuel (n / 10) ((b'0' + n % 10) ∷ s) (ground arith) ∙ ground arith)
]

digits-append : (fuel n : ℕ) (s t : Text) → digits fuel n s ++ t ≡ digits fuel n (s ++ t)
unfolding digits
digits-append zero n s t = refl
digits-append (suc fuel) n s t = elim (Bool-cases (ltb n 10)) [
  | inl e ↦ rw e refl
  | inr e ↦ rw e (digits-append fuel (n / 10) ((b'0' + n % 10) ∷ s) t)
]

-- The first digit.
digits-head :
    (fuel n : ℕ) (s : Text)
    → n < fuel
    → (c : ℕ) × (r : Text) × (digits fuel n s ≡ c ∷ r) × (is_digit c ≡ true)
unfolding digits
digits-head zero n s h = absurd (omega arith)
digits-head (suc fuel) n s h = elim (Bool-cases (ltb n 10)) [
  | inl e ↦ (b'0' + n, s, rw e refl, ground arith)
  | inr e ↦ rw e (digits-head fuel (n / 10) ((b'0' + n % 10) ∷ s) (ground arith))
]

skip-digit : (c : ℕ) (s : Text) → is_digit c ≡ true → skip (c ∷ s) ≡ c ∷ s
unfolding skip
skip-digit c s d = ground arith

signed-digit :
    (bits n c : ℕ) (s t : Text)
    → is_digit c ≡ true
    → number 0 (c ∷ s) ≡ (n, t)
    → n % 2 ^ bits ≡ n
    → signed bits (c ∷ s) ≡ (some n, t)
unfolding signed unsigned
signed-digit bits n c s t d h l = ground arith

scan_u-digits :
    (bits n : ℕ) (s t : Text)
    → ((c : ℕ) × (r : Text) × (s ≡ c ∷ r) × (is_digit c ≡ true))
    → number 0 s ≡ (n, t)
    → n < 2 ^ bits
    → scan_u bits s ≡ (some n, t)
unfolding scan_u
scan_u-digits bits n s t (c, r, e, d) h l =
    rw (e, skip-digit c r d) (signed-digit bits n c r t d (rw e at h) (mod-eq_of_lt l))

pub scan_u-print_u :
    (bits n : ℕ) (t : Text) → n < 2 ^ bits → Stops t → scan_u bits (print_u n ++ t) ≡ (some n, t)
unfolding print_u
scan_u-print_u bits n t l h = rw (digits-append (suc n) n [] t) (
    scan_u-digits bits n _ t (digits-head (suc n) n t (omega arith))
      (number-digits (suc n) n t (omega arith) ∙ number-Stops n t h) l)

-- A text of white space.
abbrev pub Spaces : Text → Type 0
Spaces [] = Unit {0}
Spaces (c ∷ s) = (is_space c ≡ true) × Spaces s

pub skip-Spaces : (gap s : Text) → Spaces gap → skip (gap ++ s) ≡ skip s
unfolding skip
skip-Spaces [] s h = refl
skip-Spaces (c ∷ gap) s h = rw (h.0) (skip-Spaces gap s h.1)

-- White space before a conversion.
pub scan_u-Spaces : (bits : ℕ) (gap s : Text) → Spaces gap → scan_u bits (gap ++ s) ≡ scan_u bits s
unfolding scan_u
scan_u-Spaces bits gap s h = ap (signed bits) (skip-Spaces gap s h)

pub scan_s-Spaces : (gap s : Text) → Spaces gap → scan_s (gap ++ s) ≡ scan_s s
unfolding scan_s
scan_s-Spaces gap s h = ap at_word (skip-Spaces gap s h)

-- A text without white space, which is not empty.
abbrev pub Solid : Text → Type 0
Solid [] = Unit {0}
Solid (c ∷ s) = (is_space c ≡ false) × Solid s

abbrev pub Ends : Text → Type 0
Ends [] = Unit {0}
Ends (c ∷ s) = is_space c ≡ true

word-solid : (w t : Text) → Solid w → Ends t → word (w ++ t) ≡ (w, t)
unfolding word
word-solid [] [] h e = refl
word-solid [] (c ∷ t) h e = rw e refl
word-solid (c ∷ w) t h e = rw (h.0, word-solid w t h.1 e) refl

pub scan_s-word : (w t : Text) → Solid w → w ≢ [] → Ends t → scan_s (w ++ t) ≡ (some w, t)
unfolding scan_s skip at_word
scan_s-word [] t h ne e = absurd (ne refl)
scan_s-word (c ∷ w) t h ne e = rw (h.0, word-solid (c ∷ w) t h e) refl

-- At the end of a file.
pub scan_u-end : (bits : ℕ) (s : Text) → Spaces s → scan_u bits s ≡ (none, [])
unfolding scan_u signed skip
scan_u-end bits [] h = refl
scan_u-end bits (c ∷ s) h = rw (h.0) (scan_u-end bits s h.1)

pub scan_s-end : (s : Text) → Spaces s → scan_s s ≡ (none, [])
unfolding scan_s at_word skip
scan_s-end [] h = refl
scan_s-end (c ∷ s) h = rw (h.0) (scan_s-end s h.1)
