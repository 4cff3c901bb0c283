-- ===== src/Pte/Masks.antt =====
-- The macros GETVAL and SETVAL of include/mm.h, GENMASK of include/bitops.h, with their masks.
use Prim.Native.Nat.{bit_and, bit_or}
use native.Mathlib.Nat.{mul-div_cancel}
use operating_system_assignm.Prelude.{
  ℕ, zero, suc, ◌+◌, ◌≤◌, ◌&&◌, ◌==◌, Bool, true, Bool-cases, ==→eq, refl, ltb, inl, inr, ◌-◌, ◌*◌,
  ◌/◌, ◌%◌, ◌^◌, ◌<◌, ◌≡◌, ap, ◌∙◌, arith,
}
use operating_system_assignm.Prelude.Bits.{
  pow_pos, bit_and-ones, bit_and-shift, bit_and-rest, bit_or-apart, bit_and-apart, bit_and-cut,
}
use operating_system_assignm.Pte.{get_val, set_val}

-- GENMASK (lo + w - 1, lo), on 32 bits: the ones from bit `lo` on, and those up to bit
-- `lo + w - 1`.
abbrev pub genmask : ℕ → ℕ → ℕ
genmask lo w = bit_and ((2 ^ 32 - 1) * 2 ^ lo % 2 ^ 32) ((2 ^ 32 - 1) / 2 ^ (32 - (lo + w)))

all_below : ℕ → (ℕ → Bool) → Bool
all_below zero test = true
all_below (suc n) test = test n && all_below n test

all_below-at : (n : ℕ) (test : ℕ → Bool) (i : ℕ) → all_below n test ≡ true → i < n → test i ≡ true
unfolding all_below
all_below-at zero test i h l = absurd (omega arith)
all_below-at (suc n) test i h l = elim (Bool-cases (i == n)) [
  | inl last ↦ rw (==→eq i n last) (ground (arith, h))
  | inr before ↦ all_below-at n test i (ground (arith, h)) (ground (arith, before))
]

is_field : ℕ → ℕ → Bool
is_field lo w = genmask lo w == (2 ^ w - 1) * 2 ^ lo && ltb (genmask lo w) (2 ^ 32)

every_field : all_below 33 (λ lo. all_below (33 - lo) (is_field lo)) ≡ true
unfolding all_below is_field
every_field = refl

-- A mask in 32 bits has `w` ones from bit `lo` on.
genmask_lem :
    (lo w : ℕ) → lo + w ≤ 32 → (genmask lo w ≡ (2 ^ w - 1) * 2 ^ lo) × (genmask lo w < 2 ^ 32)
unfolding is_field
genmask_lem lo w h =
    let here =
      all_below-at (33 - lo) (is_field lo) w
        (all_below-at 33 (λ l. all_below (33 - l) (is_field l)) lo every_field (omega arith))
        (omega arith) in
    split (genmask lo w) ((2 ^ w - 1) * 2 ^ lo) here
  where
    split : (x y : ℕ) → (x == y && ltb x (2 ^ 32)) ≡ true → (x ≡ y) × (x < 2 ^ 32)
    split x y e = ground (arith, e)

-- `(v & mask) >> lo`
abbrev pub masked_get : ℕ → ℕ → ℕ → ℕ
masked_get v lo w = bit_and v (genmask lo w) / 2 ^ lo

-- `(v & ~mask) | ((value << lo) & mask)`, on 32 bits.
abbrev pub masked_set : ℕ → ℕ → ℕ → ℕ → ℕ
masked_set v value lo w =
    bit_or (bit_and v (2 ^ 32 - 1 - genmask lo w))
      (bit_and (value * 2 ^ lo % 2 ^ 32) (genmask lo w))

field : (v lo w : ℕ) → lo + w ≤ 32 → bit_and v (genmask lo w) ≡ v / 2 ^ lo % 2 ^ w * 2 ^ lo
field v lo w h =
    rw ((genmask_lem lo w h).0)
      (bit_and-shift lo v (2 ^ w - 1) ∙ ap (λ x. x * 2 ^ lo) (bit_and-ones w (v / 2 ^ lo)))

-- On a 32-bit number and the mask of a field inside of 32 bits, GETVAL and SETVAL with their masks,
-- shifts and bit operations give the same as the division and the sum that stand for them in the
-- model.
pub masked_lem :
    (v value lo w : ℕ)
    → v < 2 ^ 32
    → lo + w ≤ 32
    → (masked_get v lo w ≡ get_val v lo w) × (masked_set v value lo w ≡ set_val v value lo w)
masked_lem v value lo w a h = (
  ap (λ x. x / 2 ^ lo) (field v lo w h) ∙ mul-div_cancel (v / 2 ^ lo % 2 ^ w) (pow_pos lo),
  let b = (genmask_lem lo w h).1 in
      let split = bit_and-rest 32 v (genmask lo w) a b in
      bit_or-apart 32 (bit_and v (2 ^ 32 - 1 - genmask lo w))
        (bit_and (value * 2 ^ lo % 2 ^ 32) (genmask lo w)) (omega (arith, split))
        (bit_and-apart 32 v (value * 2 ^ lo % 2 ^ 32) (genmask lo w) b)
      ∙ omega (
        arith,
        split,
        field v lo w h,
        bit_and-cut 32 (value * 2 ^ lo) (genmask lo w) b,
        field (value * 2 ^ lo) lo w h,
        ap (λ x. x % 2 ^ w * 2 ^ lo) (mul-div_cancel value (pow_pos lo)),
      ),
)
