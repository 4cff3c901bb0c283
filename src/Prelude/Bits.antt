-- ===== src/Prelude/Bits.antt =====
-- The operations on bits, over all widths.
use Prim.Native.Nat.{
  ℕ, zero, suc, ◌+◌, ◌-◌, ◌*◌, ◌/◌, ◌%◌, ◌^◌, ◌≤◌, ◌<◌, min, max, bit_and, bit_or, digits, bitwise,
  bit_and-bitwise, bit_or-bitwise,
}
use mathlib.Core.Path.{◌≡◌, refl, sym, ap, ◌∙◌}
use native.Mathlib.Omega.{arith}
use native.Mathlib.Nat.{
  pow-suc, mul-one, div-one, mod-lt, div-add-mod, mod-eq_of_lt, add-mul-mod_self_left,
  div-div-eq-div-mul, mul_comm, mul_assoc,
}

-- The digits of a result, of which no more are computed than the first number has. Where that has
-- run out, `rest` gives what comes of the other.
module _ (rest : ℕ → ℕ) (op : ℕ → ℕ → ℕ)
    (runs_out : (k : ℕ) → rest k ≡ rest (k / 2) * 2 + op 0 (k % 2)) where
  spare : (n x y : ℕ) → x ≤ n → digits rest op (suc n) x y ≡ digits rest op n x y
  spare zero zero y h = refl
  spare zero (suc x) y h = absurd (omega arith)
  spare (suc n) zero y h = refl
  spare (suc n) (suc x) y h =
      ap (λ d. d * 2 + op (suc x % 2) (y % 2)) (spare n (suc x / 2) (y / 2) (omega arith))

  settled : (k x y : ℕ) → digits rest op (k + x) x y ≡ digits rest op x x y
  settled zero x y = ap (λ n. digits rest op n x y) {x = 0 + x} {y = x} (omega arith)
  settled (suc k) x y =
      ap (λ n. digits rest op n x y) {x = suc k + x} {y = suc (k + x)} (omega arith)
      ∙ spare (k + x) x y (omega arith)
      ∙ settled k x y

  next_digit :
      (x y : ℕ) → bitwise rest op x y ≡ bitwise rest op (x / 2) (y / 2) * 2 + op (x % 2) (y % 2)
  next_digit zero y = runs_out y
  next_digit (suc x) y =
      ap (λ d. d * 2 + op (suc x % 2) (y % 2))
        (ap (λ n. digits rest op n (suc x / 2) (y / 2)) {x = x} {y = x - suc x / 2 + suc x / 2}
            (omega arith)
          ∙ settled (x - suc x / 2) (suc x / 2) (y / 2))

and_by_digit : (x y : ℕ) → bit_and x y ≡ bit_and (x / 2) (y / 2) * 2 + min (x % 2) (y % 2)
and_by_digit x y =
    bit_and-bitwise x y
    ∙ next_digit (λ _. 0) min (λ k. omega arith) x y
    ∙ ap (λ d. d * 2 + min (x % 2) (y % 2)) (sym (bit_and-bitwise (x / 2) (y / 2)))

or_by_digit : (x y : ℕ) → bit_or x y ≡ bit_or (x / 2) (y / 2) * 2 + max (x % 2) (y % 2)
or_by_digit x y =
    bit_or-bitwise x y
    ∙ next_digit (λ k. k) max (λ k. omega arith) x y
    ∙ ap (λ d. d * 2 + max (x % 2) (y % 2)) (sym (bit_or-bitwise (x / 2) (y / 2)))

and_nothing : (y : ℕ) → bit_and 0 y ≡ 0
and_nothing y = bit_and-bitwise 0 y

or_nothing : (y : ℕ) → bit_or 0 y ≡ y
or_nothing y = bit_or-bitwise 0 y

pub pow_pos : (n : ℕ) → 0 < 2 ^ n
pow_pos zero = omega arith
pow_pos (suc n) = omega (arith, pow_pos n)

-- The lowest bit of a remainder, and the others.
mod_double : (m v : ℕ) → 0 < m → v % (m * 2) ≡ v / 2 % m * 2 + v % 2
mod_double m v h =
    ap (λ x. x % (m * 2)) {y = (v / 2 % m * 2 + v % 2) + m * 2 * (v / 2 / m)}
      (grind (arith, div-add-mod (v / 2) m))
    ∙ add-mul-mod_self_left (v / 2 % m * 2 + v % 2) (m * 2) (v / 2 / m)
    ∙ mod-eq_of_lt (omega (arith, mod-lt (v / 2) h))

no_bits : (n a : ℕ) → a ≤ n → bit_and a 0 ≡ 0
no_bits zero a h = ap (λ x. bit_and x 0) {x = a} {y = 0} (omega arith) ∙ and_nothing 0
no_bits (suc n) a h = omega (arith, and_by_digit a 0, no_bits n (a / 2) (omega arith))

bit_and-zero : (a : ℕ) → bit_and a 0 ≡ 0
bit_and-zero a = no_bits a a (omega arith)

pub bit_and-ones : (w v : ℕ) → bit_and v (2 ^ w - 1) ≡ v % 2 ^ w
bit_and-ones zero v = omega (arith, bit_and-zero v)
bit_and-ones (suc w) v = rw (pow-suc 2 w) (
    omega (
      arith,
      pow_pos w,
      and_by_digit v (2 ^ w * 2 - 1),
      ap (bit_and (v / 2)) {x = (2 ^ w * 2 - 1) / 2} {y = 2 ^ w - 1} (omega (arith, pow_pos w)),
      bit_and-ones w (v / 2),
      mod_double (2 ^ w) v (pow_pos w),
    ))

pub bit_and-shift : (lo v m : ℕ) → bit_and v (m * 2 ^ lo) ≡ bit_and (v / 2 ^ lo) m * 2 ^ lo
bit_and-shift zero v m = rw (mul-one m, div-one v) (sym (mul-one (bit_and v m)))
bit_and-shift (suc lo) v m =
    rw
      (
        pow-suc 2 lo,
        ← mul_assoc m (2 ^ lo) 2,
        ← mul_assoc (bit_and (v / (2 ^ lo * 2)) m) (2 ^ lo) 2,
      )
      (omega (
        arith,
        and_by_digit v (m * 2 ^ lo * 2),
        ap (bit_and (v / 2)) {x = m * 2 ^ lo * 2 / 2} {y = m * 2 ^ lo} (omega arith),
        bit_and-shift lo (v / 2) m,
        ap (λ x. bit_and x m * 2 ^ lo) {x = v / 2 / 2 ^ lo} {y = v / (2 ^ lo * 2)}
            (div-div-eq-div-mul v 2 (2 ^ lo) ∙ ap (λ x. v / x) (mul_comm 2 (2 ^ lo))),
      ))

-- The bits of a number inside and outside of a mask.
pub bit_and-rest : (n v m : ℕ) → v < 2 ^ n → m < 2 ^ n → bit_and v (2 ^ n - 1 - m) + bit_and v m ≡ v
bit_and-rest zero v m a b =
    ap (λ x. bit_and x (1 - 1 - m) + bit_and x m) {x = v} {y = 0} (omega arith)
    ∙ omega (arith, and_nothing (1 - 1 - m), and_nothing m)
bit_and-rest (suc n) v m a b = rw (pow-suc 2 n) (
    omega (
      arith,
      pow_pos n,
      and_by_digit v m,
      and_by_digit v (2 ^ n * 2 - 1 - m),
      ap (bit_and (v / 2)) {x = (2 ^ n * 2 - 1 - m) / 2} {y = 2 ^ n - 1 - m / 2}
          (omega (arith, pow_pos n)),
      bit_and-rest n (v / 2) (m / 2),
    ))

-- What stands on different bits is joined without a carry.
pub bit_or-apart : (n a b : ℕ) → a < 2 ^ n → bit_and a b ≡ 0 → bit_or a b ≡ a + b
bit_or-apart zero a b h e =
    ap (λ x. bit_or x b) {x = a} {y = 0} (omega arith) ∙ omega (arith, or_nothing b)
bit_or-apart (suc n) a b h e =
    omega (arith, and_by_digit a b, or_by_digit a b, bit_or-apart n (a / 2) (b / 2))

pub bit_and-apart :
    (n v x m : ℕ) → m < 2 ^ n → bit_and (bit_and v (2 ^ n - 1 - m)) (bit_and x m) ≡ 0
bit_and-apart zero v x m h =
    ap (λ k. bit_and (bit_and v k) (bit_and x m)) {x = 1 - 1 - m} {y = 0} (omega arith)
    ∙ ap (λ k. bit_and k (bit_and x m)) (bit_and-zero v)
    ∙ and_nothing (bit_and x m)
bit_and-apart (suc n) v x m h = rw (pow-suc 2 n) (
    let low : (2 ^ n * 2 - 1 - m) / 2 ≡ 2 ^ n - 1 - m / 2 = omega (arith, pow_pos n) in
    omega (
      arith,
      pow_pos n,
      and_by_digit (bit_and v (2 ^ n * 2 - 1 - m)) (bit_and x m),
      and_by_digit v (2 ^ n * 2 - 1 - m),
      and_by_digit x m,
      bit_and-apart n (v / 2) (x / 2) (m / 2),
      ap (λ k. bit_and k (bit_and x m / 2)) {x = bit_and v (2 ^ n * 2 - 1 - m) / 2}
          {y = bit_and (v / 2) (2 ^ n - 1 - m / 2)}
          (omega (arith, and_by_digit v (2 ^ n * 2 - 1 - m), ap (bit_and (v / 2)) low)),
      ap (bit_and (bit_and (v / 2) (2 ^ n - 1 - m / 2))) {x = bit_and x m / 2}
          {y = bit_and (x / 2) (m / 2)} (omega (arith, and_by_digit x m)),
    ))

-- A mask below 2 ^ n sees no bit from there on.
pub bit_and-cut : (n x m : ℕ) → m < 2 ^ n → bit_and (x % 2 ^ n) m ≡ bit_and x m
bit_and-cut zero x m h =
    ap (bit_and (x % 1)) {x = m} {y = 0} (omega arith)
    ∙ bit_and-zero (x % 1)
    ∙ sym (bit_and-zero x)
    ∙ ap (bit_and x) {x = 0} {y = m} (omega arith)
bit_and-cut (suc n) x m h = rw (pow-suc 2 n) (
    omega (
      arith,
      and_by_digit (x % (2 ^ n * 2)) m,
      and_by_digit x m,
      bit_and-cut n (x / 2) (m / 2),
      mod_double (2 ^ n) x (pow_pos n),
      ap (λ k. bit_and k (m / 2)) {x = x % (2 ^ n * 2) / 2} {y = x / 2 % 2 ^ n}
          (omega (arith, mod_double (2 ^ n) x (pow_pos n))),
    ))
