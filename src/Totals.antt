-- ===== src/Totals.antt =====
-- Sums over a table.
use operating_system_assignm.Prelude.{
  ℕ, zero, suc, ◌+◌, ◌≤◌, ◌<◌, ◌≡◌, refl, arith, ltb, if◌then◌else◌, update, ◌≢◌, ap, ◌==◌,
  Bool-cases, inl, inr,
}

unfoldable pub sum_below : ℕ → (ℕ → ℕ) → ℕ
sum_below zero f = 0
sum_below (suc n) f = sum_below n f + f n

pub sum_below-cong :
    (n : ℕ) (f g : ℕ → ℕ) → ((i : ℕ) → i < n → f i ≡ g i) → sum_below n f ≡ sum_below n g
unfolding sum_below
sum_below-cong zero f g h = refl
sum_below-cong (suc n) f g h = omega (arith, h n, sum_below-cong n f g (λ i l. h i (omega arith)))

pub sum_below-add_one : (n : ℕ) (f : ℕ → ℕ) → sum_below (n + 1) f ≡ sum_below n f + f n
unfolding sum_below
sum_below-add_one n f = ap (λ k. sum_below k f) {y = suc n} (omega arith)

-- The weight of the number `x` alone.
abbrev pub single : ℕ → ℕ → ℕ
single x y = if x == y then 1 else 0

pub sum_below-single : (n x : ℕ) → sum_below n (single x) ≡ (if ltb x n then 1 else 0)
unfolding sum_below
sum_below-single zero x = ground arith
sum_below-single (suc n) x = ground (arith, sum_below-single n x)

pub sum_below-one : (n : ℕ) → sum_below n (λ _. 1) ≡ n
unfolding sum_below
sum_below-one zero = refl
sum_below-one (suc n) = omega (arith, sum_below-one n)

module _ {ℓ} {A : Type ℓ} (w : A → ℕ) where
  -- The sum of `w` over the first `n` entries.
  unfoldable pub total : ℕ → (ℕ → A) → ℕ
  total zero t = 0
  total (suc n) t = total n t + w (t n)

  pub total-cong :
      (n : ℕ) (s t : ℕ → A) → ((i : ℕ) → i < n → w (s i) ≡ w (t i)) → total n s ≡ total n t
  unfolding total
  total-cong zero s t h = refl
  total-cong (suc n) s t h = omega (arith, h n, total-cong n s t (λ i l. h i (omega arith)))

  pub total-update :
      (n i : ℕ) (t : ℕ → A) (a : A)
      → total n (update t i a) + (if ltb i n then w (t i) else 0)
        ≡ total n t + (if ltb i n then w a else 0)
  unfolding total
  total-update zero i t a = ground arith
  total-update (suc n) i t a = ground (arith, total-update n i t a)

  pub le-total : (n i : ℕ) (t : ℕ → A) → i < n → w (t i) ≤ total n t
  unfolding total
  le-total zero i t h = absurd (omega arith)
  le-total (suc n) i t h = ground (arith, le-total n i t)

  pub pair-le : (n i j : ℕ) (t : ℕ → A) → i < n → j < n → i ≢ j → w (t i) + w (t j) ≤ total n t
  unfolding total
  pair-le zero i j t h k ne = absurd (omega arith)
  pair-le (suc n) i j t h k ne = ground (arith, pair-le n i j t, le-total n i t, le-total n j t)

  pub total-map : (n : ℕ) (t : ℕ → A) → total n t ≡ sum_below n (λ j. w (t j))
  unfolding total sum_below
  total-map zero t = refl
  total-map (suc n) t = ground (arith, total-map n t)

  pub total-zero : (n : ℕ) (t : ℕ → A) → ((i : ℕ) → i < n → w (t i) ≡ 0) → total n t ≡ 0
  unfolding total
  total-zero zero t h = refl
  total-zero (suc n) t h = omega (arith, h n, total-zero n t (λ i l. h i (omega arith)))

  -- Two tables that differ at one entry.
  pub total-change :
      (n i : ℕ) (s t : ℕ → A)
      → i < n
      → ((j : ℕ) → j ≢ i → w (s j) ≡ w (t j))
      → total n s + w (t i) ≡ total n t + w (s i)
  unfolding total
  total-change zero i s t h e = absurd (omega arith)
  total-change (suc n) i s t h e = elim (Bool-cases (ltb i n)) [
    | inl l ↦ ground (arith, total-change n i s t (ground arith) e, e n)
    | inr l ↦
        let last : i ≡ n = ground arith in
        rw last (omega (arith, total-cong n s t (λ j k. e j (λ q. absurd (omega arith)))))
  ]
