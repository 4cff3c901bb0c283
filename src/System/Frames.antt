-- ===== src/System/Frames.antt =====
-- Which frames of a memory the processes beside one hold.
use operating_system_assignm.Prelude.{
  ℕ, zero, suc, ◌<◌, ◌≡◌, ◌≢◌, ◌⊎◌, refl, ap, sym, ◌∙◌, inl, inr, Bool, true, false, not, ◌&&◌,
  ◌==◌, if◌then◌else◌, arith, Bool-cases, ==→eq,
}
use operating_system_assignm.Pte.{paging_max_pgn}
use operating_system_assignm.Paging.Place.{Place, unmapped, in_ram, in_swap}

unfoldable pub any_below : ℕ → (ℕ → Bool) → Bool
any_below zero t = false
any_below (suc n) t = if t n then true else any_below n t

any_below-true : (n : ℕ) (t : ℕ → Bool) → any_below n t ≡ true → (k : ℕ) × (k < n) × (t k ≡ true)
unfolding any_below
any_below-true zero t h = absurd (ground arith)
any_below-true (suc n) t h = elim (Bool-cases (t n)) [
  | inl here ↦ (n, omega arith, here)
  | inr before ↦ let (k, l, e) = any_below-true n t (ground arith) in (k, omega arith, e)
]

any_below-some : (n k : ℕ) (t : ℕ → Bool) → k < n → t k ≡ true → any_below n t ≡ true
unfolding any_below
any_below-some zero k t h e = absurd (omega arith)
any_below-some (suc n) k t h e = elim (Bool-cases (t n)) [
  | inl here ↦ rw here refl
  | inr before ↦ rw before (any_below-some n k t (ground arith) e)
]

unfoldable pub same_place : Place → Place → Bool
same_place unmapped unmapped = true
same_place (in_ram f) (in_ram g) = f == g
same_place (in_swap f) (in_swap g) = f == g
same_place _ _ = false

same_place_eq : (x y : Place) → same_place x y ≡ true → x ≡ y
unfolding same_place
same_place_eq unmapped unmapped h = refl
same_place_eq unmapped (in_ram g) h = absurd (ground arith)
same_place_eq unmapped (in_swap g) h = absurd (ground arith)
same_place_eq (in_ram f) unmapped h = absurd (ground arith)
same_place_eq (in_ram f) (in_ram g) h = ap in_ram (==→eq f g h)
same_place_eq (in_ram f) (in_swap g) h = absurd (ground arith)
same_place_eq (in_swap f) unmapped h = absurd (ground arith)
same_place_eq (in_swap f) (in_ram g) h = absurd (ground arith)
same_place_eq (in_swap f) (in_swap g) h = ap in_swap (==→eq f g h)

same_place_refl : (x : Place) → same_place x x ≡ true
unfolding same_place
same_place_refl unmapped = refl
same_place_refl (in_ram f) = ground arith
same_place_refl (in_swap f) = ground arith

-- `held q` tells where the pages of process `q` are. Frame `f` is held by a process other than `p`.
unfoldable pub foreign : (ℕ → Place) → ℕ → (ℕ → ℕ → Place) → ℕ → ℕ → Bool
foreign at n held p f =
    any_below n (λ q. not (q == p) && any_below paging_max_pgn (λ g. same_place (held q g) (at f)))

module _ (at : ℕ → Place) where
  pub foreign-true :
      (n : ℕ) (held : ℕ → ℕ → Place) (p f : ℕ)
      → foreign at n held p f ≡ true
      → (q : ℕ) × (q < n) × (q ≢ p) × (g : ℕ) × (held q g ≡ at f)
  unfolding foreign
  foreign-true n held p f h =
      let (q, l, e) = any_below-true n _ h in
      let inner : any_below paging_max_pgn (λ g. same_place (held q g) (at f)) ≡ true =
        ground arith in
      let (g, _, s) = any_below-true paging_max_pgn _ inner in
      (q, l, (λ k. ground (arith, k)), g, same_place_eq (held q g) (at f) s)

  pub foreign-some :
      (n : ℕ) (held : ℕ → ℕ → Place) (p q g f : ℕ)
      → q < n
      → q ≢ p
      → g < paging_max_pgn
      → held q g ≡ at f
      → foreign at n held p f ≡ true
  unfolding foreign
  foreign-some n held p q g f l ne b e = any_below-some n q _ l (
      let inner : any_below paging_max_pgn (λ k. same_place (held q k) (at f)) ≡ true =
        any_below-some paging_max_pgn g _ b
          (ap (λ x. same_place x (at f)) e ∙ same_place_refl (at f)) in
      rw inner (ground arith))

  -- A frame that another process holds is one of process `p`, or of a process beside `p`.
  pub holder :
      (n : ℕ) (held held' : ℕ → ℕ → Place) (p q f : ℕ)
      → ((r : ℕ) → r ≢ p → held' r ≡ held r)
      → ((r g k : ℕ) → r < n → held' r g ≡ at k → g < paging_max_pgn)
      → foreign at n held' q f ≡ true
      → ((g : ℕ) × (p ≢ q) × (held' p g ≡ at f))
        ⊎ ((foreign at n held p f ≡ true) × ((q ≢ p) → foreign at n held q f ≡ true))
  holder n held held' p q f same bound h =
      let (r, l, ne, g, e) = foreign-true n held' q f h in
      elim (Bool-cases (r == p)) [
        | inl mine ↦
            let k : r ≡ p = ==→eq r p mine in
            inl (g, (λ z. ne (k ∙ z)), ap (λ x. held' x g) (sym k) ∙ e)
        | inr other ↦
            let k : r ≢ p = λ z. ground (arith, z) in
            let e0 : held r g ≡ at f = ap (λ t. t g) (sym (same r k)) ∙ e in
            inr (
              foreign-some n held p r g f l k (bound r g f l e) e0,
              λ z. foreign-some n held q r g f l ne (bound r g f l e) e0,
            )
      ]
