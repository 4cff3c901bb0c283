-- ===== src/System/Owners.antt =====
-- The frames of every process, when one of them has changed its pages and a memory.
use mathlib.Core.Path.{subst}
use operating_system_assignm.Prelude.{
  ℕ, ◌+◌, ◌/◌, ◌<◌, ◌≡◌, ◌≢◌, refl, ap, sym, ◌∙◌, inl, inr, Bool, true, false, ◌==◌, arith,
  Bool-cases, ==→eq, has,
}
use operating_system_assignm.Pte.{paging_max_pgn}
use operating_system_assignm.Memphy.{Memphy}
use operating_system_assignm.Paging.Place.{Place, unmapped}
use operating_system_assignm.Paging.Valid.{Holds}
use operating_system_assignm.System.Frames.{foreign, foreign-true, foreign-some, holder}

-- Each process holds its frames of a device, apart from those of the others.
abbrev pub HoldsAll : (ℕ → Place) → ℕ → (ℕ → ℕ → Place) → Memphy → Type 0
HoldsAll at n held mp = (q : ℕ) → q < n → Holds (held q) at mp (foreign at n held q)

refuted : (b : Bool) → ((b ≡ true) → false ≡ true) → b ≡ false
refuted true h = absurd (ground (arith, h refl))
refuted false h = refl

module _ (at : ℕ → Place) (n p : ℕ) (held held' : ℕ → ℕ → Place) (mp mp' : Memphy) (h : p < n)
    (same : (r : ℕ) → r ≢ p → held' r ≡ held r)
    (bound : (r g k : ℕ) → r < n → held' r g ≡ at k → g < paging_max_pgn)
    (all : HoldsAll at n held mp) (new : Holds (held' p) at mp' (foreign at n held p)) where
  changed-Holds : Holds (held' p) at mp' (foreign at n held' p)
  changed-Holds = record {
    inside = new.inside;
    taken = new.taken;
    local = λ g f e. refuted _ (λ k. ground (arith, new.local g f e, back f k));
    single = new.single;
    apart = λ f k. new.apart f (back f k);
    reach = λ f k. new.reach f (back f k);
  }
    where
      back : (f : ℕ) → foreign at n held' p f ≡ true → foreign at n held p f ≡ true
      back f k = elim (holder at n held held' p p f same bound k) [
        | inl (g, ne, e) ↦ absurd (ne refl)
        | inr (away, _) ↦ away
      ]

  other-Holds : (q : ℕ) → q < n → q ≢ p → Holds (held' q) at mp' (foreign at n held' q)
  other-Holds q l ne = record {
    inside = λ g f e. new.reach f (mine g f e);
    taken = λ g f e. new.apart f (mine g f e);
    local = λ g f e. refuted _ (λ k. elim (holder at n held held' p q f same bound k) [
      | inl (g', _, e') ↦ ground (arith, new.local g' f e', mine g f e)
      | inr (_, away) ↦ ground (arith, (all q l).local g f (old g f e), away ne)
    ]);
    single = λ g g' f e e'. (all q l).single g g' f (old g f e) (old g' f e');
    apart = λ f k. elim (holder at n held held' p q f same bound k) [
      | inl (g, _, e) ↦ new.taken g f e
      | inr (away, _) ↦ new.apart f away
    ];
    reach = λ f k. elim (holder at n held held' p q f same bound k) [
      | inl (g, _, e) ↦ new.inside g f e
      | inr (away, _) ↦ new.reach f away
    ];
  }
    where
      old : (g f : ℕ) → held' q g ≡ at f → held q g ≡ at f
      old g f e = ap (λ t. t g) (sym (same q ne)) ∙ e

      mine : (g f : ℕ) → held' q g ≡ at f → foreign at n held p f ≡ true
      mine g f e = foreign-some at n held p q g f l ne (bound q g f l e) (old g f e)

  pub changed-HoldsAll : HoldsAll at n held' mp'
  changed-HoldsAll q l = elim (Bool-cases (q == p)) [
    | inl here ↦
        subst (λ r. Holds (held' r) at mp' (foreign at n held' r)) (sym (==→eq q p here))
          changed-Holds
    | inr there ↦ other-Holds q l (λ z. ground (arith, z))
  ]

-- A process without pages is added behind the others.
module _ (at : ℕ → Place) (n : ℕ) (held held' : ℕ → ℕ → Place) (mp : Memphy)
    (mapped : (k : ℕ) → at k ≢ unmapped) (same : (r : ℕ) → r < n → held' r ≡ held r)
    (none_there : (g : ℕ) → held' n g ≡ unmapped)
    (bound : (r g k : ℕ) → r < n → held r g ≡ at k → g < paging_max_pgn)
    (all : HoldsAll at n held mp) where
  added_holder :
      (q f : ℕ)
      → foreign at (n + 1) held' q f ≡ true
      → (r : ℕ) × (r < n) × (r ≢ q) × (g : ℕ) × (held r g ≡ at f)
  added_holder q f k =
      let (r, l, ne, g, e) = foreign-true at (n + 1) held' q f k in
      elim (Bool-cases (r == n)) [
        | inl last ↦ absurd (mapped f (sym e ∙ ap (λ i. held' i g) (==→eq r n last) ∙ none_there g))
        | inr before ↦
            let b : r < n = ground arith in (r, b, ne, g, ap (λ t. t g) (sym (same r b)) ∙ e)
      ]

  added_foreign : (q f : ℕ) → foreign at (n + 1) held' q f ≡ true → foreign at n held q f ≡ true
  added_foreign q f k =
      let (r, l, ne, g, e) = added_holder q f k in
      foreign-some at n held q r g f l ne (bound r g f l e) e

  pub old-Holds : (q : ℕ) → q < n → Holds (held q) at mp (foreign at (n + 1) held' q)
  old-Holds q l = record {
    inside = (all q l).inside;
    taken = (all q l).taken;
    local = λ g f e. refuted _ (λ k. ground (arith, (all q l).local g f e, added_foreign q f k));
    single = (all q l).single;
    apart = λ f k. (all q l).apart f (added_foreign q f k);
    reach = λ f k. (all q l).reach f (added_foreign q f k);
  }

  -- The frames of the others, from the new process.
  pub new_apart :
      (f : ℕ)
      → foreign at (n + 1) held' n f ≡ true
      → (has f mp.free_fp_list ≡ false) × (f < mp.maxsz / 256)
  new_apart f k =
      let (r, l, ne, g, e) = added_holder n f k in ((all r l).taken g f e, (all r l).inside g f e)
