-- ===== src/Mm/Fifo.antt =====
-- The queue of present pages, src/mm.c and src/mm-vm.c.
use operating_system_assignm.Prelude.{
  ℕ, ◌+◌, ◌-◌, ◌<◌, ◌≡◌, ◌⊎◌, inl, inr, refl, ap, true, false, not, ◌&&◌, arith, ◌==◌, Option, none,
  some, List, [], ◌∷◌, length, has, Distinct, length-append, has-append, Distinct-snoc, Bool-cases,
}
use operating_system_assignm.Mm.{
  Mm, above_max, is_exception, pick_victim, find_victim_page, count_available_victim,
  enlist_tail_pgn_node,
}

-- The counter is the length of the queue, no page stands twice in it, and none is above the maximum.
pub record IsQueue (mm : Mm) : Type 0 where
  pub counted : mm.num_of_fifo_using_pgn ≡ length mm.fifo_using_pgn
  pub distinct : Distinct mm.fifo_using_pgn
  pub topped : (p : ℕ) → has p mm.fifo_using_pgn ≡ true → above_max p mm.current_max_pgn ≡ false

-- What is left of a queue when `victim` is taken out.
pub record Without (xs : List ℕ) (victim : ℕ) (left : List ℕ) : Type 0 where
  pub member : has victim xs ≡ true
  pub shorter : length left + 1 ≡ length xs
  pub others : (x : ℕ) → has x left ≡ (has x xs && not (x == victim))
  pub distinct : Distinct left

pick_victim-Without :
    (xs : List ℕ) (e : Option ℕ) (v : ℕ) (left : List ℕ)
    → Distinct xs
    → pick_victim xs e ≡ some (v, left)
    → Without xs v left
unfolding pick_victim
pick_victim-Without [] e v left d h = ground arith
pick_victim-Without (p ∷ []) e v left d h = record {
  member = ground arith;
  shorter = ground arith;
  others = λ x. ground arith;
  distinct = ground arith;
}
pick_victim-Without (p ∷ q ∷ rest) e v left d h = record {
  member = ground arith;
  shorter = ground arith;
  others = λ x. ground arith;
  distinct = ground arith;
}

pick_victim-spares :
    (xs : List ℕ) (e : Option ℕ) (v : ℕ) (left : List ℕ)
    → Distinct xs
    → pick_victim xs e ≡ some (v, left)
    → is_exception v e ≡ false
unfolding pick_victim
pick_victim-spares [] e v left d h = ground arith
pick_victim-spares (p ∷ []) e v left d h = ground arith
pick_victim-spares (p ∷ q ∷ rest) e v left d h = ground arith

-- A victim is found in a queue of two, and in a queue of one that is not the exception.
pick_victim-some :
    (xs : List ℕ) (e : Option ℕ)
    → 0 < length xs
    → (1 < length xs) ⊎ ((x : ℕ) → has x xs ≡ true → is_exception x e ≡ false)
    → (v : ℕ) × (left : List ℕ) × (pick_victim xs e ≡ some (v, left))
unfolding pick_victim
pick_victim-some [] e h c = absurd (omega arith)
pick_victim-some (p ∷ []) e h (inl c) = absurd (omega arith)
pick_victim-some (p ∷ []) e h (inr c) = (p, [], ground (arith, c p))
pick_victim-some (p ∷ q ∷ rest) e h c = elim (Bool-cases (is_exception p e)) [
  | inl y ↦ (q, p ∷ rest, rw y)
  | inr n ↦ (p, q ∷ rest, rw n)
]

pub find_victim_page_lem :
    (mm : Mm) (e : Option ℕ) (v : ℕ) (left : List ℕ)
    → pick_victim mm.fifo_using_pgn e ≡ some (v, left)
    → find_victim_page mm e
      ≡ some (
        v,
        record mm { fifo_using_pgn = left; num_of_fifo_using_pgn = mm.num_of_fifo_using_pgn - 1 },
      )
unfolding find_victim_page
find_victim_page_lem mm e v left h = rw (h, find_victim_page)

find_victim_page-pick :
    (mm : Mm) (e : Option ℕ) (v : ℕ) (mm' : Mm)
    → find_victim_page mm e ≡ some (v, mm')
    → (pick_victim mm.fifo_using_pgn e ≡ some (v, mm'.fifo_using_pgn))
      × (mm' ≡ record mm {
        fifo_using_pgn = mm'.fifo_using_pgn;
        num_of_fifo_using_pgn = mm.num_of_fifo_using_pgn - 1;
      })
unfolding find_victim_page
find_victim_page-pick mm e v mm' h = ground arith

-- From a page queue in order, a victim that is found is a queued page other than the exception; the
-- queue has lost it and no other page and is in order, and the page table is not changed.
pub find_victim_page-IsQueue :
    (mm : Mm) (e : Option ℕ) (v : ℕ) (mm' : Mm)
    → IsQueue mm
    → find_victim_page mm e ≡ some (v, mm')
    → IsQueue mm'
      × Without mm.fifo_using_pgn v mm'.fifo_using_pgn
      × (is_exception v e ≡ false)
      × (mm'.num_of_fifo_using_pgn + 1 ≡ mm.num_of_fifo_using_pgn)
      × (mm'.pgd ≡ mm.pgd)
      × (mm'.current_max_pgn ≡ mm.current_max_pgn)
find_victim_page-IsQueue mm e v mm' inv h = (
  record {
    counted = ground (arith, picked.1, w.shorter, inv.counted);
    distinct = w.distinct;
    topped = λ p r. ground (arith, picked.1, w.others p, inv.topped p);
  },
  w,
  pick_victim-spares mm.fifo_using_pgn e v mm'.fifo_using_pgn inv.distinct picked.0,
  ground (arith, picked.1, w.shorter, inv.counted),
  ap (λ (s : Mm). s.pgd) picked.1,
  ap (λ (s : Mm). s.current_max_pgn) picked.1,
)
  where
    picked :
        (pick_victim mm.fifo_using_pgn e ≡ some (v, mm'.fifo_using_pgn))
        × (mm' ≡ record mm {
          fifo_using_pgn = mm'.fifo_using_pgn;
          num_of_fifo_using_pgn = mm.num_of_fifo_using_pgn - 1;
        })
    picked = find_victim_page-pick mm e v mm' h

    w : Without mm.fifo_using_pgn v mm'.fifo_using_pgn
    w = pick_victim-Without mm.fifo_using_pgn e v mm'.fifo_using_pgn inv.distinct picked.0

pub find_victim_page-some :
    (mm : Mm) (e : Option ℕ)
    → IsQueue mm
    → 0 < count_available_victim mm e
    → (v : ℕ) × (mm' : Mm) × (find_victim_page mm e ≡ some (v, mm'))
unfolding count_available_victim
find_victim_page-some mm e inv h =
    let (v, left, q) = pick_victim-some mm.fifo_using_pgn e (filled e h) (roomy e h) in
    (v, _, find_victim_page_lem mm e v left q)
  where
    filled : (e : Option ℕ) → 0 < count_available_victim mm e → 0 < length mm.fifo_using_pgn
    filled none h = ground (arith, inv.counted)
    filled (some n) h = ground (arith, inv.counted)

    roomy :
        (e : Option ℕ)
        → 0 < count_available_victim mm e
        → (1 < length mm.fifo_using_pgn)
          ⊎ ((x : ℕ) → has x mm.fifo_using_pgn ≡ true → is_exception x e ≡ false)
    roomy none h = inr (λ x r. refl)
    roomy (some n) h = elim (Bool-cases (above_max n mm.current_max_pgn)) [
      | inl over ↦ inr (λ x r. ground (arith, inv.topped x r))
      | inr under ↦ inl (ground (arith, inv.counted))
    ]

-- A page that is not queued can be put on a page queue in order, which stays in order.
pub enlist_tail_pgn_node-IsQueue :
    (mm : Mm) (p : ℕ)
    → IsQueue mm
    → has p mm.fifo_using_pgn ≡ false
    → IsQueue (enlist_tail_pgn_node mm p)
unfolding enlist_tail_pgn_node
enlist_tail_pgn_node-IsQueue mm p inv h = record {
  counted = ground (arith, length-append mm.fifo_using_pgn (p ∷ []));
  distinct = Distinct-snoc mm.fifo_using_pgn p inv.distinct h;
  topped = λ q r. ground (arith, inv.topped q, has-append q mm.fifo_using_pgn (p ∷ []));
}

pub count_available_victim-fewer :
    (a b : Mm) (e : Option ℕ)
    → b.num_of_fifo_using_pgn + 1 ≡ a.num_of_fifo_using_pgn
    → b.current_max_pgn ≡ a.current_max_pgn
    → count_available_victim b e ≡ count_available_victim a e - 1
unfolding count_available_victim
count_available_victim-fewer a b none h k = ground arith
count_available_victim-fewer a b (some x) h k = ground arith
