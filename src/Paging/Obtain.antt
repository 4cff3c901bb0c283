-- ===== src/Paging/Obtain.antt =====
-- `alloc_pages_range` of src/mm.c: its tests and its loop.
use mathlib.Core.Path.{fun_ext, subst, sym}
use operating_system_assignm.Prelude.{
  AllBelow, ℕ, zero, suc, ◌+◌, ◌/◌, ◌≤◌, ◌<◌, ◌≡◌, ◌⊎◌, inl, inr, refl, ◌∙◌, Bool, true, false,
  arith, has, ◌||◌, ltb, if◌then◌else◌, Option, List, [], ◌∷◌, length, Distinct,
}
use native.Mathlib.Decide.{dec_le}
use operating_system_assignm.Status.{lack_mem_ram, lack_mem_swp, done, err}
use operating_system_assignm.Memphy.{count_free_frame}
use operating_system_assignm.Mm.{count_available_victim}
use operating_system_assignm.Paging.{Machine, obtain_frames, alloc_pages_range}
use operating_system_assignm.Paging.Valid.{Valid}
use operating_system_assignm.Paging.Evict.{also}
use operating_system_assignm.Paging.Round.{capacity, Same, obtain_frame-Gains}

-- The frames of a list, beside the foreign ones.
abbrev pub among : List ℕ → (ℕ → Bool) → ℕ → Bool
among frames foreign x = has x frames || foreign x

also-among :
    (foreign_ram : ℕ → Bool) {foreign_swp : ℕ → Bool} {m : Machine} (f : ℕ) (acc : List ℕ)
    → Valid (also f (among acc foreign_ram)) foreign_swp m
    → Valid (among (f ∷ acc) foreign_ram) foreign_swp m
also-among foreign_ram {foreign_swp} {m} f acc v =
    subst (λ (g : ℕ → Bool). Valid g foreign_swp m) (fun_ext (λ x. ground arith)) v

module _ (foreign_ram foreign_swp : ℕ → Bool) (e : Option ℕ) where
  -- The loop has given `frames`, all different and none foreign; what they hold stays free to use.
  pub record Obtained (m : Machine) (n : ℕ) (frames : List ℕ) (m' : Machine) : Type 0 where
    pub still : Valid (among frames foreign_ram) foreign_swp m'
    pub same : Same foreign_ram foreign_swp m m'
    pub count : length frames ≡ n
    pub distinct : Distinct frames
    pub inside : AllBelow (m'.mram.maxsz / 256) frames
    pub new : (x : ℕ) → has x frames ≡ true → foreign_ram x ≡ false

  obtain_frames-Obtained :
      (k : ℕ) (m : Machine) (acc : List ℕ)
      → Valid (among acc foreign_ram) foreign_swp m
      → Distinct acc
      → AllBelow (m.mram.maxsz / 256) acc
      → ((x : ℕ) → has x acc ≡ true → foreign_ram x ≡ false)
      → k ≤ capacity m e
      → (frames : List ℕ) × (m' : Machine) × (obtain_frames k m e acc ≡ (done frames, m'))
        × Obtained m (length acc + k) frames m'
  unfolding obtain_frames
  obtain_frames-Obtained zero m acc v d b n h = (
    acc,
    m,
    refl,
    record {
      still = v;
      same = record {
        contents_same = λ q o k. refl;
        ram_same = λ f o g k. refl;
        swp_same = λ f o g k. refl;
      };
      count = omega arith;
      distinct = d;
      inside = b;
      new = n;
    },
  )
  obtain_frames-Obtained (suc k) m acc v d b n h =
      let (f, m1, g) = obtain_frame-Gains m e v (omega arith) in
      let (frames, m', run, o) =
        obtain_frames-Obtained k m1 (f ∷ acc) (also-among foreign_ram f acc g.still)
          (ground (arith, g.new), d)
          (ground (arith, g.inside, g.size), subst (λ s. AllBelow (s / 256) acc) (sym g.size) b)
          (λ x h. ground (arith, g.new, n x)) (omega (arith, g.cost)) in
      (
        frames,
        m',
        rw (g.obtained, obtain_frames) run,
        record {
          still = o.still;
          same = record {
            contents_same = λ q i s. o.same.contents_same q i s ∙ g.same.contents_same q i s;
            ram_same = λ x i y s. o.same.ram_same x i y s ∙ g.same.ram_same x i (ground arith) s;
            swp_same = λ x i y s. o.same.swp_same x i y s ∙ g.same.swp_same x i y s;
          };
          count = omega (arith, o.count);
          distinct = o.distinct;
          inside = o.inside;
          new = o.new;
        },
      )

  empty-among :
      {m : Machine} → Valid foreign_ram foreign_swp m → Valid (among [] foreign_ram) foreign_swp m
  empty-among v = v

  alloc_within :
      (m : Machine) (n : ℕ) → n ≤ capacity m e → alloc_pages_range m n e ≡ obtain_frames n m e []
  unfolding alloc_pages_range count_free_frame
  alloc_within m n h = ground arith

  alloc_beyond :
      (m : Machine) (n : ℕ)
      → capacity m e < n
      → alloc_pages_range m n e ≡ (
        err (
            if ltb (m.mram.num_of_free_frame + count_available_victim m.mm e) n
            then lack_mem_ram
            else lack_mem_swp),
        m,
      )
  unfolding alloc_pages_range count_free_frame
  alloc_beyond m n h = ground arith

  -- On a valid machine a request within the capacity is met in full with different frames and no
  -- byte lost; a larger one is refused before anything is changed, with the code for RAM if the
  -- victims are too few, else that for swap.
  pub alloc_pages_range_exact :
      (m : Machine) (n : ℕ)
      → Valid foreign_ram foreign_swp m
      → ((n ≤ capacity m e)
          × ((frames : List ℕ) × (m' : Machine) × (alloc_pages_range m n e ≡ (done frames, m'))
              × Obtained m n frames m'))
        ⊎ ((capacity m e < n)
            × (alloc_pages_range m n e ≡ (
              err (
                  if ltb (m.mram.num_of_free_frame + count_available_victim m.mm e) n
                  then lack_mem_ram
                  else lack_mem_swp),
              m,
            )))
  alloc_pages_range_exact m n v = elim (dec_le n (capacity m e)) [
    | yes within ↦
        let (frames, m', run, o) =
          obtain_frames-Obtained n m [] (empty-among v) tt tt (λ x h. absurd (ground arith))
            within in
        inl (
          within,
          (
            frames,
            m',
            alloc_within m n within ∙ run,
            record {
              still = o.still;
              same = o.same;
              count = omega (arith, o.count);
              distinct = o.distinct;
              inside = o.inside;
              new = o.new;
            },
          ),
        )
    | no beyond ↦ inr (omega arith, alloc_beyond m n (omega arith))
  ]
