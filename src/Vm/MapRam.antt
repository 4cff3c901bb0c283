-- ===== src/Vm/MapRam.antt =====
-- `vm_map_ram` of src/mm.c as a whole.
use operating_system_assignm.Prelude.{
  ℕ, ◌+◌, ◌*◌, ◌/◌, ◌%◌, ◌^◌, ◌≤◌, ◌<◌, ◌≡◌, ◌⊎◌, inl, inr, refl, ap, sym, ◌∙◌, Bool, true, arith,
  Option, none, some, List, [], ◌∷◌, length,
}
use operating_system_assignm.Status.{Outcome, done, err}
use operating_system_assignm.Pte.{paging_pgn}
use operating_system_assignm.Memphy.{concat_usedfp}
use operating_system_assignm.Mm.{vmap_page_range}
use operating_system_assignm.Paging.{
  Machine, and_then, bring_to_ram, alloc_pages_range, map_obtained, vm_map_ram,
}
use operating_system_assignm.Paging.Place.{
  Place, unmapped, in_ram, in_swap, is_ram, where_is, contents, byte_at,
}
use operating_system_assignm.Paging.Valid.{Valid, Keeps}
use operating_system_assignm.Paging.GetPage.{bring_to_ram-done, outcome_state}
use operating_system_assignm.Paging.Obtain.{Obtained, alloc_pages_range_exact}
use operating_system_assignm.Paging.Area.{SameArea, bring_to_ram-area, alloc_pages_range-area}
use operating_system_assignm.Vm.Map.{mapped, map_frames-Valid, map_frames-area}

-- The used list has no part in the invariant.
used_list-Valid :
    {foreign_ram foreign_swp : ℕ → Bool} {m : Machine} (used : List ℕ)
    → Valid foreign_ram foreign_swp m
    → Valid foreign_ram foreign_swp (record m { mram = record (m.mram) { used_fp_list = used } })
used_list-Valid {m} used v = record {
  queue = v.queue;
  ram = record {
    formatted = record {
      counted = v.ram.formatted.counted;
      distinct = v.ram.formatted.distinct;
      inside = v.ram.formatted.inside;
    };
    random = v.ram.random;
    small = v.ram.small;
  };
  swp = v.swp;
  queued = v.queued;
  frames = record {
    inside = v.frames.inside;
    taken = v.frames.taken;
    local = v.frames.local;
    single = v.frames.single;
    apart = v.frames.apart;
    reach = v.frames.reach;
  };
  slots = v.slots;
}

pub contents-unmapped : (m : Machine) (q o : ℕ) → contents m q o ≡ none → where_is m q ≡ unmapped
unfolding contents
contents-unmapped m q o h = at (where_is m q) refl
  where
    at : (pl : Place) → where_is m q ≡ pl → where_is m q ≡ unmapped
    at unmapped e = e
    at (in_ram f) e = absurd (ground (arith, e))
    at (in_swap s) e = absurd (ground (arith, e))

pub unmapped-contents : (m : Machine) (q o : ℕ) → where_is m q ≡ unmapped → contents m q o ≡ none
unfolding contents
unmapped-contents m q o e = rw e refl

-- The machine that `map_obtained` leaves, by the list of used frames.
used_list :
    (m : Machine) (mapstart : ℕ) (frames : List ℕ)
    → (used : List ℕ) × (map_obtained mapstart frames m ≡ (
      done tt,
      record (mapped m (paging_pgn mapstart) frames) {
        mram = record (m.mram) { used_fp_list = used };
      },
    ))
unfolding map_obtained concat_usedfp vmap_page_range
used_list m mapstart [] = (m.mram.used_fp_list, refl)
used_list m mapstart (f ∷ frames) = (_, refl)

-- From `m` to `m'` the pages from `pgn` on, `n` of them, have come into RAM. All else is the same.
pub record MapsRam (foreign_ram foreign_swp : ℕ → Bool) (m : Machine) (pgn n : ℕ) (m' : Machine)
    : Type 0 where
  pub valid : Valid foreign_ram foreign_swp m'
  pub there : (q : ℕ) → pgn ≤ q → q < pgn + n → is_ram (where_is m' q) ≡ true
  pub same : (q o : ℕ) → o < 256 → (q < pgn) ⊎ (pgn + n ≤ q) → contents m' q o ≡ contents m q o
  pub ram_kept :
      (f o : ℕ)
      → foreign_ram f ≡ true
      → o < 256
      → m'.mram.storage (f * 256 + o) ≡ m.mram.storage (f * 256 + o)
  pub swp_kept :
      (f o : ℕ)
      → foreign_swp f ≡ true
      → o < 256
      → m'.mswp.storage (f * 256 + o) ≡ m.mswp.storage (f * 256 + o)
  pub area : SameArea m.mm m'.mm

contents-at :
    (m m' : Machine) (q o : ℕ)
    → m'.mram.storage ≡ m.mram.storage
    → m'.mswp ≡ m.mswp
    → where_is m' q ≡ where_is m q
    → contents m' q o ≡ contents m q o
unfolding contents
contents-at m m' q o r s e = rw (e, s) (at (where_is m q))
  where
    at : (pl : Place) → byte_at m'.mram m.mswp pl o ≡ byte_at m.mram m.mswp pl o
    at unmapped = refl
    at (in_ram f) = ap (λ (t : ℕ → ℕ). some (t (f * 256 + o))) r
    at (in_swap s) = refl

module _ (foreign_ram foreign_swp : ℕ → Bool) (mapstart n : ℕ) (aligned : mapstart % 256 ≡ 0)
    (fits : mapstart + n * 256 ≤ 2 ^ 22) where
  abbrev pgn : ℕ
  pgn = mapstart / 256

  -- The frames are there, and get mapped.
  map_obtained-MapsRam :
      (m m2 m' : Machine) (e : Option ℕ) (frames : List ℕ)
      → ((q : ℕ) → pgn ≤ q → q < pgn + n → where_is m q ≡ unmapped)
      → Obtained foreign_ram foreign_swp e m n frames m2
      → SameArea m.mm m2.mm
      → map_obtained mapstart frames m2 ≡ (done tt, m')
      → MapsRam foreign_ram foreign_swp m pgn n m'
  map_obtained-MapsRam m m2 m' e frames unused o area h =
      let (used, run) = used_list m2 mapstart frames in
      let still_unused : (q : ℕ)
          → paging_pgn mapstart ≤ q
          → q < paging_pgn mapstart + length frames
          → where_is m2 q ≡ unmapped =
        λ q l k. contents-unmapped m2 q 0 (
          o.same.contents_same q 0 (omega arith)
          ∙ unmapped-contents m q 0 (unused q (omega arith) (omega (arith, o.count)))) in
      let (v, maps) =
        map_frames-Valid foreign_ram foreign_swp frames m2 (paging_pgn mapstart) o.still o.distinct
          o.inside o.new still_unused in
      rw (← outcome_state (sym run ∙ h)) (record {
        valid = used_list-Valid used v;
        there = λ q l k. maps.there q (omega arith) (omega (arith, o.count));
        same = λ q i s out.
            contents-at m2 _ q i refl refl (maps.others q (ground (arith, o.count)))
            ∙ o.same.contents_same q i s;
        ram_kept = o.same.ram_same;
        swp_kept = o.same.swp_same;
        area = (
          (map_frames-area m2.mm (paging_pgn mapstart) frames).0 ∙ area.0,
          (map_frames-area m2.mm (paging_pgn mapstart) frames).1 ∙ area.1,
        );
      })

  -- The frames come after a page that has been brought to RAM.
  Keeps-MapsRam :
      (m m1 m' : Machine)
      → Keeps foreign_ram foreign_swp m m1
      → SameArea m.mm m1.mm
      → MapsRam foreign_ram foreign_swp m1 pgn n m'
      → MapsRam foreign_ram foreign_swp m pgn n m'
  Keeps-MapsRam m m1 m' k area r = record {
    valid = r.valid;
    there = r.there;
    same = λ q o s out. r.same q o s out ∙ k.same q o s;
    ram_kept = λ f o g s. r.ram_kept f o g s ∙ k.ram_kept f o g s;
    swp_kept = λ f o g s. r.swp_kept f o g s ∙ k.swp_kept f o g s;
    area = (r.area.0 ∙ area.0, r.area.1 ∙ area.1);
  }

  and_then-MapsRam :
      (m m' : Machine) (e : Option ℕ)
      → Valid foreign_ram foreign_swp m
      → ((q : ℕ) → pgn ≤ q → q < pgn + n → where_is m q ≡ unmapped)
      → and_then (alloc_pages_range m n e) (map_obtained mapstart) ≡ (done tt, m')
      → MapsRam foreign_ram foreign_swp m pgn n m'
  and_then-MapsRam m m' e v unused h =
      elim (alloc_pages_range_exact foreign_ram foreign_swp e m n v) [
        | inr (_, refused) ↦ absurd (ground (arith, rw refused at h))
        | inl (_, (frames, m2, run, o)) ↦
            map_obtained-MapsRam m m2 m' e frames unused o
              (rw run at (alloc_pages_range-area m n e)) (rw run at h)
      ]

  -- On a valid machine, if vm_map_ram succeeds at an aligned address within the bus and the pages
  -- there are not mapped, the new pages are in RAM, no other page has lost a byte, and the machine
  -- is valid.
  pub vm_map_ram-MapsRam :
      (m m' : Machine) (astart : ℕ)
      → Valid foreign_ram foreign_swp m
      → ((q : ℕ) → pgn ≤ q → q < pgn + n → where_is m q ≡ unmapped)
      → vm_map_ram m astart mapstart n ≡ (done tt, m')
      → MapsRam foreign_ram foreign_swp m pgn n m'
  unfolding vm_map_ram
  vm_map_ram-MapsRam m m' astart valid unused h =
      brought (bring_to_ram m (paging_pgn astart)) refl h
    where
      brought :
          (r : Outcome (Unit {0}) × Machine)
          → bring_to_ram m (paging_pgn astart) ≡ r
          → and_then r (λ _ m1.
            and_then (alloc_pages_range m1 n (some (paging_pgn astart))) (map_obtained mapstart))
            ≡ (done tt, m')
          → MapsRam foreign_ram foreign_swp m pgn n m'
      brought (err e, m1) run h = absurd (ground arith)
      brought (done _, m1) run h =
          let k = bring_to_ram-done m valid (paging_pgn astart) m1 run in
          let area : SameArea m.mm m1.mm = rw run at (bring_to_ram-area m (paging_pgn astart)) in
          Keeps-MapsRam m m1 m' k area (
            and_then-MapsRam m1 m' (some (paging_pgn astart)) k.valid
              (λ q l b.
                contents-unmapped m1 q 0
                  (k.same q 0 (omega arith) ∙ unmapped-contents m q 0 (unused q l b)))
              h)
