-- ===== src/Vm/Map.antt =====
-- `vmap_page_range` of src/mm.c: frames become pages of the process.
use mathlib.Core.Path.{fun_ext, subst}
use operating_system_assignm.Prelude.{
  ℕ, ◌+◌, ◌/◌, ◌≤◌, ◌<◌, ◌≡◌, ◌⊎◌, refl, Bool, true, false, arith, has, ◌==◌, if◌then◌else◌, List,
  [], ◌∷◌, length, Distinct, AllBelow, has-append,
}
use operating_system_assignm.Pte.{mapped_pte}
use operating_system_assignm.Mm.{Mm, enlist_tail_pgn_node, set_pte, map_frames}
use operating_system_assignm.Mm.Fifo.{enlist_tail_pgn_node-IsQueue}
use operating_system_assignm.Paging.{Machine}
use operating_system_assignm.Paging.Place.{unmapped, in_ram, is_ram, where_is, place-mapped}
use operating_system_assignm.Paging.Valid.{Valid}
use operating_system_assignm.Paging.Evict.{also}
use operating_system_assignm.Paging.Obtain.{among}

-- One round of the loop of `vmap_page_range`.
pub map_one : Machine → ℕ → ℕ → Machine
map_one m pgn f = record m { mm = enlist_tail_pgn_node (set_pte m.mm pgn (mapped_pte f)) pgn }

place-map_one :
    (m : Machine) (pgn f q : ℕ)
    → f < 1024
    → where_is (map_one m pgn f) q ≡ (if q == pgn then in_ram f else where_is m q)
unfolding map_one set_pte enlist_tail_pgn_node
place-map_one m pgn f q h = ground (arith, place-mapped f h)

frame_small :
    {foreign_ram foreign_swp : ℕ → Bool} (m : Machine) (f : ℕ)
    → Valid foreign_ram foreign_swp m
    → f < m.mram.maxsz / 256
    → f < 1024
frame_small m f valid inside = omega (arith, valid.ram.small, inside)

module _ {foreign_ram foreign_swp : ℕ → Bool} (m : Machine) (pgn f : ℕ)
    (valid : Valid (also f foreign_ram) foreign_swp m) (new : foreign_ram f ≡ false)
    (inside : f < m.mram.maxsz / 256) (unused : where_is m pgn ≡ unmapped) where
  map_one-Valid : Valid foreign_ram foreign_swp (map_one m pgn f)
  unfolding map_one set_pte enlist_tail_pgn_node
  map_one-Valid = record {
    queue =
        enlist_tail_pgn_node-IsQueue (set_pte m.mm pgn (mapped_pte f)) pgn
          (record {
            counted = valid.queue.counted;
            distinct = valid.queue.distinct;
            topped = valid.queue.topped;
          })
          (ground (arith, valid.queued pgn, unused));
    ram = valid.ram;
    swp = valid.swp;
    queued = λ q. ground (
      arith,
      place-map_one m pgn f q (frame_small m f valid inside),
      valid.queued q,
      has-append q m.mm.fifo_using_pgn (pgn ∷ []),
    );
    frames = record {
      inside = λ p g h.
          ground (
            arith,
            place-map_one m pgn f p (frame_small m f valid inside),
            valid.frames.inside p g,
          );
      taken = λ p g h. ground (
        arith,
        place-map_one m pgn f p (frame_small m f valid inside),
        valid.frames.taken p g,
        valid.frames.apart g,
      );
      local = λ p g h.
          ground
            (arith, place-map_one m pgn f p (frame_small m f valid inside), valid.frames.local p g);
      single = λ p q g h k. ground (
        arith,
        place-map_one m pgn f p (frame_small m f valid inside),
        place-map_one m pgn f q (frame_small m f valid inside),
        valid.frames.single p q g,
        valid.frames.local p g,
        valid.frames.local q g,
      );
      apart = λ g h. ground (arith, valid.frames.apart g);
      reach = λ g h. ground (arith, valid.frames.reach g);
    };
    slots = record {
      inside = λ p g h.
          ground
            (arith, place-map_one m pgn f p (frame_small m f valid inside), valid.slots.inside p g);
      taken = λ p g h.
          ground
            (arith, place-map_one m pgn f p (frame_small m f valid inside), valid.slots.taken p g);
      local = λ p g h.
          ground
            (arith, place-map_one m pgn f p (frame_small m f valid inside), valid.slots.local p g);
      single = λ p q g h k. ground (
        arith,
        place-map_one m pgn f p (frame_small m f valid inside),
        place-map_one m pgn f q (frame_small m f valid inside),
        valid.slots.single p q g,
      );
      apart = λ g h. valid.slots.apart g h;
      reach = λ g h. valid.slots.reach g h;
    };
  }

abbrev pub mapped : Machine → ℕ → List ℕ → Machine
mapped m pgn frames = record m { mm = map_frames m.mm pgn frames }

-- The pages from `pgn` on, `n` of them, are in RAM, and the others are where they were.
pub record Maps (m m' : Machine) (pgn n : ℕ) : Type 0 where
  pub there : (q : ℕ) → pgn ≤ q → q < pgn + n → is_ram (where_is m' q) ≡ true
  pub others : (q : ℕ) → (q < pgn) ⊎ (pgn + n ≤ q) → where_is m' q ≡ where_is m q

among-also :
    (foreign_ram : ℕ → Bool) {foreign_swp : ℕ → Bool} {m : Machine} (f : ℕ) (frames : List ℕ)
    → Valid (among (f ∷ frames) foreign_ram) foreign_swp m
    → Valid (also f (among frames foreign_ram)) foreign_swp m
among-also foreign_ram {foreign_swp} {m} f frames v =
    subst (λ (g : ℕ → Bool). Valid g foreign_swp m) (fun_ext (λ x. ground arith)) v

pub map_frames-Valid :
    (foreign_ram foreign_swp : ℕ → Bool) (frames : List ℕ) (m : Machine) (pgn : ℕ)
    → Valid (among frames foreign_ram) foreign_swp m
    → Distinct frames
    → AllBelow (m.mram.maxsz / 256) frames
    → ((x : ℕ) → has x frames ≡ true → foreign_ram x ≡ false)
    → ((q : ℕ) → pgn ≤ q → q < pgn + length frames → where_is m q ≡ unmapped)
    → Valid foreign_ram foreign_swp (mapped m pgn frames)
      × Maps m (mapped m pgn frames) pgn (length frames)
unfolding map_frames map_one
map_frames-Valid foreign_ram foreign_swp [] m pgn v d b new unused =
    (v, record { there = λ q l h. absurd (omega arith); others = λ q h. refl })
map_frames-Valid foreign_ram foreign_swp (f ∷ frames) m pgn v d b new unused =
    let small = frame_small m f v b.0 in
    let v1 : Valid (among frames foreign_ram) foreign_swp (map_one m pgn f) =
      map_one-Valid m pgn f (among-also foreign_ram f frames v) (ground (arith, new f, d.0)) b.0
        (unused pgn (omega arith) (omega arith)) in
    let (v', maps) =
      map_frames-Valid foreign_ram foreign_swp frames (map_one m pgn f) (pgn + 1) v1 d.1 b.1
        (λ x h. ground (arith, new x))
        (λ q l h. ground (arith, place-map_one m pgn f q small, unused q)) in
    (
      v',
      record {
        there = λ q l h. ground (arith, place-map_one m pgn f q small, maps.there q, maps.others q);
        others = λ q h. ground (arith, place-map_one m pgn f q small, maps.others q);
      },
    )

pub map_frames-area :
    (mm : Mm) (pgn : ℕ) (frames : List ℕ)
    → ((map_frames mm pgn frames).mmap ≡ mm.mmap)
      × ((map_frames mm pgn frames).symrgtbl ≡ mm.symrgtbl)
unfolding map_frames set_pte enlist_tail_pgn_node
map_frames-area mm pgn [] = (refl, refl)
map_frames-area mm pgn (f ∷ frames) =
    map_frames-area (enlist_tail_pgn_node (set_pte mm pgn (mapped_pte f)) pgn) (pgn + 1) frames
