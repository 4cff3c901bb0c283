-- ===== src/Paging/Evict.antt =====
-- `evict`, the round of `alloc_pages_range` that takes the frame of a victim. The frame belongs to no
-- page until `vmap_page_range` maps it, so it counts as foreign in between.
use operating_system_assignm.Prelude.{
  ℕ, ◌+◌, ◌-◌, ◌*◌, ◌/◌, ◌%◌, ◌^◌, ◌<◌, ◌≡◌, refl, ap, Bool, true, false, arith, has, ◌==◌, ◌||◌,
  if◌then◌else◌, Option,
}
use operating_system_assignm.Memphy.Copy.{copy_page_lem, clean_frame_lem}
use operating_system_assignm.Mm.{count_available_victim}
use operating_system_assignm.Mm.Fifo.{IsQueue, count_available_victim-fewer}
use operating_system_assignm.Paging.{Machine, evict}
use operating_system_assignm.Paging.Place.{
  Place, unmapped, in_ram, in_swap, is_ram, where_is, place-set_swap, contents,
}
use operating_system_assignm.Paging.Valid.{Valid, IsDevice, Holds}
use operating_system_assignm.Paging.Victim.{
  Eviction, vf, left, victim_place, taken, ram_random, swp_random, swp_storage, slot_small, fewer,
}

abbrev pub also : ℕ → (ℕ → Bool) → ℕ → Bool
also f foreign x = (x == f) || foreign x

module _ {foreign_ram foreign_swp : ℕ → Bool} {m : Machine} {e : Option ℕ}
    (ev : Eviction foreign_ram foreign_swp m e) where
  open ev use {valid, victim, mm, slot, swp}

  abbrev pub evicted : Machine
  evicted = evict m victim mm slot swp

  evict_eq : evicted ≡ record m {
    mm = evicted.mm;
    mram = record m.mram { storage = λ a. if a / 256 == vf ev then 0 else m.mram.storage a };
    mswp = record swp {
      storage =
          λ a. if a / 256 == slot then m.mram.storage (vf ev * 256 + a % 256) else swp.storage a;
    };
  }
  unfolding evict
  evict_eq =
      rw
        (
          copy_page_lem m.junk m.mram (vf ev) swp slot (ram_random ev) (swp_random ev),
          clean_frame_lem,
        )
        refl

  place-evict : (q : ℕ) → where_is evicted q ≡ (if q == victim then in_swap slot else where_is m q)
  unfolding evict
  place-evict q = ground (
    arith,
    ap (λ (t : ℕ → ℕ). t q) (left ev).2,
    place-set_swap (mm.pgd victim) 0 slot (slot_small ev),
  )

  ram-evict : (a : ℕ) → evicted.mram.storage a ≡ (if a / 256 == vf ev then 0 else m.mram.storage a)
  ram-evict a = rw evict_eq refl

  swp-evict :
      (a : ℕ)
      → evicted.mswp.storage a
        ≡ (if a / 256 == slot then m.mram.storage (vf ev * 256 + a % 256) else m.mswp.storage a)
  swp-evict a = rw (evict_eq, swp_storage ev) refl

  evict-frees :
      (evicted.mram.free_fp_list ≡ m.mram.free_fp_list)
      × (evicted.mswp.free_fp_list ≡ (taken ev).0)
      × (evicted.mram.maxsz ≡ m.mram.maxsz)
      × (evicted.mswp.maxsz ≡ m.mswp.maxsz)
      × (evicted.mram.num_of_free_frame ≡ m.mram.num_of_free_frame)
      × (evicted.mswp.num_of_free_frame ≡ m.mswp.num_of_free_frame - 1)
  evict-frees = rw (evict_eq, (taken ev).2) (refl, refl, refl, refl, refl, refl)

  evict-ram : IsDevice 1024 evicted.mram
  evict-ram = rw evict_eq (ground (arith, valid.ram))

  evict-swp : IsDevice (2 ^ 21) evicted.mswp
  evict-swp = rw evict_eq (ground (arith, (taken ev).1, (taken ev).2, valid.swp))

  contents-evict_at :
      (pl : Place) (q o : ℕ) → where_is m q ≡ pl → o < 256 → contents evicted q o ≡ contents m q o
  unfolding contents
  contents-evict_at unmapped q o h k = ground (arith, place-evict q, victim_place ev)
  contents-evict_at (in_ram x) q o h k = ground (
    arith,
    place-evict q,
    ram-evict (x * 256 + o),
    swp-evict (slot * 256 + o),
    valid.frames.single q victim x,
    victim_place ev,
  )
  contents-evict_at (in_swap x) q o h k = ground (
    arith,
    place-evict q,
    swp-evict (x * 256 + o),
    valid.slots.taken q x,
    (taken ev).1,
    victim_place ev,
  )

  evict-frames : Holds (where_is evicted) in_ram evicted.mram (also (vf ev) foreign_ram)
  evict-frames = record {
    inside = λ p f h. ground (arith, evict-frees, place-evict p, valid.frames.inside p f);
    taken = λ p f h. ground (arith, evict-frees, place-evict p, valid.frames.taken p f);
    local = λ p f h. ground (
      arith,
      place-evict p,
      valid.frames.local p f,
      valid.frames.single p victim f,
      victim_place ev,
    );
    single = λ p q f h h'. ground (arith, place-evict p, place-evict q, valid.frames.single p q f);
    apart = λ f h. ground (
      arith,
      evict-frees,
      valid.frames.apart f,
      valid.frames.taken victim (vf ev) (victim_place ev),
    );
    reach = λ f h. ground (
      arith,
      evict-frees,
      valid.frames.reach f,
      valid.frames.inside victim (vf ev) (victim_place ev),
    );
  }

  evict-slots : Holds (where_is evicted) in_swap evicted.mswp foreign_swp
  evict-slots = record {
    inside = λ p f h. ground (
      arith,
      evict-frees,
      place-evict p,
      valid.slots.inside p f,
      (taken ev).1,
      valid.swp.formatted.inside,
    );
    taken = λ p f h. ground (
      arith,
      evict-frees,
      place-evict p,
      valid.slots.taken p f,
      (taken ev).1,
      valid.swp.formatted.distinct,
    );
    local = λ p f h.
        ground (arith, place-evict p, valid.slots.local p f, (taken ev).1, valid.slots.apart slot);
    single = λ p q f h h'. ground (
      arith,
      place-evict p,
      place-evict q,
      valid.slots.single p q f,
      valid.slots.taken p f,
      valid.slots.taken q f,
      (taken ev).1,
    );
    apart = λ f h. ground (arith, evict-frees, valid.slots.apart f, (taken ev).1);
    reach = λ f h. ground (arith, evict-frees, valid.slots.reach f, (taken ev).1);
  }

  evict-queued : (q : ℕ) → has q evicted.mm.fifo_using_pgn ≡ is_ram (where_is evicted q)
  unfolding evict
  evict-queued q =
      ground (arith, place-evict q, (left ev).1.others q, valid.queued q, victim_place ev)

  evict-queue : IsQueue evicted.mm
  unfolding evict
  evict-queue = record {
    counted = (left ev).0.counted;
    distinct = (left ev).0.distinct;
    topped = (left ev).0.topped;
  }

  pub evict-Valid : Valid (also (vf ev) foreign_ram) foreign_swp evicted
  evict-Valid = record {
    queue = evict-queue;
    ram = evict-ram;
    swp = evict-swp;
    queued = evict-queued;
    frames = evict-frames;
    slots = evict-slots;
  }

  pub contents-evict : (q o : ℕ) → o < 256 → contents evicted q o ≡ contents m q o
  contents-evict q o h = contents-evict_at (where_is m q) q o refl h

  pub evict-foreign_ram :
      (f o : ℕ)
      → foreign_ram f ≡ true
      → o < 256
      → evicted.mram.storage (f * 256 + o) ≡ m.mram.storage (f * 256 + o)
  evict-foreign_ram f o h k =
      ground (arith, ram-evict (f * 256 + o), valid.frames.local victim (vf ev) (victim_place ev))

  pub evict-foreign_swp :
      (f o : ℕ)
      → foreign_swp f ≡ true
      → o < 256
      → evicted.mswp.storage (f * 256 + o) ≡ m.mswp.storage (f * 256 + o)
  evict-foreign_swp f o h k =
      ground (arith, swp-evict (f * 256 + o), valid.slots.apart f, (taken ev).1)

  pub evict-maxsz : evicted.mram.maxsz ≡ m.mram.maxsz
  evict-maxsz = ap (λ (s : Machine). s.mram.maxsz) evict_eq

  -- The frame that is gained has been cleared, and was no foreign one.
  pub evict-gain :
      ((o : ℕ) → o < 256 → evicted.mram.storage (vf ev * 256 + o) ≡ 0)
      × (foreign_ram (vf ev) ≡ false)
      × (vf ev < m.mram.maxsz / 256)
  evict-gain = (
    λ o h. ground (arith, ram-evict (vf ev * 256 + o)),
    valid.frames.local victim (vf ev) (victim_place ev),
    valid.frames.inside victim (vf ev) (victim_place ev),
  )

  -- The stocks go down by one, and the exception stays where it is.
  pub evict-counts :
      (evicted.mram.num_of_free_frame ≡ m.mram.num_of_free_frame)
      × (evicted.mswp.num_of_free_frame ≡ m.mswp.num_of_free_frame - 1)
      × (count_available_victim evicted.mm e ≡ count_available_victim m.mm e - 1)
  unfolding evict
  evict-counts = (
    evict-frees.4,
    evict-frees.5,
    count_available_victim-fewer m.mm evicted.mm e (fewer ev).0 (fewer ev).1,
  )
