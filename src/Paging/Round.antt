-- ===== src/Paging/Round.antt =====
-- One round of the loop of `alloc_pages_range` of src/mm.c.
use Prim.Native.Nat.{min}
use operating_system_assignm.Prelude.{
  ℕ, ◌+◌, ◌*◌, ◌/◌, ◌<◌, ◌≡◌, inl, inr, refl, ap, Bool, true, false, arith, Option, none, some,
  Option-cases,
}
use operating_system_assignm.Status.{done}
use operating_system_assignm.Memphy.{Memphy, get_freefp}
use operating_system_assignm.Memphy.Frames.{get_freefp-Taken, get_freefp-some}
use operating_system_assignm.Mm.{count_available_victim}
use operating_system_assignm.Mm.Fifo.{find_victim_page-some}
use operating_system_assignm.Paging.{Machine, steal_frame, obtain_frame}
use operating_system_assignm.Paging.Place.{contents, contents-same_cells}
use operating_system_assignm.Paging.Valid.{Valid}
use operating_system_assignm.Paging.Victim.{Eviction, vf, taken}
use operating_system_assignm.Paging.Evict.{
  also, evicted, evict-Valid, contents-evict, evict-foreign_ram, evict-foreign_swp, evict-gain,
  evict-counts, evict-maxsz,
}

-- The frames that a call can get: the free ones, and one for each victim that swap can take.
abbrev pub capacity : Machine → Option ℕ → ℕ
capacity m e =
    m.mram.num_of_free_frame + min (count_available_victim m.mm e) m.mswp.num_of_free_frame

-- From `m` to `m'` no byte of the process has changed, nor one of the foreign frames.
pub record Same (foreign_ram foreign_swp : ℕ → Bool) (m m' : Machine) : Type 0 where
  pub contents_same : (q o : ℕ) → o < 256 → contents m' q o ≡ contents m q o
  pub ram_same :
      (f o : ℕ)
      → foreign_ram f ≡ true
      → o < 256
      → m'.mram.storage (f * 256 + o) ≡ m.mram.storage (f * 256 + o)
  pub swp_same :
      (f o : ℕ)
      → foreign_swp f ≡ true
      → o < 256
      → m'.mswp.storage (f * 256 + o) ≡ m.mswp.storage (f * 256 + o)

module _ {foreign_ram foreign_swp : ℕ → Bool} (m : Machine) (e : Option ℕ)
    (valid : Valid foreign_ram foreign_swp m) where
  -- One round: a frame that was free, or that of a victim.
  pub record Gains (f : ℕ) (m' : Machine) : Type 0 where
    pub obtained : obtain_frame m e ≡ (done f, m')
    pub still : Valid (also f foreign_ram) foreign_swp m'
    pub same : Same foreign_ram foreign_swp m m'
    pub new : foreign_ram f ≡ false
    pub inside : f < m.mram.maxsz / 256
    pub size : m'.mram.maxsz ≡ m.mram.maxsz
    pub cost : capacity m' e + 1 ≡ capacity m e

  gain_free :
      (f : ℕ) (ram : Memphy) → get_freefp m.mram ≡ some (f, ram) → Gains f (record m { mram = ram })
  unfolding obtain_frame
  gain_free f ram got =
      let (rest, had, left) = get_freefp-some m.mram f ram got in
      let cells : ram.storage ≡ m.mram.storage = ap (λ (r : Memphy). r.storage) left in
      record {
        obtained = rw (got, obtain_frame);
        still = record {
          queue = valid.queue;
          ram = ground (arith, had, left, valid.ram);
          swp = valid.swp;
          queued = valid.queued;
          frames = record {
            inside = λ p g h. ground (arith, left, valid.frames.inside p g);
            taken = λ p g h. ground (arith, had, left, valid.frames.taken p g);
            local = λ p g h. ground (arith, had, valid.frames.local p g, valid.frames.taken p g);
            single = valid.frames.single;
            apart = λ g h.
                ground (arith, had, left, valid.frames.apart g, valid.ram.formatted.distinct);
            reach =
                λ g h. ground (arith, had, left, valid.frames.reach g, valid.ram.formatted.inside);
          };
          slots = valid.slots;
        };
        same = record {
          contents_same = λ q o h. contents-same_cells m ram q o cells;
          ram_same = λ g o h k. rw cells refl;
          swp_same = λ g o h k. refl;
        };
        new = ground (arith, had, valid.frames.apart f);
        inside = ground (arith, had, valid.ram.formatted.inside);
        size = ap (λ (r : Memphy). r.maxsz) left;
        cost = ground (arith, had, left, valid.ram.formatted.counted);
      }

  steal_frame_lem :
      (ev : Eviction foreign_ram foreign_swp m e) → steal_frame m e ≡ (done (vf ev), evicted ev)
  unfolding steal_frame
  steal_frame_lem ev = rw (ev.found, ev.got, steal_frame)

  no_free-num : get_freefp m.mram ≡ none → m.mram.num_of_free_frame ≡ 0
  no_free-num no_free = ground (arith, get_freefp-Taken m.mram, valid.ram.formatted.counted)

  some_slot :
      0 < m.mswp.num_of_free_frame
      → (slot : ℕ) × (swp : Memphy) × (get_freefp m.mswp ≡ some (slot, swp))
  some_slot h = elim (Option-cases (get_freefp m.mswp)) [
    | inl no_slot ↦ absurd (ground (arith, get_freefp-Taken m.mswp, valid.swp.formatted.counted))
    | inr ((slot, swp), got) ↦ (slot, swp, got)
  ]

  gain_victim :
      (ev : Eviction foreign_ram foreign_swp m e)
      → get_freefp m.mram ≡ none
      → 0 < capacity m e
      → Gains (vf ev) (evicted ev)
  unfolding obtain_frame
  gain_victim ev no_free h = record {
    obtained = rw (no_free, obtain_frame) (steal_frame_lem ev);
    still = evict-Valid ev;
    same = record {
      contents_same = contents-evict ev;
      ram_same = evict-foreign_ram ev;
      swp_same = evict-foreign_swp ev;
    };
    new = (evict-gain ev).1;
    inside = (evict-gain ev).2;
    size = evict-maxsz ev;
    cost = ground (
      arith,
      evict-counts ev,
      (taken ev).1,
      get_freefp-Taken m.mram,
      valid.ram.formatted.counted,
      valid.swp.formatted.counted,
    );
  }

  pub obtain_frame-Gains : 0 < capacity m e → (f : ℕ) × (m' : Machine) × Gains f m'
  obtain_frame-Gains h = elim (Option-cases (get_freefp m.mram)) [
    | inr ((f, ram), got) ↦ (f, _, gain_free f ram got)
    | inl no_free ↦
        let (victim, mm, found) =
          find_victim_page-some m.mm e valid.queue (ground (arith, no_free-num no_free)) in
        let (slot, swp, got) = some_slot (ground (arith, no_free-num no_free)) in
        let ev : Eviction foreign_ram foreign_swp m e = record {
          valid = valid;
          victim = victim;
          mm = mm;
          found = found;
          slot = slot;
          swp = swp;
          got = got;
        } in
        (vf ev, evicted ev, gain_victim ev no_free h)
  ]
