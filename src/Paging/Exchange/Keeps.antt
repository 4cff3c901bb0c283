-- ===== src/Paging/Exchange/Keeps.antt =====
-- The invariant through the exchange of pages.
use operating_system_assignm.Prelude.{ℕ, ◌^◌, ◌≡◌, Bool, arith, has, none, [], ◌∷◌, has-append}
use operating_system_assignm.Memphy.{put_freefp}
use operating_system_assignm.Mm.{enlist_tail_pgn_node}
use operating_system_assignm.Mm.Fifo.{IsQueue, enlist_tail_pgn_node-IsQueue}
use operating_system_assignm.Paging.{Machine, exchange}
use operating_system_assignm.Paging.Place.{in_ram, in_swap, is_ram, where_is}
use operating_system_assignm.Paging.Valid.{Valid, IsDevice, Holds}
use operating_system_assignm.Paging.Victim.{Eviction, vf, left, victim_place, taken}
use operating_system_assignm.Paging.Exchange.{
  place-exchange, exchange-frees, target_ne_slot, exchange_eq,
}

module _ {foreign_ram foreign_swp : ℕ → Bool} {m : Machine}
    (ev : Eviction foreign_ram foreign_swp m none) (pgn target : ℕ)
    (away : where_is m pgn ≡ in_swap target) where
  open ev use {valid, victim, mm, slot, swp}

  abbrev pub m' : Machine
  m' = exchange m victim mm slot swp pgn

  exchange-ram : IsDevice 1024 m'.mram
  unfolding put_freefp
  exchange-ram = rw (exchange_eq ev pgn target away) (ground (arith, valid.ram))

  exchange-swp : IsDevice (2 ^ 21) m'.mswp
  unfolding put_freefp
  exchange-swp = rw (exchange_eq ev pgn target away) (
      ground (
        arith,
        (taken ev).1,
        (taken ev).2,
        valid.swp,
        valid.slots.inside pgn target away,
        valid.slots.taken pgn target away,
      ))

  exchange-queue : IsQueue m'.mm
  unfolding exchange
  exchange-queue =
      enlist_tail_pgn_node-IsQueue _ pgn
        (record {
          counted = (left ev).0.counted;
          distinct = (left ev).0.distinct;
          topped = (left ev).0.topped;
        })
        (ground (arith, (left ev).1.others pgn, valid.queued pgn, away))

  exchange-queued : (q : ℕ) → has q m'.mm.fifo_using_pgn ≡ is_ram (where_is m' q)
  unfolding exchange enlist_tail_pgn_node
  exchange-queued q = ground (
    arith,
    has-append q mm.fifo_using_pgn (pgn ∷ []),
    (place-exchange ev pgn target away) q,
    (left ev).1.others q,
    valid.queued q,
    away,
    (victim_place ev),
  )

  exchange-frames : Holds (where_is m') in_ram m'.mram foreign_ram
  exchange-frames = record {
    inside = λ p f e. ground (
      arith,
      (exchange-frees ev pgn target away),
      (place-exchange ev pgn target away) p,
      valid.frames.inside p f,
      valid.frames.inside victim (vf ev) (victim_place ev),
    );
    taken = λ p f e. ground (
      arith,
      (exchange-frees ev pgn target away),
      (place-exchange ev pgn target away) p,
      valid.frames.taken p f,
      valid.frames.taken victim (vf ev) (victim_place ev),
    );
    local = λ p f e. ground (
      arith,
      (place-exchange ev pgn target away) p,
      valid.frames.local p f,
      valid.frames.local victim (vf ev) (victim_place ev),
    );
    single = λ p q f e e'. ground (
      arith,
      (place-exchange ev pgn target away) p,
      (place-exchange ev pgn target away) q,
      valid.frames.single p q f,
      valid.frames.single p victim f,
      valid.frames.single q victim f,
      (victim_place ev),
    );
    apart = λ f e. ground (arith, (exchange-frees ev pgn target away), valid.frames.apart f);
    reach = λ f e. ground (arith, (exchange-frees ev pgn target away), valid.frames.reach f);
  }

  exchange-slots : Holds (where_is m') in_swap m'.mswp foreign_swp
  exchange-slots = record {
    inside = λ p f e. ground (
      arith,
      (exchange-frees ev pgn target away),
      (place-exchange ev pgn target away) p,
      valid.slots.inside p f,
      (taken ev).1,
      valid.swp.formatted.inside,
    );
    taken = λ p f e. ground (
      arith,
      (exchange-frees ev pgn target away),
      (place-exchange ev pgn target away) p,
      valid.slots.taken p f,
      valid.slots.single p pgn f,
      (taken ev).1,
      valid.swp.formatted.distinct,
      away,
      (target_ne_slot ev pgn target away),
    );
    local = λ p f e. ground (
      arith,
      (place-exchange ev pgn target away) p,
      valid.slots.local p f,
      (taken ev).1,
      valid.slots.apart slot,
    );
    single = λ p q f e e'. ground (
      arith,
      (place-exchange ev pgn target away) p,
      (place-exchange ev pgn target away) q,
      valid.slots.single p q f,
      valid.slots.taken p f,
      valid.slots.taken q f,
      (taken ev).1,
    );
    apart = λ f e. ground (
      arith,
      (exchange-frees ev pgn target away),
      valid.slots.apart f,
      (taken ev).1,
      valid.slots.local pgn target away,
    );
    reach = λ f e.
        ground (arith, (exchange-frees ev pgn target away), valid.slots.reach f, (taken ev).1);
  }

  pub exchange-Valid : Valid foreign_ram foreign_swp m'
  exchange-Valid = record {
    queue = exchange-queue;
    ram = exchange-ram;
    swp = exchange-swp;
    queued = exchange-queued;
    frames = exchange-frames;
    slots = exchange-slots;
  }
