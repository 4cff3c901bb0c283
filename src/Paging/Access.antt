-- ===== src/Paging/Access.antt =====
-- `pg_getval` and `pg_setval` against the contents of the process' pages.
use operating_system_assignm.Prelude.{
  ℕ, ◌+◌, ◌*◌, ◌<◌, ◌≡◌, refl, sym, ◌∙◌, Bool, true, arith, ◌==◌, if◌then◌else◌, ◌&&◌, some, update,
  ==-refl,
}
use operating_system_assignm.Status.{Outcome, done, err}
use operating_system_assignm.Pte.{paging_pgn, paging_offst}
use operating_system_assignm.Memphy.Cells.{read-random, write-random}
use operating_system_assignm.Paging.{
  Machine, pg_getpage, pg_getval, pg_setval, fetch, deposit, phyaddr, and_then,
}
use operating_system_assignm.Paging.Place.{Place, unmapped, in_ram, in_swap, where_is, contents}
use operating_system_assignm.Paging.Valid.{Valid, Keeps}
use operating_system_assignm.Paging.GetPage.{outcome, outcome_state, pg_getpage-Keeps, getpage-ram}

-- A machine whose RAM has one more byte written, at an offset of a page in frame `f`.
abbrev poked : Machine → ℕ → ℕ → Machine
poked m a v = record m { mram = record m.mram { storage = update m.mram.storage a v } }

module _ {foreign_ram foreign_swp : ℕ → Bool} (m : Machine)
    (valid : Valid foreign_ram foreign_swp m) (p f o v : ℕ) (here : where_is m p ≡ in_ram f)
    (small : o < 256) where
  poked-Valid : Valid foreign_ram foreign_swp (poked m (f * 256 + o) v)
  poked-Valid = record {
    queue = valid.queue;
    ram = record {
      formatted = record {
        counted = valid.ram.formatted.counted;
        distinct = valid.ram.formatted.distinct;
        inside = valid.ram.formatted.inside;
      };
      random = valid.ram.random;
      small = valid.ram.small;
    };
    swp = valid.swp;
    queued = valid.queued;
    frames = record {
      inside = valid.frames.inside;
      taken = valid.frames.taken;
      local = valid.frames.local;
      single = valid.frames.single;
      apart = valid.frames.apart;
      reach = valid.frames.reach;
    };
    slots = valid.slots;
  }

  contents-poked :
      (q i : ℕ)
      → i < 256
      → contents (poked m (f * 256 + o) v) q i
        ≡ (if (q == p) && (i == o) then some v else contents m q i)
  unfolding contents
  contents-poked q i h = at (where_is m q) refl
    where
      at :
          (pl : Place)
          → where_is m q ≡ pl
          → contents (poked m (f * 256 + o) v) q i
            ≡ (if (q == p) && (i == o) then some v else contents m q i)
      at unmapped e = ground (arith, here)
      at (in_ram x) e = ground (arith, here, valid.frames.single q p x)
      at (in_swap x) e = ground (arith, here)

fetch_lem :
    (addr f : ℕ) (s : Machine)
    → s.mram.rdmflg ≡ true
    → fetch addr f s ≡ (done (s.mram.storage (phyaddr f addr)), s)
unfolding fetch
fetch_lem addr f s h = rw (read-random s.mram (phyaddr f addr) h) refl

deposit_lem :
    (addr v f : ℕ) (s : Machine)
    → s.mram.rdmflg ≡ true
    → deposit addr v f s ≡ (done tt, poked s (phyaddr f addr) v)
unfolding deposit
deposit_lem addr v f s h = rw (write-random s.mram (phyaddr f addr) v h) refl

contents-ram :
    (s : Machine) (p f o : ℕ)
    → where_is s p ≡ in_ram f
    → contents s p o ≡ some (s.mram.storage (f * 256 + o))
unfolding contents
contents-ram s p f o e = rw e refl

module _ {foreign_ram foreign_swp : ℕ → Bool} (m : Machine)
    (valid : Valid foreign_ram foreign_swp m) (addr : ℕ) where
  abbrev pgn : ℕ
  pgn = paging_pgn addr

  abbrev off : ℕ
  off = paging_offst addr

  -- On a valid machine, a read that succeeds gives the byte that the process has at the address,
  -- wherever its page is, and changes no byte of this process or another.
  pub pg_getval-contents :
      (b : ℕ) (m' : Machine)
      → pg_getval m addr ≡ (done b, m')
      → (contents m (paging_pgn addr) (paging_offst addr) ≡ some b)
        × Keeps foreign_ram foreign_swp m m'
  unfolding pg_getval
  pg_getval-contents b m' h = at (pg_getpage m pgn) refl h
    where
      at :
          (r : Outcome ℕ × Machine)
          → pg_getpage m pgn ≡ r
          → and_then r (fetch addr) ≡ (done b, m')
          → (contents m pgn off ≡ some b) × Keeps foreign_ram foreign_swp m m'
      at (err e, s) eq h = absurd (ground arith)
      at (done f, s) eq h =
          let (k, here) = pg_getpage-Keeps m valid pgn f s eq in
          let same : (s.mram.storage (phyaddr f addr) ≡ b) × (s ≡ m') =
            outcome (sym (fetch_lem addr f s k.valid.ram.random) ∙ h) in
          rw (← same.0, ← same.1)
            (sym (k.same pgn off (omega arith)) ∙ contents-ram s pgn f off here, k)

  -- From `m` to `m'` the process has got the byte `v` at the address.
  pub record Wrote (v : ℕ) (m' : Machine) : Type 0 where
    pub still : Valid foreign_ram foreign_swp m'
    pub written :
        (q o : ℕ)
        → o < 256
        → contents m' q o ≡ (if (q == pgn) && (o == off) then some v else contents m q o)
    pub ram_kept :
        (f o : ℕ)
        → foreign_ram f ≡ true
        → o < 256
        → m'.mram.storage (f * 256 + o) ≡ m.mram.storage (f * 256 + o)
    pub swp_kept :
        (f o : ℕ)
        → foreign_swp f ≡ true
        → o < 256
        → m'.mswp.storage (f * 256 + o) ≡ m.mswp.storage (f * 256 + o)

  -- On a valid machine, a write that succeeds puts the byte at the address, changes no other byte
  -- of this process or another, and leaves a valid machine.
  pub pg_setval-Wrote : (v : ℕ) (m' : Machine) → pg_setval m addr v ≡ (done tt, m') → Wrote v m'
  unfolding pg_setval
  pg_setval-Wrote v m' h = at (pg_getpage m pgn) refl h
    where
      at :
          (r : Outcome ℕ × Machine)
          → pg_getpage m pgn ≡ r
          → and_then r (deposit addr v) ≡ (done tt, m')
          → Wrote v m'
      at (err e, s) eq h = absurd (ground arith)
      at (done f, s) eq h =
          let (k, here) = pg_getpage-Keeps m valid pgn f s eq in
          let same : poked s (phyaddr f addr) v ≡ m' =
            outcome_state (sym (deposit_lem addr v f s k.valid.ram.random) ∙ h) in
          rw (← same) (record {
            still = poked-Valid s k.valid pgn f off v here (omega arith);
            written = λ q o h.
                ground (
                  arith,
                  contents-poked s k.valid pgn f off v here (omega arith) q o h,
                  k.same q o,
                );
            ram_kept = λ g o e h. ground (arith, k.ram_kept g o, k.valid.frames.local pgn f here);
            swp_kept = λ g o e h. k.swp_kept g o e h;
          })

  -- On a valid machine, after a write of a byte that succeeds, a read at the same address succeeds,
  -- gives the byte and changes nothing.
  pub get-set :
      (v : ℕ) (m' : Machine) → pg_setval m addr v ≡ (done tt, m') → pg_getval m' addr ≡ (done v, m')
  unfolding pg_setval pg_getval
  get-set v m' h = at (pg_getpage m pgn) refl h
    where
      at :
          (r : Outcome ℕ × Machine)
          → pg_getpage m pgn ≡ r
          → and_then r (deposit addr v) ≡ (done tt, m')
          → pg_getval m' addr ≡ (done v, m')
      at (err e, s) eq h = absurd (ground arith)
      at (done f, s) eq h =
          let (k, here) = pg_getpage-Keeps m valid pgn f s eq in
          let same : poked s (phyaddr f addr) v ≡ m' =
            outcome_state (sym (deposit_lem addr v f s k.valid.ram.random) ∙ h) in
          rw
            (
              ← same,
              pg_getval,
              getpage-ram (poked s (phyaddr f addr) v)
                  (poked-Valid s k.valid pgn f off v here (omega arith)) pgn f here,
              fetch_lem addr f (poked s (phyaddr f addr) v) k.valid.ram.random,
              ==-refl,
            )
            refl
