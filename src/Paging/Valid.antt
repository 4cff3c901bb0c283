-- ===== src/Paging/Valid.antt =====
-- The invariant of a machine, and what the processes beside it may rely on.
use operating_system_assignm.Prelude.{ℕ, ◌+◌, ◌*◌, ◌/◌, ◌^◌, ◌≤◌, ◌<◌, ◌≡◌, Bool, true, false, has}
use operating_system_assignm.Memphy.{Memphy}
use operating_system_assignm.Memphy.Frames.{IsFormatted}
use operating_system_assignm.Mm.Fifo.{IsQueue}
use operating_system_assignm.Paging.{Machine}
use operating_system_assignm.Paging.Place.{Place, in_ram, in_swap, is_ram, where_is, contents}

-- A device in order: random access, and no larger than its frame numbers reach.
pub record IsDevice (reach : ℕ) (mp : Memphy) : Type 0 where
  pub formatted : IsFormatted mp
  pub random : mp.rdmflg ≡ true
  pub small : mp.maxsz ≤ reach * 256

-- Each frame number of one kind that a page holds lies in the device, is not free, is not foreign,
-- and is held by no other page; the foreign ones lie in the device and are not free.
pub record Holds (held : ℕ → Place) (at : ℕ → Place) (mp : Memphy) (foreign : ℕ → Bool)
    : Type 0 where
  pub inside : (p f : ℕ) → held p ≡ at f → f < mp.maxsz / 256
  pub taken : (p f : ℕ) → held p ≡ at f → has f mp.free_fp_list ≡ false
  pub local : (p f : ℕ) → held p ≡ at f → foreign f ≡ false
  pub single : (p q f : ℕ) → held p ≡ at f → held q ≡ at f → p ≡ q
  pub apart : (f : ℕ) → foreign f ≡ true → has f mp.free_fp_list ≡ false
  pub reach : (f : ℕ) → foreign f ≡ true → f < mp.maxsz / 256

-- `foreign_ram` and `foreign_swp` are the frames of the other processes that share the memories.
pub record Valid (foreign_ram foreign_swp : ℕ → Bool) (m : Machine) : Type 0 where
  pub queue : IsQueue m.mm
  pub ram : IsDevice 1024 m.mram
  pub swp : IsDevice (2 ^ 21) m.mswp
  pub queued : (p : ℕ) → has p m.mm.fifo_using_pgn ≡ is_ram (where_is m p)
  pub frames : Holds (where_is m) in_ram m.mram foreign_ram
  pub slots : Holds (where_is m) in_swap m.mswp foreign_swp

-- From `m` to `m'` no byte of the process or of another process has changed, and all is in order.
pub record Keeps (foreign_ram foreign_swp : ℕ → Bool) (m m' : Machine) : Type 0 where
  pub valid : Valid foreign_ram foreign_swp m'
  pub same : (q o : ℕ) → o < 256 → contents m' q o ≡ contents m q o
  pub ram_kept :
      (f o : ℕ)
      → foreign_ram f ≡ true
      → o < 256
      → m'.mram.storage (f * 256 + o) ≡ m.mram.storage (f * 256 + o)
  pub swp_kept :
      (f o : ℕ)
      → foreign_swp f ≡ true
      → o < 256
      → m'.mswp.storage (f * 256 + o) ≡ m.mswp.storage (f * 256 + o)
