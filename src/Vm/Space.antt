-- ===== src/Vm/Space.antt =====
-- The memory of a process in order.
use operating_system_assignm.Prelude.{ℕ, ◌/◌, ◌≤◌, ◌<◌, ◌≡◌, ◌≢◌, Bool, true, arith}
use operating_system_assignm.Mm.{Region, Vma}
use operating_system_assignm.Paging.{Machine}
use operating_system_assignm.Paging.Place.{Place, unmapped, in_ram, in_swap, is_ram, where_is}
use operating_system_assignm.Paging.Valid.{Valid}
use operating_system_assignm.Vm.Owners.{IsArea}

-- Memory in order: the pages below the end of the area are the ones that are mapped.
pub record IsSpace (foreign_ram foreign_swp : ℕ → Bool) (m : Machine) : Type 0 where
  pub valid : Valid foreign_ram foreign_swp m
  pub area : IsArea m.mm
  pub backed : (q : ℕ) → q < m.mm.mmap.vm_end / 256 → where_is m q ≢ unmapped
  pub beyond : (q : ℕ) → m.mm.mmap.vm_end / 256 ≤ q → where_is m q ≡ unmapped

pub is_ram-mapped : (pl : Place) → is_ram pl ≡ true → pl ≢ unmapped
is_ram-mapped unmapped h = λ e. ground arith
is_ram-mapped (in_ram f) h = λ e. ground arith
is_ram-mapped (in_swap s) h = λ e. ground arith

-- Only the area and the symbols of `m` are replaced.
abbrev pub with_area : Machine → Vma → (ℕ → Region) → Machine
with_area m mmap symrgtbl = record m { mm = record (m.mm) { mmap = mmap; symrgtbl = symrgtbl } }

pub with_area-Valid :
    {foreign_ram foreign_swp : ℕ → Bool} {m : Machine} (mmap : Vma) (symrgtbl : ℕ → Region)
    → Valid foreign_ram foreign_swp m
    → Valid foreign_ram foreign_swp (with_area m mmap symrgtbl)
with_area-Valid {m = m} mmap symrgtbl v = record {
  queue = record {
    counted = v.queue.counted;
    distinct = v.queue.distinct;
    topped = v.queue.topped;
  };
  ram = v.ram;
  swp = v.swp;
  queued = v.queued;
  frames = record {
    inside = v.frames.inside;
    taken = v.frames.taken;
    local = v.frames.local;
    single = v.frames.single;
    apart = v.frames.apart;
    reach = v.frames.reach;
  };
  slots = record {
    inside = v.slots.inside;
    taken = v.slots.taken;
    local = v.slots.local;
    single = v.slots.single;
    apart = v.slots.apart;
    reach = v.slots.reach;
  };
}
