-- ===== src/Memphy/Cells.antt =====
-- Reads and writes of one cell, src/mm-memphy.c.
use operating_system_assignm.Prelude.{ℕ, ◌≡◌, true, arith, if◌then◌else◌, none, some, update}
use operating_system_assignm.Memphy.{Memphy, read, write, seq_read, seq_write}

pub read-random : (mp : Memphy) (a : ℕ) → mp.rdmflg ≡ true → read mp a ≡ some (mp.storage a, mp)
unfolding read
read-random mp a h = ground arith

pub write-random :
    (mp : Memphy) (a v : ℕ)
    → mp.rdmflg ≡ true
    → write mp a v ≡ some (record mp { storage = update mp.storage a v })
unfolding write
write-random mp a v h = ground arith

-- A random access device is read and written at once; a sequential one refuses every access, since
-- the functions for it test the flag the other way round.
pub access_by_mode :
    (mp : Memphy) (a v : ℕ)
    → (read mp a ≡ (if mp.rdmflg then some (mp.storage a, mp) else none))
      × (write mp a v
          ≡ (if mp.rdmflg then some (record mp { storage = update mp.storage a v }) else none))
unfolding read write seq_read seq_write
access_by_mode mp a v = ground arith
