-- ===== src/Status.antt =====
-- The error codes of include/mm.h, by name; `code` is the number behind the minus sign.
use operating_system_assignm.Prelude.{ℕ}

pub data Status : Type 0 where
  failed : Status  -- a bare -1
  area_overlap : Status
  lack_mem_ram : Status
  lack_mem_swp : Status
  invalid_access : Status
  swapping : Status
  rw_undefined : Status

abbrev pub code : Status → ℕ
code failed = 1
code area_overlap = 1
code lack_mem_ram = 2
code lack_mem_swp = 3
code invalid_access = 1
code swapping = 2
code rw_undefined = 3

-- A status, and what a successful call writes through its pointer argument.
pub data Outcome {ℓ} (A : Type ℓ) : Type ℓ where
  done : A → Outcome A
  err : Status → Outcome A
