-- ===== src/Memphy/Tests.antt =====
-- The device theorems on small devices.
use operating_system_assignm.Prelude.{
  ℕ, ◌*◌, ◌/◌, ◌%◌, ◌+◌, ◌≡◌, refl, true, arith, ltb, ◌==◌, if◌then◌else◌, List, [], has, Bool,
}
use operating_system_assignm.Memphy.{Memphy, init_memphy, copy_page}
use operating_system_assignm.Memphy.Frames.{IsFormatted, init_memphy-IsFormatted}
use operating_system_assignm.Memphy.Copy.{copy_page_lem}

abbrev device : Bool → List ℕ → ℕ → Memphy
device random free count = record {
  storage = λ a. a % 100;
  maxsz = 600;
  rdmflg = random;
  cursor = 0;
  free_fp_list = free;
  num_of_free_frame = count;
  used_fp_list = [];
  num_of_used_frame = 0;
}

init_memphy-IsFormatted_example :
    IsFormatted (init_memphy (device true [] 0) 600 1 [])
    × ((init_memphy (device true [] 0) 600 1 []).maxsz ≡ 600)
    × ((init_memphy (device true [] 0) 600 1 []).rdmflg ≡ true)
    × ((f : ℕ) → has f (init_memphy (device true [] 0) 600 1 []).free_fp_list ≡ ltb f 2)
    × ((a : ℕ) → (init_memphy (device true [] 0) 600 1 []).storage a ≡ 0)
init_memphy-IsFormatted_example =
    init_memphy-IsFormatted (device true [] 0) 600 1 [] (omega arith) (λ l. refl)

-- Frame 1 goes to frame 0.
copy_page_lem_example : copy_page 5 (device true [] 0) 1 (device true [] 0) 0 ≡ (
  device true [] 0,
  record (device true [] 0) {
    storage = λ a. if a / 256 == 0 then (1 * 256 + a % 256) % 100 else a % 100;
  },
)
copy_page_lem_example = copy_page_lem 5 (device true [] 0) 1 (device true [] 0) 0 refl refl
