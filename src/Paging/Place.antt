-- ===== src/Paging/Place.antt =====
-- Where a page is, read off its entry, and the byte that stands there.
use operating_system_assignm.Prelude.{
  ℕ, ◌+◌, ◌*◌, ◌^◌, ◌<◌, ◌≡◌, ◌≢◌, refl, ap, Bool, true, false, arith, ◌==◌, if◌then◌else◌, Option,
  none, some,
}
use operating_system_assignm.Pte.{
  page_present, paging_fpn, paging_swapfpn, pte_set_swap, pte_set_fpn, mapped_pte,
}
use operating_system_assignm.Pte.Fields.{
  page_present-set_fpn, paging_fpn-set_fpn, pte_set_fpn-ne_zero, page_present-set_swap,
  paging_swapfpn-set_swap, pte_set_swap-ne_zero, page_present-mapped, paging_fpn-mapped,
  mapped_pte-ne_zero,
}
use operating_system_assignm.Memphy.{Memphy}
use operating_system_assignm.Paging.{Machine}

pub data Place : Type 0 where
  unmapped : Place
  in_ram : ℕ → Place
  in_swap : ℕ → Place

unfoldable pub place : ℕ → Place
place pte =
    if pte == 0
    then unmapped
    else if page_present pte
    then in_ram (paging_fpn pte)
    else in_swap (paging_swapfpn pte)

abbrev pub is_ram : Place → Bool
is_ram (in_ram f) = true
is_ram _ = false

pub place-set_fpn : (pte f : ℕ) → f < 1024 → place (pte_set_fpn pte f) ≡ in_ram f
unfolding place
place-set_fpn pte f h =
    ground
      (arith, page_present-set_fpn pte f, paging_fpn-set_fpn pte f h, pte_set_fpn-ne_zero pte f)

pub place-set_swap : (pte typ s : ℕ) → s < 2 ^ 21 → place (pte_set_swap pte typ s) ≡ in_swap s
unfolding place
place-set_swap pte typ s h = ground (
  arith,
  page_present-set_swap pte typ s,
  paging_swapfpn-set_swap pte typ s h,
  pte_set_swap-ne_zero pte typ s,
)

pub place-mapped : (f : ℕ) → f < 1024 → place (mapped_pte f) ≡ in_ram f
unfolding place
place-mapped f h =
    ground (arith, page_present-mapped f h, paging_fpn-mapped f h, mapped_pte-ne_zero f)

-- The tests that the code makes on an entry.
pub place-unmapped : (pte : ℕ) → place pte ≡ unmapped → pte ≡ 0
unfolding place
place-unmapped pte h = ground arith

pub place-ram :
    (pte f : ℕ)
    → place pte ≡ in_ram f
    → (pte ≢ 0) × (page_present pte ≡ true) × (paging_fpn pte ≡ f)
unfolding place
place-ram pte f h = ground arith

pub place-swap :
    (pte s : ℕ)
    → place pte ≡ in_swap s
    → (pte ≢ 0) × (page_present pte ≡ false) × (paging_swapfpn pte ≡ s)
unfolding place
place-swap pte s h = ground arith

pub place-zero : place 0 ≡ unmapped
unfolding place
place-zero = refl

abbrev pub byte_at : Memphy → Memphy → Place → ℕ → Option ℕ
byte_at ram swp unmapped off = none
byte_at ram swp (in_ram f) off = some (ram.storage (f * 256 + off))
byte_at ram swp (in_swap s) off = some (swp.storage (s * 256 + off))

abbrev pub where_is : Machine → ℕ → Place
where_is m pgn = place (m.mm.pgd pgn)

-- The contents of a process' memory: the byte at an offset of a page, `none` if it is not mapped.
unfoldable pub contents : Machine → ℕ → ℕ → Option ℕ
contents m pgn off = byte_at m.mram m.mswp (where_is m pgn) off

pub is_ram-in_ram : (pl : Place) → is_ram pl ≡ true → (f : ℕ) × (pl ≡ in_ram f)
is_ram-in_ram unmapped h = absurd (ground arith)
is_ram-in_ram (in_ram f) h = (f, refl)
is_ram-in_ram (in_swap s) h = absurd (ground arith)

byte_at-storage :
    (ram ram' swp : Memphy) (pl : Place) (o : ℕ)
    → ram.storage ≡ ram'.storage
    → byte_at ram swp pl o ≡ byte_at ram' swp pl o
byte_at-storage ram ram' swp unmapped o h = refl
byte_at-storage ram ram' swp (in_ram f) o h = ap (λ (t : ℕ → ℕ). some (t (f * 256 + o))) h
byte_at-storage ram ram' swp (in_swap s) o h = refl

pub contents-same_cells :
    (m : Machine) (ram : Memphy) (q o : ℕ)
    → ram.storage ≡ m.mram.storage
    → contents (record m { mram = ram }) q o ≡ contents m q o
unfolding contents
contents-same_cells m ram q o h = byte_at-storage ram m.mram m.mswp (where_is m q) o h
