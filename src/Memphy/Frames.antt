-- ===== src/Memphy/Frames.antt =====
-- The list of free frames and its counter, src/mm-memphy.c.
use operating_system_assignm.Prelude.{
  ℕ, zero, suc, ◌+◌, ◌-◌, ◌/◌, ◌≤◌, ◌<◌, ◌≡◌, ◌⊎◌, inl, inr, refl, true, false, arith, ◌==◌,
  if◌then◌else◌, Bool-cases, Option, none, some, List, [], ◌∷◌, length, has, Distinct, AllBelow,
  leb, ltb, ◌&&◌, not,
}
use operating_system_assignm.Memphy.{
  Memphy, count_up, format, get_freefp, take_free, put_freefp, init_memphy,
}

-- The counter is the length of the list, no frame is listed twice, and each lies in the device.
pub record IsFormatted (mp : Memphy) : Type 0 where
  pub counted : mp.num_of_free_frame ≡ length mp.free_fp_list
  pub distinct : Distinct mp.free_fp_list
  pub inside : AllBelow (mp.maxsz / 256) mp.free_fp_list

length-count_up : (from n : ℕ) → length (count_up from n) ≡ n
length-count_up from zero = refl
length-count_up from (suc n) = omega (arith, length-count_up (from + 1) n)

has-count_up : (x from n : ℕ) → has x (count_up from n) ≡ (leb from x && ltb x (from + n))
has-count_up x from zero = ground arith
has-count_up x from (suc n) = ground (arith, has-count_up x (from + 1) n)

Distinct-count_up : (from n : ℕ) → Distinct (count_up from n)
Distinct-count_up from zero = tt
Distinct-count_up from (suc n) =
    (ground (arith, has-count_up from (from + 1) n), Distinct-count_up (from + 1) n)

AllBelow-count_up : (m from n : ℕ) → from + n ≤ m → AllBelow m (count_up from n)
AllBelow-count_up m from zero h = tt
AllBelow-count_up m from (suc n) h = (omega arith, AllBelow-count_up m (from + 1) n (omega arith))

-- The list of the frames, whether one or more.
frames :
    (size : ℕ) (uninit : List ℕ)
    → 256 ≤ size
    → (size < 512 → uninit ≡ [])
    → (if size / 256 == 1 then 0 ∷ uninit else count_up 0 (size / 256)) ≡ count_up 0 (size / 256)
frames size uninit h alone = elim (Bool-cases (size / 256 == 1)) [
  | inl one ↦
      let e : size / 256 ≡ 1 = ground arith in
      let u : uninit ≡ [] = alone (omega (arith, e)) in rw (e, u) refl
  | inr more ↦ rw more refl
]

-- Let a device have at least a page and, if it has one frame only, let malloc have cleared the node
-- of that frame. After init_memphy it is random access or not by the flag, all zero, and its free
-- list holds each of its frames once.
pub init_memphy-IsFormatted :
    (mp : Memphy) (size flag : ℕ) (uninit : List ℕ)
    → 256 ≤ size
    → (size < 512 → uninit ≡ [])
    → let new = init_memphy mp size flag uninit in
      IsFormatted new
      × (new.maxsz ≡ size)
      × (new.rdmflg ≡ not (flag == 0))
      × ((f : ℕ) → has f new.free_fp_list ≡ ltb f (size / 256))
      × ((a : ℕ) → new.storage a ≡ 0)
unfolding init_memphy format
init_memphy-IsFormatted mp size flag uninit h alone = rw (frames size uninit h alone) (
  record {
    counted = ground (arith, length-count_up 0 (size / 256));
    distinct = ground (arith, Distinct-count_up 0 (size / 256));
    inside = ground (arith, AllBelow-count_up (size / 256) 0 (size / 256));
  },
  ground arith,
  ground arith,
  λ f. ground (arith, has-count_up f 0 (size / 256)),
  λ a. ground arith,
)

-- `get_freefp` fails on an empty list, with nothing changed, and else takes the first frame.
abbrev pub Taken : Memphy → List ℕ → Option (ℕ × Memphy) → Type 0
Taken mp xs r =
    ((xs ≡ []) × (r ≡ none))
    ⊎ ((f : ℕ) × (rest : List ℕ) × (xs ≡ f ∷ rest)
        × (r
            ≡ some (
              f,
              record mp { free_fp_list = rest; num_of_free_frame = mp.num_of_free_frame - 1 },
            )))

take_free-Taken : (mp : Memphy) (xs : List ℕ) → Taken mp xs (take_free mp xs)
unfolding take_free
take_free-Taken mp [] = inl (refl, refl)
take_free-Taken mp (f ∷ rest) = inr (f, rest, refl, refl)

pub get_freefp-Taken : (mp : Memphy) → Taken mp mp.free_fp_list (get_freefp mp)
unfolding get_freefp
get_freefp-Taken mp = take_free-Taken mp mp.free_fp_list

-- A frame that get_freefp hands out of a formatted device was free and is free no more, and the
-- device stays formatted.
pub get_freefp-IsFormatted :
    {mp mp' : Memphy} {f : ℕ}
    → IsFormatted mp
    → get_freefp mp ≡ some (f, mp')
    → IsFormatted mp'
      × (has f mp.free_fp_list ≡ true)
      × (has f mp'.free_fp_list ≡ false)
      × (mp'.num_of_free_frame + 1 ≡ mp.num_of_free_frame)
      × (mp'.storage ≡ mp.storage)
get_freefp-IsFormatted {mp} v e = ground (arith, get_freefp-Taken mp)

-- A frame inside of a formatted device that is not free can be put back, and the device stays
-- formatted.
pub put_freefp-IsFormatted :
    {mp : Memphy} (f : ℕ)
    → IsFormatted mp
    → f < mp.maxsz / 256
    → has f mp.free_fp_list ≡ false
    → IsFormatted (put_freefp mp f)
unfolding put_freefp
put_freefp-IsFormatted f v h n = ground arith

take_free-some :
    (mp : Memphy) (xs : List ℕ) (f : ℕ) (mp' : Memphy)
    → take_free mp xs ≡ some (f, mp')
    → (rest : List ℕ) × (xs ≡ f ∷ rest)
      × (mp' ≡ record mp { free_fp_list = rest; num_of_free_frame = mp.num_of_free_frame - 1 })
unfolding take_free
take_free-some mp [] f mp' h = absurd (ground arith)
take_free-some mp (x ∷ rest) f mp' h = (rest, ground arith, ground arith)

pub get_freefp-some :
    (mp : Memphy) (f : ℕ) (mp' : Memphy)
    → get_freefp mp ≡ some (f, mp')
    → (rest : List ℕ) × (mp.free_fp_list ≡ f ∷ rest)
      × (mp' ≡ record mp { free_fp_list = rest; num_of_free_frame = mp.num_of_free_frame - 1 })
unfolding get_freefp
get_freefp-some mp f mp' h = take_free-some mp mp.free_fp_list f mp' h
