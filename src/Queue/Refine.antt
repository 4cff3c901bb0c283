-- ===== src/Queue/Refine.antt =====
-- src/queue.c against lists.
use operating_system_assignm.Prelude.{
  ℕ, zero, suc, ◌+◌, ◌-◌, ◌≤◌, ◌<◌, ◌≡◌, ◌⊎◌, inl, inr, refl, arith, ltb, leb, ◌==◌, ◌&&◌,
  if◌then◌else◌, none, some, List, [], ◌∷◌, ◌++◌, Bool-cases, length, set, length-set, get_or,
  get_or-set, weigh,
}
use operating_system_assignm.Queue.{Queue, max_queue_size, empty, enqueue, shift, dequeue}

-- `n` entries of the array from index `h` on.
abbrev window : List ℕ → ℕ → ℕ → List ℕ
window xs h zero = []
window xs h (suc n) = get_or xs h 0 ∷ window xs (h + 1) n

-- The processes of a queue, the next one first.
pub processes : Queue → List ℕ
processes q = window q.proc 0 q.size

-- The slots have no part in it.
pub processes-slot : (q : Queue) (s : ℕ) → processes (record q { slot = s }) ≡ processes q
unfolding processes
processes-slot q s = refl

pub processes-nil : (q : Queue) → q.size ≡ 0 → processes q ≡ []
unfolding processes
processes-nil q z = rw z refl

weigh-window : (xs : List ℕ) (h n : ℕ) → weigh (λ _. 1) (window xs h n) ≡ n
weigh-window xs h zero = refl
weigh-window xs h (suc n) = omega (arith, weigh-window xs (h + 1) n)

pub weigh-processes : (q : Queue) → weigh (λ _. 1) (processes q) ≡ q.size
unfolding processes
weigh-processes q = weigh-window q.proc 0 q.size

pub record IsQueue (q : Queue) : Type 0 where
  pub array : length q.proc ≡ max_queue_size
  pub fits : q.size ≤ max_queue_size

window-cong :
    (xs ys : List ℕ) (h k n : ℕ)
    → ((i : ℕ) → i < n → get_or xs (h + i) 0 ≡ get_or ys (k + i) 0)
    → window xs h n ≡ window ys k n
window-cong xs ys h k zero e = refl
window-cong xs ys h k (suc n) e =
    ground (arith, e 0, window-cong xs ys (h + 1) (k + 1) n (λ i l. ground (arith, e (i + 1))))

length-shift : (n i : ℕ) (xs : List ℕ) → length (shift n i xs) ≡ length xs
unfolding shift
length-shift zero i xs = refl
length-shift (suc n) i xs = ground (
  arith,
  length-shift n (i + 1) (set xs (i - 1) (get_or xs i 0)),
  length-set xs (i - 1) (get_or xs i 0),
)

-- The loop moves the entries `i`, …, `i + n - 1` down by one.
get_or-shift :
    (n i k : ℕ) (xs : List ℕ)
    → 0 < i
    → i + n ≤ length xs
    → get_or (shift n i xs) k 0
      ≡ (if leb i (k + 1) && ltb (k + 1) (i + n) then get_or xs (k + 1) 0 else get_or xs k 0)
unfolding shift
get_or-shift zero i k xs p h = ground arith
get_or-shift (suc n) i k xs p h = ground (
  arith,
  get_or-shift n (i + 1) k (set xs (i - 1) (get_or xs i 0)) (omega arith)
      (omega (arith, length-set xs (i - 1) (get_or xs i 0))),
  get_or-set xs (i - 1) k (get_or xs i 0) 0 (omega arith),
  get_or-set xs (i - 1) (k + 1) (get_or xs i 0) 0 (omega arith),
)

window-snoc :
    (xs : List ℕ) (h n : ℕ) → window xs h (suc n) ≡ window xs h n ++ (get_or xs (h + n) 0 ∷ [])
window-snoc xs h zero = ground arith
window-snoc xs h (suc n) = ground (arith, window-snoc xs (h + 1) n)

window-set :
    (xs : List ℕ) (n p : ℕ)
    → n < length xs
    → window (set xs n p) 0 (n + 1) ≡ window xs 0 n ++ (p ∷ [])
window-set xs n p h = ground (
  arith,
  window-snoc (set xs n p) 0 n,
  window-cong (set xs n p) xs 0 0 n (λ i l. ground (arith, get_or-set xs n (0 + i) p 0 h)),
  get_or-set xs n (0 + n) p 0 h,
)

window-shift : (n : ℕ) (xs : List ℕ) → n + 1 ≤ length xs → window (shift n 1 xs) 0 n ≡ window xs 1 n
window-shift n xs h =
    window-cong (shift n 1 xs) xs 0 1 n
      (λ i l. ground (arith, get_or-shift n 1 (0 + i) xs (omega arith) (omega arith)))

window_of_pos : (xs : List ℕ) (n : ℕ) → 0 < n → window xs 0 n ≡ get_or xs 0 0 ∷ window xs 1 (n - 1)
window_of_pos xs zero h = absurd (omega arith)
window_of_pos xs (suc n) h = ground arith

-- On a queue in order, enqueue puts the process last and says so, unless ten are there; then it
-- changes nothing.
pub enqueue_refines :
    (q : Queue) (p : ℕ)
    → IsQueue q
    → let (stored, q') = enqueue q p in
      IsQueue q'
      × (q'.slot ≡ q.slot)
      × (stored ≡ ltb q.size max_queue_size)
      × (q'.size ≡ (if ltb q.size max_queue_size then q.size + 1 else q.size))
      × (processes q'
          ≡ (if ltb q.size max_queue_size then processes q ++ (p ∷ []) else processes q))
unfolding enqueue processes
enqueue_refines q p v = ground (arith, window-set q.proc q.size p, length-set q.proc q.size p)

-- On a queue in order, dequeue gives the first process and keeps the others in their order; NULL if
-- there is none.
pub dequeue_refines :
    (q : Queue)
    → IsQueue q
    → let (out, q') = dequeue q in
      IsQueue q'
      × (q'.slot ≡ q.slot)
      × (q'.size ≡ q.size - 1)
      × (((q.size ≡ 0) × (out ≡ none) × (processes q' ≡ processes q))
          ⊎ ((p : ℕ) × (out ≡ some p) × (processes q ≡ p ∷ processes q')))
unfolding dequeue processes empty
dequeue_refines q v = elim (Bool-cases (q.size == 0)) [
  | inl none_left ↦ (ground arith, ground arith, ground arith, inl (ground arith))
  | inr some_left ↦ (
    ground (arith, length-shift (q.size - 1) 1 q.proc),
    ground arith,
    ground arith,
    inr (
      get_or q.proc 0 0,
      ground arith,
      ground (arith, window-shift (q.size - 1) q.proc, window_of_pos q.proc q.size),
    ),
  )
]
