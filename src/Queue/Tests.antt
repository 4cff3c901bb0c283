-- ===== src/Queue/Tests.antt =====
-- The queue theorems on a queue of two processes.
use operating_system_assignm.Prelude.{ℕ, ◌≡◌, ◌⊎◌, refl, true, arith, none, some, [], ◌∷◌, ◌++◌}
use operating_system_assignm.Queue.{Queue, enqueue, dequeue}
use operating_system_assignm.Queue.Refine.{IsQueue, processes, enqueue_refines, dequeue_refines}

abbrev pair : Queue
pair = record { proc = 31 ∷ 32 ∷ 0 ∷ 0 ∷ 0 ∷ 0 ∷ 0 ∷ 0 ∷ 0 ∷ 0 ∷ []; size = 2; slot = 5 }

pair-IsQueue : IsQueue pair
pair-IsQueue = record { array = refl; fits = omega arith }

enqueue_refines_example :
    IsQueue (enqueue pair 33).1
    × ((enqueue pair 33).1.slot ≡ 5)
    × ((enqueue pair 33).0 ≡ true)
    × ((enqueue pair 33).1.size ≡ 3)
    × (processes (enqueue pair 33).1 ≡ processes pair ++ (33 ∷ []))
enqueue_refines_example = enqueue_refines pair 33 pair-IsQueue

dequeue_refines_example :
    IsQueue (dequeue pair).1
    × ((dequeue pair).1.slot ≡ 5)
    × ((dequeue pair).1.size ≡ 1)
    × (((pair.size ≡ 0) × ((dequeue pair).0 ≡ none) × (processes (dequeue pair).1 ≡ processes pair))
        ⊎ ((p : ℕ) × ((dequeue pair).0 ≡ some p)
            × (processes pair ≡ p ∷ processes (dequeue pair).1)))
dequeue_refines_example = dequeue_refines pair pair-IsQueue
