-- ===== src/EventCore/Tests.antt =====
-- Runs of the queues.
use velox_quant.Base.{
  ℕ, ◌+◌, ◌<◌, ◌≤◌, ◌^◌, ◌≡◌, true, false, none, some, List, [], ◌∷◌, ◌++◌, ◌⊎◌, ◌==◌, arith,
}
use velox_quant.EventCore.Spsc.{SpscQueue, fresh, enqueue, dequeue, size, empty}
use velox_quant.EventCore.Spsc.Refine.{
  Holds, enqueue-Holds, dequeue-Holds, size-Holds, fresh-Holds, enqueued,
}

abbrev four_slots : SpscQueue ℕ
four_slots = fresh 0 (2 ^ 2)

enqueue-Holds_example :
    ((0 + 1 < 2 ^ 2)
      × ((enqueue 7 four_slots).0 ≡ true)
      × Holds (enqueue 7 four_slots).1 ([] ++ 7 ∷ []))
    ⊎ ((0 + 1 ≡ 2 ^ 2) × (enqueue 7 four_slots ≡ (false, four_slots)))
enqueue-Holds_example = enqueue-Holds 7 four_slots [] (fresh-Holds 0 2)

abbrev one_list : List ℕ
one_list = 7 ∷ []

abbrev one_item : SpscQueue ℕ
one_item = (enqueue 7 four_slots).1

one_item-Holds : Holds one_item one_list
unfolding enqueue
one_item-Holds = enqueued 7 four_slots [] (fresh-Holds 0 2) (omega arith)

dequeue-Holds_example :
    ((one_list ≡ []) × (dequeue one_item ≡ (none, one_item)))
    ⊎ ((a : ℕ) × (rest : List ℕ) × (one_list ≡ a ∷ rest)
        × ((dequeue one_item).0 ≡ some a)
        × Holds (dequeue one_item).1 rest)
dequeue-Holds_example = dequeue-Holds one_item one_list one_item-Holds

size-Holds_example : (size one_item ≡ 1) × (empty one_item ≡ (1 == 0))
unfolding enqueue
size-Holds_example = size-Holds one_item one_list one_item-Holds small
  where
    small : one_item.capacity ≤ 2 ^ 64
    small = omega arith
