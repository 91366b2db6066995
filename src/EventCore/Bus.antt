-- ===== src/EventCore/Bus.antt =====
-- EventBus of event_driven_core/include/event_driven_core/event_bus.hpp and
-- event_driven_core/src/event_bus.cpp, over MPSCQueue. The virtual `type()` of an event is the
-- parameter `type_of`; a call of a handler is a pair of the two, and a handler does not call the bus.
pub mod Calls
pub mod Delivery
mod Tests
use velox_quant.Base.{
  ℕ, zero, suc, Option, none, some, List, [], ◌∷◌, ◌++◌, map, Assoc, lookup, insert,
}
use velox_quant.EventCore.Mpsc.{
  MpscQueue, Taken, lost, nothing, got, new_queue, exchange, store_next, dequeue,
}

pub record EventBus {ℓ κ} (E : Type ℓ) (H : Type κ) : Type (ℓ ⊔ κ) where
  pub event_queue : MpscQueue E
  pub subscribers : Assoc (List H)

-- `subscribers_[event_type]`, an empty list where there is none
unfoldable pub handlers_or_new {κ} : {H : Type κ} → Option (List H) → List H
handlers_or_new none = []
handlers_or_new (some hs) = hs

-- The whole of `enqueue`, where no other thread runs between its two steps.
unfoldable pub enqueue_alone {ℓ} : {E : Type ℓ} → E → MpscQueue E → Option (MpscQueue E)
enqueue_alone e q =
    let between = exchange e q in
    elim (store_next q.head q.fresh (lookup q.head between.heap) between.heap) [
      | none ↦ none
      | some heap ↦ some (record between { heap = heap; pending = q.pending })
    ]

module _ {ℓ κ} {E : Type ℓ} {H : Type κ} where
  abbrev pub new_bus : EventBus E H
  new_bus = record { event_queue = new_queue; subscribers = [] }

  unfoldable pub subscribe : ℕ → H → EventBus E H → EventBus E H
  subscribe kind handler bus = record bus {
    subscribers =
        insert kind (handlers_or_new (lookup kind bus.subscribers) ++ handler ∷ []) bus.subscribers;
  }

  -- A null pointer is not enqueued.
  unfoldable pub publish : Option E → EventBus E H → Option (EventBus E H)
  publish none bus = some bus
  publish (some e) bus = elim (enqueue_alone e bus.event_queue) [
    | none ↦ none
    | some q ↦ some (record bus { event_queue = q })
  ]

  -- The handlers of an event's type, called in the order of their subscription.
  unfoldable pub calls_of : (E → ℕ) → Assoc (List H) → E → List (H × E)
  calls_of type_of subscribers e = elim (lookup (type_of e) subscribers) [
    | none ↦ []
    | some handlers ↦ map (λ h. (h, e)) handlers
  ]

  unfoldable pub after_calls :
      List (H × E) → Option (List (H × E) × EventBus E H) → Option (List (H × E) × EventBus E H)
  after_calls calls none = none
  after_calls calls (some rest) = some (calls ++ rest.0, rest.1)

  -- `none` is a read of a node that is gone, or fuel that has run out.
  unfoldable pub process_events : ℕ → (E → ℕ) → EventBus E H → Option (List (H × E) × EventBus E H)
  process_events zero type_of bus = none
  process_events (suc fuel) type_of bus = elim (dequeue bus.event_queue) [
    | lost ↦ none
    | nothing ↦ some ([], bus)
    | got event q ↦ elim event [
      | none ↦ none
      | some e ↦
          after_calls (calls_of type_of bus.subscribers e)
            (process_events fuel type_of (record bus { event_queue = q }))
    ]
  ]

  unfoldable pub clear : ℕ → EventBus E H → Option (EventBus E H)
  clear zero bus = none
  clear (suc fuel) bus = elim (dequeue bus.event_queue) [
    | lost ↦ none
    | nothing ↦ some bus
    | got event q ↦ clear fuel (record bus { event_queue = q })
  ]

  unfoldable pub pending_events : EventBus E H → ℕ
  pending_events bus = 0
