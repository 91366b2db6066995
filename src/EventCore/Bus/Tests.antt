-- ===== src/EventCore/Bus/Tests.antt =====
-- Three subscriptions, two of them to one type, and two events. An event is its type here, a handler a
-- name.
use velox_quant.Base.{ℕ, ◌≡◌, List, [], ◌∷◌, some, refl, arith}
use velox_quant.EventCore.Mpsc.Linked.{MpscOk, new_queue-MpscOk}
use velox_quant.EventCore.Bus.{EventBus, new_bus, process_events}
use velox_quant.EventCore.Bus.Delivery.{
  publish_all, subscribe_all, deliveries, due, publish_all-process_events,
}

abbrev three_subs : List (ℕ × ℕ)
three_subs = (1, 100) ∷ (2, 200) ∷ (1, 101) ∷ []

three_calls : deliveries (λ e. e) three_subs (2 ∷ 1 ∷ []) ≡ (200, 2) ∷ (100, 1) ∷ (101, 1) ∷ []
unfolding deliveries due
three_calls = refl

publish_all-process_events_example :
    (full done : EventBus ℕ ℕ) × (publish_all (2 ∷ 1 ∷ []) (subscribe_all three_subs new_bus)
      ≡ some full)
    × (process_events 3 (λ e. e) full ≡ some (deliveries (λ e. e) three_subs (2 ∷ 1 ∷ []), done))
    × MpscOk (2 ∷ 1 ∷ []) 2 done.event_queue
publish_all-process_events_example =
    publish_all-process_events (λ e. e) three_subs (2 ∷ 1 ∷ []) [] new_bus 3 refl new_queue-MpscOk
      refl (omega arith)
