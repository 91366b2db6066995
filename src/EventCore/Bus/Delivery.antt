-- ===== src/EventCore/Bus/Delivery.antt =====
-- Events that are published and then processed, by one thread, over event_driven_core/src/event_bus.cpp.
use velox_quant.Base.{
  ℕ, ◌<◌, ◌≡◌, ◌==◌, if◌then◌else◌, Bool-cases, inl, inr, ==_iff, refl, sym, subst, ap, ◌∙◌, Option,
  none, some, List, [], ◌∷◌, ◌++◌, append-nil, map, lookup, lookup-insert, drop, drop_append,
  length-append, append_assoc, length, Assoc, insert, arith,
}
use velox_quant.EventCore.Mpsc.{MpscQueue, exchange}
use velox_quant.EventCore.Mpsc.Linked.{MpscOk, exchange-MpscOk}
use velox_quant.EventCore.Mpsc.Order.{link-MpscOk}
use velox_quant.EventCore.Bus.{
  EventBus, handlers_or_new, subscribe, calls_of, enqueue_alone, publish, process_events,
}
use velox_quant.EventCore.Bus.Calls.{calls_for, process_events-calls}

module _ {ℓ κ} {E : Type ℓ} {H : Type κ} where
  -- Subscriptions, a type and a handler each, in their order.
  unfoldable pub subscribe_all : List (ℕ × H) → EventBus E H → EventBus E H
  subscribe_all [] bus = bus
  subscribe_all ((kind, handler) ∷ more) bus = subscribe_all more (subscribe kind handler bus)

  -- The calls that an event is due: those of the subscriptions to its type, in their order.
  unfoldable pub due : (E → ℕ) → E → List (ℕ × H) → List (H × E)
  due type_of e [] = []
  due type_of e ((kind, handler) ∷ more) =
      let later = due type_of e more in if kind == type_of e then (handler, e) ∷ later else later

  unfoldable pub deliveries : (E → ℕ) → List (ℕ × H) → List E → List (H × E)
  deliveries type_of subs [] = []
  deliveries type_of subs (e ∷ more) = due type_of e subs ++ deliveries type_of subs more

  abbrev called_for : E → List H → List (H × E)
  called_for e handlers = map (λ h. (h, e)) handlers

  called_for-append :
      (e : E) (xs ys : List H) → called_for e (xs ++ ys) ≡ called_for e xs ++ called_for e ys
  called_for-append e [] ys = refl
  called_for-append e (x ∷ xs) ys = ap (λ t. (x, e) ∷ t) (called_for-append e xs ys)

  calls_of-handlers :
      (type_of : E → ℕ) (subscribers : Assoc (List H)) (e : E)
      → calls_of type_of subscribers e
        ≡ called_for e (handlers_or_new (lookup (type_of e) subscribers))
  unfolding calls_of handlers_or_new
  calls_of-handlers type_of subscribers e = ground arith

  calls_of-subscribe :
      (type_of : E → ℕ) (kind : ℕ) (handler : H) (bus : EventBus E H) (e : E)
      → calls_of type_of (subscribe kind handler bus).subscribers e
        ≡ calls_of type_of bus.subscribers e
          ++ (if kind == type_of e then (handler, e) ∷ [] else [])
  unfolding subscribe handlers_or_new
  calls_of-subscribe type_of kind handler bus e =
      let held = handlers_or_new (lookup kind bus.subscribers) ++ handler ∷ [] in
      let before = calls_of-handlers type_of bus.subscribers e in
      let found = lookup-insert kind (type_of e) held bus.subscribers in
      calls_of-handlers type_of (insert kind held bus.subscribers) e
      ∙ ap (λ t. called_for e (handlers_or_new t)) found
      ∙ elim (Bool-cases (kind == type_of e)) [
        | inl same ↦
            let is : kind ≡ type_of e = (==_iff kind (type_of e)).0 same in
            rw same (
              called_for-append e (handlers_or_new (lookup kind bus.subscribers)) (handler ∷ [])
              ∙ ap (λ t. t ++ (handler, e) ∷ [])
                  (ap (λ k. called_for e (handlers_or_new (lookup k bus.subscribers))) is
                    ∙ sym before))
        | inr other ↦ rw other (sym before ∙ sym (append-nil (calls_of type_of bus.subscribers e)))
      ]

  calls_of-subscribe_all :
      (type_of : E → ℕ) (subs : List (ℕ × H)) (bus : EventBus E H) (e : E)
      → calls_of type_of (subscribe_all subs bus).subscribers e
        ≡ calls_of type_of bus.subscribers e ++ due type_of e subs
  unfolding subscribe_all due
  calls_of-subscribe_all type_of [] bus e = sym (append-nil (calls_of type_of bus.subscribers e))
  calls_of-subscribe_all type_of ((kind, handler) ∷ more) bus e =
      let later = calls_of-subscribe_all type_of more (subscribe kind handler bus) e in
      let now_ = calls_of-subscribe type_of kind handler bus e in
      let joined =
        append_assoc (calls_of type_of bus.subscribers e) ((handler, e) ∷ [])
          (due type_of e more) in
      later ∙ ap (λ t. t ++ due type_of e more) now_ ∙ elim (Bool-cases (kind == type_of e)) [
        | inl same ↦ rw same joined
        | inr other ↦
            rw other
              (ap (λ t. t ++ due type_of e more) (append-nil (calls_of type_of bus.subscribers e)))
      ]

  queue-subscribe_all :
      (subs : List (ℕ × H)) (bus : EventBus E H)
      → (subscribe_all subs bus).event_queue ≡ bus.event_queue
  unfolding subscribe_all subscribe
  queue-subscribe_all [] bus = refl
  queue-subscribe_all ((kind, handler) ∷ more) bus =
      queue-subscribe_all more (subscribe kind handler bus)

  calls_for-deliveries :
      (type_of : E → ℕ) (subs : List (ℕ × H)) (events : List E) (bus : EventBus E H)
      → bus.subscribers ≡ []
      → calls_for type_of (subscribe_all subs bus).subscribers events
        ≡ deliveries type_of subs events
  unfolding calls_for deliveries calls_of lookup
  calls_for-deliveries type_of subs [] bus none_yet = refl
  calls_for-deliveries type_of subs (e ∷ more) bus none_yet =
      let first : calls_of type_of (subscribe_all subs bus).subscribers e ≡ due type_of e subs =
        calls_of-subscribe_all type_of subs bus e
        ∙ ap (λ s. calls_of type_of s e ++ due type_of e subs) none_yet in
      ap (λ t. t ++ calls_for type_of (subscribe_all subs bus).subscribers more) first
      ∙ ap (λ t. due type_of e subs ++ t) (calls_for-deliveries type_of subs more bus none_yet)

  unfoldable pub publish_all : List E → EventBus E H → Option (EventBus E H)
  publish_all [] bus = some bus
  publish_all (e ∷ more) bus = elim (publish (some e) bus) [
    | none ↦ none
    | some bus' ↦ publish_all more bus'
  ]

  -- One more event, with nothing owed before or after.
  publish-MpscOk :
      (sent : List E) (taken : ℕ) (e : E) (bus : EventBus E H)
      → MpscOk sent taken bus.event_queue
      → bus.event_queue.pending ≡ []
      → (bus' : EventBus E H) × (publish (some e) bus ≡ some bus')
        × (bus'.subscribers ≡ bus.subscribers)
        × (bus'.event_queue.pending ≡ [])
        × MpscOk (sent ++ e ∷ []) taken bus'.event_queue
  unfolding exchange enqueue_alone insert publish
  publish-MpscOk sent taken e bus ok idle =
      let q = bus.event_queue in
      let between = exchange e q in
      let (heap, stored, kept) =
        link-MpscOk (sent ++ e ∷ []) taken between q.pending [] q.head q.fresh
          (exchange-MpscOk sent taken e q ok) refl in
      let q' : MpscQueue E = record between { heap = heap; pending = q.pending } in
      let linked : enqueue_alone e q ≡ some q' = rw (stored, enqueue_alone) refl in
      (
        record bus { event_queue = q' },
        rw (linked, publish) refl,
        refl,
        idle,
        subst (λ p. MpscOk (sent ++ e ∷ []) taken (record between { heap = heap; pending = p }))
            (append-nil q.pending) kept,
      )

  publish_all-MpscOk :
      (events sent : List E) (taken : ℕ) (bus : EventBus E H)
      → MpscOk sent taken bus.event_queue
      → bus.event_queue.pending ≡ []
      → (bus' : EventBus E H) × (publish_all events bus ≡ some bus')
        × (bus'.subscribers ≡ bus.subscribers)
        × (bus'.event_queue.pending ≡ [])
        × MpscOk (sent ++ events) taken bus'.event_queue
  unfolding publish_all
  publish_all-MpscOk [] sent taken bus ok idle = (
    bus,
    refl,
    refl,
    idle,
    subst (λ l. MpscOk l taken bus.event_queue) (sym (append-nil sent)) ok,
  )
  publish_all-MpscOk (e ∷ more) sent taken bus ok idle =
      let (next, published, same, settled, ok') = publish-MpscOk sent taken e bus ok idle in
      let (bus', all, same', settled', out) =
        publish_all-MpscOk more (sent ++ e ∷ []) taken next ok' settled in
      (
        bus',
        rw (published, publish_all) all,
        same' ∙ same,
        settled',
        subst (λ l. MpscOk l taken bus'.event_queue) (append_assoc sent (e ∷ []) more) out,
      )

  -- Handlers that are subscribed on a bus without subscriptions, and events that are then published
  -- on it, where its queue is empty, and processed by the same thread with fuel for each event and one
  -- more: every event calls the handlers subscribed to its type, each once, in the order of the events
  -- and for each in the order of the subscriptions, no other call is made, and the queue is empty
  -- again.
  pub publish_all-process_events :
      (type_of : E → ℕ) (subs : List (ℕ × H)) (events sent : List E) (bus : EventBus E H) (fuel : ℕ)
      → bus.subscribers ≡ []
      → MpscOk sent (length sent) bus.event_queue
      → bus.event_queue.pending ≡ []
      → length events < fuel
      → (full done : EventBus E H) × (publish_all events (subscribe_all subs bus) ≡ some full)
        × (process_events fuel type_of full ≡ some (deliveries type_of subs events, done))
        × MpscOk (sent ++ events) (length (sent ++ events)) done.event_queue
  publish_all-process_events type_of subs events sent bus fuel none_yet ok idle enough =
      let start = subscribe_all subs bus in
      let queue = queue-subscribe_all subs bus in
      let (full, published, same, settled, ok') =
        publish_all-MpscOk events sent (length sent) start
          (subst (MpscOk sent (length sent)) (sym queue) ok) (ap (λ q. q.pending) queue ∙ idle) in
      let (done, processed, empty) =
        process_events-calls type_of fuel (sent ++ events) (length sent) full ok' settled
          (omega (arith, length-append sent events)) in
      (
        full,
        done,
        published,
        processed
            ∙ ap (λ s. some (calls_for type_of s (drop (length sent) (sent ++ events)), done)) same
            ∙ ap (λ l. some (calls_for type_of start.subscribers l, done))
                (drop_append sent events (length sent) refl)
            ∙ ap (λ t. some (t, done)) (calls_for-deliveries type_of subs events bus none_yet),
        empty,
      )
