-- ===== src/EventCore/Bus/Calls.antt =====
-- The calls that process_events of event_driven_core/src/event_bus.cpp makes.
use velox_quant.Base.{
  ℕ, zero, suc, ◌-◌, ◌≤◌, ◌<◌, ◌≡◌, ◌⊎◌, refl, sym, ap, subst, ◌∙◌, inl, inr, some, List, [], ◌∷◌,
  ◌++◌, length, drop, get_elem?, Assoc, arith,
}
use velox_quant.EventCore.Mpsc.{MpscQueue, Taken, nothing, got, dequeue}
use velox_quant.EventCore.Mpsc.Linked.{owed, MpscOk}
use velox_quant.EventCore.Mpsc.Order.{Gives, waits, gives, dequeue-Gives}
use velox_quant.EventCore.Bus.{EventBus, calls_of, after_calls, process_events}

drop-cons {ℓ} :
    {E : Type ℓ} (sent : List E) (i : ℕ)
    → i < length sent
    → (e : E) × (get_elem? sent i ≡ some e) × (drop i sent ≡ e ∷ drop (suc i) sent)
drop-cons [] i h = absurd (omega arith)
drop-cons (x ∷ xs) zero h = (x, refl, refl)
drop-cons (x ∷ xs) (suc i) h = drop-cons xs i (omega arith)

drop-end {ℓ} : {E : Type ℓ} (sent : List E) (i : ℕ) → length sent ≤ i → drop i sent ≡ []
drop-end [] zero h = refl
drop-end [] (suc i) h = refl
drop-end (x ∷ xs) zero h = absurd (omega arith)
drop-end (x ∷ xs) (suc i) h = drop-end xs i (omega arith)

-- The next event of a queue on which no link is owed, or none, and then none is left.
next_event {ℓ} :
    {E : Type ℓ} (sent : List E) (taken : ℕ) (q : MpscQueue E) (t : Taken E)
    → q.pending ≡ []
    → dequeue q ≡ t
    → Gives sent taken q t
    → ((taken ≡ length sent) × (dequeue q ≡ nothing))
      ⊎ ((e : E) × (q' : MpscQueue E) × (dequeue q ≡ got (some e) q')
          × (drop taken sent ≡ e ∷ drop (suc taken) sent)
          × (q'.pending ≡ [])
          × (taken < length sent)
          × MpscOk sent (suc taken) q')
unfolding owed
next_event sent taken q t idle is (waits (inl done)) = inl (done, is)
next_event sent taken q t idle is (waits (inr owes)) =
    absurd (omega (arith, owes, ap (owed taken) idle))
next_event sent taken q t idle is (gives v q' same less kept ok) =
    let (e, at, split) = drop-cons sent taken less in
    inr (e, q', is ∙ ap (λ w. got w q') (same ∙ at), split, kept ∙ idle, less, ok)

module _ {ℓ κ} {E : Type ℓ} {H : Type κ} where
  -- The calls for events in their order.
  unfoldable pub calls_for : (E → ℕ) → Assoc (List H) → List E → List (H × E)
  calls_for type_of subscribers [] = []
  calls_for type_of subscribers (e ∷ more) =
      calls_of type_of subscribers e ++ calls_for type_of subscribers more

  -- Where no link is owed, as where every producer has finished, process_events ends with as much
  -- fuel as there are events and one more: it calls, event by event in the order in which they were
  -- published, the handlers of the event's type in the order of their subscription, and leaves no
  -- event.
  pub process_events-calls :
      (type_of : E → ℕ) (fuel : ℕ) (sent : List E) (taken : ℕ) (bus : EventBus E H)
      → MpscOk sent taken bus.event_queue
      → bus.event_queue.pending ≡ []
      → length sent - taken < fuel
      → (bus' : EventBus E H) × (process_events fuel type_of bus
          ≡ some (calls_for type_of bus.subscribers (drop taken sent), bus'))
        × MpscOk sent (length sent) bus'.event_queue
  unfolding process_events after_calls calls_for
  process_events-calls type_of zero sent taken bus ok idle enough = absurd (omega arith)
  process_events-calls type_of (suc fuel) sent taken bus ok idle enough =
      let q = bus.event_queue in
      elim (next_event sent taken q (dequeue q) idle refl (dequeue-Gives sent taken q ok)) [
        | inl (done, is) ↦ (
          bus,
          rw (is, process_events)
              (ap (λ l. some (calls_for type_of bus.subscribers l, bus))
                (sym (drop-end sent taken (omega arith)))),
          subst (λ n. MpscOk sent n q) done ok,
        )
        | inr (e, q', is, split, settled, less, ok') ↦
            let next : EventBus E H = record bus { event_queue = q' } in
            let (bus', later, out) =
              process_events-calls type_of fuel sent (suc taken) next ok' settled (omega arith) in
            (
              bus',
              rw (is, process_events)
                  (ap (after_calls (calls_of type_of bus.subscribers e)) later
                    ∙ ap (λ l. some (calls_for type_of bus.subscribers l, bus')) (sym split)),
              out,
            )
      ]
