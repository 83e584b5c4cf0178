-- ===== src/Stellar/Monitor/Reach.antt =====
-- The states that the queue of Backend/src/stellar-monitor comes to, and the retries in them.
use farm_exc.Prelude.{
  ℕ, ◌+◌, ◌<◌, String, ◌≡◌, refl, inl, inr, false, Option-cases, some, none, ok, err, ◌==◌, ◌∷◌, [],
  ◌++◌, arith, leb,
}
use farm_exc.Repository.{Repository}
use farm_exc.Workflow.Json.{Fields}
use farm_exc.Stellar.{StellarEvent, WebhookConsumer, consumer_not_found}
use farm_exc.Stellar.Consumers.{update_delivery_stats, change, get_consumer_by_id}
use farm_exc.Stellar.Events.{EventData, save_event}
use farm_exc.Stellar.Delivery.{
  DeliveryResult, Request, Answer, Delivery, Service, calculate_backoff_delay,
  handle_failed_delivery, process_queue, fire_timers,
}
use farm_exc.Stellar.Monitor.{save_and_queue}
use farm_exc.Stellar.Delivery.Retries.{
  IsFresh, AreFresh, process_queue-AreFresh, fire_timers-AreFresh,
  queue_event_for_delivery-AreFresh,
}

module _ (iso : ℕ → String) (stringify : Fields → String) (hmac : String → String → String)
    (post : Request → Answer) {C E : Type 0} (consumer_repo : Repository C WebhookConsumer)
    (event_repo : Repository E StellarEvent) where
  -- What happens to the service: an event comes in, a second passes, timers are due, or consumers are
  -- managed, in any way.
  pub data Reaches : Service C E → Service C E → Type 0 where
    here : {s : Service C E} → Reaches s s
    received :
        {s t : Service C E} (now : ℕ) (x : EventData)
        → Reaches s t
        → Reaches s ((save_and_queue iso stringify hmac post consumer_repo event_repo now x t).1)
    ticked :
        {s t : Service C E} (now : ℕ)
        → Reaches s t
        → Reaches s (process_queue iso stringify hmac post consumer_repo event_repo now t)
    fired :
        {s t : Service C E} (now : ℕ)
        → Reaches s t
        → Reaches s (fire_timers iso stringify hmac post consumer_repo event_repo now t)
    managed : {s t : Service C E} (k : C) → Reaches s t → Reaches s (record t { consumers = k })

  -- From a state in which no delivery waits, the service only comes to states in which every delivery
  -- that waits has an event without attempts and receivers, whatever failed on the way.
  pub Reaches-AreFresh :
      (s t : Service C E) → s.delivery_queue ≡ [] → s.timers ≡ [] → Reaches s t → AreFresh t
  unfolding save_and_queue save_event
  Reaches-AreFresh s t q w here = rw (q, w) (tt, tt)
  Reaches-AreFresh s _ q w (received {t = t} now x r) =
      queue_event_for_delivery-AreFresh iso stringify hmac post consumer_repo event_repo now
        (save_event event_repo x t.events).0
        (record t { events = (save_event event_repo x t.events).1 }) (refl, refl)
        (Reaches-AreFresh s t q w r)
  Reaches-AreFresh s _ q w (ticked {t = t} now r) =
      process_queue-AreFresh iso stringify hmac post consumer_repo event_repo now t
        (Reaches-AreFresh s t q w r)
  Reaches-AreFresh s _ q w (fired {t = t} now r) =
      fire_timers-AreFresh iso stringify hmac post consumer_repo event_repo now t
        (Reaches-AreFresh s t q w r)
  Reaches-AreFresh s _ q w (managed {t = t} k r) = Reaches-AreFresh s t q w r

  -- The failure of a delivery whose event has no attempt, to a consumer that allows more than one, writes
  -- nothing about the event. If the consumer's row is there, the same delivery is tried again a second
  -- later, besides those that wait; if it is gone, no timer is set and the call throws.
  pub handle_failed_delivery_again :
      (now : ℕ) (x : Delivery) (r : DeliveryResult) (s : Service C E)
      → IsFresh x
      → 1 < x.consumer.max_retries
      → let out =
          handle_failed_delivery iso stringify hmac post consumer_repo event_repo now x r s in
        let row = consumer_repo.find_one s.consumers (λ c. c.id == x.consumer.id) in
        (out.1.events ≡ s.events)
        × ((c : WebhookConsumer)
            → row ≡ some c
            → (out.0 ≡ ok tt)
              × (out.1.timers ≡ s.timers ++ (record { due = now + 1000; delivery = x }) ∷ []))
        × (row ≡ none
            → (out.0 ≡ err (consumer_not_found x.consumer.id)) × (out.1.timers ≡ s.timers))
  unfolding handle_failed_delivery calculate_backoff_delay update_delivery_stats change
      get_consumer_by_id
  handle_failed_delivery_again now x r s f more =
      let again : leb x.consumer.max_retries (x.event.delivery_attempts + 1) ≡ false =
        ground (arith, f.0) in
      elim (Option-cases (consumer_repo.find_one s.consumers (λ c. c.id == x.consumer.id))) [
        | inl e ↦ (
          rw (e, handle_failed_delivery, update_delivery_stats, change, get_consumer_by_id) refl,
          λ c e'. cc,
          λ e'.
              rw (e, handle_failed_delivery, update_delivery_stats, change, get_consumer_by_id)
                (refl, refl),
        )
        | inr (c, e) ↦ (
          rw (e, again, handle_failed_delivery, update_delivery_stats, change, get_consumer_by_id)
              refl,
          λ c' e'.
              rw
                (
                  e, again, handle_failed_delivery, f.0, update_delivery_stats, change,
                  get_consumer_by_id,
                )
                (refl, refl),
          λ e'. cc,
        )
      ]
