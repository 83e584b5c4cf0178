-- ===== src/Stellar/Delivery/Retries.antt =====
-- The deliveries that wait, in the queue or for a timer, and the counts their events have.
use farm_exc.Prelude.{
  ℕ, zero, suc, ◌-◌, ◌+◌, ◌^◌, ◌≤◌, String, ◌≡◌, inl, inr, true, false, none, some, Result, ok, err,
  List, ◌∷◌, [], arith, All, List-cases, Bool-cases, Result-cases, map, filter, take, length, leb,
}
use farm_exc.Repository.{Repository}
use farm_exc.Repository.Rows.{All-filter, All-append, All-take, All-drop}
use farm_exc.Workflow.Json.{Fields}
use farm_exc.Stellar.Events.{update_event_status}
use farm_exc.Stellar.{DeliveryStatus, StellarEvent, WebhookConsumer, MonitorError}
use farm_exc.Stellar.Consumers.{get_consumer_by_id, get_active_consumers, update_delivery_stats}
use farm_exc.Stellar.Delivery.{
  attempt_delivery, failure_of, DeliveryResult, Request, Answer, Delivery, Timer, Service,
  calculate_backoff_delay, handle_successful_delivery, handle_failed_delivery, or_failed,
  handle_result, deliver_event_to_consumer, deliver_all, process_queue, fire_timers,
  queue_event_for_delivery,
}

-- The event has no attempt counted and no consumer that received it.
abbrev pub IsFresh : Delivery → Type 0
IsFresh x = (x.event.delivery_attempts ≡ 0) × (x.event.delivered_to ≡ [])

-- Every delivery that waits is fresh.
abbrev pub AreFresh : {C E : Type 0} → Service C E → Type 0
AreFresh s = All IsFresh s.delivery_queue × All (λ t. IsFresh t.delivery) s.timers

pow_pos : (n : ℕ) → 1 ≤ 2 ^ n
pow_pos zero = omega arith
pow_pos (suc n) = let ih = pow_pos n in omega arith

-- The delays of the first retries are 1, 2, 4, … seconds and no delay is longer than five minutes.
pub calculate_backoff_delay_bounds :
    (attempt : ℕ)
    → (1000 ≤ calculate_backoff_delay attempt) × (calculate_backoff_delay attempt ≤ 300000)
unfolding calculate_backoff_delay
calculate_backoff_delay_bounds attempt = (ground (arith, pow_pos (attempt - 1)), ground arith)

All-due :
    (ts : List Timer) → All (λ t. IsFresh t.delivery) ts → All IsFresh (map (λ t. t.delivery) ts)
All-due [] h = tt
All-due (t ∷ ts) (h, hs) = (h, All-due ts hs)

All-queued :
    (e : StellarEvent) (cs : List WebhookConsumer)
    → (e.delivery_attempts ≡ 0) × (e.delivered_to ≡ [])
    → All IsFresh (map (λ x. record { event = e; consumer = x }) cs)
All-queued e [] f = tt
All-queued e (c ∷ cs) f = (f, All-queued e cs f)

module _ (iso : ℕ → String) (stringify : Fields → String) (hmac : String → String → String)
    (post : Request → Answer) {C E : Type 0} (consumer_repo : Repository C WebhookConsumer)
    (event_repo : Repository E StellarEvent) where
  handle_failed_delivery-AreFresh :
      (now : ℕ) (x : Delivery) (r : DeliveryResult) (s : Service C E)
      → IsFresh x
      → AreFresh s
      → AreFresh
          (handle_failed_delivery iso stringify hmac post consumer_repo event_repo now x r s).1
  unfolding handle_failed_delivery
  handle_failed_delivery-AreFresh now x r s f h =
      elim (Result-cases
        (update_delivery_stats consumer_repo iso now x.consumer.id false s.consumers).0) [
          | inl (m, e) ↦ rw (e, handle_failed_delivery) h
          | inr (c, e) ↦
              elim (Bool-cases (leb x.consumer.max_retries (x.event.delivery_attempts + 1))) [
                | inl last ↦ rw (e, last, handle_failed_delivery) h
                | inr more ↦
                    rw (e, more, handle_failed_delivery)
                      (h.0, All-append (λ t. IsFresh t.delivery) s.timers _ h.1 (f, tt))
              ]
        ]

  handle_successful_delivery-AreFresh :
      (now : ℕ) (x : Delivery) (s : Service C E)
      → AreFresh s
      → AreFresh
          (handle_successful_delivery iso stringify hmac post consumer_repo event_repo now x s).1
  unfolding handle_successful_delivery
  handle_successful_delivery-AreFresh now x s h =
      elim (Result-cases
        (update_event_status event_repo now x.event.id DeliveryStatus.delivered (some x.consumer.id)
          none s.events).0) [
            | inl (m, e) ↦ rw (e, handle_successful_delivery) h
            | inr (v, e) ↦
                elim (Result-cases
                  (update_delivery_stats consumer_repo iso now x.consumer.id true s.consumers).0) [
                    | inl (m, e') ↦ rw (e, e', handle_successful_delivery) h
                    | inr (c, e') ↦
                        elim (Bool-cases (
                          leb
                            (length (
                              get_active_consumers consumer_repo
                                (update_delivery_stats consumer_repo iso now x.consumer.id true
                                  s.consumers).1))
                            (length x.event.delivered_to + 1))) [
                              | inl last ↦ rw (e, e', last, handle_successful_delivery) h
                              | inr more ↦ rw (e, e', more, handle_successful_delivery) h
                            ]
                  ]
          ]

  or_failed-AreFresh :
      (now : ℕ) (x : Delivery) (r : Result MonitorError (Unit {0}) × Service C E)
      → IsFresh x
      → AreFresh r.1
      → AreFresh (or_failed iso stringify hmac post consumer_repo event_repo now x r).1
  unfolding or_failed
  or_failed-AreFresh now x (ok _, s) f h = h
  or_failed-AreFresh now x (err m, s) f h =
      handle_failed_delivery-AreFresh now x (failure_of m) s f h

  handle_result-AreFresh :
      (now : ℕ) (x : Delivery) (r : DeliveryResult) (s : Service C E)
      → IsFresh x
      → AreFresh s
      → AreFresh (handle_result iso stringify hmac post consumer_repo event_repo now x r s).1
  unfolding handle_result
  handle_result-AreFresh now x r s f h = elim (Bool-cases r.success) [
    | inl e ↦ rw (e, handle_result) (handle_successful_delivery-AreFresh now x s h)
    | inr e ↦ rw (e, handle_result) (handle_failed_delivery-AreFresh now x r s f h)
  ]

  deliver_event_to_consumer-AreFresh :
      (now : ℕ) (x : Delivery) (s : Service C E)
      → IsFresh x
      → AreFresh s
      → AreFresh
          (deliver_event_to_consumer iso stringify hmac post consumer_repo event_repo now x s).1
  unfolding deliver_event_to_consumer
  deliver_event_to_consumer-AreFresh now x s f h =
      elim (Result-cases (get_consumer_by_id consumer_repo x.consumer.id s.consumers)) [
        | inl (m, e) ↦ rw (e, deliver_event_to_consumer) (or_failed-AreFresh now x (err m, s) f h)
        | inr (c, e) ↦ elim (Bool-cases c.is_active) [
          | inl active ↦
              rw (e, active, deliver_event_to_consumer)
                (or_failed-AreFresh now x
                  (handle_result iso stringify hmac post consumer_repo event_repo now x
                    (attempt_delivery iso stringify hmac post now x.event c) s)
                  f
                  (handle_result-AreFresh now x
                    (attempt_delivery iso stringify hmac post now x.event c) s f h))
          | inr inactive ↦
              rw (e, inactive, deliver_event_to_consumer) (or_failed-AreFresh now x (ok tt, s) f h)
        ]
      ]

  deliver_all-AreFresh :
      (now : ℕ) (xs : List Delivery) (s : Service C E)
      → All IsFresh xs
      → AreFresh s
      → AreFresh (deliver_all iso stringify hmac post consumer_repo event_repo now xs s)
  unfolding deliver_all
  deliver_all-AreFresh now [] s fs h = h
  deliver_all-AreFresh now (x ∷ xs) s (f, fs) h =
      deliver_all-AreFresh now xs _ fs (deliver_event_to_consumer-AreFresh now x s f h)

  pub process_queue-AreFresh :
      (now : ℕ) (s : Service C E)
      → AreFresh s
      → AreFresh (process_queue iso stringify hmac post consumer_repo event_repo now s)
  unfolding process_queue
  process_queue-AreFresh now s h = elim (Bool-cases s.is_processing_queue) [
    | inl e ↦ rw (e, process_queue) h
    | inr e ↦
        rw (e, process_queue)
          (deliver_all-AreFresh now (take 10 s.delivery_queue) _
            (All-take IsFresh 10 s.delivery_queue h.0)
            (All-drop IsFresh 10 s.delivery_queue h.0, h.1))
  ]

  pub fire_timers-AreFresh :
      (now : ℕ) (s : Service C E)
      → AreFresh s
      → AreFresh (fire_timers iso stringify hmac post consumer_repo event_repo now s)
  unfolding fire_timers
  fire_timers-AreFresh now s h = process_queue-AreFresh now _ (
    All-append IsFresh s.delivery_queue _ h.0
        (All-due (filter (λ t. leb t.due now) s.timers) (All-filter _ _ s.timers h.1)),
    All-filter (λ t. IsFresh t.delivery) _ s.timers h.1,
  )

  pub queue_event_for_delivery-AreFresh :
      (now : ℕ) (e : StellarEvent) (s : Service C E)
      → (e.delivery_attempts ≡ 0) × (e.delivered_to ≡ [])
      → AreFresh s
      → AreFresh
          (queue_event_for_delivery iso stringify hmac post consumer_repo event_repo now e s).1
  unfolding queue_event_for_delivery
  queue_event_for_delivery-AreFresh now e s f h =
      elim (List-cases (get_active_consumers consumer_repo s.consumers)) [
        | inl none_active ↦ rw (none_active, queue_event_for_delivery) h
        | inr (c, cs, active) ↦
            rw (active, queue_event_for_delivery)
              (process_queue-AreFresh now _
                (All-append IsFresh s.delivery_queue _ h.0 (All-queued e (c ∷ cs) f), h.1))
      ]
