-- ===== src/Stellar/Delivery/Processed.antt =====
-- The mark of an event that all consumers received.
use farm_exc.Prelude.{
  ℕ, ◌+◌, ◌<◌, String, ◌≡◌, inl, inr, true, false, some, none, Option, Option-cases, Result-cases,
  List, [], ◌∷◌, refl, ◌==◌, arith, leb, All, length,
}
use farm_exc.Repository.{Repository, IsRepository, Among}
use farm_exc.Repository.Rows.{All-replaced}
use farm_exc.Workflow.Json.{Fields}
use farm_exc.Stellar.{DeliveryStatus, StellarEvent, WebhookConsumer}
use farm_exc.Stellar.Consumers.{get_active_consumers, update_delivery_stats}
use farm_exc.Stellar.Events.{attempted, get_event_by_id, update_event_status}
use farm_exc.Stellar.Delivery.{Request, Answer, Delivery, Service, handle_successful_delivery}
use farm_exc.Stellar.Delivery.Retries.{IsFresh}

-- If the event is processed, an event of the same id was processed among the rows before.
abbrev pub Marked : List StellarEvent → StellarEvent → Type 0
Marked before e =
    e.is_processed ≡ true
    → (old : StellarEvent) × Among old before × (old.id ≡ e.id) × (old.is_processed ≡ true)

module _ (iso : ℕ → String) (stringify : Fields → String) (hmac : String → String → String)
    (post : Request → Answer) {C E : Type 0} (consumer_repo : Repository C WebhookConsumer)
    (event_repo : Repository E StellarEvent) (rows : E → List StellarEvent)
    (law : IsRepository event_repo rows (λ e. e.id)) where
  All-Marked : (d : E) → All (Marked (rows d)) (rows d)
  All-Marked d = each (rows d) (λ y here. here)
    where
      each :
          (xs : List StellarEvent)
          → ((y : StellarEvent) → Among y xs → Among y (rows d))
          → All (Marked (rows d)) xs
      each [] h = tt
      each (x ∷ xs) h =
          (λ marked. (x, h x (inl refl), refl, marked), each xs (λ y here. h y (inr here)))

  update_event_status-Marked :
      (now id : ℕ) (status : DeliveryStatus) (c : Option ℕ) (m : Option String) (d : E)
      → All (Marked (rows d)) (rows (update_event_status event_repo now id status c m d).1)
  unfolding update_event_status get_event_by_id attempted
  update_event_status-Marked now id status c m d =
      elim (Option-cases (event_repo.find_one d (λ e. e.id == id))) [
        | inl e ↦ rw (e, update_event_status, get_event_by_id) (All-Marked d)
        | inr (x, e) ↦
            let (has, here) = law.found d _ x e in
            rw (e, update_event_status, get_event_by_id, law.saved)
              (All-replaced (Marked (rows d)) (λ y. y.id == x.id) (attempted now status c m x)
                (rows d) (λ marked. (x, here, refl, marked)) (All-Marked d))
      ]

  -- A successful delivery whose event has no receiver yet marks no event as processed while two or more
  -- consumers are active: an event that is processed afterwards was processed before.
  pub handle_successful_delivery-Marked :
      (now : ℕ) (x : Delivery) (s : Service C E)
      → IsFresh x
      → (let k = (update_delivery_stats consumer_repo iso now x.consumer.id true s.consumers).1 in
          1 < length (get_active_consumers consumer_repo k))
      → All (Marked (rows s.events)) (
          rows
            (handle_successful_delivery iso stringify hmac post consumer_repo event_repo now x
              s).1.events)
  unfolding handle_successful_delivery
  handle_successful_delivery-Marked now x s f two =
      let kept =
        update_event_status-Marked now x.event.id DeliveryStatus.delivered (some x.consumer.id) none
          s.events in
      elim (Result-cases
        (update_event_status event_repo now x.event.id DeliveryStatus.delivered (some x.consumer.id)
          none s.events).0) [
            | inl (m, e) ↦ rw (e, handle_successful_delivery) kept
            | inr (v, e) ↦
                elim (Result-cases
                  (update_delivery_stats consumer_repo iso now x.consumer.id true s.consumers).0) [
                    | inl (m, e') ↦ rw (e, e', handle_successful_delivery) kept
                    | inr (c, e') ↦
                        let more : leb
                              (length (
                                get_active_consumers consumer_repo
                                  (update_delivery_stats consumer_repo iso now x.consumer.id true
                                    s.consumers).1))
                              (length x.event.delivered_to + 1)
                            ≡ false =
                          rw f.1 (ground arith) in
                        rw (e, e', more, handle_successful_delivery) kept
                  ]
          ]
