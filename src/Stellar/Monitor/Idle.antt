-- ===== src/Stellar/Monitor/Idle.antt =====
-- An event that comes in while no consumer is active.
use farm_exc.Prelude.{
  ℕ, String, ◌≡◌, refl, sym, ◌∙◌, inl, inr, true, false, some, ok, Option-cases, List, [], ◌∷◌,
  ◌++◌, ◌==◌, ==_iff, arith, ap, All, map, if◌then◌else◌,
}
use farm_exc.Repository.{Repository, IsRepository, Among}
use farm_exc.Repository.Rows.{All-Among, Among-added}
use farm_exc.Workflow.Json.{Fields}
use farm_exc.Stellar.{StellarEvent, WebhookConsumer}
use farm_exc.Stellar.Consumers.{get_active_consumers}
use farm_exc.Stellar.Events.{EventData, save_event, get_event_by_id, mark_event_as_processed}
use farm_exc.Stellar.Delivery.{Request, Answer, Service, queue_event_for_delivery}
use farm_exc.Stellar.Monitor.{save_and_queue}

-- A change of the rows with an id, of which the last is the first.
replaced_last :
    (id : ℕ) (z x : StellarEvent) (rows : List StellarEvent)
    → All (λ y. (y.id == id) ≡ false) rows
    → (x.id == id) ≡ true
    → map (λ y. if y.id == id then z else y) (rows ++ x ∷ []) ≡ rows ++ z ∷ []
replaced_last id z x [] h e = rw e refl
replaced_last id z x (y ∷ ys) (h, hs) e = rw h (ap (λ r. y ∷ r) (replaced_last id z x ys hs e))

among_last : (x : StellarEvent) (xs : List StellarEvent) → Among x (xs ++ x ∷ [])
among_last x [] = inl refl
among_last x (y ∷ ys) = inr (among_last x ys)

module _ (iso : ℕ → String) (stringify : Fields → String) (hmac : String → String → String)
    (post : Request → Answer) {C E : Type 0} (consumer_repo : Repository C WebhookConsumer)
    (event_repo : Repository E StellarEvent) (rows : E → List StellarEvent)
    (law : IsRepository event_repo rows (λ e. e.id)) where
  -- The row that was added is the one with its id.
  added_found :
      (x : StellarEvent) (d : E)
      → All (λ y. (y.id == x.id) ≡ false) (rows d)
      → get_event_by_id event_repo x.id (event_repo.insert d x) ≡ some x
  unfolding get_event_by_id
  added_found x d new =
      elim (Option-cases (event_repo.find_one (event_repo.insert d x) (λ y. y.id == x.id))) [
        | inl e ↦
            let absent =
              All-Among (λ y. (y.id == x.id) ≡ false) x (rows (event_repo.insert d x))
                (law.not_found _ _ e) (rw law.inserted (among_last x (rows d))) in
            absurd (ground (arith, absent, ==_iff x.id x.id))
        | inr (y, e) ↦
            let (has, here) = law.found _ _ y e in
            e
            ∙ ap some (elim (Among-added x y (rows d) (rw law.inserted at here)) [
              | inl same ↦ sym same
              | inr old ↦
                  absurd (
                    ground (arith, has, All-Among (λ y. (y.id == x.id) ≡ false) y (rows d) new old))
            ])
      ]

  -- An event with a new id that comes in while no consumer is active is stored, marked as processed, and
  -- nothing is queued.
  pub save_and_queue_idle :
      (now : ℕ) (x : EventData) (s : Service C E)
      → get_active_consumers consumer_repo s.consumers ≡ []
      → All (λ y. (y.id == x.id) ≡ false) (rows s.events)
      → let (r, s') = save_and_queue iso stringify hmac post consumer_repo event_repo now x s in
        let e = (save_event event_repo x s.events).0 in
        (r ≡ ok e)
        × (rows s'.events ≡ rows s.events ++ (record e { is_processed = true }) ∷ [])
        × (s'.delivery_queue ≡ s.delivery_queue)
  unfolding save_and_queue save_event queue_event_for_delivery mark_event_as_processed
      get_event_by_id
  save_and_queue_idle now x s idle new =
      let e = (save_event event_repo x s.events).0 in
      let d = (save_event event_repo x s.events).1 in
      let here : get_event_by_id event_repo x.id d ≡ some e = added_found e s.events new in
      rw (idle, save_and_queue, queue_event_for_delivery, mark_event_as_processed, here)
        (
          refl,
          law.saved d (record e { is_processed = true })
              ∙ rw law.inserted (
                  replaced_last x.id (record e { is_processed = true }) e (rows s.events) new
                    ((==_iff x.id x.id).1 refl)),
          refl,
        )
