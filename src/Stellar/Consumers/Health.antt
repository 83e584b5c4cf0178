-- ===== src/Stellar/Consumers/Health.antt =====
-- The counts of deliveries, and the suspension of a consumer that fails.
use farm_exc.Prelude.{
  ℕ, zero, suc, List, not, ◌==◌, ◌+◌, ◌≤◌, String, ◌≡◌, inl, inr, Bool, true, false, ltb, arith,
  All, Option-cases,
}
use farm_exc.Repository.{Repository, IsRepository}
use farm_exc.Repository.Rows.{All-Among, All-replaced}
use farm_exc.Stellar.{WebhookConsumer}
use farm_exc.Stellar.Consumers.{
  counted, auto_suspended, change, get_consumer_by_id, update_delivery_stats,
}

-- No more deliveries failed than were made.
abbrev pub IsCounted : WebhookConsumer → Type 0
IsCounted c = c.failed_deliveries ≤ c.total_deliveries

counted-IsCounted :
    (iso : ℕ → String) (now : ℕ) (is_success : Bool) (c : WebhookConsumer)
    → IsCounted c
    → IsCounted (counted iso now is_success c)
unfolding counted auto_suspended
counted-IsCounted iso now true c h = omega arith
counted-IsCounted iso now false c h = ground arith

-- The consumer after `n` failures in a row.
unfoldable pub after_failures : (ℕ → String) → ℕ → ℕ → WebhookConsumer → WebhookConsumer
unfolding counted
after_failures iso now zero c = c
after_failures iso now (suc n) c = counted iso now false (after_failures iso now n c)

after_failures-count :
    (iso : ℕ → String) (now n : ℕ) (c : WebhookConsumer)
    → (after_failures iso now n c).failed_deliveries ≡ c.failed_deliveries + n
unfolding after_failures counted auto_suspended
after_failures-count iso now zero c = omega arith
after_failures-count iso now (suc n) c = ground (arith, after_failures-count iso now n c)

-- An active consumer is active after `n` failures in a row if and only if they bring the count of its
-- failures to at most 10, or there are none.
pub after_failures_active :
    (iso : ℕ → String) (now n : ℕ) (c : WebhookConsumer)
    → c.is_active ≡ true
    → (after_failures iso now (suc n) c).is_active ≡ not (ltb 10 (c.failed_deliveries + suc n))
unfolding after_failures counted auto_suspended
after_failures_active iso now zero c h = ground arith
after_failures_active iso now (suc n) c h =
    ground (arith, after_failures_active iso now n c h, after_failures-count iso now (suc n) c)

module _ {Db : Type 0} (repo : Repository Db WebhookConsumer) (rows : Db → List WebhookConsumer)
    (law : IsRepository repo rows (λ c. c.id)) (iso : ℕ → String) where
  -- `updateDeliveryStats` keeps the count of failures within the count of deliveries in every row.
  pub update_delivery_stats-IsCounted :
      (now id : ℕ) (is_success : Bool) (d : Db)
      → All IsCounted (rows d)
      → All IsCounted (rows (update_delivery_stats repo iso now id is_success d).1)
  unfolding update_delivery_stats change get_consumer_by_id counted auto_suspended
  update_delivery_stats-IsCounted now id is_success d h =
      elim (Option-cases (repo.find_one d (λ c. c.id == id))) [
        | inl e ↦ rw (e, update_delivery_stats, change, get_consumer_by_id) h
        | inr (c, e) ↦
            let (has, here) = law.found d _ c e in
            rw (e, update_delivery_stats, change, get_consumer_by_id, law.saved)
              (All-replaced IsCounted (λ y. y.id == (counted iso now is_success c).id)
                (counted iso now is_success c) (rows d)
                (counted-IsCounted iso now is_success c (All-Among IsCounted c (rows d) h here)) h)
      ]
