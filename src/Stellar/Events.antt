-- ===== src/Stellar/Events.antt =====
-- Backend/src/stellar-monitor/services/event-storage.service.ts, but for its statistics and pages.
use farm_exc.Prelude.{
  ℕ, ◌+◌, String, true, false, not, ◌&&◌, Option, none, some, Result, ok, err, List, [], ◌∷◌, ◌++◌,
  includes, ◌==◌, str_eq, if◌then◌else◌,
}
use farm_exc.Repository.{Repository}
use farm_exc.Workflow.Json.{Fields}
use farm_exc.Stellar.{
  EventType, DeliveryStatus, StellarEvent, MonitorError, event_not_found, same_delivery,
}

-- `StellarEventDto`.
pub record EventData : Type 0 where
  pub id : ℕ
  pub event_type : EventType
  pub ledger_sequence : ℕ
  pub timestamp : ℕ
  pub transaction_hash : String
  pub source_account : String
  pub payload : Fields

-- A value that is pushed to a list unless it is there.
abbrev pub push_new : ℕ → List ℕ → List ℕ
push_new x xs = if includes ◌==◌ xs x then xs else xs ++ x ∷ []

-- The lists of consumers after a delivery came out with a status.
abbrev pub noted_delivered : DeliveryStatus → Option ℕ → List ℕ → List ℕ
noted_delivered status none xs = xs
noted_delivered status (some c) xs =
    if same_delivery status DeliveryStatus.delivered then push_new c xs else xs

abbrev pub noted_failed : DeliveryStatus → Option ℕ → List ℕ → List ℕ
noted_failed status none xs = xs
noted_failed status (some c) xs =
    if same_delivery status DeliveryStatus.failed then push_new c xs else xs

-- `if (errorMessage)`.
abbrev pub or_kept : Option String → Option String → Option String
or_kept none old = old
or_kept (some m) old = if str_eq m "" then old else some m

-- The assignments of `updateEventStatus`.
unfoldable pub attempted :
    ℕ → DeliveryStatus → Option ℕ → Option String → StellarEvent → StellarEvent
attempted now status consumer_id error_message e = record e {
  delivery_status = status;
  delivery_attempts = e.delivery_attempts + 1;
  last_attempt_at = some now;
  delivered_at = if same_delivery status DeliveryStatus.delivered then some now else e.delivered_at;
  delivered_to = noted_delivered status consumer_id e.delivered_to;
  failed_deliveries = noted_failed status consumer_id e.failed_deliveries;
  error_message = or_kept error_message e.error_message;
}

module _ {Db : Type 0} (repo : Repository Db StellarEvent) where
  -- Each caller makes a new id, so that `save` inserts.
  unfoldable pub save_event : EventData → Db → StellarEvent × Db
  save_event x d =
      let event : StellarEvent = record {
        id = x.id;
        event_type = x.event_type;
        ledger_sequence = x.ledger_sequence;
        timestamp = x.timestamp;
        transaction_hash = x.transaction_hash;
        source_account = x.source_account;
        payload = x.payload;
        delivery_status = DeliveryStatus.pending;
        delivery_attempts = 0;
        last_attempt_at = none;
        delivered_at = none;
        delivered_to = [];
        failed_deliveries = [];
        error_message = none;
        is_processed = false;
      } in
      (event, repo.insert d event)

  unfoldable pub get_event_by_id : ℕ → Db → Option StellarEvent
  get_event_by_id id d = repo.find_one d (λ e. e.id == id)

  -- Without the limit of 50 rows.
  unfoldable pub get_pending_events : Db → List StellarEvent
  get_pending_events d =
      repo.find d
        (λ e. same_delivery e.delivery_status DeliveryStatus.pending && not e.is_processed)

  unfoldable pub update_event_status :
      ℕ → ℕ → DeliveryStatus → Option ℕ → Option String → Db → Result MonitorError StellarEvent × Db
  unfolding get_event_by_id attempted
  update_event_status now id status consumer_id error_message d = elim (get_event_by_id id d) [
    | none ↦ (err (event_not_found id), d)
    | some e ↦ let e' = attempted now status consumer_id error_message e in (ok e', repo.save d e')
  ]

  unfoldable pub mark_event_as_processed : ℕ → Db → Result MonitorError StellarEvent × Db
  unfolding get_event_by_id
  mark_event_as_processed id d = elim (get_event_by_id id d) [
    | none ↦ (err (event_not_found id), d)
    | some e ↦ let e' = record e { is_processed = true } in (ok e', repo.save d e')
  ]
