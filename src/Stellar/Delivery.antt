-- ===== src/Stellar/Delivery.antt =====
-- Backend/src/stellar-monitor/services/webhook-delivery.service.ts: the queue of deliveries, its batches
-- and its retries. The tables, the HTTP client, the HMAC and the writing of times and of JSON are
-- arguments. The deliveries of a batch run one after the other, and an event that was loaded is a copy of
-- its row, as an entity is.
pub mod Retries
pub mod Processed
use farm_exc.Prelude.{
  ℕ, ◌+◌, ◌-◌, ◌*◌, ◌^◌, String, Bool, true, false, not, Option, none, some, Result, ok, err, List,
  [], ◌∷◌, ◌++◌, map, filter, take, drop, length, ltb, leb, str_eq, if◌then◌else◌,
}
use farm_exc.Repository.{Repository}
use farm_exc.Workflow.Json.{Fields, end, field, num, str, obj}
use farm_exc.Stellar.{
  EventType, DeliveryStatus, StellarEvent, WebhookConsumer, MonitorError, url_taken,
  consumer_not_found, event_not_found,
}
use farm_exc.Stellar.Consumers.{get_consumer_by_id, get_active_consumers, update_delivery_stats}
use farm_exc.Stellar.Events.{mark_event_as_processed, update_event_status}

pub record DeliveryResult : Type 0 where
  pub success : Bool
  pub status_code : Option ℕ
  pub error_message : Option String

-- What `httpClient.post` is given.
pub record Request : Type 0 where
  pub url : String
  pub timeout : ℕ
  pub event_id : ℕ
  pub event_type : String
  pub delivery_attempt : ℕ
  pub signature : Option String
  pub payload : Fields

-- What it answers or throws.
pub data Answer : Type 0 where
  posted : ℕ → Answer
  refused : Option ℕ → String → Answer

pub record Delivery : Type 0 where
  pub event : StellarEvent
  pub consumer : WebhookConsumer

-- A delivery that a timer will queue.
pub record Timer : Type 0 where
  pub due : ℕ
  pub delivery : Delivery

pub record Service (C E : Type 0) : Type 0 where
  pub consumers : C
  pub events : E
  pub delivery_queue : List Delivery
  pub is_processing_queue : Bool
  pub timers : List Timer

abbrev pub event_name : EventType → String
event_name EventType.payment = "payment"
event_name EventType.offer = "offer"
event_name EventType.contract = "contract"
event_name EventType.account = "account"
event_name EventType.trustline = "trustline"

-- The text of an error.
abbrev pub message_of : MonitorError → String
message_of url_taken = "Consumer with this URL already exists"
message_of (consumer_not_found id) = "Consumer not found"
message_of (event_not_found id) = "Event not found"

-- The result that the catch block makes of an error.
abbrev pub failure_of : MonitorError → DeliveryResult
failure_of m = record { success = false; status_code = none; error_message = some (message_of m) }

-- For attempts from 1 on, in milliseconds.
unfoldable pub calculate_backoff_delay : ℕ → ℕ
calculate_backoff_delay attempt =
    if ltb 300000 (1000 * 2 ^ (attempt - 1)) then 300000 else 1000 * 2 ^ (attempt - 1)

module _ (iso : ℕ → String) (stringify : Fields → String) (hmac : String → String → String)
    (post : Request → Answer) where
  -- The body that a consumer receives.
  unfoldable pub body_of : ℕ → StellarEvent → Fields
  body_of now e = field "id" (num e.id) (
      field "eventType" (str (event_name e.event_type)) (
        field "ledgerSequence" (num e.ledger_sequence) (
          field "timestamp" (str (iso e.timestamp)) (
            field "transactionHash" (str e.transaction_hash) (
              field "sourceAccount" (str e.source_account)
                (field "payload" (obj e.payload) (field "deliveredAt" (str (iso now)) end)))))))

  -- `if (consumer.secret)`.
  unfoldable pub signature_of : Option String → Fields → Option String
  signature_of none body = none
  signature_of (some secret) body =
      if str_eq secret "" then none else some (hmac secret (stringify body))

  unfoldable pub attempt_delivery : ℕ → StellarEvent → WebhookConsumer → DeliveryResult
  unfolding body_of signature_of
  attempt_delivery now e c =
      elim (post (record {
        url = c.url;
        timeout = c.timeout_ms;
        event_id = e.id;
        event_type = event_name e.event_type;
        delivery_attempt = e.delivery_attempts + 1;
        signature = signature_of c.secret (body_of now e);
        payload = body_of now e;
      })) [
        | posted code ↦ record { success = true; status_code = some code; error_message = none }
        | refused code message ↦ record {
          success = false;
          status_code = code;
          error_message = some message;
        }
      ]

  module _ {C E : Type 0} (consumer_repo : Repository C WebhookConsumer)
      (event_repo : Repository E StellarEvent) where
    unfoldable pub handle_successful_delivery :
        ℕ → Delivery → Service C E → Result MonitorError (Unit {0}) × Service C E
    unfolding update_event_status update_delivery_stats get_active_consumers mark_event_as_processed
    handle_successful_delivery now x s =
        let (noted, d) =
          update_event_status event_repo now x.event.id DeliveryStatus.delivered
            (some x.consumer.id) none s.events in
        elim noted [
          | err m ↦ (err m, record s { events = d })
          | ok _ ↦
              let (stats, k) =
                update_delivery_stats consumer_repo iso now x.consumer.id true s.consumers in
              elim stats [
                | err m ↦ (err m, record s { events = d; consumers = k })
                | ok _ ↦
                    if leb (length (get_active_consumers consumer_repo k))
                      (length x.event.delivered_to + 1)
                    then (let (marked, d') = mark_event_as_processed event_repo x.event.id d in
                        (
                          elim marked [ err m ↦ err m | ok _ ↦ ok tt ],
                          record s { events = d'; consumers = k },
                        ))
                    else (ok tt, record s { events = d; consumers = k })
              ]
        ]

    unfoldable pub handle_failed_delivery :
        ℕ → Delivery → DeliveryResult → Service C E → Result MonitorError (Unit {0}) × Service C E
    unfolding calculate_backoff_delay update_event_status update_delivery_stats
    handle_failed_delivery now x r s =
        let (stats, k) =
          update_delivery_stats consumer_repo iso now x.consumer.id false s.consumers in
        elim stats [
          | err m ↦ (err m, record s { consumers = k })
          | ok _ ↦
              if leb x.consumer.max_retries (x.event.delivery_attempts + 1)
              then (let (noted, d) =
                    update_event_status event_repo now x.event.id DeliveryStatus.failed
                      (some x.consumer.id) r.error_message s.events in
                  (
                    elim noted [ err m ↦ err m | ok _ ↦ ok tt ],
                    record s { events = d; consumers = k },
                  ))
              else (
                ok tt,
                record s {
                  consumers = k;
                  timers =
                      s.timers
                      ++ (record {
                        due = now + calculate_backoff_delay (x.event.delivery_attempts + 1);
                        delivery = x;
                      })
                        ∷ [];
                },
              )
        ]

    -- The catch block of a delivery: an error of the failure's handling is thrown on.
    unfoldable pub or_failed :
        ℕ
        → Delivery
        → Result MonitorError (Unit {0}) × Service C E
        → Result MonitorError (Unit {0}) × Service C E
    unfolding handle_failed_delivery
    or_failed now x (ok _, s) = (ok tt, s)
    or_failed now x (err m, s) = handle_failed_delivery now x (failure_of m) s

    unfoldable pub handle_result :
        ℕ → Delivery → DeliveryResult → Service C E → Result MonitorError (Unit {0}) × Service C E
    unfolding handle_successful_delivery handle_failed_delivery
    handle_result now x r s =
        if r.success then handle_successful_delivery now x s else handle_failed_delivery now x r s

    unfoldable pub deliver_event_to_consumer :
        ℕ → Delivery → Service C E → Result MonitorError (Unit {0}) × Service C E
    unfolding get_consumer_by_id attempt_delivery or_failed handle_result
    deliver_event_to_consumer now x s =
        or_failed now x (elim (get_consumer_by_id consumer_repo x.consumer.id s.consumers) [
          | err m ↦ (err m, s)
          | ok fresh ↦
              if not fresh.is_active
              then (ok tt, s)
              else handle_result now x (attempt_delivery now x.event fresh) s
        ])

    -- `Promise.all`: an error of one delivery is logged and leaves the others as they are.
    unfoldable pub deliver_all : ℕ → List Delivery → Service C E → Service C E
    unfolding deliver_event_to_consumer
    deliver_all now [] s = s
    deliver_all now (x ∷ xs) s = deliver_all now xs ((deliver_event_to_consumer now x s).1)

    unfoldable pub process_queue : ℕ → Service C E → Service C E
    unfolding deliver_all
    process_queue now s = elim s.is_processing_queue [
      | true ↦ s
      | false ↦
          let s' =
            deliver_all now (take 10 s.delivery_queue) (record s {
              is_processing_queue = true;
              delivery_queue = drop 10 s.delivery_queue;
            }) in
          record s' { is_processing_queue = false }
    ]

    -- The timers that are due queue their deliveries and process the queue.
    unfoldable pub fire_timers : ℕ → Service C E → Service C E
    unfolding process_queue
    fire_timers now s = process_queue now (record s {
      delivery_queue =
          s.delivery_queue ++ map (λ t. t.delivery) (filter (λ t. leb t.due now) s.timers);
      timers = filter (λ t. ltb now t.due) s.timers;
    })

    -- Without a consumer that is active the event is processed; else it is queued for each.
    unfoldable pub queue_event_for_delivery :
        ℕ → StellarEvent → Service C E → Result MonitorError (Unit {0}) × Service C E
    unfolding get_active_consumers mark_event_as_processed process_queue
    queue_event_for_delivery now e s = elim (get_active_consumers consumer_repo s.consumers) [
      | [] ↦
          let (marked, d) = mark_event_as_processed event_repo e.id s.events in
          (elim marked [ err m ↦ err m | ok _ ↦ ok tt ], record s { events = d })
      | c ∷ cs ↦ (
        ok tt,
        process_queue now (record s {
          delivery_queue =
              s.delivery_queue ++ map (λ x. record { event = e; consumer = x }) (c ∷ cs);
        }),
      )
    ]

    unfoldable pub deliver_test_event :
        ℕ → ℕ → StellarEvent → C → Result MonitorError DeliveryResult
    unfolding get_consumer_by_id attempt_delivery
    deliver_test_event now id test_event d = elim (get_consumer_by_id consumer_repo id d) [
      | err m ↦ err m
      | ok c ↦
          if not c.is_active
          then ok (record {
            success = false;
            status_code = none;
            error_message = some "Consumer is not active";
          })
          else ok (attempt_delivery now test_event c)
    ]

unfoldable pub get_queue_size : {C E : Type 0} → Service C E → ℕ
get_queue_size s = length s.delivery_queue
