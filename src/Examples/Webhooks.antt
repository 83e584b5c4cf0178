-- ===== src/Examples/Webhooks.antt =====
-- Webhook consumers and the deliveries to them.
use farm_exc.Prelude.{
  ℕ, ok, err, ◌==◌, String, ◌≡◌, refl, sym, ap, ◌∙◌, ◌≢◌, inl, inr, true, false, none, some, List,
  [], ◌∷◌, ◌++◌, All, arith, eq_iff,
}
use farm_exc.Repository.{Repository}
use farm_exc.Workflow.Json.{Fields, end}
use farm_exc.Stellar.{
  EventType, DeliveryStatus, ConsumerStatus, StellarEvent, WebhookConsumer, consumer_not_found,
}
use farm_exc.Stellar.Consumers.{
  UpdateConsumer, new_or, update_consumer, update_delivery_stats, get_active_consumers, counted,
  change, get_consumer_by_id,
}
use farm_exc.Stellar.Consumers.Addresses.{HaveOwnUrls, update_consumer-HaveOwnUrls}
use farm_exc.Stellar.Events.{EventData}
use farm_exc.Stellar.Delivery.{
  Request, Answer, refused, DeliveryResult, Delivery, Service, fire_timers, handle_failed_delivery,
  handle_successful_delivery,
}
use farm_exc.Stellar.Delivery.Retries.{AreFresh}
use farm_exc.Stellar.Delivery.Processed.{Marked, handle_successful_delivery-Marked}
use farm_exc.Stellar.Monitor.{save_and_queue}
use farm_exc.Stellar.Monitor.Reach.{
  here, received, fired, Reaches-AreFresh, handle_failed_delivery_again,
}
use farm_exc.Examples.Tables.{table, table-IsRepository}

abbrev consumer_table : Repository (List WebhookConsumer) WebhookConsumer
consumer_table = table (λ c. c.id)

abbrev event_table : Repository (List StellarEvent) StellarEvent
event_table = table (λ e. e.id)

abbrev consumer_at : ℕ → String → WebhookConsumer
consumer_at id url = record {
  id = id;
  name = "consumer";
  url = url;
  secret = some "s";
  status = ConsumerStatus.active;
  max_retries = 5;
  timeout_ms = 5000;
  is_active = true;
  metadata = none;
  last_delivery_attempt = none;
  last_delivery_success = none;
  total_deliveries = 0;
  failed_deliveries = 0;
}

abbrev two_consumers : List WebhookConsumer
two_consumers = consumer_at 1 "https://a" ∷ consumer_at 2 "https://b" ∷ []

two_urls : HaveOwnUrls two_consumers
two_urls x y (inl e) (inl f) same = ap (λ c. c.id) (sym e ∙ f)
two_urls x y (inl e) (inr (inl f)) same = absurd (
    ground (
      arith,
      (eq_iff "https://a" "https://b").1 (ap (λ c. c.url) e ∙ same ∙ sym (ap (λ c. c.url) f)),
    ))
two_urls x y (inl e) (inr (inr m)) same = elim m [ ]
two_urls x y (inr (inl e)) (inl f) same = absurd (
    ground (
      arith,
      (eq_iff "https://b" "https://a").1 (ap (λ c. c.url) e ∙ same ∙ sym (ap (λ c. c.url) f)),
    ))
two_urls x y (inr (inl e)) (inr (inl f)) same = ap (λ c. c.id) (sym e ∙ f)
two_urls x y (inr (inl e)) (inr (inr m)) same = elim m [ ]
two_urls x y (inr (inr m)) n same = elim m [ ]

abbrev new_url : UpdateConsumer
new_url = record {
  name = none;
  url = some "https://c";
  secret = none;
  max_retries = none;
  timeout_ms = none;
  is_active = none;
}

new_url_full : new_url.url ≢ some ""
new_url_full e = ground (arith, (eq_iff "https://c" "").1 (ap (λ o. new_or o "https://c") e))

update_consumer-HaveOwnUrls_example :
    HaveOwnUrls (update_consumer consumer_table 2 new_url two_consumers).1
update_consumer-HaveOwnUrls_example =
    update_consumer-HaveOwnUrls consumer_table (λ d. d) (table-IsRepository (λ c. c.id)) 2 new_url
      two_consumers new_url_full two_urls

abbrev iso_text : ℕ → String
iso_text now = "2025-01-01T00:00:00.000Z"

abbrev json_text : Fields → String
json_text fs = "{}"

abbrev hmac_text : String → String → String
hmac_text secret body = secret

-- No consumer answers.
abbrev no_answer : Request → Answer
no_answer r = refused none "timeout"

abbrev payment_event : StellarEvent
payment_event = record {
  id = 10;
  event_type = EventType.payment;
  ledger_sequence = 5;
  timestamp = 0;
  transaction_hash = "t";
  source_account = "G";
  payload = end;
  delivery_status = DeliveryStatus.pending;
  delivery_attempts = 0;
  last_attempt_at = none;
  delivered_at = none;
  delivered_to = [];
  failed_deliveries = [];
  error_message = none;
  is_processed = false;
}

abbrev payment_input : EventData
payment_input = record {
  id = 10;
  event_type = EventType.payment;
  ledger_sequence = 5;
  timestamp = 0;
  transaction_hash = "t";
  source_account = "G";
  payload = end;
}

abbrev idle_service : Service (List WebhookConsumer) (List StellarEvent)
idle_service = record {
  consumers = two_consumers;
  events = [];
  delivery_queue = [];
  is_processing_queue = false;
  timers = [];
}

abbrev event_service : Service (List WebhookConsumer) (List StellarEvent)
event_service = record idle_service { events = payment_event ∷ [] }

-- The event came in, both deliveries failed, and the retries too.
abbrev retried : Service (List WebhookConsumer) (List StellarEvent)
retried =
    fire_timers iso_text json_text hmac_text no_answer consumer_table event_table 2000
      (save_and_queue iso_text json_text hmac_text no_answer consumer_table event_table 1000
        payment_input idle_service).1

Reaches-AreFresh_example : AreFresh retried
Reaches-AreFresh_example =
    Reaches-AreFresh iso_text json_text hmac_text no_answer consumer_table event_table idle_service
      retried refl refl (fired 2000 (received 1000 payment_input here))

abbrev payment_delivery : Delivery
payment_delivery = record { event = payment_event; consumer = consumer_at 1 "https://a" }

abbrev timeout_result : DeliveryResult
timeout_result = record { success = false; status_code = none; error_message = some "timeout" }

handle_failed_delivery_again_example :
    let out =
      handle_failed_delivery iso_text json_text hmac_text no_answer consumer_table event_table 1000
        payment_delivery timeout_result event_service in
    let row =
      consumer_table.find_one event_service.consumers (λ c. c.id == payment_delivery.consumer.id) in
    (out.1.events ≡ event_service.events)
    × ((c : WebhookConsumer)
        → row ≡ some c
        → (out.0 ≡ ok tt)
          × (out.1.timers
              ≡ event_service.timers ++ (record { due = 2000; delivery = payment_delivery }) ∷ []))
    × (row ≡ none
        → (out.0 ≡ err (consumer_not_found payment_delivery.consumer.id))
          × (out.1.timers ≡ event_service.timers))
handle_failed_delivery_again_example =
    handle_failed_delivery_again iso_text json_text hmac_text no_answer consumer_table event_table
      1000 payment_delivery timeout_result event_service (refl, refl) (omega arith)

handle_successful_delivery-Marked_example :
    All
      (Marked event_service.events)
      (handle_successful_delivery iso_text json_text hmac_text no_answer consumer_table event_table
        1000 payment_delivery event_service).1.events
unfolding update_delivery_stats change get_consumer_by_id counted get_active_consumers
handle_successful_delivery-Marked_example =
    handle_successful_delivery-Marked iso_text json_text hmac_text no_answer consumer_table
      event_table (λ d. d) (table-IsRepository (λ e. e.id)) 1000 payment_delivery event_service
      (refl, refl) (omega arith)
