-- ===== src/Stellar/Monitor.antt =====
-- Backend/src/stellar-monitor/services/stellar-event-monitor.service.ts. What the Horizon server answers
-- and streams is an argument, and so are the library's reading of a decimal and the new ids. A stream is
-- known by whether it has been opened. The catch block of a handler logs the error; a field that is
-- undefined is left out of a payload, as the writing of JSON does.
pub mod Idle
pub mod Reach
use farm_exc.Prelude.{
  ℕ, ◌+◌, String, Bool, true, false, ◌||◌, Option, none, some, Result, ok, err, str_eq,
  if◌then◌else◌,
}
use farm_exc.Repository.{Repository}
use farm_exc.Workflow.Json.{Fields, end, field, bool, str}
use farm_exc.Stellar.{EventType, StellarEvent, WebhookConsumer, MonitorError}
use farm_exc.Stellar.Events.{EventData, save_event}
use farm_exc.Stellar.Delivery.{Request, Answer, Service, queue_event_for_delivery}

-- `transaction_attr`, which a message may lack although its type has it.
pub record TransactionAttr : Type 0 where
  pub ledger : ℕ
  pub memo : Option String
  pub memo_type : Option String

pub record HorizonPaymentOperation : Type 0 where
  pub created_at : ℕ
  pub transaction_hash : String
  pub asset_type : String
  pub asset_code : Option String
  pub asset_issuer : Option String
  pub from : String
  pub to : String
  pub amount : String
  pub transaction_attr : Option TransactionAttr

pub record HorizonManageOfferOperation : Type 0 where
  pub source_account : String
  pub kind : String
  pub created_at : ℕ
  pub transaction_hash : String
  pub offer_id : Option String
  pub amount : String
  pub price : String
  pub selling_asset_type : String
  pub selling_asset_code : Option String
  pub selling_asset_issuer : Option String
  pub buying_asset_type : String
  pub buying_asset_code : Option String
  pub buying_asset_issuer : Option String
  pub transaction_attr : Option TransactionAttr

pub record Monitor : Type 0 where
  pub payment_stream : Bool
  pub offer_stream : Bool
  pub is_monitoring : Bool
  pub last_ledger_sequence : ℕ

-- `startMonitoring`: the answer is the sequence of the latest ledger, or none where the call throws; the
-- result is whether it returns.
unfoldable pub start_monitoring : Option ℕ → Monitor → Bool × Monitor
start_monitoring answer m = if m.is_monitoring then (true, m) else elim answer [
  | none ↦ (false, record m { is_monitoring = false })
  | some sequence ↦ (
    true,
    record {
      payment_stream = true;
      offer_stream = true;
      is_monitoring = true;
      last_ledger_sequence = sequence;
    },
  )
]

unfoldable pub stop_monitoring : Monitor → Monitor
stop_monitoring m =
    if m.is_monitoring
    then record m { payment_stream = false; offer_stream = false; is_monitoring = false }
    else m

-- Five seconds after an error of a stream.
unfoldable pub restart_payment_stream : Monitor → Monitor
restart_payment_stream m = if m.is_monitoring then record m { payment_stream = true } else m

unfoldable pub restart_offer_stream : Monitor → Monitor
restart_offer_stream m = if m.is_monitoring then record m { offer_stream = true } else m

abbrev pub optional : String → Option String → Fields → Fields
optional key none rest = rest
optional key (some text) rest = field key (str text) rest

unfoldable pub determine_offer_type : (String → Bool) → HorizonManageOfferOperation → String
determine_offer_type is_zero offer =
    if is_zero offer.amount then "delete" else elim offer.offer_id [
      | none ↦ "create"
      | some id ↦ if str_eq id "" then "create" else "update"
    ]

-- The filter of the stream of operations.
abbrev pub is_manage_offer : HorizonManageOfferOperation → Bool
is_manage_offer offer =
    str_eq offer.kind "manage_sell_offer" || str_eq offer.kind "manage_buy_offer"

unfoldable pub payment_data : ℕ → HorizonPaymentOperation → TransactionAttr → EventData
payment_data uuid p attr = record {
  id = uuid;
  event_type = EventType.payment;
  ledger_sequence = attr.ledger;
  timestamp = p.created_at;
  transaction_hash = p.transaction_hash;
  source_account = p.from;
  payload = field "amount" (str p.amount) (
      field "assetType" (str p.asset_type) (
        optional "assetCode" p.asset_code (
          optional "assetIssuer" p.asset_issuer (
            field "from" (str p.from) (
              field "to" (str p.to)
                (optional "memo" attr.memo (optional "memoType" attr.memo_type end)))))));
}

unfoldable pub offer_data :
    (String → Bool) → ℕ → HorizonManageOfferOperation → TransactionAttr → EventData
unfolding determine_offer_type
offer_data is_zero uuid o attr = record {
  id = uuid;
  event_type = EventType.offer;
  ledger_sequence = attr.ledger;
  timestamp = o.created_at;
  transaction_hash = o.transaction_hash;
  source_account = o.source_account;
  payload = optional "offerId" o.offer_id (
      field "seller" (str o.source_account) (
        field "sellingAssetType" (str o.selling_asset_type) (
          optional "sellingAssetCode" o.selling_asset_code (
            optional "sellingAssetIssuer" o.selling_asset_issuer (
              field "buyingAssetType" (str o.buying_asset_type) (
                optional "buyingAssetCode" o.buying_asset_code (
                  optional "buyingAssetIssuer" o.buying_asset_issuer (
                    field "amount" (str o.amount) (
                      field "price" (str o.price)
                        (field "type" (str (determine_offer_type is_zero o)) end))))))))));
}

unfoldable pub simulated_payment :
    ℕ → ℕ → ℕ → String → String → String → String → String → EventData
simulated_payment uuid now last_ledger hash from to amount asset_type = record {
  id = uuid;
  event_type = EventType.payment;
  ledger_sequence = last_ledger + 1;
  timestamp = now;
  transaction_hash = hash;
  source_account = from;
  payload = field "amount" (str amount) (
      field "assetType" (str asset_type)
        (field "from" (str from) (field "to" (str to) (field "simulated" (bool true) end))));
}

module _ (iso : ℕ → String) (stringify : Fields → String) (hmac : String → String → String)
    (post : Request → Answer) {C E : Type 0} (consumer_repo : Repository C WebhookConsumer)
    (event_repo : Repository E StellarEvent) where
  -- `saveEvent` and then `queueEventForDelivery` of what was saved.
  unfoldable pub save_and_queue :
      ℕ → EventData → Service C E → Result MonitorError StellarEvent × Service C E
  unfolding save_event queue_event_for_delivery
  save_and_queue now x s =
      let (e, d) = save_event event_repo x s.events in
      let (queued, s') =
        queue_event_for_delivery iso stringify hmac post consumer_repo event_repo now e
          (record s { events = d }) in
      (elim queued [ err m ↦ err m | ok _ ↦ ok e ], s')

  -- Without `transaction_attr` reading its ledger throws.
  unfoldable pub handle_payment_event : ℕ → ℕ → HorizonPaymentOperation → Service C E → Service C E
  unfolding payment_data save_and_queue
  handle_payment_event now uuid payment s = elim payment.transaction_attr [
    | none ↦ s
    | some attr ↦ (save_and_queue now (payment_data uuid payment attr) s).1
  ]

  -- With the filter of its stream.
  unfoldable pub handle_offer_event :
      (String → Bool) → ℕ → ℕ → HorizonManageOfferOperation → Service C E → Service C E
  unfolding offer_data save_and_queue
  handle_offer_event is_zero now uuid offer s =
      if is_manage_offer offer
      then elim offer.transaction_attr [
        | none ↦ s
        | some attr ↦ (save_and_queue now (offer_data is_zero uuid offer attr) s).1
      ]
      else s

  unfoldable pub simulate_payment_event :
      ℕ
      → ℕ
      → String
      → Monitor
      → String
      → String
      → String
      → String
      → Service C E
      → Result MonitorError StellarEvent × Service C E
  unfolding simulated_payment save_and_queue
  simulate_payment_event now uuid hash m from to amount asset_type s =
      save_and_queue now
        (simulated_payment uuid now m.last_ledger_sequence hash from to amount asset_type) s
