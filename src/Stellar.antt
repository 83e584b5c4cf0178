-- ===== src/Stellar.antt =====
-- Backend/src/stellar-monitor: the types and entities. The columns createdAt and updatedAt are the
-- database's; an array column that holds nothing yet is the empty list.
pub mod Consumers
pub mod Events
pub mod Delivery
pub mod Monitor
use farm_exc.Prelude.{ℕ, String, Bool, Option, List, ◌==◌}
use farm_exc.Workflow.Json.{Fields}

pub data EventType : Type 0 where
  payment offer contract account trustline : EventType

pub data DeliveryStatus : Type 0 where
  pending delivered failed retrying : DeliveryStatus

pub data ConsumerStatus : Type 0 where
  active inactive suspended : ConsumerStatus

-- The position of an enumerator, by which `===` compares.
abbrev pub delivery_index : DeliveryStatus → ℕ
delivery_index DeliveryStatus.pending = 0
delivery_index DeliveryStatus.delivered = 1
delivery_index DeliveryStatus.failed = 2
delivery_index DeliveryStatus.retrying = 3

abbrev pub consumer_index : ConsumerStatus → ℕ
consumer_index ConsumerStatus.active = 0
consumer_index ConsumerStatus.inactive = 1
consumer_index ConsumerStatus.suspended = 2

abbrev pub same_delivery : DeliveryStatus → DeliveryStatus → Bool
same_delivery a b = delivery_index a == delivery_index b

abbrev pub same_consumer : ConsumerStatus → ConsumerStatus → Bool
same_consumer a b = consumer_index a == consumer_index b

pub record StellarEvent : Type 0 where
  pub id : ℕ
  pub event_type : EventType
  pub ledger_sequence : ℕ
  pub timestamp : ℕ
  pub transaction_hash : String
  pub source_account : String
  pub payload : Fields
  pub delivery_status : DeliveryStatus
  pub delivery_attempts : ℕ
  pub last_attempt_at : Option ℕ
  pub delivered_at : Option ℕ
  pub delivered_to : List ℕ
  pub failed_deliveries : List ℕ
  pub error_message : Option String
  pub is_processed : Bool

pub record WebhookConsumer : Type 0 where
  pub id : ℕ
  pub name : String
  pub url : String
  pub secret : Option String
  pub status : ConsumerStatus
  pub max_retries : ℕ
  pub timeout_ms : ℕ
  pub is_active : Bool
  pub metadata : Option Fields
  pub last_delivery_attempt : Option ℕ
  pub last_delivery_success : Option ℕ
  pub total_deliveries : ℕ
  pub failed_deliveries : ℕ

-- What the services throw.
pub data MonitorError : Type 0 where
  url_taken : MonitorError
  consumer_not_found : ℕ → MonitorError
  event_not_found : ℕ → MonitorError
