-- ===== src/Stellar/Consumers.antt =====
-- Backend/src/stellar-monitor/services/consumer-management.service.ts, but for its statistics. Times
-- and new ids are arguments, and `iso` writes a time as `toISOString` does. A log message is dropped,
-- and so is a `catch` block that throws again.
pub mod Health
pub mod Addresses
use farm_exc.Prelude.{
  ℕ, ◌+◌, ◌-◌, String, Bool, true, false, not, ◌&&◌, ◌||◌, Option, none, some, Result, ok, err,
  List, ◌==◌, str_eq, ltb, if◌then◌else◌,
}
use farm_exc.Repository.{Repository}
use farm_exc.Workflow.Json.{Fields, end, put, bool, str}
use farm_exc.Stellar.{
  ConsumerStatus, WebhookConsumer, MonitorError, url_taken, consumer_not_found, same_consumer,
}

-- `CreateConsumerDto`, its defaults filled in, and `UpdateConsumerDto`.
pub record CreateConsumer : Type 0 where
  pub name : String
  pub url : String
  pub secret : Option String
  pub max_retries : ℕ
  pub timeout_ms : ℕ
  pub is_active : Bool

pub record UpdateConsumer : Type 0 where
  pub name : Option String
  pub url : Option String
  pub secret : Option String
  pub max_retries : Option ℕ
  pub timeout_ms : Option ℕ
  pub is_active : Option Bool

abbrev pub new_or : {A : Type 0} → Option A → A → A
new_or none old = old
new_or (some a) old = a

abbrev pub kept_or : {A : Type 0} → Option A → Option A → Option A
kept_or none old = old
kept_or (some a) old = some a

-- `Object.assign`: what the update has.
unfoldable pub assigned : UpdateConsumer → WebhookConsumer → WebhookConsumer
assigned u c = record c {
  name = new_or u.name c.name;
  url = new_or u.url c.url;
  secret = kept_or u.secret c.secret;
  max_retries = new_or u.max_retries c.max_retries;
  timeout_ms = new_or u.timeout_ms c.timeout_ms;
  is_active = new_or u.is_active c.is_active;
}

-- `{ ...metadata, … }` of metadata that may be missing.
abbrev pub or_end : Option Fields → Fields
or_end none = end
or_end (some fs) = fs

-- The consumer after its failures became too many.
unfoldable pub auto_suspended : String → WebhookConsumer → WebhookConsumer
auto_suspended at c = record c {
  is_active = false;
  status = ConsumerStatus.suspended;
  metadata = some (
      put "autoSuspendedAt" (str at) (
        put "autoSuspensionReason" (str "Too many consecutive failures")
          (put "autoSuspended" (bool true) (or_end c.metadata))));
}

-- The assignments of `updateDeliveryStats`; its third argument is never given.
unfoldable pub counted : (ℕ → String) → ℕ → Bool → WebhookConsumer → WebhookConsumer
unfolding auto_suspended
counted iso now true c = record c {
  total_deliveries = c.total_deliveries + 1;
  last_delivery_attempt = some now;
  last_delivery_success = some now;
  failed_deliveries = c.failed_deliveries - 1;
}
counted iso now false c =
    let c' = record c {
      total_deliveries = c.total_deliveries + 1;
      last_delivery_attempt = some now;
      failed_deliveries = c.failed_deliveries + 1;
    } in
    if ltb 10 (c.failed_deliveries + 1) then auto_suspended (iso now) c' else c'

-- The assignments of `suspendConsumer`; an empty reason counts as none.
unfoldable pub suspended_for : String → Option String → WebhookConsumer → WebhookConsumer
suspended_for at none c = record c { is_active = false; status = ConsumerStatus.suspended }
suspended_for at (some reason) c = record c {
  is_active = false;
  status = ConsumerStatus.suspended;
  metadata =
      if str_eq reason ""
      then c.metadata
      else some
          (put "suspendedAt" (str at) (put "suspensionReason" (str reason) (or_end c.metadata)));
}

-- `if (updateDto.url && updateDto.url !== consumer.url)`: the URL to look for.
abbrev pub url_to_check : Option String → String → Option String
url_to_check none old = none
url_to_check (some url) old = if str_eq url "" || str_eq url old then none else some url

-- `create({ ...createDto, status })`.
unfoldable pub new_consumer : ℕ → CreateConsumer → WebhookConsumer
new_consumer new_id x = record {
  id = new_id;
  name = x.name;
  url = x.url;
  secret = x.secret;
  status = ConsumerStatus.active;
  max_retries = x.max_retries;
  timeout_ms = x.timeout_ms;
  is_active = x.is_active;
  metadata = none;
  last_delivery_attempt = none;
  last_delivery_success = none;
  total_deliveries = 0;
  failed_deliveries = 0;
}

module _ {Db : Type 0} (repo : Repository Db WebhookConsumer) where
  unfoldable pub create_consumer :
      ℕ → CreateConsumer → Db → Result MonitorError WebhookConsumer × Db
  unfolding new_consumer
  create_consumer new_id x d = elim (repo.find_one d (λ c. str_eq c.url x.url)) [
    | some _ ↦ (err url_taken, d)
    | none ↦ (ok (new_consumer new_id x), repo.insert d (new_consumer new_id x))
  ]

  unfoldable pub get_consumer_by_id : ℕ → Db → Result MonitorError WebhookConsumer
  get_consumer_by_id id d = elim (repo.find_one d (λ c. c.id == id)) [
    | none ↦ err (consumer_not_found id)
    | some c ↦ ok c
  ]

  -- A method that loads the consumer, changes it and saves it.
  unfoldable pub change :
      ℕ → (WebhookConsumer → WebhookConsumer) → Db → Result MonitorError WebhookConsumer × Db
  unfolding get_consumer_by_id
  change id f d = elim (get_consumer_by_id id d) [
    | err e ↦ (err e, d)
    | ok c ↦ (ok (f c), repo.save d (f c))
  ]

  -- Whether another consumer has the URL.
  unfoldable pub has_url_conflict : ℕ → Option String → Db → Bool
  has_url_conflict id none d = false
  has_url_conflict id (some url) d = elim (repo.find_one d (λ c. str_eq c.url url)) [
    | none ↦ false
    | some c ↦ not (c.id == id)
  ]

  unfoldable pub update_consumer :
      ℕ → UpdateConsumer → Db → Result MonitorError WebhookConsumer × Db
  unfolding get_consumer_by_id has_url_conflict assigned
  update_consumer id u d = elim (get_consumer_by_id id d) [
    | err e ↦ (err e, d)
    | ok c ↦
        if has_url_conflict id (url_to_check u.url c.url) d
        then (err url_taken, d)
        else (ok (assigned u c), repo.save d (assigned u c))
  ]

  unfoldable pub delete_consumer : ℕ → Db → Result MonitorError (Unit {0}) × Db
  unfolding get_consumer_by_id
  delete_consumer id d = elim (get_consumer_by_id id d) [
    | err e ↦ (err e, d)
    | ok c ↦ (ok tt, repo.remove d c)
  ]

  unfoldable pub activate_consumer : ℕ → Db → Result MonitorError WebhookConsumer × Db
  unfolding change
  activate_consumer id =
      change id (λ c. record c { is_active = true; status = ConsumerStatus.active })

  unfoldable pub deactivate_consumer : ℕ → Db → Result MonitorError WebhookConsumer × Db
  unfolding change
  deactivate_consumer id =
      change id (λ c. record c { is_active = false; status = ConsumerStatus.inactive })

  unfoldable pub suspend_consumer :
      String → ℕ → Option String → Db → Result MonitorError WebhookConsumer × Db
  unfolding change suspended_for
  suspend_consumer at id reason = change id (suspended_for at reason)

  unfoldable pub get_active_consumers : Db → List WebhookConsumer
  get_active_consumers d =
      repo.find d (λ c. c.is_active && same_consumer c.status ConsumerStatus.active)

  unfoldable pub update_delivery_stats :
      (ℕ → String) → ℕ → ℕ → Bool → Db → Result MonitorError WebhookConsumer × Db
  unfolding change counted
  update_delivery_stats iso now id is_success = change id (counted iso now is_success)
