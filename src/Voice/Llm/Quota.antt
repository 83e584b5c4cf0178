-- ===== src/Voice/Llm/Quota.antt =====
-- Backend/src/voice/services/quota.service.ts: the requests of a user in a month and in a minute, and of
-- a session. Redis answers every call, so that no call ends in a `catch` block.
pub mod Limits
use farm_exc.Prelude.{
  ℕ, ◌+◌, ◌/◌, String, Bool, true, false, Option, none, some, Result, ok, err, List, [], ◌∷◌, ◌==◌,
  leb, str_eq, if◌then◌else◌,
}
use farm_exc.Redis.{count_of}
use farm_exc.Voice.Llm.{LlmKey, monthly, monthly_limit, session, rpm, Platform}

pub record QuotaConfig : Type 0 where
  pub monthly_limit : ℕ
  pub per_session_limit : ℕ
  pub requests_per_minute : ℕ

pub record QuotaStatus : Type 0 where
  pub monthly_usage : ℕ
  pub monthly_limit : ℕ
  pub session_usage : ℕ
  pub session_limit : ℕ
  pub requests_this_minute : ℕ
  pub requests_per_minute_limit : ℕ

abbrev pub default_config : QuotaConfig
default_config = record { monthly_limit = 1000; per_session_limit = 100; requests_per_minute = 20 }

-- The exceptions of status 429, with the usage and the limit they tell.
pub data QuotaError : Type 0 where
  monthly_exceeded : ℕ → ℕ → QuotaError
  session_exceeded : ℕ → ℕ → QuotaError
  rate_exceeded : ℕ → QuotaError

-- The first of two checks that throws.
abbrev pub first_error : Option QuotaError → Option QuotaError → Option QuotaError
first_error none later = later
first_error (some e) later = some e

-- `customLimit ? parseInt(customLimit, 10) : limit`.
abbrev pub limit_or : (String → ℕ) → ℕ → Option String → ℕ
limit_or number limit none = limit
limit_or number limit (some v) = if str_eq v "" then limit else number v

-- The keys that `quota:monthly:<user>:*` stands for.
abbrev pub is_monthly_of : String → LlmKey → Bool
is_monthly_of user (monthly u m) = str_eq u user
is_monthly_of user (monthly_limit u) = str_eq u user
is_monthly_of user _ = false

module _ {Db : Type 0} (p : Platform Db) where
  unfoldable pub get_month_key : String → ℕ → LlmKey
  get_month_key user now = monthly user (p.month_of now)

  unfoldable pub get_session_key : String → LlmKey
  get_session_key id = session id

  unfoldable pub get_rpm_key : String → ℕ → LlmKey
  get_rpm_key user now = rpm user (now / 60000)

  abbrev pub usage : Db → LlmKey → ℕ
  usage d k = count_of p.number (p.redis.get d k)

  unfoldable pub check_monthly_quota : String → ℕ → ℕ → Db → Option QuotaError
  unfolding get_month_key
  check_monthly_quota user now limit d =
      let effective = limit_or p.number limit (p.redis.get d (monthly_limit user)) in
      let used = usage d (get_month_key user now) in
      if leb effective used then some (monthly_exceeded used effective) else none

  unfoldable pub check_session_quota : String → ℕ → Db → Option QuotaError
  unfolding get_session_key
  check_session_quota id limit d =
      let used = usage d (get_session_key id) in
      if leb limit used then some (session_exceeded used limit) else none

  unfoldable pub check_requests_per_minute : String → ℕ → ℕ → Db → Option QuotaError
  unfolding get_rpm_key
  check_requests_per_minute user now limit d =
      if leb limit (usage d (get_rpm_key user now)) then some (rate_exceeded limit) else none

  unfoldable pub get_quota_status : String → String → ℕ → QuotaConfig → Db → QuotaStatus
  unfolding get_month_key get_session_key get_rpm_key
  get_quota_status user id now config d = record {
    monthly_usage = usage d (get_month_key user now);
    monthly_limit = config.monthly_limit;
    session_usage = usage d (get_session_key id);
    session_limit = config.per_session_limit;
    requests_this_minute = usage d (get_rpm_key user now);
    requests_per_minute_limit = config.requests_per_minute;
  }

  -- With the configuration merged into the default one.
  unfoldable pub enforce_quota :
      String → String → ℕ → QuotaConfig → Db → Result QuotaError QuotaStatus
  unfolding check_monthly_quota check_session_quota check_requests_per_minute get_quota_status
  enforce_quota user id now config d =
      elim (first_error (check_monthly_quota user now config.monthly_limit d) (
        first_error (check_session_quota id config.per_session_limit d)
          (check_requests_per_minute user now config.requests_per_minute d))) [
            | some e ↦ err e
            | none ↦ ok (get_quota_status user id now config d)
          ]

  unfoldable pub increment_with_expiry : LlmKey → ℕ → Db → Db
  increment_with_expiry key ttl d =
      let (n, d') = p.redis.incr d key in if n == 1 then p.redis.expire d' key ttl else d'

  unfoldable pub record_request : String → String → ℕ → Db → Db
  unfolding get_month_key get_session_key get_rpm_key increment_with_expiry
  record_request user id now d = increment_with_expiry (get_rpm_key user now) 60 (
      increment_with_expiry (get_session_key id) 604800
        (increment_with_expiry (get_month_key user now) (p.seconds_left now) d))

  unfoldable pub reset_user_quota : String → Db → Db
  reset_user_quota user d = elim (p.redis.keys d (is_monthly_of user)) [
    | [] ↦ d
    | k ∷ ks ↦ p.redis.del d (k ∷ ks)
  ]

  unfoldable pub reset_session_quota : String → Db → Db
  unfolding get_session_key
  reset_session_quota id d = p.redis.del d (get_session_key id ∷ [])

  -- Usage above the limit is only logged.
  unfoldable pub set_user_monthly_quota : String → ℕ → ℕ → Db → Db
  set_user_monthly_quota user limit now d =
      p.redis.set d (monthly_limit user) (p.text limit) (p.seconds_left now)

  unfoldable pub get_user_monthly_quota : String → Db → ℕ
  get_user_monthly_quota user d =
      limit_or p.number default_config.monthly_limit (p.redis.get d (monthly_limit user))
