-- ===== src/Quota.antt =====
-- Backend/src/ai/quota/quota.service.ts: the monthly quota of AI requests, kept in a map in memory.
-- The month is the text of the clock's year and month, an argument here.
pub mod Count
use Prim.Native.String.{◌++◌}
use farm_exc.Prelude.{ℕ, ◌+◌, String, Option, none, some, List, [], ◌∷◌, str_eq, leb, if◌then◌else◌}

pub record QuotaRecord : Type 0 where
  pub request_count : ℕ
  pub token_count : ℕ

-- `Map<string, QuotaRecord>`, in the order of insertion.
abbrev pub Quotas : Type 0
Quotas = List (String × QuotaRecord)

abbrev pub max_requests : ℕ
max_requests = 1000

-- The one error of the service, of kind `QuotaExceeded`.
pub data QuotaError : Type 0 where
  quota_exceeded : QuotaError

-- `Map.get`.
unfoldable pub get_quota : Quotas → String → Option QuotaRecord
get_quota [] key = none
get_quota ((k, q) ∷ quotas) key =
    let rest = get_quota quotas key in if str_eq k key then some q else rest

-- `Map.set`.
unfoldable pub set_quota : Quotas → String → QuotaRecord → Quotas
set_quota [] key q = (key, q) ∷ []
set_quota ((k, p) ∷ quotas) key q =
    let rest = set_quota quotas key q in if str_eq k key then (k, q) ∷ quotas else (k, p) ∷ rest

unfoldable pub get_key : String → String → String
get_key user_id month = user_id ++ ":" ++ month

abbrev pub or_zero : Option QuotaRecord → QuotaRecord
or_zero none = record { request_count = 0; token_count = 0 }
or_zero (some q) = q

abbrev pub exceeded : Option QuotaRecord → Option QuotaError
exceeded none = none
exceeded (some q) = if leb max_requests q.request_count then some quota_exceeded else none

-- What is thrown, if anything is.
unfoldable pub assert_quota : String → String → Quotas → Option QuotaError
unfolding get_quota get_key
assert_quota user_id month quotas = exceeded (get_quota quotas (get_key user_id month))

unfoldable pub record_usage : String → String → ℕ → Quotas → Quotas
unfolding get_quota set_quota get_key
record_usage user_id month tokens quotas =
    let key = get_key user_id month in
    let existing = or_zero (get_quota quotas key) in
    set_quota quotas key (record {
      request_count = existing.request_count + 1;
      token_count = existing.token_count + tokens;
    })
