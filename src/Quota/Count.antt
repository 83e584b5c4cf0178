-- ===== src/Quota/Count.antt =====
-- The quota, and the requests recorded.
use farm_exc.Prelude.{
  ℕ, suc, ◌+◌, String, ◌≡◌, refl, ap, ◌∙◌, Option, none, some, List, [], ◌∷◌, str_eq, eq_iff, leb,
  if◌then◌else◌, arith,
}
use farm_exc.Quota.{
  QuotaRecord, Quotas, quota_exceeded, get_quota, set_quota, get_key, or_zero, exceeded,
  assert_quota, record_usage,
}

-- A call of `recordUsage`: the user, the month at the time, and the tokens.
pub record Usage : Type 0 where
  pub user_id : String
  pub month : String
  pub tokens : ℕ

-- The map after some calls, the first of the list being the latest.
abbrev pub recorded : List Usage → Quotas
recorded [] = []
recorded (u ∷ us) = record_usage u.user_id u.month u.tokens (recorded us)

-- The calls for a key.
abbrev pub calls_for : String → List Usage → ℕ
calls_for key [] = 0
calls_for key (u ∷ us) =
    let rest = calls_for key us in if str_eq (get_key u.user_id u.month) key then suc rest else rest

get_quota-set_quota :
    (quotas : Quotas) (key other : String) (q : QuotaRecord)
    → get_quota (set_quota quotas key q) other
      ≡ (if str_eq key other then some q else get_quota quotas other)
unfolding get_quota set_quota
get_quota-set_quota [] key other q = refl
get_quota-set_quota ((k, p) ∷ quotas) key other q =
    ground (
      arith,
      eq_iff k key,
      eq_iff k other,
      eq_iff key other,
      get_quota-set_quota quotas key other q,
    )

-- The requests that the map holds for a key.
abbrev requests : Quotas → String → ℕ
requests quotas key = (or_zero (get_quota quotas key)).request_count

requests-recorded : (us : List Usage) (key : String) → requests (recorded us) key ≡ calls_for key us
unfolding record_usage get_quota
requests-recorded [] key = refl
requests-recorded (u ∷ us) key =
    let used = get_key u.user_id u.month in
    ground (
      arith,
      eq_iff used key,
      requests-recorded us key,
      get_quota-set_quota (recorded us) used key (record {
        request_count = requests (recorded us) used + 1;
        token_count = (or_zero (get_quota (recorded us) used)).token_count + u.tokens;
      }),
    )

exceeded-requests :
    (o : Option QuotaRecord)
    → exceeded o ≡ (if leb 1000 (or_zero o).request_count then some quota_exceeded else none)
exceeded-requests none = refl
exceeded-requests (some q) = refl

-- After any calls of `recordUsage` on an empty map, `assertQuota` refuses a user in a month if and
-- only if at least 1000 of the calls were for the key of that user and month.
pub assert_quota-recorded :
    (us : List Usage) (user_id month : String)
    → assert_quota user_id month (recorded us)
      ≡ (if leb 1000 (calls_for (get_key user_id month) us) then some quota_exceeded else none)
unfolding assert_quota
assert_quota-recorded us user_id month =
    exceeded-requests (get_quota (recorded us) (get_key user_id month))
    ∙ ap (λ n. if leb 1000 n then some quota_exceeded else none)
        (requests-recorded us (get_key user_id month))
