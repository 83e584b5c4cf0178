-- ===== src/Voice/Llm/Quota/Limits.antt =====
-- What the quotas let through, and how they count.
use farm_exc.Prelude.{
  ℕ, suc, ◌+◌, ◌≤◌, ◌<◌, ◌/◌, String, ◌≡◌, refl, ap, ◌∙◌, inl, inr, ◌↔◌, true, false, none, some,
  ok, err, ◌∷◌, ◌==◌, Bool, ◌&&◌, leb, includes, List-cases, Option-cases, Bool-cases, arith,
}
use farm_exc.Redis.{count_of}
use farm_exc.Voice.Llm.{
  LlmKey, monthly, monthly_limit, session, rpm, Platform, IsPlatform, same_key, same_key_refl,
  str_eq_refl,
}
use farm_exc.Voice.Llm.Quota.{
  QuotaConfig, QuotaStatus, QuotaError, limit_or, is_monthly_of, get_month_key, get_session_key,
  get_rpm_key, usage, check_monthly_quota, check_session_quota, check_requests_per_minute,
  get_quota_status, enforce_quota, increment_with_expiry, record_request, reset_user_quota,
  set_user_monthly_quota, get_user_monthly_quota,
}

module _ {Db : Type 0} (p : Platform Db) where
  -- The monthly limit that counts for a user.
  abbrev pub effective_limit : String → ℕ → Db → ℕ
  effective_limit user limit d = limit_or p.number limit (p.redis.get d (monthly_limit user))

  -- Every usage is below its limit.
  abbrev pub IsBelow : String → String → ℕ → QuotaConfig → Db → Type 0
  IsBelow user id now config d =
      (usage p d (monthly user (p.month_of now)) < effective_limit user config.monthly_limit d)
      × (usage p d (session id) < config.per_session_limit)
      × (usage p d (rpm user (now / 60000)) < config.requests_per_minute)

  pub enforce_quota_passes :
      (user id : String) (now : ℕ) (config : QuotaConfig) (d : Db) (s : QuotaStatus)
      → enforce_quota p user id now config d ≡ ok s
      → IsBelow user id now config d
  unfolding enforce_quota check_monthly_quota check_session_quota check_requests_per_minute
      get_month_key get_session_key get_rpm_key
  enforce_quota_passes user id now config d s h =
      elim (Bool-cases (
        leb (effective_limit user config.monthly_limit d)
          (usage p d (monthly user (p.month_of now))))) [
            | inl a ↦ absurd (ground (arith, rw (a, enforce_quota) at h))
            | inr a ↦ elim (Bool-cases (leb config.per_session_limit (usage p d (session id)))) [
              | inl b ↦ absurd (ground (arith, rw (a, b, enforce_quota) at h))
              | inr b ↦
                  elim (Bool-cases
                    (leb config.requests_per_minute (usage p d (rpm user (now / 60000))))) [
                      | inl c ↦ absurd (ground (arith, rw (a, b, c, enforce_quota) at h))
                      | inr c ↦ (ground (arith, a), ground (arith, b), ground (arith, c))
                    ]
            ]
          ]

  -- `enforceQuota` lets a request through if and only if the three usages are below their limits, the
  -- month's below the user's own limit where one is set; it tells the usages then.
  pub enforce_quota_iff :
      (user id : String) (now : ℕ) (config : QuotaConfig) (d : Db)
      → (enforce_quota p user id now config d ≡ ok (get_quota_status p user id now config d))
        ↔ IsBelow user id now config d
  unfolding enforce_quota check_monthly_quota check_session_quota check_requests_per_minute
      get_month_key get_session_key get_rpm_key
  enforce_quota_iff user id now config d = (
    enforce_quota_passes user id now config d (get_quota_status p user id now config d),
    λ h.
        let a : leb (effective_limit user config.monthly_limit d)
              (usage p d (monthly user (p.month_of now)))
            ≡ false =
          ground (arith, h.0) in
        let b : leb config.per_session_limit (usage p d (session id)) ≡ false =
          ground (arith, h.1) in
        let c : leb config.requests_per_minute (usage p d (rpm user (now / 60000))) ≡ false =
          ground (arith, h.2) in
        rw (a, b, c, enforce_quota) refl,
  )

  -- A month at the limit is refused.
  pub enforce_quota_full :
      (user id : String) (now : ℕ) (config : QuotaConfig) (d : Db)
      → effective_limit user config.monthly_limit d ≤ usage p d (monthly user (p.month_of now))
      → (e : QuotaError) × (enforce_quota p user id now config d ≡ err e)
  unfolding enforce_quota check_monthly_quota get_month_key
  enforce_quota_full user id now config d h =
      let over : leb (effective_limit user config.monthly_limit d)
            (usage p d (monthly user (p.month_of now)))
          ≡ true =
        ground arith in
      rw (over, enforce_quota) (_, refl)

  module _ (law : IsPlatform p) where
    and_false : (b : Bool) → (b && false) ≡ false
    and_false true = refl
    and_false false = refl

    usage-increment :
        (k : LlmKey) (ttl : ℕ) (d : Db)
        → (ttl == 0) ≡ false
        → usage p (increment_with_expiry p k ttl d) k ≡ suc (usage p d k)
    unfolding increment_with_expiry
    usage-increment k ttl d lasts =
        let e : p.redis.get (increment_with_expiry p k ttl d) k
            ≡ p.redis.get (p.redis.incr d k).1 k =
          elim (Bool-cases ((p.redis.incr d k).0 == 1)) [
            | inl one ↦
                rw (one, increment_with_expiry)
                  (law.is_redis.expire_then _ k k ttl ∙ rw (lasts, and_false (same_key k k)) refl)
            | inr more ↦ rw (more, increment_with_expiry) refl
          ] in
        ap (count_of p.number) e ∙ law.is_redis.incr_then d k

    -- With any time to live: a key that is not to last is deleted.
    usage-increment_most :
        (k : LlmKey) (ttl : ℕ) (d : Db)
        → usage p (increment_with_expiry p k ttl d) k ≤ suc (usage p d k)
    unfolding increment_with_expiry
    usage-increment_most k ttl d = elim (Bool-cases (ttl == 0)) [
      | inr lasts ↦ let e = usage-increment k ttl d lasts in rw e (omega arith)
      | inl gone ↦ elim (Bool-cases ((p.redis.incr d k).0 == 1)) [
        | inl one ↦
            rw
              (
                one,
                increment_with_expiry,
                law.is_redis.expire_then _ k k ttl,
                gone,
                same_key_refl k,
              )
              (omega arith)
        | inr more ↦ rw (more, increment_with_expiry, law.is_redis.incr_then d k) (omega arith)
      ]
    ]

    get-increment :
        (k j : LlmKey) (ttl : ℕ) (d : Db)
        → same_key k j ≡ false
        → p.redis.get (increment_with_expiry p k ttl d) j ≡ p.redis.get d j
    unfolding increment_with_expiry
    get-increment k j ttl d h = elim (Bool-cases ((p.redis.incr d k).0 == 1)) [
      | inl one ↦
          rw (one, increment_with_expiry)
            (law.is_redis.expire_then _ k j ttl ∙ rw h (law.is_redis.incr_other d k j h))
      | inr more ↦ rw (more, increment_with_expiry) (law.is_redis.incr_other d k j h)
    ]

    -- A key that is not one of the three that a recorded request counts.
    pub get-record_request :
        (user id : String) (now : ℕ) (d : Db) (j : LlmKey)
        → same_key (monthly user (p.month_of now)) j ≡ false
        → same_key (session id) j ≡ false
        → same_key (rpm user (now / 60000)) j ≡ false
        → p.redis.get (record_request p user id now d) j ≡ p.redis.get d j
    unfolding record_request get_month_key get_session_key get_rpm_key
    get-record_request user id now d j a b c =
        get-increment _ j _ _ c ∙ get-increment _ j _ _ b ∙ get-increment _ j _ d a

    -- A recorded request adds at most one to the usage of the user's month, and exactly one unless the
    -- seconds to the month's end are none, one to the usage of the session and of the user's minute, and
    -- leaves the user's own limit.
    pub record_request_counts :
        (user id : String) (now : ℕ) (d : Db)
        → let d' = record_request p user id now d in
          (usage p d' (monthly user (p.month_of now))
            ≤ usage p d (monthly user (p.month_of now)) + 1)
          × ((p.seconds_left now == 0) ≡ false
              → usage p d' (monthly user (p.month_of now))
                ≡ usage p d (monthly user (p.month_of now)) + 1)
          × (usage p d' (session id) ≡ usage p d (session id) + 1)
          × (usage p d' (rpm user (now / 60000)) ≡ usage p d (rpm user (now / 60000)) + 1)
          × (p.redis.get d' (monthly_limit user) ≡ p.redis.get d (monthly_limit user))
    unfolding record_request get_month_key get_session_key get_rpm_key
    record_request_counts user id now d =
        let month = monthly user (p.month_of now) in
        let minute = rpm user (now / 60000) in
        let d1 = increment_with_expiry p month (p.seconds_left now) d in
        let d2 = increment_with_expiry p (session id) 604800 d1 in
        let later : usage p (increment_with_expiry p minute 60 d2) month ≡ usage p d1 month =
          ap (count_of p.number) (
            get-increment minute month 60 d2 refl
            ∙ get-increment (session id) month 604800 d1 refl) in
        (
          rw later (omega (arith, usage-increment_most month (p.seconds_left now) d)),
          λ lasts. later ∙ usage-increment month (p.seconds_left now) d lasts ∙ omega arith,
          ap (count_of p.number) (get-increment minute (session id) 60 d2 refl)
              ∙ usage-increment (session id) 604800 d1 refl
              ∙ ap (λ o. suc (count_of p.number o)) (get-increment month (session id) _ d refl)
              ∙ omega arith,
          usage-increment minute 60 d2 refl
              ∙ ap (λ o. suc (count_of p.number o))
                  (get-increment (session id) minute 604800 d1 refl
                    ∙ get-increment month minute _ d refl)
              ∙ omega arith,
          get-record_request user id now d (monthly_limit user) refl refl refl,
        )

    reset_gone :
        (user : String) (d : Db) (j : LlmKey)
        → is_monthly_of user j ≡ true
        → p.redis.get (reset_user_quota p user d) j ≡ none
    unfolding reset_user_quota
    reset_gone user d j mine = elim (Option-cases (p.redis.get d j)) [
      | inl absent ↦ elim (List-cases (p.redis.keys d (is_monthly_of user))) [
        | inl e ↦ rw (e, reset_user_quota) absent
        | inr (k, ks, e) ↦ rw (e, reset_user_quota, law.is_redis.del_then, absent) (ground arith)
      ]
      | inr (v, here) ↦
          let listed = law.is_redis.listed d (is_monthly_of user) j v mine here in
          elim (List-cases (p.redis.keys d (is_monthly_of user))) [
            | inl e ↦ absurd (ground (arith, rw e at listed))
            | inr (k, ks, e) ↦
                let found : includes same_key (k ∷ ks) j ≡ true = rw e at listed in
                rw (e, reset_user_quota, law.is_redis.del_then, found) refl
          ]
    ]

    -- After `resetUserQuota` a user's month is unused, and a limit that was set for the user is gone too:
    -- the default of 1000 counts again.
    pub reset_user_quota_default :
        (user : String) (now : ℕ) (d : Db)
        → let d' = reset_user_quota p user d in
          (usage p d' (monthly user (p.month_of now)) ≡ 0)
          × (get_user_monthly_quota p user d' ≡ 1000)
    unfolding reset_user_quota get_user_monthly_quota
    reset_user_quota_default user now d = (
      ap (count_of p.number) (reset_gone user d (monthly user (p.month_of now)) (str_eq_refl user)),
      ap (limit_or p.number 1000) (reset_gone user d (monthly_limit user) (str_eq_refl user)),
    )

    -- A limit that is set for a user is read again, and then the user's requests are refused in a month as
    -- soon as the month's usage is at the limit, even where the configuration allows more.
    pub set_user_monthly_quota_limits :
        (user id : String) (limit now : ℕ) (config : QuotaConfig) (d : Db)
        → let d' = set_user_monthly_quota p user limit now d in
          (get_user_monthly_quota p user d' ≡ limit)
          × (limit ≤ usage p d (monthly user (p.month_of now))
              → (e : QuotaError) × (enforce_quota p user id now config d' ≡ err e))
    unfolding set_user_monthly_quota get_user_monthly_quota
    set_user_monthly_quota_limits user id limit now config d =
        let d' = set_user_monthly_quota p user limit now d in
        let own : p.redis.get d' (monthly_limit user) ≡ some (p.text limit) =
          law.is_redis.set_then d _ (monthly_limit user) (p.text limit) _
          ∙ rw (same_key_refl (monthly_limit user)) refl in
        let counts : (n : ℕ) → effective_limit user n d' ≡ limit =
          λ n. ap (limit_or p.number n) own ∙ rw (law.text_full limit) (law.number_text limit) in
        let kept : usage p d' (monthly user (p.month_of now))
            ≡ usage p d (monthly user (p.month_of now)) =
          ap (count_of p.number) (
            law.is_redis.set_then d (monthly_limit user) (monthly user (p.month_of now))
              (p.text limit) _) in
        (
          counts 1000,
          λ h. enforce_quota_full user id now config d' (rw (counts config.monthly_limit, kept) h),
        )
