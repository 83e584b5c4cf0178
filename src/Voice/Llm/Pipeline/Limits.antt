-- ===== src/Voice/Llm/Pipeline/Limits.antt =====
-- The usages under the requests of the pipeline.
use farm_exc.Prelude.{
  ℕ, ◌≤◌, ◌/◌, String, ◌≡◌, refl, ap, ◌∙◌, inl, inr, Bool, true, false, Option, Result-cases,
  Option-cases, Bool-cases, str_eq, arith, if◌then◌else◌,
}
use farm_exc.Redis.{count_of}
use farm_exc.Voice.Llm.{
  LlmKey, monthly, session, rpm, monthly_limit, entry, hits, created, entry_model, entry_ttl,
  total_hits, total_entries, Platform, IsPlatform, same_key,
}
use farm_exc.Voice.Llm.Quota.{
  QuotaStatus, limit_or, default_config, enforce_quota, record_request, usage,
}
use farm_exc.Voice.Llm.Quota.Limits.{
  IsBelow, enforce_quota_passes, record_request_counts, effective_limit,
}
use farm_exc.Voice.Llm.Cache.{get, set, generate_cache_key}
use farm_exc.Voice.Llm.Pipeline.{
  LlmResponseOptions, model_or_default, unless_false, call_llm_with_fallback, look_up, answer,
  generate_response,
}

-- The key is none that the cache writes.
abbrev IsApart : LlmKey → Type 0
IsApart j =
    ((m h : String) → same_key (entry m h) j ≡ false)
    × ((m h : String) → same_key (hits m h) j ≡ false)
    × ((m h : String) → same_key (created m h) j ≡ false)
    × ((m h : String) → same_key (entry_model m h) j ≡ false)
    × ((m h : String) → same_key (entry_ttl m h) j ≡ false)
    × (same_key total_hits j ≡ false)
    × (same_key total_entries j ≡ false)

month_IsApart : (u m : String) → IsApart (monthly u m)
month_IsApart u m =
    (λ m' h. refl, λ m' h. refl, λ m' h. refl, λ m' h. refl, λ m' h. refl, refl, refl)

limit_IsApart : (u : String) → IsApart (monthly_limit u)
limit_IsApart u = (λ m' h. refl, λ m' h. refl, λ m' h. refl, λ m' h. refl, λ m' h. refl, refl, refl)

session_IsApart : (s : String) → IsApart (session s)
session_IsApart s =
    (λ m' h. refl, λ m' h. refl, λ m' h. refl, λ m' h. refl, λ m' h. refl, refl, refl)

rpm_IsApart : (u : String) (n : ℕ) → IsApart (rpm u n)
rpm_IsApart u n = (λ m' h. refl, λ m' h. refl, λ m' h. refl, λ m' h. refl, λ m' h. refl, refl, refl)

module _ {Db : Type 0} (p : Platform Db) where
  -- No usage is above its limit.
  abbrev pub IsWithin : String → String → ℕ → Db → Type 0
  IsWithin user id now d =
      (usage p d (monthly user (p.month_of now)) ≤ effective_limit p user 1000 d)
      × (usage p d (session id) ≤ 100)
      × (usage p d (rpm user (now / 60000)) ≤ 20)

  module _ (law : IsPlatform p) where
    get-look_up :
        (b : Bool) (prompt model : String) (d : Db) (j : LlmKey)
        → IsApart j
        → p.redis.get (look_up p b prompt model d).1 j ≡ p.redis.get d j
    unfolding look_up get
    get-look_up false prompt model d j apart = refl
    get-look_up true prompt model d j apart =
        elim (Option-cases (p.redis.get d (generate_cache_key p prompt model))) [
          | inl e ↦ rw (e, look_up, get) refl
          | inr (v, e) ↦ elim (Bool-cases (str_eq v "")) [
            | inl empty ↦ rw (e, empty, look_up, get) refl
            | inr there ↦
                rw (e, there, look_up, get)
                  (law.is_redis.incr_other _ total_hits j apart.5
                    ∙ law.is_redis.incr_other d (hits model _) j (apart.1 model _))
          ]
        ]

    get-set_apart :
        (d : Db) (k j : LlmKey) (v : String) (n : ℕ)
        → same_key k j ≡ false
        → p.redis.get (p.redis.set d k v n) j ≡ p.redis.get d j
    get-set_apart d k j v n h = law.is_redis.set_then d k j v n ∙ rw h refl

    get-set :
        (now : ℕ) (prompt response model : String) (ttl : Option ℕ) (d : Db) (j : LlmKey)
        → IsApart j
        → p.redis.get (set p now prompt response model ttl d) j ≡ p.redis.get d j
    unfolding set generate_cache_key
    get-set now prompt response model ttl d j (a, b, c, e, f, g, i) =
        let h = p.sha256 (p.normalised prompt) in
        law.is_redis.incr_other _ total_entries j i
        ∙ get-set_apart _ (entry_ttl model h) j _ _ (f model h)
        ∙ get-set_apart _ (entry_model model h) j _ _ (e model h)
        ∙ get-set_apart _ (created model h) j _ _ (c model h)
        ∙ get-set_apart d (entry model h) j response _ (a model h)

    -- What the cache does is none of the quotas' business.
    abbrev KeepsUsage : String → String → ℕ → Db → Db → Type 0
    KeepsUsage user id now d d' =
        (usage p d' (monthly user (p.month_of now)) ≡ usage p d (monthly user (p.month_of now)))
        × (usage p d' (session id) ≡ usage p d (session id))
        × (usage p d' (rpm user (now / 60000)) ≡ usage p d (rpm user (now / 60000)))
        × (effective_limit p user 1000 d' ≡ effective_limit p user 1000 d)

    keeps-KeepsUsage :
        (user id : String) (now : ℕ) (d d' : Db)
        → ((j : LlmKey) → IsApart j → p.redis.get d' j ≡ p.redis.get d j)
        → KeepsUsage user id now d d'
    keeps-KeepsUsage user id now d d' keeps = (
      ap (count_of p.number) (keeps _ (month_IsApart user (p.month_of now))),
      ap (count_of p.number) (keeps _ (session_IsApart id)),
      ap (count_of p.number) (keeps _ (rpm_IsApart user (now / 60000))),
      ap (limit_or p.number 1000) (keeps _ (limit_IsApart user)),
    )

    record_request-IsWithin :
        (user id : String) (now : ℕ) (d d' : Db)
        → IsBelow p user id now default_config d
        → KeepsUsage user id now d d'
        → IsWithin user id now (record_request p user id now d')
    record_request-IsWithin user id now d d' (a, b, c) (x, y, z, w) =
        let (month, month', one, minute, own) = record_request_counts p law user id now d' in
        let own' = ap (limit_or p.number 1000) own in (ground arith, ground arith, ground arith)

    uncounted-IsWithin :
        (user id : String) (now : ℕ) (d d' : Db)
        → IsWithin user id now d
        → KeepsUsage user id now d d'
        → IsWithin user id now d'
    uncounted-IsWithin user id now d d' (a, b, c) (x, y, z, w) =
        (ground arith, ground arith, ground arith)

    get-set_if :
        (b : Bool) (now : ℕ) (prompt response model : String) (ttl : Option ℕ) (d : Db) (j : LlmKey)
        → IsApart j
        → p.redis.get (if b then set p now prompt response model ttl d else d) j ≡ p.redis.get d j
    get-set_if true now prompt response model ttl d j apart =
        get-set now prompt response model ttl d j apart
    get-set_if false now prompt response model ttl d j apart = refl

    answer-IsWithin :
        (now pick : ℕ) (user id prompt : String) (o : LlmResponseOptions) (status : QuotaStatus)
        (d d' : Db)
        → IsBelow p user id now default_config d
        → IsWithin user id now d
        → ((j : LlmKey) → IsApart j → p.redis.get d' j ≡ p.redis.get d j)
        → IsWithin user id now (answer p now pick user id prompt o status d').1
    unfolding answer
    answer-IsWithin now pick user id prompt o status d d' below within keeps =
        let text = call_llm_with_fallback p pick prompt in
        let model = model_or_default o.model in
        let stored =
          if unless_false o.use_cache then set p now prompt text model o.cache_ttl d' else d' in
        let kept = keeps-KeepsUsage user id now d stored (λ j apart.
          get-set_if (unless_false o.use_cache) now prompt text model o.cache_ttl d' j apart
          ∙ keeps j apart) in
        elim (Bool-cases (unless_false o.record_quota)) [
          | inl counted ↦ rw counted (record_request-IsWithin user id now d stored below kept)
          | inr uncounted ↦ rw uncounted (uncounted-IsWithin user id now d stored within kept)
        ]

    -- A request keeps the three usages of its user and session within their limits, with any options,
    -- whether it is answered or refused.
    pub generate_response-IsWithin :
        (now pick : ℕ) (user id prompt : String) (o : LlmResponseOptions) (d : Db)
        → IsWithin user id now d
        → IsWithin user id now (generate_response p now pick user id prompt o d).1
    unfolding generate_response
    generate_response-IsWithin now pick user id prompt o d h =
        let model = model_or_default o.model in
        let looked = look_up p (unless_false o.use_cache) prompt model d in
        let keeps = get-look_up (unless_false o.use_cache) prompt model d in
        elim (Result-cases (enforce_quota p user id now default_config d)) [
          | inl (e, refused) ↦ rw (refused, generate_response) h
          | inr (s, passed) ↦ elim (Option-cases looked.0) [
            | inl missing ↦
                rw (passed, missing, generate_response)
                  (answer-IsWithin now pick user id prompt o s d looked.1
                    (enforce_quota_passes p user id now default_config d s passed) h keeps)
            | inr (v, found) ↦
                rw (passed, found, generate_response)
                  (uncounted-IsWithin user id now d looked.1 h
                    (keeps-KeepsUsage user id now d looked.1 keeps))
          ]
        ]
