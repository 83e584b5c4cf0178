-- ===== src/Voice/Llm/Pipeline/Answers.antt =====
-- What a request is answered, from the cache and against the quotas.
use farm_exc.Prelude.{
  ℕ, ◌≤◌, String, ◌≡◌, refl, ap, ◌∙◌, inl, inr, true, false, none, some, ok, err, Bool-cases,
  str_eq,
}
use farm_exc.Voice.Llm.{monthly, entry, Platform, IsPlatform, str_eq_refl}
use farm_exc.Voice.Llm.Quota.{
  QuotaStatus, default_config, get_quota_status, enforce_quota, record_request, usage,
}
use farm_exc.Voice.Llm.Quota.Limits.{
  IsBelow, enforce_quota_full, enforce_quota_iff, effective_limit, get-record_request,
}
use farm_exc.Voice.Llm.Cache.{set}
use farm_exc.Voice.Llm.Cache.Entries.{full, answers, hash_of, get-answers, answers-set}
use farm_exc.Voice.Llm.Pipeline.{
  LlmResponseOptions, model_or_default, unless_false, fallback_message, call_llm_with_fallback,
  look_up, answer, generate_response, or_fallback, generate_response_with_fallback,
}

module _ {Db : Type 0} (p : Platform Db) (law : IsPlatform p) where
  answers-record_request :
      (user id : String) (now : ℕ) (d : Db) (m h : String)
      → answers p (record_request p user id now d) m h ≡ answers p d m h
  answers-record_request user id now d m h =
      ap full (get-record_request p law user id now d (entry m h) refl refl refl)

  -- What an answer leaves in the cache.
  answers-answer :
      (now pick : ℕ) (user id prompt : String) (o : LlmResponseOptions) (status : QuotaStatus)
      (d : Db)
      → unless_false o.use_cache ≡ true
      → str_eq (call_llm_with_fallback p pick prompt) "" ≡ false
      → answers p
          (answer p now pick user id prompt o status d).1
          (model_or_default o.model)
          (hash_of p prompt)
        ≡ some (call_llm_with_fallback p pick prompt)
  unfolding answer
  answers-answer now pick user id prompt o status d uses some_text =
      let text = call_llm_with_fallback p pick prompt in
      let model = model_or_default o.model in
      let stored : answers p (set p now prompt text model o.cache_ttl d) model (hash_of p prompt)
          ≡ some text =
        answers-set p law now prompt text model o.cache_ttl d model (hash_of p prompt)
        ∙ rw (str_eq_refl model, str_eq_refl (hash_of p prompt), some_text) refl in
      elim (Bool-cases (unless_false o.record_quota)) [
        | inl counted ↦ rw (uses, counted) (answers-record_request user id now _ _ _ ∙ stored)
        | inr uncounted ↦ rw (uses, uncounted) stored
      ]

  -- A request that may pass and whose answer is in the cache.
  generate_response_hit :
      (now pick : ℕ) (user id prompt text : String) (o : LlmResponseOptions) (d : Db)
      → IsBelow p user id now default_config d
      → unless_false o.use_cache ≡ true
      → answers p d (model_or_default o.model) (hash_of p prompt) ≡ some text
      → (generate_response p now pick user id prompt o d).0
        ≡ ok (record {
          content = text;
          cached = true;
          quota_status = get_quota_status p user id now default_config d;
          model = model_or_default o.model;
        })
  unfolding generate_response look_up
  generate_response_hit now pick user id prompt text o d below uses there =
      let allowed = (enforce_quota_iff p user id now default_config d).1 below in
      let found = get-answers p law prompt (model_or_default o.model) d ∙ there in
      rw (allowed, uses, found, generate_response) refl

  -- A request with the cache that found no answer in it, and a later one whose prompt is the same up to
  -- spaces around it and case, for the same model, by whoever has the quota for it. While the key of
  -- the first answer holds what the first request left there, whatever has happened to other keys, the
  -- second is answered from the cache with the first answer, also where that is the message of a failure.
  pub generate_response_again :
      (now later pick pick' : ℕ) (user id prompt user' id' prompt' : String)
      (o o' : LlmResponseOptions) (d d' : Db)
      → enforce_quota p user id now default_config d
        ≡ ok (get_quota_status p user id now default_config d)
      → answers p d (model_or_default o.model) (hash_of p prompt) ≡ none
      → unless_false o.use_cache ≡ true
      → unless_false o'.use_cache ≡ true
      → model_or_default o'.model ≡ model_or_default o.model
      → p.normalised prompt' ≡ p.normalised prompt
      → str_eq (call_llm_with_fallback p pick prompt) "" ≡ false
      → (let key = entry (model_or_default o.model) (hash_of p prompt) in
          p.redis.get d' key ≡ p.redis.get (generate_response p now pick user id prompt o d).1 key)
      → IsBelow p user' id' later default_config d'
      → (generate_response p later pick' user' id' prompt' o' d').0
        ≡ ok (record {
          content = call_llm_with_fallback p pick prompt;
          cached = true;
          quota_status = get_quota_status p user' id' later default_config d';
          model = model_or_default o.model;
        })
  unfolding generate_response look_up
  generate_response_again now later pick pick' user id prompt user' id' prompt' o o' d d' allowed
        absent uses uses' same_model same_prompt some_text kept below =
      let model = model_or_default o.model in
      let missing : (look_up p (unless_false o.use_cache) prompt model d).0 ≡ none =
        rw uses (get-answers p law prompt model d ∙ absent) in
      let first : (generate_response p now pick user id prompt o d).1
          ≡ (answer p now pick user id prompt o (get_quota_status p user id now default_config d)
              (look_up p (unless_false o.use_cache) prompt model d).1).1 =
        rw (allowed, missing, generate_response) refl in
      let there : answers p d' model (hash_of p prompt)
          ≡ some (call_llm_with_fallback p pick prompt) =
        ap full kept
        ∙ ap (λ s. answers p s model (hash_of p prompt)) first
        ∙ answers-answer now pick user id prompt o (get_quota_status p user id now default_config d)
            _ uses some_text in
      rw (← same_model) (
        generate_response_hit later pick' user' id' prompt' _ o' d' below uses'
          (rw same_model (ap (λ h. answers p d' model h) (ap p.sha256 same_prompt) ∙ there)))

  -- A request beyond the user's monthly limit is answered with the message of a failure, also where the
  -- cache has its answer, and writes nothing.
  pub generate_response_with_fallback_full :
      (now pick : ℕ) (user id prompt : String) (o : LlmResponseOptions) (d : Db)
      → effective_limit p user 1000 d ≤ usage p d (monthly user (p.month_of now))
      → generate_response_with_fallback p now pick user id prompt o d ≡ (
        record {
          content = fallback_message;
          cached = false;
          quota_status = get_quota_status p user id now default_config d;
          model = model_or_default o.model;
        },
        d,
      )
  unfolding generate_response_with_fallback or_fallback generate_response
  generate_response_with_fallback_full now pick user id prompt o d h =
      let (e, refused) = enforce_quota_full p user id now default_config d h in
      let r : generate_response p now pick user id prompt o d ≡ (err e, d) =
        rw (refused, generate_response) refl in
      ap (or_fallback p now user id o) r
