-- ===== src/Voice/Llm/Pipeline.antt =====
-- Backend/src/voice/services/llm.service.ts: a prompt is checked against the quotas, looked up in the
-- cache, answered by the mock of the provider and counted. The number that `Math.random` gives is an
-- argument, of the four answers the one to take; so is the time, one for a request.
pub mod Answers
pub mod Limits
use Prim.Native.String.{◌++◌}
use farm_exc.Prelude.{
  ℕ, String, Bool, true, false, Option, none, some, Result, ok, err, str_eq, ◌==◌, if◌then◌else◌,
}
use farm_exc.Voice.Llm.{Platform}
use farm_exc.Voice.Llm.Quota.{
  QuotaConfig, QuotaStatus, QuotaError, default_config, enforce_quota, get_quota_status,
  record_request,
}
use farm_exc.Voice.Llm.Cache.{get, set}

pub record LlmResponseOptions : Type 0 where
  pub model : Option String
  pub use_cache : Option Bool
  pub record_quota : Option Bool
  pub cache_ttl : Option ℕ

pub record LlmResponse : Type 0 where
  pub content : String
  pub cached : Bool
  pub quota_status : QuotaStatus
  pub model : String

abbrev pub fallback_message : String
fallback_message =
    "I'm sorry, I'm having trouble processing your request right now. Please try again in a moment."

-- `options.model || this.DEFAULT_MODEL`.
abbrev pub model_or_default : Option String → String
model_or_default none = "gpt-3.5-turbo"
model_or_default (some m) = if str_eq m "" then "gpt-3.5-turbo" else m

-- `option !== false`.
abbrev pub unless_false : Option Bool → Bool
unless_false none = true
unless_false (some b) = b

-- The answers of the mock.
unfoldable pub mock_response : ℕ → String → String
mock_response pick prompt =
    if pick == 0
    then "I understand your question about " ++ (prompt ++ ". Let me help you with that.")
    else if pick == 1
    then "That's an interesting point. Based on what you've said, I think the best approach would be to consider multiple factors."
    else if pick == 2
    then "I can definitely help you with that. Here's what I recommend based on your situation."
    else "Thanks for sharing that with me. Let me provide you with some guidance on this topic."

module _ {Db : Type 0} (p : Platform Db) where
  unfoldable pub call_llm_with_fallback : ℕ → String → String
  unfolding mock_response
  call_llm_with_fallback pick prompt =
      if p.has_force_fail prompt then fallback_message else mock_response pick prompt

  -- What the cache is asked for, if it is used.
  unfoldable pub look_up : Bool → String → String → Db → Option String × Db
  unfolding get
  look_up true prompt model d = get p prompt model d
  look_up false prompt model d = (none, d)

  -- An answer that the cache did not have.
  unfoldable pub answer :
      ℕ → ℕ → String → String → String → LlmResponseOptions → QuotaStatus → Db → LlmResponse × Db
  unfolding call_llm_with_fallback set record_request
  answer now pick user id prompt options status d =
      let model = model_or_default options.model in
      let response = call_llm_with_fallback pick prompt in
      let d' =
        if unless_false options.use_cache
        then set p now prompt response model options.cache_ttl d
        else d in
      let d'' = if unless_false options.record_quota then record_request p user id now d' else d' in
      (record { content = response; cached = false; quota_status = status; model = model }, d'')

  unfoldable pub generate_response :
      ℕ
      → ℕ
      → String
      → String
      → String
      → LlmResponseOptions
      → Db
      → Result QuotaError LlmResponse × Db
  unfolding enforce_quota look_up answer
  generate_response now pick user id prompt options d =
      elim (enforce_quota p user id now default_config d) [
        | err e ↦ (err e, d)
        | ok status ↦
            let model = model_or_default options.model in
            let (found, d') = look_up (unless_false options.use_cache) prompt model d in
            elim found [
              | some text ↦ (
                ok (record { content = text; cached = true; quota_status = status; model = model }),
                d',
              )
              | none ↦
                  let (r, d'') = answer now pick user id prompt options status d' in (ok r, d'')
            ]
      ]

  -- The catch block: the message of a failure, with the state of the quotas.
  unfoldable pub or_fallback :
      ℕ
      → String
      → String
      → LlmResponseOptions
      → Result QuotaError LlmResponse × Db
      → LlmResponse × Db
  unfolding get_quota_status
  or_fallback now user id options (ok r, d) = (r, d)
  or_fallback now user id options (err e, d) = (
    record {
      content = fallback_message;
      cached = false;
      quota_status = get_quota_status p user id now default_config d;
      model = model_or_default options.model;
    },
    d,
  )

  unfoldable pub generate_response_with_fallback :
      ℕ → ℕ → String → String → String → LlmResponseOptions → Db → LlmResponse × Db
  unfolding generate_response or_fallback
  generate_response_with_fallback now pick user id prompt options d =
      or_fallback now user id options (generate_response now pick user id prompt options d)
