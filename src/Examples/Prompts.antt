-- ===== src/Examples/Prompts.antt =====
-- Prompts, their quotas and the cache of their answers.
use farm_exc.Prelude.{◌≡◌, refl, true, none, some, ok, List, [], ◌∷◌, arith}
use farm_exc.Voice.Llm.{same_key, monthly, session, rpm}
use farm_exc.Voice.Llm.Quota.{
  default_config, get_quota_status, enforce_quota, check_monthly_quota, check_session_quota,
  check_requests_per_minute, get_month_key, get_session_key, get_rpm_key, record_request,
  increment_with_expiry,
}
use farm_exc.Voice.Llm.Cache.{get, set, generate_cache_key}
use farm_exc.Voice.Llm.Cache.Entries.{
  CacheCall, asked, stored, dropped, answers, run_all, run_all_table, run_all-table,
}
use farm_exc.Voice.Llm.Pipeline.{
  LlmResponseOptions, call_llm_with_fallback, answer, look_up, generate_response,
}
use farm_exc.Voice.Llm.Pipeline.Answers.{generate_response_again}
use farm_exc.Voice.Llm.Pipeline.Limits.{IsWithin, generate_response-IsWithin}
use farm_exc.Examples.Memory.{Texts}
use farm_exc.Examples.Texts.{platform, platform-IsPlatform}

-- A user with two requests in the month, one of them in the minute.
abbrev some_usage : Texts same_key
some_usage = (monthly "u" "1", some "111") ∷ (session "s", some "111") ∷ (rpm "u" 0, some "11") ∷ []

abbrev no_options : LlmResponseOptions
no_options = record { model = none; use_cache = none; record_quota = none; cache_ttl = none }

generate_response-IsWithin_example :
    IsWithin platform "u" "s" 0
      (generate_response platform 0 1 "u" "s" "hello" no_options some_usage).1
generate_response-IsWithin_example =
    generate_response-IsWithin platform platform-IsPlatform 0 1 "u" "s" "hello" no_options
      some_usage (omega arith, omega arith, omega arith)

abbrev after_failure : Texts same_key
after_failure = (generate_response platform 0 1 "u" "s" "fail" no_options some_usage).1

generate_response_again_example :
    (generate_response platform 60000 2 "v" "t" "fail" no_options after_failure).0
    ≡ ok (record {
      content = call_llm_with_fallback platform 1 "fail";
      cached = true;
      quota_status = get_quota_status platform "v" "t" 60000 default_config after_failure;
      model = "gpt-3.5-turbo";
    })
unfolding generate_response enforce_quota check_monthly_quota check_session_quota
    check_requests_per_minute get_month_key get_session_key get_rpm_key get_quota_status look_up get
    generate_cache_key answer set call_llm_with_fallback record_request increment_with_expiry
generate_response_again_example =
    generate_response_again platform platform-IsPlatform 0 60000 1 2 "u" "s" "fail" "v" "t" "fail"
      no_options no_options some_usage after_failure refl refl refl refl refl refl refl refl
      (omega arith, omega arith, omega arith)

abbrev three_calls : List CacheCall
three_calls = stored 0 "q" "a" "m" none ∷ asked "q" "m" ∷ dropped "q" none ∷ asked "q" "m" ∷ []

run_all-table_example :
    ((run_all platform three_calls some_usage).0
      ≡ (run_all_table platform three_calls (answers platform some_usage)).0)
    × (answers platform (run_all platform three_calls some_usage).1
        ≡ (run_all_table platform three_calls (answers platform some_usage)).1)
run_all-table_example = run_all-table platform platform-IsPlatform three_calls some_usage

-- The answers of the calls: nothing, the answer that was stored, nothing, and nothing once it is dropped.
three_answers :
    (run_all_table platform three_calls (λ m h. none)).0 ≡ none ∷ some "a" ∷ none ∷ none ∷ []
three_answers = refl
