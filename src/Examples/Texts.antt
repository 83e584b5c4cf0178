-- ===== src/Examples/Texts.antt =====
-- The platform of the prompts' pipeline, for the tests.
use farm_exc.Prelude.{
  ℕ, ◌/◌, String, ◌≡◌, refl, sym, ap, ◌∙◌, Bool, true, false, ◌==◌, str_eq, eq_iff, ==_iff,
  if◌then◌else◌, arith, ◌&&◌,
}
use farm_exc.Examples.Memory.{
  Texts, texts, texts-IsRedis, unary, number, before, ones-unary, ones-full,
}
use farm_exc.Voice.Llm.{
  LlmKey, Platform, IsPlatform, same_key, same_key_refl, parts, monthly, monthly_limit, session,
  rpm, entry, stats, hits, created, entry_model, entry_ttl, total_hits, total_entries,
}

-- The key of its parts.
abbrev of_parts : ℕ → String → String → ℕ → LlmKey
of_parts i a b n =
    if i == 0
    then monthly a b
    else if i == 1
    then monthly_limit a
    else if i == 2
    then session a
    else if i == 3
    then rpm a n
    else if i == 4
    then entry a b
    else if i == 5
    then stats a b
    else if i == 6
    then hits a b
    else if i == 7
    then created a b
    else if i == 8
    then entry_model a b
    else if i == 9
    then entry_ttl a b
    else if i == 10
    then total_hits
    else total_entries

of_parts-parts : (k : LlmKey) → of_parts (parts k).0 (parts k).1 (parts k).2 (parts k).3 ≡ k
of_parts-parts (monthly u m) = refl
of_parts-parts (monthly_limit u) = refl
of_parts-parts (session s) = refl
of_parts-parts (rpm u n) = refl
of_parts-parts (entry m h) = refl
of_parts-parts (stats m h) = refl
of_parts-parts (hits m h) = refl
of_parts-parts (created m h) = refl
of_parts-parts (entry_model m h) = refl
of_parts-parts (entry_ttl m h) = refl
of_parts-parts total_hits = refl
of_parts-parts total_entries = refl

and_true : (a b : Bool) → (a && b) ≡ true → (a ≡ true) × (b ≡ true)
and_true true b h = (refl, h)
and_true false b h = absurd (ground (arith, h))

same_key-equal : (a b : LlmKey) → same_key a b ≡ true → a ≡ b
same_key-equal a b h =
    let (n, h1) = and_true _ _ h in
    let (x, h2) = and_true _ _ h1 in
    let (y, m) = and_true _ _ h2 in
    sym (of_parts-parts a)
    ∙ rw
        (
          (==_iff (parts a).0 (parts b).0).0 n,
          (eq_iff (parts a).1 (parts b).1).0 x,
          (eq_iff (parts a).2 (parts b).2).0 y,
          (==_iff (parts a).3 (parts b).3).0 m,
        )
        (of_parts-parts b)

-- A month has 30 days here, prompts are their own hash, and every prompt fails whose text is `fail`.
abbrev pub platform : Platform (Texts same_key)
platform = record {
  redis = texts same_key;
  number = number;
  text = unary;
  month_of = λ now. unary (now / 2592000000);
  seconds_left = λ now. 2592000;
  sha256 = λ s. s;
  normalised = λ s. s;
  has_force_fail = λ s. str_eq s "fail";
}

pub platform-IsPlatform : IsPlatform platform
platform-IsPlatform = record {
  is_redis = texts-IsRedis same_key same_key_refl same_key-equal;
  number_text = λ n. ap before (ones-unary n);
  text_full = ones-full;
}
