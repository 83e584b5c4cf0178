-- ===== src/Voice/Llm/Cache.antt =====
-- Backend/src/voice/services/llm-cache.service.ts, but for `getStats`. Redis answers every call, so that
-- no call ends in a `catch` block.
pub mod Entries
use farm_exc.Prelude.{
  ℕ, ◌+◌, ◌-◌, ◌*◌, ◌/◌, String, Bool, true, false, Option, none, some, List, [], ◌∷◌, ◌++◌, ◌==◌,
  map, length, ltb, str_eq, if◌then◌else◌,
}
use farm_exc.Voice.Llm.{
  LlmKey, entry, stats, hits, created, entry_model, entry_ttl, total_hits, total_entries, Platform,
}

abbrev pub default_ttl : ℕ
default_ttl = 86400

-- `ttl || this.DEFAULT_TTL`.
abbrev pub ttl_or_default : Option ℕ → ℕ
ttl_or_default none = default_ttl
ttl_or_default (some n) = if n == 0 then default_ttl else n

pub record WarmEntry : Type 0 where
  pub prompt : String
  pub response : String
  pub model : String
  pub ttl : Option ℕ

-- The keys that `llm:cache:v1:*:<hash>` and `llm:cache:*` stand for.
abbrev pub is_entry_of : String → LlmKey → Bool
is_entry_of hash (entry m h) = str_eq h hash
is_entry_of hash _ = false

abbrev pub is_cache_key : LlmKey → Bool
is_cache_key (entry m h) = true
is_cache_key (stats m h) = true
is_cache_key (hits m h) = true
is_cache_key (created m h) = true
is_cache_key (entry_model m h) = true
is_cache_key (entry_ttl m h) = true
is_cache_key total_hits = true
is_cache_key total_entries = true
is_cache_key _ = false

-- The stats key of an entry's key. The stats key of another key is one that nothing writes.
abbrev pub generate_stats_key : LlmKey → LlmKey
generate_stats_key (entry m h) = stats m h
generate_stats_key k = k

module _ {Db : Type 0} (p : Platform Db) where
  unfoldable pub generate_cache_key : String → String → LlmKey
  generate_cache_key prompt model = entry model (p.sha256 (p.normalised prompt))

  -- An empty text counts as no entry.
  unfoldable pub get : String → String → Db → Option String × Db
  unfolding generate_cache_key
  get prompt model d = elim (p.redis.get d (generate_cache_key prompt model)) [
    | none ↦ (none, d)
    | some cached ↦ if str_eq cached "" then (none, d) else (
      some cached,
      (p.redis.incr (p.redis.incr d (hits model (p.sha256 (p.normalised prompt)))).1 total_hits).1,
    )
  ]

  unfoldable pub set : ℕ → String → String → String → Option ℕ → Db → Db
  unfolding generate_cache_key
  set now prompt response model ttl d =
      let n = ttl_or_default ttl in
      let h = p.sha256 (p.normalised prompt) in
      let d1 = p.redis.set d (generate_cache_key prompt model) response n in
      let d2 = p.redis.set d1 (created model h) (p.text now) n in
      let d3 = p.redis.set d2 (entry_model model h) model n in
      let d4 = p.redis.set d3 (entry_ttl model h) (p.text n) n in (p.redis.incr d4 total_entries).1

  -- The keys of the entries of a prompt: with its model, or, without one or with an empty one, of all.
  unfoldable pub keys_of : String → Option String → Db → List LlmKey
  unfolding generate_cache_key
  keys_of prompt none d = p.redis.keys d (is_entry_of (p.sha256 (p.normalised prompt)))
  keys_of prompt (some model) d =
      if str_eq model ""
      then p.redis.keys d (is_entry_of (p.sha256 (p.normalised prompt)))
      else generate_cache_key prompt model ∷ []

  unfoldable pub invalidate : String → Option String → Db → ℕ × Db
  unfolding keys_of
  invalidate prompt model d = elim (keys_of prompt model d) [
    | [] ↦ (0, d)
    | k ∷ ks ↦ (length (k ∷ ks), p.redis.del d ((k ∷ ks) ++ map generate_stats_key (k ∷ ks)))
  ]

  unfoldable pub invalidate_all : Db → ℕ × Db
  invalidate_all d = elim (p.redis.keys d is_cache_key) [
    | [] ↦ (0, d)
    | k ∷ ks ↦ (length (k ∷ ks), p.redis.del d (k ∷ ks))
  ]

  -- Whether an entry's text of its creation tells an age above the bound.
  unfoldable pub is_older : ℕ → ℕ → Option String → Bool
  is_older now max_age none = false
  is_older now max_age (some v) =
      if str_eq v "" then false else ltb (1000 * max_age) (now - p.number v)

  -- The time of creation of an entry; no other key has one.
  unfoldable pub created_of : LlmKey → Db → Option String
  created_of (entry m h) d = p.redis.get d (created m h)
  created_of k d = none

  unfoldable pub keys_to_delete : ℕ → ℕ → List LlmKey → Db → List LlmKey
  unfolding is_older created_of
  keys_to_delete now max_age [] d = []
  keys_to_delete now max_age (k ∷ ks) d =
      let rest = keys_to_delete now max_age ks d in
      if is_older now max_age (created_of k d) then k ∷ generate_stats_key k ∷ rest else rest

  unfoldable pub prune_old_entries : ℕ → ℕ → Db → ℕ × Db
  unfolding keys_to_delete
  prune_old_entries now max_age d =
      elim (keys_to_delete now max_age (p.redis.keys d is_cache_key) d) [
        | [] ↦ (0, d)
        | k ∷ ks ↦ (length (k ∷ ks) / 2, p.redis.del d (k ∷ ks))
      ]

  -- The entries that were counted, and Redis after them.
  unfoldable pub warm_cache : ℕ → List WarmEntry → Db → ℕ × Db
  unfolding set
  warm_cache now [] d = (0, d)
  warm_cache now (x ∷ xs) d =
      let (n, d') = warm_cache now xs (set now x.prompt x.response x.model x.ttl d) in (1 + n, d')
