-- ===== src/Market.antt =====
-- Backend/src/market-data: market-cache.service.ts, but for its statistics, and the namespaces and times
-- to live of types/cache-config.types.ts. A value is kept as the text that `JSON.stringify` gives; that
-- function, `JSON.parse`, the SHA-256 and the test for a prefix are arguments.
pub mod Feed
pub mod Invalidation
use farm_exc.Prelude.{
  ℕ, String, Bool, true, false, ◌&&◌, Option, none, some, List, [], ◌∷◌, ◌++◌, map, length, ◌==◌,
  str_eq, if◌then◌else◌,
}
use farm_exc.Redis.{Redis}

pub data CacheNamespace : Type 0 where
  market_snapshot news asset_data price_data : CacheNamespace

abbrev pub namespace_index : CacheNamespace → ℕ
namespace_index market_snapshot = 0
namespace_index news = 1
namespace_index asset_data = 2
namespace_index price_data = 3

abbrev pub same_namespace : CacheNamespace → CacheNamespace → Bool
same_namespace a b = namespace_index a == namespace_index b

-- In seconds.
unfoldable pub get_ttl_for_namespace : CacheNamespace → ℕ
get_ttl_for_namespace market_snapshot = 300
get_ttl_for_namespace news = 900
get_ttl_for_namespace asset_data = 600
get_ttl_for_namespace price_data = 60

-- The keys `<namespace>:<hash>`, with `:metadata` after it, and the counters, of which the last two are
-- of no namespace.
pub data MarketKey : Type 0 where
  entry metadata : CacheNamespace → String → MarketKey
  hits misses entries : CacheNamespace → MarketKey
  total_hits total_misses : MarketKey

abbrev pub market_parts : MarketKey → ℕ × ℕ × String
market_parts (entry n h) = (0, namespace_index n, h)
market_parts (metadata n h) = (1, namespace_index n, h)
market_parts (hits n) = (2, namespace_index n, "")
market_parts (misses n) = (3, namespace_index n, "")
market_parts (entries n) = (4, namespace_index n, "")
market_parts total_hits = (5, 0, "")
market_parts total_misses = (6, 0, "")

abbrev pub same_market_key : MarketKey → MarketKey → Bool
same_market_key a b =
    ((market_parts a).0 == (market_parts b).0)
    && (((market_parts a).1 == (market_parts b).1) && str_eq (market_parts a).2 (market_parts b).2)

-- What follows `<namespace>:` in a key of the namespace.
unfoldable pub rest_in : CacheNamespace → MarketKey → Option String
rest_in n (entry m h) = if same_namespace n m then some h else none
rest_in n (metadata m h) = if same_namespace n m then some h else none
rest_in n (hits m) = if same_namespace n m then some "stats:hits" else none
rest_in n (misses m) = if same_namespace n m then some "stats:misses" else none
rest_in n (entries m) = if same_namespace n m then some "stats:total-entries" else none
rest_in n total_hits = none
rest_in n total_misses = none

abbrev pub holds_of : (String → Bool) → Option String → Bool
holds_of p none = false
holds_of p (some s) = p s

-- `customTtl || default`.
abbrev pub ttl_or : Option ℕ → ℕ → ℕ
ttl_or none default_ttl = default_ttl
ttl_or (some n) default_ttl = if n == 0 then default_ttl else n

-- The JavaScript platform: the first 16 hexadecimal digits of a text's SHA-256, whether a text begins
-- with another, which comes first, and the text of an entry's metadata.
pub record MarketPlatform (Db : Type 0) : Type 0 where
  pub redis : Redis Db MarketKey
  pub short_hash : String → String
  pub is_prefix : String → String → Bool
  pub metadata_text : ℕ → ℕ → CacheNamespace → String

module _ {Db : Type 0} (p : MarketPlatform Db) where
  unfoldable pub generate_cache_key : String → CacheNamespace → MarketKey
  generate_cache_key key n = entry n (p.short_hash key)

  -- An empty text counts as a miss. A text that is not JSON counts as a hit, and nothing is found.
  unfoldable pub get :
      {T : Type 0} → (String → Option T) → String → CacheNamespace → Db → Option T × Db
  unfolding generate_cache_key
  get parse key n d =
      let missed = (p.redis.incr (p.redis.incr d (misses n)).1 total_misses).1 in
      elim (p.redis.get d (generate_cache_key key n)) [
        | none ↦ (none, missed)
        | some cached ↦
            if str_eq cached ""
            then (none, missed)
            else (parse cached, (p.redis.incr (p.redis.incr d (hits n)).1 total_hits).1)
      ]

  unfoldable pub set :
      {T : Type 0} → (T → String) → ℕ → String → T → CacheNamespace → Option ℕ → Db → Db
  unfolding generate_cache_key get_ttl_for_namespace
  set stringify now key value n custom_ttl d =
      let ttl = ttl_or custom_ttl (get_ttl_for_namespace n) in
      let d1 = p.redis.set d (generate_cache_key key n) (stringify value) ttl in
      let d2 = p.redis.set d1 (metadata n (p.short_hash key)) (p.metadata_text now ttl n) ttl in
      (p.redis.incr d2 (entries n)).1

  unfoldable pub invalidate : List String → CacheNamespace → Db → ℕ × Db
  invalidate [] n d = (0, d)
  invalidate (k ∷ ks) n d = (
    length (k ∷ ks),
    p.redis.del d (
        map (λ key. entry n (p.short_hash key)) (k ∷ ks)
        ++ map (λ key. metadata n (p.short_hash key)) (k ∷ ks)),
  )

  -- The keys `<namespace>:<pattern>*`.
  unfoldable pub invalidate_by_pattern : String → CacheNamespace → Db → ℕ × Db
  unfolding rest_in
  invalidate_by_pattern pattern n d =
      elim (p.redis.keys d (λ k. holds_of (p.is_prefix pattern) (rest_in n k))) [
        | [] ↦ (0, d)
        | k ∷ ks ↦ (length (k ∷ ks), p.redis.del d (k ∷ ks))
      ]

  unfoldable pub invalidate_namespace : CacheNamespace → Db → ℕ × Db
  unfolding rest_in
  invalidate_namespace n d = elim (p.redis.keys d (λ k. holds_of (λ rest. true) (rest_in n k))) [
    | [] ↦ (0, d)
    | k ∷ ks ↦ (
      length (k ∷ ks),
      p.redis.del (p.redis.del (p.redis.del (p.redis.del d (k ∷ ks)) (hits n ∷ [])) (misses n ∷ []))
          (entries n ∷ []),
    )
  ]

  -- `EXISTS`.
  unfoldable pub has : String → CacheNamespace → Db → Bool
  unfolding generate_cache_key
  has key n d = elim (p.redis.get d (generate_cache_key key n)) [ none ↦ false | some _ ↦ true ]
