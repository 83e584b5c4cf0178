-- ===== src/Examples/Markets.antt =====
-- Prices and their cache.
use farm_exc.Prelude.{
  ℕ, String, ◌≡◌, refl, sym, ap, ◌∙◌, Bool, true, false, some, [], ◌∷◌, str_eq, eq_iff, ◌==◌,
  ==_iff, ◌&&◌, if◌then◌else◌, arith,
}
use farm_exc.Market.{
  CacheNamespace, market_snapshot, news, asset_data, price_data, namespace_index, MarketKey, entry,
  metadata, hits, misses, entries, total_hits, total_misses, market_parts, same_market_key,
  MarketPlatform,
}
use farm_exc.Market.Feed.{Codec, get_asset_price}
use farm_exc.Market.Invalidation.{handle_asset_update}
use farm_exc.Market.Invalidation.Stale.{get_asset_price-handle_asset_update}
use farm_exc.Examples.Memory.{Texts, texts, texts-IsRedis, number}

-- The key of its parts.
abbrev namespace_of : ℕ → CacheNamespace
namespace_of i =
    if i == 0
    then market_snapshot
    else if i == 1
    then news
    else if i == 2
    then asset_data
    else price_data

abbrev of_parts : ℕ → ℕ → String → MarketKey
of_parts i n h =
    if i == 0
    then entry (namespace_of n) h
    else if i == 1
    then metadata (namespace_of n) h
    else if i == 2
    then hits (namespace_of n)
    else if i == 3
    then misses (namespace_of n)
    else if i == 4
    then entries (namespace_of n)
    else if i == 5
    then total_hits
    else total_misses

namespace_of-index : (n : CacheNamespace) → namespace_of (namespace_index n) ≡ n
namespace_of-index market_snapshot = refl
namespace_of-index news = refl
namespace_of-index asset_data = refl
namespace_of-index price_data = refl

of_parts-parts :
    (k : MarketKey) → of_parts (market_parts k).0 (market_parts k).1 (market_parts k).2 ≡ k
of_parts-parts (entry n h) = ap (λ m. entry m h) (namespace_of-index n)
of_parts-parts (metadata n h) = ap (λ m. metadata m h) (namespace_of-index n)
of_parts-parts (hits n) = ap hits (namespace_of-index n)
of_parts-parts (misses n) = ap misses (namespace_of-index n)
of_parts-parts (entries n) = ap entries (namespace_of-index n)
of_parts-parts total_hits = refl
of_parts-parts total_misses = refl

and_true : (a b : Bool) → (a && b) ≡ true → (a ≡ true) × (b ≡ true)
and_true true b h = (refl, h)
and_true false b h = absurd (ground (arith, h))

same_equal : (a b : MarketKey) → same_market_key a b ≡ true → a ≡ b
same_equal a b h =
    let (i, h1) = and_true _ _ h in
    let (n, t) = and_true _ _ h1 in
    sym (of_parts-parts a)
    ∙ rw
        (
          (==_iff (market_parts a).0 (market_parts b).0).0 i,
          (==_iff (market_parts a).1 (market_parts b).1).0 n,
          (eq_iff (market_parts a).2 (market_parts b).2).0 t,
        )
        (of_parts-parts b)

same_refl : (k : MarketKey) → same_market_key k k ≡ true
same_refl k =
    rw
      (
        (==_iff (market_parts k).0 (market_parts k).0).1 refl,
        (==_iff (market_parts k).1 (market_parts k).1).1 refl,
        (eq_iff (market_parts k).2 (market_parts k).2).1 refl,
      )
      refl

abbrev market : MarketPlatform (Texts same_market_key)
market = record {
  redis = texts same_market_key;
  short_hash = λ s. "0123456789abcdef";
  is_prefix = λ a b. str_eq a b;
  metadata_text = λ now ttl n. "{}";
}

abbrev price_text : Codec String
price_text = record { parse = λ s. some s; stringify = λ s. s }

abbrev cached_price : Texts same_market_key
cached_price = (entry price_data "0123456789abcdef", some "0.125") ∷ []

get_asset_price-handle_asset_update_example :
    (get_asset_price market price_text 0 "XLM" "native"
      (some "0.2")
      (handle_asset_update market "XLM" cached_price)).0
    ≡ some "0.125"
get_asset_price-handle_asset_update_example =
    get_asset_price-handle_asset_update market number
      (texts-IsRedis same_market_key same_refl same_equal) price_text 0 "XLM" "native" "0.125"
      (some "0.2") cached_price "0.125" refl refl refl refl
