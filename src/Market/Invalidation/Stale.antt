-- ===== src/Market/Invalidation/Stale.antt =====
-- A price that is cached, after an event that its asset changed.
use Prim.Native.String.{◌++◌}
use farm_exc.Prelude.{
  ℕ, String, ◌≡◌, refl, ◌∙◌, inl, inr, Bool, true, false, Option, some, [], ◌∷◌, str_eq, includes,
  Bool-cases, List-cases, arith,
}
use farm_exc.Redis.{IsRedis}
use farm_exc.Market.{
  CacheNamespace, market_snapshot, price_data, MarketKey, entry, hits, misses, entries,
  MarketPlatform, same_market_key, rest_in, holds_of, get, generate_cache_key,
  invalidate_by_pattern, invalidate_namespace,
}
use farm_exc.Market.Feed.{Codec, get_asset_price}
use farm_exc.Market.Invalidation.{handle_asset_update}

module _ {Db : Type 0} (p : MarketPlatform Db) (number : String → ℕ)
    (law : IsRedis p.redis same_market_key number) where
  -- Keys that a test lists do not hold a key that fails it.
  kept_key :
      (q : MarketKey → Bool) (d : Db) (j : MarketKey)
      → q j ≡ false
      → p.redis.get (p.redis.del d (p.redis.keys d q)) j ≡ p.redis.get d j
  kept_key q d j other = elim (Bool-cases (includes same_market_key (p.redis.keys d q) j)) [
    | inl listed ↦ absurd (ground (arith, other, law.listed_only d q j listed))
    | inr not_listed ↦ law.del_then d (p.redis.keys d q) j ∙ rw not_listed refl
  ]

  by_pattern-kept :
      (pattern : String) (n : CacheNamespace) (d : Db) (j : MarketKey)
      → holds_of (p.is_prefix pattern) (rest_in n j) ≡ false
      → p.redis.get (invalidate_by_pattern p pattern n d).1 j ≡ p.redis.get d j
  unfolding invalidate_by_pattern
  by_pattern-kept pattern n d j other =
      let q : MarketKey → Bool = λ k. holds_of (p.is_prefix pattern) (rest_in n k) in
      let kept = kept_key q d j other in
      elim (List-cases (p.redis.keys d q)) [
        | inl e ↦ rw (e, invalidate_by_pattern) refl
        | inr (k, ks, e) ↦ rw (e, invalidate_by_pattern) (rw e at kept)
      ]

  snapshot-kept :
      (d : Db) (h : String)
      → p.redis.get (invalidate_namespace p market_snapshot d).1 (entry price_data h)
        ≡ p.redis.get d (entry price_data h)
  unfolding invalidate_namespace rest_in
  snapshot-kept d h =
      let q : MarketKey → Bool = λ k. holds_of (λ rest. true) (rest_in market_snapshot k) in
      let kept = kept_key q d (entry price_data h) refl in
      elim (List-cases (p.redis.keys d q)) [
        | inl e ↦ rw (e, invalidate_namespace) refl
        | inr (k, ks, e) ↦
            rw (e, invalidate_namespace)
              (law.del_then _ (entries market_snapshot ∷ []) (entry price_data h)
                ∙ law.del_then _ (misses market_snapshot ∷ []) (entry price_data h)
                ∙ law.del_then _ (hits market_snapshot ∷ []) (entry price_data h)
                ∙ (rw e at kept))
      ]

  -- A cached price is still answered after the event that its asset changed, unless the asset's code
  -- begins the hash under which the price is kept. The cached text is that of a price.
  pub get_asset_price-handle_asset_update :
      {T : Type 0} (codec : Codec T) (now : ℕ) (code issuer cached : String) (fetched : Option T)
      (d : Db) (v : T)
      → p.redis.get d (entry price_data (p.short_hash (code ++ (":" ++ issuer)))) ≡ some cached
      → codec.parse cached ≡ some v
      → str_eq cached "" ≡ false
      → p.is_prefix code (p.short_hash (code ++ (":" ++ issuer))) ≡ false
      → (get_asset_price p codec now code issuer fetched (handle_asset_update p code d)).0 ≡ some v
  unfolding get_asset_price get generate_cache_key handle_asset_update rest_in
  get_asset_price-handle_asset_update codec now code issuer cached fetched d v there parsed full
        apart =
      let h = p.short_hash (code ++ (":" ++ issuer)) in
      let kept : p.redis.get (handle_asset_update p code d) (entry price_data h) ≡ some cached =
        snapshot-kept _ h ∙ by_pattern-kept code price_data d (entry price_data h) apart ∙ there in
      rw (kept, full, parsed, get_asset_price, get) refl
