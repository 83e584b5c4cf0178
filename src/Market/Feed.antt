-- ===== src/Market/Feed.antt =====
-- Backend/src/market-data/services: market-data.service.ts and news.service.ts. What the feeds answer is
-- an argument, as are the keys that the services make of filters and limits, and the writing and reading
-- of answers as JSON.
use Prim.Native.String.{◌++◌}
use farm_exc.Prelude.{ℕ, String, Bool, true, false, Option, none, some}
use farm_exc.Market.{
  market_snapshot, news, price_data, MarketPlatform, get, set, invalidate_by_pattern,
  invalidate_namespace,
}

-- An answer with the flag `cached`.
pub record Flagged (T : Type 0) : Type 0 where
  pub value : T
  pub cached : Bool

-- `JSON.parse`, which may throw, and `JSON.stringify` of a type.
pub record Codec (T : Type 0) : Type 0 where
  pub parse : String → Option T
  pub stringify : T → String

-- The test before the cache is asked.
abbrev pub unless_bypassed : {T D : Type 0} → Bool → Option T × D → D → Option T × D
unless_bypassed true asked d = (none, d)
unless_bypassed false asked d = asked

module _ {Db : Type 0} (p : MarketPlatform Db) {T : Type 0} (codec : Codec T) where
  -- For the key of the filter.
  unfoldable pub get_market_snapshot : ℕ → String → T → Bool → Db → Flagged T × Db
  unfolding get set
  get_market_snapshot now key fetched bypass_cache d =
      let (found, d1) = unless_bypassed bypass_cache (get p codec.parse key market_snapshot d) d in
      elim found [
        | some v ↦ (record { value = v; cached = true }, d1)
        | none ↦ (
          record { value = fetched; cached = false },
          set p codec.stringify now key fetched market_snapshot none d1,
        )
      ]

  -- The feed may have no price.
  unfoldable pub get_asset_price : ℕ → String → String → Option T → Db → Option T × Db
  unfolding get set
  get_asset_price now asset_code issuer fetched d =
      let key = asset_code ++ (":" ++ issuer) in
      let (found, d1) = get p codec.parse key price_data d in
      elim found [
        | some v ↦ (some v, d1)
        | none ↦ elim fetched [
          | none ↦ (none, d1)
          | some v ↦ (some v, set p codec.stringify now key v price_data none d1)
        ]
      ]

  -- For the key of the category and the limit.
  unfoldable pub get_news : ℕ → String → T → Bool → Db → Flagged T × Db
  unfolding get set
  get_news now key fetched bypass_cache d =
      let (found, d1) = unless_bypassed bypass_cache (get p codec.parse key news d) d in
      elim found [
        | some v ↦ (record { value = v; cached = true }, d1)
        | none ↦ (
          record { value = fetched; cached = false },
          set p codec.stringify now key fetched news none d1,
        )
      ]

  unfoldable pub get_article_by_id : ℕ → String → Option T → Db → Option T × Db
  unfolding get set
  get_article_by_id now article_id fetched d =
      let key = "article:" ++ article_id in
      let (found, d1) = get p codec.parse key news d in
      elim found [
        | some v ↦ (some v, d1)
        | none ↦ elim fetched [
          | none ↦ (none, d1)
          | some v ↦ (some v, set p codec.stringify now key v news (some 3600) d1)
        ]
      ]

module _ {Db : Type 0} (p : MarketPlatform Db) where
  unfoldable pub invalidate_market_cache : Option String → Db → ℕ × Db
  unfolding invalidate_by_pattern invalidate_namespace
  invalidate_market_cache none d = invalidate_namespace p market_snapshot d
  invalidate_market_cache (some code) d = invalidate_by_pattern p code price_data d

  unfoldable pub invalidate_news_cache : Option String → Db → ℕ × Db
  unfolding invalidate_by_pattern invalidate_namespace
  invalidate_news_cache none d = invalidate_namespace p news d
  invalidate_news_cache (some category) d = invalidate_by_pattern p ("news:" ++ category) news d
