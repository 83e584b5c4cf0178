-- ===== src/Market/Invalidation.antt =====
-- Backend/src/market-data/services/cache-invalidation.service.ts: the handlers of events. The events that
-- they emit in turn are for monitoring and are dropped.
pub mod Stale
use farm_exc.Prelude.{ℕ, String, Option, none, some, List}
use farm_exc.Market.{
  CacheNamespace, market_snapshot, news, price_data, MarketPlatform, invalidate_by_pattern,
  invalidate_namespace,
}

-- The event of a manual invalidation.
pub record Manual : Type 0 where
  pub namespace : Option CacheNamespace
  pub keys : Option (List String)
  pub pattern : Option String

module _ {Db : Type 0} (p : MarketPlatform Db) where
  unfoldable pub handle_asset_update : String → Db → Db
  unfolding invalidate_by_pattern invalidate_namespace
  handle_asset_update asset_code d =
      (invalidate_namespace p market_snapshot (invalidate_by_pattern p asset_code price_data d).1).1

  unfoldable pub handle_news_published : Db → Db
  unfolding invalidate_namespace
  handle_news_published d = (invalidate_namespace p news d).1

  -- The branches for a pattern and for keys ask for a namespace too, and stand after the branch for a
  -- namespace.
  unfoldable pub handle_manual_invalidation : Manual → Db → ℕ × Db
  unfolding invalidate_namespace
  handle_manual_invalidation e d = elim e.namespace [
    | some n ↦ invalidate_namespace p n d
    | none ↦ (0, d)
  ]
