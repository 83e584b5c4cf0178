-- ===== src/Workflow/Idempotency/Caching.antt =====
-- `checkIdempotency`.
use farm_exc.Prelude.{String, ◌≡◌, refl, Bool, true, false, Option, some, arith}
use farm_exc.Workflow.Json.{Json, is_truthy}
use farm_exc.Workflow.Environment.{Outcome, ok, throws}
use farm_exc.Workflow.Idempotency.{Cache, check_idempotency, run_and_store}

-- Whether a look-up found a result that counts.
abbrev pub is_hit : Outcome (Option Json) → Bool
is_hit (ok v) = is_truthy v
is_hit (throws e) = false

-- The answer to a caller whose operation came out so.
abbrev pub fresh : Outcome (Option Json) → Outcome (Option Json × Bool)
fresh (ok v) = ok (v, false)
fresh (throws e) = throws e

-- The cached result of a hit.
abbrev pub duplicate : Outcome (Option Json) → Outcome (Option Json × Bool)
duplicate (ok v) = ok (v, true)
duplicate (throws e) = throws e

module _ {World : Type 0} (operation : World → Outcome (Option Json) × World) (c : Cache World)
    (key : String) where
  run_and_store-fst :
      (w : World) (r : Outcome (Option Json) × World)
      → operation w ≡ r
      → (run_and_store operation (some c) key w).0 ≡ fresh r.0
  unfolding run_and_store
  run_and_store-fst w (ok v, w') e = ground arith
  run_and_store-fst w (throws m, w') e = ground arith

  check_idempotency-get :
      (w : World) (got : Outcome (Option Json) × World)
      → c.get key w ≡ got
      → (is_hit got.0 ≡ true
          → check_idempotency operation (some c) key w ≡ (duplicate got.0, got.1))
        × (is_hit got.0 ≡ false
            → (check_idempotency operation (some c) key w).0 ≡ fresh (operation got.1).0)
  unfolding check_idempotency
  check_idempotency-get w (ok v, w') e =
      (λ h. ground arith, λ h. ground (arith, run_and_store-fst w' _ refl))
  check_idempotency-get w (throws m, w') e =
      (λ h. cc, λ h. ground (arith, run_and_store-fst w' _ refl))

  -- With a cache that holds a truthy result the answer is that result, marked as a duplicate, and
  -- after the look-up nothing is done. In every other case, a failed look-up included, the answer is
  -- what the operation gives, errors included, and no duplicate: a failure of the cache, in the look-up
  -- or in the store, is not seen.
  pub check_idempotency_cases :
      (w : World)
      → let got = c.get key w in
        (is_hit got.0 ≡ true
          → check_idempotency operation (some c) key w ≡ (duplicate got.0, got.1))
        × (is_hit got.0 ≡ false
            → (check_idempotency operation (some c) key w).0 ≡ fresh (operation got.1).0)
  check_idempotency_cases w = check_idempotency-get w _ refl
