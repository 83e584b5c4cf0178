-- ===== src/Examples/Keys.antt =====
-- Idempotency keys.
use farm_exc.Prelude.{ℕ, ◌≡◌, refl, true, false, Option, none, some}
use farm_exc.Workflow.Json.{Json, Fields, num, obj, str, end, field}
use farm_exc.Workflow.Environment.{Outcome, ok, throws}
use farm_exc.Workflow.Entities.{thrown}
use farm_exc.Workflow.Idempotency.{
  plain, sort, stable_stringify, generate_workflow_idempotency_key, Cache, check_idempotency,
  iso_day,
}
use farm_exc.Workflow.Idempotency.Stability.{swapped, generate_workflow_idempotency_key-Rearranged}
use farm_exc.Workflow.Idempotency.Collisions.{
  project, generate_workflow_idempotency_key-project, generate_workflow_idempotency_key-nested,
}
use farm_exc.Workflow.Idempotency.Caching.{is_hit, fresh, duplicate, check_idempotency_cases}

-- { asset: { code: "XLM", amount: n }, amount: 1 } and the same without the code.
abbrev with_code : ℕ → Fields
with_code n =
    field "asset" (obj (field "code" (str "XLM") (field "amount" (num n) end)))
      (field "amount" (num 1) end)

abbrev without_code : ℕ → Fields
without_code n = field "asset" (obj (field "amount" (num n) end)) (field "amount" (num 1) end)

generate_workflow_idempotency_key-project_example :
    generate_workflow_idempotency_key (λ s. s) "trade" "u1" (with_code 5) none 0
    ≡ generate_workflow_idempotency_key (λ s. s) "trade" "u1" (without_code 5) none 0
unfolding sort project
generate_workflow_idempotency_key-project_example =
    generate_workflow_idempotency_key-project (λ s. s) "trade" "u1" (with_code 5) (without_code 5)
      none 0 refl refl

generate_workflow_idempotency_key-nested_example :
    generate_workflow_idempotency_key
      (λ s. s)
      "trade"
      "u1"
      (field "order" (obj (field "amount" (num 1) end)) end)
      none
      0
    ≡ generate_workflow_idempotency_key
        (λ s. s)
        "trade"
        "u1"
        (field "order" (obj (field "amount" (num 1000) end)) end)
        none
        0
generate_workflow_idempotency_key-nested_example =
    generate_workflow_idempotency_key-nested (λ s. s) "trade" "u1" "order"
      (field "amount" (num 1) end) (field "amount" (num 1000) end) none 0 (refl, tt) (refl, tt)

nested_text : stable_stringify (plain (with_code 5)) ≡ "{\"amount\":1,\"asset\":{\"amount\":5}}"
unfolding stable_stringify
nested_text = refl

leap_day : iso_day 1709164800000 ≡ "2024-02-29"
unfolding iso_day
leap_day = refl

-- A cache that always fails to look up, in a world that counts operations.
abbrev broken : Cache ℕ
broken = record {
  get = λ k w. (throws (thrown "down"), w);
  set = λ k v w. (throws (thrown "down"), w);
}

abbrev counting : ℕ → Outcome (Option Json) × ℕ
counting w = (ok (some (num w)), ℕ.suc w)

check_idempotency_cases_example :
    (is_hit (throws (thrown "down")) ≡ true
      → check_idempotency counting (some broken) "k" 4 ≡ (duplicate (throws (thrown "down")), 4))
    × (is_hit (throws (thrown "down")) ≡ false
        → (check_idempotency counting (some broken) "k" 4).0 ≡ fresh (counting 4).0)
check_idempotency_cases_example = check_idempotency_cases counting broken "k" 4

abbrev amount_first : Fields
amount_first = field "amount" (num 1) (field "asset" (str "XLM") end)

abbrev asset_first : Fields
asset_first = field "asset" (str "XLM") (field "amount" (num 1) end)

generate_workflow_idempotency_key-Rearranged_example :
    generate_workflow_idempotency_key (λ s. s) "trade" "u1" amount_first none 0
    ≡ generate_workflow_idempotency_key (λ s. s) "trade" "u1" asset_first none 0
generate_workflow_idempotency_key-Rearranged_example =
    generate_workflow_idempotency_key-Rearranged (λ s. s) "trade" "u1" amount_first asset_first none
      0 (swapped refl)
