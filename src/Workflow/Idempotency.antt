-- ===== src/Workflow/Idempotency.antt =====
-- Backend/src/workflow/services/idempotency.service.ts. SHA-256 is an argument; the date is the
-- argument `now`, in milliseconds of 1970 or later. Keys are sorted by code points,
-- where JavaScript compares UTF-16 units: the same, but for keys with characters beyond U+FFFF.
pub mod Collisions
pub mod Caching
pub mod Order
pub mod Parsing
pub mod Stability
use Prim.Native.Nat.{Ordering}
use Prim.Native.String.{◌++◌, compare}
use farm_exc.Prelude.{
  ℕ, ◌+◌, ◌-◌, ◌*◌, ◌/◌, ◌%◌, String, Bool, true, false, Option, none, some, List, [], ◌∷◌,
  if◌then◌else◌, ltb, str_eq,
}
use farm_exc.Workflow.Json.{Json, Fields, null, str, obj, end, field, keys, is_truthy}
use farm_exc.Workflow.Json.Text.{stringify, decimal}
use farm_exc.Workflow.Environment.{Outcome, ok, throws}

insert_key : String → List String → List String
insert_key k [] = k ∷ []
insert_key k (j ∷ js) =
    let rest = insert_key k js in elim (compare j k) [ Ordering.gt ↦ k ∷ j ∷ js | _ ↦ j ∷ rest ]

-- `list.sort()` on texts.
unfoldable pub sort : List String → List String
unfolding insert_key
sort [] = []
sort (k ∷ ks) = insert_key k (sort ks)

-- What `stableStringify` is called with. A promise has no properties of its own.
pub data Argument : Type 0 where
  plain : Fields → Argument
  promise : Fields → Argument

abbrev pub own_properties : Argument → Fields
own_properties (plain fs) = fs
own_properties (promise fs) = end

unfoldable pub stable_stringify : Argument → String
unfolding sort stringify
stable_stringify a = stringify (sort (keys (own_properties a))) (obj (own_properties a))

pad : ℕ → String
pad n = if ltb n 10 then "0" ++ decimal n else decimal n

pad_year : ℕ → String
unfolding pad
pad_year n = if ltb n 100 then "00" ++ pad n else if ltb n 1000 then "0" ++ decimal n else decimal n

-- `new Date(now).toISOString().split('T')[0]`, in the proleptic Gregorian calendar.
unfoldable pub iso_day : ℕ → String
unfolding pad pad_year decimal
iso_day now =
    let z = now / 86400000 + 719468 in
    let doe = z % 146097 in
    let yoe = (doe - doe / 1460 + doe / 36524 - doe / 146096) / 365 in
    let doy = doe - (365 * yoe + yoe / 4 - yoe / 100) in
    let mp = (5 * doy + 2) / 153 in
    let day = doy - (153 * mp + 2) / 5 + 1 in
    let month = if ltb mp 10 then mp + 3 else mp - 9 in
    let year = yoe + z / 146097 * 400 + (if ltb mp 10 then 0 else 1) in
    pad_year year ++ "-" ++ pad month ++ "-" ++ pad day

-- A property whose value is `undefined` is not written.
optional_field : String → Option String → Fields → Fields
optional_field k none fs = fs
optional_field k (some s) fs = field k (str s) fs

stringify_context : Option Fields → Option String
unfolding stable_stringify
stringify_context none = none
stringify_context (some fs) = some (stable_stringify (plain fs))

-- The text that is hashed for a workflow, and for a step.
workflow_key_data : String → String → Fields → Option Fields → ℕ → String
unfolding stable_stringify stringify_context optional_field iso_day sort stringify
workflow_key_data type user input context now =
    stringify (sort ("workflowType" ∷ "userId" ∷ "input" ∷ "additionalContext" ∷ "timestamp" ∷ []))
      (obj (
        field "workflowType" (str type) (
          field "userId" (str user) (
            field "input" (str (stable_stringify (plain input))) (
              optional_field "additionalContext" (stringify_context context)
                (field "timestamp" (str (iso_day now)) end))))))

step_key_data : String → String → Argument → String
unfolding stable_stringify sort stringify
step_key_data workflow_key name input =
    stringify (sort ("workflowIdempotencyKey" ∷ "stepName" ∷ "stepInput" ∷ [])) (
      obj (
        field "workflowIdempotencyKey" (str workflow_key)
          (field "stepName" (str name) (field "stepInput" (str (stable_stringify input)) end))))

unfoldable pub generate_workflow_idempotency_key :
    (String → String) → String → String → Fields → Option Fields → ℕ → String
unfolding workflow_key_data
generate_workflow_idempotency_key sha256 type user input context now =
    "workflow:"
    ++ type
    ++ ":"
    ++ user
    ++ ":"
    ++ sha256 (workflow_key_data type user input context now)

unfoldable pub generate_step_idempotency_key :
    (String → String) → String → String → Argument → String
unfolding step_key_data
generate_step_idempotency_key sha256 workflow_key name input =
    "step:" ++ name ++ ":" ++ sha256 (step_key_data workflow_key name input)

-- The UUID is an argument.
unfoldable pub generate_unique_idempotency_key : String → String → String → String
generate_unique_idempotency_key uuid operation identifier =
    operation ++ ":" ++ identifier ++ ":" ++ uuid

unfoldable pub validate_idempotency_key :
    (String → String) → String → String → String → Fields → Option Fields → ℕ → Bool
unfolding generate_workflow_idempotency_key
validate_idempotency_key sha256 expected type user input context now =
    str_eq expected (generate_workflow_idempotency_key sha256 type user input context now)

-- A cache whose reads and writes may fail. `World` is what the cache and the operation act on.
pub record Cache (World : Type 0) : Type 0 where
  pub get : String → World → Outcome (Option Json) × World
  pub set : String → Option Json → World → Outcome (Unit {0}) × World

module _ {World : Type 0} (operation : World → Outcome (Option Json) × World) where
  run_and_store : Option (Cache World) → String → World → Outcome (Option Json × Bool) × World
  run_and_store cache key w =
      let (out, w') = operation w in
      elim out [
        | throws e ↦ (throws e, w')
        | ok result ↦ elim cache [
          | none ↦ (ok (result, false), w')
          -- A failed `set` is logged.
          | some c ↦ (ok (result, false), (c.set key result w').1)
        ]
      ]

  -- The result, and whether it is a duplicate.
  unfoldable pub check_idempotency :
      Option (Cache World) → String → World → Outcome (Option Json × Bool) × World
  unfolding run_and_store
  check_idempotency none key w = run_and_store none key w
  check_idempotency (some c) key w =
      let (out, w') = c.get key w in
      elim out [
        | throws e ↦ run_and_store (some c) key w'
        | ok cached ↦
            if is_truthy cached then (ok (cached, true), w') else run_and_store (some c) key w'
      ]
