-- ===== src/Workflow/Json.antt =====
-- The values of type `any`: Backend/src/workflow/entities stores them as jsonb columns.
pub mod Text
use farm_exc.Prelude.{
  ℕ, String, Bool, true, false, Option, none, some, List, [], ◌∷◌, str_eq, if◌then◌else◌, not, ◌==◌,
}

mutual
  pub data Json : Type 0 where
    null : Json
    bool : Bool → Json
    num : ℕ → Json
    str : String → Json
    arr : Items → Json
    obj : Fields → Json

  pub data Items : Type 0 where
    nil : Items
    cons : Json → Items → Items

  pub data Fields : Type 0 where
    end : Fields
    field : String → Json → Fields → Fields

-- `Object.keys(o)`.
abbrev pub keys : Fields → List String
keys end = []
keys (field k v fs) = k ∷ keys fs

-- `o[k]`.
abbrev pub get : String → Fields → Option Json
get k end = none
get k (field j v fs) = let rest = get k fs in if str_eq j k then some v else rest

-- `o[k] = v`: a key that is there keeps its place.
abbrev pub put : String → Json → Fields → Fields
put k v end = field k v end
put k v (field j w fs) = if str_eq j k then field j v fs else field j w (put k v fs)

-- Whether `if (v)` takes the branch.
abbrev pub is_truthy : Option Json → Bool
is_truthy none = false
is_truthy (some null) = false
is_truthy (some (bool b)) = b
is_truthy (some (num n)) = not (n == 0)
is_truthy (some (str s)) = not (str_eq s "")
is_truthy (some (arr xs)) = true
is_truthy (some (obj fs)) = true
