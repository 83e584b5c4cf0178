-- ===== src/Workflow/Idempotency/Collisions.antt =====
-- Which parts of an input the keys depend on.
use farm_exc.Prelude.{
  ℕ, String, ◌≡◌, refl, sym, ap₂, ◌∙◌, Bool, true, false, List, [], ◌∷◌, All, Option, arith,
  includes, str_eq, eq_iff, if◌then◌else◌,
}
use farm_exc.Workflow.Json.{
  Json, Items, Fields, null, bool, num, str, arr, obj, nil, cons, end, field, keys,
}
use farm_exc.Workflow.Json.Text.{stringify, elements, texts, members, pick, Texts}
use farm_exc.Workflow.Idempotency.{
  plain, sort, stable_stringify, workflow_key_data, generate_workflow_idempotency_key,
}

abbrev is_listed : List String → String → Bool
is_listed = includes str_eq

-- The value without the properties that the list does not name, at every depth.
unfoldable mutual
  pub project : List String → Json → Json
  project ks null = null
  project ks (bool b) = bool b
  project ks (num n) = num n
  project ks (str s) = str s
  project ks (arr xs) = arr (project_items ks xs)
  project ks (obj fs) = obj (project_fields ks fs)

  pub project_items : List String → Items → Items
  project_items ks nil = nil
  project_items ks (cons x xs) = cons (project ks x) (project_items ks xs)

  pub project_fields : List String → Fields → Fields
  project_fields ks end = end
  project_fields ks (field k v fs) =
      let rest = project_fields ks fs in
      if includes str_eq ks k then field k (project ks v) rest else rest

str_eq_self : (k : String) → str_eq k k ≡ true
str_eq_self k = (eq_iff k k).1 refl

members-cong :
    (ks : List String) (ts us : Texts)
    → All (λ k. pick k ts ≡ pick k us) ks
    → members ks ts ≡ members ks us
unfolding members
members-cong [] ts us h = refl
members-cong (k ∷ ks) ts us h = ground (arith, h.0, members-cong ks ts us h.1)

All-listed :
    (js ks : List String)
    → ((k : String) → is_listed ks k ≡ true → is_listed js k ≡ true)
    → All (λ k. is_listed js k ≡ true) ks
All-listed js [] h = tt
All-listed js (k ∷ ks) h =
    (h k (rw (str_eq_self k)), All-listed js ks (λ j e. h j (ground (arith, e))))

All-pick :
    (ks js : List String) (ts us : Texts)
    → ((k : String) → is_listed ks k ≡ true → pick k ts ≡ pick k us)
    → All (λ k. is_listed ks k ≡ true) js
    → All (λ k. pick k ts ≡ pick k us) js
All-pick ks [] ts us h a = tt
All-pick ks (j ∷ js) ts us h a = (h j a.0, All-pick ks js ts us h a.1)

mutual
  unfolding stringify project pick

  stringify-project : (ks : List String) (v : Json) → stringify ks (project ks v) ≡ stringify ks v
  stringify-project ks null = refl
  stringify-project ks (bool b) = refl
  stringify-project ks (num n) = refl
  stringify-project ks (str s) = refl
  stringify-project ks (arr xs) = rw (elements-project ks xs)
  stringify-project ks (obj fs) = rw (
      members-cong ks _ _
        (All-pick ks ks _ _ (λ k h. pick-texts-project ks k fs h) (All-listed ks ks (λ k h. h))))

  elements-project :
      (ks : List String) (xs : Items) → elements ks (project_items ks xs) ≡ elements ks xs
  elements-project ks nil = refl
  elements-project ks (cons x xs) = rw (stringify-project ks x, elements-project ks xs)

  pick-texts-project :
      (ks : List String) (k : String) (fs : Fields)
      → is_listed ks k ≡ true
      → pick k (texts ks (project_fields ks fs)) ≡ pick k (texts ks fs)
  pick-texts-project ks k end h = refl
  pick-texts-project ks k (field j v fs) h =
      ground (arith, eq_iff j k, stringify-project ks v, pick-texts-project ks k fs h)

-- The text of an input is that of its projection to its own top-level names.
stable_stringify-project :
    (fs : Fields)
    → stable_stringify (plain fs) ≡ stringify (sort (keys fs)) (project (sort (keys fs)) (obj fs))
unfolding stable_stringify
stable_stringify-project fs = sym (stringify-project (sort (keys fs)) (obj fs))

-- Two inputs get one workflow key, whatever the hash function, when they have the same top-level
-- names and agree on the properties so named at every depth; nothing else of them is read.
pub generate_workflow_idempotency_key-project :
    (sha256 : String → String) (type user : String) (a b : Fields) (context : Option Fields)
    (now : ℕ)
    → sort (keys a) ≡ sort (keys b)
    → project (sort (keys a)) (obj a) ≡ project (sort (keys b)) (obj b)
    → generate_workflow_idempotency_key sha256 type user a context now
      ≡ generate_workflow_idempotency_key sha256 type user b context now
unfolding generate_workflow_idempotency_key workflow_key_data
generate_workflow_idempotency_key-project sha256 type user a b context now names same =
    rw (input_text a b names same)
  where
    input_text :
        (a b : Fields)
        → sort (keys a) ≡ sort (keys b)
        → project (sort (keys a)) (obj a) ≡ project (sort (keys b)) (obj b)
        → stable_stringify (plain a) ≡ stable_stringify (plain b)
    input_text a b names same =
        stable_stringify-project a ∙ ap₂ stringify names same ∙ sym (stable_stringify-project b)

-- The fields have no property of the name.
abbrev pub Lacks : String → Fields → Type 0
Lacks k fs = All (λ j. str_eq k j ≡ false) (keys fs)

project_fields-Lacks : (k : String) (fs : Fields) → Lacks k fs → project_fields (k ∷ []) fs ≡ end
unfolding project
project_fields-Lacks k end h = refl
project_fields-Lacks k (field j v fs) h = rw h.0 (project_fields-Lacks k fs h.1)

-- An input whose only property is an object gets one and the same key whatever that object holds, as
-- long as the object has no property of the outer name.
pub generate_workflow_idempotency_key-nested :
    (sha256 : String → String) (type user k : String) (fs gs : Fields) (context : Option Fields)
    (now : ℕ)
    → Lacks k fs
    → Lacks k gs
    → generate_workflow_idempotency_key sha256 type user (field k (obj fs) end) context now
      ≡ generate_workflow_idempotency_key sha256 type user (field k (obj gs) end) context now
unfolding sort project
generate_workflow_idempotency_key-nested sha256 type user k fs gs context now hf hg =
    generate_workflow_idempotency_key-project sha256 type user (field k (obj fs) end)
      (field k (obj gs) end) context now refl
      (rw (str_eq_self k) (rw (project_fields-Lacks k fs hf, project_fields-Lacks k gs hg)))
