-- ===== src/Workflow/Idempotency/Stability.antt =====
-- Workflow keys, and the order in which an input was put together.
use Prim.Native.Nat.{Ordering}
use Prim.Native.String.{compare, ◌++◌}
use text.Mathlib.TextEquality.{path_by_compare}
use farm_exc.Prelude.{
  ℕ, String, ◌≡◌, refl, ◌∙◌, ap, true, false, Option, List, [], ◌∷◌, str_eq, eq_iff, arith,
  if◌then◌else◌,
}
use farm_exc.Workflow.Json.{Json, Fields, obj, field, keys}
use farm_exc.Workflow.Json.Text.{stringify, texts, pick, members, Texts}
use farm_exc.Workflow.Idempotency.{
  insert_key, sort, plain, stable_stringify, workflow_key_data, generate_workflow_idempotency_key,
}
use farm_exc.Workflow.Idempotency.Order.{is_gt, flip, compare-flip, compare_trans}

-- The same properties in another order; no two properties that change places have one name.
pub data Rearranged : Fields → Fields → Type 0 where
  unmoved : {fs : Fields} → Rearranged fs fs
  kept :
      {k : String} {v : Json} {fs gs : Fields}
      → Rearranged fs gs
      → Rearranged (field k v fs) (field k v gs)
  swapped :
      {j k : String} {v w : Json} {fs : Fields}
      → str_eq j k ≡ false
      → Rearranged (field j v (field k w fs)) (field k w (field j v fs))
  moved_twice : {fs gs hs : Fields} → Rearranged fs gs → Rearranged gs hs → Rearranged fs hs

insert_key-if :
    (k j : String) (js : List String)
    → insert_key k (j ∷ js) ≡ (if is_gt (compare j k) then k ∷ j ∷ js else j ∷ insert_key k js)
unfolding insert_key
insert_key-if k j js = ground arith

insert_key-nil : (k : String) → insert_key k [] ≡ k ∷ []
unfolding insert_key
insert_key-nil k = refl

flip-not_gt : (o : Ordering) → is_gt o ≡ false → is_gt (flip o) ≡ false → o ≡ Ordering.eq
flip-not_gt o h n = ground arith

compare-not_gt : (j k : String) → is_gt (compare j k) ≡ false → is_gt (compare k j) ≡ false → j ≡ k
compare-not_gt j k h n =
    path_by_compare j k (flip-not_gt (compare j k) h (rw (← compare-flip j k) n))

compare-asym : (j k : String) → is_gt (compare j k) ≡ true → is_gt (compare k j) ≡ false
compare-asym j k h = rw (compare-flip j k) (flip_gt (compare j k) h)
  where
    flip_gt : (o : Ordering) → is_gt o ≡ true → is_gt (flip o) ≡ false
    flip_gt o h = ground arith

insert_key-swap :
    (j k : String) (xs : List String)
    → insert_key j (insert_key k xs) ≡ insert_key k (insert_key j xs)
insert_key-swap j k [] =
    rw (insert_key-nil j, insert_key-nil k)
      (ground (
        arith,
        insert_key-nil j,
        insert_key-nil k,
        insert_key-if j k [],
        insert_key-if k j [],
        compare-not_gt j k,
        compare-asym j k,
      ))
insert_key-swap j k (x ∷ xs) = ground (
  arith,
  insert_key-if j x xs,
  insert_key-if k x xs,
  insert_key-if j k (x ∷ xs),
  insert_key-if k j (x ∷ xs),
  insert_key-if j x (insert_key k xs),
  insert_key-if k x (insert_key j xs),
  insert_key-swap j k xs,
  compare-not_gt j k,
  compare-asym j k,
  compare_trans x j k,
  compare_trans x k j,
)

pick-Rearranged :
    {fs gs : Fields}
    → Rearranged fs gs
    → (ks : List String) (n : String) → pick n (texts ks fs) ≡ pick n (texts ks gs)
unfolding pick stringify
pick-Rearranged unmoved ks n = refl
pick-Rearranged (kept {k} {v} r) ks n = rw (pick-Rearranged r ks n)
pick-Rearranged (swapped {j} {k} h) ks n = ground (arith, eq_iff j n, eq_iff k n, eq_iff j k)
pick-Rearranged (moved_twice r s) ks n = pick-Rearranged r ks n ∙ pick-Rearranged s ks n

members-pick :
    (ks : List String) (ts us : Texts)
    → ((n : String) → pick n ts ≡ pick n us)
    → members ks ts ≡ members ks us
unfolding members
members-pick [] ts us same = refl
members-pick (k ∷ ks) ts us same = ground (arith, same k, members-pick ks ts us same)

sort-Rearranged : {fs gs : Fields} → Rearranged fs gs → sort (keys fs) ≡ sort (keys gs)
unfolding sort
sort-Rearranged unmoved = refl
sort-Rearranged (kept {k} r) = ap (insert_key k) (sort-Rearranged r)
sort-Rearranged (swapped {j} {k} {fs = fs} h) = insert_key-swap j k (sort (keys fs))
sort-Rearranged (moved_twice r s) = sort-Rearranged r ∙ sort-Rearranged s

stringify-Rearranged :
    {fs gs : Fields}
    → Rearranged fs gs
    → (ks : List String) → stringify ks (obj fs) ≡ stringify ks (obj gs)
unfolding stringify
stringify-Rearranged {fs} {gs} r ks =
    ap (λ t. "{" ++ t ++ "}") (members-pick ks (texts ks fs) (texts ks gs) (pick-Rearranged r ks))

stable_stringify-Rearranged :
    {fs gs : Fields} → Rearranged fs gs → stable_stringify (plain fs) ≡ stable_stringify (plain gs)
unfolding stable_stringify
stable_stringify-Rearranged {fs} {gs} r =
    stringify-Rearranged r (sort (keys fs)) ∙ ap (λ ks. stringify ks (obj gs)) (sort-Rearranged r)

-- Inputs with the same top-level properties in another order, where no two of one name change places,
-- get one workflow key, whatever the hash function.
pub generate_workflow_idempotency_key-Rearranged :
    (sha256 : String → String) (type user : String) (a b : Fields) (context : Option Fields)
    (now : ℕ)
    → Rearranged a b
    → generate_workflow_idempotency_key sha256 type user a context now
      ≡ generate_workflow_idempotency_key sha256 type user b context now
unfolding generate_workflow_idempotency_key workflow_key_data
generate_workflow_idempotency_key-Rearranged sha256 type user a b context now r =
    rw (stable_stringify-Rearranged r)
