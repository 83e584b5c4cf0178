-- ===== src/Workflow/Idempotency/Parsing.antt =====
-- `parseIdempotencyKey` of Backend/src/workflow/services/idempotency.service.ts, and the keys that the
-- service makes.
use Prim.Native.Char.{Char, code}
use Prim.Native.String.{[], ◌∷◌, ◌++◌}
use text.Mathlib.TextLemmas.{nil-append, cons-append, append_assoc}
use farm_exc.Prelude.{
  ℕ, zero, suc, String, ◌≡◌, refl, ap, Bool, false, ◌&&◌, ◌||◌, Option, none, some, List, [], ◌∷◌,
  length, leb, if◌then◌else◌, ◌==◌, str_eq, arith,
}
use farm_exc.Workflow.Json.{Fields}
use farm_exc.Workflow.Idempotency.{
  Argument, workflow_key_data, step_key_data, generate_workflow_idempotency_key,
  generate_step_idempotency_key, generate_unique_idempotency_key,
}

data KeyType : Type 0 where
  workflow step unique : KeyType

record ParsedKey : Type 0 where
  key_type : KeyType
  prefix : String
  identifier : String
  hash : Option String

abbrev is_colon : Char → Bool
is_colon c = code c == 58

-- The character in front of the first part.
abbrev put_first : Char → List String → List String
put_first c [] = (c ∷ "") ∷ []
put_first c (p ∷ ps) = (c ∷ p) ∷ ps

-- `key.split(':')`.
split : String → List String
split [] = "" ∷ []
split (c ∷ s) = let rest = split s in if is_colon c then "" ∷ rest else put_first c rest

-- `parts[n]`.
abbrev part : List String → ℕ → Option String
part [] n = none
part (p ∷ ps) zero = some p
part (p ∷ ps) (suc n) = part ps n

-- `${part}`; where it is used the part is there.
abbrev text_of : Option String → String
text_of none = "undefined"
text_of (some p) = p

-- `part || 'unknown'`.
abbrev or_unknown : Option String → String
or_unknown none = "unknown"
or_unknown (some p) = if str_eq p "" then "unknown" else p

abbrev begins_with : String → ℕ → List String → Bool
begins_with prefix n parts = str_eq (text_of (part parts 0)) prefix && leb n (length parts)

abbrev parse_parts : List String → ParsedKey
parse_parts parts =
    if begins_with "workflow" 4 parts
    then record {
      key_type = KeyType.workflow;
      prefix = text_of (part parts 0);
      identifier = text_of (part parts 1) ++ ":" ++ text_of (part parts 2);
      hash = part parts 3;
    }
    else if begins_with "step" 3 parts
    then record {
      key_type = KeyType.step;
      prefix = text_of (part parts 0);
      identifier = text_of (part parts 1);
      hash = part parts 2;
    }
    else if begins_with "unique" 3 parts
    then record {
      key_type = KeyType.unique;
      prefix = text_of (part parts 0);
      identifier = text_of (part parts 1);
      hash = part parts 2;
    }
    else record {
      key_type = KeyType.unique;
      prefix = or_unknown (part parts 0);
      identifier = or_unknown (part parts 1);
      hash = part parts 2;
    }

parse_idempotency_key : String → ParsedKey
unfolding split
parse_idempotency_key key = parse_parts (split key)

has_colon : String → Bool
has_colon [] = false
has_colon (c ∷ s) = is_colon c || has_colon s

split-nil : split "" ≡ "" ∷ []
unfolding split
split-nil = refl

split-cons :
    (c : Char) (s : String)
    → split (c ∷ s) ≡ (if is_colon c then "" ∷ split s else put_first c (split s))
unfolding split
split-cons c s = refl

no_colon_inside :
    (c : Char) (s : String)
    → has_colon (c ∷ s) ≡ false
    → (is_colon c ≡ false) × (has_colon s ≡ false)
unfolding has_colon
no_colon_inside c s h = both (is_colon c) (has_colon s) h
  where
    both : (a b : Bool) → (a || b) ≡ false → (a ≡ false) × (b ≡ false)
    both a b h = ground arith

split-none : (s : String) → has_colon s ≡ false → split s ≡ s ∷ []
split-none [] h = split-nil
split-none (c ∷ s) h =
    let (hc, hs) = no_colon_inside c s h in rw (split-cons c s, hc, split-none s hs) refl

split-join : (s t : String) → has_colon s ≡ false → split (s ++ ":" ++ t) ≡ s ∷ split t
split-join [] t h =
    rw (nil-append (":" ++ t), cons-append ":" "" t, nil-append t, split-cons ":" t) refl
split-join (c ∷ s) t h =
    let (hc, hs) = no_colon_inside c s h in
    rw (cons-append c s (":" ++ t), split-cons c (s ++ ":" ++ t), hc, split-join s t hs) refl

split_workflow :
    (a b h : String)
    → has_colon a ≡ false
    → has_colon b ≡ false
    → has_colon h ≡ false
    → split ("workflow:" ++ a ++ ":" ++ b ++ ":" ++ h) ≡ "workflow" ∷ a ∷ b ∷ h ∷ []
unfolding has_colon
split_workflow a b h ha hb hh =
    rw
      (
        append_assoc "workflow" ":" (a ++ ":" ++ b ++ ":" ++ h),
        split-join "workflow" (a ++ ":" ++ b ++ ":" ++ h) refl,
        split-join a (b ++ ":" ++ h) ha,
        split-join b h hb,
        split-none h hh,
      )
      refl

split_step :
    (a h : String)
    → has_colon a ≡ false
    → has_colon h ≡ false
    → split ("step:" ++ a ++ ":" ++ h) ≡ "step" ∷ a ∷ h ∷ []
unfolding has_colon
split_step a h ha hh =
    rw
      (
        append_assoc "step" ":" (a ++ ":" ++ h),
        split-join "step" (a ++ ":" ++ h) refl,
        split-join a h ha,
        split-none h hh,
      )
      refl

-- A workflow key is told apart again: its kind, its workflow type and user, and its hash. The texts
-- have no colon, and neither has a hash.
parse_idempotency_key-generate_workflow_idempotency_key :
    (sha256 : String → String) (type user : String) (input : Fields) (context : Option Fields)
    (now : ℕ)
    → ((s : String) → has_colon (sha256 s) ≡ false)
    → has_colon type ≡ false
    → has_colon user ≡ false
    → parse_idempotency_key (generate_workflow_idempotency_key sha256 type user input context now)
      ≡ record {
        key_type = KeyType.workflow;
        prefix = "workflow";
        identifier = type ++ ":" ++ user;
        hash = some (sha256 (workflow_key_data type user input context now));
      }
unfolding parse_idempotency_key generate_workflow_idempotency_key
parse_idempotency_key-generate_workflow_idempotency_key sha256 type user input context now hex ht
      hu =
    ap parse_parts (
      split_workflow type user (sha256 (workflow_key_data type user input context now)) ht hu
        (hex (workflow_key_data type user input context now)))

-- The same of the key of a step, with a name without a colon.
parse_idempotency_key-generate_step_idempotency_key :
    (sha256 : String → String) (workflow_key name : String) (input : Argument)
    → ((s : String) → has_colon (sha256 s) ≡ false)
    → has_colon name ≡ false
    → parse_idempotency_key (generate_step_idempotency_key sha256 workflow_key name input)
      ≡ record {
        key_type = KeyType.step;
        prefix = "step";
        identifier = name;
        hash = some (sha256 (step_key_data workflow_key name input));
      }
unfolding parse_idempotency_key generate_step_idempotency_key
parse_idempotency_key-generate_step_idempotency_key sha256 workflow_key name input hex hn =
    ap parse_parts (
      split_step name (sha256 (step_key_data workflow_key name input)) hn
        (hex (step_key_data workflow_key name input)))

split_unique :
    (a b u : String)
    → has_colon a ≡ false
    → has_colon b ≡ false
    → has_colon u ≡ false
    → split (a ++ ":" ++ b ++ ":" ++ u) ≡ a ∷ b ∷ u ∷ []
split_unique a b u ha hb hu =
    rw (split-join a (b ++ ":" ++ u) ha, split-join b u hb, split-none u hu) refl

-- The same of a key made for one time, for an operation "unique".
parse_idempotency_key-generate_unique_idempotency_key :
    (uuid identifier : String)
    → has_colon uuid ≡ false
    → has_colon identifier ≡ false
    → parse_idempotency_key (generate_unique_idempotency_key uuid "unique" identifier) ≡ record {
      key_type = KeyType.unique;
      prefix = "unique";
      identifier = identifier;
      hash = some uuid;
    }
unfolding parse_idempotency_key generate_unique_idempotency_key has_colon
parse_idempotency_key-generate_unique_idempotency_key uuid identifier hu hi =
    ap parse_parts (split_unique "unique" identifier uuid refl hi hu)
