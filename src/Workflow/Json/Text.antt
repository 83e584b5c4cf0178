-- ===== src/Workflow/Json/Text.antt =====
-- `JSON.stringify(o, list)` of JavaScript: of each object, at every depth, it writes the properties
-- that the list names and the object has, in the order of the list. Numbers are natural.
use Prim.Native.Char.{code}
use Prim.Native.String.{◌++◌}
use farm_exc.Prelude.{
  ℕ, zero, suc, ◌/◌, ◌%◌, String, Option, none, some, List, [], ◌∷◌, if◌then◌else◌, str_eq, ◌==◌,
  ltb,
}
use farm_exc.Workflow.Json.{
  Json, Items, Fields, null, bool, num, str, arr, obj, nil, cons, end, field,
}

-- The digits of a number below 16.
digit : ℕ → String
digit zero = "0"
digit (suc zero) = "1"
digit (suc (suc zero)) = "2"
digit (suc (suc (suc zero))) = "3"
digit (suc (suc (suc (suc zero)))) = "4"
digit (suc (suc (suc (suc (suc zero))))) = "5"
digit (suc (suc (suc (suc (suc (suc zero)))))) = "6"
digit (suc (suc (suc (suc (suc (suc (suc zero))))))) = "7"
digit (suc (suc (suc (suc (suc (suc (suc (suc zero)))))))) = "8"
digit (suc (suc (suc (suc (suc (suc (suc (suc (suc zero))))))))) = "9"
digit (suc (suc (suc (suc (suc (suc (suc (suc (suc (suc n)))))))))) =
    if n == 0
    then "a"
    else if n == 1
    then "b"
    else if n == 2
    then "c"
    else if n == 3
    then "d"
    else if n == 4
    then "e"
    else "f"

-- The number itself is fuel enough for the digits above the last.
decimal_from : ℕ → ℕ → String
unfolding digit
decimal_from zero n = digit (n % 10)
decimal_from (suc fuel) n =
    let above = decimal_from fuel (n / 10) in if ltb n 10 then digit n else above ++ digit (n % 10)

unfoldable pub decimal : ℕ → String
unfolding decimal_from
decimal n = decimal_from n n

-- The text `s` of the character `c`, escaped.
escape : ℕ → String → String
unfolding digit
escape c s =
    if c == 34
    then "\\\""
    else if c == 92
    then "\\\\"
    else if c == 8
    then "\\b"
    else if c == 9
    then "\\t"
    else if c == 10
    then "\\n"
    else if c == 12
    then "\\f"
    else if c == 13
    then "\\r"
    else if ltb c 32
    then "\\u00" ++ digit (c / 16) ++ digit (c % 16)
    else s

escapes : String → String
unfolding escape
escapes String.[] = ""
escapes (String.◌∷◌ c s) = escape (code c) (String.◌∷◌ c "") ++ escapes s

unfoldable pub quote : String → String
unfolding escapes
quote s = "\"" ++ escapes s ++ "\""

-- The text of each property, to be picked from by name.
abbrev pub Texts : Type 0
Texts = List (String × String)

unfoldable pub pick : String → Texts → Option String
pick k [] = none
pick k ((j, s) ∷ ts) = let rest = pick k ts in if str_eq j k then some s else rest

unfoldable pub joined : String → String → String
joined a b = if str_eq a "" then b else if str_eq b "" then a else a ++ "," ++ b

-- The properties of the list, in its order.
unfoldable pub members : List String → Texts → String
unfolding pick joined quote
members [] ts = ""
members (k ∷ ks) ts = elim (pick k ts) [
  | none ↦ members ks ts
  | some s ↦ joined (quote k ++ ":" ++ s) (members ks ts)
]

unfoldable mutual
  unfolding members decimal quote joined

  pub stringify : List String → Json → String
  stringify ks null = "null"
  stringify ks (bool b) = if b then "true" else "false"
  stringify ks (num n) = decimal n
  stringify ks (str s) = quote s
  stringify ks (arr xs) = "[" ++ elements ks xs ++ "]"
  stringify ks (obj fs) = "{" ++ members ks (texts ks fs) ++ "}"

  pub elements : List String → Items → String
  elements ks nil = ""
  elements ks (cons x xs) = joined (stringify ks x) (elements ks xs)

  pub texts : List String → Fields → Texts
  texts ks end = []
  texts ks (field k v fs) = (k, stringify ks v) ∷ texts ks fs
