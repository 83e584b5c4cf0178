-- ===== src/Auth/Guards.antt =====
-- Backend/src/auth: api-token.guard.ts and roles.guard.ts of guards/, and the check of
-- strategies/jwt.strategy.ts. A header's split at spaces is an
-- argument, as a function; what a guard throws is a constructor.
use farm_exc.Prelude.{
  ℕ, String, Bool, Option, none, some, Result, ok, err, List, [], ◌∷◌, str_eq, ◌==◌, includes,
  if◌then◌else◌,
}
use farm_exc.Repository.{Repository}
use farm_exc.Auth.{User}
use farm_exc.Auth.Jwt.{JwtPayload}
use farm_exc.Auth.ApiToken.{ApiToken, Bearer, validate_api_token}

pub data GuardError : Type 0 where
  token_required invalid_api_token role_not_found role_required : GuardError
  user_not_found account_inactive : GuardError

-- The token of the header `Bearer <token>`; an empty header counts as none.
unfoldable pub extract_token_from_header : (String → List String) → Option String → Option String
extract_token_from_header split none = none
extract_token_from_header split (some header) =
    if str_eq header "" then none else elim (split header) [
      | [] ↦ none
      | kind ∷ rest ↦ elim rest [
        | [] ↦ none
        | token ∷ _ ↦ if str_eq kind "Bearer" then some token else none
      ]
    ]

module _ {Tokens : Type 0} (repo : Repository Tokens ApiToken) where
  -- The user that the request gets.
  unfoldable pub api_token_guard :
      (String → List String)
      → (ℕ → Option User)
      → (String → String → Bool)
      → ℕ
      → Option String
      → Tokens
      → Result GuardError Bearer × Tokens
  unfolding extract_token_from_header validate_api_token
  api_token_guard split load compare now header d = elim (extract_token_from_header split header) [
    | none ↦ (err token_required, d)
    | some token ↦
        if str_eq token ""
        then (err token_required, d)
        else (let (out, d') = validate_api_token repo load compare now token d in
            (elim out [ err _ ↦ err invalid_api_token | ok b ↦ ok b ], d'))
  ]

-- For the roles that the handler requires, and the role of the request's user.
unfoldable pub roles_guard : List String → Option String → Option GuardError
roles_guard [] role = none
roles_guard (r ∷ rs) none = some role_not_found
roles_guard (r ∷ rs) (some role) =
    if str_eq role ""
    then some role_not_found
    else if includes str_eq (r ∷ rs) role
    then none
    else some role_required

-- The user of a payload whose signature the library has verified.
unfoldable pub validate_payload :
    {Users : Type 0} → Repository Users User → JwtPayload → Users → Result GuardError User
validate_payload users payload d = elim (users.find_one d (λ u. u.id == payload.sub)) [
  | none ↦ err user_not_found
  | some user ↦ if user.is_active then ok user else err account_inactive
]
