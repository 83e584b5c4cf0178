-- ===== src/Auth/ApiToken.antt =====
-- Backend/src/auth/services/api-token.service.ts and Backend/src/auth/entities/api-token.entity.ts.
-- Hashing and comparing are functions of a library; the plain token, new ids and times are arguments;
-- adding days to a date adds 86400000 milliseconds each.
pub mod Validity
use farm_exc.Prelude.{
  ℕ, ◌+◌, ◌*◌, String, Bool, true, false, not, ◌&&◌, Option, none, some, Result, ok, err, List, [],
  ◌∷◌, ◌==◌, ltb, if◌then◌else◌,
}
use farm_exc.Repository.{Repository}
use farm_exc.Auth.{User}

pub record ApiToken : Type 0 where
  pub id : ℕ
  pub token : String
  pub name : String
  pub role : String
  pub user_id : ℕ
  pub expires_at : Option ℕ
  pub revoked : Bool
  pub last_used_at : Option ℕ

-- `no_relation` is the failure to read a property of a user that is not there.
pub data ApiTokenError : Type 0 where
  token_expired user_inactive invalid_token token_not_found no_relation : ApiTokenError

-- Who a valid token stands for.
pub record Bearer : Type 0 where
  pub user_id : ℕ
  pub role : String
  pub token_id : ℕ

-- `if (expiresInDays)`: 0 days are replaced too.
abbrev pub days_or_default : ℕ → Option ℕ → ℕ
days_or_default default_days none = default_days
days_or_default default_days (some n) = if n == 0 then default_days else n

abbrev pub is_expired : ℕ → Option ℕ → Bool
is_expired now none = false
is_expired now (some at) = ltb at now

abbrev pub live_of : ℕ → ApiToken → Bool
live_of user_id t = t.user_id == user_id && not t.revoked

module _ {Tokens : Type 0} (repo : Repository Tokens ApiToken) where
  -- The plain token is shown once and only its hash is stored.
  unfoldable pub create_api_token :
      (String → String)
      → ℕ
      → String
      → ℕ
      → ℕ
      → ℕ
      → String
      → String
      → Option ℕ
      → Tokens
      → (String × ApiToken) × Tokens
  create_api_token hash default_days plain new_id now user_id name role expires_in_days d =
      let saved : ApiToken = record {
        id = new_id;
        token = hash plain;
        name = name;
        role = role;
        user_id = user_id;
        expires_at = some (now + days_or_default default_days expires_in_days * 86400000);
        revoked = false;
        last_used_at = none;
      } in
      ((plain, saved), repo.insert d saved)

  -- The row that matches, once it is found.
  unfoldable pub accept :
      (ℕ → Option User) → ℕ → ApiToken → Tokens → Result ApiTokenError Bearer × Tokens
  accept load now t d =
      if is_expired now t.expires_at then (err token_expired, d) else elim (load t.user_id) [
        | none ↦ (err no_relation, d)
        | some u ↦
            if u.is_active
            then (
              ok (record { user_id = t.user_id; role = t.role; token_id = t.id }),
              repo.update d (λ r. r.id == t.id) (λ r. record r { last_used_at = some now }),
            )
            else (err user_inactive, d)
      ]

  -- The loop over the rows that are not revoked, with `compare` for the comparison of a plain token
  -- and a hash.
  unfoldable pub validate_each :
      (ℕ → Option User)
      → (String → String → Bool)
      → ℕ
      → String
      → List ApiToken
      → Tokens
      → Result ApiTokenError Bearer × Tokens
  unfolding accept
  validate_each load compare now plain [] d = (err invalid_token, d)
  validate_each load compare now plain (t ∷ ts) d =
      let rest = validate_each load compare now plain ts d in
      if compare plain t.token then accept load now t d else rest

  unfoldable pub validate_api_token :
      (ℕ → Option User)
      → (String → String → Bool)
      → ℕ
      → String
      → Tokens
      → Result ApiTokenError Bearer × Tokens
  unfolding validate_each
  validate_api_token load compare now plain d =
      validate_each load compare now plain (repo.find d (λ t. not t.revoked)) d

  unfoldable pub revoke_api_token : ℕ → ℕ → Tokens → Result ApiTokenError (Unit {0}) × Tokens
  revoke_api_token token_id user_id d =
      elim (repo.find_one d (λ t. t.id == token_id && t.user_id == user_id)) [
        | none ↦ (err token_not_found, d)
        | some _ ↦ (ok tt, repo.update d (λ t. t.id == token_id) (λ t. record t { revoked = true }))
      ]

  unfoldable pub list_user_api_tokens : ℕ → Tokens → List ApiToken
  list_user_api_tokens user_id d = repo.find d (λ t. t.user_id == user_id)

  unfoldable pub revoke_all_user_api_tokens : ℕ → Tokens → Tokens
  revoke_all_user_api_tokens user_id d =
      repo.update d (live_of user_id) (λ t. record t { revoked = true })
