-- ===== src/Auth/Jwt.antt =====
-- Backend/src/auth/services/jwt-auth.service.ts and Backend/src/auth/entities/refresh-token.entity.ts.
-- Signing and verifying are functions of a library. UUIDs, new ids and times are arguments: `now`, and
-- `later` for what is written; adding seven days to a date adds 604800000 milliseconds.
pub mod Rotation
use farm_exc.Prelude.{
  ℕ, ◌+◌, ◌*◌, String, Bool, true, false, not, ◌&&◌, Option, none, some, Result, ok, err, ◌==◌,
  str_eq, ltb, if◌then◌else◌,
}
use farm_exc.Repository.{Repository}
use farm_exc.Workflow.Json.{Fields, field, num, end}
use farm_exc.Audit.{AuditLog, log_action}
use farm_exc.Auth.{User}

pub record RefreshToken : Type 0 where
  pub id : ℕ
  pub token : String
  pub user_id : ℕ
  pub expires_at : ℕ
  pub revoked : Bool
  pub revoked_at : Option ℕ

-- `iat` and `exp` are the library's.
pub record JwtPayload : Type 0 where
  pub sub : ℕ
  pub wallet_id : Option String

-- `no_relation` is the failure to read a property of a user that is not there.
pub data JwtError : Type 0 where
  invalid_refresh_token refresh_token_revoked refresh_token_expired no_relation : JwtError
  user_inactive invalid_access_token user_not_found : JwtError

-- The refresh tokens and the audit log.
pub record Stores (Tokens Logs : Type 0) : Type 0 where
  pub tokens : Tokens
  pub logs : Logs

abbrev pub expiration_days : ℕ
expiration_days = 7

abbrev pub has_token : String → RefreshToken → Bool
has_token token t = str_eq t.token token

abbrev pub live_token_of : ℕ → RefreshToken → Bool
live_token_of user_id t = t.user_id == user_id && not t.revoked

abbrev pub revoke_at : ℕ → RefreshToken → RefreshToken
revoke_at now t = record t { revoked = true; revoked_at = some now }

abbrev pub new_refresh_token : String → ℕ → ℕ → ℕ → RefreshToken
new_refresh_token uuid new_id now user_id = record {
  id = new_id;
  token = uuid;
  user_id = user_id;
  expires_at = now + expiration_days * 86400000;
  revoked = false;
  revoked_at = none;
}

unfoldable pub generate_access_token : (JwtPayload → String) → ℕ → Option String → String
generate_access_token sign user_id wallet_id =
    sign (record { sub = user_id; wallet_id = wallet_id })

unfoldable pub validate_access_token :
    (String → Option JwtPayload) → String → Result JwtError JwtPayload
validate_access_token verify token = elim (verify token) [
  | none ↦ err invalid_access_token
  | some payload ↦ ok payload
]

module _ {Tokens Logs : Type 0} (repo : Repository Tokens RefreshToken)
    (audit : Repository Logs AuditLog) (load : ℕ → Option User) (sign : JwtPayload → String) where
  -- The user that the method looks up is not used.
  unfoldable pub generate_refresh_token :
      String → ℕ → ℕ → ℕ → Stores Tokens Logs → RefreshToken × Stores Tokens Logs
  generate_refresh_token uuid new_id now user_id s =
      let saved = new_refresh_token uuid new_id now user_id in
      (
        saved,
        record {
          tokens = repo.insert s.tokens saved;
          logs =
              log_action audit "REFRESH_TOKEN_CREATED" user_id (some new_id)
                (some (field "expiresAt" (num saved.expires_at) end)) s.logs;
        },
      )

  unfoldable pub revoke_refresh_token : ℕ → ℕ → Stores Tokens Logs → Stores Tokens Logs
  revoke_refresh_token now id s = record {
    tokens = repo.update s.tokens (λ t. t.id == id) (revoke_at now);
    logs = log_action audit "REFRESH_TOKEN_REVOKED" id (some id) none s.logs;
  }

  unfoldable pub revoke_all_user_refresh_tokens : ℕ → ℕ → Stores Tokens Logs → Stores Tokens Logs
  revoke_all_user_refresh_tokens now user_id s = record s {
    tokens = repo.update s.tokens (live_token_of user_id) (revoke_at now);
  }

  -- `refreshAccessToken` once the guards have passed: the old token is revoked and a new pair made.
  unfoldable pub rotate :
      ℕ → String → ℕ → RefreshToken → Stores Tokens Logs → (String × String) × Stores Tokens Logs
  unfolding generate_refresh_token revoke_refresh_token generate_access_token
  rotate later uuid new_id t s =
      let s1 = revoke_refresh_token later t.id s in
      let access_token = generate_access_token sign t.user_id none in
      let (new, s2) = generate_refresh_token uuid new_id later t.user_id s1 in
      (
        (access_token, new.token),
        record s2 {
          logs = log_action audit "ACCESS_TOKEN_REFRESHED" t.user_id (some t.id) none s2.logs;
        },
      )

  -- The guards, for the row that was found.
  unfoldable pub refusal : ℕ → RefreshToken → Option JwtError
  refusal now t =
      if t.revoked
      then some refresh_token_revoked
      else if ltb t.expires_at now
      then some refresh_token_expired
      else elim (load t.user_id) [
        | none ↦ some no_relation
        | some u ↦ if u.is_active then none else some user_inactive
      ]

  -- The access token and the new refresh token.
  unfoldable pub refresh_access_token :
      ℕ
      → ℕ
      → String
      → ℕ
      → String
      → Stores Tokens Logs
      → Result JwtError (String × String) × Stores Tokens Logs
  unfolding rotate refusal
  refresh_access_token now later uuid new_id refresh_token s =
      elim (repo.find_one s.tokens (has_token refresh_token)) [
        | none ↦ (err invalid_refresh_token, s)
        | some t ↦ elim (refusal now t) [
          | some e ↦ (err e, s)
          | none ↦ let (pair, s') = rotate later uuid new_id t s in (ok pair, s')
        ]
      ]

  unfoldable pub get_user_from_token : (String → Option JwtPayload) → String → Result JwtError User
  unfolding validate_access_token
  get_user_from_token verify token = elim (validate_access_token verify token) [
    | err e ↦ err e
    | ok payload ↦ elim (load payload.sub) [
      | none ↦ err user_not_found
      | some u ↦ if u.is_active then ok u else err user_inactive
    ]
  ]
