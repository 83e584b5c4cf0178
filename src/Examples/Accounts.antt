-- ===== src/Examples/Accounts.antt =====
-- Wallets, refresh tokens and API tokens.
use farm_exc.Prelude.{
  ℕ, ◌+◌, ◌≤◌, String, ◌≡◌, refl, ◌⊎◌, inl, inr, true, false, Option, none, some, ok, err, List, [],
  ◌∷◌, str_eq, ◌==◌, ap, sym, ◌∙◌, if◌then◌else◌,
}
use farm_exc.Repository.{Repository, Among}
use farm_exc.Audit.{AuditLog}
use farm_exc.Auth.{User}
use farm_exc.Auth.Wallet.{WalletBinding, unbind_wallet}
use farm_exc.Auth.Wallet.Primary.{owned, primaries, unbind_wallet-OnePrimary}
use farm_exc.Auth.Jwt.{
  RefreshToken, JwtPayload, JwtError, Stores, refusal, rotate, generate_access_token,
  generate_refresh_token, refresh_access_token, revoke_all_user_refresh_tokens,
}
use farm_exc.Auth.Jwt.Rotation.{
  Rotates, refresh_access_token-Rotates, revoke_all_user_refresh_tokens-IsSpent,
}
use farm_exc.Auth.ApiToken.{ApiToken, Bearer, accept, validate_each, validate_api_token}
use farm_exc.Auth.ApiToken.Validity.{Vouches, validate_api_token-Vouches}
use farm_exc.Examples.Tables.{table, table-IsRepository}

abbrev wallet_table : Repository (List WalletBinding) WalletBinding
wallet_table = table (λ b. b.id)

abbrev two_wallets : List WalletBinding
two_wallets =
    (record { id = 1; public_key = "GA"; user_id = 7; is_primary = true; last_used = none })
    ∷ (record { id = 2; public_key = "GB"; user_id = 7; is_primary = false; last_used = none })
    ∷ []

unbind_wallet-OnePrimary_example :
    let r = unbind_wallet wallet_table "GA" 7 two_wallets in
    (1 ≤ owned wallet_table (λ d. d) (table-IsRepository (λ b. b.id)) 7 r.1)
    × (primaries wallet_table (λ d. d) (table-IsRepository (λ b. b.id)) 7 r.1 ≡ 1)
    × (((r.0 ≡ ok tt)
          × (owned wallet_table (λ d. d) (table-IsRepository (λ b. b.id)) 7 r.1 + 1
              ≡ owned wallet_table (λ d. d) (table-IsRepository (λ b. b.id)) 7 two_wallets))
        ⊎ (r.1 ≡ two_wallets))
unbind_wallet-OnePrimary_example =
    unbind_wallet-OnePrimary wallet_table (λ d. d) (table-IsRepository (λ b. b.id)) "GA" 7
      two_wallets ((refl, tt), (tt, tt)) refl

-- Every user is there and active.
abbrev load_user : ℕ → Option User
load_user id = some (record { id = id; email = none; username = none; is_active = true })

abbrev sign_payload : JwtPayload → String
sign_payload payload = if payload.sub == 7 then "signed for 7" else "signed"

abbrev refresh_table : Repository (List RefreshToken) RefreshToken
refresh_table = table (λ t. t.id)

abbrev audit_table : Repository (List AuditLog) AuditLog
audit_table = table (λ l. l.actor_id)

abbrev stores : Stores (List RefreshToken) (List AuditLog)
stores = record {
  tokens =
      (record {
        id = 1;
        token = "old";
        user_id = 7;
        expires_at = 1000;
        revoked = false;
        revoked_at = none;
      })
      ∷ [];
  logs = [];
}

one_token :
    (x y : RefreshToken)
    → Among x stores.tokens
    → Among y stores.tokens
    → x.token ≡ y.token
    → x.id ≡ y.id
one_token x y (inl e) (inl f) same = ap (λ t. t.id) (sym e ∙ f)
one_token x y (inl e) (inr m) same = elim m [ ]
one_token x y (inr m) n same = elim m [ ]

refresh_access_token-Rotates_example :
    Rotates refresh_table
      (λ d. d)
      (table-IsRepository (λ t. t.id))
      audit_table
      load_user
      sign_payload
      501
      "old"
      "new"
      (refresh_access_token refresh_table audit_table load_user sign_payload 500 501 "new" 2 "old"
        stores).1
unfolding refresh_access_token refusal rotate generate_access_token generate_refresh_token
refresh_access_token-Rotates_example =
    refresh_access_token-Rotates refresh_table (λ d. d) (table-IsRepository (λ t. t.id)) audit_table
      load_user sign_payload 500 501 "new" 2 "old" stores ("signed for 7", "new") one_token
      (refl, tt) refl

revoke_all_user_refresh_tokens-IsSpent_example :
    let s' =
      revoke_all_user_refresh_tokens refresh_table audit_table load_user sign_payload 400 7
        stores in
    (e : JwtError) × (refresh_access_token refresh_table audit_table load_user sign_payload 500 501
        "new" 2 "old" s'
      ≡ (err e, s'))
revoke_all_user_refresh_tokens-IsSpent_example =
    revoke_all_user_refresh_tokens-IsSpent refresh_table (λ d. d) (table-IsRepository (λ t. t.id))
      audit_table load_user sign_payload 400 7 500 501 "new" 2 "old" stores ((λ h. refl), tt)

abbrev api_table : Repository (List ApiToken) ApiToken
api_table = table (λ t. t.id)

abbrev api_tokens : List ApiToken
api_tokens =
    (record {
      id = 4;
      token = "secret";
      name = "bot";
      role = "trader";
      user_id = 7;
      expires_at = some 1000;
      revoked = false;
      last_used_at = none;
    })
    ∷ []

abbrev trader : Bearer
trader = record { user_id = 7; role = "trader"; token_id = 4 }

validate_api_token-Vouches_example :
    (t : ApiToken) × Among t api_tokens × Vouches load_user str_eq 500 "secret" trader t
unfolding validate_api_token validate_each accept
validate_api_token-Vouches_example =
    validate_api_token-Vouches load_user str_eq 500 "secret" api_table (λ d. d)
      (table-IsRepository (λ t. t.id)) api_tokens trader refl
