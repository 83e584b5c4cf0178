-- ===== src/Auth/Login.antt =====
-- Backend/src/auth/controllers/auth.controller.ts: the handlers that change rows, over the services of
-- the other modules. Decoding, verifying and signing are functions of libraries; the new ids, tokens and
-- the time are arguments. The guards of the routes are apart.
pub mod Once
use Prim.Native.String.{◌++◌}
use farm_exc.Prelude.{
  ℕ, String, Bool, true, false, not, Option, none, some, Result, ok, err, ◌==◌, if◌then◌else◌,
}
use farm_exc.Repository.{Repository}
use farm_exc.Audit.{AuditLog, log_action}
use farm_exc.Workflow.Json.{end, field, str}
use farm_exc.Auth.{User}
use farm_exc.Auth.Nonce.{
  NonceRepository, Validation, valid, invalid_nonce, already_used, expired, validate_nonce,
  mark_nonce_used,
}
use farm_exc.Auth.Wallet.{
  WalletBinding, WalletError, verify_signature, find_user_by_wallet, bind_wallet_to_user,
  update_last_used, create_user_with_wallet,
}
use farm_exc.Auth.Jwt.{
  RefreshToken, JwtPayload, Stores, generate_access_token, generate_refresh_token,
  revoke_all_user_refresh_tokens,
}

-- `WalletLoginDto`, and what `BindWalletDto` has as well.
pub record WalletLogin : Type 0 where
  pub public_key : String
  pub signature : String
  pub nonce : String

pub data LoginError : Type 0 where
  nonce_refused : Validation → LoginError
  invalid_signature : LoginError
  wallet_refused : WalletError → LoginError

pub record LoginResponse : Type 0 where
  pub access_token : String
  pub refresh_token : String
  pub user : User

pub record LoginStores (Nonces Wallets Users Tokens Logs : Type 0) : Type 0 where
  pub nonces : Nonces
  pub wallets : Wallets
  pub users : Users
  pub session : Stores Tokens Logs

-- The libraries: decoding a public key, reading Base64 and UTF-8, verifying, signing a payload.
pub record Crypto (Bytes : Type 0) : Type 0 where
  pub decode_public_key : String → Option Bytes
  pub of_base64 : String → Bytes
  pub of_utf8 : String → Bytes
  pub verify : Bytes → Bytes → Bytes → Option Bool
  pub sign : JwtPayload → String

-- What a request brings with it: the ids and the UUID that are new, and the time.
pub record Fresh : Type 0 where
  pub now : ℕ
  pub user_id : ℕ
  pub binding_id : ℕ
  pub token_id : ℕ
  pub uuid : String

module _ {Bytes Nonces Wallets Users Tokens Logs : Type 0} (crypto : Crypto Bytes)
    (nonce_repo : NonceRepository Nonces) (wallet_repo : Repository Wallets WalletBinding)
    (user_repo : Repository Users User) (token_repo : Repository Tokens RefreshToken)
    (audit : Repository Logs AuditLog) where
  abbrev pub load_from : Users → ℕ → Option User
  load_from users id = user_repo.find_one users (λ u. u.id == id)

  -- With a nonce that is valid, the signature of its message is verified and the nonce marked as used.
  unfoldable pub spend_nonce :
      WalletLogin → Validation → Nonces → Result LoginError (Unit {0}) × Nonces
  unfolding verify_signature mark_nonce_used
  spend_nonce x invalid_nonce d = (err (nonce_refused invalid_nonce), d)
  spend_nonce x already_used d = (err (nonce_refused already_used), d)
  spend_nonce x expired d = (err (nonce_refused expired), d)
  spend_nonce x (valid _) d =
      if verify_signature crypto.decode_public_key crypto.of_base64 crypto.of_utf8 crypto.verify
        x.public_key x.signature ("Sign this message to authenticate with Stellara: " ++ x.nonce)
      then (ok tt, mark_nonce_used nonce_repo x.nonce d)
      else (err invalid_signature, d)

  unfoldable pub prove_wallet : ℕ → WalletLogin → Nonces → Result LoginError (Unit {0}) × Nonces
  unfolding validate_nonce spend_nonce
  prove_wallet now x d = spend_nonce x (validate_nonce nonce_repo now x.nonce x.public_key d) d

  -- The user of the wallet, or a new one, which is written to the audit log.
  unfoldable pub find_or_create :
      Fresh
      → String
      → LoginStores Nonces Wallets Users Tokens Logs
      → Result LoginError User × LoginStores Nonces Wallets Users Tokens Logs
  unfolding find_user_by_wallet create_user_with_wallet log_action
  find_or_create f key s =
      elim (find_user_by_wallet wallet_repo (load_from s.users) key s.wallets) [
        | some user ↦ (ok user, s)
        | none ↦
            let (created, stores) =
              create_user_with_wallet wallet_repo user_repo f.user_id f.binding_id f.now key
                (s.users, s.wallets) in
            let s1 = record s { users = stores.0; wallets = stores.1 } in
            elim created [
              | err e ↦ (err (wallet_refused e), s1)
              | ok user ↦ (
                ok user,
                record s1 {
                  session = record s1.session {
                    logs =
                        log_action audit "USER_CREATED" user.id (some user.id)
                          (some (field "wallet" (str key) end)) s1.session.logs;
                  };
                },
              )
            ]
      ]

  -- The tokens of a user who has proved the wallet.
  unfoldable pub open_session :
      Fresh
      → String
      → User
      → LoginStores Nonces Wallets Users Tokens Logs
      → LoginResponse × LoginStores Nonces Wallets Users Tokens Logs
  unfolding update_last_used generate_access_token generate_refresh_token
  open_session f key user s =
      let s1 = record s { wallets = update_last_used wallet_repo f.now key s.wallets } in
      let access = generate_access_token crypto.sign user.id none in
      let (refresh, session) =
        generate_refresh_token token_repo audit (load_from s1.users) crypto.sign f.uuid f.token_id
          f.now user.id s1.session in
      (
        record { access_token = access; refresh_token = refresh.token; user = user },
        record s1 { session = session },
      )

  unfoldable pub wallet_login :
      Fresh
      → WalletLogin
      → LoginStores Nonces Wallets Users Tokens Logs
      → Result LoginError LoginResponse × LoginStores Nonces Wallets Users Tokens Logs
  unfolding prove_wallet find_or_create open_session
  wallet_login f x s =
      let (proved, d) = prove_wallet f.now x s.nonces in
      elim proved [
        | err e ↦ (err e, record s { nonces = d })
        | ok _ ↦
            let (found, s1) = find_or_create f x.public_key (record s { nonces = d }) in
            elim found [
              | err e ↦ (err e, s1)
              | ok user ↦ let (r, s2) = open_session f x.public_key user s1 in (ok r, s2)
            ]
      ]

  -- For the user of the request.
  unfoldable pub bind_wallet :
      Fresh
      → ℕ
      → WalletLogin
      → LoginStores Nonces Wallets Users Tokens Logs
      → Result LoginError WalletBinding × LoginStores Nonces Wallets Users Tokens Logs
  unfolding prove_wallet bind_wallet_to_user
  bind_wallet f user_id x s =
      let (proved, d) = prove_wallet f.now x s.nonces in
      elim proved [
        | err e ↦ (err e, record s { nonces = d })
        | ok _ ↦
            let (bound, w) =
              bind_wallet_to_user wallet_repo f.binding_id f.now x.public_key user_id false
                s.wallets in
            (
              elim bound [ err e ↦ err (wallet_refused e) | ok b ↦ ok b ],
              record s { nonces = d; wallets = w },
            )
      ]

  unfoldable pub logout :
      ℕ
      → ℕ
      → LoginStores Nonces Wallets Users Tokens Logs
      → LoginStores Nonces Wallets Users Tokens Logs
  unfolding revoke_all_user_refresh_tokens
  logout now user_id s = record s {
    session =
        revoke_all_user_refresh_tokens token_repo audit (load_from s.users) crypto.sign now user_id
          s.session;
  }
