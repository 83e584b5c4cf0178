-- ===== src/Examples/Logins.antt =====
-- Nonces, and logins with them.
use farm_exc.Prelude.{
  ℕ, ◌+◌, String, ◌≡◌, ◌≢◌, refl, true, false, Option, none, some, ok, List, [], str_eq, eq_iff,
  if◌then◌else◌, arith,
}
use farm_exc.Repository.{Repository}
use farm_exc.Audit.{AuditLog}
use farm_exc.Auth.{User}
use farm_exc.Auth.Nonce.{
  LoginNonce, NonceRepository, IsNonceRepository, marked, unexpired, validate_nonce,
}
use farm_exc.Auth.Wallet.{
  WalletBinding, verify_signature, find_user_by_wallet, create_user_with_wallet,
  bind_wallet_to_user,
}
use farm_exc.Auth.Jwt.{RefreshToken, generate_access_token, generate_refresh_token}
use farm_exc.Auth.Login.{
  WalletLogin, LoginResponse, LoginStores, Crypto, Fresh, spend_nonce, prove_wallet, find_or_create,
  open_session, wallet_login, bind_wallet,
}
use farm_exc.Auth.Login.Once.{wallet_login_once}
use farm_exc.Examples.Tables.{table}

-- A table of nonces.
abbrev NonceTable : Type 0
NonceTable = String → Option LoginNonce

abbrev of_owner : String → Option LoginNonce → Option LoginNonce
of_owner key none = none
of_owner key (some n) = if str_eq n.public_key key then some n else none

abbrev nonce_table : NonceRepository NonceTable
nonce_table = record {
  find_one = λ d nonce key. of_owner key (d nonce);
  save = λ d n. λ k. if str_eq n.nonce k then some n else d k;
  update_used = λ d nonce. λ k. if str_eq nonce k then marked (d k) else d k;
  delete_expired = λ d now. λ k. unexpired now (d k);
}

of_owner-marked :
    (key : String) (o : Option LoginNonce) → of_owner key (marked o) ≡ marked (of_owner key o)
of_owner-marked key none = refl
of_owner-marked key (some n) = ground arith

of_owner-unexpired :
    (key : String) (now : ℕ) (o : Option LoginNonce)
    → of_owner key (unexpired now o) ≡ unexpired now (of_owner key o)
of_owner-unexpired key now none = refl
of_owner-unexpired key now (some n) = ground arith

nonce_table-IsNonceRepository : IsNonceRepository nonce_table
nonce_table-IsNonceRepository = record {
  saved = λ d n. ground (arith, eq_iff n.nonce n.nonce, eq_iff n.public_key n.public_key);
  updated = λ d nonce key. rw ((eq_iff nonce nonce).1 refl) (of_owner-marked key (d nonce));
  deleted = λ d now nonce key. of_owner-unexpired key now (d nonce);
}

abbrev no_nonces : NonceTable
no_nonces = λ k. none

abbrev ann_nonce : LoginNonce
ann_nonce = record { nonce = "n1"; public_key = "GANN"; expires_at = 1000 + 300000; used = false }

abbrev crypto : Crypto String
crypto = record {
  decode_public_key = λ k. some k;
  of_base64 = λ s. s;
  of_utf8 = λ s. s;
  verify = λ m s k. some (str_eq s k);
  sign = λ p. "signed";
}

abbrev wallet_table : Repository (List WalletBinding) WalletBinding
wallet_table = table (λ b. b.id)

abbrev user_table : Repository (List User) User
user_table = table (λ u. u.id)

abbrev token_table : Repository (List RefreshToken) RefreshToken
token_table = table (λ t. t.id)

abbrev log_table : Repository (List AuditLog) AuditLog
log_table = table (λ l. l.actor_id)

abbrev first_request : Fresh
first_request = record { now = 2000; user_id = 7; binding_id = 1; token_id = 1; uuid = "r1" }

abbrev second_request : Fresh
second_request = record { now = 3000; user_id = 8; binding_id = 2; token_id = 2; uuid = "r2" }

abbrev ann_login : WalletLogin
ann_login = record { public_key = "GANN"; signature = "GANN"; nonce = "n1" }

abbrev ann_user : User
ann_user = record { id = 7; email = none; username = none; is_active = true }

abbrev no_users :
    LoginStores NonceTable (List WalletBinding) (List User) (List RefreshToken) (List AuditLog)
no_users = record {
  nonces = nonce_table.save no_nonces ann_nonce;
  wallets = [];
  users = [];
  session = record { tokens = []; logs = [] };
}

abbrev ann_response : LoginResponse
ann_response = record { access_token = "signed"; refresh_token = "r1"; user = ann_user }

abbrev later_response : LoginResponse
later_response = record { access_token = "signed"; refresh_token = "r2"; user = ann_user }

abbrev later_binding : WalletBinding
later_binding = record {
  id = 2;
  public_key = "GANN";
  user_id = 9;
  is_primary = false;
  last_used = none;
}

wallet_login_once_example :
    let s' =
      (wallet_login crypto nonce_table wallet_table user_table token_table log_table first_request
        ann_login no_users).1 in
    ((wallet_login crypto nonce_table wallet_table user_table token_table log_table second_request
        ann_login s').0
      ≢ ok later_response)
    × ((bind_wallet crypto nonce_table wallet_table user_table token_table log_table second_request
          9 ann_login s').0
        ≢ ok later_binding)
unfolding wallet_login prove_wallet spend_nonce validate_nonce verify_signature find_or_create
    find_user_by_wallet create_user_with_wallet bind_wallet_to_user open_session
    generate_access_token generate_refresh_token
wallet_login_once_example =
    wallet_login_once crypto nonce_table nonce_table-IsNonceRepository wallet_table user_table
      token_table log_table first_request second_request ann_login ann_login 9 no_users ann_response
      later_response later_binding refl refl
