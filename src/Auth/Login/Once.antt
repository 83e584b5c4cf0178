-- ===== src/Auth/Login/Once.antt =====
-- A nonce opens one session or binds one wallet.
use Prim.Native.String.{◌++◌}
use farm_exc.Prelude.{
  ℕ, String, ◌≡◌, ◌≢◌, refl, inl, inr, ok, Result-cases, Option-cases, Bool-cases, arith,
}
use farm_exc.Repository.{Repository}
use farm_exc.Audit.{AuditLog}
use farm_exc.Auth.{User}
use farm_exc.Auth.Nonce.{
  NonceRepository, IsNonceRepository, LoginNonce, Validation, valid, invalid_nonce, already_used,
  expired, validate_nonce, mark_nonce_used,
}
use farm_exc.Auth.Nonce.Once.{validate_nonce-mark_nonce_used}
use farm_exc.Auth.Wallet.{
  WalletBinding, verify_signature, find_user_by_wallet, create_user_with_wallet,
}
use farm_exc.Auth.Jwt.{RefreshToken}
use farm_exc.Auth.Login.{
  WalletLogin, LoginResponse, LoginStores, Crypto, Fresh, load_from, spend_nonce, prove_wallet,
  find_or_create, open_session, wallet_login, bind_wallet,
}

module _ {Bytes Nonces Wallets Users Tokens Logs : Type 0} (crypto : Crypto Bytes)
    (nonce_repo : NonceRepository Nonces) (law : IsNonceRepository nonce_repo)
    (wallet_repo : Repository Wallets WalletBinding) (user_repo : Repository Users User)
    (token_repo : Repository Tokens RefreshToken) (audit : Repository Logs AuditLog) where
  spend_nonce_refused :
      (x : WalletLogin) (v : Validation) (d : Nonces) (r : Unit {0})
      → ((n : LoginNonce) → v ≢ valid n)
      → (spend_nonce crypto nonce_repo wallet_repo user_repo token_repo audit x v d).0 ≢ ok r
  unfolding spend_nonce
  spend_nonce_refused x invalid_nonce d r never h = ground (arith, h)
  spend_nonce_refused x already_used d r never h = ground (arith, h)
  spend_nonce_refused x expired d r never h = ground (arith, h)
  spend_nonce_refused x (valid n) d r never h = never n refl

  spend_nonce_marks :
      (x : WalletLogin) (v : Validation) (d : Nonces) (r : Unit {0})
      → (spend_nonce crypto nonce_repo wallet_repo user_repo token_repo audit x v d).0 ≡ ok r
      → (spend_nonce crypto nonce_repo wallet_repo user_repo token_repo audit x v d).1
        ≡ mark_nonce_used nonce_repo x.nonce d
  unfolding spend_nonce
  spend_nonce_marks x invalid_nonce d r h = absurd (ground (arith, h))
  spend_nonce_marks x already_used d r h = absurd (ground (arith, h))
  spend_nonce_marks x expired d r h = absurd (ground (arith, h))
  spend_nonce_marks x (valid n) d r h =
      elim (Bool-cases (
        verify_signature crypto.decode_public_key crypto.of_base64 crypto.of_utf8 crypto.verify
          x.public_key x.signature
          ("Sign this message to authenticate with Stellara: " ++ x.nonce))) [
            | inl signed ↦ rw (signed, spend_nonce) refl
            | inr unsigned ↦ absurd (ground (arith, rw (unsigned, spend_nonce) at h))
          ]

  -- A wallet that is proved with a nonce is not proved with it again.
  prove_wallet_once :
      (now later : ℕ) (x y : WalletLogin) (d : Nonces) (r q : Unit {0})
      → y.nonce ≡ x.nonce
      → (prove_wallet crypto nonce_repo wallet_repo user_repo token_repo audit now x d).0 ≡ ok r
      → (prove_wallet crypto nonce_repo wallet_repo user_repo token_repo audit later y
          (prove_wallet crypto nonce_repo wallet_repo user_repo token_repo audit now x d).1).0
        ≢ ok q
  unfolding prove_wallet
  prove_wallet_once now later x y d r q same h =
      let v = validate_nonce nonce_repo now x.nonce x.public_key d in
      rw (spend_nonce_marks x v d r h) (
        spend_nonce_refused y _ (mark_nonce_used nonce_repo x.nonce d) q (λ n.
          rw same (validate_nonce-mark_nonce_used nonce_repo law d x.nonce y.public_key later n)))

  find_or_create-nonces :
      (f : Fresh) (key : String) (s : LoginStores Nonces Wallets Users Tokens Logs)
      → (find_or_create crypto nonce_repo wallet_repo user_repo token_repo audit f key s).1.nonces
        ≡ s.nonces
  unfolding find_or_create
  find_or_create-nonces f key s =
      elim (Option-cases (
        find_user_by_wallet wallet_repo
          (load_from crypto nonce_repo wallet_repo user_repo token_repo audit s.users) key
          s.wallets)) [
            | inr (u, there) ↦ rw (there, find_or_create) refl
            | inl absent ↦
                elim (Result-cases
                  (create_user_with_wallet wallet_repo user_repo f.user_id f.binding_id f.now key
                    (s.users, s.wallets)).0) [
                      | inl (e, refused) ↦ rw (absent, refused, find_or_create) refl
                      | inr (u, created) ↦ rw (absent, created, find_or_create) refl
                    ]
          ]

  wallet_login-nonces :
      (f : Fresh) (x : WalletLogin) (s : LoginStores Nonces Wallets Users Tokens Logs)
      → (wallet_login crypto nonce_repo wallet_repo user_repo token_repo audit f x s).1.nonces
        ≡ (prove_wallet crypto nonce_repo wallet_repo user_repo token_repo audit f.now x s.nonces).1
  unfolding wallet_login open_session
  wallet_login-nonces f x s =
      let proved =
        prove_wallet crypto nonce_repo wallet_repo user_repo token_repo audit f.now x s.nonces in
      let s1 = record s { nonces = proved.1 } in
      elim (Result-cases proved.0) [
        | inl (e, refused) ↦ rw (refused, wallet_login) refl
        | inr (t, passed) ↦
            let kept = find_or_create-nonces f x.public_key s1 in
            elim (Result-cases
              (find_or_create crypto nonce_repo wallet_repo user_repo token_repo audit f
                x.public_key s1).0) [
                  | inl (e, none_made) ↦ rw (passed, none_made, wallet_login) kept
                  | inr (u, made) ↦ rw (passed, made, wallet_login) kept
                ]
      ]

  wallet_login-proved :
      (f : Fresh) (x : WalletLogin) (s : LoginStores Nonces Wallets Users Tokens Logs)
      (r : LoginResponse)
      → (wallet_login crypto nonce_repo wallet_repo user_repo token_repo audit f x s).0 ≡ ok r
      → (t : Unit {0}) × ((prove_wallet crypto nonce_repo wallet_repo user_repo token_repo audit
            f.now x s.nonces).0
          ≡ ok t)
  unfolding wallet_login
  wallet_login-proved f x s r h =
      elim (Result-cases
        (prove_wallet crypto nonce_repo wallet_repo user_repo token_repo audit f.now x
          s.nonces).0) [
            | inl (e, refused) ↦ absurd (ground (arith, rw (refused, wallet_login) at h))
            | inr passed ↦ passed
          ]

  bind_wallet-proved :
      (f : Fresh) (user_id : ℕ) (x : WalletLogin) (s : LoginStores Nonces Wallets Users Tokens Logs)
      (b : WalletBinding)
      → (bind_wallet crypto nonce_repo wallet_repo user_repo token_repo audit f user_id x s).0
        ≡ ok b
      → (t : Unit {0}) × ((prove_wallet crypto nonce_repo wallet_repo user_repo token_repo audit
            f.now x s.nonces).0
          ≡ ok t)
  unfolding bind_wallet
  bind_wallet-proved f user_id x s b h =
      elim (Result-cases
        (prove_wallet crypto nonce_repo wallet_repo user_repo token_repo audit f.now x
          s.nonces).0) [
            | inl (e, refused) ↦ absurd (ground (arith, rw (refused, bind_wallet) at h))
            | inr passed ↦ passed
          ]

  -- After a login that succeeds, no login and no binding of a wallet with the same nonce succeeds, at any
  -- time, for any public key, signature and user.
  pub wallet_login_once :
      (f g : Fresh) (x y : WalletLogin) (user_id : ℕ)
      (s : LoginStores Nonces Wallets Users Tokens Logs) (r r' : LoginResponse) (b : WalletBinding)
      → y.nonce ≡ x.nonce
      → (wallet_login crypto nonce_repo wallet_repo user_repo token_repo audit f x s).0 ≡ ok r
      → let s' = (wallet_login crypto nonce_repo wallet_repo user_repo token_repo audit f x s).1 in
        ((wallet_login crypto nonce_repo wallet_repo user_repo token_repo audit g y s').0 ≢ ok r')
        × ((bind_wallet crypto nonce_repo wallet_repo user_repo token_repo audit g user_id y s').0
            ≢ ok b)
  wallet_login_once f g x y user_id s r r' b same h =
      let s' = (wallet_login crypto nonce_repo wallet_repo user_repo token_repo audit f x s).1 in
      let (t, passed) = wallet_login-proved f x s r h in
      let never : (q : Unit {0})
          → (prove_wallet crypto nonce_repo wallet_repo user_repo token_repo audit g.now y
              s'.nonces).0
            ≢ ok q =
        λ q.
          rw (wallet_login-nonces f x s)
            (prove_wallet_once f.now g.now x y s.nonces t q same passed) in
      (
        λ e. let (q, again) = wallet_login-proved g y s' r' e in never q again,
        λ e. let (q, again) = bind_wallet-proved g user_id y s' b e in never q again,
      )
