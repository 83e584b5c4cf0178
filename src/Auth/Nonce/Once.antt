-- ===== src/Auth/Nonce/Once.antt =====
-- The life of a nonce.
use farm_exc.Prelude.{
  ℕ, ◌+◌, String, ◌≡◌, ◌≢◌, ◌↔◌, ◌≤◌, false, Option, none, some, leb, if◌then◌else◌, arith,
}
use farm_exc.Auth.Nonce.{
  LoginNonce, NonceRepository, IsNonceRepository, marked, unexpired, valid, expired, validate_row,
  generate_nonce, validate_nonce, mark_nonce_used, cleanup_expired_nonces,
}

validate_row-marked :
    (now : ℕ) (o : Option LoginNonce) (n : LoginNonce) → validate_row now (marked o) ≢ valid n
validate_row-marked now none n = ground arith
validate_row-marked now (some m) n = ground arith

validate_row-unexpired :
    (now later : ℕ) (o : Option LoginNonce) (n : LoginNonce)
    → now ≤ later
    → (validate_row later (unexpired now o) ≡ valid n) ↔ (validate_row later o ≡ valid n)
validate_row-unexpired now later none n h = (λ e. e, λ e. e)
validate_row-unexpired now later (some m) n h = ground arith

module _ {Db : Type 0} (repo : NonceRepository Db) (law : IsNonceRepository repo) where
  -- A nonce that was just made is valid for its public key up to and including five minutes later,
  -- and has expired from then on.
  pub validate_nonce-generate_nonce :
      (d : Db) (uuid key : String) (now later : ℕ)
      → validate_nonce repo later uuid key (generate_nonce repo uuid now key d).1 ≡ (
          if leb later (now + 300000)
          then valid
              (record { nonce = uuid; public_key = key; expires_at = now + 300000; used = false })
          else expired)
  unfolding validate_nonce generate_nonce
  validate_nonce-generate_nonce d uuid key now later = ground (
    arith,
    law.saved d
        (record { nonce = uuid; public_key = key; expires_at = now + 300000; used = false }),
  )

  -- After `markNonceUsed` the nonce is never valid, at any time and for any public key.
  pub validate_nonce-mark_nonce_used :
      (d : Db) (nonce key : String) (now : ℕ) (n : LoginNonce)
      → validate_nonce repo now nonce key (mark_nonce_used repo nonce d) ≢ valid n
  unfolding validate_nonce mark_nonce_used
  validate_nonce-mark_nonce_used d nonce key now n =
      rw (law.updated d nonce key) (validate_row-marked now _ n)

  -- The hourly clean-up takes no nonce that could still be used: from its time on, a nonce is valid
  -- if and only if it would be valid without it.
  pub validate_nonce-cleanup_expired_nonces :
      (d : Db) (nonce key : String) (now later : ℕ) (n : LoginNonce)
      → now ≤ later
      → (validate_nonce repo later nonce key (cleanup_expired_nonces repo now d) ≡ valid n)
        ↔ (validate_nonce repo later nonce key d ≡ valid n)
  unfolding validate_nonce cleanup_expired_nonces
  validate_nonce-cleanup_expired_nonces d nonce key now later n h =
      rw (law.deleted d now nonce key) (validate_row-unexpired now later _ n h)
