-- ===== src/Auth/Nonce.antt =====
-- Backend/src/auth/services/nonce.service.ts and Backend/src/auth/entities/login-nonce.entity.ts.
-- The repository and the generator of UUIDs are parameters; times are in milliseconds, and adding
-- five minutes to a date adds 300000 of them.
pub mod Once
use Prim.Native.String.{◌++◌}
use farm_exc.Prelude.{
  ℕ, ◌+◌, ◌*◌, String, ◌≡◌, Bool, true, false, Option, none, some, ltb, if◌then◌else◌,
}

-- The column `createdAt` is the database's.
pub record LoginNonce : Type 0 where
  pub nonce : String
  pub public_key : String
  pub expires_at : ℕ
  pub used : Bool

pub record NonceRepository (Db : Type 0) : Type 0 where
  -- `findOne` by nonce and public key.
  pub find_one : Db → String → String → Option LoginNonce
  pub save : Db → LoginNonce → Db
  -- `update({ nonce }, { used: true })`.
  pub update_used : Db → String → Db
  -- `delete({ expiresAt: LessThan(now) })`.
  pub delete_expired : Db → ℕ → Db

abbrev pub marked : Option LoginNonce → Option LoginNonce
marked none = none
marked (some n) = some (record n { used = true })

abbrev pub unexpired : ℕ → Option LoginNonce → Option LoginNonce
unexpired now none = none
unexpired now (some n) = if ltb n.expires_at now then none else some n

-- The nonce is a unique column: a row that is saved with a nonce is the one found by it, an update by
-- nonce writes that row, and a delete takes the rows that meet its condition.
pub record IsNonceRepository {Db : Type 0} (repo : NonceRepository Db) : Type 0 where
  pub saved :
      (d : Db) (n : LoginNonce) → repo.find_one (repo.save d n) n.nonce n.public_key ≡ some n
  pub updated :
      (d : Db) (nonce key : String)
      → repo.find_one (repo.update_used d nonce) nonce key ≡ marked (repo.find_one d nonce key)
  pub deleted :
      (d : Db) (now : ℕ) (nonce key : String)
      → repo.find_one (repo.delete_expired d now) nonce key
        ≡ unexpired now (repo.find_one d nonce key)

-- The three `UnauthorizedException`s, and success.
pub data Validation : Type 0 where
  valid : LoginNonce → Validation
  invalid_nonce already_used expired : Validation

pub record Challenge : Type 0 where
  pub nonce : String
  pub expires_at : ℕ
  pub message : String

abbrev pub nonce_expiration_minutes : ℕ
nonce_expiration_minutes = 5

-- The guards of `validateNonce`, after the look-up.
abbrev pub validate_row : ℕ → Option LoginNonce → Validation
validate_row now none = invalid_nonce
validate_row now (some n) =
    if n.used then already_used else if ltb n.expires_at now then expired else valid n

module _ {Db : Type 0} (repo : NonceRepository Db) where
  -- With the UUID that the call draws.
  unfoldable pub generate_nonce : String → ℕ → String → Db → Challenge × Db
  generate_nonce uuid now public_key d =
      let expires_at = now + nonce_expiration_minutes * 60000 in
      (
        record {
          nonce = uuid;
          expires_at = expires_at;
          message = "Sign this message to authenticate with Stellara: " ++ uuid;
        },
        repo.save d (record {
          nonce = uuid;
          public_key = public_key;
          expires_at = expires_at;
          used = false;
        }),
      )

  unfoldable pub validate_nonce : ℕ → String → String → Db → Validation
  validate_nonce now nonce public_key d = validate_row now (repo.find_one d nonce public_key)

  unfoldable pub mark_nonce_used : String → Db → Db
  mark_nonce_used nonce d = repo.update_used d nonce

  unfoldable pub cleanup_expired_nonces : ℕ → Db → Db
  cleanup_expired_nonces now d = repo.delete_expired d now
