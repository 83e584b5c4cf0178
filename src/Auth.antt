-- ===== src/Auth.antt =====
-- Services of Backend/src/auth/services, and the entity that they share,
-- Backend/src/auth/entities/user.entity.ts. Ids are numbers.
pub mod Nonce
pub mod RateLimit
pub mod Wallet
pub mod Jwt
pub mod ApiToken
pub mod Login
pub mod Guards
use farm_exc.Prelude.{ℕ, String, Option, Bool}

-- The columns createdAt and updatedAt are the database's.
pub record User : Type 0 where
  pub id : ℕ
  pub email : Option String
  pub username : Option String
  pub is_active : Bool
