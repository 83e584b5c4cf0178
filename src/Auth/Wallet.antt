-- ===== src/Auth/Wallet.antt =====
-- Backend/src/auth/services/wallet.service.ts and Backend/src/auth/entities/wallet-binding.entity.ts.
-- The ids that the database gives to new rows and the time are arguments; decoding and verifying are
-- functions of libraries, which may throw.
pub mod Primary
use farm_exc.Prelude.{
  ℕ, String, Bool, true, false, ◌&&◌, Option, none, some, Result, ok, err, ◌==◌, str_eq,
  if◌then◌else◌,
}
use farm_exc.Repository.{Repository}
use farm_exc.Auth.{User}

pub record WalletBinding : Type 0 where
  pub id : ℕ
  pub public_key : String
  pub user_id : ℕ
  pub is_primary : Bool
  pub last_used : Option ℕ

pub data WalletError : Type 0 where
  already_bound not_owned only_wallet : WalletError

abbrev pub has_key : String → WalletBinding → Bool
has_key public_key b = str_eq b.public_key public_key

abbrev pub is_owned : ℕ → WalletBinding → Bool
is_owned user_id b = b.user_id == user_id

-- A throw is caught and answers `false`.
abbrev pub or_invalid : Option Bool → Bool
or_invalid none = false
or_invalid (some b) = b

abbrev pub and_decode : {A B : Type 0} → Option A → (A → Option B) → Option B
and_decode none f = none
and_decode (some a) f = f a

unfoldable pub verify_signature :
    {Bytes : Type 0}
    → (String → Option Bytes)
    → (String → Bytes)
    → (String → Bytes)
    → (Bytes → Bytes → Bytes → Option Bool)
    → String
    → String
    → String
    → Bool
verify_signature decode_public_key of_base64 of_utf8 verify public_key signature message =
    or_invalid (
      and_decode (decode_public_key public_key)
        (λ key. verify (of_utf8 message) (of_base64 signature) key))

module _ {Db : Type 0} (wallets : Repository Db WalletBinding) where
  -- The relation loads the row of the binding's user, `load`.
  unfoldable pub find_user_by_wallet : (ℕ → Option User) → String → Db → Option User
  find_user_by_wallet load public_key d = elim (wallets.find_one d (has_key public_key)) [
    | none ↦ none
    | some b ↦ load b.user_id
  ]

  unfoldable pub bind_wallet_to_user :
      ℕ → ℕ → String → ℕ → Bool → Db → Result WalletError WalletBinding × Db
  bind_wallet_to_user new_id now public_key user_id is_primary d =
      elim (wallets.find_one d (has_key public_key)) [
        | some _ ↦ (err already_bound, d)
        | none ↦
            let d' =
              if is_primary
              then wallets.update d (is_owned user_id) (λ b. record b { is_primary = false })
              else d in
            let binding : WalletBinding = record {
              id = new_id;
              public_key = public_key;
              user_id = user_id;
              is_primary = is_primary;
              last_used = some now;
            } in
            (ok binding, wallets.insert d' binding)
      ]

  -- Another wallet becomes primary in the place of the one that was removed.
  unfoldable pub promote_another : WalletBinding → ℕ → Db → Db
  promote_another binding user_id d =
      if binding.is_primary
      then elim (wallets.find_one d (is_owned user_id)) [
        | none ↦ d
        | some another ↦ wallets.save d (record another { is_primary = true })
      ]
      else d

  unfoldable pub unbind_wallet : String → ℕ → Db → Result WalletError (Unit {0}) × Db
  unfolding promote_another
  unbind_wallet public_key user_id d =
      elim (wallets.find_one d (λ b. has_key public_key b && is_owned user_id b)) [
        | none ↦ (err not_owned, d)
        | some binding ↦
            if wallets.count d (is_owned user_id) == 1
            then (err only_wallet, d)
            else (ok tt, promote_another binding user_id (wallets.remove d binding))
      ]

  unfoldable pub update_last_used : ℕ → String → Db → Db
  update_last_used now public_key d =
      wallets.update d (has_key public_key) (λ b. record b { last_used = some now })

  unfoldable pub create_user_with_wallet :
      {Users : Type 0}
      → Repository Users User
      → ℕ
      → ℕ
      → ℕ
      → String
      → Users × Db
      → Result WalletError User × (Users × Db)
  unfolding bind_wallet_to_user
  create_user_with_wallet users new_user new_id now public_key (u, d) =
      let user : User = record { id = new_user; email = none; username = none; is_active = true } in
      let (out, d') = bind_wallet_to_user new_id now public_key new_user true d in
      elim out [
        | err e ↦ (err e, (users.insert u user, d'))
        | ok _ ↦ (ok user, (users.insert u user, d'))
      ]
