-- ===== src/Auth/Wallet/Primary.antt =====
-- The wallets of a user, and which of them is primary.
use farm_exc.Prelude.{
  ℕ, ◌+◌, ◌≤◌, String, ◌≡◌, ◌≢◌, refl, Bool, true, false, ◌&&◌, none, some, ok, err, List, [], ◌∷◌,
  ◌==◌, ==_iff, ◌⊎◌, arith, Bool-cases, Option-cases, inl, inr,
}
use farm_exc.Repository.{Repository, IsRepository, Among}
use farm_exc.Repository.Rows.{
  AreDistinct, tally, count, count-append, count-map, count-map_none, count_none, count_pos,
  count_removed, count_replaced, count_mono, filter-AreDistinct,
}
use farm_exc.Auth.Wallet.{
  WalletBinding, already_bound, is_owned, has_key, bind_wallet_to_user, unbind_wallet,
  promote_another,
}

abbrev pub is_main : ℕ → WalletBinding → Bool
is_main user_id b = is_owned user_id b && b.is_primary

abbrev bound : ℕ → ℕ → String → ℕ → Bool → WalletBinding
bound new_id now public_key user_id is_primary = record {
  id = new_id;
  public_key = public_key;
  user_id = user_id;
  is_primary = is_primary;
  last_used = some now;
}

module _ {Db : Type 0} (wallets : Repository Db WalletBinding) (rows : Db → List WalletBinding)
    (law : IsRepository wallets rows (λ b. b.id)) where
  -- The number of a user's wallets, and of those that are primary.
  abbrev pub owned : ℕ → Db → ℕ
  owned user_id d = count (is_owned user_id) (rows d)

  abbrev pub primaries : ℕ → Db → ℕ
  primaries user_id d = count (is_main user_id) (rows d)

  promoted :
      (another : WalletBinding) (user_id : ℕ) (d : Db)
      → AreDistinct (λ b. b.id) (rows d)
      → (is_owned user_id another ≡ true) × Among another (rows d)
      → primaries user_id d ≡ 0
      → let d' = wallets.save d (record another { is_primary = true }) in
        (owned user_id d' ≡ owned user_id d) × (primaries user_id d' ≡ 1)
  promoted another user_id d distinct (mine, here) none_main =
      let main : WalletBinding = record another { is_primary = true } in
      let count_with = λ (q : WalletBinding → Bool).
        count_replaced (λ b. b.id) q another main (rows d) distinct here in
      rw (law.saved d main) (
        ground (arith, count_with (is_owned user_id)),
        ground (
          arith,
          count_with (is_main user_id),
          count_pos (is_main user_id) another (rows d) here,
        ),
      )

  promote_another-counts :
      (binding : WalletBinding) (user_id : ℕ) (d : Db)
      → AreDistinct (λ b. b.id) (rows d)
      → 1 ≤ owned user_id d
      → tally (is_main user_id) binding + primaries user_id d ≡ 1
      → is_owned user_id binding ≡ true
      → (owned user_id (promote_another wallets binding user_id d) ≡ owned user_id d)
        × (primaries user_id (promote_another wallets binding user_id d) ≡ 1)
  unfolding promote_another
  promote_another-counts binding user_id d distinct some_left one mine =
      elim (Bool-cases binding.is_primary) [
        | inr secondary ↦ rw secondary (refl, ground arith)
        | inl primary ↦ elim (Option-cases (wallets.find_one d (is_owned user_id))) [
          | inl e ↦
              rw (primary, e, promote_another)
                (absurd (
                  ground (
                    arith,
                    count_none (is_owned user_id) (rows d) (law.not_found d (is_owned user_id) e),
                  )))
          | inr (another, e) ↦
              rw (primary, e, promote_another)
                (promoted another user_id d distinct (law.found d (is_owned user_id) another e)
                  (ground arith))
        ]
      ]

  main_of_owned : (user_id : ℕ) (d : Db) → primaries user_id d ≤ owned user_id d
  main_of_owned user_id d =
      count_mono (is_main user_id) (is_owned user_id) (rows d) (λ b h. ground arith)

  unbind_wallet-found :
      (binding : WalletBinding) (user_id : ℕ) (d : Db)
      → AreDistinct (λ b. b.id) (rows d)
      → is_owned user_id binding ≡ true
      → Among binding (rows d)
      → primaries user_id d ≡ 1
      → (owned user_id d == 1) ≡ false
      → let d' = promote_another wallets binding user_id (wallets.remove d binding) in
        (owned user_id d' + 1 ≡ owned user_id d) × (primaries user_id d' ≡ 1)
  unbind_wallet-found binding user_id d distinct mine here one more =
      let removed = law.removed d binding in
      let count_without =
        λ (q : WalletBinding → Bool). count_removed (λ b. b.id) q binding (rows d) distinct here in
      let left : owned user_id (wallets.remove d binding) + 1 ≡ owned user_id d =
        rw removed (ground (arith, count_without (is_owned user_id))) in
      let main : tally (is_main user_id) binding + primaries user_id (wallets.remove d binding)
          ≡ 1 =
        rw removed (omega (arith, count_without (is_main user_id))) in
      let (kept, after) =
        promote_another-counts binding user_id (wallets.remove d binding)
          (rw removed (filter-AreDistinct (λ b. b.id) _ (rows d) distinct))
          (ground (arith, main_of_owned user_id d)) main mine in
      (omega (arith, kept, left), after)

  -- A user with exactly one primary wallet keeps at least one wallet and exactly one primary wallet,
  -- however `unbindWallet` ends; it takes away exactly one wallet if it returns, and writes nothing if
  -- it throws.
  pub unbind_wallet-OnePrimary :
      (public_key : String) (user_id : ℕ) (d : Db)
      → AreDistinct (λ b. b.id) (rows d)
      → primaries user_id d ≡ 1
      → let r = unbind_wallet wallets public_key user_id d in
        (1 ≤ owned user_id r.1)
        × (primaries user_id r.1 ≡ 1)
        × (((r.0 ≡ ok tt) × (owned user_id r.1 + 1 ≡ owned user_id d)) ⊎ (r.1 ≡ d))
  unfolding unbind_wallet
  unbind_wallet-OnePrimary public_key user_id d distinct one =
      elim (Option-cases (wallets.find_one d (λ b. has_key public_key b && is_owned user_id b))) [
        | inl e ↦ rw (e, unbind_wallet) (omega (arith, main_of_owned user_id d), one, inr refl)
        | inr (b, e) ↦ elim (Bool-cases (wallets.count d (is_owned user_id) == 1)) [
          | inl only ↦
              rw (e, only, unbind_wallet) (omega (arith, main_of_owned user_id d), one, inr refl)
          | inr more ↦
              let (test, here) = law.found d _ b e in
              let (left, main) =
                unbind_wallet-found b user_id d distinct (ground arith) here one
                  (rw (← law.counted d (is_owned user_id)) more) in
              rw (e, more, unbind_wallet)
                (
                  omega (
                    arith,
                    main,
                    left,
                    main_of_owned user_id (promote_another wallets b user_id (wallets.remove d b)),
                  ),
                  main,
                  inl (refl, left),
                )
        ]
      ]

  -- The table after the other wallets of the user have lost their mark.
  abbrev demoted : ℕ → Db → Db
  demoted user_id d = wallets.update d (is_owned user_id) (λ b. record b { is_primary = false })

  demoted-counts :
      (user_id : ℕ) (d : Db)
      → (primaries user_id (demoted user_id d) ≡ 0)
        × ((v : ℕ) → owned v (demoted user_id d) ≡ owned v d)
        × ((v : ℕ) → v ≢ user_id → primaries v (demoted user_id d) ≡ primaries v d)
  demoted-counts user_id d =
      let e = law.updated d (is_owned user_id) (λ b. record b { is_primary = false }) in
      (
        rw e (count-map_none (is_main user_id) _ (rows d) (λ b. ground arith)),
        λ v. rw e (count-map (is_owned v) _ (rows d) (λ b. ground arith)),
        λ v n. rw e (
            count-map (is_main v) _ (rows d)
              (λ b. ground (arith, ==_iff b.user_id v, ==_iff b.user_id user_id))),
      )

  inserted-count :
      (q : WalletBinding → Bool) (d : Db) (b : WalletBinding)
      → count q (rows (wallets.insert d b)) ≡ count q (rows d) + tally q b
  inserted-count q d b = rw (law.inserted d b) (ground (arith, count-append q (rows d) (b ∷ [])))

  -- A wallet that is bound anew: the user has one wallet more, and exactly one primary wallet if the new
  -- one is primary or there was exactly one before; other users' wallets are as they were. A wallet
  -- that is bound already is refused, and nothing is written.
  pub bind_wallet_to_user_cases :
      (new_id now : ℕ) (public_key : String) (user_id : ℕ) (is_primary : Bool) (d : Db)
      → let r = bind_wallet_to_user wallets new_id now public_key user_id is_primary d in
        (wallets.find_one d (has_key public_key) ≡ none
          → (owned user_id r.1 ≡ owned user_id d + 1)
            × ((is_primary ≡ true) ⊎ (primaries user_id d ≡ 1) → primaries user_id r.1 ≡ 1)
            × ((v : ℕ)
                → v ≢ user_id
                → (owned v r.1 ≡ owned v d) × (primaries v r.1 ≡ primaries v d)))
        × (wallets.find_one d (has_key public_key) ≢ none → r ≡ (err already_bound, d))
  unfolding bind_wallet_to_user
  bind_wallet_to_user_cases new_id now public_key user_id is_primary d = (
    λ free. elim (Bool-cases is_primary) [
      | inl primary ↦
          let binding : WalletBinding = bound new_id now public_key user_id true in
          let (none_main, same_owned, same_main) = demoted-counts user_id d in
          rw (free, primary, bind_wallet_to_user)
            (
              ground (
                arith,
                inserted-count (is_owned user_id) (demoted user_id d) binding,
                same_owned user_id,
                ==_iff user_id user_id,
              ),
              λ h. ground (
                arith,
                inserted-count (is_main user_id) (demoted user_id d) binding,
                ==_iff user_id user_id,
              ),
              λ v n. (
                ground (
                  arith,
                  inserted-count (is_owned v) (demoted user_id d) binding,
                  same_owned v,
                  ==_iff user_id v,
                ),
                ground (
                  arith,
                  inserted-count (is_main v) (demoted user_id d) binding,
                  same_main v n,
                  ==_iff user_id v,
                ),
              ),
            )
      | inr secondary ↦
          let binding : WalletBinding = bound new_id now public_key user_id false in
          rw (free, secondary, bind_wallet_to_user)
            (
              ground (arith, inserted-count (is_owned user_id) d binding, ==_iff user_id user_id),
              λ h. ground (arith, inserted-count (is_main user_id) d binding),
              λ v n. (
                ground (arith, inserted-count (is_owned v) d binding, ==_iff user_id v),
                ground (arith, inserted-count (is_main v) d binding, ==_iff user_id v),
              ),
            )
    ],
    λ taken. elim (Option-cases (wallets.find_one d (has_key public_key))) [
      | inl e ↦ absurd (taken e)
      | inr (b, e) ↦ rw (e, bind_wallet_to_user)
    ],
  )
