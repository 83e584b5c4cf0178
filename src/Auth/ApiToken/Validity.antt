-- ===== src/Auth/ApiToken/Validity.antt =====
-- Which tokens are accepted, and what revoking does.
use farm_exc.Prelude.{
  ℕ, String, ◌≡◌, ◌≢◌, Bool, true, false, not, ◌&&◌, Option, some, ok, List, [], ◌∷◌, map, All,
  ◌==◌, ==_iff, if◌then◌else◌, arith, Bool-cases, Option-cases, inl, inr,
}
use farm_exc.Repository.{Repository, IsRepository, Among}
use farm_exc.Repository.Rows.{All-Among}
use farm_exc.Auth.{User}
use farm_exc.Auth.ApiToken.{
  ApiToken, Bearer, is_expired, live_of, accept, validate_each, validate_api_token,
  revoke_api_token, revoke_all_user_api_tokens,
}

module _ (load : ℕ → Option User) (compare : String → String → Bool) (now : ℕ)
    (plain : String) where
  -- The row stands for the bearer, and may.
  abbrev pub Vouches : Bearer → ApiToken → Type 0
  Vouches b t =
      (t.revoked ≡ false)
      × (compare plain t.token ≡ true)
      × (is_expired now t.expires_at ≡ false)
      × ((u : User) × (load t.user_id ≡ some u) × (u.is_active ≡ true))
      × (b.user_id ≡ t.user_id)
      × (b.role ≡ t.role)
      × (b.token_id ≡ t.id)

  module _ {Tokens : Type 0} (repo : Repository Tokens ApiToken) (rows : Tokens → List ApiToken)
      (law : IsRepository repo rows (λ t. t.id)) where
    accept-Vouches :
        (t : ApiToken) (d : Tokens) (b : Bearer)
        → t.revoked ≡ false
        → compare plain t.token ≡ true
        → (accept repo load now t d).0 ≡ ok b
        → Vouches b t
    unfolding accept
    accept-Vouches t d b live match e = elim (Bool-cases (is_expired now t.expires_at)) [
      | inl old ↦ absurd (ground (arith, rw (old, accept) at e))
      | inr young ↦ elim (Option-cases (load t.user_id)) [
        | inl none_there ↦ absurd (ground (arith, rw (young, none_there, accept) at e))
        | inr (u, there) ↦ elim (Bool-cases u.is_active) [
          | inr idle ↦ absurd (ground (arith, rw (young, there, idle, accept) at e))
          | inl active ↦
              let got = rw (young, there, active, accept) at e in
              (
                live,
                match,
                young,
                (u, there, active),
                ground (arith, got),
                ground (arith, got),
                ground (arith, got),
              )
        ]
      ]
    ]

    validate_each-Vouches :
        (ts : List ApiToken) (d : Tokens) (b : Bearer)
        → All (λ t. ((not t.revoked) ≡ true) × Among t (rows d)) ts
        → (validate_each repo load compare now plain ts d).0 ≡ ok b
        → (t : ApiToken) × Among t (rows d) × Vouches b t
    unfolding validate_each
    validate_each-Vouches [] d b h e = absurd (ground (arith, e))
    validate_each-Vouches (t ∷ ts) d b ((live, here), hs) e =
        elim (Bool-cases (compare plain t.token)) [
          | inl match ↦ (t, here, accept-Vouches t d b (ground arith) match (rw match at e))
          | inr other ↦ validate_each-Vouches ts d b hs (rw other at e)
        ]

    -- Whoever is accepted stands in a row that is not revoked, whose hash fits the token, which has not
    -- expired and whose user is active; the id, the role and the user given are that row's.
    pub validate_api_token-Vouches :
        (d : Tokens) (b : Bearer)
        → (validate_api_token repo load compare now plain d).0 ≡ ok b
        → (t : ApiToken) × Among t (rows d) × Vouches b t
    unfolding validate_api_token
    validate_api_token-Vouches d b e =
        validate_each-Vouches (repo.find d (λ t. not t.revoked)) d b
          (law.listed d (λ t. not t.revoked)) e

    not_revoked :
        (p : ApiToken → Bool) (xs : List ApiToken)
        → All
            (λ t. t.revoked ≡ false → p t ≡ false)
            (map (λ t. if p t then record t { revoked = true } else t) xs)
    not_revoked p [] = tt
    not_revoked p (x ∷ xs) = (
      λ h. elim (Bool-cases (p x)) [
        | inl e ↦ absurd (ground (arith, rw e at h))
        | inr e ↦ rw (e, e)
      ],
      not_revoked p xs,
    )

    bearer-not_revoked :
        (p : ApiToken → Bool) (d : Tokens) (b : Bearer)
        → let d' = repo.update d p (λ t. record t { revoked = true }) in
          (validate_api_token repo load compare now plain d').0 ≡ ok b
          → (t : ApiToken) × (p t ≡ false) × Vouches b t
    bearer-not_revoked p d b e =
        let d' = repo.update d p (λ t. record t { revoked = true }) in
        let (t, here, good) = validate_api_token-Vouches d' b e in
        (
          t,
          All-Among (λ t. t.revoked ≡ false → p t ≡ false) t (rows d')
              (rw (law.updated d p (λ t. record t { revoked = true })) (not_revoked p (rows d)))
              here good.0,
          good,
        )

    -- A token that was revoked is never accepted again: after `revokeApiToken` has returned, whoever is
    -- accepted has another token, and after `revokeAllUserApiTokens`, is another user.
    pub validate_api_token-revoked :
        (id user_id : ℕ) (d : Tokens) (b : Bearer)
        → ((revoke_api_token repo id user_id d).0 ≡ ok tt
            → (validate_api_token repo load compare now plain
                (revoke_api_token repo id user_id d).1).0
              ≡ ok b
            → b.token_id ≢ id)
          × ((validate_api_token repo load compare now plain
                  (revoke_all_user_api_tokens repo user_id d)).0
                ≡ ok b
              → b.user_id ≢ user_id)
    unfolding revoke_api_token revoke_all_user_api_tokens
    validate_api_token-revoked id user_id d b = (
      λ done e. elim (Option-cases (repo.find_one d (λ t. t.id == id && t.user_id == user_id))) [
        | inl lost ↦ absurd (ground (arith, rw (lost, revoke_api_token) at done))
        | inr (x, got) ↦
            let (t, other, good) =
              bearer-not_revoked (λ t. t.id == id) d b (rw (got, revoke_api_token) at e) in
            λ same. ground (arith, other, ==_iff t.id id, good.6)
      ],
      λ e.
          let (t, other, good) = bearer-not_revoked (live_of user_id) d b e in
          λ same. ground (arith, other, good.0, ==_iff t.user_id user_id, good.4),
    )
