-- ===== src/Auth/Jwt/Rotation.antt =====
-- Refresh tokens that were used or revoked.
use farm_exc.Prelude.{
  ℕ, ◌+◌, ◌≤◌, String, ◌≡◌, refl, sym, ap, ◌∙◌, inl, inr, true, false, Option, none, some, ok, err,
  List, [], ◌∷◌, ◌++◌, map, All, ◌==◌, ==_iff, str_eq, eq_iff, if◌then◌else◌, arith, Bool-cases,
  Option-cases,
}
use farm_exc.Repository.{Repository, IsRepository, Among}
use farm_exc.Repository.Rows.{All-Among}
use farm_exc.Audit.{AuditLog}
use farm_exc.Auth.{User}
use farm_exc.Auth.Jwt.{
  RefreshToken, JwtPayload, JwtError, Stores, has_token, live_token_of, revoke_at,
  new_refresh_token, refusal, rotate, refresh_access_token, revoke_all_user_refresh_tokens,
  generate_refresh_token, revoke_refresh_token, refresh_token_revoked,
}

-- Every row with the token has been revoked.
abbrev pub IsSpent : String → List RefreshToken → Type 0
IsSpent token rows = All (λ t. has_token token t ≡ true → t.revoked ≡ true) rows

-- The column `token` is unique.
abbrev pub AreUnique : List RefreshToken → Type 0
AreUnique rows =
    (x y : RefreshToken) → Among x rows → Among y rows → x.token ≡ y.token → x.id ≡ y.id

revoked-IsSpent :
    (token : String) (id now : ℕ) (rows : List RefreshToken)
    → ((y : RefreshToken) → Among y rows → has_token token y ≡ true → y.id ≡ id)
    → IsSpent token (map (λ t. if t.id == id then revoke_at now t else t) rows)
revoked-IsSpent token id now [] same = tt
revoked-IsSpent token id now (y ∷ ys) same = (
  λ h. elim (Bool-cases (y.id == id)) [
    | inl e ↦ rw e
    | inr e ↦ ground (arith, rw e at h, ==_iff y.id id, same y (inl refl))
  ],
  revoked-IsSpent token id now ys (λ z m. same z (inr m)),
)

append-IsSpent :
    (token : String) (rows : List RefreshToken) (new : RefreshToken)
    → IsSpent token rows
    → has_token token new ≡ false
    → IsSpent token (rows ++ new ∷ [])
append-IsSpent token [] new h n = (λ e. ground arith, tt)
append-IsSpent token (y ∷ ys) new (h, hs) n = (h, append-IsSpent token ys new hs n)

live-IsSpent :
    (token : String) (user_id now : ℕ) (rows : List RefreshToken)
    → All (λ t. has_token token t ≡ true → (t.user_id == user_id) ≡ true) rows
    → IsSpent token (map (λ t. if live_token_of user_id t then revoke_at now t else t) rows)
live-IsSpent token user_id now [] mine = tt
live-IsSpent token user_id now (y ∷ ys) (mine, rest) = (
  λ h. elim (Bool-cases (live_token_of user_id y)) [
    | inl e ↦ rw e
    | inr e ↦ ground (arith, rw e at h)
  ],
  live-IsSpent token user_id now ys rest,
)

-- The rows with a token that no row had are the one that was added with it.
only_new :
    (uuid : String) (id now : ℕ) (rows : List RefreshToken) (new : RefreshToken)
    → All (λ t. has_token uuid t ≡ false) rows
    → All
        (λ t. has_token uuid t ≡ true → t ≡ new)
        (map (λ t. if t.id == id then revoke_at now t else t) rows ++ new ∷ [])
only_new uuid id now [] new h = (λ e. refl, tt)
only_new uuid id now (y ∷ ys) new (h, hs) = (
  λ e. elim (Bool-cases (y.id == id)) [
    | inl same ↦ absurd (ground (arith, rw same at e))
    | inr other ↦ absurd (ground (arith, rw other at e))
  ],
  only_new uuid id now ys new hs,
)

not_last :
    (P : RefreshToken → Type 0) (rows : List RefreshToken) (new : RefreshToken)
    → All P (rows ++ new ∷ [])
    → P new
not_last P [] new h = h.0
not_last P (y ∷ ys) new h = not_last P ys new h.1

module _ {Tokens Logs : Type 0} (repo : Repository Tokens RefreshToken)
    (rows : Tokens → List RefreshToken) (law : IsRepository repo rows (λ t. t.id))
    (audit : Repository Logs AuditLog) (load : ℕ → Option User) (sign : JwtPayload → String) where
  refused-IsSpent :
      (now later : ℕ) (uuid : String) (new_id : ℕ) (token : String) (s : Stores Tokens Logs)
      → IsSpent token (rows s.tokens)
      → (e : JwtError) × (refresh_access_token repo audit load sign now later uuid new_id token s
          ≡ (err e, s))
  unfolding refresh_access_token refusal
  refused-IsSpent now later uuid new_id token s spent =
      elim (Option-cases (repo.find_one s.tokens (has_token token))) [
        | inl e ↦ rw (e, refresh_access_token) (_, refl)
        | inr (t, e) ↦
            let (has, here) = law.found s.tokens (has_token token) t e in
            let gone =
              All-Among (λ t. has_token token t ≡ true → t.revoked ≡ true) t (rows s.tokens) spent
                here has in
            rw (e, gone, refresh_access_token) (refresh_token_revoked, refl)
      ]

  refusal-after :
      (now now' : ℕ) (t new : RefreshToken)
      → refusal repo audit load sign now t ≡ none
      → new.user_id ≡ t.user_id
      → new.revoked ≡ false
      → now' ≤ new.expires_at
      → refusal repo audit load sign now' new ≡ none
  unfolding refusal
  refusal-after now now' t new passed same live early = elim (Option-cases (load t.user_id)) [
    | inl e ↦ absurd (ground (arith, rw (e, refusal) at passed))
    | inr (u, e) ↦ rw (same, e, live, refusal) (ground (arith, rw (e, refusal) at passed))
  ]

  module _ (now later : ℕ) (uuid : String) (new_id : ℕ) (s : Stores Tokens Logs)
      (t : RefreshToken) where
    abbrev rotated : Stores Tokens Logs
    rotated = (rotate repo audit load sign later uuid new_id t s).1

    abbrev fresh_token : RefreshToken
    fresh_token = new_refresh_token uuid new_id later t.user_id

    rows-rotated :
        rows rotated.tokens
        ≡ map (λ r. if r.id == t.id then revoke_at later r else r) (rows s.tokens)
          ++ fresh_token ∷ []
    unfolding rotate generate_refresh_token revoke_refresh_token
    rows-rotated =
        law.inserted _ fresh_token ∙ ap (λ rs. rs ++ fresh_token ∷ []) (law.updated s.tokens _ _)

    uuid_differs :
        (token : String)
        → Among t (rows s.tokens)
        → has_token token t ≡ true
        → All (λ r. has_token uuid r ≡ false) (rows s.tokens)
        → str_eq uuid token ≡ false
    uuid_differs token here has fresh = ground (
      arith,
      All-Among (λ r. has_token uuid r ≡ false) t (rows s.tokens) fresh here,
      eq_iff uuid token,
      eq_iff t.token token,
      eq_iff t.token uuid,
    )

    rotated-IsSpent :
        (token : String)
        → AreUnique (rows s.tokens)
        → All (λ r. has_token uuid r ≡ false) (rows s.tokens)
        → Among t (rows s.tokens)
        → has_token token t ≡ true
        → IsSpent token (rows rotated.tokens)
    rotated-IsSpent token unique fresh here has = rw rows-rotated (
        append-IsSpent token _ fresh_token
          (revoked-IsSpent token t.id later (rows s.tokens) (λ y m h.
            unique y t m here ((eq_iff y.token token).0 h ∙ sym ((eq_iff t.token token).0 has))))
          (uuid_differs token here has fresh))

    rotated-found :
        All (λ r. has_token uuid r ≡ false) (rows s.tokens)
        → repo.find_one rotated.tokens (has_token uuid) ≡ some fresh_token
    rotated-found fresh = elim (Option-cases (repo.find_one rotated.tokens (has_token uuid))) [
      | inl e ↦
          let absent =
            not_last (λ r. has_token uuid r ≡ false)
              (map (λ r. if r.id == t.id then revoke_at later r else r) (rows s.tokens)) fresh_token
              (rw (← rows-rotated) (law.not_found rotated.tokens (has_token uuid) e)) in
          absurd (ground (arith, absent, eq_iff uuid uuid))
      | inr (x, e) ↦
          let (has, here) = law.found rotated.tokens (has_token uuid) x e in
          e
          ∙ ap some (
              All-Among (λ r. has_token uuid r ≡ true → r ≡ fresh_token) x (rows rotated.tokens)
                (rw rows-rotated (only_new uuid t.id later (rows s.tokens) fresh_token fresh)) here
                has)
    ]

  refresh_access_token-rotate :
      (now later : ℕ) (uuid : String) (new_id : ℕ) (token : String) (s : Stores Tokens Logs)
      (t : RefreshToken)
      → repo.find_one s.tokens (has_token token) ≡ some t
      → refusal repo audit load sign now t ≡ none
      → refresh_access_token repo audit load sign now later uuid new_id token s ≡ (
        ok (rotate repo audit load sign later uuid new_id t s).0,
        rotated now later uuid new_id s t,
      )
  unfolding refresh_access_token
  refresh_access_token-rotate now later uuid new_id token s t e passed =
      rw (e, passed, refresh_access_token)

  -- What a successful refresh promises of the tables after it, and of the new token.
  abbrev pub Rotates : ℕ → String → String → Stores Tokens Logs → Type 0
  Rotates later token uuid s' =
      ((now' later' : ℕ) (uuid' : String) (id' : ℕ)
        → (e : JwtError) × (refresh_access_token repo audit load sign now' later' uuid' id' token s'
            ≡ (err e, s')))
      × ((now' later' : ℕ) (uuid' : String) (id' : ℕ)
          → now' ≤ later + 604800000
          → (pair : String × String) × ((refresh_access_token repo audit load sign now' later' uuid'
                id' uuid s').0
              ≡ ok pair))

  rotate-Rotates :
      (now later : ℕ) (uuid : String) (new_id : ℕ) (token : String) (s : Stores Tokens Logs)
      (t : RefreshToken)
      → AreUnique (rows s.tokens)
      → All (λ r. has_token uuid r ≡ false) (rows s.tokens)
      → repo.find_one s.tokens (has_token token) ≡ some t
      → refusal repo audit load sign now t ≡ none
      → Rotates later token uuid (rotated now later uuid new_id s t)
  rotate-Rotates now later uuid new_id token s t unique fresh e passed =
      let (has, here) = law.found s.tokens (has_token token) t e in
      (
        λ now' later' uuid' id'.
            refused-IsSpent now' later' uuid' id' token _
              (rotated-IsSpent now later uuid new_id s t token unique fresh here has),
        λ now' later' uuid' id' early. (
          _,
          ap (λ o. o.0)
              (refresh_access_token-rotate now' later' uuid' id' uuid
                (rotated now later uuid new_id s t) (fresh_token now later uuid new_id s t)
                (rotated-found now later uuid new_id s t fresh)
                (refusal-after now now' t (fresh_token now later uuid new_id s t) passed refl refl
                  early)),
        ),
      )

  -- A refresh that succeeds, with a new token that no row has and tokens unique, ends the old token: it
  -- is refused from then on, at any time, and nothing is written. The new token can be used in turn up
  -- to seven days later.
  pub refresh_access_token-Rotates :
      (now later : ℕ) (uuid : String) (new_id : ℕ) (token : String) (s : Stores Tokens Logs)
      (pair : String × String)
      → AreUnique (rows s.tokens)
      → All (λ r. has_token uuid r ≡ false) (rows s.tokens)
      → (refresh_access_token repo audit load sign now later uuid new_id token s).0 ≡ ok pair
      → Rotates later token uuid
          (refresh_access_token repo audit load sign now later uuid new_id token s).1
  unfolding refresh_access_token
  refresh_access_token-Rotates now later uuid new_id token s pair unique fresh success =
      elim (Option-cases (repo.find_one s.tokens (has_token token))) [
        | inl e ↦ absurd (ground (arith, rw (e, refresh_access_token) at success))
        | inr (t, e) ↦ elim (Option-cases (refusal repo audit load sign now t)) [
          | inr (x, no_way) ↦
              absurd (ground (arith, rw (e, no_way, refresh_access_token) at success))
          | inl passed ↦
              rw (refresh_access_token-rotate now later uuid new_id token s t e passed)
                (rotate-Rotates now later uuid new_id token s t unique fresh e passed)
        ]
      ]

  -- After `revokeAllUserRefreshTokens` a token is refused, at any time, if the rows that have it are the
  -- user's, and nothing is written.
  pub revoke_all_user_refresh_tokens-IsSpent :
      (revoked_at user_id now later : ℕ) (uuid : String) (new_id : ℕ) (token : String)
      (s : Stores Tokens Logs)
      → All (λ t. has_token token t ≡ true → (t.user_id == user_id) ≡ true) (rows s.tokens)
      → let s' = revoke_all_user_refresh_tokens repo audit load sign revoked_at user_id s in
        (e : JwtError) × (refresh_access_token repo audit load sign now later uuid new_id token s'
          ≡ (err e, s'))
  unfolding revoke_all_user_refresh_tokens
  revoke_all_user_refresh_tokens-IsSpent revoked_at user_id now later uuid new_id token s mine =
      refused-IsSpent now later uuid new_id token _ (
        rw (law.updated s.tokens (live_token_of user_id) (revoke_at revoked_at))
          (live-IsSpent token user_id revoked_at (rows s.tokens) mine))
