-- ===== src/Voice/Session/Limit.antt =====
-- The limit of a user's sessions.
use farm_exc.Prelude.{
  ℕ, suc, ◌≤◌, String, ◌≡◌, refl, Bool, true, false, Option, none, some, List, [], ◌∷◌, str_eq,
  eq_iff, arith, length, filter, includes, leb, Bool-cases, Option-cases, inl, inr,
}
use farm_exc.Workflow.Json.{Fields}
use farm_exc.Voice.Session.{
  VoiceSession, FeatureContext, SessionRedis, save_session, get_session, get_each, found, create,
  get_user_active_sessions, create_session, add_user_session,
}
use farm_exc.Voice.Session.Store.{IsSessionRedis, get_data-save_session, get_data-add_user_session}

abbrev is_there : Option VoiceSession → Bool
is_there none = false
is_there (some s) = true

-- A count does not see a change of the test at a value that is not counted.
filter_elsewhere :
    (p q : String → Bool) (id : String) (ids : List String)
    → includes str_eq ids id ≡ false
    → ((j : String) → str_eq id j ≡ false → q j ≡ p j)
    → length (filter q ids) ≡ length (filter p ids)
filter_elsewhere p q id [] h same = refl
filter_elsewhere p q id (j ∷ js) h same =
    ground (arith, eq_iff j id, eq_iff id j, same j, filter_elsewhere p q id js)

module _ {Redis : Type 0} (redis : SessionRedis Redis) (law : IsSessionRedis redis) where
  length-found :
      (r : Redis) (ids : List String)
      → length (found (get_each redis r ids))
        ≡ length (filter (λ i. is_there (redis.get_data r i)) ids)
  unfolding get_each get_session
  length-found r [] = refl
  length-found r (id ∷ ids) = elim (Option-cases (redis.get_data r id)) [
    | inl e ↦ rw (e, get_each) (length-found r ids)
    | inr (s, e) ↦ rw (e, get_each) (rw (length-found r ids))
  ]

  module _ (uuid : String) (now : ℕ) (user_id : String) (context : FeatureContext)
      (wallet_address : Option String) (metadata : Option Fields) where
    abbrev opened : Redis → Redis
    opened r =
        add_user_session redis user_id uuid
          (save_session redis (create uuid now user_id context wallet_address metadata) r)

    is_there-opened :
        (r : Redis) (j : String)
        → str_eq uuid j ≡ false
        → is_there (redis.get_data (opened r) j) ≡ is_there (redis.get_data r j)
    unfolding create
    is_there-opened r j h =
        let s = create uuid now user_id context wallet_address metadata in
        rw (
          get_data-add_user_session redis law (save_session redis s r) user_id uuid j,
          get_data-save_session redis law r s j,
          h,
        )

    members-opened :
        (r : Redis)
        → redis.s_members (opened r) user_id
          ≡ redis.s_members
              (redis.s_add
                (redis.set_data r uuid 3600
                  (create uuid now user_id context wallet_address metadata))
                user_id
                uuid)
              user_id
    unfolding add_user_session save_session create
    members-opened r = law.members_expire _ user_id _

    -- One session more, at most.
    active-opened :
        (r : Redis)
        → includes str_eq (redis.s_members r user_id) uuid ≡ false
        → length (get_user_active_sessions redis (opened r) user_id)
          ≤ suc (length (get_user_active_sessions redis r user_id))
    unfolding get_user_active_sessions
    active-opened r fresh =
        let p : String → Bool = λ i. is_there (redis.get_data r i) in
        let q : String → Bool = λ i. is_there (redis.get_data (opened r) i) in
        let s = create uuid now user_id context wallet_address metadata in
        rw
          (
            length-found (opened r) (redis.s_members (opened r) user_id),
            length-found r (redis.s_members r user_id),
            members-opened r,
            ← filter_elsewhere p q uuid (redis.s_members r user_id) fresh (is_there-opened r),
            ← law.members_set r uuid user_id 3600 s,
          )
          (law.members_added (redis.set_data r uuid 3600 s) user_id uuid q)

    -- A user with at most three sessions has at most three after `createSession`, with a UUID that is
    -- not among them yet; and with three or more the call is refused and writes nothing.
    pub create_session_limit :
        (r : Redis)
        → includes str_eq (redis.s_members r user_id) uuid ≡ false
        → let out = create_session redis uuid now user_id context wallet_address metadata r in
          (length (get_user_active_sessions redis r user_id) ≤ 3
            → length (get_user_active_sessions redis out.1 user_id) ≤ 3)
          × (3 ≤ length (get_user_active_sessions redis r user_id) → out ≡ (none, r))
    unfolding create_session
    create_session_limit r fresh =
        let n = length (get_user_active_sessions redis r user_id) in
        elim (Bool-cases (leb 3 n)) [
          | inl full ↦ rw (full, create_session) (λ h. h, λ h. refl)
          | inr room ↦
              rw (room, create_session)
                (λ h. ground (arith, active-opened r fresh), λ h. ground arith)
        ]
