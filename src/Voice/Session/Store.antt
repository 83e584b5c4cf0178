-- ===== src/Voice/Session/Store.antt =====
-- What the sessions rely on Redis for, and what each write does to the sessions stored.
use farm_exc.Prelude.{
  ℕ, suc, ◌≤◌, String, ◌≡◌, ◌∙◌, Bool, true, false, none, some, length, filter, includes, str_eq,
  eq_iff, if◌then◌else◌, arith, ◌⊎◌, Option-cases, Bool-cases, inl, inr,
}
use farm_exc.Voice.Session.{
  VoiceSession, SessionRedis, save_session, terminate_session, add_user_session, get_session,
  clear_user_active_session_if_matches,
}

-- SETEX and DEL act on one key; the set of a user's sessions is apart from the sessions' data, and
-- SADD adds at most one member to it. SCAN lists every key that is there.
pub record IsSessionRedis {Redis : Type 0} (redis : SessionRedis Redis) : Type 0 where
  pub data_set :
      (r : Redis) (id j : String) (n : ℕ) (s : VoiceSession)
      → redis.get_data (redis.set_data r id n s) j
        ≡ (if str_eq id j then some s else redis.get_data r j)
  pub data_deleted :
      (r : Redis) (id j : String)
      → redis.get_data (redis.del_data r id) j ≡ (if str_eq id j then none else redis.get_data r j)
  pub data_added :
      (r : Redis) (u id j : String) → redis.get_data (redis.s_add r u id) j ≡ redis.get_data r j
  pub data_removed :
      (r : Redis) (u id j : String) → redis.get_data (redis.s_rem r u id) j ≡ redis.get_data r j
  pub data_expire :
      (r : Redis) (u j : String) (n : ℕ)
      → redis.get_data (redis.expire_members r u n) j ≡ redis.get_data r j
  pub data_pointer :
      (r : Redis) (u j : String) → redis.get_data (redis.del_pointer r u) j ≡ redis.get_data r j
  pub members_set :
      (r : Redis) (id u : String) (n : ℕ) (s : VoiceSession)
      → redis.s_members (redis.set_data r id n s) u ≡ redis.s_members r u
  pub members_expire :
      (r : Redis) (u : String) (n : ℕ)
      → redis.s_members (redis.expire_members r u n) u ≡ redis.s_members r u
  pub members_added :
      (r : Redis) (u id : String) (p : String → Bool)
      → length (filter p (redis.s_members (redis.s_add r u id) u))
        ≤ suc (length (filter p (redis.s_members r u)))
  pub scanned :
      (r : Redis) (id : String) (s : VoiceSession)
      → redis.get_data r id ≡ some s
      → includes str_eq (redis.scan_data r) id ≡ true

module _ {Redis : Type 0} (redis : SessionRedis Redis) (law : IsSessionRedis redis) where
  pub get_data-save_session :
      (r : Redis) (s : VoiceSession) (j : String)
      → redis.get_data (save_session redis s r) j
        ≡ (if str_eq s.id j then some s else redis.get_data r j)
  unfolding save_session
  get_data-save_session r s j = law.data_set r s.id j s.ttl s

  pub get_data-add_user_session :
      (r : Redis) (u id j : String)
      → redis.get_data (add_user_session redis u id r) j ≡ redis.get_data r j
  unfolding add_user_session
  get_data-add_user_session r u id j = law.data_expire _ u j _ ∙ law.data_added r u id j

  get_data-clear_user_active_session_if_matches :
      (r : Redis) (u id j : String)
      → redis.get_data (clear_user_active_session_if_matches redis u id r) j ≡ redis.get_data r j
  unfolding clear_user_active_session_if_matches
  get_data-clear_user_active_session_if_matches r u id j = ground (arith, law.data_pointer r u j)

  -- `terminateSession` takes the session away, and no other session.
  pub get_data-terminate_session :
      (r : Redis) (id j : String)
      → redis.get_data (terminate_session redis id r).1 j
        ≡ (if str_eq id j then none else redis.get_data r j)
  unfolding terminate_session get_session
  get_data-terminate_session r id j = elim (Option-cases (redis.get_data r id)) [
    | inl e ↦ rw (e, terminate_session) (gone (Bool-cases (str_eq id j)) e)
    | inr (s, e) ↦
        rw (e, terminate_session)
          (get_data-clear_user_active_session_if_matches _ s.user_id id j
            ∙ law.data_removed (redis.del_data r id) s.user_id id j
            ∙ law.data_deleted r id j)
  ]
    where
      gone :
          (str_eq id j ≡ true) ⊎ (str_eq id j ≡ false)
          → redis.get_data r id ≡ none
          → redis.get_data r j ≡ (if str_eq id j then none else redis.get_data r j)
      gone (inl h) e = rw h (rw (← (eq_iff id j).0 h) e)
      gone (inr h) e = rw h
