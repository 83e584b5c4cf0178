-- ===== src/Voice/Session/Cleanup.antt =====
-- What the two clean-ups leave.
use farm_exc.Prelude.{
  ℕ, String, ◌≡◌, refl, sym, ◌∙◌, Bool, true, false, Option, none, some, List, [], ◌∷◌, str_eq,
  eq_iff, arith, includes, Bool-cases, Option-cases, inl, inr, if◌then◌else◌, ◌||◌, ◌≢◌, ◌⊎◌, ◌+◌,
  ◌<◌, ◌≤◌, not, ◌&&◌, ltb, ◌-◌,
}
use farm_exc.Voice.{ConversationState, same_conversation}
use farm_exc.Voice.Session.{
  last_ping, VoiceSession, SessionRedis, terminate_session, clean_each, meets, is_stale, is_expired,
  cleanup_stale_sessions, cleanup_expired_sessions,
}
use farm_exc.Voice.Session.Store.{IsSessionRedis, get_data-terminate_session}

-- A row that a clean-up with the test has passed.
abbrev pub drop : (VoiceSession → Bool) → Option VoiceSession → Option VoiceSession
drop p none = none
drop p (some s) = if p s then none else some s

drop_met : (p : VoiceSession → Bool) (o : Option VoiceSession) → meets p o ≡ true → drop p o ≡ none
drop_met p none h = refl
drop_met p (some s) h = ground arith

drop_unmet : (p : VoiceSession → Bool) (o : Option VoiceSession) → meets p o ≡ false → drop p o ≡ o
drop_unmet p none h = refl
drop_unmet p (some s) h = ground arith

-- A row after the rest of a loop whose head took it away, or left it.
drop-taken :
    (b c : Bool) (p : VoiceSession → Bool) (o : Option VoiceSession)
    → (b ≡ true → drop p o ≡ none)
    → (if c then drop p (if b then none else o) else (if b then none else o))
      ≡ (if b || c then drop p o else o)
drop-taken true true p o h = sym (h refl)
drop-taken true false p o h = sym (h refl)
drop-taken false c p o h = refl

drop-left :
    (b c : Bool) (p : VoiceSession → Bool) (o : Option VoiceSession)
    → (b ≡ true → drop p o ≡ o)
    → (if c then drop p o else o) ≡ (if b || c then drop p o else o)
drop-left true true p o h = refl
drop-left true false p o h = sym (h refl)
drop-left false c p o h = refl

-- The time of the last ping, or of the creation where there was no ping.
abbrev pub IsSince : VoiceSession → ℕ → Type 0
IsSince s since = (s.last_ping_at ≡ some since) ⊎ ((s.last_ping_at ≡ none) × (s.created_at ≡ since))

last_ping-IsSince : (s : VoiceSession) (since : ℕ) → IsSince s since → last_ping s ≡ since
last_ping-IsSince s since (inl e) = rw e refl
last_ping-IsSince s since (inr (e, c)) = rw e c

is_stale-true :
    (now since : ℕ) (s : VoiceSession)
    → IsSince s since
    → s.state ≢ ConversationState.terminated
    → s.state ≢ ConversationState.stale
    → since + 60000 < now
    → is_stale now s ≡ true
unfolding is_stale
is_stale-true now since s h t u old =
    rw (last_ping-IsSince s since h) (marks s.state now since t u old)
  where
    marks :
        (c : ConversationState) (now since : ℕ)
        → c ≢ ConversationState.terminated
        → c ≢ ConversationState.stale
        → since + 60000 < now
        → (not (
              same_conversation c ConversationState.terminated
              || same_conversation c ConversationState.stale)
            && ltb 60000 (now - since))
          ≡ true
    marks c now since t u old = ground arith

is_stale-false :
    (now since : ℕ) (s : VoiceSession)
    → IsSince s since
    → (s.state ≡ ConversationState.terminated)
      ⊎ (s.state ≡ ConversationState.stale)
      ⊎ (now ≤ since + 60000)
    → is_stale now s ≡ false
unfolding is_stale
is_stale-false now since s h k = rw (last_ping-IsSince s since h) (marks s.state now since k)
  where
    marks :
        (c : ConversationState) (now since : ℕ)
        → (c ≡ ConversationState.terminated) ⊎ (c ≡ ConversationState.stale) ⊎ (now ≤ since + 60000)
        → (not (
              same_conversation c ConversationState.terminated
              || same_conversation c ConversationState.stale)
            && ltb 60000 (now - since))
          ≡ false
    marks c now since k = ground arith

module _ {Redis : Type 0} (redis : SessionRedis Redis) (law : IsSessionRedis redis) where
  get_data-clean_each :
      (p : VoiceSession → Bool) (ids : List String) (r : Redis) (j : String)
      → redis.get_data (clean_each redis p ids r).1 j
        ≡ (if includes str_eq ids j then drop p (redis.get_data r j) else redis.get_data r j)
  unfolding clean_each
  get_data-clean_each p [] r j = refl
  get_data-clean_each p (id ∷ ids) r j = elim (Bool-cases (meets p (redis.get_data r id))) [
    | inl h ↦
        rw (h, clean_each)
          (get_data-clean_each p ids (terminate_session redis id r).1 j
            ∙ rw (get_data-terminate_session redis law r id j) (
                drop-taken (str_eq id j) (includes str_eq ids j) p (redis.get_data r j)
                  (λ e. rw (← (eq_iff id j).0 e) (drop_met p _ h))))
    | inr h ↦
        rw (h, clean_each)
          (get_data-clean_each p ids r j
            ∙ drop-left (str_eq id j) (includes str_eq ids j) p (redis.get_data r j)
                (λ e. rw (← (eq_iff id j).0 e) (drop_unmet p _ h)))
  ]

  get_data-cleaned :
      (p : VoiceSession → Bool) (r : Redis) (j : String)
      → redis.get_data (clean_each redis p (redis.scan_data r) r).1 j ≡ drop p (redis.get_data r j)
  get_data-cleaned p r j = elim (Option-cases (redis.get_data r j)) [
    | inl e ↦
        get_data-clean_each p (redis.scan_data r) r j
        ∙ rw e (if_same (includes str_eq (redis.scan_data r) j))
    | inr (s, e) ↦ get_data-clean_each p (redis.scan_data r) r j ∙ rw (law.scanned r j s e)
  ]
    where
      if_same : (b : Bool) → (if b then drop p none else none) ≡ none
      if_same true = refl
      if_same false = refl

  -- A stored session whose last ping, or for want of one whose creation, is more than a minute ago is
  -- gone after `cleanupStaleSessions`, unless it is marked stale or terminated. If it is marked so, or
  -- not that old, it is stored as it was. Nothing is stored that was not before.
  pub get_data-cleanup_stale_sessions :
      (now : ℕ) (r : Redis) (j : String) (s : VoiceSession) (since : ℕ)
      → redis.get_data r j ≡ some s
      → IsSince s since
      → let r' = (cleanup_stale_sessions redis now r).1 in
        (s.state ≢ ConversationState.terminated
          → s.state ≢ ConversationState.stale
          → since + 60000 < now
          → redis.get_data r' j ≡ none)
        × ((s.state ≡ ConversationState.terminated)
              ⊎ (s.state ≡ ConversationState.stale)
              ⊎ (now ≤ since + 60000)
            → redis.get_data r' j ≡ some s)
        × ((i : String) → redis.get_data r i ≡ none → redis.get_data r' i ≡ none)
  unfolding cleanup_stale_sessions
  get_data-cleanup_stale_sessions now r j s since e h = (
    λ t u old.
        get_data-cleaned (is_stale now) r j ∙ rw (e, is_stale-true now since s h t u old) refl,
    λ k. get_data-cleaned (is_stale now) r j ∙ rw (e, is_stale-false now since s h k) refl,
    λ i none_there. get_data-cleaned (is_stale now) r i ∙ rw none_there refl,
  )

  -- After `cleanupExpiredSessions` the stored sessions are those from before whose last activity is
  -- within their own time to live.
  pub get_data-cleanup_expired_sessions :
      (now : ℕ) (r : Redis) (j : String)
      → redis.get_data (cleanup_expired_sessions redis now r).1 j
        ≡ drop (is_expired now) (redis.get_data r j)
  unfolding cleanup_expired_sessions
  get_data-cleanup_expired_sessions now r j = get_data-cleaned (is_expired now) r j
