-- ===== src/Voice/Session/Turns.antt =====
-- What every operation keeps of the stored sessions.
use farm_exc.Prelude.{
  ℕ, String, ◌≡◌, refl, sym, ◌∙◌, Bool, true, false, Option, none, some, str_eq, List, [], length,
  leb, ◌∷◌, eq_iff, if◌then◌else◌, arith, Bool-cases, Option-cases, ◌⊎◌, inl, inr,
}
use farm_exc.Workflow.Json.{Fields}
use farm_exc.Voice.{ConversationState, transition, is_interruptible}
use farm_exc.Voice.Reach.{IsLive, transition-IsLive}
use farm_exc.Voice.Session.{
  VoiceSession, FeatureContext, SessionRedis, save_session, terminate_session, get_session, modify,
  create, create_session, get_user_active_sessions, update_session_state, add_message,
  interrupt_session, resume_session, update_session_socket, update_last_ping_at, clean_each,
  cleanup_stale_sessions, cleanup_expired_sessions, meets,
}
use farm_exc.Voice.Session.Store.{
  IsSessionRedis, get_data-save_session, get_data-add_user_session, get_data-terminate_session,
}

-- The operations that change sessions, with the times and UUIDs that they draw.
pub data Action : Type 0 where
  open_session : String → ℕ → String → FeatureContext → Option String → Option Fields → Action
  change_state : ℕ → String → ConversationState → Action
  say : String → ℕ → ℕ → String → String → Bool → Option Fields → Action
  interrupt : ℕ → String → Action
  resume : ℕ → String → Action
  close_session : String → Action
  connect : ℕ → String → String → Action
  ping : ℕ → ℕ → String → Action
  drop_stale : ℕ → Action
  drop_expired : ℕ → Action

module _ {Redis : Type 0} (redis : SessionRedis Redis) where
  abbrev pub perform : Action → Redis → Redis
  perform (open_session u n i c w m) r = (create_session redis u n i c w m r).1
  perform (change_state n i s) r = (update_session_state redis n i s r).1
  perform (say u n l i c b m) r = (add_message redis u n l i c b m r).1
  perform (interrupt n i) r = (interrupt_session redis n i r).1
  perform (resume n i) r = (resume_session redis n i r).1
  perform (close_session i) r = (terminate_session redis i r).1
  perform (connect n i s) r = (update_session_socket redis n i s r).1
  perform (ping n l i) r = (update_last_ping_at redis n l i r).1
  perform (drop_stale n) r = (cleanup_stale_sessions redis n r).1
  perform (drop_expired n) r = (cleanup_expired_sessions redis n r).1

  -- Every stored session is stored under its own id, and is neither stale nor terminated.
  abbrev pub IsKept : Redis → Type 0
  IsKept r =
      (id : String) (s : VoiceSession) → redis.get_data r id ≡ some s → (s.id ≡ id) × IsLive s.state

found_new-or_old :
    (b : Bool) (o : Option VoiceSession) (s t : VoiceSession)
    → (if b then some s else o) ≡ some t
    → ((b ≡ true) × (s ≡ t)) ⊎ (o ≡ some t)
found_new-or_old true o s t e = ground arith
found_new-or_old false o s t e = inr e

found_kept :
    (b : Bool) (o : Option VoiceSession) (t : VoiceSession)
    → (if b then none else o) ≡ some t
    → o ≡ some t
found_kept true o t e = ground arith
found_kept false o t e = e

module _ {Redis : Type 0} (redis : SessionRedis Redis) (law : IsSessionRedis redis) where
  save_session-IsKept :
      (r : Redis) (s : VoiceSession)
      → IsKept redis r
      → IsLive s.state
      → IsKept redis (save_session redis s r)
  save_session-IsKept r s k l j t e =
      elim (found_new-or_old (str_eq s.id j) (redis.get_data r j) s t
        (sym (get_data-save_session redis law r s j) ∙ e)) [
          | inl (h, same) ↦ rw (← same) ((eq_iff s.id j).0 h, l)
          | inr old ↦ k j t old
        ]

  terminate_session-IsKept :
      (r : Redis) (id : String) → IsKept redis r → IsKept redis (terminate_session redis id r).1
  terminate_session-IsKept r id k j t e =
      k j t (found_kept _ _ t (sym (get_data-terminate_session redis law r id j) ∙ e))

  clean_each-IsKept :
      (p : VoiceSession → Bool) (ids : List String) (r : Redis)
      → IsKept redis r
      → IsKept redis (clean_each redis p ids r).1
  unfolding clean_each
  clean_each-IsKept p [] r k = k
  clean_each-IsKept p (id ∷ ids) r k = elim (Bool-cases (meets p (redis.get_data r id))) [
    | inl h ↦
        rw (h, clean_each)
          (clean_each-IsKept p ids (terminate_session redis id r).1
            (terminate_session-IsKept r id k))
    | inr h ↦ rw (h, clean_each) (clean_each-IsKept p ids r k)
  ]

  modify-IsKept :
      (f : VoiceSession → VoiceSession) (id : String) (r : Redis)
      → ((s : VoiceSession) → (f s).state ≡ s.state)
      → IsKept redis r
      → IsKept redis (modify redis f id r).1
  unfolding modify get_session
  modify-IsKept f id r same k = elim (Option-cases (redis.get_data r id)) [
    | inl e ↦ rw (e, modify) k
    | inr (s, e) ↦ rw (e, modify) (save_session-IsKept r (f s) k (rw (same s) ((k id s e).1)))
  ]

  update_session_state-IsKept :
      (now : ℕ) (id : String) (new : ConversationState) (r : Redis)
      → IsKept redis r
      → IsKept redis (update_session_state redis now id new r).1
  unfolding update_session_state get_session
  update_session_state-IsKept now id new r k = elim (Option-cases (redis.get_data r id)) [
    | inl e ↦ rw (e, update_session_state) k
    | inr (s, e) ↦ elim (Option-cases (transition s.state new)) [
      | inl accepted ↦
          rw (e, accepted, update_session_state)
            (save_session-IsKept r (record s { state = new; last_activity_at = now }) k
              (transition-IsLive s.state new accepted))
      | inr (x, refused) ↦ rw (e, refused, update_session_state) k
    ]
  ]

  create_session-IsKept :
      (uuid : String) (now : ℕ) (user_id : String) (context : FeatureContext)
      (wallet_address : Option String) (metadata : Option Fields) (r : Redis)
      → IsKept redis r
      → IsKept redis (create_session redis uuid now user_id context wallet_address metadata r).1
  unfolding create_session create
  create_session-IsKept uuid now user_id context wallet_address metadata r k =
      elim (Bool-cases (leb 3 (length (get_user_active_sessions redis r user_id)))) [
        | inl full ↦ rw (full, create_session) k
        | inr room ↦
            rw (room, create_session)
              (λ j t e.
                save_session-IsKept r (create uuid now user_id context wallet_address metadata) k
                  (ground arith) j t
                  (sym (get_data-add_user_session redis law _ user_id uuid j) ∙ e))
      ]

  interrupt_session-IsKept :
      (now : ℕ) (id : String) (r : Redis)
      → IsKept redis r
      → IsKept redis (interrupt_session redis now id r).1
  unfolding interrupt_session get_session
  interrupt_session-IsKept now id r k = elim (Option-cases (redis.get_data r id)) [
    | inl e ↦ rw (e, interrupt_session) k
    | inr (s, e) ↦ elim (Bool-cases (is_interruptible s.state)) [
      | inl h ↦
          rw (e, h, interrupt_session)
            (update_session_state-IsKept now id ConversationState.interrupted r k)
      | inr h ↦ rw (e, h, interrupt_session) k
    ]
  ]

  resume_session-IsKept :
      (now : ℕ) (id : String) (r : Redis)
      → IsKept redis r
      → IsKept redis (resume_session redis now id r).1
  unfolding resume_session get_session
  resume_session-IsKept now id r k = elim (Option-cases (redis.get_data r id)) [
    | inl e ↦ rw (e, resume_session) k
    | inr (s, e) ↦ rw (e, resume_session) (update_session_state-IsKept now id _ r k)
  ]

  -- Every operation keeps it that each stored session is stored under its own id and is neither stale
  -- nor terminated.
  pub perform-IsKept : (a : Action) (r : Redis) → IsKept redis r → IsKept redis (perform redis a r)
  unfolding cleanup_stale_sessions cleanup_expired_sessions add_message update_session_socket
      update_last_ping_at get_session
  perform-IsKept (open_session u n i c w m) r k = create_session-IsKept u n i c w m r k
  perform-IsKept (change_state n i s) r k = update_session_state-IsKept n i s r k
  perform-IsKept (say u n l i c b m) r k = modify-IsKept _ i r (λ s. refl) k
  perform-IsKept (interrupt n i) r k = interrupt_session-IsKept n i r k
  perform-IsKept (resume n i) r k = resume_session-IsKept n i r k
  perform-IsKept (close_session i) r k = terminate_session-IsKept r i k
  perform-IsKept (connect n i s) r k = modify-IsKept _ i r (λ s. refl) k
  perform-IsKept (ping n l i) r k = modify-IsKept _ i r (λ s. refl) k
  perform-IsKept (drop_stale n) r k = clean_each-IsKept _ _ r k
  perform-IsKept (drop_expired n) r k = clean_each-IsKept _ _ r k
