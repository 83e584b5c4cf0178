-- ===== src/Voice/Session/Interrupt.antt =====
-- A conversation that is interrupted and resumed.
use farm_exc.Prelude.{ℕ, String, ◌≡◌, refl, true, none, some, eq_iff, arith}
use farm_exc.Voice.{ConversationState, transition, can_transition, is_interruptible}
use farm_exc.Voice.Session.{
  VoiceSession, SessionRedis, save_session, get_session, update_session_state, interrupt_session,
  resume_session,
}
use farm_exc.Voice.Session.Store.{IsSessionRedis, get_data-save_session}
use farm_exc.Voice.Session.Turns.{IsKept}

transition-interrupted :
    (s : ConversationState)
    → is_interruptible s ≡ true
    → transition s ConversationState.interrupted ≡ none
unfolding transition can_transition is_interruptible
transition-interrupted s h = ground arith

transition-listening : transition ConversationState.interrupted ConversationState.listening ≡ none
unfolding transition can_transition
transition-listening = refl

module _ {Redis : Type 0} (redis : SessionRedis Redis) (law : IsSessionRedis redis) where
  update_session_state-accepted :
      (now : ℕ) (id : String) (new : ConversationState) (r : Redis) (s : VoiceSession)
      → redis.get_data r id ≡ some s
      → transition s.state new ≡ none
      → update_session_state redis now id new r
        ≡ (true, save_session redis (record s { state = new; last_activity_at = now }) r)
  unfolding update_session_state get_session
  update_session_state-accepted now id new r s e h = rw (e, h, update_session_state)

  get_data-saved :
      (r : Redis) (id : String) (s : VoiceSession)
      → s.id ≡ id
      → redis.get_data (save_session redis s r) id ≡ some s
  get_data-saved r id s e = ground (arith, get_data-save_session redis law r s id, eq_iff s.id id)

  -- A stored session that is thinking or responding can be interrupted and then resumed: both calls
  -- succeed, and it is stored as listening, with the time of the second call, and otherwise as it was.
  pub resume_session-interrupt_session :
      (now later : ℕ) (id : String) (r : Redis) (s : VoiceSession)
      → IsKept redis r
      → redis.get_data r id ≡ some s
      → is_interruptible s.state ≡ true
      → let interrupted = interrupt_session redis now id r in
        let resumed = resume_session redis later id interrupted.1 in
        (interrupted.0 ≡ true)
        × (resumed.0 ≡ true)
        × (redis.get_data resumed.1 id
            ≡ some (record s { state = ConversationState.listening; last_activity_at = later }))
  unfolding interrupt_session resume_session get_session
  resume_session-interrupt_session now later id r s k e h =
      let s1 : VoiceSession = record s {
        state = ConversationState.interrupted;
        last_activity_at = now;
      } in
      let s2 : VoiceSession = record s {
        state = ConversationState.listening;
        last_activity_at = later;
      } in
      let r1 = save_session redis s1 r in
      let step1 : interrupt_session redis now id r ≡ (true, r1) =
        rw (e, h, interrupt_session)
          (update_session_state-accepted now id ConversationState.interrupted r s e
            (transition-interrupted s.state h)) in
      let got1 : redis.get_data r1 id ≡ some s1 = get_data-saved r id s1 (k id s e).0 in
      let step2 : resume_session redis later id r1 ≡ (true, save_session redis s2 r1) =
        rw (got1, resume_session)
          (update_session_state-accepted later id ConversationState.listening r1 s1 got1
            transition-listening) in
      rw (step1, step2) (refl, refl, get_data-saved r1 id s2 (k id s e).0)
