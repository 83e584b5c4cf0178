-- ===== src/Voice/Session.antt =====
-- Backend/src/voice/services/voice-session.service.ts, Backend/src/voice/entities/voice-session.entity.ts
-- and Backend/src/voice/types/feature-context.enum.ts. Redis is a parameter; it answers every call. A
-- session's JSON text is represented by the session, and a key by what follows its prefix. The clock
-- and the generator of UUIDs are arguments: `now`, and `later` where a method reads the clock twice.
pub mod Store
pub mod Turns
pub mod Interrupt
pub mod Limit
pub mod Cleanup
use farm_exc.Prelude.{
  ℕ, suc, ◌-◌, ◌*◌, String, Bool, true, false, ◌&&◌, ◌||◌, not, Option, none, some, List, [], ◌∷◌,
  ◌++◌, length, ltb, leb, str_eq, if◌then◌else◌,
}
use farm_exc.Workflow.Json.{Fields}
use farm_exc.Voice.{ConversationState, same_conversation, transition, is_interruptible}

pub data FeatureContext : Type 0 where
  academy trading general community : FeatureContext

pub record VoiceMessage : Type 0 where
  pub id : String
  pub content : String
  pub timestamp : ℕ
  pub is_user : Bool
  pub metadata : Option Fields

pub record VoiceSession : Type 0 where
  pub id : String
  pub user_id : String
  pub wallet_address : Option String
  pub context : FeatureContext
  pub state : ConversationState
  pub messages : List VoiceMessage
  pub created_at : ℕ
  pub last_activity_at : ℕ
  pub last_ping_at : Option ℕ
  pub ttl : ℕ
  pub socket_id : Option String
  pub metadata : Option Fields

abbrev pub max_sessions_per_user : ℕ
max_sessions_per_user = 3

abbrev pub heartbeat_timeout_ms : ℕ
heartbeat_timeout_ms = 60000

abbrev pub session_ttl : ℕ
session_ttl = 3600

abbrev pub user_session_pointer_ttl : ℕ
user_session_pointer_ttl = 600

-- The calls of Redis: on the data of a session, on the set of a user's sessions, and on the pointer to
-- a user's active session. Times to live are in seconds.
pub record SessionRedis (Redis : Type 0) : Type 0 where
  pub get_data : Redis → String → Option VoiceSession
  pub set_data : Redis → String → ℕ → VoiceSession → Redis
  pub del_data : Redis → String → Redis
  pub scan_data : Redis → List String
  pub s_members : Redis → String → List String
  pub s_add : Redis → String → String → Redis
  pub s_rem : Redis → String → String → Redis
  pub expire_members : Redis → String → ℕ → Redis
  pub get_pointer : Redis → String → Option String
  pub set_pointer : Redis → String → ℕ → String → Redis
  pub del_pointer : Redis → String → Redis
  pub refresh_pointer : Redis → String → ℕ → Redis

-- `VoiceSession.create`.
unfoldable pub create :
    String → ℕ → String → FeatureContext → Option String → Option Fields → VoiceSession
create uuid now user_id context wallet_address metadata = record {
  id = uuid;
  user_id = user_id;
  wallet_address = wallet_address;
  context = context;
  state = ConversationState.idle;
  messages = [];
  created_at = now;
  last_activity_at = now;
  last_ping_at = none;
  ttl = 3600;
  socket_id = none;
  metadata = metadata;
}

-- The sessions that were found.
abbrev pub found : List (Option VoiceSession) → List VoiceSession
found [] = []
found (none ∷ os) = found os
found (some s ∷ os) = s ∷ found os

abbrev pub is_current : Option String → String → Bool
is_current none id = false
is_current (some c) id = str_eq c id

-- The time of the last ping, or of the creation.
abbrev pub last_ping : VoiceSession → ℕ
last_ping s = elim s.last_ping_at [ none ↦ s.created_at | some t ↦ t ]

-- The tests of the two clean-ups.
unfoldable pub is_stale : ℕ → VoiceSession → Bool
is_stale now s =
    not (
      same_conversation s.state ConversationState.terminated
      || same_conversation s.state ConversationState.stale)
    && ltb heartbeat_timeout_ms (now - last_ping s)

unfoldable pub is_expired : ℕ → VoiceSession → Bool
is_expired now s = ltb (s.ttl * 1000) (now - s.last_activity_at)

abbrev pub meets : (VoiceSession → Bool) → Option VoiceSession → Bool
meets p none = false
meets p (some s) = p s

module _ {Redis : Type 0} (redis : SessionRedis Redis) where
  unfoldable pub get_session : Redis → String → Option VoiceSession
  get_session r id = redis.get_data r id

  unfoldable pub save_session : VoiceSession → Redis → Redis
  save_session s r = redis.set_data r s.id s.ttl s

  unfoldable pub get_each : Redis → List String → List (Option VoiceSession)
  unfolding get_session
  get_each r [] = []
  get_each r (id ∷ ids) = get_session r id ∷ get_each r ids

  unfoldable pub get_user_active_sessions : Redis → String → List VoiceSession
  unfolding get_each
  get_user_active_sessions r user_id = found (get_each r (redis.s_members r user_id))

  unfoldable pub add_user_session : String → String → Redis → Redis
  add_user_session user_id id r =
      redis.expire_members (redis.s_add r user_id id) user_id session_ttl

  -- `none` is the error of the limit.
  unfoldable pub create_session :
      String
      → ℕ
      → String
      → FeatureContext
      → Option String
      → Option Fields
      → Redis
      → Option VoiceSession × Redis
  unfolding get_user_active_sessions save_session add_user_session create
  create_session uuid now user_id context wallet_address metadata r =
      let session = create uuid now user_id context wallet_address metadata in
      if leb max_sessions_per_user (length (get_user_active_sessions r user_id))
      then (none, r)
      else (some session, add_user_session user_id uuid (save_session session r))

  -- A change of a stored session: the shape of the methods that read, assign and save.
  unfoldable pub modify : (VoiceSession → VoiceSession) → String → Redis → Bool × Redis
  unfolding get_session save_session
  modify f id r = elim (get_session r id) [
    | none ↦ (false, r)
    | some s ↦ (true, save_session (f s) r)
  ]

  unfoldable pub update_session_state : ℕ → String → ConversationState → Redis → Bool × Redis
  unfolding get_session save_session
  update_session_state now id new r = elim (get_session r id) [
    | none ↦ (false, r)
    | some s ↦ elim (transition s.state new) [
      | some e ↦ (false, r)
      | none ↦ (true, save_session (record s { state = new; last_activity_at = now }) r)
    ]
  ]

  unfoldable pub add_message :
      String → ℕ → ℕ → String → String → Bool → Option Fields → Redis → Bool × Redis
  unfolding modify
  add_message uuid now later id content is_user metadata r =
      let message : VoiceMessage = record {
        id = uuid;
        content = content;
        timestamp = now;
        is_user = is_user;
        metadata = metadata;
      } in
      modify (λ s. record s { messages = s.messages ++ message ∷ []; last_activity_at = later }) id
        r

  unfoldable pub interrupt_session : ℕ → String → Redis → Bool × Redis
  unfolding get_session update_session_state
  interrupt_session now id r = elim (get_session r id) [
    | none ↦ (false, r)
    | some s ↦
        if is_interruptible s.state
        then update_session_state now id ConversationState.interrupted r
        else (false, r)
  ]

  unfoldable pub resume_session : ℕ → String → Redis → Bool × Redis
  unfolding get_session update_session_state
  resume_session now id r = elim (get_session r id) [
    | none ↦ (false, r)
    | some s ↦
        let target =
          if same_conversation s.state ConversationState.interrupted
          then ConversationState.listening
          else ConversationState.idle in
        update_session_state now id target r
  ]

  unfoldable pub set_user_active_session : String → String → Redis → Redis
  set_user_active_session user_id id r = redis.set_pointer r user_id user_session_pointer_ttl id

  unfoldable pub get_user_active_session : Redis → String → Option String
  get_user_active_session r user_id = redis.get_pointer r user_id

  unfoldable pub delete_user_active_session : String → Redis → Redis
  delete_user_active_session user_id r = redis.del_pointer r user_id

  unfoldable pub refresh_user_session_ttl : String → Redis → Redis
  refresh_user_session_ttl user_id r = redis.refresh_pointer r user_id user_session_pointer_ttl

  unfoldable pub clear_user_active_session_if_matches : String → String → Redis → Redis
  unfolding get_user_active_session delete_user_active_session
  clear_user_active_session_if_matches user_id id r =
      if is_current (get_user_active_session r user_id) id
      then delete_user_active_session user_id r
      else r

  unfoldable pub terminate_session : String → Redis → Bool × Redis
  unfolding get_session clear_user_active_session_if_matches
  terminate_session id r = elim (get_session r id) [
    | none ↦ (false, r)
    | some s ↦ (
      true,
      clear_user_active_session_if_matches s.user_id id
          (redis.s_rem (redis.del_data r id) s.user_id id),
    )
  ]

  unfoldable pub update_session_socket : ℕ → String → String → Redis → Bool × Redis
  unfolding modify
  update_session_socket now id socket_id r =
      modify (λ s. record s { socket_id = some socket_id; last_activity_at = now }) id r

  unfoldable pub update_last_ping_at : ℕ → ℕ → String → Redis → Bool × Redis
  unfolding modify
  update_last_ping_at now later id r =
      modify (λ s. record s { last_ping_at = some now; last_activity_at = later }) id r

  -- The loop of a clean-up over the keys, with its test, and the number of sessions cleaned.
  unfoldable pub clean_each : (VoiceSession → Bool) → List String → Redis → ℕ × Redis
  unfolding terminate_session
  clean_each p [] r = (0, r)
  clean_each p (id ∷ ids) r = elim (meets p (redis.get_data r id)) [
    | false ↦ clean_each p ids r
    | true ↦ let (n, r') = clean_each p ids (terminate_session id r).1 in (suc n, r')
  ]

  unfoldable pub cleanup_stale_sessions : ℕ → Redis → ℕ × Redis
  unfolding is_stale clean_each
  cleanup_stale_sessions now r = clean_each (is_stale now) (redis.scan_data r) r

  unfoldable pub cleanup_expired_sessions : ℕ → Redis → ℕ × Redis
  unfolding is_expired clean_each
  cleanup_expired_sessions now r = clean_each (is_expired now) (redis.scan_data r) r
