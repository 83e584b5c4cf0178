-- ===== src/Examples/Sessions.antt =====
-- Sessions in memory, and runs of the voice session service on them.
use farm_exc.Prelude.{
  suc, ◌≤◌, String, ◌≡◌, refl, Bool, true, false, Option, none, some, List, [], ◌∷◌, length, str_eq,
  eq_iff, ◌≢◌, ◌⊎◌, inr, ◌+◌, ◌<◌, filter, includes, if◌then◌else◌, arith,
}
use farm_exc.Voice.{ConversationState, is_interruptible}
use farm_exc.Voice.Session.{
  VoiceSession, FeatureContext, SessionRedis, create_session, get_user_active_sessions,
  interrupt_session, resume_session, cleanup_stale_sessions,
}
use farm_exc.Voice.Session.Store.{IsSessionRedis}
use farm_exc.Voice.Session.Turns.{drop_stale, perform, IsKept, perform-IsKept}
use farm_exc.Voice.Session.Interrupt.{resume_session-interrupt_session}
use farm_exc.Voice.Session.Limit.{create_session_limit}
use farm_exc.Voice.Session.Cleanup.{get_data-cleanup_stale_sessions}

abbrev Data : Type 0
Data = List (String × VoiceSession)

-- Of two entries with one key the first counts.
abbrev look_up : Data → String → Option VoiceSession
look_up [] j = none
look_up ((k, s) ∷ d) j = let rest = look_up d j in if str_eq k j then some s else rest

abbrev without : Data → String → Data
without [] k = []
without ((i, s) ∷ d) k = let rest = without d k in if str_eq i k then rest else (i, s) ∷ rest

abbrev keys_of : Data → List String
keys_of [] = []
keys_of ((k, s) ∷ d) = k ∷ keys_of d

record SessionMemory : Type 0 where
  pub data_part : Data
  pub member_part : String → List String
  pub pointer_part : String → Option String

abbrev with_id : String → List String → List String
with_id id ids = if includes str_eq ids id then ids else id ∷ ids

abbrev without_id : String → List String → List String
without_id id ids = filter (λ i. if str_eq i id then false else true) ids

abbrev session_memory : SessionRedis SessionMemory
session_memory = record {
  get_data = λ r id. look_up r.data_part id;
  set_data = λ r id n s. record r { data_part = (id, s) ∷ r.data_part };
  del_data = λ r id. record r { data_part = without r.data_part id };
  scan_data = λ r. keys_of r.data_part;
  s_members = λ r u. r.member_part u;
  s_add = λ r u id. record r {
    member_part = λ v. if str_eq u v then with_id id (r.member_part v) else r.member_part v;
  };
  s_rem = λ r u id. record r {
    member_part = λ v. if str_eq u v then without_id id (r.member_part v) else r.member_part v;
  };
  expire_members = λ r u n. r;
  get_pointer = λ r u. r.pointer_part u;
  set_pointer =
      λ r u n id. record r { pointer_part = λ v. if str_eq u v then some id else r.pointer_part v };
  del_pointer =
      λ r u. record r { pointer_part = λ v. if str_eq u v then none else r.pointer_part v };
  refresh_pointer = λ r u n. r;
}

look_up-without :
    (d : Data) (k j : String) → look_up (without d k) j ≡ (if str_eq k j then none else look_up d j)
look_up-without [] k j = ground arith
look_up-without ((i, s) ∷ d) k j =
    ground (arith, eq_iff i k, eq_iff k j, eq_iff i j, look_up-without d k j)

includes-keys_of :
    (d : Data) (j : String) (s : VoiceSession)
    → look_up d j ≡ some s
    → includes str_eq (keys_of d) j ≡ true
includes-keys_of [] j s e = ground arith
includes-keys_of ((i, t) ∷ d) j s e = ground (arith, includes-keys_of d j s)

length-with_id :
    (p : String → Bool) (id : String) (ids : List String)
    → length (filter p (with_id id ids)) ≤ suc (length (filter p ids))
length-with_id p id ids = ground arith

session_memory-IsSessionRedis : IsSessionRedis session_memory
session_memory-IsSessionRedis = record {
  data_set = λ r id j n s. refl;
  data_deleted = λ r id j. look_up-without r.data_part id j;
  data_added = λ r u id j. refl;
  data_removed = λ r u id j. refl;
  data_expire = λ r u j n. refl;
  data_pointer = λ r u j. refl;
  members_set = λ r id u n s. refl;
  members_expire = λ r u n. refl;
  members_added = λ r u id p. rw ((eq_iff u u).1 refl) (length-with_id p id (r.member_part u));
  scanned = λ r id s e. includes-keys_of r.data_part id s e;
}

abbrev ann_session : VoiceSession
ann_session = record {
  id = "s1";
  user_id = "ann";
  wallet_address = none;
  context = FeatureContext.trading;
  state = ConversationState.thinking;
  messages = [];
  created_at = 1000;
  last_activity_at = 2000;
  last_ping_at = none;
  ttl = 3600;
  socket_id = none;
  metadata = none;
}

abbrev one_session : SessionMemory
one_session = record {
  data_part = ("s1", ann_session) ∷ [];
  member_part = λ u. if str_eq u "ann" then "s1" ∷ [] else [];
  pointer_part = λ u. none;
}

one_session-IsKept : IsKept session_memory one_session
one_session-IsKept id s e = ground (arith, eq_iff "s1" id)

thinking_is_interruptible : is_interruptible ConversationState.thinking ≡ true
unfolding is_interruptible
thinking_is_interruptible = refl

perform-IsKept_example :
    IsKept session_memory (perform session_memory (drop_stale 70000) one_session)
perform-IsKept_example =
    perform-IsKept session_memory session_memory-IsSessionRedis (drop_stale 70000) one_session
      one_session-IsKept

resume_session-interrupt_session_example :
    let interrupted = interrupt_session session_memory 3000 "s1" one_session in
    let resumed = resume_session session_memory 4000 "s1" interrupted.1 in
    (interrupted.0 ≡ true)
    × (resumed.0 ≡ true)
    × (session_memory.get_data resumed.1 "s1"
        ≡ some
            (record ann_session { state = ConversationState.listening; last_activity_at = 4000 }))
resume_session-interrupt_session_example =
    resume_session-interrupt_session session_memory session_memory-IsSessionRedis 3000 4000 "s1"
      one_session ann_session one_session-IsKept refl thinking_is_interruptible

create_session_limit_example :
    let out =
      create_session session_memory "s2" 3000 "ann" FeatureContext.general none none one_session in
    (length (get_user_active_sessions session_memory one_session "ann") ≤ 3
      → length (get_user_active_sessions session_memory out.1 "ann") ≤ 3)
    × (3 ≤ length (get_user_active_sessions session_memory one_session "ann")
        → out ≡ (none, one_session))
create_session_limit_example =
    create_session_limit session_memory session_memory-IsSessionRedis "s2" 3000 "ann"
      FeatureContext.general none none one_session refl

get_data-cleanup_stale_sessions_example :
    let r' = (cleanup_stale_sessions session_memory 70000 one_session).1 in
    (ann_session.state ≢ ConversationState.terminated
      → ann_session.state ≢ ConversationState.stale
      → 1000 + 60000 < 70000
      → session_memory.get_data r' "s1" ≡ none)
    × ((ann_session.state ≡ ConversationState.terminated)
          ⊎ (ann_session.state ≡ ConversationState.stale)
          ⊎ (70000 ≤ 1000 + 60000)
        → session_memory.get_data r' "s1" ≡ some ann_session)
    × ((i : String)
        → session_memory.get_data one_session i ≡ none
        → session_memory.get_data r' i ≡ none)
get_data-cleanup_stale_sessions_example =
    get_data-cleanup_stale_sessions session_memory session_memory-IsSessionRedis 70000 one_session
      "s1" ann_session 1000 refl (inr (refl, refl))

one_cleaned :
    session_memory.get_data (cleanup_stale_sessions session_memory 70000 one_session).1 "s1" ≡ none
unfolding cleanup_stale_sessions
one_cleaned = refl
