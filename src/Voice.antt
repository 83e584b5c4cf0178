-- ===== src/Voice.antt =====
-- Backend/src/voice/services/conversation-state-machine.service.ts and
-- Backend/src/voice/types/conversation-state.enum.ts: the states of a spoken conversation.
pub mod Reach
pub mod Session
pub mod Llm
use farm_exc.Prelude.{Bool, List, [], ◌∷◌, Option, none, some, includes, ℕ, ◌==◌, if◌then◌else◌}

pub data ConversationState : Type 0 where
  listening thinking responding interrupted idle stale terminated : ConversationState

abbrev pub conversation_index : ConversationState → ℕ
conversation_index ConversationState.listening = 0
conversation_index ConversationState.thinking = 1
conversation_index ConversationState.responding = 2
conversation_index ConversationState.interrupted = 3
conversation_index ConversationState.idle = 4
conversation_index ConversationState.stale = 5
conversation_index ConversationState.terminated = 6

-- `===` on the enumerators.
abbrev pub same_conversation : ConversationState → ConversationState → Bool
same_conversation a b = conversation_index a == conversation_index b

valid_transitions : ConversationState → List ConversationState
valid_transitions ConversationState.idle = ConversationState.listening ∷ []
valid_transitions ConversationState.listening =
    ConversationState.thinking ∷ ConversationState.interrupted ∷ []
valid_transitions ConversationState.thinking =
    ConversationState.responding ∷ ConversationState.interrupted ∷ []
valid_transitions ConversationState.responding =
    ConversationState.listening ∷ ConversationState.interrupted ∷ ConversationState.idle ∷ []
valid_transitions ConversationState.interrupted =
    ConversationState.listening ∷ ConversationState.idle ∷ []
valid_transitions ConversationState.stale = []
valid_transitions ConversationState.terminated = []

unfoldable pub can_transition : ConversationState → ConversationState → Bool
unfolding valid_transitions
can_transition from to = includes same_conversation (valid_transitions from) to

-- `{ success, error }`: the error text holds the two states.
unfoldable pub transition :
    ConversationState → ConversationState → Option (ConversationState × ConversationState)
unfolding can_transition
transition current new = if can_transition current new then none else some (current, new)

unfoldable pub get_valid_next_states : ConversationState → List ConversationState
unfolding valid_transitions
get_valid_next_states s = valid_transitions s

unfoldable pub is_interruptible : ConversationState → Bool
is_interruptible s =
    includes same_conversation (ConversationState.thinking ∷ ConversationState.responding ∷ []) s

unfoldable pub is_terminal_state : ConversationState → Bool
is_terminal_state s = same_conversation s ConversationState.idle
