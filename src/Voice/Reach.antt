-- ===== src/Voice/Reach.antt =====
-- Which states a conversation gets to by transitions that the service accepts.
use farm_exc.Prelude.{◌≡◌, refl, ◌≢◌, ◌↔◌, none, true, arith}
use farm_exc.Voice.{ConversationState, transition, can_transition, is_interruptible}

pub data Reaches : ConversationState → ConversationState → Type 0 where
  here : {s : ConversationState} → Reaches s s
  move : {s t u : ConversationState} → transition s t ≡ none → Reaches t u → Reaches s u

-- The states outside the life of a conversation.
abbrev pub IsLive : ConversationState → Type 0
IsLive s = (s ≢ ConversationState.stale) × (s ≢ ConversationState.terminated)

pub transition-IsLive : (s t : ConversationState) → transition s t ≡ none → IsLive t
unfolding transition can_transition
transition-IsLive s t h = ground arith

Reaches-IsLive : {s t : ConversationState} → Reaches s t → IsLive s → IsLive t
Reaches-IsLive here l = l
Reaches-IsLive (move {s} {t} h r) l = Reaches-IsLive r (transition-IsLive s t h)

Reaches-idle : (t : ConversationState) → IsLive t → Reaches ConversationState.idle t
unfolding transition can_transition
Reaches-idle ConversationState.idle l = here
Reaches-idle ConversationState.listening l = move refl here
Reaches-idle ConversationState.thinking l =
    move {t = ConversationState.listening} refl (move refl here)
Reaches-idle ConversationState.responding l =
    move {t = ConversationState.listening} refl
      (move {t = ConversationState.thinking} refl (move refl here))
Reaches-idle ConversationState.interrupted l =
    move {t = ConversationState.listening} refl (move refl here)
Reaches-idle ConversationState.stale l = absurd (l.0 refl)
Reaches-idle ConversationState.terminated l = absurd (l.1 refl)

-- From `idle`, accepted transitions lead to every state but `stale` and `terminated`, and never to
-- these two.
pub Reaches-idle_iff :
    (t : ConversationState)
    → Reaches ConversationState.idle t
      ↔ ((t ≢ ConversationState.stale) × (t ≢ ConversationState.terminated))
Reaches-idle_iff t = (λ r. Reaches-IsLive r (ground arith), λ l. Reaches-idle t l)

-- The interruptible states are those with a transition to `interrupted`, but for `listening`.
pub is_interruptible_iff :
    (s : ConversationState)
    → (is_interruptible s ≡ true) ↔ (
        (can_transition s ConversationState.interrupted ≡ true) × (s ≢ ConversationState.listening))
unfolding is_interruptible can_transition
is_interruptible_iff s = ground arith
