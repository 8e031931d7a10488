-- ===== src/Voice/Conversation.antt =====
-- conversation-state-machine.service.ts: the states of a voice session and the moves between them.
pub mod Sinks
mod Tests
use Prim.Native.String.{String, ◌++◌}
use xlm_pay.Base.{ℕ, Bool, ◌||◌, Option, none, some, List, [], ◌∷◌, any, ◌==◌, if◌then◌else◌}

pub data ConversationState : Type 0 where
  listening : ConversationState
  thinking : ConversationState
  responding : ConversationState
  interrupted : ConversationState
  idle : ConversationState
  stale : ConversationState
  terminated : ConversationState

unfoldable pub conversation_state_text : ConversationState → String
conversation_state_text ConversationState.listening = "listening"
conversation_state_text ConversationState.thinking = "thinking"
conversation_state_text ConversationState.responding = "responding"
conversation_state_text ConversationState.interrupted = "interrupted"
conversation_state_text ConversationState.idle = "idle"
conversation_state_text ConversationState.stale = "stale"
conversation_state_text ConversationState.terminated = "terminated"

abbrev pub conversation_state_index : ConversationState → ℕ
conversation_state_index ConversationState.listening = 0
conversation_state_index ConversationState.thinking = 1
conversation_state_index ConversationState.responding = 2
conversation_state_index ConversationState.interrupted = 3
conversation_state_index ConversationState.idle = 4
conversation_state_index ConversationState.stale = 5
conversation_state_index ConversationState.terminated = 6

abbrev pub is_conversation_state : ConversationState → ConversationState → Bool
is_conversation_state a b = conversation_state_index a == conversation_state_index b

-- The table `validTransitions`.
unfoldable pub get_valid_next_states : ConversationState → List ConversationState
get_valid_next_states ConversationState.idle = ConversationState.listening ∷ []
get_valid_next_states ConversationState.listening =
    ConversationState.thinking ∷ ConversationState.interrupted ∷ []
get_valid_next_states ConversationState.thinking =
    ConversationState.responding ∷ ConversationState.interrupted ∷ []
get_valid_next_states ConversationState.responding =
    ConversationState.listening ∷ ConversationState.interrupted ∷ ConversationState.idle ∷ []
get_valid_next_states ConversationState.interrupted =
    ConversationState.listening ∷ ConversationState.idle ∷ []
get_valid_next_states ConversationState.stale = []
get_valid_next_states ConversationState.terminated = []

unfoldable pub can_transition : ConversationState → ConversationState → Bool
unfolding get_valid_next_states
can_transition from to = any (is_conversation_state to) (get_valid_next_states from)

-- `none` is `{ success: true }`, `some error` is `{ success: false, error }`.
unfoldable pub transition : ConversationState → ConversationState → Option String
unfolding can_transition conversation_state_text
transition current_state new_state =
    if can_transition current_state new_state
    then none
    else some (
        "Invalid state transition from "
        ++ (conversation_state_text current_state ++ (" to " ++ conversation_state_text new_state)))

unfoldable pub is_interruptible : ConversationState → Bool
is_interruptible state =
    any (is_conversation_state state)
      (ConversationState.thinking ∷ ConversationState.responding ∷ [])

unfoldable pub is_terminal_state : ConversationState → Bool
is_terminal_state state = is_conversation_state state ConversationState.idle
