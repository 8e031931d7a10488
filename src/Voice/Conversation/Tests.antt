-- ===== src/Voice/Conversation/Tests.antt =====
-- Some conversations.
use xlm_pay.Base.{◌≡◌, refl, [], ◌∷◌}
use xlm_pay.Voice.Conversation.{ConversationState, is_interruptible}
use xlm_pay.Voice.Conversation.Sinks.{follow, is_interruptible_lem}

is_interruptible_lem_example :
    follow ConversationState.thinking (ConversationState.interrupted ∷ [])
    ≡ ConversationState.interrupted
unfolding is_interruptible
is_interruptible_lem_example = is_interruptible_lem ConversationState.thinking refl
