-- ===== src/Voice/Conversation/Sinks.antt =====
-- Where a conversation can go, along a whole history.
use xlm_pay.Base.{◌≡◌, ◌≢◌, inl, inr, true, List, [], ◌∷◌, none, some, arith, Option-cases}
use xlm_pay.Voice.Conversation.{ConversationState, transition, is_interruptible}

-- The state after a list of requests: a refused request changes nothing.
unfoldable pub follow : ConversationState → List ConversationState → ConversationState
unfolding transition
follow s [] = s
follow s (t ∷ ts) = elim (transition s t) [ none ↦ follow t ts | some _ ↦ follow s ts ]

-- Being in use: neither stale nor terminated.
abbrev pub InUse : ConversationState → Type 0
InUse s = (s ≢ ConversationState.stale) × (s ≢ ConversationState.terminated)

move-InUse : (s t : ConversationState) → transition s t ≡ none → InUse t
unfolding transition
move-InUse s t e = (ground arith, ground arith)

-- From a conversation in use no list of requests leads to STALE or TERMINATED: the table has no
-- move into them, and a refused request changes nothing.
pub follow-InUse :
    (s : ConversationState) (ts : List ConversationState) → InUse s → InUse (follow s ts)
unfolding follow
follow-InUse s [] h = h
follow-InUse s (t ∷ ts) h = elim (Option-cases (transition s t)) [
  | inl e ↦ rw (e, follow) (follow-InUse t ts (move-InUse s t e))
  | inr (m, e) ↦ rw (e, follow) (follow-InUse s ts h)
]

-- An interruptible conversation is interrupted on request.
pub is_interruptible_lem :
    (s : ConversationState)
    → is_interruptible s ≡ true
    → follow s (ConversationState.interrupted ∷ []) ≡ ConversationState.interrupted
unfolding is_interruptible follow transition
is_interruptible_lem s h = ground arith
