-- ===== src/Voice/Sessions/Moves.antt =====
-- The changes of voice-session.service.ts to one session, and the requests to the conversation state
-- machine that they make.
use xlm_pay.Base.{
  ℕ, String, ◌≡◌, refl, sym, ap, Bool, true, false, Option, none, some, List, [], ◌∷◌, ◌++◌,
  Option-cases, inl, inr, if◌then◌else◌,
}
use xlm_pay.Voice.Conversation.{ConversationState, transition, is_interruptible}
use xlm_pay.Voice.Conversation.Sinks.{follow}
use xlm_pay.Voice.Sessions.{VoiceSession, moved, move_if, interrupted, resumed}

pub follow-append :
    (s : ConversationState) (ts us : List ConversationState)
    → follow s (ts ++ us) ≡ follow (follow s ts) us
unfolding follow
follow-append s [] us = refl
follow-append s (t ∷ ts) us = elim (Option-cases (transition s t)) [
  | inl e ↦ rw (e, follow) (follow-append t ts us)
  | inr (m, e) ↦ rw (e, follow) (follow-append s ts us)
]

-- A change that keeps a session's id and makes moves of the machine.
pub record IsMove (f : VoiceSession → Option VoiceSession) : Type 0 where
  pub keeps_id : (s t : VoiceSession) → f s ≡ some t → t.id ≡ s.id
  pub requests : VoiceSession → List ConversationState
  pub path : (s t : VoiceSession) → f s ≡ some t → t.state ≡ follow s.state (requests s)

move_if-some :
    (n : ConversationState) (now : ℕ) (s t : VoiceSession) (o : Option String)
    → transition s.state n ≡ o
    → move_if o n now s ≡ some t
    → (t.id ≡ s.id) × (t.state ≡ follow s.state (n ∷ []))
unfolding move_if follow
move_if-some n now s t none g e =
    let same : record s { state = n; last_activity_at = now } ≡ t = cc e in
    (ap (λ r. r.id) (sym same), rw (g, follow) (ap (λ r. r.state) (sym same)))
move_if-some n now s t (some m) g e = cc

moved-some :
    (n : ConversationState) (now : ℕ) (s t : VoiceSession)
    → moved n now s ≡ some t
    → (t.id ≡ s.id) × (t.state ≡ follow s.state (n ∷ []))
unfolding moved
moved-some n now s t e = move_if-some n now s t (transition s.state n) refl e

pub moved-IsMove : (n : ConversationState) (now : ℕ) → IsMove (moved n now)
moved-IsMove n now = record {
  keeps_id = λ s t e. (moved-some n now s t e).0;
  requests = λ s. n ∷ [];
  path = λ s t e. (moved-some n now s t e).1;
}

pub resumed-IsMove : (now : ℕ) → IsMove (resumed now)
unfolding resumed
resumed-IsMove now = record {
  keeps_id = λ s t e. (moved-some _ now s t e).0;
  requests = λ s. _ ∷ [];
  path = λ s t e. (moved-some _ now s t e).1;
}

if-some :
    (b : Bool) (o : Option VoiceSession) (t : VoiceSession)
    → (if b then o else none) ≡ some t
    → o ≡ some t
if-some true o t e = e
if-some false o t e = cc

interrupted-some :
    (now : ℕ) (s t : VoiceSession)
    → interrupted now s ≡ some t
    → moved ConversationState.interrupted now s ≡ some t
unfolding interrupted
interrupted-some now s t e = if-some (is_interruptible s.state) _ t e

pub interrupted-IsMove : (now : ℕ) → IsMove (interrupted now)
interrupted-IsMove now = record {
  keeps_id = λ s t e. (moved-some _ now s t (interrupted-some now s t e)).0;
  requests = λ s. ConversationState.interrupted ∷ [];
  path = λ s t e. (moved-some _ now s t (interrupted-some now s t e)).1;
}

-- A change of neither the id nor the state.
pub still-IsMove :
    (f : VoiceSession → VoiceSession)
    → ((s : VoiceSession) → (f s).id ≡ s.id)
    → ((s : VoiceSession) → (f s).state ≡ s.state)
    → IsMove (λ s. some (f s))
unfolding follow
still-IsMove f i k = record {
  keeps_id = λ s t e. cc (i s, e);
  requests = λ s. [];
  path = λ s t e. cc (k s, e);
}
