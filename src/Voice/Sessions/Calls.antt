-- ===== src/Voice/Sessions/Calls.antt =====
-- The calls of voice-session.service.ts, in the order of their times, and where a session's state
-- comes from.
use xlm_pay.Base.{ℕ, String, Bool, ◌≤◌, ◌≡◌, ◌≢◌, Option, some, List, [], ◌∷◌}
use xlm_pay.Base.Json.{Fields}
use xlm_pay.Voice.Conversation.{ConversationState}
use xlm_pay.Voice.Conversation.Sinks.{follow}
use xlm_pay.Voice.Sessions.Stores.{Values, Sets}
use xlm_pay.Voice.Sessions.{
  VoiceSession, VoiceMessage, FeatureContext, Store, create_session, update_session_state,
  add_message, interrupt_session, resume_session, update_session_socket, update_last_ping_at,
  set_user_active_session, delete_user_active_session, refresh_user_session_ttl, terminate_session,
  perform_cleanup,
}

pub data Call : Type 0 where
  start :
      (id user_id : String)
      → FeatureContext
      → (wallet_address : Option String) → (metadata : Option Fields) → Call
  set_state : String → ConversationState → Call
  message : String → VoiceMessage → Call
  interrupt : String → Call
  resume : String → Call
  socket : (session_id socket_id : String) → Call
  ping : String → Call
  terminate : String → Call
  set_active : (user_id session_id : String) → Call
  delete_active : String → Call
  refresh : String → Call
  cleanup : (throws throws_later : String → Bool) → Call

-- The call does not create the session.
unfoldable pub NotCreated : String → Call → Type 0
NotCreated i (Call.start id user_id context wallet_address metadata) = i ≢ id
NotCreated i (Call.set_state id s) = Unit
NotCreated i (Call.message id m) = Unit
NotCreated i (Call.interrupt id) = Unit
NotCreated i (Call.resume id) = Unit
NotCreated i (Call.socket id s) = Unit
NotCreated i (Call.ping id) = Unit
NotCreated i (Call.terminate id) = Unit
NotCreated i (Call.set_active u id) = Unit
NotCreated i (Call.delete_active u) = Unit
NotCreated i (Call.refresh u) = Unit
NotCreated i (Call.cleanup f g) = Unit

module _ (V : Values VoiceSession) (U : Sets) (A : Values String) where
  unfoldable pub step : Call → ℕ → Store V U A → Store V U A
  step (Call.start id user_id context wallet_address metadata) now st =
      (create_session V U A id user_id context wallet_address metadata now st).1
  step (Call.set_state id s) now st = (update_session_state V U A id s now st).1
  step (Call.message id m) now st = (add_message V U A id m now st).1
  step (Call.interrupt id) now st = (interrupt_session V U A id now st).1
  step (Call.resume id) now st = (resume_session V U A id now st).1
  step (Call.socket id s) now st = (update_session_socket V U A id s now st).1
  step (Call.ping id) now st = (update_last_ping_at V U A id now st).1
  step (Call.terminate id) now st = (terminate_session V U A id now st).1
  step (Call.set_active u id) now st = set_user_active_session V U A u id now st
  step (Call.delete_active u) now st = delete_user_active_session V U A u st
  step (Call.refresh u) now st = refresh_user_session_ttl V U A u now st
  step (Call.cleanup f g) now st = perform_cleanup V U A f g now st

  unfoldable pub run : List (ℕ × Call) → Store V U A → Store V U A
  run [] st = st
  run ((now, c) ∷ cs) st = run cs (step c now st)

  -- Every session stands under its own id.
  unfoldable pub IsKeyed : ℕ → Store V U A → Type 0
  IsKeyed t st = (k : String) (s : VoiceSession) → V.get k t st.sessions ≡ some s → s.id ≡ k

  -- A session that was there earlier, and the requests to the machine that lead to its state now.
  pub record Trace (t : ℕ) (i : String) (st : Store V U A) (now : VoiceSession) : Type 0 where
    pub before : VoiceSession
    pub there : V.get i t st.sessions ≡ some before
    pub same_id : now.id ≡ before.id
    pub requests : List ConversationState
    pub path : now.state ≡ follow before.state requests

  -- From a time on, what is under the id comes from the session that was there.
  unfoldable pub Traces : ℕ → String → Store V U A → Store V U A → Type 0
  Traces t i st st' =
      (u : ℕ) (s : VoiceSession) → t ≤ u → V.get i u st'.sessions ≡ some s → Trace t i st s

-- Times that do not go back, from one to another.
unfoldable pub InOrder : ℕ → List (ℕ × Call) → ℕ → Type 0
InOrder t [] u = t ≤ u
InOrder t ((n, c) ∷ cs) u = t ≤ n × InOrder n cs u

unfoldable pub NoneCreates : String → List (ℕ × Call) → Type 0
NoneCreates i [] = Unit
NoneCreates i ((n, c) ∷ cs) = NotCreated i c × NoneCreates i cs
