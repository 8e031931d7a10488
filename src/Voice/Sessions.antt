-- ===== src/Voice/Sessions.antt =====
-- voice-session.service.ts, voice-session.entity.ts and session-cleanup.service.ts. The keys of each
-- of the three prefixes are a store of their own, without the prefix; a session is kept as its JSON
-- text, which is taken to be read back as it was written. Redis is taken to answer, but for the reads
-- of the cleanups, which catch an error. Times are in milliseconds.
pub mod Stores
pub mod Calls
pub mod Moves
pub mod Steps
pub mod Refines
pub mod Cleanup
mod Tests
use Prim.Native.String.{String}
use xlm_pay.Base.{
  ℕ, ◌+◌, ◌-◌, ◌*◌, Bool, true, false, not, ◌||◌, Option, none, some, List, [], ◌∷◌, ◌++◌ as append,
  length, get_or, ltb, leb, str_eq, if◌then◌else◌,
}
use xlm_pay.Base.Json.{Fields}
use xlm_pay.Voice.Conversation.{
  ConversationState, transition, is_interruptible, is_conversation_state,
}
use xlm_pay.Voice.Sessions.Stores.{Values, Sets}

pub data FeatureContext : Type 0 where
  academy : FeatureContext
  trading : FeatureContext
  general : FeatureContext
  community : FeatureContext

pub record VoiceMessage : Type 0 where
  pub id : String
  pub content : String
  pub timestamp : ℕ
  pub is_user : Bool
  pub metadata : Option Fields

pub record VoiceSession : Type 0 where
  pub id : String
  pub user_id : String
  pub wallet_address : Option String
  pub context : FeatureContext
  pub state : ConversationState
  pub messages : List VoiceMessage
  pub created_at : ℕ
  pub last_activity_at : ℕ
  pub last_ping_at : Option ℕ
  pub ttl : ℕ
  pub socket_id : Option String
  pub metadata : Option Fields

-- VoiceSession.create.
unfoldable pub create :
    (id user_id : String) → FeatureContext → Option String → Option Fields → ℕ → VoiceSession
create id user_id context wallet_address metadata now = record {
  id = id;
  user_id = user_id;
  wallet_address = wallet_address;
  context = context;
  state = ConversationState.idle;
  messages = [];
  created_at = now;
  last_activity_at = now;
  last_ping_at = none;
  ttl = 3600;
  socket_id = none;
  metadata = metadata;
}

abbrev pub max_sessions_per_user : ℕ
max_sessions_per_user = 3

abbrev pub heartbeat_timeout_ms : ℕ
heartbeat_timeout_ms = 60000

-- The session in its new state, where the machine allows the move.
unfoldable pub move_if : Option String → ConversationState → ℕ → VoiceSession → Option VoiceSession
move_if none new_state now s = some (record s { state = new_state; last_activity_at = now })
move_if (some message) new_state now s = none

unfoldable pub moved : ConversationState → ℕ → VoiceSession → Option VoiceSession
moved new_state now s = move_if (transition s.state new_state) new_state now s

unfoldable pub interrupted : ℕ → VoiceSession → Option VoiceSession
interrupted now s =
    if is_interruptible s.state then moved ConversationState.interrupted now s else none

unfoldable pub resumed : ℕ → VoiceSession → Option VoiceSession
resumed now s =
    moved
      (if is_conversation_state s.state ConversationState.interrupted
        then ConversationState.listening
        else ConversationState.idle)
      now s

unfoldable pub with_message : VoiceMessage → ℕ → VoiceSession → Option VoiceSession
with_message m now s =
    some (record s { messages = append s.messages (m ∷ []); last_activity_at = now })

unfoldable pub with_socket : String → ℕ → VoiceSession → Option VoiceSession
with_socket socket_id now s = some (record s { socket_id = some socket_id; last_activity_at = now })

unfoldable pub pinged : ℕ → VoiceSession → Option VoiceSession
pinged now s = some (record s { last_ping_at = some now; last_activity_at = now })

-- The tests of the two cleanups, on a session that is there.
unfoldable pub is_stale : ℕ → VoiceSession → Bool
is_stale now s =
    if is_conversation_state s.state ConversationState.terminated
      || is_conversation_state s.state ConversationState.stale
    then false
    else ltb heartbeat_timeout_ms (now - get_or s.last_ping_at s.created_at)

unfoldable pub is_expired : ℕ → VoiceSession → Bool
is_expired now s = ltb (s.ttl * 1000) (now - s.last_activity_at)

module _ (V : Values VoiceSession) (U : Sets) (A : Values String) where
  -- voice:session:, voice:user:sessions: and voice:usersession:
  pub record Store : Type 0 where
    pub sessions : V.Db
    pub user_sessions : U.Db
    pub active_sessions : A.Db

  unfoldable pub get_session : String → ℕ → Store → Option VoiceSession
  get_session session_id now st = V.get session_id now st.sessions

  unfoldable pub save_session : VoiceSession → ℕ → Store → Store
  save_session s now st = record st { sessions = V.set_ex s.id s.ttl s now st.sessions }

  unfoldable pub add_user_session : (user_id session_id : String) → ℕ → Store → Store
  add_user_session user_id session_id now st = record st {
    user_sessions = U.expire user_id 3600 now (U.add user_id session_id now st.user_sessions);
  }

  unfoldable pub remove_user_session : (user_id session_id : String) → ℕ → Store → Store
  remove_user_session user_id session_id now st = record st {
    user_sessions = U.remove user_id session_id now st.user_sessions;
  }

  -- `session !== null`, of the sessions with the ids.
  unfoldable pub present : List String → ℕ → Store → List VoiceSession
  present [] now st = []
  present (i ∷ is) now st =
      let rest = present is now st in
      elim (get_session i now st) [ none ↦ rest | some s ↦ s ∷ rest ]

  unfoldable pub get_user_active_sessions : String → ℕ → Store → List VoiceSession
  get_user_active_sessions user_id now st = present (U.members user_id now st.user_sessions) now st

  -- `none` where the code throws 'Session limit reached'.
  unfoldable pub create_session :
      (id user_id : String)
      → FeatureContext
      → Option String
      → Option Fields
      → ℕ
      → Store
      → Option VoiceSession × Store
  create_session id user_id context wallet_address metadata now st =
      if leb max_sessions_per_user (length (get_user_active_sessions user_id now st))
      then (none, st)
      else (
        some (create id user_id context wallet_address metadata now),
        add_user_session user_id id now
            (save_session (create id user_id context wallet_address metadata now) now st),
      )

  -- What a session that was looked up becomes: `none` where the method returns false.
  unfoldable pub save_changed : Option VoiceSession → ℕ → Store → Bool × Store
  save_changed none now st = (false, st)
  save_changed (some s) now st = (true, save_session s now st)

  unfoldable pub change_found :
      (VoiceSession → Option VoiceSession) → Option VoiceSession → ℕ → Store → Bool × Store
  change_found f none now st = (false, st)
  change_found f (some s) now st = save_changed (f s) now st

  unfoldable pub change_session :
      String → (VoiceSession → Option VoiceSession) → ℕ → Store → Bool × Store
  change_session session_id f now st = change_found f (get_session session_id now st) now st

  unfoldable pub update_session_state : String → ConversationState → ℕ → Store → Bool × Store
  update_session_state session_id new_state now =
      change_session session_id (moved new_state now) now

  unfoldable pub add_message : String → VoiceMessage → ℕ → Store → Bool × Store
  add_message session_id m now = change_session session_id (with_message m now) now

  unfoldable pub interrupt_session : String → ℕ → Store → Bool × Store
  interrupt_session session_id now = change_session session_id (interrupted now) now

  unfoldable pub resume_session : String → ℕ → Store → Bool × Store
  resume_session session_id now = change_session session_id (resumed now) now

  unfoldable pub update_session_socket : String → String → ℕ → Store → Bool × Store
  update_session_socket session_id socket_id now =
      change_session session_id (with_socket socket_id now) now

  unfoldable pub update_last_ping_at : String → ℕ → Store → Bool × Store
  update_last_ping_at session_id now = change_session session_id (pinged now) now

  unfoldable pub set_user_active_session : (user_id session_id : String) → ℕ → Store → Store
  set_user_active_session user_id session_id now st = record st {
    active_sessions = A.set_ex user_id 600 session_id now st.active_sessions;
  }

  unfoldable pub get_user_active_session : String → ℕ → Store → Option String
  get_user_active_session user_id now st = A.get user_id now st.active_sessions

  unfoldable pub delete_user_active_session : String → Store → Store
  delete_user_active_session user_id st = record st {
    active_sessions = A.del user_id st.active_sessions;
  }

  unfoldable pub refresh_user_session_ttl : String → ℕ → Store → Store
  refresh_user_session_ttl user_id now st = record st {
    active_sessions = A.expire user_id 600 now st.active_sessions;
  }

  abbrev pub is_session : String → Option String → Bool
  is_session session_id none = false
  is_session session_id (some i) = str_eq i session_id

  unfoldable pub clear_user_active_session_if_matches :
      (user_id session_id : String) → ℕ → Store → Store
  clear_user_active_session_if_matches user_id session_id now st =
      if is_session session_id (get_user_active_session user_id now st)
      then delete_user_active_session user_id st
      else st

  unfoldable pub terminate_found : String → Option VoiceSession → ℕ → Store → Bool × Store
  terminate_found session_id none now st = (false, st)
  terminate_found session_id (some s) now st = (
    true,
    clear_user_active_session_if_matches s.user_id session_id now (
        remove_user_session s.user_id session_id now
          (record st { sessions = V.del session_id st.sessions })),
  )

  unfoldable pub terminate_session : String → ℕ → Store → Bool × Store
  terminate_session session_id now st =
      terminate_found session_id (get_session session_id now st) now st

  -- One turn of a cleanup: a session that is there and passes the test is terminated and counted.
  unfoldable pub clean_found :
      (VoiceSession → Bool) → String → Option VoiceSession → ℕ → ℕ × Store → ℕ × Store
  clean_found test session_id none now (cleaned, st) = (cleaned, st)
  clean_found test session_id (some s) now (cleaned, st) =
      if test s then (cleaned + 1, (terminate_session session_id now st).1) else (cleaned, st)

  -- The loop over the keys of a scan. A key whose GET or whose text throws ends it: the error is only
  -- logged, and what was done stays done.
  unfoldable pub clean_each :
      (throws : String → Bool) → (VoiceSession → Bool) → List String → ℕ → ℕ × Store → ℕ × Store
  clean_each throws test [] now r = r
  clean_each throws test (i ∷ is) now r =
      let rest = clean_each throws test is now (clean_found test i (get_session i now r.1) now r) in
      if throws i then r else rest

  unfoldable pub cleanup_stale_sessions : (throws : String → Bool) → ℕ → Store → ℕ × Store
  cleanup_stale_sessions throws now st =
      clean_each throws (is_stale now) (V.keys now st.sessions) now (0, st)

  unfoldable pub cleanup_expired_sessions : (throws : String → Bool) → ℕ → Store → ℕ × Store
  cleanup_expired_sessions throws now st =
      clean_each throws (is_expired now) (V.keys now st.sessions) now (0, st)

  -- performCleanup, whose two cleanups run here one after the other.
  unfoldable pub perform_cleanup : (throws throws_later : String → Bool) → ℕ → Store → Store
  perform_cleanup throws throws_later now st =
      (cleanup_expired_sessions throws_later now (cleanup_stale_sessions throws now st).1).1
