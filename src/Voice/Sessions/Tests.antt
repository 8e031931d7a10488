-- ===== src/Voice/Sessions/Tests.antt =====
-- Runs of voice-session.service.ts on stores in memory.
use xlm_pay.Base.{
  Bool, false, ℕ, String, ◌≡◌, refl, none, some, List, [], ◌∷◌, length, arith, eq_iff,
}
use xlm_pay.Voice.Conversation.{
  ConversationState, transition, can_transition, get_valid_next_states, is_interruptible,
}
use xlm_pay.Voice.Sessions.Stores.Memory.{values, values-ValuesLaws, sets}
use xlm_pay.Voice.Sessions.{
  VoiceSession, FeatureContext, Store, create, cleanup_stale_sessions, cleanup_expired_sessions,
  is_stale, is_expired, get_user_active_sessions, present, get_session, create_session,
  add_user_session, save_session, change_session, change_found, save_changed, update_session_state,
  interrupt_session, interrupted, moved, move_if, update_last_ping_at, pinged,
}
use xlm_pay.Voice.Sessions.Calls.{Call, step, run, Trace, IsKeyed, InOrder, NoneCreates, NotCreated}
use xlm_pay.Voice.Sessions.Refines.{run_refines}
use xlm_pay.Voice.Sessions.Cleanup.{cleanup_complete}

abbrev St : Type 0
St = Store (values VoiceSession) sets (values String)

abbrev run_all : List (ℕ × Call) → St → St
run_all = run (values VoiceSession) sets (values String)

abbrev empty : St
empty = record { sessions = []; user_sessions = []; active_sessions = [] }

abbrev born : VoiceSession
born = record {
  id = "s1";
  user_id = "u";
  wallet_address = none;
  context = FeatureContext.general;
  state = ConversationState.idle;
  messages = [];
  created_at = 0;
  last_activity_at = 0;
  last_ping_at = none;
  ttl = 3600;
  socket_id = none;
  metadata = none;
}

abbrev listening : VoiceSession
listening = record born { state = ConversationState.listening; last_activity_at = 1000 }

abbrev with_one : St
with_one = record {
  sessions = record { key = "s1"; value = born; expires = 3600000 } ∷ [];
  user_sessions = record { key = "u"; members = "s1" ∷ []; expires = some 3600000 } ∷ [];
  active_sessions = [];
}

-- The interruption is refused: a session that listens is not interruptible.
abbrev talk : List (ℕ × Call)
talk =
    (1000, Call.set_state "s1" ConversationState.listening)
    ∷ ((2000, Call.interrupt "s1")
        ∷ ((3000, Call.start "s2" "u" FeatureContext.trading none none) ∷ []))

with_one-IsKeyed : IsKeyed (values VoiceSession) sets (values String) 0 with_one
unfolding IsKeyed
with_one-IsKeyed k s h = ground (arith, eq_iff "s1" k, h)

talk-NoneCreates : NoneCreates "s1" talk
unfolding NoneCreates NotCreated
talk-NoneCreates = (tt, (tt, ((λ e. cc ((eq_iff "s1" "s2").1 e)), tt)))

talk-InOrder : InOrder 0 talk 4000
unfolding InOrder
talk-InOrder = (omega arith, (omega arith, (omega arith, omega arith)))

run_refines_example : Trace (values VoiceSession) sets (values String) 0 "s1" with_one listening
unfolding run step update_session_state change_session change_found save_changed save_session
    get_session moved move_if interrupt_session interrupted create_session get_user_active_sessions
    present add_user_session create transition can_transition get_valid_next_states is_interruptible
run_refines_example =
    run_refines (values VoiceSession) sets (values String) (values-ValuesLaws VoiceSession) "s1"
      talk 0 4000 with_one listening talk-InOrder talk-NoneCreates with_one-IsKeyed refl

abbrev never : String → Bool
never k = false

cleanup_complete_example :
    ((values VoiceSession).get "s1" 70000
          (cleanup_stale_sessions
            (values VoiceSession)
            sets
            (values String)
            never
            70000
            with_one).1.sessions
        ≡ some born
      → is_stale 70000 born ≡ false)
    × ((values VoiceSession).get "s1" 70000
            (cleanup_expired_sessions
              (values VoiceSession)
              sets
              (values String)
              never
              70000
              with_one).1.sessions
          ≡ some born
        → is_expired 70000 born ≡ false)
cleanup_complete_example =
    cleanup_complete (values VoiceSession) sets (values String) (values-ValuesLaws VoiceSession)
      70000 never with_one "s1" born (λ k. refl)

-- Three sessions that are pinged outlive the user's set, which expires an hour after the last one
-- was added; a fourth is created then.
abbrev kept_alive : List (ℕ × Call)
kept_alive =
    (0, Call.start "s1" "u" FeatureContext.general none none)
    ∷ ((0, Call.start "s2" "u" FeatureContext.general none none)
        ∷ ((0, Call.start "s3" "u" FeatureContext.general none none)
            ∷ ((3000000, Call.ping "s1")
                ∷ ((3000000, Call.ping "s2")
                    ∷ ((3000000, Call.ping "s3")
                        ∷ ((3700000, Call.start "s4" "u" FeatureContext.general none none)
                            ∷ []))))))

four_sessions :
    length (
      present
        (values VoiceSession)
        sets
        (values String)
        ("s1" ∷ ("s2" ∷ ("s3" ∷ ("s4" ∷ []))))
        3700000
        (run_all kept_alive empty))
    ≡ 4
unfolding run step change_session change_found save_changed save_session get_session create_session
    get_user_active_sessions present add_user_session create update_last_ping_at pinged
four_sessions = refl
