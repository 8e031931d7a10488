-- ===== src/Voice/Sessions/Steps.antt =====
-- Each call of voice-session.service.ts against the conversation state machine.
use xlm_pay.Base.{
  ℕ, String, ◌≡◌, ◌≢◌, refl, sym, ap, subst, ◌∙◌, Bool, false, Option, none, some, List, [], ◌∷◌,
  ◌++◌, arith, leb, length, str_eq, eq_iff, Bool-cases, inl, inr,
}
use xlm_pay.Base.Json.{Fields}
use xlm_pay.Voice.Conversation.{ConversationState}
use xlm_pay.Voice.Conversation.Sinks.{follow}
use xlm_pay.Voice.Sessions.Stores.{Values, ValuesLaws, Sets}
use xlm_pay.Voice.Sessions.{
  VoiceSession, FeatureContext, Store, create, is_stale, is_expired, get_session, save_session,
  add_user_session, get_user_active_sessions, create_session, save_changed, change_found,
  change_session, update_session_state, add_message, interrupt_session, resume_session,
  update_session_socket, update_last_ping_at, set_user_active_session, delete_user_active_session,
  refresh_user_session_ttl, clear_user_active_session_if_matches, is_session, remove_user_session,
  get_user_active_session, terminate_found, terminate_session, clean_found, clean_each,
  cleanup_stale_sessions, cleanup_expired_sessions, perform_cleanup, with_message, with_socket,
  pinged, max_sessions_per_user,
}
use xlm_pay.Voice.Sessions.Calls.{Call, NotCreated, step, IsKeyed, Traces}
use xlm_pay.Voice.Sessions.Moves.{
  IsMove, follow-append, moved-IsMove, resumed-IsMove, interrupted-IsMove, still-IsMove,
}

module _ (V : Values VoiceSession) (U : Sets) (A : Values String) (L : ValuesLaws V) where
  abbrev St : Type 0
  St = Store V U A

  -- The session that is still there is its own trace.
  pub unchanged :
      (t : ℕ) (i : String) (st st' : St) → st'.sessions ≡ st.sessions → Traces V U A t i st st'
  unfolding Traces follow
  unchanged t i st st' e u s later g = record {
    before = s;
    there = L.get-later i t u st.sessions s later (subst (λ d. V.get i u d ≡ some s) e g);
    same_id = refl;
    requests = [];
    path = refl;
  }

  saved-Traces :
      (j i : String) (t : ℕ) (st : St) (s r : VoiceSession) (ts : List ConversationState)
      → V.get j t st.sessions ≡ some s
      → s.id ≡ j
      → r.id ≡ s.id
      → r.state ≡ follow s.state ts
      → Traces V U A t i st (save_session V U A r t st)
  unfolding Traces save_session
  saved-Traces j i t st s r ts e own same path u w later h = elim (Bool-cases (str_eq i r.id)) [
    | inl q ↦
        let at : i ≡ r.id = (eq_iff i r.id).0 q in
        let written : w ≡ r =
          L.get-set_ex r.id r.ttl t u r w st.sessions later
            (subst (λ k. V.get k u (V.set_ex r.id r.ttl r t st.sessions) ≡ some w) at h) in
        record {
          before = s;
          there = subst (λ k. V.get k t st.sessions ≡ some s) (sym (at ∙ (same ∙ own))) e;
          same_id = ap (λ x. x.id) written ∙ same;
          requests = ts;
          path = ap (λ x. x.state) written ∙ path;
        }
    | inr q ↦
        unchanged t i st st refl u w later
          (sym (L.get-set_ex_other i r.id r.ttl t u r st.sessions (differ q)) ∙ h)
  ]
    where
      differ : str_eq i r.id ≡ false → i ≢ r.id
      differ q e = cc ((eq_iff i r.id).1 e, q)

  moved-Traces :
      (j i : String) (f : VoiceSession → Option VoiceSession) (t : ℕ) (st : St) (s : VoiceSession)
      → IsMove f
      → V.get j t st.sessions ≡ some s
      → s.id ≡ j
      → (o : Option VoiceSession) → f s ≡ o
      → Traces V U A t i st (save_changed V U A o t st).1
  unfolding save_changed
  moved-Traces j i f t st s m e own none g = unchanged t i st st refl
  moved-Traces j i f t st s m e own (some r) g =
      saved-Traces j i t st s r (m.requests s) e own (m.keeps_id s r g) (m.path s r g)

  found-Traces :
      (j i : String) (f : VoiceSession → Option VoiceSession) (t : ℕ) (st : St)
      → IsMove f
      → IsKeyed V U A t st
      → (o : Option VoiceSession) → V.get j t st.sessions ≡ o
      → Traces V U A t i st (change_found V U A f o t st).1
  unfolding change_found IsKeyed
  found-Traces j i f t st m k none e = unchanged t i st st refl
  found-Traces j i f t st m k (some s) e = moved-Traces j i f t st s m e (k j s e) (f s) refl

  change-Traces :
      (j i : String) (f : VoiceSession → Option VoiceSession) (t : ℕ) (st : St)
      → IsMove f
      → IsKeyed V U A t st
      → Traces V U A t i st (change_session V U A j f t st).1
  unfolding change_session get_session
  change-Traces j i f t st m k = found-Traces j i f t st m k (V.get j t st.sessions) refl

  -- A deletion only takes away.
  deleted-Traces :
      (j i : String) (t : ℕ) (st st' : St)
      → st'.sessions ≡ V.del j st.sessions
      → Traces V U A t i st st'
  unfolding Traces
  deleted-Traces j i t st st' d u s later h = elim (Bool-cases (str_eq i j)) [
    | inl q ↦ absurd (cc (L.get-del j u st.sessions, gone, (eq_iff i j).0 q))
    | inr q ↦
        unchanged t i st st refl u s later
          (sym (L.get-del_other i j u st.sessions (λ e. cc ((eq_iff i j).1 e, q))) ∙ gone)
  ]
    where
      gone : V.get i u (V.del j st.sessions) ≡ some s
      gone = subst (λ d'. V.get i u d' ≡ some s) d h

  pub clear-sessions :
      (u j : String) (t : ℕ) (st : St)
      → (clear_user_active_session_if_matches V U A u j t st).sessions ≡ st.sessions
  unfolding clear_user_active_session_if_matches delete_user_active_session
  clear-sessions u j t st =
      elim (Bool-cases (is_session V U A j (get_user_active_session V U A u t st))) [
        | inl e ↦ rw e refl
        | inr e ↦ rw e refl
      ]

  terminate_found-Traces :
      (j i : String) (o : Option VoiceSession) (t : ℕ) (st : St)
      → Traces V U A t i st (terminate_found V U A j o t st).1
  unfolding terminate_found remove_user_session
  terminate_found-Traces j i none t st = unchanged t i st st refl
  terminate_found-Traces j i (some s) t st =
      deleted-Traces j i t st _ (clear-sessions s.user_id j t _)

  -- One change after another at the same time.
  then-Traces :
      (t : ℕ) (i : String) (a b c : St)
      → Traces V U A t i a b
      → Traces V U A t i b c
      → Traces V U A t i a c
  unfolding Traces
  then-Traces t i a b c first second u s later h =
      let y = second u s later h in
      let x = first t y.before (omega arith) y.there in
      record {
        before = x.before;
        there = x.there;
        same_id = y.same_id ∙ x.same_id;
        requests = x.requests ++ y.requests;
        path =
            y.path
            ∙ (ap (λ q. follow q y.requests) x.path
                ∙ sym (follow-append x.before.state x.requests y.requests));
      }

  clean_found-Traces :
      (test : VoiceSession → Bool) (j i : String) (o : Option VoiceSession) (t n : ℕ) (st : St)
      → Traces V U A t i st (clean_found V U A test j o t (n, st)).1
  unfolding clean_found terminate_session
  clean_found-Traces test j i none t n st = unchanged t i st st refl
  clean_found-Traces test j i (some s) t n st = elim (Bool-cases (test s)) [
    | inl e ↦ rw e (terminate_found-Traces j i (get_session V U A j t st) t st)
    | inr e ↦ rw e (unchanged t i st st refl)
  ]

  clean_each-Traces :
      (throws : String → Bool) (test : VoiceSession → Bool) (js : List String) (i : String)
      (t n : ℕ) (st : St)
      → Traces V U A t i st (clean_each V U A throws test js t (n, st)).1
  unfolding clean_each
  clean_each-Traces throws test [] i t n st = unchanged t i st st refl
  clean_each-Traces throws test (j ∷ js) i t n st = elim (Bool-cases (throws j)) [
    | inl e ↦ rw e (unchanged t i st st refl)
    | inr e ↦ rw e (
        then-Traces t i st _ _ (clean_found-Traces test j i (get_session V U A j t st) t n st)
          (clean_each-Traces throws test js i t _ _))
  ]

  cleanup-Traces :
      (f g : String → Bool) (i : String) (t : ℕ) (st : St)
      → Traces V U A t i st (perform_cleanup V U A f g t st)
  unfolding perform_cleanup cleanup_stale_sessions cleanup_expired_sessions
  cleanup-Traces f g i t st =
      then-Traces t i st _ _ (clean_each-Traces f (is_stale t) _ i t 0 st)
        (clean_each-Traces g (is_expired t) _ i t 0 _)

  create-Traces :
      (i id : String) (t : ℕ) (st st' : St) (r : VoiceSession)
      → r.id ≡ id
      → i ≢ id
      → st'.sessions ≡ (save_session V U A r t st).sessions
      → Traces V U A t i st st'
  unfolding Traces save_session
  create-Traces i id t st st' r own other e u s later h = unchanged t i st st refl u s later (
      sym (L.get-set_ex_other i r.id r.ttl t u r st.sessions (λ q. other (q ∙ own)))
      ∙ subst (λ d. V.get i u d ≡ some s) e h)

  created-Traces :
      (i id u : String) (c : FeatureContext) (w : Option String) (m : Option Fields) (t : ℕ)
      (st : St)
      → i ≢ id
      → Traces V U A t i st (create_session V U A id u c w m t st).1
  unfolding create_session add_user_session create
  created-Traces i id u c w m t st other =
      elim (Bool-cases
        (leb max_sessions_per_user (length (get_user_active_sessions V U A u t st)))) [
          | inl e ↦ rw e (unchanged t i st st refl)
          | inr e ↦ rw e (create-Traces i id t st _ (create id u c w m t) refl other refl)
        ]

  -- A call that does not create the session.
  pub step-Traces :
      (i : String) (c : Call) (t : ℕ) (st : St)
      → NotCreated i c
      → IsKeyed V U A t st
      → Traces V U A t i st (step V U A c t st)
  unfolding step NotCreated update_session_state add_message interrupt_session resume_session
      update_session_socket update_last_ping_at set_user_active_session delete_user_active_session
      refresh_user_session_ttl terminate_session with_message with_socket pinged
  step-Traces i (Call.start id u c w m) t st new k = created-Traces i id u c w m t st new
  step-Traces i (Call.set_state id s) t st new k = change-Traces id i _ t st (moved-IsMove s t) k
  step-Traces i (Call.message id m) t st new k =
      change-Traces id i _ t st (still-IsMove _ (λ s. refl) (λ s. refl)) k
  step-Traces i (Call.interrupt id) t st new k = change-Traces id i _ t st (interrupted-IsMove t) k
  step-Traces i (Call.resume id) t st new k = change-Traces id i _ t st (resumed-IsMove t) k
  step-Traces i (Call.socket id s) t st new k =
      change-Traces id i _ t st (still-IsMove _ (λ s. refl) (λ s. refl)) k
  step-Traces i (Call.ping id) t st new k =
      change-Traces id i _ t st (still-IsMove _ (λ s. refl) (λ s. refl)) k
  step-Traces i (Call.terminate id) t st new k =
      terminate_found-Traces id i (get_session V U A id t st) t st
  step-Traces i (Call.set_active u id) t st new k = unchanged t i st _ refl
  step-Traces i (Call.delete_active u) t st new k = unchanged t i st _ refl
  step-Traces i (Call.refresh u) t st new k = unchanged t i st _ refl
  step-Traces i (Call.cleanup f g) t st new k = cleanup-Traces f g i t st
