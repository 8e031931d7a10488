-- ===== src/Voice/Sessions/Refines.antt =====
-- Histories of calls of voice-session.service.ts against the conversation state machine.
use xlm_pay.Base.{
  ℕ, String, ◌≤◌, ◌≡◌, refl, sym, ap, subst, ◌∙◌, true, false, Option, some, List, [], ◌∷◌, ◌++◌,
  arith, leb, length, str_eq, eq_iff, Bool-cases, inl, inr, ◌⊎◌,
}
use xlm_pay.Base.Json.{Fields}
use xlm_pay.Voice.Conversation.Sinks.{follow}
use xlm_pay.Voice.Sessions.Stores.{Values, ValuesLaws, Sets}
use xlm_pay.Voice.Sessions.{
  VoiceSession, FeatureContext, Store, create, save_session, add_user_session,
  get_user_active_sessions, create_session, max_sessions_per_user,
}
use xlm_pay.Voice.Sessions.Calls.{
  Call, NotCreated, step, run, IsKeyed, Trace, Traces, InOrder, NoneCreates,
}
use xlm_pay.Voice.Sessions.Moves.{follow-append}
use xlm_pay.Voice.Sessions.Steps.{step-Traces}

module _ (V : Values VoiceSession) (U : Sets) (A : Values String) (L : ValuesLaws V) where
  traced-IsKeyed :
      (t u : ℕ) (st st' : Store V U A)
      → t ≤ u
      → IsKeyed V U A t st
      → ((i : String) → Traces V U A t i st st')
      → IsKeyed V U A u st'
  unfolding IsKeyed Traces
  traced-IsKeyed t u st st' later k traces i s h =
      let x = traces i u s later h in x.same_id ∙ k i x.before x.there

  created-IsKeyed :
      (t u : ℕ) (st : Store V U A) (id user : String) (c : FeatureContext) (w : Option String)
      (m : Option Fields)
      → t ≤ u
      → IsKeyed V U A t st
      → IsKeyed V U A u (create_session V U A id user c w m t st).1
  unfolding IsKeyed create_session add_user_session save_session create
  created-IsKeyed t u st id user c w m later k i s =
      elim (Bool-cases
        (leb max_sessions_per_user (length (get_user_active_sessions V U A user t st)))) [
          | inl e ↦ rw e (λ h. k i s (L.get-later i t u st.sessions s later h))
          | inr e ↦ rw e (λ h. written (Bool-cases (str_eq i id)) h)
        ]
    where
      r : VoiceSession
      r = create id user c w m t

      written :
          (str_eq i id ≡ true) ⊎ (str_eq i id ≡ false)
          → V.get i u (V.set_ex id r.ttl r t st.sessions) ≡ some s
          → s.id ≡ i
      written (inl q) h =
          let at : i ≡ id = (eq_iff i id).0 q in
          ap (λ x. x.id)
            (L.get-set_ex id r.ttl t u r s st.sessions later
              (subst (λ k. V.get k u (V.set_ex id r.ttl r t st.sessions) ≡ some s) at h))
          ∙ sym at
      written (inr q) h = k i s (
          L.get-later i t u st.sessions s later (
            sym (L.get-set_ex_other i id r.ttl t u r st.sessions (λ e. cc ((eq_iff i id).1 e, q)))
            ∙ h))

  not_start :
      (c : Call) (t u : ℕ) (st : Store V U A)
      → t ≤ u
      → IsKeyed V U A t st
      → ((i : String) → NotCreated i c)
      → IsKeyed V U A u (step V U A c t st)
  not_start c t u st later k new =
      traced-IsKeyed t u st _ later k (λ i. step-Traces V U A L i c t st (new i) k)

  step-IsKeyed :
      (c : Call) (t u : ℕ) (st : Store V U A)
      → t ≤ u
      → IsKeyed V U A t st
      → IsKeyed V U A u (step V U A c t st)
  unfolding NotCreated step
  step-IsKeyed (Call.start id user c w m) t u st later k =
      created-IsKeyed t u st id user c w m later k
  step-IsKeyed (Call.set_state id s) t u st later k =
      not_start (Call.set_state id s) t u st later k (λ _. tt)
  step-IsKeyed (Call.message id m) t u st later k =
      not_start (Call.message id m) t u st later k (λ _. tt)
  step-IsKeyed (Call.interrupt id) t u st later k =
      not_start (Call.interrupt id) t u st later k (λ _. tt)
  step-IsKeyed (Call.resume id) t u st later k = not_start (Call.resume id) t u st later k (λ _. tt)
  step-IsKeyed (Call.socket id s) t u st later k =
      not_start (Call.socket id s) t u st later k (λ _. tt)
  step-IsKeyed (Call.ping id) t u st later k = not_start (Call.ping id) t u st later k (λ _. tt)
  step-IsKeyed (Call.terminate id) t u st later k =
      not_start (Call.terminate id) t u st later k (λ _. tt)
  step-IsKeyed (Call.set_active v id) t u st later k =
      not_start (Call.set_active v id) t u st later k (λ _. tt)
  step-IsKeyed (Call.delete_active v) t u st later k =
      not_start (Call.delete_active v) t u st later k (λ _. tt)
  step-IsKeyed (Call.refresh v) t u st later k = not_start (Call.refresh v) t u st later k (λ _. tt)
  step-IsKeyed (Call.cleanup f g) t u st later k =
      not_start (Call.cleanup f g) t u st later k (λ _. tt)

  later_IsKeyed : (t u : ℕ) (st : Store V U A) → t ≤ u → IsKeyed V U A t st → IsKeyed V U A u st
  unfolding IsKeyed
  later_IsKeyed t u st later k i s h = k i s (L.get-later i t u st.sessions s later h)

  -- The conversation state machine is what the sessions run: after any calls in the order of their
  -- times, the state of a session that is there and that no call created is one which requests to
  -- the machine lead to from the state it had before the calls, each request refused or allowed by
  -- the machine's table.
  pub run_refines :
      (i : String) (cs : List (ℕ × Call)) (t u : ℕ) (st : Store V U A) (s : VoiceSession)
      → InOrder t cs u
      → NoneCreates i cs
      → IsKeyed V U A t st
      → V.get i u (run V U A cs st).sessions ≡ some s
      → Trace V U A t i st s
  unfolding run InOrder NoneCreates Traces follow
  run_refines i [] t u st s later new k h = record {
    before = s;
    there = L.get-later i t u st.sessions s later h;
    same_id = refl;
    requests = [];
    path = refl;
  }
  run_refines i ((n, c) ∷ cs) t u st s (later, order) (new, news) k h =
      let k' = later_IsKeyed t n st later k in
      let y =
        run_refines i cs n u (step V U A c n st) s order news
          (step-IsKeyed c n n st (omega arith) k') h in
      let x = step-Traces V U A L i c n st new k' n y.before (omega arith) y.there in
      record {
        before = x.before;
        there = L.get-later i t n st.sessions x.before later x.there;
        same_id = y.same_id ∙ x.same_id;
        requests = x.requests ++ y.requests;
        path =
            y.path
            ∙ (ap (λ q. follow q y.requests) x.path
                ∙ sym (follow-append x.before.state x.requests y.requests));
      }
