-- ===== src/Voice/Sessions/Cleanup.antt =====
-- The cleanups of voice-session.service.ts.
use xlm_pay.Base.{
  ℕ, String, ◌≡◌, refl, sym, subst, ◌∙◌, Bool, true, false, ◌||◌, Option, none, some, List, [], ◌∷◌,
  str_eq, eq_iff, Bool-cases, inl, inr, arith,
}
use xlm_pay.Voice.Sessions.Stores.{Values, ValuesLaws, Sets, among}
use xlm_pay.Voice.Sessions.{
  VoiceSession, Store, is_stale, is_expired, get_session, terminate_session, terminate_found,
  remove_user_session, clean_found, clean_each, cleanup_stale_sessions, cleanup_expired_sessions,
}
use xlm_pay.Voice.Sessions.Steps.{clear-sessions}

second_true : (a b : Bool) → (a || b) ≡ true → a ≡ false → b ≡ true
second_true a b e f = ground arith

module _ (V : Values VoiceSession) (U : Sets) (A : Values String) (L : ValuesLaws V) (now : ℕ) where
  abbrev St : Type 0
  St = Store V U A

  -- What is there in the second store is there in the first.
  Fewer : St → St → Type 0
  Fewer st st' =
      (i : String) (s : VoiceSession)
      → V.get i now st'.sessions ≡ some s
      → V.get i now st.sessions ≡ some s

  deleted : (j : String) (st st' : St) → st'.sessions ≡ V.del j st.sessions → Fewer st st'
  unfolding Fewer
  deleted j st st' e i s h = elim (Bool-cases (str_eq i j)) [
    | inl q ↦ absurd (cc (L.get-del j now st.sessions, gone, (eq_iff i j).0 q))
    | inr q ↦ sym (L.get-del_other i j now st.sessions (λ f. cc ((eq_iff i j).1 f, q))) ∙ gone
  ]
    where
      gone : V.get i now (V.del j st.sessions) ≡ some s
      gone = subst (λ d. V.get i now d ≡ some s) e h

  terminated-sessions :
      (j : String) (s : VoiceSession) (st : St)
      → (terminate_found V U A j (some s) now st).1.sessions ≡ V.del j st.sessions
  unfolding terminate_found remove_user_session
  terminated-sessions j s st = clear-sessions V U A L s.user_id j now _

  module _ (test : VoiceSession → Bool) where
    -- A turn of the loop takes away the session with the id, if it passes the test, and no other.
    clean_found-Fewer :
        (j : String) (o : Option VoiceSession) (n : ℕ) (st : St)
        → V.get j now st.sessions ≡ o
        → Fewer st (clean_found V U A test j o now (n, st)).1
    unfolding clean_found terminate_session get_session Fewer
    clean_found-Fewer j none n st e = λ i s h. h
    clean_found-Fewer j (some r) n st e = elim (Bool-cases (test r)) [
      | inl q ↦
          rw (q, e)
            (deleted j st (terminate_found V U A j (some r) now st).1 (terminated-sessions j r st))
      | inr q ↦ rw q (λ i s h. h)
    ]

    clean_found-test :
        (j : String) (o : Option VoiceSession) (n : ℕ) (st : St) (s : VoiceSession)
        → V.get j now st.sessions ≡ o
        → V.get j now (clean_found V U A test j o now (n, st)).1.sessions ≡ some s
        → test s ≡ false
    unfolding clean_found terminate_session get_session
    clean_found-test j none n st s e = λ h. cc (h, e)
    clean_found-test j (some r) n st s e = elim (Bool-cases (test r)) [
      | inl q ↦
          rw (q, e)
            (λ h. absurd (
              cc (
                L.get-del j now st.sessions,
                subst (λ d. V.get j now d ≡ some s) (terminated-sessions j r st) h,
              )))
      | inr q ↦ rw q (λ h. kept (cc (h, e)) q)
    ]
      where
        kept : r ≡ s → test r ≡ false → test s ≡ false
        kept p q = subst (λ x. test x ≡ false) p q

    clean_each-Fewer :
        (throws : String → Bool) (js : List String) (n : ℕ) (st : St)
        → Fewer st (clean_each V U A throws test js now (n, st)).1
    unfolding clean_each Fewer get_session
    clean_each-Fewer throws [] n st i s = λ h. h
    clean_each-Fewer throws (j ∷ js) n st i s = elim (Bool-cases (throws j)) [
      | inl e ↦ rw e (λ h. h)
      | inr e ↦ rw e (λ h.
          clean_found-Fewer j (V.get j now st.sessions) n st refl i s
            (clean_each-Fewer throws js _ _ i s h))
    ]

    clean_each-test :
        (throws : String → Bool) (js : List String) (i : String) (n : ℕ) (st : St)
        (s : VoiceSession)
        → ((k : String) → throws k ≡ false)
        → among i js ≡ true
        → V.get i now (clean_each V U A throws test js now (n, st)).1.sessions ≡ some s
        → test s ≡ false
    unfolding clean_each Fewer get_session
    clean_each-test throws [] i n st s none_throws m = λ h. cc
    clean_each-test throws (j ∷ js) i n st s none_throws m = rw (none_throws j) (λ h.
        elim (Bool-cases (str_eq j i)) [
          | inl q ↦ clean_found-test j (V.get j now st.sessions) n st s refl (
              subst
                (λ k.
                  V.get k now
                    (clean_found V U A test j (V.get j now st.sessions) now (n, st)).1.sessions
                  ≡ some s)
                (sym ((eq_iff j i).0 q)) (clean_each-Fewer throws js _ _ i s h))
          | inr q ↦
              clean_each-test throws js i _ _ s none_throws
                (second_true (str_eq j i) (among i js) m q) h
        ])

    -- A cleanup over the keys that a scan named.
    cleaned :
        (throws : String → Bool) (i : String) (st : St) (s : VoiceSession)
        → ((k : String) → throws k ≡ false)
        → V.get i now (clean_each V U A throws test (V.keys now st.sessions) now (0, st)).1.sessions
          ≡ some s
        → test s ≡ false
    unfolding Fewer
    cleaned throws i st s none_throws h = elim (Bool-cases (among i (V.keys now st.sessions))) [
      | inl q ↦ clean_each-test throws (V.keys now st.sessions) i 0 st s none_throws q h
      | inr q ↦ absurd (
          cc (
            L.keys-all i now st.sessions q,
            clean_each-Fewer throws (V.keys now st.sessions) 0 st i s h,
          ))
    ]

  -- Where no read of a session throws: after the cleanup of stale sessions no session is left that is neither TERMINATED nor STALE and
  -- has been silent for more than a minute, and after the cleanup of expired sessions none that has
  -- been inactive for longer than its TTL.
  pub cleanup_complete :
      (throws : String → Bool) (st : St) (i : String) (s : VoiceSession)
      → ((k : String) → throws k ≡ false)
      → (V.get i now (cleanup_stale_sessions V U A throws now st).1.sessions ≡ some s
          → is_stale now s ≡ false)
        × (V.get i now (cleanup_expired_sessions V U A throws now st).1.sessions ≡ some s
            → is_expired now s ≡ false)
  unfolding cleanup_stale_sessions cleanup_expired_sessions
  cleanup_complete throws st i s none_throws = (
    cleaned (is_stale now) throws i st s none_throws,
    cleaned (is_expired now) throws i st s none_throws,
  )
