-- ===== src/Workflow/Start/Release.antt =====
-- The lock after startWorkflow has held it.
use xlm_pay.Base.{
  ℕ, String, ◌≡◌, ◌≢◌, refl, true, false, Option, none, some, arith, eq_iff, Bool-cases, inl, inr,
}
use xlm_pay.Workflow.Entities.{Workflow, WorkflowDefinition}
use xlm_pay.Workflow.Services.{Services}
use xlm_pay.Workflow.Monad.{State, Outcome, diverged}
use xlm_pay.Workflow.Execution.Engine.{Definitions}
use xlm_pay.Workflow.Start.{
  Starting, StartRequest, start_with_key, finally, finally_run, acquire_workflow_lock,
  release_workflow_lock, release_if_own, get_workflow_lock_key, is_token,
}

module _ (S : Services) (G : Starting S) where
  -- Redis answers GET, and a key that DEL has been called for is not there.
  abbrev pub Answers : Type 0
  Answers = (k : String) (w : S.World) → G.get k w ≢ none

  abbrev pub Deletes : Type 0
  Deletes = (k : String) (w : S.World) → G.get k (G.del k w).1 ≡ some none

  release-free :
      (key token : String) (st : State S)
      → Answers
      → Deletes
      → G.get key (release_workflow_lock S G key token st).1.world ≢ some (some token)
  unfolding release_workflow_lock release_if_own
  release-free key token st answers deletes = by_get (G.get key st.world) refl
    where
      other : (o : Option String) → is_token S G token o ≡ false → some o ≢ some (some token)
      other none e p = cc
      other (some t) e p = ground (arith, eq_iff t token, e, p)

      by_get :
          (o : Option (Option String))
          → G.get key st.world ≡ o
          → G.get key (release_if_own S G key token o st).1.world ≢ some (some token)
      by_get none e = absurd (answers key st.world e)
      by_get (some o) e = elim (Bool-cases (is_token S G token o)) [
        | inl f ↦ rw f (λ p. cc (deletes key st.world))
        | inr f ↦ rw (f, e) (other o f)
      ]

  finally-free :
      (key token : String) (p : Outcome Workflow × State S)
      → Answers
      → Deletes
      → (finally_run S G (release_workflow_lock S G key token) p).0 ≢ diverged
      → G.get key (finally_run S G (release_workflow_lock S G key token) p).1.world
        ≢ some (some token)
  unfolding finally_run
  finally-free key token (Outcome.ok w, st) answers deletes ends =
      release-free key token st answers deletes
  finally-free key token (Outcome.throw e, st) answers deletes ends =
      release-free key token st answers deletes
  finally-free key token (diverged, st) answers deletes ends = absurd (ends refl)

  -- A start that got the lock does not hold it any more when it ends, whether the workflow succeeded
  -- or failed, if Redis answers the GET and carries out the DEL of the release: a value of the key
  -- that is there then is not its token.
  pub start_with_key-free :
      (definitions : Definitions S.World) (definition : WorkflowDefinition S.World) (key : String)
      (r : StartRequest) (id token : String) (step_ids : ℕ → String) (st : State S)
      → Answers
      → Deletes
      → (G.set_nx (get_workflow_lock_key key) token 3600 st.world).0 ≡ true
      → (start_with_key S G definitions definition key r id token step_ids none st).0 ≢ diverged
      → G.get
          (get_workflow_lock_key key)
          (start_with_key S G definitions definition key r id token step_ids none st).1.world
        ≢ some (some token)
  unfolding start_with_key acquire_workflow_lock finally
  start_with_key-free definitions definition key r id token step_ids st answers deletes got =
      rw got (finally-free (get_workflow_lock_key key) token _ answers deletes)
