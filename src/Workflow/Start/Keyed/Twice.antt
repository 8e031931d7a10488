-- ===== src/Workflow/Start/Keyed/Twice.antt =====
-- startWorkflow, called again.
use xlm_pay.Base.{
  Option, none, some, ℕ, String, ◌≡◌, refl, sym, subst, true, List, [], ◌∷◌, get_or, Option-cases,
  Bool-cases, inl, inr,
}
use xlm_pay.Workflow.Entities.{Workflow, WorkflowStep, WorkflowDefinition}
use xlm_pay.Workflow.Services.{Services, Laws}
use xlm_pay.Workflow.Monad.{Outcome, ok, diverged, State, gets, pure, ◌>>=◌}
use xlm_pay.Workflow.Monad.Keeps.{Keeps, pure-Keeps, gets-Keeps, bind-Keeps}
use xlm_pay.Workflow.Execution.Engine.{Definitions}
use xlm_pay.Workflow.Start.{
  Starting, StartRequest, start_with_key, finally, create_and_execute, insert_or_throw,
  insert_result, execute_saved, with_object, acquire_workflow_lock, release_workflow_lock,
  release_if_own, finally_run, get_workflow_lock_key, is_token, new_workflow, new_steps, save_steps,
}
use xlm_pay.Workflow.Start.Keyed.{KeyLaws, IsKeyed, IsKeyedState, save_step-IsKeyed}
use xlm_pay.Workflow.Start.Keyed.Steps.{execute_workflow-IsKeyed}

module _ (S : Services) (G : Starting S) (L : Laws S) (K : KeyLaws S G) where
  save_steps-IsKeyed :
      (id key : String) (ss : List WorkflowStep) (d : S.Db)
      → IsKeyed S G id key d
      → IsKeyed S G id key (save_steps S G ss d)
  unfolding save_steps
  save_steps-IsKeyed id key [] d h = h
  save_steps-IsKeyed id key (s ∷ ss) d h =
      save_steps-IsKeyed id key ss (S.save_step s d) (save_step-IsKeyed S G L K id key s d h)

  with_object-db :
      (o : Outcome (Unit {0})) (w : Workflow) (st : State S) → (with_object S G o w st).1.db ≡ st.db
  unfolding with_object
  with_object-db (Outcome.ok u) w st = refl
  with_object-db (Outcome.throw e) w st = refl
  with_object-db diverged w st = refl

  execute_saved-IsKeyed :
      (definitions : Definitions S.World) (w : Workflow)
      → Keeps (IsKeyedState S G w.id w.idempotency_key) (execute_saved S G definitions w)
  unfolding execute_saved Keeps IsKeyedState
  execute_saved-IsKeyed definitions w st h =
      subst (IsKeyed S G w.id w.idempotency_key) (sym (with_object-db _ _ _))
        (execute_workflow-IsKeyed S G L K w.id w.idempotency_key definitions
          (record { db = st.db; world = st.world; workflow = w })
          (record { keyed = h; object_id = refl; object_key = refl })).keyed

  insert-IsKeyed :
      (w : Workflow) (d e : S.Db)
      → G.insert_workflow w d ≡ some e
      → IsKeyed S G w.id w.idempotency_key e
  insert-IsKeyed w d e f = record {
    there = K.find_by_key-insert_workflow w d e f;
    same_key = λ v found. cc (K.find_workflow-insert_workflow w d e f, found);
  }

  executed-IsKeyed :
      (definitions : Definitions S.World) (w : Workflow)
      → Keeps (IsKeyedState S G w.id w.idempotency_key) (do
        saved ← execute_saved S G definitions w
        found ← gets λ st. S.find_workflow w.id st.db
        pure (get_or found saved))
  executed-IsKeyed definitions w = bind-Keeps P _ _ (execute_saved-IsKeyed definitions w) λ saved.
      bind-Keeps P _ _ (gets-Keeps P λ st. S.find_workflow w.id st.db)
        λ found. pure-Keeps P (get_or found saved)
    where
      P : State S → Type 0
      P = IsKeyedState S G w.id w.idempotency_key

  create-IsKeyed :
      (definitions : Definitions S.World) (definition : WorkflowDefinition S.World) (key : String)
      (r : StartRequest) (id : String) (step_ids : ℕ → String) (st : State S) (e : S.Db)
      → G.insert_workflow (new_workflow id key r definition) st.db ≡ some e
      → IsKeyed S G id key (create_and_execute S G definitions definition key r id step_ids st).1.db
  unfolding create_and_execute insert_or_throw insert_result IsKeyedState Keeps new_workflow
  create-IsKeyed definitions definition key r id step_ids st e f = rw f (
      executed-IsKeyed definitions (new_workflow id key r definition)
        (record st { db = save_steps S G (new_steps step_ids id 0 definition.steps) e })
        (save_steps-IsKeyed id key (new_steps step_ids id 0 definition.steps) e
          (insert-IsKeyed (new_workflow id key r definition) st.db e f)))

  release-db :
      (lock_key token : String) (st : State S)
      → (release_workflow_lock S G lock_key token st).1.db ≡ st.db
  unfolding release_workflow_lock release_if_own
  release-db lock_key token st = by_get (G.get lock_key st.world)
    where
      by_get : (o : Option (Option String)) → (release_if_own S G lock_key token o st).1.db ≡ st.db
      by_get none = refl
      by_get (some o) = elim (Bool-cases (is_token S G token o)) [
        | inl e ↦ rw e refl
        | inr e ↦ rw e refl
      ]

  finally-db :
      (lock_key token : String) (p : Outcome Workflow × State S)
      → (finally_run S G (release_workflow_lock S G lock_key token) p).1.db ≡ p.1.db
  unfolding finally_run
  finally-db lock_key token (Outcome.ok w, st) = release-db lock_key token st
  finally-db lock_key token (Outcome.throw e, st) = release-db lock_key token st
  finally-db lock_key token (diverged, st) = refl

  -- Once a start has got the lock and inserted its row, whatever came of its run, every later start
  -- with the same key returns the row that is there and changes nothing, while nothing else happens
  -- between the two.
  pub start_with_key-again :
      (definitions : Definitions S.World) (definition : WorkflowDefinition S.World) (key : String)
      (r : StartRequest) (id token : String) (step_ids : ℕ → String) (st : State S) (e : S.Db)
      → (G.set_nx (get_workflow_lock_key key) token 3600 st.world).0 ≡ true
      → G.insert_workflow (new_workflow id key r definition) st.db ≡ some e
      → (after : State S)
      → (start_with_key S G definitions definition key r id token step_ids none st).1 ≡ after
      → (w : Workflow) × ((definitions' : Definitions S.World)
            (definition' : WorkflowDefinition S.World) (r' : StartRequest) (id' token' : String)
            (step_ids' : ℕ → String)
          → start_with_key S G definitions' definition' key r' id' token' step_ids'
              (G.find_by_key key after.db)
              after
            ≡ (ok w, after))
  unfolding start_with_key acquire_workflow_lock finally
  start_with_key-again definitions definition key r id token step_ids st e got f after run =
      elim (Option-cases (G.find_by_key key after.db)) [
        | inl g ↦ absurd (keyed.there g)
        | inr (w, g) ↦ (w, λ ds d q i t s. rw g refl)
      ]
    where
      locked : State S
      locked = record st { world = (G.set_nx (get_workflow_lock_key key) token 3600 st.world).1 }

      executed : Outcome Workflow × State S
      executed = create_and_execute S G definitions definition key r id step_ids locked

      keyed : IsKeyed S G id key after.db
      keyed =
          subst (λ s. IsKeyed S G id key s.db) run
            (rw got (
              subst (IsKeyed S G id key)
                (sym (finally-db (get_workflow_lock_key key) token executed))
                (create-IsKeyed definitions definition key r id step_ids locked e f)))
