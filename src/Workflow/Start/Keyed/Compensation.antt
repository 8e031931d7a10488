-- ===== src/Workflow/Start/Keyed/Compensation.antt =====
-- compensateWorkflow on the row of a key.
use Prim.Native.String.{◌++◌}
use xlm_pay.Base.{ℕ, true, String, ◌≡◌, some, List, [], ◌∷◌, Option-cases, inl, inr}
use xlm_pay.Workflow.Entities.{Workflow, WorkflowStep}
use xlm_pay.Workflow.Services.{Services, Laws}
use xlm_pay.Workflow.StateMachine.{
  WorkflowState, StepState, transition_workflow, transition_step, can_workflow_compensate,
}
use xlm_pay.Workflow.Monad.{State, modify, message}
use xlm_pay.Workflow.Monad.Keeps.{
  Keeps, pure-Keeps, raise-Keeps, gets-Keeps, modify-Keeps, require-Keeps, if-Keeps, bind-Keeps,
  catch-Keeps,
}
use xlm_pay.Workflow.Compensation.{
  compensate_step, compensate_steps, compensate_found, compensate_workflow, compensation_order,
}
use xlm_pay.Workflow.Start.{Starting}
use xlm_pay.Workflow.Start.Keyed.{KeyLaws, IsKeyedState, save_workflow-IsKeyed, save_step-IsKeyed}

module _ (S : Services) (G : Starting S) (L : Laws S) (K : KeyLaws S G) (id key : String) where
  abbrev P : State S → Type 0
  P = IsKeyedState S G id key

  step_saved : (s : WorkflowStep) → Keeps P (modify λ st. record st { db = S.save_step s st.db })
  unfolding IsKeyedState
  step_saved s = modify-Keeps P _ (λ st h. save_step-IsKeyed S G L K id key s st.db h)

  row_saved :
      (w : Workflow)
      → w.id ≡ id
      → w.idempotency_key ≡ key
      → Keeps P (modify λ st. record st { db = S.save_workflow w st.db })
  unfolding IsKeyedState
  row_saved w e f = modify-Keeps P _ (λ st h. save_workflow-IsKeyed S G L K id key w st.db e f)

  slept : Keeps P (modify λ st. record st { world = S.sleep 1000 st.world })
  unfolding IsKeyedState
  slept = modify-Keeps P _ (λ st h. h)

  abbrev started : WorkflowStep → ℕ → WorkflowStep
  started s time = record s { state = StepState.compensating; compensated_at = some time }

  abbrev begun : Workflow → Workflow
  begun w = record w { state = WorkflowState.compensating; requires_compensation = true }

  compensate_step-IsKeyed : (s : WorkflowStep) → Keeps P (compensate_step S s)
  unfolding compensate_step
  compensate_step-IsKeyed s =
      bind-Keeps P _ _ (require-Keeps P (transition_step s.state StepState.compensating) _) λ _.
        bind-Keeps P _ _ (gets-Keeps P λ st. S.now st.world) λ time.
          bind-Keeps P _ _ (step_saved (started s time)) λ _.
            catch-Keeps P _ _
              (bind-Keeps P _ _ slept (λ _.
                step_saved (record (started s time) {
                  state = StepState.compensated;
                  is_compensated = true;
                })))
              (λ e.
                bind-Keeps P _ _
                  (step_saved (record (started s time) {
                    state = StepState.failed;
                    failure_reason = some ("Compensation failed: " ++ message e);
                  }))
                  (λ _. raise-Keeps P _ e))

  compensate_steps-IsKeyed : (ss : List WorkflowStep) → Keeps P (compensate_steps S ss)
  unfolding compensate_steps
  compensate_steps-IsKeyed [] = pure-Keeps P tt
  compensate_steps-IsKeyed (s ∷ ss) =
      bind-Keeps P _ _ (compensate_step-IsKeyed s) (λ _. compensate_steps-IsKeyed ss)

  compensate_found-IsKeyed :
      (w : Workflow) (ss : List WorkflowStep)
      → w.id ≡ id
      → w.idempotency_key ≡ key
      → Keeps P (compensate_found S w ss)
  unfolding compensate_found
  compensate_found-IsKeyed w ss e f =
      bind-Keeps P _ _
        (if-Keeps P (can_workflow_compensate w.state) _ _ (pure-Keeps P tt) (raise-Keeps P _ _))
        λ _.
          bind-Keeps P _ _
            (require-Keeps P (transition_workflow w.state WorkflowState.compensating) _)
            λ _. bind-Keeps P _ _ (row_saved (begun w) e f) λ _.
              catch-Keeps P _ _
                (bind-Keeps P _ _ (compensate_steps-IsKeyed (compensation_order ss)) λ _.
                  bind-Keeps P _ _ (gets-Keeps P λ st. S.now st.world) λ time.
                    row_saved
                      (record (begun w) {
                        state = WorkflowState.compensated;
                        is_compensated = true;
                        completed_at = some time;
                      })
                      e f)
                (λ m.
                  bind-Keeps P _ _
                    (row_saved
                      (record (begun w) {
                        state = WorkflowState.failed;
                        failure_reason = some ("Compensation failed: " ++ message m);
                      })
                      e f)
                    λ _. raise-Keeps P _ m)

  pub compensate_workflow-IsKeyed : Keeps P (compensate_workflow S id)
  unfolding compensate_workflow IsKeyedState Keeps
  compensate_workflow-IsKeyed st h = elim (Option-cases (S.find_workflow id st.db)) [
    | inl e ↦ rw e h
    | inr (w, e) ↦ rw e (
        compensate_found-IsKeyed w (S.load_steps id st.db) (L.find_workflow-id id st.db w e)
          (h.same_key w e) st h)
  ]
