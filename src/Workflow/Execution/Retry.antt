-- ===== src/Workflow/Execution/Retry.antt =====
-- What retryWorkflow does to a failed workflow.
use xlm_pay.Base.{String, ◌+◌, ◌≡◌, refl, ◌∙◌, true, Option-cases, inl, inr, none, some, List, find}
use xlm_pay.Workflow.Entities.{Workflow, WorkflowStep, WorkflowDefinition}
use xlm_pay.Workflow.Services.{Services, Laws}
use xlm_pay.Workflow.Monad.{State, Running, ok, throw, error}
use xlm_pay.Workflow.StateMachine.{
  WorkflowState, StepState, is_step_state, is_workflow_recoverable, transition_workflow,
  workflow_state_text,
}
use xlm_pay.Workflow.Execution.Engine.{
  Definitions, get_workflow_definition, run_definition, execute_workflow, retry_workflow,
  reset_failed_step,
}

abbrev pub refusal : String
refusal = "Invalid workflow state transition from running to running"

pub refused :
    (s : WorkflowState)
    → s ≡ WorkflowState.running
    → transition_workflow s WorkflowState.running ≡ some refusal
unfolding transition_workflow workflow_state_text
refused s e = rw e

recoverable : (s : WorkflowState) → s ≡ WorkflowState.failed → is_workflow_recoverable s ≡ true
unfolding is_workflow_recoverable
recoverable s e = rw e

module _ (S : Services) (L : Laws S) (definitions : Definitions S.World)
    (definition : WorkflowDefinition S.World) where
  -- executeWorkflow refuses a workflow that is already RUNNING, before it writes anything.
  execute_workflow_running :
      (r : Running S)
      → r.workflow.state ≡ WorkflowState.running
      → get_workflow_definition r.workflow.type definitions ≡ some definition
      → execute_workflow S definitions r ≡ (
        throw (
            error
              "Cannot start workflow: Invalid workflow state transition from running to running"),
        r,
      )
  unfolding execute_workflow run_definition
  execute_workflow_running r running found = rw (found, refused r.workflow.state running)

  abbrev as_pending : WorkflowStep → WorkflowStep
  as_pending s = record s { state = StepState.pending }

  -- The failed step is reset in the database; no workflow's row changes.
  reset_failed_step_run :
      (steps : List WorkflowStep) (r : Running S)
      → (d : S.Db) × (reset_failed_step S steps r ≡ (ok tt, record r { db = d }))
        × ((i : String) → S.find_workflow i d ≡ S.find_workflow i r.db)
  reset_failed_step_run steps r =
      elim (Option-cases (find (λ s. is_step_state s.state StepState.failed) steps)) [
        | inl e ↦ (r.db, rw (e, reset_failed_step), λ i. refl)
        | inr (s, e) ↦ (
          S.save_step (as_pending s) r.db,
          rw (e, reset_failed_step),
          λ i. L.find_workflow-save_step i _ r.db,
        )
      ]

  -- The row that retryWorkflow saves before it resumes.
  abbrev resumed : Workflow → State S → Workflow
  resumed w st = record w {
    state = WorkflowState.running;
    retry_count = w.retry_count + 1;
    started_at = some (S.now st.world);
  }

  abbrev resumed_state : Workflow → State S → Running S
  resumed_state w st = record {
    db = S.save_workflow (resumed w st) st.db;
    world = st.world;
    workflow = record (resumed w st) { failed_at = none; failure_reason = none };
  }

  -- Every retry of a stored failed workflow of a known type is refused by executeWorkflow, because
  -- the workflow was set to RUNNING first: the call throws, and leaves the workflow's row RUNNING
  -- with one more retry counted.
  pub retry_workflow_stuck :
      (w : Workflow) (st : State S)
      → S.find_workflow w.id st.db ≡ some w
      → w.state ≡ WorkflowState.failed
      → get_workflow_definition w.type definitions ≡ some definition
      → let (result, after) = retry_workflow S definitions w.id st in
        (result
          ≡ throw (
              error
                "Cannot start workflow: Invalid workflow state transition from running to running"))
        × ((row : Workflow) × (S.find_workflow w.id after.db ≡ some row)
            × (row.state ≡ WorkflowState.running)
            × (row.retry_count ≡ w.retry_count + 1))
  unfolding retry_workflow
  retry_workflow_stuck w st stored failed known =
      let (d, run, same) = reset_failed_step_run (S.load_steps w.id st.db) (resumed_state w st) in
      rw
        (
          stored,
          recoverable w.state failed,
          run,
          execute_workflow_running (record (resumed_state w st) { db = d }) refl known,
        )
        (
          refl,
          (
            resumed w st,
            same w.id ∙ L.find_workflow-save_workflow (resumed w st) st.db,
            refl,
            refl,
          ),
        )
