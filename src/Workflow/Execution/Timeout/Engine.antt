-- ===== src/Workflow/Execution/Timeout/Engine.antt =====
-- A workflow whose first step times out.
use xlm_pay.Base.{ℕ, suc, String, ◌≡◌, refl, ap, subst, none, some, List, ◌∷◌, get_elem?}
use xlm_pay.Workflow.Entities.{Workflow, WorkflowStep, StepDefinition, WorkflowDefinition}
use xlm_pay.Workflow.Services.{Services, Laws}
use xlm_pay.Workflow.Monad.{throw, message, Running}
use xlm_pay.Workflow.StateMachine.{WorkflowState, StepState, transition_step, transition_workflow}
use xlm_pay.Workflow.Execution.Engine.{
  Definitions, get_workflow_definition, execute_step_list, execute_steps, on_workflow_failure,
  run_definition, execute_workflow,
}
use xlm_pay.Workflow.Execution.Timeout.{
  timeout_of, NeverSettles, not_compensated, execute_step_timeout,
}

-- The workflow's row after a failure.
abbrev failed_row : Workflow → ℕ → String → Workflow
failed_row w time reason = record w {
  state = WorkflowState.failed;
  failed_at = some time;
  failure_reason = some reason;
}

module _ (S : Services) (L : Laws S) (definitions : Definitions S.World)
    (definition : WorkflowDefinition S.World) (d : StepDefinition S.World) (ms : ℕ)
    (s : WorkflowStep) (ss : List WorkflowStep) (r : Running S) where
  -- A workflow that can start, and whose first step can start and times out, ends FAILED and not
  -- compensated: the run throws that the workflow cannot be compensated while it is running, and
  -- that is also its failure reason.
  pub execute_workflow_timeout :
      get_workflow_definition r.workflow.type definitions ≡ some definition
      → transition_workflow r.workflow.state WorkflowState.running ≡ none
      → S.find_steps r.workflow.id r.db ≡ s ∷ ss
      → transition_step s.state StepState.running ≡ none
      → get_elem? definition.steps s.step_index ≡ some d
      → timeout_of d definition.timeout ≡ some (suc ms)
      → NeverSettles d (suc ms)
      → let (result, after) = execute_workflow S definitions r in
        (result ≡ throw (not_compensated r.workflow))
        × ((row : Workflow) × (S.find_workflow r.workflow.id after.db ≡ some row)
            × (row.state ≡ WorkflowState.failed)
            × (row.failure_reason ≡ some (message (not_compensated r.workflow)))
            × (row.is_compensated ≡ r.workflow.is_compensated))
  unfolding execute_workflow run_definition execute_steps execute_step_list on_workflow_failure
  execute_workflow_timeout known start rows ready defined in_force never =
      let (after, run, same, kept) =
        execute_step_timeout S L d definition.timeout ms in_force never s at_step
          (record { stored = L.find_workflow-save_workflow _ _; running = refl }) ready in
      rw (known, start, L.find_steps-save_workflow r.workflow.id _ r.db, rows, defined, run)
        (
          refl,
          (
            failed_row after.workflow (S.now after.world) (message (not_compensated r.workflow)),
            subst
                (λ w.
                  S.find_workflow w.id (S.save_workflow (failed after) after.db)
                  ≡ some (failed after))
                same (L.find_workflow-save_workflow (failed after) after.db),
            refl,
            refl,
            ap (λ w. w.is_compensated) same,
          ),
        )
    where
      started : Workflow
      started = record r.workflow {
        state = WorkflowState.running;
        started_at = some (S.now r.world);
      }

      first : Workflow
      first = record started { current_step_index = s.step_index }

      at_step : Running S
      at_step = record {
        db = S.save_workflow first (S.save_workflow started r.db);
        world = r.world;
        workflow = first;
      }

      failed : Running S → Workflow
      failed after =
          failed_row after.workflow (S.now after.world) (message (not_compensated r.workflow))
