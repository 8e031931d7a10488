-- ===== src/Workflow/Execution/Halting/Engine.antt =====
-- The outcomes of executeWorkflow: whether its loops end.
use xlm_pay.Base.{ℕ, zero, suc, All, ◌≢◌, Option, none, some, List, [], ◌∷◌, get_elem?}
use xlm_pay.Workflow.Monad.{diverged, workflow_timeout_error, error, Error, Running}
use xlm_pay.Workflow.Monad.Halts.{Halts, continue-Halts, handle-Halts, require-Halts}
use xlm_pay.Workflow.Services.{Services}
use xlm_pay.Workflow.Entities.{Workflow, WorkflowStep, WorkflowDefinition, StepDefinition}
use xlm_pay.Workflow.StateMachine.{WorkflowState, transition_workflow}
use xlm_pay.Workflow.Execution.Step.{execute_step}
use xlm_pay.Workflow.Execution.Engine.{
  Definitions, get_workflow_definition, execute_step_list, execute_steps, on_workflow_failure,
  run_definition, execute_workflow,
}
use xlm_pay.Workflow.Execution.Halting.{IsBounded, IsBoundedIfAny, execute_step-Halts}

-- What is asked of the steps of the definition of a type, if there is one.
abbrev pub StepsAreBounded : {W : Type 0} → Option (WorkflowDefinition W) → Type 0
StepsAreBounded none = Unit {0}
StepsAreBounded (some d) = All IsBounded d.steps

step-IsBounded :
    {W : Type 0} (ds : List (StepDefinition W)) (i : ℕ)
    → All IsBounded ds
    → IsBoundedIfAny (get_elem? ds i)
step-IsBounded [] i h = tt
step-IsBounded (d ∷ ds) zero h = h.0
step-IsBounded (d ∷ ds) (suc i) h = step-IsBounded ds i h.1

module _ (S : Services) where
  execute_step_list-Halts :
      (d : WorkflowDefinition S.World) (ss : List WorkflowStep)
      → All IsBounded d.steps
      → Halts (execute_step_list S d ss)
  unfolding execute_step_list
  execute_step_list-Halts d [] b r = λ p. cc
  execute_step_list-Halts d (s ∷ ss) b r =
      continue-Halts _ (execute_step S s (get_elem? d.steps s.step_index) d.timeout _)
        (execute_step-Halts S s _ _ (step-IsBounded d.steps s.step_index b) _)
        (λ _. execute_step_list-Halts d ss b)

  on_workflow_failure-Halts : (e : Error) → Halts (on_workflow_failure S e)
  unfolding on_workflow_failure
  on_workflow_failure-Halts (workflow_timeout_error m) r = λ p. cc
  on_workflow_failure-Halts (error m) r = λ p. cc

  run_definition-Halts :
      (w : Workflow) (d : Option (WorkflowDefinition S.World))
      → StepsAreBounded d
      → Halts (run_definition S w d)
  unfolding run_definition execute_steps
  run_definition-Halts w none b r = λ p. cc
  run_definition-Halts w (some d) b r =
      continue-Halts _ _ (require-Halts (transition_workflow w.state WorkflowState.running) _ r)
        λ _ r'.
          handle-Halts (on_workflow_failure S) _
            (continue-Halts _ (execute_step_list S d _ _) (execute_step_list-Halts d _ b _)
              (λ _ _ p. cc))
            on_workflow_failure-Halts

  -- The run of a workflow comes to an end from every state, where each step of its definition has a
  -- timeout of its own or promises that settle: the retries of a step are bounded.
  pub execute_workflow-Halts :
      (definitions : Definitions S.World) (r : Running S)
      → StepsAreBounded (get_workflow_definition r.workflow.type definitions)
      → (execute_workflow S definitions r).0 ≢ diverged
  unfolding execute_workflow
  execute_workflow-Halts definitions r b =
      run_definition-Halts r.workflow (get_workflow_definition r.workflow.type definitions) b r
