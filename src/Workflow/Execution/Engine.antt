-- ===== src/Workflow/Execution/Engine.antt =====
-- registerWorkflowDefinition, executeWorkflow, executeSteps, retryWorkflow, cancelWorkflow.
use Prim.Native.String.{String, ◌++◌}
use xlm_pay.Base.{◌+◌, Option, none, some, List, [], ◌∷◌, find, get_elem?, str_eq, if◌then◌else◌}
use xlm_pay.Workflow.Entities.{Workflow, WorkflowStep, WorkflowDefinition}
use xlm_pay.Workflow.Services.{Services}
use xlm_pay.Workflow.Monad.{
  Error, workflow_timeout_error, error, State, Running, M, pure, raise, modify, gets, ◌>>=◌, ◌>>◌,
  try_catch, require,
}
use xlm_pay.Workflow.StateMachine.{
  WorkflowState, StepState, is_step_state, transition_workflow, is_workflow_recoverable,
}
use xlm_pay.Workflow.Execution.Step.{execute_step, update_workflow, save_step_row, date}

-- The map from types to definitions: the last registered of a type is in force.
abbrev pub Definitions : Type 0 → Type 0
Definitions W = List (WorkflowDefinition W)

unfoldable pub register_workflow_definition :
    {W : Type 0} → WorkflowDefinition W → Definitions W → Definitions W
register_workflow_definition definition definitions = definition ∷ definitions

unfoldable pub get_workflow_definition :
    {W : Type 0} → String → Definitions W → Option (WorkflowDefinition W)
get_workflow_definition type definitions = find (λ d. str_eq d.type type) definitions

module _ (S : Services) where
  open S use {World, now, find_workflow, save_workflow, find_steps, load_steps, save_step}

  -- The loop over the steps.
  unfoldable pub execute_step_list :
      WorkflowDefinition World → List WorkflowStep → M (Running S) (Unit {0})
  execute_step_list definition [] = pure tt
  execute_step_list definition (step ∷ steps) = do
    update_workflow S (λ w. record w { current_step_index = step.step_index })
    execute_step S step (get_elem? definition.steps step.step_index) definition.timeout
    execute_step_list definition steps

  unfoldable pub execute_steps : WorkflowDefinition World → M (Running S) (Unit {0})
  execute_steps definition = do
    workflow ← gets λ r. r.workflow
    steps ← gets λ r. find_steps workflow.id r.db
    execute_step_list definition steps

  -- The catch block of executeWorkflow.
  unfoldable pub on_workflow_failure : Error → M (Running S) (Unit {0})
  on_workflow_failure (workflow_timeout_error m) = pure tt
  on_workflow_failure (error m) = do
    time ← date S
    update_workflow S λ w. record w {
      state = WorkflowState.failed;
      failed_at = some time;
      failure_reason = some m;
    }
    raise (error m)

  -- executeWorkflow, once the definition is looked up.
  unfoldable pub run_definition :
      Workflow → Option (WorkflowDefinition World) → M (Running S) (Unit {0})
  run_definition workflow none =
      raise (error ("Workflow definition not found for type: " ++ workflow.type))
  run_definition workflow (some definition) = do
    require (transition_workflow workflow.state WorkflowState.running)
        (λ m. error ("Cannot start workflow: " ++ m))
    time ← date S
    update_workflow S λ w. record w { state = WorkflowState.running; started_at = some time }
    try_catch
        (do
          execute_steps definition
          ended ← date S
          update_workflow S
              λ w. record w { state = WorkflowState.completed; completed_at = some ended })
        on_workflow_failure

  unfoldable pub execute_workflow : Definitions World → M (Running S) (Unit {0})
  execute_workflow definitions r =
      run_definition r.workflow (get_workflow_definition r.workflow.type definitions) r

  -- A method's run on a workflow object that it has loaded.
  abbrev pub on_object : Workflow → M (Running S) (Unit {0}) → M (State S) (Unit {0})
  on_object workflow m st =
      let (result, after) = m (record { db = st.db; world = st.world; workflow = workflow }) in
      (result, record { db = after.db; world = after.world })

  -- `workflow.steps.find(...)`, reset to PENDING. What the code sets to `undefined`, here the time
  -- and the reason of the failure, TypeORM leaves out of a save.
  abbrev pub reset_failed_step : List WorkflowStep → M (Running S) (Unit {0})
  reset_failed_step steps = elim (find (λ s. is_step_state s.state StepState.failed) steps) [
    | none ↦ pure tt
    | some s ↦ save_step_row S (record s { state = StepState.pending })
  ]

  -- The two fields of the object that are set to `undefined`, of which the row keeps the values.
  abbrev pub clear_failure : M (Running S) (Unit {0})
  clear_failure =
      modify
        λ r. record r { workflow = record r.workflow { failed_at = none; failure_reason = none } }

  unfoldable pub retry_workflow : Definitions World → String → M (State S) (Unit {0})
  retry_workflow definitions workflow_id = do
    found ← gets λ st. find_workflow workflow_id st.db
    steps ← gets λ st. load_steps workflow_id st.db
    elim found [
      | none ↦ raise (error ("Workflow not found: " ++ workflow_id))
      | some workflow ↦
          if is_workflow_recoverable workflow.state
          then on_object workflow (do
            time ← date S
            update_workflow S λ w. record w {
              state = WorkflowState.running;
              retry_count = w.retry_count + 1;
              started_at = some time;
            }
            clear_failure
            reset_failed_step steps
            execute_workflow definitions)
          else raise (error ("Workflow " ++ (workflow_id ++ " is not in a recoverable state")))
    ]

  unfoldable pub cancel_workflow : String → M (State S) (Unit {0})
  cancel_workflow workflow_id = do
    found ← gets λ st. find_workflow workflow_id st.db
    elim found [
      | none ↦ raise (error ("Workflow not found: " ++ workflow_id))
      | some workflow ↦ do
        require (transition_workflow workflow.state WorkflowState.cancelled)
            (λ m. error ("Cannot cancel workflow: " ++ m))
        time ← gets λ st. now st.world
        modify λ st. record st {
          db =
              save_workflow
                (record workflow { state = WorkflowState.cancelled; completed_at = some time })
                st.db;
        }
    ]
