-- ===== src/Workflow/Execution/Step.antt =====
-- executeStep and what it calls. The `workflow` object that the methods share stands in the state;
-- a step object is passed on. A step is started again at most `max_retries - retry_count` times,
-- which is the fuel.
use Prim.Native.String.{String, ◌++◌}
use xlm_pay.Base.{
  ℕ, zero, suc, ◌+◌, ◌-◌, Option, none, some, List, [], ◌∷◌, filter, ltb, if◌then◌else◌,
}
use xlm_pay.Base.Json.{Json, Fields, end, truthy, set_field}
use xlm_pay.Base.Text.{show_nat}
use xlm_pay.Workflow.Entities.{
  Workflow, WorkflowStep, WorkflowContext, Settled, fulfilled, rejected, Operation, StepInput,
  promise, StepDefinition,
}
use xlm_pay.Workflow.Services.{Services}
use xlm_pay.Workflow.Monad.{
  Error, workflow_timeout_error, error, Outcome, diverged, Running, M, pure, raise, modify, gets,
  ◌>>=◌, ◌>>◌, try_catch, require,
}
use xlm_pay.Workflow.StateMachine.{
  StepState, transition_step, should_retry, calculate_next_retry_time,
}
use xlm_pay.Workflow.Idempotency.{generate_step_idempotency_key}
use xlm_pay.Workflow.Compensation.{compensate_workflow}

-- `previousSteps.forEach`: the outputs under the names of their steps.
unfoldable pub add_outputs : List WorkflowStep → Fields → Fields
add_outputs [] input = input
add_outputs (s ∷ ss) input = add_outputs ss (elim s.output [
  | none ↦ input
  | some v ↦ if truthy v then set_field s.step_name v input else input
])

module _ (S : Services) where
  open S use {World, now, random, sleep, sha256, save_workflow, find_steps, save_step}

  abbrev pub date : M (Running S) ℕ
  date = gets λ r. now r.world

  abbrev pub save_step_row : WorkflowStep → M (Running S) (Unit {0})
  save_step_row s = modify λ r. record r { db = save_step s r.db }

  -- `workflowRepository.save(workflow)`, after `f` has changed the shared object.
  abbrev pub update_workflow : (Workflow → Workflow) → M (Running S) (Unit {0})
  update_workflow f =
      modify λ r. record r { db = save_workflow (f r.workflow) r.db; workflow = f r.workflow }

  abbrev pub delay : ℕ → M (Running S) (Unit {0})
  delay ms = modify λ r. record r { world = sleep ms r.world }

  -- compensationService.compensateWorkflow, which loads an object of its own.
  abbrev pub compensate : String → M (Running S) (Unit {0})
  compensate i r =
      let (result, after) = compensate_workflow S i (record { db = r.db; world = r.world }) in
      (result, record r { db = after.db; world = after.world })

  unfoldable pub prepare_step_input : Workflow → WorkflowStep → M (Running S) StepInput
  prepare_step_input workflow step = do
    rows ← gets λ r. find_steps workflow.id r.db
    pure (
        promise (
          if ltb 0 step.step_index
          then add_outputs (filter (λ s. ltb s.step_index step.step_index) rows) workflow.input
          else workflow.input))

  -- What an awaited promise does: it returns or throws, or what follows it never runs.
  abbrev pub settled : Option Settled × World → M (Running S) Json
  settled (none, w) r = (diverged, record r { world = w })
  settled (some (fulfilled v), w) r = (Outcome.ok v, record r { world = w })
  settled (some (rejected m), w) r = (Outcome.throw (error m), record r { world = w })

  abbrev pub raced : String → ℕ → Option Settled × World → M (Running S) Json
  raced step_name ms (some s, w) r = settled (some s, w) r
  raced step_name ms (none, w) r = (
    Outcome.throw (
        workflow_timeout_error
          ("Step " ++ (step_name ++ (" exceeded timeout of " ++ (show_nat ms ++ "ms"))))),
    record r { world = w },
  )

  unfoldable pub execute_step_with_timeout :
      Operation World → Option ℕ → String → M (Running S) Json
  execute_step_with_timeout operation none step_name r = settled (operation.settle r.world) r
  execute_step_with_timeout operation (some zero) step_name r = settled (operation.settle r.world) r
  execute_step_with_timeout operation (some (suc ms)) step_name r =
      raced step_name (suc ms) (operation.race (suc ms) r.world) r

  -- Both branches of executeWithIdempotency make the same call.
  unfoldable pub execute_with_idempotency :
      StepDefinition World → StepInput → WorkflowContext → Operation World
  execute_with_idempotency step_definition input context = step_definition.execute input context

  abbrev pub step_context : Workflow → WorkflowStep → WorkflowContext
  step_context workflow step = record {
    workflow_id = workflow.id;
    idempotency_key = workflow.idempotency_key;
    user_id = workflow.user_id;
    wallet_address = workflow.wallet_address;
    type = workflow.type;
    retry_count = step.retry_count;
    step_index = step.step_index;
    metadata = workflow.context;
  }

  -- The step object with its key. What is hashed as its input is the promise, not yet awaited, and
  -- a promise has no fields of its own.
  abbrev pub with_key : Workflow → WorkflowStep → WorkflowStep
  with_key workflow step = record step {
    idempotency_key =
        if step.is_idempotent
        then some (generate_step_idempotency_key sha256 workflow.idempotency_key step.step_name end)
        else step.idempotency_key;
  }

  -- The save that goes with it.
  unfoldable pub save_key : WorkflowStep → M (Running S) (Unit {0})
  save_key step = if step.is_idempotent then save_step_row step else pure tt

  -- `definition.steps[step.stepIndex]` may be undefined, and then `.timeout` throws.
  unfoldable pub perform :
      Workflow
      → WorkflowStep
      → StepInput
      → Option (StepDefinition World)
      → Option ℕ
      → M (Running S) Json
  perform workflow step input none workflow_timeout =
      raise (error "Cannot read properties of undefined (reading 'timeout')")
  perform workflow step input (some d) workflow_timeout =
      execute_step_with_timeout (execute_with_idempotency d input (step_context workflow step))
        (elim d.timeout [ none ↦ workflow_timeout | some t ↦ some t ]) step.step_name

  abbrev pub failed_step : WorkflowStep → ℕ → String → WorkflowStep
  failed_step step time reason = record step {
    state = StepState.failed;
    failed_at = some time;
    failure_reason = some reason;
    retry_count = step.retry_count + 1;
  }

  -- The failed step, with the time of its next start.
  abbrev pub waiting_step : WorkflowStep → (time random_value : ℕ) → String → WorkflowStep
  waiting_step step time random_value m =
      let failed = failed_step step time m in
      record failed {
        next_retry_at = some (calculate_next_retry_time time random_value failed.retry_count 1000);
      }

  -- The catch block. `again` is the recursive call, which passes no timeout of the workflow on.
  unfoldable pub on_failure :
      (WorkflowStep → M (Running S) (Unit {0})) → WorkflowStep → Error → M (Running S) (Unit {0})
  on_failure again step (workflow_timeout_error m) = do
    time ← date
    save_step_row (failed_step step time m)
    workflow ← gets λ r. r.workflow
    compensate workflow.id
    raise (workflow_timeout_error m)
  on_failure again step (error m) = do
    time ← date
    let failed = failed_step step time m
    random_value ← gets λ r. random r.world
    let next = calculate_next_retry_time time random_value failed.retry_count 1000
    let waiting = waiting_step step time random_value m
    (if should_retry StepState.failed failed.retry_count failed.max_retries
        then (do save_step_row waiting; later ← date; delay (next - later); again waiting)
        else (do
          save_step_row failed
          raise (
              error (
                "Step "
                ++ (failed.step_name
                    ++ (" failed after "
                        ++ (show_nat failed.retry_count ++ (" retries: " ++ m))))))))

  abbrev pub completed_step : WorkflowStep → ℕ → Json → WorkflowStep
  completed_step step time output = record step {
    state = StepState.completed;
    output = some output;
    completed_at = some time;
  }

  -- The rest of the try block: the call, and the save of its result.
  unfoldable pub perform_and_save :
      Workflow
      → WorkflowStep
      → StepInput
      → Option (StepDefinition World)
      → Option ℕ
      → M (Running S) (Unit {0})
  perform_and_save workflow step input step_definition workflow_timeout = do
    output ← perform workflow step input step_definition workflow_timeout
    time ← date
    save_step_row (completed_step step time output)

  abbrev pub begun_step : WorkflowStep → ℕ → WorkflowStep
  begun_step step time = record step { state = StepState.running; started_at = some time }

  -- executeStep, where a step that fails again is started again by `again`.
  unfoldable pub execute_step_once :
      (WorkflowStep → M (Running S) (Unit {0}))
      → WorkflowStep
      → Option (StepDefinition World)
      → Option ℕ
      → M (Running S) (Unit {0})
  execute_step_once again step step_definition workflow_timeout = do
    require (transition_step step.state StepState.running)
        (λ m. error ("Cannot execute step: " ++ m))
    time ← date
    let begun = begun_step step time
    save_step_row begun
    workflow ← gets λ r. r.workflow
    input ← prepare_step_input workflow begun
    let keyed = with_key workflow begun
    save_key keyed
    try_catch (perform_and_save workflow keyed input step_definition workflow_timeout)
        (on_failure again keyed)

  unfoldable pub execute_step_fuel :
      ℕ → WorkflowStep → Option (StepDefinition World) → Option ℕ → M (Running S) (Unit {0})
  execute_step_fuel zero step step_definition workflow_timeout =
      execute_step_once (λ _ r. (diverged, r)) step step_definition workflow_timeout
  execute_step_fuel (suc fuel) step step_definition workflow_timeout =
      execute_step_once (λ s. execute_step_fuel fuel s step_definition none) step step_definition
        workflow_timeout

  unfoldable pub execute_step :
      WorkflowStep → Option (StepDefinition World) → Option ℕ → M (Running S) (Unit {0})
  execute_step step = execute_step_fuel (step.max_retries - step.retry_count) step
