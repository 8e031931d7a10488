-- ===== src/Workflow/Recovery.antt =====
-- recovery.service.ts: workflows and steps that a crash left RUNNING. What the queries find is given
-- with each row's `updatedAt` and relations.
pub mod Orphans
pub mod Stuck
mod Tests
use Prim.Native.String.{String, ◌++◌}
use xlm_pay.Base.{
  ℕ, ◌+◌, ◌-◌, ◌*◌, Bool, true, false, Option, none, some, List, [], ◌∷◌, filter, any, ltb,
  if◌then◌else◌,
}
use xlm_pay.Workflow.Entities.{Workflow, WorkflowStep}
use xlm_pay.Workflow.Services.{Services}
use xlm_pay.Workflow.Monad.{
  error, State, Running, M, pure, raise, modify, gets, ◌>>=◌, ◌>>◌, try_catch,
}
use xlm_pay.Workflow.StateMachine.{
  WorkflowState, StepState, is_workflow_state, is_step_state, should_retry,
  calculate_next_retry_time,
}
use xlm_pay.Workflow.Execution.Engine.{Definitions, execute_workflow, on_object}

-- A workflow with its relation `steps`, and a step with its relation `workflow`.
pub record LoadedWorkflow : Type 0 where
  pub workflow : Workflow
  pub updated_at : ℕ
  pub steps : List WorkflowStep

pub record LoadedStep : Type 0 where
  pub step : WorkflowStep
  pub workflow : Workflow

-- `!latest || step.stepIndex > latest.stepIndex ? step : latest`.
unfoldable pub latest_step : Option WorkflowStep → List WorkflowStep → Option WorkflowStep
latest_step latest [] = latest
latest_step none (s ∷ ss) = latest_step (some s) ss
latest_step (some l) (s ∷ ss) =
    latest_step (some (if ltb l.step_index s.step_index then s else l)) ss

unfoldable pub last_completed_step : List WorkflowStep → Option WorkflowStep
last_completed_step steps =
    latest_step none (filter (λ s. is_step_state s.state StepState.completed) steps)

module _ (S : Services) where
  open S use {World, Db, now, random, save_workflow, save_step}

  abbrev save_row : Workflow → M (State S) (Unit {0})
  save_row w = modify λ st. record st { db = save_workflow w st.db }

  abbrev pub resume_index : Option WorkflowStep → ℕ
  resume_index none = 0
  resume_index (some s) = s.step_index + 1

  unfoldable pub recover_workflow : Definitions World → LoadedWorkflow → M (State S) (Unit {0})
  recover_workflow definitions l = do
    time ← gets λ st. now st.world
    (if ltb (time - l.updated_at) (5 * 60 * 1000)
        then pure tt
        else (if any (λ s. is_step_state s.state StepState.failed) l.steps
            then save_row (record l.workflow {
              state = WorkflowState.failed;
              failure_reason = some "Workflow failed during service interruption";
              failed_at = some time;
            })
            else on_object S
                (record l.workflow {
                  current_step_index = resume_index (last_completed_step l.steps);
                })
                (execute_workflow S definitions)))

  -- The loop of recoverOrphanedWorkflows, which logs each error.
  unfoldable pub recover_each : Definitions World → List LoadedWorkflow → M (State S) (Unit {0})
  recover_each definitions [] = pure tt
  recover_each definitions (l ∷ ls) = do
    try_catch (recover_workflow definitions l) (λ e. pure tt)
    recover_each definitions ls

  unfoldable pub recover_orphaned_workflows :
      (find_running : Db → List LoadedWorkflow) → Definitions World → M (State S) (Unit {0})
  recover_orphaned_workflows find_running definitions = do
    found ← gets λ st. find_running st.db
    recover_each definitions found

  unfoldable pub recover_stuck_step : LoadedStep → M (State S) (Unit {0})
  recover_stuck_step l =
      if is_workflow_state l.workflow.state WorkflowState.running
      then (do
        time ← gets λ st. now st.world
        random_value ← gets λ st. random st.world
        let retries : ℕ = l.step.retry_count + 1
        let failed : WorkflowStep = record l.step {
          state = StepState.failed;
          failed_at = some time;
          failure_reason = some "Step timed out during service interruption";
          retry_count = retries;
        }
        (if should_retry StepState.failed retries l.step.max_retries
            then modify (λ st. record st {
              db =
                  save_step
                    (record failed {
                      next_retry_at =
                          some (calculate_next_retry_time time random_value retries 1000);
                    })
                    st.db;
            })
            else (do
              save_row (record l.workflow {
                state = WorkflowState.failed;
                failed_at = some time;
                failure_reason =
                    some ("Step " ++ (l.step.step_name ++ " failed after max retries"));
              })
              modify (λ st. record st { db = save_step failed st.db }))))
      else pure tt
