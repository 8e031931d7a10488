-- ===== src/Workflow/Compensation.antt =====
-- compensation.service.ts. The compensation of a step is, in the source too, a timer that stands
-- for it. Saves of a workflow do not write its steps again: at each of them the loaded steps are
-- as the database has them.
pub mod Order
pub mod Outline
pub mod Loop
pub mod Effect
pub mod Halting
use Prim.Native.String.{String, ◌++◌}
use xlm_pay.Base.{ℕ, Bool, true, not, ◌&&◌, none, some, List, [], ◌∷◌, filter, leb, if◌then◌else◌}
use xlm_pay.Workflow.Entities.{Workflow, WorkflowStep}
use xlm_pay.Workflow.Services.{Services}
use xlm_pay.Workflow.Monad.{
  error, message, State, M, pure, raise, modify, gets, ◌>>=◌, ◌>>◌, try_catch, require,
}
use xlm_pay.Workflow.StateMachine.{
  WorkflowState, StepState, is_step_state, can_workflow_compensate, transition_workflow,
  transition_step, workflow_state_text,
}

-- `.filter(step => step.state === COMPLETED && step.requiresCompensation)`.
abbrev pub needs_compensation : WorkflowStep → Bool
needs_compensation s = is_step_state s.state StepState.completed && s.requires_compensation

-- `.sort((a, b) => b.stepIndex - a.stepIndex)`, which is stable.
pub insert_step : WorkflowStep → List WorkflowStep → List WorkflowStep
insert_step s [] = s ∷ []
insert_step s (t ∷ ts) = if leb t.step_index s.step_index then s ∷ t ∷ ts else t ∷ insert_step s ts

pub sort_steps : List WorkflowStep → List WorkflowStep
unfolding insert_step
sort_steps [] = []
sort_steps (s ∷ ss) = insert_step s (sort_steps ss)

unfoldable pub compensation_order : List WorkflowStep → List WorkflowStep
unfolding sort_steps
compensation_order steps = sort_steps (filter needs_compensation steps)

module _ (S : Services) where
  open S use {World, Db, now, sleep, find_workflow, save_workflow, load_steps, save_step}

  abbrev save_workflow_row : Workflow → M (State S) (Unit {0})
  save_workflow_row w = modify λ st. record st { db = save_workflow w st.db }

  abbrev save_step_row : WorkflowStep → M (State S) (Unit {0})
  save_step_row s = modify λ st. record st { db = save_step s st.db }

  abbrev date : M (State S) ℕ
  date = gets λ st. now st.world

  abbrev delay : ℕ → M (State S) (Unit {0})
  delay ms = modify λ st. record st { world = sleep ms st.world }

  unfoldable pub compensate_step : WorkflowStep → M (State S) (Unit {0})
  compensate_step step = do
    require (transition_step step.state StepState.compensating)
        (λ m. error ("Cannot start step compensation: " ++ m))
    time ← date
    let started = record step { state = StepState.compensating; compensated_at = some time }
    save_step_row started
    try_catch
        (do
          delay 1000
          save_step_row (record started { state = StepState.compensated; is_compensated = true }))
        (λ e. do
          save_step_row (record started {
            state = StepState.failed;
            failure_reason = some ("Compensation failed: " ++ message e);
          })
          raise e)

  -- The loop over the completed steps.
  unfoldable pub compensate_steps : List WorkflowStep → M (State S) (Unit {0})
  compensate_steps [] = pure tt
  compensate_steps (s ∷ ss) = compensate_step s >> compensate_steps ss

  -- The body, once the workflow is found.
  unfoldable pub compensate_found : Workflow → List WorkflowStep → M (State S) (Unit {0})
  compensate_found workflow steps = do
    (if can_workflow_compensate workflow.state
        then pure tt
        else raise (
            error (
              "Workflow "
              ++ (workflow.id
                  ++ (" cannot be compensated in state: " ++ workflow_state_text workflow.state)))))
    require (transition_workflow workflow.state WorkflowState.compensating)
        (λ m. error ("Cannot start compensation: " ++ m))
    let begun = record workflow { state = WorkflowState.compensating; requires_compensation = true }
    save_workflow_row begun
    try_catch
        (do
          compensate_steps (compensation_order steps)
          time ← date
          save_workflow_row (record begun {
            state = WorkflowState.compensated;
            is_compensated = true;
            completed_at = some time;
          }))
        (λ e. do
          save_workflow_row (record begun {
            state = WorkflowState.failed;
            failure_reason = some ("Compensation failed: " ++ message e);
          })
          raise e)

  unfoldable pub compensate_workflow : String → M (State S) (Unit {0})
  compensate_workflow workflow_id = do
    found ← gets λ st. find_workflow workflow_id st.db
    steps ← gets λ st. load_steps workflow_id st.db
    elim found [
      | none ↦ raise (error ("Workflow not found: " ++ workflow_id))
      | some workflow ↦ compensate_found workflow steps
    ]

  unfoldable pub requires_compensation : String → M (State S) Bool
  requires_compensation workflow_id = do
    found ← gets λ st. find_workflow workflow_id st.db
    elim found [
      | none ↦ raise (error ("Workflow not found: " ++ workflow_id))
      | some workflow ↦ pure (workflow.requires_compensation && not workflow.is_compensated)
    ]

  force_compensate_step : WorkflowStep → M (State S) (Unit {0})
  force_compensate_step step = do
    time ← date
    let started = record step { state = StepState.compensating; compensated_at = some time }
    save_step_row started
    delay 500
    save_step_row (record started { state = StepState.compensated; is_compensated = true })

  force_compensate_steps : List WorkflowStep → M (State S) (Unit {0})
  unfolding force_compensate_step
  force_compensate_steps [] = pure tt
  force_compensate_steps (s ∷ ss) = force_compensate_step s >> force_compensate_steps ss

  unfoldable pub force_compensate_workflow : String → M (State S) (Unit {0})
  unfolding force_compensate_steps
  force_compensate_workflow workflow_id = do
    found ← gets λ st. find_workflow workflow_id st.db
    steps ← gets λ st. load_steps workflow_id st.db
    elim found [
      | none ↦ raise (error ("Workflow not found: " ++ workflow_id))
      | some workflow ↦
          let begun : Workflow = record workflow {
            state = WorkflowState.compensating;
            requires_compensation = true;
          } in
          do
            save_workflow_row begun
            force_compensate_steps (compensation_order steps)
            save_workflow_row
                (record begun { state = WorkflowState.compensated; is_compensated = true })
    ]
