-- ===== src/Workflow/Recovery/Stuck.antt =====
-- What the recovery does to a step that a crash left RUNNING.
use Prim.Native.String.{◌++◌}
use xlm_pay.Base.{ℕ, ◌+◌, ◌≡◌, refl, ◌∙◌, ap, true, some, ltb, Bool-cases, inl, inr, if◌then◌else◌}
use xlm_pay.Workflow.Entities.{Workflow, WorkflowStep}
use xlm_pay.Workflow.Services.{Services, Laws, replace, has_row}
use xlm_pay.Workflow.Monad.{ok, State}
use xlm_pay.Workflow.StateMachine.{
  WorkflowState, StepState, is_workflow_state, should_retry, calculate_next_retry_time,
}
use xlm_pay.Workflow.Recovery.{LoadedStep, recover_stuck_step}

is_running :
    (s : WorkflowState)
    → s ≡ WorkflowState.running
    → is_workflow_state s WorkflowState.running ≡ true
is_running s e = rw e

-- The failed step, and the workflow that fails with it.
abbrev failed_step : WorkflowStep → ℕ → WorkflowStep
failed_step s time = record s {
  state = StepState.failed;
  failed_at = some time;
  failure_reason = some "Step timed out during service interruption";
  retry_count = s.retry_count + 1;
}

abbrev failed_workflow : LoadedStep → ℕ → Workflow
failed_workflow l time = record l.workflow {
  state = WorkflowState.failed;
  failed_at = some time;
  failure_reason = some ("Step " ++ (l.step.step_name ++ " failed after max retries"));
}

module _ (S : Services) (L : Laws S) where
  -- The recovery of a stored step of a stored RUNNING workflow marks the step FAILED with one more
  -- attempt counted. The workflow stays RUNNING if attempts are left, and else is FAILED.
  pub recover_stuck_step_lem :
      (l : LoadedStep) (st : State S)
      → l.workflow.state ≡ WorkflowState.running
      → S.find_workflow l.workflow.id st.db ≡ some l.workflow
      → has_row l.step.id (S.find_steps l.step.workflow_id st.db) ≡ true
      → let (result, after) = recover_stuck_step S l st in
        (result ≡ ok tt)
        × ((row : Workflow) × (S.find_workflow l.workflow.id after.db ≡ some row)
            × (row.state ≡ (
                if ltb (l.step.retry_count + 1) l.step.max_retries
                then WorkflowState.running
                else WorkflowState.failed)))
        × ((x : WorkflowStep) × (x.id ≡ l.step.id)
            × (x.state ≡ StepState.failed)
            × (x.retry_count ≡ l.step.retry_count + 1)
            × (S.find_steps l.step.workflow_id after.db
                ≡ replace x (S.find_steps l.step.workflow_id st.db)))
  unfolding recover_stuck_step should_retry
  recover_stuck_step_lem l st running stored listed =
      elim (Bool-cases (ltb (l.step.retry_count + 1) l.step.max_retries)) [
        | inl e ↦
            rw (is_running l.workflow.state running, e)
              (
                refl,
                (l.workflow, L.find_workflow-save_step l.workflow.id _ st.db ∙ stored, running),
                (waiting, refl, refl, refl, L.find_steps-save_step waiting st.db listed),
              )
        | inr e ↦
            rw (is_running l.workflow.state running, e)
              (
                refl,
                (
                  ended,
                  L.find_workflow-save_step ended.id _ _
                      ∙ L.find_workflow-save_workflow ended st.db,
                  refl,
                ),
                (
                  failed,
                  refl,
                  refl,
                  refl,
                  L.find_steps-save_step failed (S.save_workflow ended st.db)
                        (ap (has_row failed.id) same ∙ listed)
                      ∙ ap (replace failed) same,
                ),
              )
      ]
    where
      failed : WorkflowStep
      failed = failed_step l.step (S.now st.world)

      waiting : WorkflowStep
      waiting = record failed {
        next_retry_at = some (
            calculate_next_retry_time (S.now st.world) (S.random st.world) (l.step.retry_count + 1)
              1000);
      }

      ended : Workflow
      ended = failed_workflow l (S.now st.world)

      same :
          S.find_steps l.step.workflow_id (S.save_workflow ended st.db)
          ≡ S.find_steps l.step.workflow_id st.db
      same = L.find_steps-save_workflow l.step.workflow_id ended st.db
