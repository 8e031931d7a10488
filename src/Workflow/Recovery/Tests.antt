-- ===== src/Workflow/Recovery/Tests.antt =====
-- A stuck step in the store in memory.
use xlm_pay.Base.{◌≡◌, refl, some}
use xlm_pay.Workflow.Entities.{Workflow, WorkflowStep}
use xlm_pay.Workflow.Services.{replace}
use xlm_pay.Workflow.Monad.{ok}
use xlm_pay.Workflow.StateMachine.{WorkflowState, StepState}
use xlm_pay.Workflow.Recovery.{LoadedStep, recover_stuck_step}
use xlm_pay.Workflow.Recovery.Stuck.{recover_stuck_step_lem}
use xlm_pay.Workflow.Tests.Memory.{memory, memory-Laws}
use xlm_pay.Workflow.Tests.Samples.{a_workflow, a_step, a_state, steps_in}

abbrev stuck : LoadedStep
stuck = record {
  step = a_step "s0" 0 StepState.running;
  workflow = a_workflow WorkflowState.running;
}

recover_stuck_step_lem_example :
    let (result, after) =
      recover_stuck_step memory stuck (a_state WorkflowState.running StepState.running) in
    (result ≡ ok tt)
    × ((row : Workflow) × (memory.find_workflow "w1" after.db ≡ some row)
        × (row.state ≡ WorkflowState.running))
    × ((x : WorkflowStep) × (x.id ≡ "s0")
        × (x.state ≡ StepState.failed)
        × (x.retry_count ≡ 1)
        × (memory.find_steps "w1" after.db ≡ replace x (steps_in StepState.running)))
recover_stuck_step_lem_example =
    recover_stuck_step_lem memory memory-Laws stuck
      (a_state WorkflowState.running StepState.running) refl refl refl
