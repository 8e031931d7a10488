-- ===== src/Workflow/Execution/Success/Tests.antt =====
-- A run of two steps that succeed.
use xlm_pay.Base.{◌≡◌, refl, some, [], All}
use xlm_pay.Base.Json.{str}
use xlm_pay.Workflow.Entities.{Workflow}
use xlm_pay.Workflow.Monad.{ok}
use xlm_pay.Workflow.StateMachine.{WorkflowState, StepState, transition_workflow, transition_step}
use xlm_pay.Workflow.Execution.Engine.{
  get_workflow_definition, register_workflow_definition, execute_workflow,
}
use xlm_pay.Workflow.Execution.Success.Engine.{IsCompleted, execute_workflow_success}
use xlm_pay.Workflow.Tests.Memory.{memory, memory-Laws}
use xlm_pay.Workflow.Tests.Samples.{quick, quick_demo, a_run}

execute_workflow_success_example :
    let (result, after) =
      execute_workflow memory
        (register_workflow_definition quick_demo [])
        (a_run WorkflowState.pending StepState.pending) in
    (result ≡ ok tt)
    × ((row : Workflow) × (memory.find_workflow "w1" after.db ≡ some row)
        × (row.state ≡ WorkflowState.completed))
    × All IsCompleted (memory.find_steps "w1" after.db)
unfolding get_workflow_definition register_workflow_definition transition_workflow transition_step
execute_workflow_success_example =
    execute_workflow_success memory memory-Laws quick_demo
      (register_workflow_definition quick_demo []) (a_run WorkflowState.pending StepState.pending)
      refl refl
      (
        (refl, (quick, refl, (λ i c w. (str "done", refl)))),
        ((refl, (quick, refl, (λ i c w. (str "done", refl)))), tt),
      )
