-- ===== src/Workflow/Tests.antt =====
-- Runs of the engine on a store in memory.
pub mod Memory
pub mod Samples
use xlm_pay.Base.{
  ℕ, String, ◌≡◌, refl, ◌≢◌, true, false, Option, none, some, List, [], ◌∷◌, ◌≤◌, ◌+◌, map, inl,
  inr, any, ◌↔◌, arith,
}
use xlm_pay.Base.Json.{Json, Fields, str, obj, end, field}
use xlm_pay.Base.Stringify.{keys, sort}
use xlm_pay.Base.Stringify.Prune.{prune_fields}
use xlm_pay.Workflow.StateMachine.{
  WorkflowState, StepState, can_workflow_compensate, calculate_next_retry_time,
  is_workflow_terminal, transition_workflow, transition_step, is_workflow_state,
  workflow_state_text, can_transition_workflow, can_transition_step, can_step_compensate,
}
use xlm_pay.Workflow.StateMachine.Graph.{
  HasRun, HasRun-requested, follow, request, terminal_only_compensates, can_workflow_compensate_iff,
  can_step_compensate-eq,
}
use xlm_pay.Workflow.StateMachine.Retry.{calculate_next_retry_time_bounds}
use xlm_pay.Workflow.Entities.{
  Workflow, WorkflowStep, WorkflowContext, Settled, fulfilled, rejected, Operation, StepInput,
  StepDefinition, WorkflowDefinition,
}
use xlm_pay.Workflow.Services.{Services}
use xlm_pay.Workflow.Monad.{State, Running, ok, throw, diverged, error, message}
use xlm_pay.Workflow.Idempotency.{generate_workflow_idempotency_key}
use xlm_pay.Workflow.Idempotency.Collisions.{visible, generate_workflow_idempotency_key_collision}
use xlm_pay.Workflow.Compensation.{compensate_workflow, compensation_order}
use xlm_pay.Workflow.Compensation.Effect.{
  compensated_row, settled, compensate_workflow_lem, compensate_workflow_refused,
}
use xlm_pay.Workflow.Compensation.Loop.{outlines}
use xlm_pay.Workflow.Compensation.Halting.{compensate_workflow-Halts}
use xlm_pay.Workflow.Execution.Step.{execute_step}
use xlm_pay.Workflow.Execution.Engine.{
  Definitions, get_workflow_definition, register_workflow_definition, execute_workflow,
  retry_workflow,
}
use xlm_pay.Workflow.Execution.Halting.{execute_step-Halts}
use xlm_pay.Workflow.Execution.Halting.Engine.{execute_workflow-Halts}
use xlm_pay.Workflow.Execution.Timeout.{not_compensated, execute_step_timeout}
use xlm_pay.Workflow.Execution.Timeout.Engine.{execute_workflow_timeout}
use xlm_pay.Workflow.Execution.Retry.{retry_workflow_stuck}
use xlm_pay.Workflow.Tests.Memory.{Store, memory, memory-Laws}
use xlm_pay.Workflow.Tests.Samples.{
  a_workflow, a_step, hanging, demo, registered, steps_in, a_store, a_state, a_run,
}
use mathlib.Core.List.{Perm}
use xlm_pay.Base.{filter}
use xlm_pay.Workflow.Compensation.{needs_compensation}
use xlm_pay.Workflow.Compensation.Order.{IsDescending, compensation_order_lem}
use xlm_pay.Workflow.Recovery.{LoadedWorkflow, recover_orphaned_workflows}
use xlm_pay.Workflow.Recovery.Orphans.{recover_orphaned_workflows_idle}

compensate_workflow_lem_example :
    let (result, after) =
      compensate_workflow memory "w1" (a_state WorkflowState.failed StepState.completed) in
    (result ≡ ok tt)
    × ((time : ℕ) × (memory.find_workflow "w1" after.db
          ≡ some (compensated_row (a_workflow WorkflowState.failed) time)))
    × (outlines memory "w1" after.db
        ≡ map
            (settled (steps_in StepState.completed))
            (outlines memory "w1" (a_store WorkflowState.failed StepState.completed)))
unfolding can_workflow_compensate
compensate_workflow_lem_example =
    compensate_workflow_lem memory memory-Laws (a_workflow WorkflowState.failed)
      (a_state WorkflowState.failed StepState.completed) refl refl

execute_workflow-Halts_example :
    (execute_workflow memory registered (a_run WorkflowState.pending StepState.pending)).0
    ≢ diverged
unfolding get_workflow_definition register_workflow_definition
execute_workflow-Halts_example =
    execute_workflow-Halts memory registered (a_run WorkflowState.pending StepState.pending)
      (tt, tt)

execute_workflow_timeout_example :
    let (result, after) =
      execute_workflow memory registered (a_run WorkflowState.pending StepState.pending) in
    (result ≡ throw (not_compensated (a_workflow WorkflowState.pending)))
    × ((row : Workflow) × (memory.find_workflow "w1" after.db ≡ some row)
        × (row.state ≡ WorkflowState.failed)
        × (row.failure_reason ≡ some "Workflow w1 cannot be compensated in state: running")
        × (row.is_compensated ≡ false))
unfolding get_workflow_definition register_workflow_definition transition_workflow transition_step
execute_workflow_timeout_example =
    execute_workflow_timeout memory memory-Laws registered demo hanging 4999
      (a_step "s0" 0 StepState.pending) (a_step "s1" 1 StepState.pending ∷ [])
      (a_run WorkflowState.pending StepState.pending) refl refl refl refl refl refl (λ i c w. refl)

retry_workflow_stuck_example :
    let (result, after) =
      retry_workflow memory registered "w1" (a_state WorkflowState.failed StepState.failed) in
    (result
      ≡ throw (
          error "Cannot start workflow: Invalid workflow state transition from running to running"))
    × ((row : Workflow) × (memory.find_workflow "w1" after.db ≡ some row)
        × (row.state ≡ WorkflowState.running)
        × (row.retry_count ≡ 1))
unfolding get_workflow_definition register_workflow_definition
retry_workflow_stuck_example =
    retry_workflow_stuck memory memory-Laws registered demo (a_workflow WorkflowState.failed)
      (a_state WorkflowState.failed StepState.failed) refl refl refl

abbrev nested : String → Fields
nested amount = field "to" (obj (field "amount" (str amount) end)) end

generate_workflow_idempotency_key_collision_example :
    generate_workflow_idempotency_key (λ s. s) "2025-01-01" "demo" "u1" (nested "1") none
    ≡ generate_workflow_idempotency_key (λ s. s) "2025-01-01" "demo" "u1" (nested "999") none
unfolding keys sort prune_fields
generate_workflow_idempotency_key_collision_example =
    generate_workflow_idempotency_key_collision (λ s. s) "2025-01-01" "demo" "u1" (nested "1")
      (nested "999") none refl refl

pending_not_run : ¬ HasRun WorkflowState.pending
pending_not_run (inl e) = cc
pending_not_run (inr e) = cc

calculate_next_retry_time_bounds_example :
    (5000 ≤ calculate_next_retry_time 1000 0 2 1000)
    × (calculate_next_retry_time 1000 0 2 1000 ≤ 5400)
calculate_next_retry_time_bounds_example =
    calculate_next_retry_time_bounds 1000 0 2 1000 (omega arith)

can_step_compensate-eq_example :
    can_step_compensate StepState.completed
    ≡ can_transition_step StepState.completed StepState.compensating
can_step_compensate-eq_example = can_step_compensate-eq StepState.completed

compensation_order_lem_example :
    Perm
      (compensation_order (steps_in StepState.completed))
      (filter needs_compensation (steps_in StepState.completed))
    × IsDescending (compensation_order (steps_in StepState.completed))
compensation_order_lem_example = compensation_order_lem (steps_in StepState.completed)

-- The one RUNNING workflow of the store, long after it was last updated.
abbrev find_running : Store → List LoadedWorkflow
find_running d =
    record {
      workflow = a_workflow WorkflowState.running;
      updated_at = 0;
      steps = steps_in StepState.completed;
    }
    ∷ []

recover_orphaned_workflows_idle_example :
    recover_orphaned_workflows memory find_running registered
      (record { db = a_store WorkflowState.running StepState.completed; world = 900000 })
    ≡ (ok tt, record { db = a_store WorkflowState.running StepState.completed; world = 900000 })
recover_orphaned_workflows_idle_example =
    recover_orphaned_workflows_idle memory registered find_running
      (record { db = a_store WorkflowState.running StepState.completed; world = 900000 })
      ((refl, refl), tt)
