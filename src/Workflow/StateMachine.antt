-- ===== src/Workflow/StateMachine.antt =====
-- The transition tables and predicates of workflow-state-machine.service.ts, with the enums of
-- workflow/types/workflow-state.enum.ts and step-state.enum.ts. The logger is left out.
pub mod Graph
pub mod Retry
use Prim.Native.String.{String, ◌++◌}
use xlm_pay.Base.{
  ℕ, ◌+◌, ◌*◌, ◌/◌, ◌^◌, Bool, true, false, ◌||◌, Option, none, some, List, [], ◌∷◌, any, ltb, ◌==◌,
  if◌then◌else◌,
}

pub data WorkflowState : Type 0 where
  pending running completed failed cancelled compensating compensated : WorkflowState

pub data StepState : Type 0 where
  pending running completed failed skipped compensating compensated : StepState

-- The values of the enums, which the messages print.
unfoldable pub workflow_state_text : WorkflowState → String
workflow_state_text WorkflowState.pending = "pending"
workflow_state_text WorkflowState.running = "running"
workflow_state_text WorkflowState.completed = "completed"
workflow_state_text WorkflowState.failed = "failed"
workflow_state_text WorkflowState.cancelled = "cancelled"
workflow_state_text WorkflowState.compensating = "compensating"
workflow_state_text WorkflowState.compensated = "compensated"

unfoldable pub step_state_text : StepState → String
step_state_text StepState.pending = "pending"
step_state_text StepState.running = "running"
step_state_text StepState.completed = "completed"
step_state_text StepState.failed = "failed"
step_state_text StepState.skipped = "skipped"
step_state_text StepState.compensating = "compensating"
step_state_text StepState.compensated = "compensated"

-- `===` on the enums, by the place of a state in its enum.
abbrev pub workflow_state_index : WorkflowState → ℕ
workflow_state_index WorkflowState.pending = 0
workflow_state_index WorkflowState.running = 1
workflow_state_index WorkflowState.completed = 2
workflow_state_index WorkflowState.failed = 3
workflow_state_index WorkflowState.cancelled = 4
workflow_state_index WorkflowState.compensating = 5
workflow_state_index WorkflowState.compensated = 6

abbrev pub is_workflow_state : WorkflowState → WorkflowState → Bool
is_workflow_state a b = workflow_state_index a == workflow_state_index b

abbrev pub step_state_index : StepState → ℕ
step_state_index StepState.pending = 0
step_state_index StepState.running = 1
step_state_index StepState.completed = 2
step_state_index StepState.failed = 3
step_state_index StepState.skipped = 4
step_state_index StepState.compensating = 5
step_state_index StepState.compensated = 6

abbrev pub is_step_state : StepState → StepState → Bool
is_step_state a b = step_state_index a == step_state_index b

unfoldable pub workflow_transitions : WorkflowState → List WorkflowState
workflow_transitions WorkflowState.pending = WorkflowState.running ∷ WorkflowState.cancelled ∷ []
workflow_transitions WorkflowState.running =
    WorkflowState.completed ∷ WorkflowState.failed ∷ WorkflowState.cancelled
    ∷ WorkflowState.compensating ∷ []
workflow_transitions WorkflowState.completed = WorkflowState.compensating ∷ []
workflow_transitions WorkflowState.failed =
    WorkflowState.running ∷ WorkflowState.cancelled ∷ WorkflowState.compensating ∷ []
workflow_transitions WorkflowState.cancelled = WorkflowState.compensating ∷ []
workflow_transitions WorkflowState.compensating =
    WorkflowState.compensated ∷ WorkflowState.failed ∷ []
workflow_transitions WorkflowState.compensated = []

unfoldable pub step_transitions : StepState → List StepState
step_transitions StepState.pending = StepState.running ∷ StepState.skipped ∷ []
step_transitions StepState.running = StepState.completed ∷ StepState.failed ∷ StepState.skipped ∷ []
step_transitions StepState.completed = StepState.compensating ∷ []
step_transitions StepState.failed =
    StepState.running ∷ StepState.skipped ∷ StepState.compensating ∷ []
step_transitions StepState.skipped = StepState.compensating ∷ []
step_transitions StepState.compensating = StepState.compensated ∷ StepState.failed ∷ []
step_transitions StepState.compensated = []

unfoldable pub can_transition_workflow : WorkflowState → WorkflowState → Bool
unfolding workflow_transitions
can_transition_workflow from to = any (λ s. is_workflow_state s to) (workflow_transitions from)

unfoldable pub can_transition_step : StepState → StepState → Bool
unfolding step_transitions
can_transition_step from to = any (λ s. is_step_state s to) (step_transitions from)

-- `{ success, error? }`: `none` is success, `some` the error text.
unfoldable pub transition_workflow : WorkflowState → WorkflowState → Option String
unfolding can_transition_workflow
transition_workflow current_state new_state =
    if can_transition_workflow current_state new_state
    then none
    else some (
        "Invalid workflow state transition from "
        ++ (workflow_state_text current_state ++ (" to " ++ workflow_state_text new_state)))

unfoldable pub transition_step : StepState → StepState → Option String
unfolding can_transition_step
transition_step current_state new_state =
    if can_transition_step current_state new_state
    then none
    else some (
        "Invalid step state transition from "
        ++ (step_state_text current_state ++ (" to " ++ step_state_text new_state)))

unfoldable pub is_workflow_terminal : WorkflowState → Bool
is_workflow_terminal state =
    is_workflow_state state WorkflowState.completed
    || is_workflow_state state WorkflowState.cancelled
    || is_workflow_state state WorkflowState.compensated

unfoldable pub is_step_terminal : StepState → Bool
is_step_terminal state =
    is_step_state state StepState.completed
    || is_step_state state StepState.skipped
    || is_step_state state StepState.compensated

unfoldable pub is_workflow_recoverable : WorkflowState → Bool
is_workflow_recoverable state = is_workflow_state state WorkflowState.failed

unfoldable pub is_step_recoverable : StepState → Bool
is_step_recoverable state = is_step_state state StepState.failed

unfoldable pub can_workflow_compensate : WorkflowState → Bool
can_workflow_compensate state =
    any (λ s. is_workflow_state s state)
      (WorkflowState.completed ∷ WorkflowState.failed ∷ WorkflowState.cancelled ∷ [])

unfoldable pub can_step_compensate : StepState → Bool
can_step_compensate state =
    any (λ s. is_step_state s state)
      (StepState.completed ∷ StepState.failed ∷ StepState.skipped ∷ [])

-- The engine asks this of a step alone; both enums spell the failed state the same.
unfoldable pub should_retry : StepState → ℕ → ℕ → Bool
should_retry state retry_count max_retries =
    if is_step_state state StepState.failed then ltb retry_count max_retries else false

-- `Math.random()` is `random / 2 ^ 53`; a `Date` holds whole milliseconds.
unfoldable pub calculate_next_retry_time : (now random retry_count base_delay : ℕ) → ℕ
calculate_next_retry_time now random retry_count base_delay =
    let exponential_delay = base_delay * 2 ^ retry_count in
    now + (exponential_delay + random * exponential_delay / (10 * 2 ^ 53))
