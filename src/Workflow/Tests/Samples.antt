-- ===== src/Workflow/Tests/Samples.antt =====
-- A workflow of two steps, whose first one hangs.
use xlm_pay.Base.{ℕ, String, true, false, none, some, List, [], ◌∷◌, ◌+◌}
use xlm_pay.Base.Json.{str, end, field}
use xlm_pay.Workflow.StateMachine.{WorkflowState, StepState}
use xlm_pay.Workflow.Entities.{
  Workflow, WorkflowStep, fulfilled, StepDefinition, WorkflowDefinition,
}
use xlm_pay.Workflow.Monad.{State, Running}
use xlm_pay.Workflow.Execution.Engine.{Definitions, register_workflow_definition}
use xlm_pay.Workflow.Tests.Memory.{Store, memory}

abbrev pub a_workflow : WorkflowState → Workflow
a_workflow s = record {
  id = "w1";
  idempotency_key = "k";
  type = "demo";
  state = s;
  user_id = none;
  wallet_address = none;
  input = field "amount" (str "5") end;
  output = none;
  context = none;
  current_step_index = 0;
  total_steps = 2;
  started_at = none;
  completed_at = none;
  failed_at = none;
  failure_reason = none;
  retry_count = 0;
  max_retries = 3;
  next_retry_at = none;
  requires_compensation = false;
  is_compensated = false;
}

abbrev pub a_step : String → ℕ → StepState → WorkflowStep
a_step i n s = record {
  id = i;
  workflow_id = "w1";
  step_name = i;
  step_index = n;
  state = s;
  input = none;
  output = none;
  config = none;
  retry_count = 0;
  max_retries = 3;
  started_at = none;
  completed_at = none;
  failed_at = none;
  failure_reason = none;
  next_retry_at = none;
  requires_compensation = true;
  is_compensated = false;
  compensated_at = none;
  compensation_step_name = none;
  compensation_config = none;
  is_idempotent = true;
  idempotency_key = none;
}

-- A step whose promise never settles within its timeout.
abbrev pub hanging : StepDefinition ℕ
hanging = record {
  name = "hang";
  execute = λ i c. record { settle = λ t. (none, t); race = λ ms t. (none, t + ms) };
  compensate = none;
  is_idempotent = true;
  max_retries = none;
  timeout = some 5000;
  config = none;
}

abbrev pub demo : WorkflowDefinition ℕ
demo = record {
  type = "demo";
  name = "Demo";
  description = "";
  steps = hanging ∷ [];
  max_retries = none;
  timeout = none;
  requires_compensation = none;
  metadata = none;
}

abbrev pub registered : Definitions ℕ
registered = register_workflow_definition demo []

abbrev pub steps_in : StepState → List WorkflowStep
steps_in s = a_step "s0" 0 s ∷ a_step "s1" 1 StepState.pending ∷ []

abbrev pub a_store : WorkflowState → StepState → Store
a_store w s = record { workflows = a_workflow w ∷ []; steps = λ i. steps_in s }

abbrev pub a_state : WorkflowState → StepState → State memory
a_state w s = record { db = a_store w s; world = 100 }

abbrev pub a_run : WorkflowState → StepState → Running memory
a_run w s = record { db = a_store w s; world = 100; workflow = a_workflow w }

-- A step that is done within a second.
abbrev pub quick : StepDefinition ℕ
quick = record hanging {
  name = "quick";
  execute = λ i c. record {
    settle = λ t. (some (fulfilled (str "done")), t + 1000);
    race = λ ms t. (some (fulfilled (str "done")), t + 1000);
  };
}

abbrev pub quick_demo : WorkflowDefinition ℕ
quick_demo = record demo { steps = quick ∷ quick ∷ [] }
