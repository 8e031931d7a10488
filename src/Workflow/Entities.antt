-- ===== src/Workflow/Entities.antt =====
-- The rows of workflow/entities and the definitions of workflow/types. A `Date` is its time in
-- milliseconds; a type of workflow is the text that the enum gives it. The columns `createdAt`
-- and `updatedAt` are kept by the database and stand in no record; the relation `steps` is read
-- from the store.
use xlm_pay.Base.{ℕ, String, Bool, Option, List}
use xlm_pay.Base.Json.{Json, Fields}
use xlm_pay.Workflow.StateMachine.{WorkflowState, StepState}

pub record Workflow : Type 0 where
  pub id : String
  pub idempotency_key : String
  pub type : String
  pub state : WorkflowState
  pub user_id : Option String
  pub wallet_address : Option String
  pub input : Fields
  pub output : Option Fields
  pub context : Option Fields
  pub current_step_index : ℕ
  pub total_steps : ℕ
  pub started_at : Option ℕ
  pub completed_at : Option ℕ
  pub failed_at : Option ℕ
  pub failure_reason : Option String
  pub retry_count : ℕ
  pub max_retries : ℕ
  pub next_retry_at : Option ℕ
  pub requires_compensation : Bool
  pub is_compensated : Bool

pub record WorkflowStep : Type 0 where
  pub id : String
  pub workflow_id : String
  pub step_name : String
  pub step_index : ℕ
  pub state : StepState
  pub input : Option Json
  pub output : Option Json
  pub config : Option Fields
  pub retry_count : ℕ
  pub max_retries : ℕ
  pub started_at : Option ℕ
  pub completed_at : Option ℕ
  pub failed_at : Option ℕ
  pub failure_reason : Option String
  pub next_retry_at : Option ℕ
  pub requires_compensation : Bool
  pub is_compensated : Bool
  pub compensated_at : Option ℕ
  pub compensation_step_name : Option String
  pub compensation_config : Option Fields
  pub is_idempotent : Bool
  pub idempotency_key : Option String

pub record WorkflowContext : Type 0 where
  pub workflow_id : String
  pub idempotency_key : String
  pub user_id : Option String
  pub wallet_address : Option String
  pub type : String
  pub retry_count : ℕ
  pub step_index : ℕ
  pub metadata : Option Fields

-- What an awaited promise comes to: a value, or an `Error` with its message.
pub data Settled : Type 0 where
  fulfilled : Json → Settled
  rejected : String → Settled

-- A promise already started, over the state `W` of the world. `settle` awaits it, and is
-- `none` if it never settles; `race` awaits it for so many milliseconds, and is `none` if the time
-- passes first.
pub record Operation (W : Type 0) : Type 0 where
  pub settle : W → Option Settled × W
  pub race : ℕ → W → Option Settled × W

-- The input that a step is given is itself a promise, of the object in it.
pub data StepInput : Type 0 where
  promise : Fields → StepInput

pub record StepDefinition (W : Type 0) : Type 0 where
  pub name : String
  pub execute : StepInput → WorkflowContext → Operation W
  pub compensate : Option (StepInput → Json → WorkflowContext → Operation W)
  pub is_idempotent : Bool
  pub max_retries : Option ℕ
  pub timeout : Option ℕ
  pub config : Option Fields

pub record WorkflowDefinition (W : Type 0) : Type 0 where
  pub type : String
  pub name : String
  pub description : String
  pub steps : List (StepDefinition W)
  pub max_retries : Option ℕ
  pub timeout : Option ℕ
  pub requires_compensation : Option Bool
  pub metadata : Option Fields
