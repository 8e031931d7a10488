-- ===== src/Workflow.antt =====
-- The workflow engine, Backend/src/workflow.
pub mod Tests
pub mod StateMachine
pub mod Entities
pub mod Services
pub mod Monad
pub mod Idempotency
pub mod Compensation
pub mod Execution
pub mod Start
pub mod Recovery
