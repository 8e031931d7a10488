-- ===== src/Workflow/Execution.antt =====
-- workflow-execution.service.ts: a step with its retries and timeout, the run of a workflow, retry
-- and cancellation.
pub mod Step
pub mod Engine
pub mod Halting
pub mod Timeout
pub mod Retry
pub mod Success
