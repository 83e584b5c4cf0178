-- ===== src/Workflow.antt =====
-- The workflow engine: Backend/src/workflow.
pub mod State
pub mod Json
pub mod Entities
pub mod Environment
pub mod Idempotency
pub mod Execution
pub mod Lifecycle
pub mod Compensation
pub mod Recovery
