-- ===== src/Workflow/Entities.antt =====
-- Backend/src/workflow/entities/workflow.entity.ts, workflow-step.entity.ts, and the error texts of
-- the services. An optional column is an `Option`, where `none` is `undefined`. The columns that the
-- database itself keeps, createdAt and updatedAt, are read through the environment.
use farm_exc.Prelude.{ℕ, String, Bool, Option, none, some}
use farm_exc.Workflow.State.{WorkflowState, StepState}
use farm_exc.Workflow.Json.{Json, Fields}

-- The error texts, one constructor for each template string, with what it interpolates.
pub data Message : Type 0 where
  definition_not_found : String → Message
  workflow_not_found : ℕ → Message
  cannot_start : WorkflowState × WorkflowState → Message
  cannot_execute : StepState × StepState → Message
  step_failed : String → ℕ → Message → Message
  not_recoverable : ℕ → Message
  cannot_cancel : WorkflowState × WorkflowState → Message
  use_compensation_service : Message
  cannot_be_compensated : ℕ → WorkflowState → Message
  cannot_start_compensation : WorkflowState × WorkflowState → Message
  cannot_start_step_compensation : StepState × StepState → Message
  compensation_failed : Message → Message
  failed_during_interruption : Message
  timed_out_during_interruption : Message
  step_exhausted : String → Message
  -- An error of a step's own code, and the TypeError for a step with no definition.
  thrown : String → Message
  definition_undefined : Message
  -- The bound on the rounds of a recursion was too small.
  out_of_fuel : Message

pub record Workflow : Type 0 where
  pub id : ℕ
  pub idempotency_key : String
  pub type : String
  pub state : WorkflowState
  pub user_id : Option String
  pub wallet_address : Option String
  pub input : Fields
  pub output : Option Fields
  pub context : Option Fields
  pub current_step_index : ℕ
  pub total_steps : ℕ
  pub started_at : Option ℕ
  pub completed_at : Option ℕ
  pub failed_at : Option ℕ
  pub failure_reason : Option Message
  pub retry_count : ℕ
  pub max_retries : ℕ
  pub next_retry_at : Option ℕ
  pub requires_compensation : Bool
  pub is_compensated : Bool

pub record WorkflowStep : Type 0 where
  pub id : ℕ
  pub workflow_id : ℕ
  pub step_name : String
  pub step_index : ℕ
  pub state : StepState
  pub input : Option Fields
  pub output : Option Json
  pub config : Option Fields
  pub retry_count : ℕ
  pub max_retries : ℕ
  pub started_at : Option ℕ
  pub completed_at : Option ℕ
  pub failed_at : Option ℕ
  pub failure_reason : Option Message
  pub next_retry_at : Option ℕ
  pub requires_compensation : Bool
  pub is_compensated : Bool
  pub compensated_at : Option ℕ
  pub compensation_step_name : Option String
  pub compensation_config : Option Fields
  pub is_idempotent : Bool
  pub idempotency_key : Option String

abbrev pub or_else {ℓ} : {A : Type ℓ} → Option A → Option A → Option A
or_else (some a) o = some a
or_else none o = o

-- What a row holds after `save`, which leaves a column alone where the entity has `undefined`.
abbrev pub overwrite_workflow : Option Workflow → Workflow → Workflow
overwrite_workflow none w = w
overwrite_workflow (some old) w = record w {
  user_id = or_else w.user_id old.user_id;
  wallet_address = or_else w.wallet_address old.wallet_address;
  output = or_else w.output old.output;
  context = or_else w.context old.context;
  started_at = or_else w.started_at old.started_at;
  completed_at = or_else w.completed_at old.completed_at;
  failed_at = or_else w.failed_at old.failed_at;
  failure_reason = or_else w.failure_reason old.failure_reason;
  next_retry_at = or_else w.next_retry_at old.next_retry_at;
}

abbrev pub overwrite_step : Option WorkflowStep → WorkflowStep → WorkflowStep
overwrite_step none s = s
overwrite_step (some old) s = record s {
  input = or_else s.input old.input;
  output = or_else s.output old.output;
  config = or_else s.config old.config;
  started_at = or_else s.started_at old.started_at;
  completed_at = or_else s.completed_at old.completed_at;
  failed_at = or_else s.failed_at old.failed_at;
  failure_reason = or_else s.failure_reason old.failure_reason;
  next_retry_at = or_else s.next_retry_at old.next_retry_at;
  compensated_at = or_else s.compensated_at old.compensated_at;
  compensation_step_name = or_else s.compensation_step_name old.compensation_step_name;
  compensation_config = or_else s.compensation_config old.compensation_config;
  idempotency_key = or_else s.idempotency_key old.idempotency_key;
}
