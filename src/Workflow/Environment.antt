-- ===== src/Workflow/Environment.antt =====
-- What the engine runs on and does not implement: the clock, random numbers, SHA-256 and the two
-- TypeORM repositories. `World` is all that lies outside the two tables, `Db` the tables.
use farm_exc.Prelude.{
  ℕ, String, ◌≡◌, Bool, true, All, Option, none, some, List, ◌==◌, if◌then◌else◌,
}
use farm_exc.Workflow.State.{WorkflowState, StepState}
use farm_exc.Workflow.Entities.{Workflow, WorkflowStep, Message, overwrite_workflow, overwrite_step}

pub data Outcome (A : Type 0) : Type 0 where
  ok : A → Outcome A
  throws : Message → Outcome A

pub record Sys (World Db : Type 0) : Type 0 where
  pub world : World
  pub db : Db

pub record Env (World Db : Type 0) : Type 0 where
  -- `Date.now()`.
  pub clock : World → ℕ × World
  -- `Math.random() * 2 ^ 53`.
  pub random : World → ℕ × World
  -- `setTimeout` for so many milliseconds.
  pub delay : ℕ → World → World
  -- `createHash('sha256').update(text).digest('hex')`.
  pub sha256 : String → String
  -- `findOne` by id, and by the unique idempotency key.
  pub find_workflow : Db → ℕ → Option Workflow
  pub find_workflow_by_key : Db → String → Option Workflow
  pub find_step : Db → ℕ → Option WorkflowStep
  -- The steps of a workflow by ascending stepIndex, and as the relation loads them.
  pub find_steps : Db → ℕ → List WorkflowStep
  -- `find` with a condition.
  pub find_workflows : Db → (Workflow → Bool) → List Workflow
  pub find_steps_where : Db → (WorkflowStep → Bool) → List WorkflowStep
  pub workflow_updated_at : Db → ℕ → ℕ
  pub step_updated_at : Db → ℕ → ℕ
  -- The ids that the database gives to the next rows.
  pub new_workflow_id : Db → ℕ
  pub new_step_id : Db → ℕ
  -- `save` of an entity that has an id.
  pub save_workflow : Db → Workflow → Db
  pub save_step : Db → WorkflowStep → Db

-- What the engine relies on: `save` writes the row of the entity's id and no other row, so saving a
-- workflow alone leaves the list of its steps as it is.
pub record IsStore {World Db : Type 0} (env : Env World Db) : Type 0 where
  pub workflow_saved :
      (d : Db) (w : Workflow) (i : ℕ)
      → env.find_workflow (env.save_workflow d w) i ≡ (
          if w.id == i
          then some (overwrite_workflow (env.find_workflow d i) w)
          else env.find_workflow d i)
  pub workflow_kept :
      (d : Db) (s : WorkflowStep) (i : ℕ)
      → env.find_workflow (env.save_step d s) i ≡ env.find_workflow d i
  pub step_saved :
      (d : Db) (s : WorkflowStep) (i : ℕ)
      → env.find_step (env.save_step d s) i
        ≡ (if s.id == i then some (overwrite_step (env.find_step d i) s) else env.find_step d i)
  pub step_kept :
      (d : Db) (w : Workflow) (i : ℕ) → env.find_step (env.save_workflow d w) i ≡ env.find_step d i
  pub listed_kept :
      (d : Db) (w : Workflow) (i : ℕ)
      → env.find_steps (env.save_workflow d w) i ≡ env.find_steps d i
  -- The key is unique among the rows.
  pub keyed_saved :
      (d : Db) (w : Workflow)
      → env.find_workflow_by_key (env.save_workflow d w) w.idempotency_key
        ≡ env.find_workflow (env.save_workflow d w) w.id
  -- A query returns rows that meet its condition.
  pub queried : (d : Db) (p : Workflow → Bool) → All (λ w. p w ≡ true) (env.find_workflows d p)

-- The columns of a row that the theorems speak of.
abbrev pub workflow_state : Option Workflow → Option WorkflowState
workflow_state none = none
workflow_state (some w) = some w.state

abbrev pub workflow_failure : Option Workflow → Option Message
workflow_failure none = none
workflow_failure (some w) = w.failure_reason

abbrev pub workflow_retries : Option Workflow → Option ℕ
workflow_retries none = none
workflow_retries (some w) = some w.retry_count

abbrev pub step_state : Option WorkflowStep → Option StepState
step_state none = none
step_state (some s) = some s.state

abbrev pub step_retries : Option WorkflowStep → Option ℕ
step_retries none = none
step_retries (some s) = some s.retry_count
