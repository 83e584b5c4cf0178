-- ===== src/Workflow/Lifecycle.antt =====
-- Backend/src/workflow/services/workflow-execution.service.ts, the operations on a whole workflow,
-- and workflow-definition.interface.ts. A workflow object that a call mutates is returned by it.
-- Saving a workflow also saves the steps loaded with it; there these hold what their rows hold.
pub mod Steps
pub mod Blame
pub mod Outcomes
pub mod Restart
pub mod Begin
use farm_exc.Prelude.{
  ℕ, zero, suc, ◌+◌, String, Bool, true, false, Option, none, some, List, [], ◌∷◌, get_elem?, find,
  length, str_eq, ◌==◌, if◌then◌else◌,
}
use farm_exc.Workflow.State.{
  WorkflowState, StepState, same_step, transition_workflow, is_workflow_recoverable,
}
use farm_exc.Workflow.Json.{Fields}
use farm_exc.Workflow.Entities.{
  Workflow, WorkflowStep, Message, definition_not_found, workflow_not_found, cannot_start,
  not_recoverable, cannot_cancel, use_compensation_service,
}
use farm_exc.Workflow.Environment.{Env, Sys, Outcome, ok, throws}
use farm_exc.Workflow.Idempotency.{generate_workflow_idempotency_key}
use farm_exc.Workflow.Execution.{StepDefinition, execute_step}

pub record WorkflowDefinition (World : Type 0) : Type 0 where
  pub type : String
  pub name : String
  pub description : String
  pub steps : List (StepDefinition World)
  pub max_retries : Option ℕ
  pub timeout : Option ℕ
  pub requires_compensation : Option Bool
  pub metadata : Option Fields

-- The map from types to definitions.
abbrev pub Registry : Type 0 → Type 0
Registry World = List (String × WorkflowDefinition World)

unfoldable pub register_workflow_definition :
    {World : Type 0} → WorkflowDefinition World → Registry World → Registry World
register_workflow_definition d [] = (d.type, d) ∷ []
register_workflow_definition d ((t, e) ∷ r) =
    if str_eq t d.type then (t, d) ∷ r else (t, e) ∷ register_workflow_definition d r

unfoldable pub get_workflow_definition :
    {World : Type 0} → Registry World → String → Option (WorkflowDefinition World)
get_workflow_definition [] type = none
get_workflow_definition ((t, d) ∷ r) type =
    let rest = get_workflow_definition r type in if str_eq t type then some d else rest

-- `n || 3`: a limit of 0 is replaced too.
abbrev pub retries_or_default : Option ℕ → ℕ
retries_or_default none = 3
retries_or_default (some n) = if n == 0 then 3 else n

-- `b || false`.
abbrev pub or_false : Option Bool → Bool
or_false none = false
or_false (some b) = b

-- `userId || 'anonymous'`.
abbrev pub user_or_anonymous : Option String → String
user_or_anonymous none = "anonymous"
user_or_anonymous (some u) = if str_eq u "" then "anonymous" else u

-- The entity that `create` makes, with the columns' defaults.
new_workflow :
    {World : Type 0}
    → ℕ
    → String
    → WorkflowDefinition World
    → String
    → Fields
    → Option String
    → Option String
    → Option Fields
    → Workflow
new_workflow id key def type input user wallet context = record {
  id = id;
  idempotency_key = key;
  type = type;
  state = WorkflowState.pending;
  user_id = user;
  wallet_address = wallet;
  input = input;
  output = none;
  context = context;
  current_step_index = 0;
  total_steps = length def.steps;
  started_at = none;
  completed_at = none;
  failed_at = none;
  failure_reason = none;
  retry_count = 0;
  max_retries = retries_or_default def.max_retries;
  next_retry_at = none;
  requires_compensation = or_false def.requires_compensation;
  is_compensated = false;
}

new_step : {World : Type 0} → ℕ → ℕ → ℕ → StepDefinition World → WorkflowStep
new_step id workflow_id index d = record {
  id = id;
  workflow_id = workflow_id;
  step_name = d.name;
  step_index = index;
  state = StepState.pending;
  input = none;
  output = none;
  config = d.config;
  retry_count = 0;
  max_retries = retries_or_default d.max_retries;
  started_at = none;
  completed_at = none;
  failed_at = none;
  failure_reason = none;
  next_retry_at = none;
  requires_compensation = d.compensates;
  is_compensated = false;
  compensated_at = none;
  compensation_step_name = none;
  compensation_config = none;
  is_idempotent = d.is_idempotent;
  idempotency_key = none;
}

-- The assignments of `retryWorkflow`.
restarted_workflow : Workflow → ℕ → Workflow
restarted_workflow wf now = record wf {
  state = WorkflowState.running;
  retry_count = wf.retry_count + 1;
  started_at = some now;
  failed_at = none;
  failure_reason = none;
}

module _ {World Db : Type 0} (env : Env World Db) where
  -- The loop of `executeSteps` over the steps that it has found.
  unfoldable pub run_steps :
      Workflow
      → WorkflowDefinition World
      → List WorkflowStep
      → Sys World Db
      → Outcome (Unit {0}) × Workflow × Sys World Db
  run_steps wf def [] sys = (ok tt, wf, sys)
  run_steps wf def (st ∷ sts) sys =
      let wf' = record wf { current_step_index = st.step_index } in
      let sys' = record sys { db = env.save_workflow sys.db wf' } in
      let (out, sys'') = execute_step env wf' st (get_elem? def.steps st.step_index) sys' in
      elim out [ throws e ↦ (throws e, wf', sys'') | ok _ ↦ run_steps wf' def sts sys'' ]

  unfoldable pub execute_steps :
      Workflow
      → WorkflowDefinition World
      → Sys World Db
      → Outcome (Unit {0}) × Workflow × Sys World Db
  execute_steps wf def sys = run_steps wf def (env.find_steps sys.db wf.id) sys

  -- The end of `executeWorkflow`: its `try` block after the steps, and its `catch` block.
  unfoldable pub conclude :
      Outcome (Unit {0}) × Workflow × Sys World Db → Outcome (Unit {0}) × Workflow × Sys World Db
  conclude (ok _, wf, sys) =
      let (now, w) = env.clock sys.world in
      let wf' = record wf { state = WorkflowState.completed; completed_at = some now } in
      (ok tt, wf', record { world = w; db = env.save_workflow sys.db wf' })
  conclude (throws e, wf, sys) =
      let (now, w) = env.clock sys.world in
      let wf' = record wf {
        state = WorkflowState.failed;
        failed_at = some now;
        failure_reason = some e;
      } in
      (throws e, wf', record { world = w; db = env.save_workflow sys.db wf' })

  -- `executeWorkflow` once the guards have passed.
  unfoldable pub run_workflow :
      Workflow
      → WorkflowDefinition World
      → Sys World Db
      → Outcome (Unit {0}) × Workflow × Sys World Db
  run_workflow wf def sys =
      let (now, w) = env.clock sys.world in
      let wf' = record wf { state = WorkflowState.running; started_at = some now } in
      conclude (execute_steps wf' def (record { world = w; db = env.save_workflow sys.db wf' }))

  -- The steps of the definition, from an index on, each saved under an id of its own.
  unfoldable pub save_new_steps : ℕ → ℕ → List (StepDefinition World) → Db → Db
  unfolding new_step
  save_new_steps workflow_id index [] d = d
  save_new_steps workflow_id index (s ∷ ss) d =
      save_new_steps workflow_id (suc index) ss
        (env.save_step d (new_step (env.new_step_id d) workflow_id index s))

  -- `workflow.steps.find(…)` and what becomes of the step found.
  restart_step : List WorkflowStep → Db → Db
  restart_step sts d = elim (find (λ st. same_step st.state StepState.failed) sts) [
    | none ↦ d
    | some st ↦
        env.save_step d
          (record st { state = StepState.pending; failed_at = none; failure_reason = none })
  ]

  unfoldable pub cancel_workflow : ℕ → Sys World Db → Outcome (Unit {0}) × Sys World Db
  cancel_workflow id sys = elim (env.find_workflow sys.db id) [
    | none ↦ (throws (workflow_not_found id), sys)
    | some wf ↦ elim (transition_workflow wf.state WorkflowState.cancelled) [
      | some e ↦ (throws (cannot_cancel e), sys)
      | none ↦
          let (now, w) = env.clock sys.world in
          let wf' = record wf { state = WorkflowState.cancelled; completed_at = some now } in
          (ok tt, record { world = w; db = env.save_workflow sys.db wf' })
    ]
  ]

module _ {World Db : Type 0} (env : Env World Db) (registry : Registry World) where
  unfoldable pub execute_workflow :
      Workflow → Sys World Db → Outcome (Unit {0}) × Workflow × Sys World Db
  execute_workflow wf sys = elim (get_workflow_definition registry wf.type) [
    | none ↦ (throws (definition_not_found wf.type), wf, sys)
    | some def ↦ elim (transition_workflow wf.state WorkflowState.running) [
      | some e ↦ (throws (cannot_start e), wf, sys)
      | none ↦ run_workflow env wf def sys
    ]
  ]

  unfoldable pub start_workflow :
      String
      → Fields
      → Option String
      → Option String
      → Option Fields
      → Sys World Db
      → Outcome Workflow × Sys World Db
  unfolding new_workflow
  start_workflow type input user wallet context sys = elim (get_workflow_definition registry type) [
    | none ↦ (throws (definition_not_found type), sys)
    | some def ↦
        let (now, w) = env.clock sys.world in
        let key =
          generate_workflow_idempotency_key env.sha256 type (user_or_anonymous user) input context
            now in
        elim (env.find_workflow_by_key sys.db key) [
          | some existing ↦ (ok existing, record sys { world = w })
          | none ↦
              let wf =
                new_workflow (env.new_workflow_id sys.db) key def type input user wallet context in
              let d = save_new_steps env wf.id 0 def.steps (env.save_workflow sys.db wf) in
              let (out, wf', sys') = execute_workflow wf (record { world = w; db = d }) in
              elim out [ throws e ↦ (throws e, sys') | ok _ ↦ (ok wf', sys') ]
        ]
  ]

  unfoldable pub retry_workflow : ℕ → Sys World Db → Outcome (Unit {0}) × Sys World Db
  unfolding restarted_workflow restart_step
  retry_workflow id sys = elim (env.find_workflow sys.db id) [
    | none ↦ (throws (workflow_not_found id), sys)
    | some wf ↦ elim (is_workflow_recoverable wf.state) [
      | false ↦ (throws (not_recoverable id), sys)
      | true ↦
          let steps = env.find_steps sys.db id in
          let (now, w) = env.clock sys.world in
          let wf' = restarted_workflow wf now in
          let d = restart_step env steps (env.save_workflow sys.db wf') in
          let (out, wf'', sys') = execute_workflow wf' (record { world = w; db = d }) in (out, sys')
    ]
  ]

-- `compensateWorkflow` of this service only refers to the other service.
unfoldable pub compensate_workflow_here : ℕ → Outcome (Unit {0})
compensate_workflow_here id = throws use_compensation_service
