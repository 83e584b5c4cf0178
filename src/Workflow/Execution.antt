-- ===== src/Workflow/Execution.antt =====
-- Backend/src/workflow/services/workflow-execution.service.ts.
-- A call runs from its start to its end: what other calls do to the tables between its awaits is not
-- modelled, nor are failures of the repositories.
pub mod Attempts
pub mod Rounds
pub mod Frame
pub mod Calls
use farm_exc.Prelude.{
  ℕ, zero, suc, ◌+◌, ◌-◌, String, Bool, true, false, inr, Option, none, some, List, [], ◌∷◌, ◌&&◌,
  ltb, if◌then◌else◌,
}
use farm_exc.Workflow.State.{StepState, transition_step, should_retry, calculate_next_retry_time}
use farm_exc.Workflow.Json.{Json, Fields, end, put, is_truthy}
use farm_exc.Workflow.Entities.{
  Workflow, WorkflowStep, Message, cannot_execute, step_failed, definition_undefined, out_of_fuel,
}
use farm_exc.Workflow.Environment.{Env, Sys, Outcome, ok, throws}
use farm_exc.Workflow.Idempotency.{Argument, promise, generate_step_idempotency_key}

-- step-definition.interface.ts.
pub record WorkflowContext : Type 0 where
  pub workflow_id : ℕ
  pub idempotency_key : String
  pub user_id : Option String
  pub wallet_address : Option String
  pub type : String
  pub retry_count : ℕ
  pub step_index : ℕ
  pub metadata : Option Fields

pub record StepDefinition (World : Type 0) : Type 0 where
  pub name : String
  pub execute : Argument → WorkflowContext → World → Outcome (Option Json) × World
  -- Whether `compensate` is given: the services never call it.
  pub compensates : Bool
  pub is_idempotent : Bool
  pub max_retries : Option ℕ
  pub config : Option Fields

-- What one round of `executeStep` comes to, before any further round.
pub data Attempt (World Db : Type 0) : Type 0 where
  refused : StepState × StepState → Attempt World Db
  succeeded : Sys World Db → Attempt World Db
  again : WorkflowStep → Sys World Db → Attempt World Db
  exhausted : Message → Sys World Db → Attempt World Db

module _ {World Db : Type 0} (env : Env World Db) where
  step_context : Workflow → WorkflowStep → WorkflowContext
  step_context wf st = record {
    workflow_id = wf.id;
    idempotency_key = wf.idempotency_key;
    user_id = wf.user_id;
    wallet_address = wf.wallet_address;
    type = wf.type;
    retry_count = st.retry_count;
    step_index = st.step_index;
    metadata = wf.context;
  }

  merge_outputs : List WorkflowStep → ℕ → Fields → Fields
  merge_outputs [] i fs = fs
  merge_outputs (prev ∷ prevs) i fs = merge_outputs prevs i (elim prev.output [
    | none ↦ fs
    | some v ↦ if ltb prev.step_index i && is_truthy (some v) then put prev.step_name v fs else fs
  ])

  -- The promise of `prepareStepInput`, which `executeStep` passes on without waiting for it.
  prepare_step_input : Db → Workflow → WorkflowStep → Argument
  unfolding merge_outputs
  prepare_step_input d wf st =
      promise (merge_outputs (env.find_steps d wf.id) st.step_index wf.input)

  -- `state = RUNNING; startedAt = new Date()` and `save`.
  start_attempt : WorkflowStep → Sys World Db → WorkflowStep × Sys World Db
  start_attempt st sys =
      let (now, w) = env.clock sys.world in
      let st' = record st { state = StepState.running; started_at = some now } in
      (st', record { world = w; db = env.save_step sys.db st' })

  add_key : Workflow → WorkflowStep → Argument → Sys World Db → WorkflowStep × Sys World Db
  add_key wf st input sys =
      let key = generate_step_idempotency_key env.sha256 wf.idempotency_key st.step_name input in
      let st' = record st { idempotency_key = some key } in
      if st.is_idempotent then (st', record sys { db = env.save_step sys.db st' }) else (st, sys)

  -- Both branches of the source run the step: there is no look-up by the key yet.
  execute_with_idempotency :
      Option (StepDefinition World)
      → Argument
      → WorkflowContext
      → Option String
      → World
      → Outcome (Option Json) × World
  execute_with_idempotency none input context key w = (throws definition_undefined, w)
  execute_with_idempotency (some d) input context key w = d.execute input context w

  complete_step : WorkflowStep → Option Json → Sys World Db → Sys World Db
  complete_step st output sys =
      let (now, w) = env.clock sys.world in
      let st' = record st {
        state = StepState.completed;
        output = output;
        completed_at = some now;
      } in
      record { world = w; db = env.save_step sys.db st' }

  -- The assignments at the head of the `catch` block.
  fail_step : WorkflowStep → Message → Sys World Db → WorkflowStep × Sys World Db
  fail_step st e sys =
      let (now, w) = env.clock sys.world in
      (
        record st {
          state = StepState.failed;
          failed_at = some now;
          failure_reason = some e;
          retry_count = st.retry_count + 1;
        },
        record sys { world = w },
      )

  -- `nextRetryAt`, `save` and the wait.
  schedule_retry : WorkflowStep → Sys World Db → WorkflowStep × Sys World Db
  schedule_retry st sys =
      let (sample, w1) = env.random sys.world in
      let (now, w2) = env.clock w1 in
      let at = calculate_next_retry_time now sample st.retry_count 1000 in
      let st' = record st { next_retry_at = some at } in
      let (later, w3) = env.clock w2 in
      (st', record { world = env.delay (at - later) w3; db = env.save_step sys.db st' })

  -- The `catch` block up to its recursive call.
  settle_failure : WorkflowStep → Message → Sys World Db → Attempt World Db
  unfolding fail_step schedule_retry
  settle_failure st e sys =
      let (st', sys') = fail_step st e sys in
      if should_retry (inr StepState.failed) st'.retry_count st'.max_retries
      then again (schedule_retry st' sys').0 (schedule_retry st' sys').1
      else exhausted (step_failed st'.step_name st'.retry_count e)
          (record sys' { db = env.save_step sys'.db st' })

  -- What follows the step's own code.
  settle : WorkflowStep → Sys World Db → Outcome (Option Json) × World → Attempt World Db
  unfolding complete_step settle_failure
  settle st sys (ok output, w) = succeeded (complete_step st output (record sys { world = w }))
  settle st sys (throws e, w) = settle_failure st e (record sys { world = w })

  -- `executeStep` from the change of state to its recursive call.
  unfoldable pub run_attempt :
      Workflow → WorkflowStep → Option (StepDefinition World) → Sys World Db → Attempt World Db
  unfolding step_context prepare_step_input start_attempt add_key execute_with_idempotency
      complete_step settle_failure settle
  run_attempt wf st def sys =
      let (st1, sys1) = start_attempt st sys in
      let context = step_context wf st1 in
      let input = prepare_step_input sys1.db wf st1 in
      let (st2, sys2) = add_key wf st1 input sys1 in
      settle st2 sys2 (execute_with_idempotency def input context st2.idempotency_key sys2.world)

  unfoldable pub attempt :
      Workflow → WorkflowStep → Option (StepDefinition World) → Sys World Db → Attempt World Db
  unfolding step_context prepare_step_input start_attempt add_key execute_with_idempotency
      complete_step settle_failure settle run_attempt
  attempt wf st def sys = elim (transition_step st.state StepState.running) [
    | some e ↦ refused e
    | none ↦ run_attempt wf st def sys
  ]

  -- `executeStep`, with a bound on its rounds.
  unfoldable pub execute_rounds :
      ℕ
      → Workflow
      → WorkflowStep
      → Option (StepDefinition World)
      → Sys World Db
      → Outcome (Unit {0}) × Sys World Db
  execute_rounds zero wf st def sys = (throws out_of_fuel, sys)
  execute_rounds (suc fuel) wf st def sys = elim (attempt wf st def sys) [
    | refused e ↦ (throws (cannot_execute e), sys)
    | succeeded sys' ↦ (ok tt, sys')
    | again st' sys' ↦ execute_rounds fuel wf st' def sys'
    | exhausted e sys' ↦ (throws e, sys')
  ]

  unfoldable pub execute_step :
      Workflow
      → WorkflowStep
      → Option (StepDefinition World)
      → Sys World Db
      → Outcome (Unit {0}) × Sys World Db
  execute_step wf st def sys = execute_rounds (suc (st.max_retries - st.retry_count)) wf st def sys
