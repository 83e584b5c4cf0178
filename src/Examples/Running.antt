-- ===== src/Examples/Running.antt =====
-- Executing, restarting and cancelling.
use farm_exc.Prelude.{ℕ, ◌+◌, ◌≡◌, refl, ◌⊎◌, inl, inr, false, true, none, some, [], ◌∷◌, ◌==◌}
use farm_exc.Workflow.State.{
  WorkflowState, StepState, transition_workflow, transition_step, should_retry,
}
use farm_exc.Workflow.Json.{end}
use farm_exc.Workflow.Entities.{
  Workflow, cannot_start, not_recoverable, cannot_execute, cannot_cancel, thrown,
}
use farm_exc.Workflow.Environment.{Sys, ok, throws, workflow_state, workflow_retries, step_state}
use farm_exc.Workflow.Idempotency.{generate_workflow_idempotency_key, generate_step_idempotency_key}
use farm_exc.Workflow.Execution.{StepDefinition, execute_step, execute_rounds, attempt, run_attempt}
use farm_exc.Workflow.Execution.Rounds.{Ends, execute_step-Ends}
use farm_exc.Workflow.Execution.Calls.{IsCounter, Calls, execute_step-Calls}
use farm_exc.Workflow.Execution.Frame.{OnlyStep, execute_step-OnlyStep}
use farm_exc.Workflow.Lifecycle.{
  WorkflowDefinition, Registry, get_workflow_definition, execute_workflow, retry_workflow,
  cancel_workflow, start_workflow, save_new_steps, run_workflow, execute_steps, run_steps, conclude,
}
use farm_exc.Workflow.Lifecycle.Begin.{
  start_workflow_twice, finished, final_state, IsCancellable, cancel_workflow_cases,
}
use farm_exc.Workflow.Lifecycle.Steps.{Progress}
use farm_exc.Workflow.Lifecycle.Outcomes.{
  Concludes, execute_workflow-Concludes, execute_workflow-Progress,
}
use farm_exc.Workflow.Lifecycle.Restart.{retry_workflow_stuck, execute_workflow_completed}
use farm_exc.Examples.Store.{Tables, test_env, test_env-IsStore, test_workflow, test_step, test_sys}

-- A step that always fails, and one that succeeds.
abbrev pub failing : StepDefinition ℕ
failing = record {
  name = "step";
  execute = λ input context w. (throws (thrown "boom"), w + 1);
  compensates = true;
  is_idempotent = true;
  max_retries = none;
  config = none;
}

abbrev pub passing : StepDefinition ℕ
passing = record {
  name = "step";
  execute = λ input context w. (ok none, w + 1);
  compensates = true;
  is_idempotent = true;
  max_retries = none;
  config = none;
}

abbrev pub trade : WorkflowDefinition ℕ
trade = record {
  type = "trade";
  name = "trade";
  description = "";
  steps = passing ∷ failing ∷ [];
  max_retries = none;
  timeout = none;
  requires_compensation = some true;
  metadata = none;
}

abbrev pub registry : Registry ℕ
registry = ("trade", trade) ∷ []

registered : get_workflow_definition registry "trade" ≡ some trade
unfolding get_workflow_definition
registered = refl

abbrev fresh_sys : Sys ℕ Tables
fresh_sys = test_sys WorkflowState.pending StepState.pending StepState.pending

execute_step-Ends_example : Ends test_env test_env-IsStore (test_step 21 1 StepState.pending) (
    execute_step test_env
      (test_workflow WorkflowState.running)
      (test_step 21 1 StepState.pending)
      (some failing)
      fresh_sys)
execute_step-Ends_example =
    execute_step-Ends test_env test_env-IsStore (test_workflow WorkflowState.running) (some failing)
      (test_step 21 1 StepState.pending) fresh_sys (inl refl)

counter : IsCounter test_env failing (λ w. w)
counter = record {
  clock_same = λ w. refl;
  random_same = λ w. refl;
  delay_same = λ ms w. refl;
  execute_counts = λ input context w. refl;
}

execute_step-Calls_example :
    Calls test_env test_env-IsStore failing
      (λ w. w)
      counter
      (test_workflow WorkflowState.running)
      400000
      (test_step 21 1 StepState.pending)
      (execute_step test_env
        (test_workflow WorkflowState.running)
        (test_step 21 1 StepState.pending)
        (some failing)
        fresh_sys)
execute_step-Calls_example =
    execute_step-Calls test_env test_env-IsStore failing (λ w. w) counter
      (test_workflow WorkflowState.running) (test_step 21 1 StepState.pending) fresh_sys (inl refl)

failing_calls :
    (execute_step test_env
      (test_workflow WorkflowState.running)
      (test_step 21 1 StepState.pending)
      (some failing)
      fresh_sys).1.world
    ≡ 400003
unfolding execute_step execute_rounds attempt run_attempt transition_step should_retry
failing_calls = refl

execute_step-OnlyStep_example :
    OnlyStep test_env 21 fresh_sys.db
      (execute_step test_env
        (test_workflow WorkflowState.running)
        (test_step 21 1 StepState.pending)
        (some failing)
        fresh_sys).1.db
execute_step-OnlyStep_example =
    execute_step-OnlyStep test_env test_env-IsStore (test_workflow WorkflowState.running)
      (some failing) (test_step 21 1 StepState.pending) fresh_sys

execute_workflow-Concludes_example :
    Concludes test_env test_env-IsStore 7
      (test_step 20 0 StepState.pending ∷ test_step 21 1 StepState.pending ∷ [])
      (execute_workflow test_env registry (test_workflow WorkflowState.pending) fresh_sys)
execute_workflow-Concludes_example =
    execute_workflow-Concludes test_env test_env-IsStore registry trade
      (test_workflow WorkflowState.pending) fresh_sys registered (inl refl)

execute_workflow-Progress_example :
    Progress test_env test_env-IsStore fresh_sys.db
      (execute_workflow test_env registry (test_workflow WorkflowState.pending) fresh_sys).2.db
      (test_step 20 0 StepState.pending ∷ test_step 21 1 StepState.pending ∷ [])
      (execute_workflow test_env registry (test_workflow WorkflowState.pending) fresh_sys).0
execute_workflow-Progress_example =
    execute_workflow-Progress test_env test_env-IsStore registry trade
      (test_workflow WorkflowState.pending) fresh_sys registered (inl refl)
      (inl refl, (inl refl, tt)) ((refl, tt), (tt, tt))

-- The second step fails three times.
two_steps :
    (execute_workflow test_env registry (test_workflow WorkflowState.pending) fresh_sys).2.world
    ≡ 400004
unfolding execute_workflow get_workflow_definition run_workflow execute_steps run_steps conclude
    execute_step execute_rounds attempt run_attempt transition_step transition_workflow should_retry
two_steps = refl

abbrev failed_sys : Sys ℕ Tables
failed_sys = test_sys WorkflowState.failed StepState.completed StepState.failed

retry_workflow_stuck_example :
    let r = retry_workflow test_env registry 7 failed_sys in
    (r.0 ≡ throws (cannot_start (WorkflowState.running, WorkflowState.running)))
    × (r.1.world ≡ failed_sys.world)
    × ((j : ℕ)
        → (r.1.db.step_rows j ≡ failed_sys.db.step_rows j)
          ⊎ (step_state (r.1.db.step_rows j) ≡ some StepState.pending))
    × (workflow_state (r.1.db.workflow_rows 7) ≡ some WorkflowState.running)
    × (workflow_retries (r.1.db.workflow_rows 7) ≡ some (0 + 1))
    × ((later : Sys ℕ Tables)
        → later.db.workflow_rows 7 ≡ r.1.db.workflow_rows 7
        → retry_workflow test_env registry 7 later ≡ (throws (not_recoverable 7), later))
retry_workflow_stuck_example =
    retry_workflow_stuck test_env test_env-IsStore registry trade
      (test_workflow WorkflowState.failed) failed_sys refl registered refl

execute_workflow_completed_example :
    let r = execute_workflow test_env registry (test_workflow WorkflowState.failed) failed_sys in
    (r.0 ≡ throws (cannot_execute (StepState.completed, StepState.running)))
    × ((j : ℕ) → r.2.db.step_rows j ≡ failed_sys.db.step_rows j)
execute_workflow_completed_example =
    execute_workflow_completed test_env test_env-IsStore registry trade
      (test_workflow WorkflowState.failed) failed_sys (test_step 20 0 StepState.completed)
      (test_step 21 1 StepState.failed ∷ []) registered (inr refl) refl refl

start_workflow_twice_example :
    let start = start_workflow test_env registry "trade" end (some "u1") none none in
    (row : Workflow) × ((start fresh_sys).1.db.workflow_rows (test_env.new_workflow_id fresh_sys.db)
      ≡ some row)
    × (start (start fresh_sys).1
        ≡ (ok row, record (start fresh_sys).1 { world = (start fresh_sys).1.world }))
    × (row.state ≡ final_state (finished (start fresh_sys).0))
unfolding generate_workflow_idempotency_key start_workflow save_new_steps execute_workflow
    get_workflow_definition run_workflow execute_steps run_steps conclude execute_step
    execute_rounds attempt run_attempt transition_step transition_workflow should_retry
    generate_step_idempotency_key
start_workflow_twice_example =
    start_workflow_twice test_env test_env-IsStore registry trade "trade" end (some "u1") none none
      registered fresh_sys refl refl

cancel_workflow_cases_example :
    let r = cancel_workflow test_env 7 failed_sys in
    (IsCancellable WorkflowState.failed
      → (r.0 ≡ ok tt)
        × (workflow_state (r.1.db.workflow_rows 7) ≡ some WorkflowState.cancelled)
        × ((j : ℕ) → (7 == j) ≡ false → r.1.db.workflow_rows j ≡ failed_sys.db.workflow_rows j)
        × ((j : ℕ) → r.1.db.step_rows j ≡ failed_sys.db.step_rows j))
    × (¬ IsCancellable WorkflowState.failed
        → r ≡ (throws (cannot_cancel (WorkflowState.failed, WorkflowState.cancelled)), failed_sys))
cancel_workflow_cases_example =
    cancel_workflow_cases test_env test_env-IsStore 7 (test_workflow WorkflowState.failed)
      failed_sys refl refl
