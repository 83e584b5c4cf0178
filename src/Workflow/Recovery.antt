-- ===== src/Workflow/Recovery.antt =====
-- Backend/src/workflow/services/recovery.service.ts. `cleanupExpiredWorkflows` only writes to the log.
pub mod Orphans
pub mod Stuck
use farm_exc.Prelude.{
  ℕ, ◌+◌, ◌-◌, ◌*◌, Bool, true, false, inr, not, ◌&&◌, Option, none, some, List, [], ◌∷◌, filter,
  length, map, ltb, if◌then◌else◌,
}
use farm_exc.Workflow.State.{
  WorkflowState, StepState, same_workflow, same_step, should_retry, calculate_next_retry_time,
}
use farm_exc.Workflow.Entities.{
  Workflow, WorkflowStep, Message, failed_during_interruption, timed_out_during_interruption,
  step_exhausted,
}
use farm_exc.Workflow.Environment.{Env, Sys, Outcome, ok, throws}
use farm_exc.Workflow.Lifecycle.{Registry, execute_workflow}

-- 5 and 10 minutes, in milliseconds.
abbrev pub workflow_staleness : ℕ
workflow_staleness = 5 * 60 * 1000

abbrev pub step_staleness : ℕ
step_staleness = 10 * 60 * 1000

is_failed_step : WorkflowStep → Bool
is_failed_step st = same_step st.state StepState.failed

latest : List WorkflowStep → Option WorkflowStep → Option WorkflowStep
latest [] best = best
latest (st ∷ sts) best = latest sts (elim best [
  | none ↦ some st
  | some b ↦ if ltb b.step_index st.step_index then some st else some b
])

last_completed_step : List WorkflowStep → Option WorkflowStep
unfolding latest
last_completed_step sts = latest (filter (λ st. same_step st.state StepState.completed) sts) none

-- Where the workflow is resumed.
resume_index : Option WorkflowStep → ℕ
resume_index none = 0
resume_index (some st) = st.step_index + 1

module _ {World Db : Type 0} (env : Env World Db) where
  interrupted_workflow : Workflow → ℕ → Workflow
  interrupted_workflow wf now = record wf {
    state = WorkflowState.failed;
    failure_reason = some failed_during_interruption;
    failed_at = some now;
  }

  module _ (registry : Registry World) where
    -- The part of `recoverWorkflow` behind the test for staleness; `steps` are the workflow's.
    recover_stale : Workflow → List WorkflowStep → Sys World Db → Outcome (Unit {0}) × Sys World Db
    unfolding is_failed_step last_completed_step resume_index interrupted_workflow
    recover_stale wf steps sys = elim (filter is_failed_step steps) [
      | failed ∷ more ↦
          let (now, w) = env.clock sys.world in
          let d = env.save_workflow sys.db (interrupted_workflow wf now) in
          (ok tt, record { world = w; db = d })
      | [] ↦
          let index = resume_index (last_completed_step steps) in
          let (out, wf', sys') =
            execute_workflow env registry (record wf { current_step_index = index }) sys in
          (out, sys')
    ]

    unfoldable pub recover_workflow :
        ℕ → Workflow → List WorkflowStep → Sys World Db → Outcome (Unit {0}) × Sys World Db
    unfolding recover_stale
    recover_workflow last_activity wf steps sys =
        let (now, w) = env.clock sys.world in
        let sys' = record sys { world = w } in
        if ltb (now - last_activity) workflow_staleness
        then (ok tt, sys')
        else recover_stale wf steps sys'

    -- A workflow as `find` has loaded it: its row, its last activity and its steps.
    abbrev Loaded : Type 0
    Loaded = Workflow × ℕ × List WorkflowStep

    -- The loop: an error of one workflow is logged.
    recover_each : List Loaded → Sys World Db → Sys World Db
    recover_each [] sys = sys
    recover_each ((wf, last_activity, steps) ∷ rest) sys =
        recover_each rest (recover_workflow last_activity wf steps sys).1

    unfoldable pub recover_orphaned_workflows : Sys World Db → Sys World Db
    unfolding recover_each
    recover_orphaned_workflows sys =
        let running =
          env.find_workflows sys.db (λ wf. same_workflow wf.state WorkflowState.running) in
        let load : Workflow → Loaded =
          λ wf. (wf, env.workflow_updated_at sys.db wf.id, env.find_steps sys.db wf.id) in
        recover_each (map load running) sys

  stuck_step : WorkflowStep → ℕ → WorkflowStep
  stuck_step st now = record st {
    state = StepState.failed;
    failed_at = some now;
    failure_reason = some timed_out_during_interruption;
    retry_count = st.retry_count + 1;
  }

  exhausted_workflow : Workflow → WorkflowStep → ℕ → Workflow
  exhausted_workflow wf st now = record wf {
    state = WorkflowState.failed;
    failed_at = some now;
    failure_reason = some (step_exhausted st.step_name);
  }

  -- The two ends of `recoverStuckStep`, of which the step is failed already: it gets a time for its
  -- retry, or the workflow fails with it.
  schedule_stuck_step : WorkflowStep → Sys World Db → Sys World Db
  schedule_stuck_step st sys =
      let (sample, w1) = env.random sys.world in
      let (now, w2) = env.clock w1 in
      let at = calculate_next_retry_time now sample st.retry_count 1000 in
      record { world = w2; db = env.save_step sys.db (record st { next_retry_at = some at }) }

  give_up_stuck_step : WorkflowStep → Workflow → Sys World Db → Sys World Db
  unfolding exhausted_workflow
  give_up_stuck_step st wf sys =
      let (now, w) = env.clock sys.world in
      let d = env.save_workflow sys.db (exhausted_workflow wf st now) in
      record { world = w; db = env.save_step d st }

  unfoldable pub recover_stuck_step : WorkflowStep → Workflow → Sys World Db → Sys World Db
  unfolding stuck_step schedule_stuck_step give_up_stuck_step
  recover_stuck_step st wf sys =
      let st' = stuck_step st (env.clock sys.world).0 in
      let sys' = record sys { world = (env.clock sys.world).1 } in
      if not (same_workflow wf.state WorkflowState.running)
      then sys
      else if should_retry (inr StepState.failed) st'.retry_count st'.max_retries
      then schedule_stuck_step st' sys'
      else give_up_stuck_step st' wf sys'

  -- The loop: a step with no workflow is an error, which is logged.
  recover_each_step : List (WorkflowStep × Option Workflow) → Sys World Db → Sys World Db
  recover_each_step [] sys = sys
  recover_each_step ((st, owner) ∷ rest) sys =
      recover_each_step rest (elim owner [ none ↦ sys | some wf ↦ recover_stuck_step st wf sys ])

  unfoldable pub recover_stuck_steps : Sys World Db → Sys World Db
  unfolding recover_each_step
  recover_stuck_steps sys =
      let (now, w) = env.clock sys.world in
      let is_stuck = λ (st : WorkflowStep).
        same_step st.state StepState.running
        && ltb (env.step_updated_at sys.db st.id) (now - step_staleness) in
      let load : WorkflowStep → WorkflowStep × Option Workflow =
        λ st. (st, env.find_workflow sys.db st.workflow_id) in
      recover_each_step (map load (env.find_steps_where sys.db is_stuck)) (record sys { world = w })

module _ {World Db : Type 0} (env : Env World Db) (registry : Registry World) where
  -- The flag `isRecovering`, and the tables, after `performStartupRecovery` and `scheduledRecovery`.
  unfoldable pub perform_startup_recovery : Bool → Sys World Db → Bool × Sys World Db
  perform_startup_recovery is_recovering sys =
      if is_recovering
      then (is_recovering, sys)
      else (false, recover_stuck_steps env (recover_orphaned_workflows env registry sys))

  unfoldable pub scheduled_recovery : Bool → Sys World Db → Bool × Sys World Db
  scheduled_recovery is_recovering sys =
      if is_recovering
      then (is_recovering, sys)
      else (false, recover_stuck_steps env (recover_orphaned_workflows env registry sys))

  -- The counts of the workflows and of the steps that are left running.
  unfoldable pub trigger_manual_recovery : Sys World Db → (ℕ × ℕ) × Sys World Db
  trigger_manual_recovery sys =
      let sys1 = recover_orphaned_workflows env registry sys in
      let running =
        env.find_workflows sys1.db (λ wf. same_workflow wf.state WorkflowState.running) in
      let sys2 = recover_stuck_steps env sys1 in
      let stuck = env.find_steps_where sys2.db (λ st. same_step st.state StepState.running) in
      ((length running, length stuck), sys2)
