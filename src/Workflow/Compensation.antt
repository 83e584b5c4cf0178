-- ===== src/Workflow/Compensation.antt =====
-- Backend/src/workflow/services/compensation.service.ts. The compensation of a step is simulated there
-- by a wait, which cannot fail; so the `catch` block of `compensateStep` is not reached.
pub mod Order
pub mod Rollback
use farm_exc.Prelude.{
  ℕ, ◌-◌, Bool, true, false, not, ◌&&◌, Option, none, some, List, [], ◌∷◌, filter, ltb, ◌||◌,
  if◌then◌else◌,
}
use farm_exc.Workflow.State.{
  WorkflowState, StepState, same_workflow, same_step, transition_workflow, transition_step,
  can_workflow_compensate,
}
use farm_exc.Workflow.Entities.{
  Workflow, WorkflowStep, Message, workflow_not_found, cannot_be_compensated,
  cannot_start_compensation, cannot_start_step_compensation, compensation_failed,
}
use farm_exc.Workflow.Environment.{Env, Sys, Outcome, ok, throws}

-- `steps.sort((a, b) => b.stepIndex - a.stepIndex)`, which is stable.
insert_step : WorkflowStep → List WorkflowStep → List WorkflowStep
insert_step st [] = st ∷ []
insert_step st (s ∷ sts) =
    let rest = insert_step st sts in
    if ltb st.step_index s.step_index then s ∷ rest else st ∷ s ∷ sts

unfoldable pub sort_descending : List WorkflowStep → List WorkflowStep
unfolding insert_step
sort_descending [] = []
sort_descending (st ∷ sts) = insert_step st (sort_descending sts)

-- The steps that a compensation undoes.
abbrev pub needs_compensation : WorkflowStep → Bool
needs_compensation st = same_step st.state StepState.completed && st.requires_compensation

unfoldable pub completed_steps : List WorkflowStep → List WorkflowStep
unfolding sort_descending
completed_steps sts = sort_descending (filter needs_compensation sts)

module _ {World Db : Type 0} (env : Env World Db) where
  -- `COMPENSATING`, `save`, the wait, `COMPENSATED`, `save`.
  undo_step : ℕ → WorkflowStep → Sys World Db → Sys World Db
  undo_step ms st sys =
      let (now, w) = env.clock sys.world in
      let st' = record st { state = StepState.compensating; compensated_at = some now } in
      let st'' = record st' { state = StepState.compensated; is_compensated = true } in
      record { world = env.delay ms w; db = env.save_step (env.save_step sys.db st') st'' }

  unfoldable pub compensate_step : WorkflowStep → Sys World Db → Outcome (Unit {0}) × Sys World Db
  unfolding undo_step
  compensate_step st sys = elim (transition_step st.state StepState.compensating) [
    | some e ↦ (throws (cannot_start_step_compensation e), sys)
    | none ↦ (ok tt, undo_step 1000 st sys)
  ]

  unfoldable pub compensate_steps :
      List WorkflowStep → Sys World Db → Outcome (Unit {0}) × Sys World Db
  compensate_steps [] sys = (ok tt, sys)
  compensate_steps (st ∷ sts) sys =
      let (out, sys') = compensate_step st sys in
      elim out [ throws e ↦ (throws e, sys') | ok _ ↦ compensate_steps sts sys' ]

  -- The end of the `try` block, and the `catch` block.
  conclude_compensation :
      Workflow → Outcome (Unit {0}) × Sys World Db → Outcome (Unit {0}) × Sys World Db
  conclude_compensation wf (ok _, sys) =
      let (now, w) = env.clock sys.world in
      (
        ok tt,
        record {
          world = w;
          db = env.save_workflow sys.db (record wf {
            state = WorkflowState.compensated;
            is_compensated = true;
            completed_at = some now;
          });
        },
      )
  conclude_compensation wf (throws e, sys) = (
    throws e,
    record sys {
      db = env.save_workflow sys.db (record wf {
        state = WorkflowState.failed;
        failure_reason = some (compensation_failed e);
      });
    },
  )

  run_compensation : Workflow → List WorkflowStep → Sys World Db → Outcome (Unit {0}) × Sys World Db
  unfolding conclude_compensation
  run_compensation wf steps sys =
      let wf' = record wf { state = WorkflowState.compensating; requires_compensation = true } in
      conclude_compensation wf' (
        compensate_steps (completed_steps steps) (record sys { db = env.save_workflow sys.db wf' }))

  unfoldable pub compensate_workflow : ℕ → Sys World Db → Outcome (Unit {0}) × Sys World Db
  unfolding run_compensation conclude_compensation
  compensate_workflow id sys = elim (env.find_workflow sys.db id) [
    | none ↦ (throws (workflow_not_found id), sys)
    | some wf ↦ elim (can_workflow_compensate wf.state) [
      | false ↦ (throws (cannot_be_compensated id wf.state), sys)
      | true ↦ elim (transition_workflow wf.state WorkflowState.compensating) [
        | some e ↦ (throws (cannot_start_compensation e), sys)
        | none ↦ run_compensation wf (env.find_steps sys.db id) sys
      ]
    ]
  ]

  force_compensate_steps : List WorkflowStep → Sys World Db → Sys World Db
  unfolding undo_step
  force_compensate_steps [] sys = sys
  force_compensate_steps (st ∷ sts) sys = force_compensate_steps sts (undo_step 500 st sys)

  unfoldable pub force_compensate_workflow : ℕ → Sys World Db → Outcome (Unit {0}) × Sys World Db
  unfolding force_compensate_steps
  force_compensate_workflow id sys = elim (env.find_workflow sys.db id) [
    | none ↦ (throws (workflow_not_found id), sys)
    | some wf ↦
        let wf' = record wf { state = WorkflowState.compensating; requires_compensation = true } in
        let sys' =
          force_compensate_steps (completed_steps (env.find_steps sys.db id))
            (record sys { db = env.save_workflow sys.db wf' }) in
        let wf'' = record wf' { state = WorkflowState.compensated; is_compensated = true } in
        (ok tt, record sys' { db = env.save_workflow sys'.db wf'' })
  ]

  unfoldable pub get_compensatable_workflows : Db → List Workflow
  get_compensatable_workflows d = env.find_workflows d λ wf.
      (same_workflow wf.state WorkflowState.failed
        || same_workflow wf.state WorkflowState.cancelled)
      && wf.requires_compensation
      && not wf.is_compensated

  unfoldable pub requires_compensation : Db → ℕ → Outcome Bool
  requires_compensation d id = elim (env.find_workflow d id) [
    | none ↦ throws (workflow_not_found id)
    | some wf ↦ ok (wf.requires_compensation && not wf.is_compensated)
  ]
