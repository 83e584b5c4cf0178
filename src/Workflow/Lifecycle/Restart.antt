-- ===== src/Workflow/Lifecycle/Restart.antt =====
-- `retryWorkflow`, and what becomes of a workflow that has completed steps.
use farm_exc.Prelude.{
  ℕ, ◌+◌, ◌≡◌, refl, ◌∙◌, inl, inr, false, List, ◌∷◌, some, arith, find, get_elem?, Option-cases,
  Bool-cases, ◌⊎◌, ◌==◌, none,
}
use farm_exc.Workflow.State.{
  WorkflowState, StepState, same_step, can_transition_step, is_workflow_recoverable,
}
use farm_exc.Workflow.Entities.{
  Workflow, WorkflowStep, cannot_start, cannot_execute, overwrite_workflow, overwrite_step,
  not_recoverable,
}
use farm_exc.Workflow.Environment.{
  Env, IsStore, Sys, throws, workflow_state, workflow_retries, step_state,
}
use farm_exc.Workflow.Lifecycle.{
  WorkflowDefinition, Registry, get_workflow_definition, execute_workflow, restarted_workflow,
  restart_step, retry_workflow,
}
use farm_exc.Workflow.Lifecycle.Outcomes.{
  IsStartable, IsStartable-can, started_workflow, run_workflow-eq, conclude-fst, conclude_kept,
  execute_workflow-run_workflow, execute_workflow_refused,
}
use farm_exc.Workflow.Lifecycle.Steps.{at_step, run_steps-throws}
use farm_exc.Workflow.Execution.Rounds.{execute_step_refused}

module _ {World Db : Type 0} (env : Env World Db) (store : IsStore env) where
  restart_step_kept :
      (sts : List WorkflowStep) (d : Db) (i : ℕ)
      → env.find_workflow (restart_step env sts d) i ≡ env.find_workflow d i
  unfolding restart_step
  restart_step_kept sts d i =
      elim (Option-cases (find (λ st. same_step st.state StepState.failed) sts)) [
        | inl e ↦ rw (e, restart_step)
        | inr (st, e) ↦ rw (e, restart_step) (store.workflow_kept d _ i)
      ]

  -- Every row of a step stays, or is set back to pending.
  restart_step_rows :
      (sts : List WorkflowStep) (d : Db) (j : ℕ)
      → (env.find_step (restart_step env sts d) j ≡ env.find_step d j)
        ⊎ (step_state (env.find_step (restart_step env sts d) j) ≡ some StepState.pending)
  unfolding restart_step
  restart_step_rows sts d j =
      elim (Option-cases (find (λ st. same_step st.state StepState.failed) sts)) [
        | inl e ↦ inl (rw (e, restart_step) refl)
        | inr (st, e) ↦
            let st' = record st {
              state = StepState.pending;
              failed_at = none;
              failure_reason = none;
            } in
            elim (Bool-cases (st.id == j)) [
              | inl same ↦
                  inr (rw (e, restart_step, store.step_saved d st' j, same) (overwritten st' j))
              | inr other ↦ inl (rw (e, restart_step, store.step_saved d st' j, other) refl)
            ]
      ]
    where
      overwritten :
          (s : WorkflowStep) (j : ℕ)
          → step_state (some (overwrite_step (env.find_step d j) s)) ≡ some s.state
      overwritten s j = ground arith

  retry_workflow_unrecoverable :
      (registry : Registry World) (i : ℕ) (wf : Workflow) (sys : Sys World Db)
      → env.find_workflow sys.db i ≡ some wf
      → is_workflow_recoverable wf.state ≡ false
      → retry_workflow env registry i sys ≡ (throws (not_recoverable i), sys)
  unfolding retry_workflow
  retry_workflow_unrecoverable registry i wf sys found h = ground arith

  module _ (registry : Registry World) (def : WorkflowDefinition World) (wf : Workflow)
      (sys : Sys World Db) (found : env.find_workflow sys.db wf.id ≡ some wf)
      (known : get_workflow_definition registry wf.type ≡ some def)
      (failed : wf.state ≡ WorkflowState.failed) where
    retry_workflow-eq : retry_workflow env registry wf.id sys ≡ (
      throws (cannot_start (WorkflowState.running, WorkflowState.running)),
      record {
        world = (env.clock sys.world).1;
        db =
            restart_step env
              (env.find_steps sys.db wf.id)
              (env.save_workflow sys.db (restarted_workflow wf (env.clock sys.world).0));
      },
    )
    unfolding retry_workflow is_workflow_recoverable
    retry_workflow-eq =
        let wf' = restarted_workflow wf (env.clock sys.world).0 in
        ground (
          arith,
          execute_workflow_refused env store registry def wf'
              (record {
                world = (env.clock sys.world).1;
                db = restart_step env (env.find_steps sys.db wf.id) (env.save_workflow sys.db wf');
              })
              known,
        )

    -- The row that `retryWorkflow` leaves.
    restarted : Db
    restarted =
        restart_step env (env.find_steps sys.db wf.id)
          (env.save_workflow sys.db (restarted_workflow wf (env.clock sys.world).0))

    find-restarted :
        env.find_workflow restarted wf.id
        ≡ some (overwrite_workflow (some wf) (restarted_workflow wf (env.clock sys.world).0))
    unfolding restarted restarted_workflow
    find-restarted =
        let wf' = restarted_workflow wf (env.clock sys.world).0 in
        restart_step_kept _ (env.save_workflow sys.db wf') wf.id
        ∙ ground (arith, store.workflow_saved sys.db wf' wf.id)

    restarted_steps :
        (j : ℕ)
        → (env.find_step restarted j ≡ env.find_step sys.db j)
          ⊎ (step_state (env.find_step restarted j) ≡ some StepState.pending)
    unfolding restarted
    restarted_steps j =
        let wf' = restarted_workflow wf (env.clock sys.world).0 in
        elim (restart_step_rows (env.find_steps sys.db wf.id) (env.save_workflow sys.db wf') j) [
          | inl kept ↦ inl (kept ∙ store.step_kept sys.db wf' j)
          | inr reset ↦ inr reset
        ]

    -- A retry of a failed workflow of a registered type throws, since a running workflow cannot be
    -- started. It runs no step: of all that lies outside the tables it only reads the clock, and
    -- each row of a step stays or is set back to pending. The workflow's row is left running, with one
    -- more retry counted, and as long as it stays so, whatever else has changed, every retry is refused
    -- and writes nothing.
    pub retry_workflow_stuck :
        let r = retry_workflow env registry wf.id sys in
        (r.0 ≡ throws (cannot_start (WorkflowState.running, WorkflowState.running)))
        × (r.1.world ≡ (env.clock sys.world).1)
        × ((j : ℕ)
            → (env.find_step r.1.db j ≡ env.find_step sys.db j)
              ⊎ (step_state (env.find_step r.1.db j) ≡ some StepState.pending))
        × (workflow_state (env.find_workflow r.1.db wf.id) ≡ some WorkflowState.running)
        × (workflow_retries (env.find_workflow r.1.db wf.id) ≡ some (wf.retry_count + 1))
        × ((later : Sys World Db)
            → env.find_workflow later.db wf.id ≡ env.find_workflow r.1.db wf.id
            → retry_workflow env registry wf.id later ≡ (throws (not_recoverable wf.id), later))
    unfolding restarted restarted_workflow is_workflow_recoverable
    retry_workflow_stuck = rw retry_workflow-eq (
      refl,
      refl,
      restarted_steps,
      rw find-restarted,
      rw find-restarted,
      λ later same. retry_workflow_unrecoverable registry _ _ later (same ∙ find-restarted) refl,
    )

  -- A workflow that is started again with a completed step in front throws at that step, and no row
  -- of a step is changed.
  pub execute_workflow_completed :
      (registry : Registry World) (def : WorkflowDefinition World) (wf : Workflow)
      (sys : Sys World Db) (st : WorkflowStep) (sts : List WorkflowStep)
      → get_workflow_definition registry wf.type ≡ some def
      → IsStartable wf.state
      → env.find_steps sys.db wf.id ≡ st ∷ sts
      → st.state ≡ StepState.completed
      → ((execute_workflow env registry wf sys).0
          ≡ throws (cannot_execute (StepState.completed, StepState.running)))
        × ((j : ℕ)
            → env.find_step (execute_workflow env registry wf sys).2.db j ≡ env.find_step sys.db j)
  unfolding can_transition_step
  execute_workflow_completed registry def wf sys st sts known startable listed completed =
      let wf' : Workflow = started_workflow wf (env.clock sys.world).0 in
      let sys' : Sys World Db = record {
        world = (env.clock sys.world).1;
        db = env.save_workflow sys.db wf';
      } in
      let sys'' : Sys World Db = record sys' {
        db = env.save_workflow sys'.db (at_step env store def wf' st);
      } in
      let refusal =
        execute_step_refused env store (at_step env store def wf' st)
          (get_elem? def.steps st.step_index) st sys'' (rw completed) in
      rw
        (
          execute_workflow-run_workflow env store registry def wf sys known
              (IsStartable-can _ startable),
          run_workflow-eq env store def wf sys,
          listed,
          run_steps-throws env store def wf' st sts sys' sys'' _ refusal,
          completed,
        )
        (
          conclude-fst env store _,
          λ j.
              conclude_kept env store _ j
              ∙ store.step_kept sys'.db _ j
              ∙ store.step_kept sys.db wf' j,
        )
