-- ===== src/Workflow/Recovery/Stuck.antt =====
-- `recoverStuckStep`.
use farm_exc.Prelude.{ℕ, ◌+◌, ◌≤◌, ◌<◌, ◌≡◌, ltb, some, arith, Bool-cases, inl, inr}
use farm_exc.Workflow.State.{WorkflowState, StepState, should_retry}
use farm_exc.Workflow.Entities.{Workflow, WorkflowStep}
use farm_exc.Workflow.Environment.{Env, IsStore, Sys, workflow_state, step_state, step_retries}
use farm_exc.Workflow.Execution.Attempts.{step_state-save_step, step_retries-save_step}
use farm_exc.Workflow.Lifecycle.Outcomes.{save-state}
use farm_exc.Workflow.Recovery.{recover_stuck_step, stuck_step}

module _ {World Db : Type 0} (env : Env World Db) (store : IsStore env) where
  -- A stuck step of a running workflow becomes failed, with one more retry counted. While retries are
  -- left, every row of a workflow stays, so its own stays running; otherwise its own becomes failed.
  pub recover_stuck_step_cases :
      (st : WorkflowStep) (wf : Workflow) (sys : Sys World Db)
      → wf.state ≡ WorkflowState.running
      → let d = (recover_stuck_step env st wf sys).db in
        (step_state (env.find_step d st.id) ≡ some StepState.failed)
        × (step_retries (env.find_step d st.id) ≡ some (st.retry_count + 1))
        × (st.retry_count + 1 < st.max_retries
            → (j : ℕ) → env.find_workflow d j ≡ env.find_workflow sys.db j)
        × (st.max_retries ≤ st.retry_count + 1
            → workflow_state (env.find_workflow d wf.id) ≡ some WorkflowState.failed)
  unfolding recover_stuck_step should_retry stuck_step
  recover_stuck_step_cases st wf sys running =
      elim (Bool-cases (ltb (st.retry_count + 1) st.max_retries)) [
        | inl more ↦
            rw (running, more)
              (
                step_state-save_step env store _ _,
                step_retries-save_step env store _ _,
                λ h j. store.workflow_kept sys.db _ j,
                λ h. absurd (ground arith),
              )
        | inr last ↦
            rw (running, last)
              (
                step_state-save_step env store _ _,
                step_retries-save_step env store _ _,
                λ h. absurd (ground arith),
                λ h. rw (store.workflow_kept _ _ wf.id) (save-state env store _ _),
              )
      ]
