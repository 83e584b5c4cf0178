-- ===== src/Examples/Undoing.antt =====
-- Compensation and recovery.
use farm_exc.Prelude.{ℕ, ◌+◌, ◌≤◌, ◌<◌, ◌≡◌, refl, some, [], ◌∷◌, arith}
use farm_exc.Workflow.State.{WorkflowState, StepState}
use farm_exc.Workflow.Entities.{WorkflowStep, cannot_be_compensated, cannot_start}
use farm_exc.Workflow.Environment.{Sys, ok, throws, workflow_state, step_state, step_retries}
use farm_exc.Workflow.Compensation.{
  completed_steps, compensate_workflow, force_compensate_workflow, sort_descending,
}
use farm_exc.Workflow.Compensation.Rollback.{
  IsCompensable, RolledBack, compensate_workflow_cases, force_compensate_workflow-RolledBack,
}
use farm_exc.Workflow.Recovery.{recover_workflow, recover_orphaned_workflows, recover_stuck_step}
use farm_exc.Workflow.Recovery.Orphans.{
  OnlyFailures, recover_workflow_stuck, recover_orphaned_workflows-OnlyFailures,
}
use farm_exc.Workflow.Recovery.Stuck.{recover_stuck_step_cases}
use farm_exc.Workflow.Lifecycle.{get_workflow_definition}
use farm_exc.Examples.Store.{Tables, test_env, test_env-IsStore, test_workflow, test_step, test_sys}
use farm_exc.Examples.Running.{registry, trade}

abbrev completed_sys : Sys ℕ Tables
completed_sys = test_sys WorkflowState.completed StepState.completed StepState.completed

abbrev steps : WorkflowStep × WorkflowStep
steps = (test_step 20 0 StepState.completed, test_step 21 1 StepState.completed)

later_first : completed_steps (steps.0 ∷ steps.1 ∷ []) ≡ steps.1 ∷ steps.0 ∷ []
unfolding completed_steps sort_descending
later_first = refl

compensate_workflow_cases_example :
    let r = compensate_workflow test_env 7 completed_sys in
    (IsCompensable WorkflowState.completed
      → (r.0 ≡ ok tt)
        × RolledBack test_env test_env-IsStore 7 (steps.0 ∷ steps.1 ∷ []) completed_sys.db r.1.db)
    × (¬ IsCompensable WorkflowState.completed
        → r ≡ (throws (cannot_be_compensated 7 WorkflowState.completed), completed_sys))
compensate_workflow_cases_example =
    compensate_workflow_cases test_env test_env-IsStore 7 (test_workflow WorkflowState.completed)
      completed_sys refl refl

force_compensate_workflow-RolledBack_example :
    let r = force_compensate_workflow test_env 7 completed_sys in
    (r.0 ≡ ok tt)
    × RolledBack test_env test_env-IsStore 7 (steps.0 ∷ steps.1 ∷ []) completed_sys.db r.1.db
force_compensate_workflow-RolledBack_example =
    force_compensate_workflow-RolledBack test_env test_env-IsStore 7
      (test_workflow WorkflowState.completed) completed_sys refl refl

abbrev orphaned_sys : Sys ℕ Tables
orphaned_sys = test_sys WorkflowState.running StepState.completed StepState.running

recover_workflow_stuck_example :
    recover_workflow test_env registry 0
      (test_workflow WorkflowState.running)
      (test_step 20 0 StepState.completed ∷ test_step 21 1 StepState.running ∷ [])
      orphaned_sys
    ≡ (throws (cannot_start (WorkflowState.running, WorkflowState.running)), orphaned_sys)
unfolding get_workflow_definition
recover_workflow_stuck_example =
    recover_workflow_stuck test_env test_env-IsStore registry trade
      (test_workflow WorkflowState.running) 0
      (test_step 20 0 StepState.completed ∷ test_step 21 1 StepState.running ∷ []) orphaned_sys refl
      refl (omega arith) (refl, (refl, tt))

recover_orphaned_workflows-OnlyFailures_example :
    OnlyFailures test_env test_env-IsStore registry orphaned_sys.db
      (recover_orphaned_workflows test_env registry orphaned_sys).db
recover_orphaned_workflows-OnlyFailures_example =
    recover_orphaned_workflows-OnlyFailures test_env test_env-IsStore registry orphaned_sys

recover_stuck_step_cases_example :
    let d =
      (recover_stuck_step test_env
        (test_step 21 1 StepState.running)
        (test_workflow WorkflowState.running)
        orphaned_sys).db in
    (step_state (d.step_rows 21) ≡ some StepState.failed)
    × (step_retries (d.step_rows 21) ≡ some (0 + 1))
    × (0 + 1 < 3 → (j : ℕ) → d.workflow_rows j ≡ orphaned_sys.db.workflow_rows j)
    × (3 ≤ 0 + 1 → workflow_state (d.workflow_rows 7) ≡ some WorkflowState.failed)
recover_stuck_step_cases_example =
    recover_stuck_step_cases test_env test_env-IsStore (test_step 21 1 StepState.running)
      (test_workflow WorkflowState.running) orphaned_sys refl
