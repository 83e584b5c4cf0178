-- ===== src/Workflow/State/Graph.antt =====
-- The table of a workflow as a relation, walks in it, and which states the predicates of the service single out.
use farm_exc.Prelude.{◌≡◌, refl, ◌≢◌, ◌↔◌, true, arith}
use farm_exc.Workflow.State.{
  WorkflowState, can_transition_workflow, is_workflow_terminal, can_workflow_compensate,
}

infix 40 ◌⟶◌ ◌⟶*◌
pub data ◌⟶◌ : WorkflowState → WorkflowState → Type 0 where
  start : WorkflowState.pending ⟶ WorkflowState.running
  drop : WorkflowState.pending ⟶ WorkflowState.cancelled
  finish : WorkflowState.running ⟶ WorkflowState.completed
  fail : WorkflowState.running ⟶ WorkflowState.failed
  abort : WorkflowState.running ⟶ WorkflowState.cancelled
  undo_running : WorkflowState.running ⟶ WorkflowState.compensating
  undo_completed : WorkflowState.completed ⟶ WorkflowState.compensating
  retry : WorkflowState.failed ⟶ WorkflowState.running
  give_up : WorkflowState.failed ⟶ WorkflowState.cancelled
  undo_failed : WorkflowState.failed ⟶ WorkflowState.compensating
  undo_cancelled : WorkflowState.cancelled ⟶ WorkflowState.compensating
  undone : WorkflowState.compensating ⟶ WorkflowState.compensated
  undo_failure : WorkflowState.compensating ⟶ WorkflowState.failed

-- A walk whose every step the service's table accepts.
pub data ◌⟶*◌ : WorkflowState → WorkflowState → Type 0 where
  here : {s : WorkflowState} → s ⟶* s
  then_step : {s t u : WorkflowState} → can_transition_workflow s t ≡ true → t ⟶* u → s ⟶* u

ruleset edges = (
  start, drop, finish, fail, abort, undo_running, undo_completed, retry, give_up, undo_failed,
  undo_cancelled, undone, undo_failure,
)

pub can_transition_workflow-⟶ : {s t : WorkflowState} → s ⟶ t → can_transition_workflow s t ≡ true
unfolding can_transition_workflow
can_transition_workflow-⟶ start = refl
can_transition_workflow-⟶ _ = refl

pub ⟶-can_transition_workflow : (s t : WorkflowState) → can_transition_workflow s t ≡ true → s ⟶ t
unfolding can_transition_workflow
⟶-can_transition_workflow s t h = grind (arith, edges)

-- The table has exactly the edges of the diagram.
pub can_transition_workflow_iff :
    (s t : WorkflowState) → (can_transition_workflow s t ≡ true) ↔ (s ⟶ t)
can_transition_workflow_iff s t = (⟶-can_transition_workflow s t, can_transition_workflow-⟶)

-- A walk of the table from `compensating` back to `running`.
compensating-⟶*-running : WorkflowState.compensating ⟶* WorkflowState.running
unfolding can_transition_workflow
compensating-⟶*-running =
    then_step {t = WorkflowState.failed} refl (then_step {t = WorkflowState.running} refl here)

-- Compensation is open to exactly the states with an edge to `compensating`, but for `running`.
pub can_workflow_compensate_iff :
    (s : WorkflowState)
    → (can_workflow_compensate s ≡ true) ↔ (
        (can_transition_workflow s WorkflowState.compensating ≡ true) × (s ≢ WorkflowState.running))
unfolding can_workflow_compensate can_transition_workflow
can_workflow_compensate_iff s = ground arith

-- A state that the service calls terminal is not final, unless it is `compensated`: transitions that
-- the table accepts lead from it back to `running`.
pub is_workflow_terminal-⟶*-running :
    (s : WorkflowState)
    → is_workflow_terminal s ≡ true
    → s ≢ WorkflowState.compensated
    → s ⟶* WorkflowState.running
unfolding is_workflow_terminal can_transition_workflow
is_workflow_terminal-⟶*-running WorkflowState.completed h n =
    then_step {t = WorkflowState.compensating} refl compensating-⟶*-running
is_workflow_terminal-⟶*-running WorkflowState.cancelled h n =
    then_step {t = WorkflowState.compensating} refl compensating-⟶*-running
is_workflow_terminal-⟶*-running WorkflowState.compensated h n = absurd (n refl)
is_workflow_terminal-⟶*-running _ h n = cc
