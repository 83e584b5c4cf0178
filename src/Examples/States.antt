-- ===== src/Examples/States.antt =====
-- The state machine.
use farm_exc.Prelude.{◌^◌, ◌≡◌, refl}
use farm_exc.Workflow.State.{WorkflowState, is_workflow_terminal, calculate_next_retry_time}
use farm_exc.Workflow.State.Graph.{◌⟶*◌, is_workflow_terminal-⟶*-running}

is_workflow_terminal-⟶*-running_example : WorkflowState.completed ⟶* WorkflowState.running
unfolding is_workflow_terminal
is_workflow_terminal-⟶*-running_example =
    is_workflow_terminal-⟶*-running WorkflowState.completed refl (λ e. cc)

half_jitter : calculate_next_retry_time 100 (2 ^ 52) 2 1000 ≡ 4300
unfolding calculate_next_retry_time
half_jitter = refl
