-- ===== src/Workflow/State.antt =====
-- Backend/src/workflow/services/workflow-state-machine.service.ts and the enumerations of
-- Backend/src/workflow/types. `null`-coalescing after the table lookups is dropped: every key of an
-- enumeration has an entry.
pub mod Graph
pub mod Retry
use farm_exc.Prelude.{
  ℕ, ◌+◌, ◌*◌, ◌/◌, ◌^◌, Bool, true, false, ◌||◌, List, [], ◌∷◌, Option, none, some, includes, ◌==◌,
  ◌⊎◌, inl, inr, ltb, if◌then◌else◌,
}

pub data WorkflowState : Type 0 where
  pending running completed failed cancelled compensating compensated : WorkflowState

pub data StepState : Type 0 where
  pending running completed failed skipped compensating compensated : StepState

-- The position of an enumerator. The source compares the enumerators' texts, which are distinct
-- within an enumeration.
abbrev pub workflow_index : WorkflowState → ℕ
workflow_index WorkflowState.pending = 0
workflow_index WorkflowState.running = 1
workflow_index WorkflowState.completed = 2
workflow_index WorkflowState.failed = 3
workflow_index WorkflowState.cancelled = 4
workflow_index WorkflowState.compensating = 5
workflow_index WorkflowState.compensated = 6

abbrev pub step_index : StepState → ℕ
step_index StepState.pending = 0
step_index StepState.running = 1
step_index StepState.completed = 2
step_index StepState.failed = 3
step_index StepState.skipped = 4
step_index StepState.compensating = 5
step_index StepState.compensated = 6

-- `===` on the enumerators.
abbrev pub same_workflow : WorkflowState → WorkflowState → Bool
same_workflow a b = workflow_index a == workflow_index b

abbrev pub same_step : StepState → StepState → Bool
same_step a b = step_index a == step_index b

workflow_transitions : WorkflowState → List WorkflowState
workflow_transitions WorkflowState.pending = WorkflowState.running ∷ WorkflowState.cancelled ∷ []
workflow_transitions WorkflowState.running =
    WorkflowState.completed ∷ WorkflowState.failed ∷ WorkflowState.cancelled
    ∷ WorkflowState.compensating ∷ []
workflow_transitions WorkflowState.completed = WorkflowState.compensating ∷ []
workflow_transitions WorkflowState.failed =
    WorkflowState.running ∷ WorkflowState.cancelled ∷ WorkflowState.compensating ∷ []
workflow_transitions WorkflowState.cancelled = WorkflowState.compensating ∷ []
workflow_transitions WorkflowState.compensating =
    WorkflowState.compensated ∷ WorkflowState.failed ∷ []
workflow_transitions WorkflowState.compensated = []

step_transitions : StepState → List StepState
step_transitions StepState.pending = StepState.running ∷ StepState.skipped ∷ []
step_transitions StepState.running = StepState.completed ∷ StepState.failed ∷ StepState.skipped ∷ []
step_transitions StepState.completed = StepState.compensating ∷ []
step_transitions StepState.failed =
    StepState.running ∷ StepState.skipped ∷ StepState.compensating ∷ []
step_transitions StepState.skipped = StepState.compensating ∷ []
step_transitions StepState.compensating = StepState.compensated ∷ StepState.failed ∷ []
step_transitions StepState.compensated = []

unfoldable pub get_valid_workflow_transitions : WorkflowState → List WorkflowState
unfolding workflow_transitions
get_valid_workflow_transitions s = workflow_transitions s

unfoldable pub get_valid_step_transitions : StepState → List StepState
unfolding step_transitions
get_valid_step_transitions s = step_transitions s

unfoldable pub can_transition_workflow : WorkflowState → WorkflowState → Bool
unfolding workflow_transitions
can_transition_workflow from to = includes same_workflow (workflow_transitions from) to

unfoldable pub can_transition_step : StepState → StepState → Bool
unfolding step_transitions
can_transition_step from to = includes same_step (step_transitions from) to

-- `{ success, error }`: the error text holds the two states.
unfoldable pub transition_workflow :
    WorkflowState → WorkflowState → Option (WorkflowState × WorkflowState)
unfolding can_transition_workflow
transition_workflow current new =
    if can_transition_workflow current new then none else some (current, new)

unfoldable pub transition_step : StepState → StepState → Option (StepState × StepState)
unfolding can_transition_step
transition_step current new = if can_transition_step current new then none else some (current, new)

unfoldable pub is_workflow_terminal : WorkflowState → Bool
is_workflow_terminal s =
    same_workflow s WorkflowState.completed
    || same_workflow s WorkflowState.cancelled
    || same_workflow s WorkflowState.compensated

unfoldable pub is_step_terminal : StepState → Bool
is_step_terminal s =
    same_step s StepState.completed
    || same_step s StepState.skipped
    || same_step s StepState.compensated

unfoldable pub is_workflow_recoverable : WorkflowState → Bool
is_workflow_recoverable s = same_workflow s WorkflowState.failed

unfoldable pub is_step_recoverable : StepState → Bool
is_step_recoverable s = same_step s StepState.failed

unfoldable pub can_workflow_compensate : WorkflowState → Bool
can_workflow_compensate s =
    includes same_workflow
      (WorkflowState.completed ∷ WorkflowState.failed ∷ WorkflowState.cancelled ∷ []) s

unfoldable pub can_step_compensate : StepState → Bool
can_step_compensate s =
    includes same_step (StepState.completed ∷ StepState.failed ∷ StepState.skipped ∷ []) s

-- The state is of either enumeration. `WorkflowState.FAILED` and `StepState.FAILED` are one text.
unfoldable pub should_retry : WorkflowState ⊎ StepState → ℕ → ℕ → Bool
should_retry (inl s) retry_count max_retries =
    if same_workflow s WorkflowState.failed then ltb retry_count max_retries else false
should_retry (inr s) retry_count max_retries =
    if same_step s StepState.failed then ltb retry_count max_retries else false

-- `Math.random()` is `sample / 2 ^ 53`; the milliseconds are rounded down, as `new Date` does.
unfoldable pub calculate_next_retry_time : ℕ → ℕ → ℕ → ℕ → ℕ
calculate_next_retry_time now sample retry_count base_delay =
    let exponential_delay = base_delay * 2 ^ retry_count in
    now + exponential_delay + sample * exponential_delay / (10 * 2 ^ 53)
