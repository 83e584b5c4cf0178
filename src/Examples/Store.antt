-- ===== src/Examples/Store.antt =====
-- Tables kept in functions and lists, for the tests. The world counts the runs of steps' code, and is
-- the clock as well.
use farm_exc.Prelude.{
  ℕ, ◌+◌, String, ◌≡◌, refl, Bool, true, ◌==◌, str_eq, eq_iff, Option, none, some, List, [], ◌∷◌,
  All, includes, length, ◌++◌, filter, if◌then◌else◌, Bool-cases, inl, inr,
}
use farm_exc.Workflow.State.{WorkflowState, StepState}
use farm_exc.Workflow.Json.{end}
use farm_exc.Workflow.Entities.{Workflow, WorkflowStep, overwrite_workflow, overwrite_step}
use farm_exc.Workflow.Environment.{Env, IsStore, Sys}

pub record Tables : Type 0 where
  pub workflow_rows : ℕ → Option Workflow
  pub step_rows : ℕ → Option WorkflowStep
  pub ids_by_key : String → Option ℕ
  pub workflow_ids : List ℕ
  pub step_ids : List ℕ

abbrev pub at_id {ℓ} : {A : Type ℓ} → (ℕ → Option A) → Option ℕ → Option A
at_id f none = none
at_id f (some i) = f i

abbrev pub rows_of {ℓ} : {A : Type ℓ} → (ℕ → Option A) → List ℕ → List A
rows_of f [] = []
rows_of f (i ∷ is) = elim (f i) [ none ↦ rows_of f is | some a ↦ a ∷ rows_of f is ]

abbrev pub write_workflow : Tables → Workflow → Tables
write_workflow d w = record d {
  workflow_rows =
      λ i. if w.id == i then some (overwrite_workflow (d.workflow_rows i) w) else d.workflow_rows i;
  ids_by_key = λ k. if str_eq w.idempotency_key k then some w.id else d.ids_by_key k;
}

abbrev pub write_step : Tables → WorkflowStep → Tables
write_step d s = record d {
  step_rows = λ i. if s.id == i then some (overwrite_step (d.step_rows i) s) else d.step_rows i;
  step_ids = if includes ◌==◌ d.step_ids s.id then d.step_ids else d.step_ids ++ s.id ∷ [];
}

abbrev pub test_env : Env ℕ Tables
test_env = record {
  clock = λ w. (w, w);
  random = λ w. (0, w);
  delay = λ ms w. w;
  sha256 = λ s. s;
  find_workflow = λ d i. d.workflow_rows i;
  find_workflow_by_key = λ d k. at_id d.workflow_rows (d.ids_by_key k);
  find_step = λ d i. d.step_rows i;
  find_steps = λ d i. filter (λ s. s.workflow_id == i) (rows_of d.step_rows d.step_ids);
  find_workflows = λ d p. filter p (rows_of d.workflow_rows d.workflow_ids);
  find_steps_where = λ d p. filter p (rows_of d.step_rows d.step_ids);
  workflow_updated_at = λ d i. 0;
  step_updated_at = λ d i. 0;
  new_workflow_id = λ d. 1;
  new_step_id = λ d. 30 + length d.step_ids;
  save_workflow = write_workflow;
  save_step = write_step;
}

All-filter {ℓ} : {A : Type ℓ} (p : A → Bool) (xs : List A) → All (λ x. p x ≡ true) (filter p xs)
All-filter p [] = tt
All-filter p (x ∷ xs) = elim (Bool-cases (p x)) [
  | inl h ↦ rw h (h, All-filter p xs)
  | inr h ↦ rw h (All-filter p xs)
]

pub test_env-IsStore : IsStore test_env
test_env-IsStore = record {
  workflow_saved = λ d w i. refl;
  workflow_kept = λ d s i. refl;
  step_saved = λ d s i. refl;
  step_kept = λ d w i. refl;
  listed_kept = λ d w i. refl;
  keyed_saved = λ d w. rw ((eq_iff w.idempotency_key w.idempotency_key).1 refl);
  queried = λ d p. All-filter p _;
}

-- A workflow with a state, and a step of it with an id, an index and a state.
abbrev pub test_workflow : WorkflowState → Workflow
test_workflow state = record {
  id = 7;
  idempotency_key = "key";
  type = "trade";
  state = state;
  user_id = some "u1";
  wallet_address = none;
  input = end;
  output = none;
  context = none;
  current_step_index = 0;
  total_steps = 2;
  started_at = none;
  completed_at = none;
  failed_at = none;
  failure_reason = none;
  retry_count = 0;
  max_retries = 3;
  next_retry_at = none;
  requires_compensation = true;
  is_compensated = Bool.false;
}

abbrev pub test_step : ℕ → ℕ → StepState → WorkflowStep
test_step id index state = record {
  id = id;
  workflow_id = 7;
  step_name = "step";
  step_index = index;
  state = state;
  input = none;
  output = none;
  config = none;
  retry_count = 0;
  max_retries = 3;
  started_at = none;
  completed_at = none;
  failed_at = none;
  failure_reason = none;
  next_retry_at = none;
  requires_compensation = true;
  is_compensated = Bool.false;
  compensated_at = none;
  compensation_step_name = none;
  compensation_config = none;
  is_idempotent = true;
  idempotency_key = none;
}

-- Workflow 7 with steps 20 and 21.
abbrev pub test_tables : WorkflowState → StepState → StepState → Tables
test_tables w s t = record {
  workflow_rows = λ i. if i == 7 then some (test_workflow w) else none;
  step_rows = λ i.
      if i == 20
      then some (test_step 20 0 s)
      else if i == 21
      then some (test_step 21 1 t)
      else none;
  ids_by_key = λ k. if str_eq k "key" then some 7 else none;
  workflow_ids = 7 ∷ [];
  step_ids = 20 ∷ 21 ∷ [];
}

abbrev pub test_sys : WorkflowState → StepState → StepState → Sys ℕ Tables
test_sys w s t = record { world = 400000; db = test_tables w s t }
