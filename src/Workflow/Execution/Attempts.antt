-- ===== src/Workflow/Execution/Attempts.antt =====
-- One round of `executeStep`.
use farm_exc.Prelude.{
  ℕ, String, ◌+◌, ◌≤◌, ◌<◌, ◌≡◌, ◌⊎◌, inl, inr, Option, some, arith, Bool-cases, ◌∙◌, if◌then◌else◌,
  true, false, ltb,
}
use farm_exc.Workflow.State.{StepState, can_transition_step, transition_step, should_retry}
use farm_exc.Workflow.Json.{Json}
use farm_exc.Workflow.Entities.{Workflow, WorkflowStep, Message, step_failed}
use farm_exc.Workflow.Environment.{Env, IsStore, Sys, Outcome, ok, throws, step_state, step_retries}
use farm_exc.Workflow.Idempotency.{Argument}
use farm_exc.Workflow.Execution.{
  StepDefinition, Attempt, refused, succeeded, again, exhausted, start_attempt, add_key,
  complete_step, fail_step, settle, run_attempt, prepare_step_input, step_context,
  execute_with_idempotency, settle_failure, attempt,
}

-- The states in which a step may be run.
abbrev pub IsRunnable : StepState → Type 0
IsRunnable s = (s ≡ StepState.pending) ⊎ (s ≡ StepState.failed)

pub IsRunnable-can : (s : StepState) → IsRunnable s → can_transition_step s StepState.running ≡ true
unfolding can_transition_step
IsRunnable-can s h = ground arith

-- The error `Step … failed after … retries: …`.
abbrev pub IsStepFailure : String → ℕ → Message → Type 0
IsStepFailure name n (step_failed s k e) = (s ≡ name) × (k ≡ n)
IsStepFailure name n _ = ⊥

module _ {World Db : Type 0} (env : Env World Db) (store : IsStore env) where
  pub step_state-save_step :
      (d : Db) (st : WorkflowStep)
      → step_state (env.find_step (env.save_step d st) st.id) ≡ some st.state
  step_state-save_step d st = ground (arith, store.step_saved d st st.id)

  pub step_retries-save_step :
      (d : Db) (st : WorkflowStep)
      → step_retries (env.find_step (env.save_step d st) st.id) ≡ some st.retry_count
  step_retries-save_step d st = ground (arith, store.step_saved d st st.id)

  -- What a round leaves behind.
  abbrev pub Settles : WorkflowStep → Attempt World Db → Type 0
  Settles st (refused e) = ⊥
  Settles st (succeeded sys) =
      (step_state (env.find_step sys.db st.id) ≡ some StepState.completed)
      × (step_retries (env.find_step sys.db st.id) ≡ some st.retry_count)
  Settles st (again st' sys) =
      (st'.id ≡ st.id)
      × (st'.state ≡ StepState.failed)
      × (st'.retry_count ≡ st.retry_count + 1)
      × (st'.max_retries ≡ st.max_retries)
      × (st'.step_name ≡ st.step_name)
      × (st.retry_count + 1 < st.max_retries)
  Settles st (exhausted e sys) =
      (step_state (env.find_step sys.db st.id) ≡ some StepState.failed)
      × (step_retries (env.find_step sys.db st.id) ≡ some (st.retry_count + 1))
      × (st.max_retries ≤ st.retry_count + 1)
      × IsStepFailure st.step_name (st.retry_count + 1) e

  complete_step-Settles :
      (st : WorkflowStep) (o : Option Json) (sys : Sys World Db)
      → Settles st (succeeded (complete_step env st o sys))
  unfolding complete_step
  complete_step-Settles st o sys = (step_state-save_step _ _, step_retries-save_step _ _)

  settle_failure-Settles :
      (st : WorkflowStep) (e : Message) (sys : Sys World Db)
      → Settles st (settle_failure env st e sys)
  unfolding settle_failure should_retry
  settle_failure-Settles st e sys =
      let st' = (fail_step env st e sys).0 in
      let db' = (fail_step env st e sys).1.db in
      elim (Bool-cases (ltb (st.retry_count + 1) st.max_retries)) [
        | inl more ↦ rw more (ground arith)
        | inr last ↦ rw last (
          step_state-save_step db' st',
          step_retries-save_step db' st',
          ground arith,
          ground arith,
        )
      ]

  settle-Settles :
      (st : WorkflowStep) (sys : Sys World Db) (r : Outcome (Option Json) × World)
      → Settles st (settle env st sys r)
  unfolding settle
  settle-Settles st sys (ok o, w) = complete_step-Settles st o (record sys { world = w })
  settle-Settles st sys (throws e, w) = settle_failure-Settles st e (record sys { world = w })

  record SameStep (st st' : WorkflowStep) : Type 0 where
    same_id : st'.id ≡ st.id
    same_name : st'.step_name ≡ st.step_name
    same_retries : st'.retry_count ≡ st.retry_count
    same_max : st'.max_retries ≡ st.max_retries

  Settles-same :
      (st st' : WorkflowStep) (a : Attempt World Db)
      → SameStep st st'
      → Settles st' a
      → Settles st a
  Settles-same st st' (refused e) s h = h
  Settles-same st st' (succeeded sys) s h = ground arith
  Settles-same st st' (again st'' sys) s h = ground arith
  Settles-same st st' (exhausted e sys) s h = ground arith

  add_key-SameStep :
      (wf : Workflow) (st : WorkflowStep) (input : Argument) (sys sys' : Sys World Db)
      → SameStep st (add_key env wf (start_attempt env st sys).0 input sys').0
  unfolding add_key start_attempt
  add_key-SameStep wf st input sys sys' = ground arith

  run_attempt-Settles :
      (wf : Workflow) (st : WorkflowStep) (def : Option (StepDefinition World)) (sys : Sys World Db)
      → Settles st (run_attempt env wf st def sys)
  unfolding run_attempt
  run_attempt-Settles wf st def sys =
      let (st1, sys1) = start_attempt env st sys in
      let input = prepare_step_input env sys1.db wf st1 in
      let (st2, sys2) = add_key env wf st1 input sys1 in
      let r =
        execute_with_idempotency env def input (step_context env wf st1) st2.idempotency_key
          sys2.world in
      Settles-same st st2 (settle env st2 sys2 r) (add_key-SameStep wf st input sys sys1)
        (settle-Settles st2 sys2 r)

  pub attempt-if :
      (wf : Workflow) (st : WorkflowStep) (def : Option (StepDefinition World)) (sys : Sys World Db)
      → attempt env wf st def sys ≡ (
          if can_transition_step st.state StepState.running
          then run_attempt env wf st def sys
          else refused (st.state, StepState.running))
  unfolding attempt transition_step
  attempt-if wf st def sys = ground arith

  pub attempt_refused :
      (wf : Workflow) (st : WorkflowStep) (def : Option (StepDefinition World)) (sys : Sys World Db)
      → can_transition_step st.state StepState.running ≡ false
      → attempt env wf st def sys ≡ refused (st.state, StepState.running)
  attempt_refused wf st def sys h = attempt-if wf st def sys ∙ rw h

  -- A round of a step that may run settles it.
  pub attempt-Settles :
      (wf : Workflow) (st : WorkflowStep) (def : Option (StepDefinition World)) (sys : Sys World Db)
      → can_transition_step st.state StepState.running ≡ true
      → Settles st (attempt env wf st def sys)
  attempt-Settles wf st def sys h =
      rw (attempt-if wf st def sys) (rw h (run_attempt-Settles wf st def sys))
