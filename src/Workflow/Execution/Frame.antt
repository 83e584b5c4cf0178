-- ===== src/Workflow/Execution/Frame.antt =====
-- What `executeStep` leaves alone: every other row of the two tables.
use farm_exc.Prelude.{ℕ, zero, suc, ◌≡◌, refl, ◌∙◌, false, ◌==◌, Option, Bool-cases, inl, inr, ◌+◌}
use farm_exc.Workflow.Json.{Json}
use farm_exc.Workflow.State.{StepState, should_retry, can_transition_step}
use farm_exc.Workflow.Entities.{Workflow, WorkflowStep, Message}
use farm_exc.Workflow.Environment.{Env, IsStore, Sys, Outcome, ok, throws}
use farm_exc.Workflow.Idempotency.{Argument}
use farm_exc.Workflow.Execution.{
  StepDefinition, Attempt, refused, succeeded, again, exhausted, start_attempt, add_key,
  complete_step, settle_failure, settle, step_context, prepare_step_input, execute_with_idempotency,
  run_attempt, attempt, execute_rounds, execute_step,
}
use farm_exc.Workflow.Execution.Attempts.{attempt-if}

module _ {World Db : Type 0} (env : Env World Db) where
  -- `d'` differs from `d` in the row of step `i` at most.
  pub record OnlyStep (i : ℕ) (d d' : Db) : Type 0 where
    pub workflows : (j : ℕ) → env.find_workflow d' j ≡ env.find_workflow d j
    pub steps : (j : ℕ) → (i == j) ≡ false → env.find_step d' j ≡ env.find_step d j

  pub OnlyStep-refl : (i : ℕ) (d : Db) → OnlyStep i d d
  OnlyStep-refl i d = record { workflows = λ j. refl; steps = λ j n. refl }

  pub OnlyStep-trans :
      {i : ℕ} {d d' d'' : Db} → OnlyStep i d d' → OnlyStep i d' d'' → OnlyStep i d d''
  OnlyStep-trans p q = record {
    workflows = λ j. q.workflows j ∙ p.workflows j;
    steps = λ j n. q.steps j n ∙ p.steps j n;
  }

  module _ (store : IsStore env) where
    pub OnlyStep-save_step :
        (i : ℕ) (d : Db) (st : WorkflowStep) → st.id ≡ i → OnlyStep i d (env.save_step d st)
    OnlyStep-save_step i d st e = record {
      workflows = λ j. store.workflow_kept d st j;
      steps = λ j n. store.step_saved d st j ∙ rw (e, n);
    }

    -- What a round writes.
    abbrev Writes : ℕ → Db → Attempt World Db → Type 0
    Writes i d (refused e) = Unit
    Writes i d (succeeded sys) = OnlyStep i d sys.db
    Writes i d (again st sys) = (st.id ≡ i) × OnlyStep i d sys.db
    Writes i d (exhausted e sys) = OnlyStep i d sys.db

    Writes-trans :
        (i : ℕ) (d d' : Db) (a : Attempt World Db) → OnlyStep i d d' → Writes i d' a → Writes i d a
    Writes-trans i d d' (refused e) p h = tt
    Writes-trans i d d' (succeeded sys) p h = OnlyStep-trans p h
    Writes-trans i d d' (again st sys) p h = (h.0, OnlyStep-trans p h.1)
    Writes-trans i d d' (exhausted e sys) p h = OnlyStep-trans p h

    settle_failure-Writes :
        (st : WorkflowStep) (e : Message) (sys : Sys World Db)
        → Writes st.id sys.db (settle_failure env st e sys)
    unfolding settle_failure
    settle_failure-Writes st e sys =
        let test = should_retry (inr StepState.failed) (st.retry_count + 1) st.max_retries in
        elim (Bool-cases test) [
          | inl more ↦ rw more (refl, OnlyStep-save_step _ _ _ refl)
          | inr last ↦ rw last (OnlyStep-save_step _ _ _ refl)
        ]

    settle-Writes :
        (i : ℕ) (st : WorkflowStep) (sys : Sys World Db) (r : Outcome (Option Json) × World)
        → st.id ≡ i
        → Writes i sys.db (settle env st sys r)
    unfolding settle complete_step
    settle-Writes i st sys (ok o, w) e = OnlyStep-save_step _ _ _ e
    settle-Writes i st sys (throws m, w) e =
        rw (← e) (settle_failure-Writes st m (record sys { world = w }))

    add_key-Writes :
        (wf : Workflow) (st : WorkflowStep) (input : Argument) (sys : Sys World Db)
        → ((add_key env wf st input sys).0.id ≡ st.id)
          × OnlyStep st.id sys.db (add_key env wf st input sys).1.db
    unfolding add_key
    add_key-Writes wf st input sys = elim (Bool-cases st.is_idempotent) [
      | inl key ↦ rw key (refl, OnlyStep-save_step _ _ _ refl)
      | inr plain ↦ rw plain (refl, OnlyStep-refl _ _)
    ]

    module _ (wf : Workflow) (def : Option (StepDefinition World)) where
      run_attempt-Writes :
          (st : WorkflowStep) (sys : Sys World Db)
          → Writes st.id sys.db (run_attempt env wf st def sys)
      unfolding run_attempt start_attempt
      run_attempt-Writes st sys =
          let (st1, sys1) = start_attempt env st sys in
          let input = prepare_step_input env sys1.db wf st1 in
          let (st2, sys2) = add_key env wf st1 input sys1 in
          let keyed = add_key-Writes wf st1 input sys1 in
          Writes-trans _ _ _ _ (OnlyStep-trans (OnlyStep-save_step st.id sys.db st1 refl) keyed.1) (
            settle-Writes st.id st2 sys2
              (execute_with_idempotency env def input (step_context env wf st1) st2.idempotency_key
                sys2.world)
              keyed.0)

      attempt-Writes :
          (st : WorkflowStep) (sys : Sys World Db) → Writes st.id sys.db (attempt env wf st def sys)
      attempt-Writes st sys =
          rw (attempt-if env store wf st def sys)
            (elim (Bool-cases (can_transition_step st.state StepState.running)) [
              | inl can ↦ rw can (run_attempt-Writes st sys)
              | inr cannot ↦ rw cannot tt
            ])

      execute_rounds-Writes :
          (fuel : ℕ) (st : WorkflowStep) (sys : Sys World Db) (a : Attempt World Db)
          → attempt env wf st def sys ≡ a
          → Writes st.id sys.db a
          → ((st' : WorkflowStep) (sys' : Sys World Db)
              → OnlyStep st'.id sys'.db (execute_rounds env fuel wf st' def sys').1.db)
          → OnlyStep st.id sys.db (execute_rounds env (suc fuel) wf st def sys).1.db
      unfolding execute_rounds
      execute_rounds-Writes fuel st sys (refused e) p s ih =
          rw (p, execute_rounds) (OnlyStep-refl _ _)
      execute_rounds-Writes fuel st sys (succeeded sys') p s ih = rw (p, execute_rounds) s
      execute_rounds-Writes fuel st sys (again st' sys') p s ih =
          rw (p, execute_rounds) (OnlyStep-trans s.1 (rw (← s.0) (ih st' sys')))
      execute_rounds-Writes fuel st sys (exhausted e sys') p s ih = rw (p, execute_rounds) s

      execute_rounds-OnlyStep :
          (fuel : ℕ) (st : WorkflowStep) (sys : Sys World Db)
          → OnlyStep st.id sys.db (execute_rounds env fuel wf st def sys).1.db
      unfolding execute_rounds
      execute_rounds-OnlyStep zero st sys = OnlyStep-refl _ _
      execute_rounds-OnlyStep (suc fuel) st sys =
          execute_rounds-Writes fuel st sys _ refl (attempt-Writes st sys)
            (λ st' sys'. execute_rounds-OnlyStep fuel st' sys')

      -- Executing a step, retries and failures included, writes no row but the step's own.
      pub execute_step-OnlyStep :
          (st : WorkflowStep) (sys : Sys World Db)
          → OnlyStep st.id sys.db (execute_step env wf st def sys).1.db
      unfolding execute_step
      execute_step-OnlyStep st sys = execute_rounds-OnlyStep _ st sys
