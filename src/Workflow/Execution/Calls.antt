-- ===== src/Workflow/Execution/Calls.antt =====
-- How often `executeStep` runs the step's own code.
use Prim.Native.Nat.{max}
use farm_exc.Prelude.{
  ℕ, zero, suc, ◌+◌, ◌-◌, ◌≤◌, ◌<◌, ◌≡◌, refl, ap, ◌∙◌, inr, inl, Option, some, arith, Bool-cases,
}
use farm_exc.Workflow.Json.{Json}
use farm_exc.Workflow.State.{StepState, should_retry, can_transition_step}
use farm_exc.Workflow.Entities.{Workflow, WorkflowStep, Message}
use farm_exc.Workflow.Environment.{Env, IsStore, Sys, Outcome, ok, throws}
use farm_exc.Workflow.Idempotency.{Argument}
use farm_exc.Workflow.Execution.{
  StepDefinition, WorkflowContext, Attempt, refused, succeeded, again, exhausted, start_attempt,
  add_key, complete_step, fail_step, settle_failure, settle, run_attempt, attempt,
  execute_with_idempotency, schedule_retry, prepare_step_input, step_context, execute_rounds,
  execute_step,
}
use farm_exc.Workflow.Execution.Attempts.{
  IsRunnable, IsRunnable-can, Settles, attempt-Settles, attempt-if,
}

-- `calls` counts the runs of the step's code, and nothing else that a round does.
pub record IsCounter {World Db : Type 0} (env : Env World Db) (def : StepDefinition World)
    (calls : World → ℕ) : Type 0 where
  pub clock_same : (w : World) → calls (env.clock w).1 ≡ calls w
  pub random_same : (w : World) → calls (env.random w).1 ≡ calls w
  pub delay_same : (ms : ℕ) (w : World) → calls (env.delay ms w) ≡ calls w
  pub execute_counts :
      (input : Argument) (context : WorkflowContext) (w : World)
      → calls (def.execute input context w).1 ≡ calls w + 1

module _ {World Db : Type 0} (env : Env World Db) (store : IsStore env) (def : StepDefinition World)
    (calls : World → ℕ) (counter : IsCounter env def calls) where
  -- The count after a round.
  abbrev Counted : ℕ → Attempt World Db → Type 0
  Counted n (refused e) = Unit
  Counted n (succeeded sys) = calls sys.world ≡ n
  Counted n (again st sys) = calls sys.world ≡ n
  Counted n (exhausted e sys) = calls sys.world ≡ n

  Counted-cast : (m n : ℕ) (a : Attempt World Db) → m ≡ n → Counted m a → Counted n a
  Counted-cast m n a e h = rw (← e) h

  settle_failure-Counted :
      (st : WorkflowStep) (e : Message) (sys : Sys World Db)
      → Counted (calls sys.world) (settle_failure env st e sys)
  unfolding settle_failure fail_step schedule_retry
  settle_failure-Counted st e sys =
      let w1 = (env.clock sys.world).1 in
      let w2 = (env.random w1).1 in
      let w3 = (env.clock w2).1 in
      elim (Bool-cases (should_retry (inr StepState.failed) (st.retry_count + 1) st.max_retries)) [
        | inl more ↦ rw more (
            counter.delay_same _ _
            ∙ counter.clock_same w3
            ∙ counter.clock_same w2
            ∙ counter.random_same w1
            ∙ counter.clock_same sys.world)
        | inr last ↦ rw last (counter.clock_same sys.world)
      ]

  settle-Counted :
      (st : WorkflowStep) (sys : Sys World Db) (r : Outcome (Option Json) × World)
      → Counted (calls r.1) (settle env st sys r)
  unfolding settle complete_step
  settle-Counted st sys (ok o, w) = counter.clock_same w
  settle-Counted st sys (throws e, w) = settle_failure-Counted st e (record sys { world = w })

  add_key-world :
      (wf : Workflow) (st : WorkflowStep) (input : Argument) (sys : Sys World Db)
      → (add_key env wf st input sys).1.world ≡ sys.world
  unfolding add_key
  add_key-world wf st input sys = ground arith

  module _ (wf : Workflow) where
    run_attempt-Counted :
        (st : WorkflowStep) (sys : Sys World Db)
        → Counted (calls sys.world + 1) (run_attempt env wf st (some def) sys)
    unfolding run_attempt start_attempt execute_with_idempotency
    run_attempt-Counted st sys =
        let (st1, sys1) = start_attempt env st sys in
        let context = step_context env wf st1 in
        let input = prepare_step_input env sys1.db wf st1 in
        let (st2, sys2) = add_key env wf st1 input sys1 in
        let eq =
          counter.execute_counts input context sys2.world
          ∙ ap (λ w. calls w + 1) (add_key-world wf st1 input sys1)
          ∙ ap (λ n. n + 1) (counter.clock_same sys.world) in
        Counted-cast _ _ (settle env st2 sys2 (def.execute input context sys2.world)) eq
          (settle-Counted st2 sys2 (def.execute input context sys2.world))

    attempt-Counted :
        (st : WorkflowStep) (sys : Sys World Db)
        → Counted (calls sys.world + 1) (attempt env wf st (some def) sys)
    attempt-Counted st sys =
        rw (attempt-if env store wf st (some def) sys)
          (elim (Bool-cases (can_transition_step st.state StepState.running)) [
            | inl can ↦ rw can (run_attempt-Counted st sys)
            | inr cannot ↦ rw cannot tt
          ])

    -- The count at the end of all rounds.
    abbrev pub Calls : ℕ → WorkflowStep → Outcome (Unit {0}) × Sys World Db → Type 0
    Calls n st (ok _, sys) =
        (n < calls sys.world) × (calls sys.world ≤ n + max 1 (st.max_retries - st.retry_count))
    Calls n st (throws e, sys) = calls sys.world ≡ n + max 1 (st.max_retries - st.retry_count)

    Calls-again :
        (n m : ℕ) (st st' : WorkflowStep) (sys : Sys World Db)
        (r : Outcome (Unit {0}) × Sys World Db)
        → Settles env store st (again st' sys)
        → m ≡ n + 1
        → Calls m st' r
        → Calls n st r
    Calls-again n m st st' sys (ok _, sys') s e h = (omega arith, omega arith)
    Calls-again n m st st' sys (throws _, sys') s e h = omega arith

    execute_rounds-Calls-step :
        (fuel : ℕ) (st : WorkflowStep) (sys : Sys World Db) (a : Attempt World Db)
        → attempt env wf st (some def) sys ≡ a
        → Settles env store st a
        → Counted (calls sys.world + 1) a
        → ((st' : WorkflowStep) (sys' : Sys World Db)
            → Settles env store st (again st' sys')
            → Calls (calls sys'.world) st' (execute_rounds env fuel wf st' (some def) sys'))
        → Calls (calls sys.world) st (execute_rounds env (suc fuel) wf st (some def) sys)
    unfolding execute_rounds
    execute_rounds-Calls-step fuel st sys (refused e) p s c ih = absurd s
    execute_rounds-Calls-step fuel st sys (succeeded sys') p s c ih =
        rw (p, execute_rounds) (omega arith, omega arith)
    execute_rounds-Calls-step fuel st sys (again st' sys') p s c ih =
        rw (p, execute_rounds) (Calls-again (calls sys.world) _ st st' sys' _ s c (ih st' sys' s))
    execute_rounds-Calls-step fuel st sys (exhausted e sys') p s c ih =
        rw (p, execute_rounds) (omega arith)

    execute_rounds-Calls :
        (fuel : ℕ) (st : WorkflowStep) (sys : Sys World Db)
        → IsRunnable st.state
        → st.max_retries - st.retry_count < fuel
        → Calls (calls sys.world) st (execute_rounds env fuel wf st (some def) sys)
    execute_rounds-Calls zero st sys h m = elim m [ ]
    execute_rounds-Calls (suc fuel) st sys h m =
        execute_rounds-Calls-step fuel st sys _ refl
          (attempt-Settles env store wf st (some def) sys (IsRunnable-can _ h))
          (attempt-Counted st sys)
          λ st' sys' s. execute_rounds-Calls fuel st' sys' (inr s.1) (omega arith)

    -- A step that may run, with a definition, runs its own code once for each retry that it has left,
    -- and at least once: exactly so often if the call throws, and at most so often if it returns.
    pub execute_step-Calls :
        (st : WorkflowStep) (sys : Sys World Db)
        → IsRunnable st.state
        → Calls (calls sys.world) st (execute_step env wf st (some def) sys)
    unfolding execute_step
    execute_step-Calls st sys h = execute_rounds-Calls _ st sys h (omega arith)
