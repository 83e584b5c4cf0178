-- ===== src/Workflow/Execution/Rounds.antt =====
-- All rounds of `executeStep`, and how the step's row then stands.
use Prim.Native.Nat.{max}
use farm_exc.Prelude.{
  ℕ, zero, suc, String, ◌+◌, ◌-◌, ◌<◌, ◌≡◌, inr, Option, some, arith, refl, false,
}
use farm_exc.Workflow.State.{StepState, can_transition_step}
use farm_exc.Workflow.Entities.{Workflow, WorkflowStep, Message, cannot_execute}
use farm_exc.Workflow.Environment.{Env, IsStore, Sys, Outcome, ok, throws, step_state, step_retries}
use farm_exc.Workflow.Execution.{
  StepDefinition, Attempt, refused, succeeded, again, exhausted, attempt, execute_rounds,
  execute_step,
}
use farm_exc.Workflow.Execution.Attempts.{
  IsRunnable, IsStepFailure, Settles, attempt-Settles, attempt_refused, IsRunnable-can,
}

module _ {World Db : Type 0} (env : Env World Db) (store : IsStore env) where
  -- How a step that could run ends: completed; or failed, with its retries used up, and with the
  -- error that says so.
  abbrev pub Ends : WorkflowStep → Outcome (Unit {0}) × Sys World Db → Type 0
  Ends st (ok _, sys) = step_state (env.find_step sys.db st.id) ≡ some StepState.completed
  Ends st (throws e, sys) =
      (step_state (env.find_step sys.db st.id) ≡ some StepState.failed)
      × (step_retries (env.find_step sys.db st.id) ≡ some (max (st.retry_count + 1) st.max_retries))
      × IsStepFailure st.step_name (max (st.retry_count + 1) st.max_retries) e

  IsStepFailure-cast :
      (s t : String) (m n : ℕ) (e : Message)
      → s ≡ t
      → m ≡ n
      → IsStepFailure s m e
      → IsStepFailure t n e
  IsStepFailure-cast s t m n e p q h = rw (← p, ← q) h

  Ends-again :
      (st st' : WorkflowStep) (r : Outcome (Unit {0}) × Sys World Db) (sys : Sys World Db)
      → Settles env store st (again st' sys)
      → Ends st' r
      → Ends st r
  Ends-again st st' (ok _, sys') sys s h = rw (← s.0) h
  Ends-again st st' (throws e, sys') sys s h =
      let same : max (st'.retry_count + 1) st'.max_retries
          ≡ max (st.retry_count + 1) st.max_retries =
        omega arith in
      (rw (← s.0) h.0, rw (← s.0, ← same) h.1, IsStepFailure-cast _ _ _ _ e s.4 same h.2)

  Ends-exhausted :
      (st : WorkflowStep) (e : Message) (sys : Sys World Db)
      → Settles env store st (exhausted e sys)
      → Ends st (throws e, sys)
  Ends-exhausted st e sys s =
      let same : st.retry_count + 1 ≡ max (st.retry_count + 1) st.max_retries = omega arith in
      (s.0, rw (← same) s.1, IsStepFailure-cast _ _ _ _ e refl same s.3)

  module _ (wf : Workflow) (def : Option (StepDefinition World)) where
    execute_rounds-step :
        (fuel : ℕ) (st : WorkflowStep) (sys : Sys World Db) (a : Attempt World Db)
        → attempt env wf st def sys ≡ a
        → Settles env store st a
        → ((st' : WorkflowStep) (sys' : Sys World Db)
            → Settles env store st (again st' sys')
            → Ends st' (execute_rounds env fuel wf st' def sys'))
        → Ends st (execute_rounds env (suc fuel) wf st def sys)
    unfolding execute_rounds
    execute_rounds-step fuel st sys (refused e) p s ih = absurd s
    execute_rounds-step fuel st sys (succeeded sys') p s ih = rw (p, execute_rounds, Ends) s.0
    execute_rounds-step fuel st sys (again st' sys') p s ih =
        rw (p, execute_rounds) (Ends-again st st' _ sys' s (ih st' sys' s))
    execute_rounds-step fuel st sys (exhausted e sys') p s ih =
        rw (p, execute_rounds) (Ends-exhausted st e sys' s)

    -- With the retries that are left below the bound, the rounds end by themselves.
    pub execute_rounds-Ends :
        (fuel : ℕ) (st : WorkflowStep) (sys : Sys World Db)
        → IsRunnable st.state
        → st.max_retries - st.retry_count < fuel
        → Ends st (execute_rounds env fuel wf st def sys)
    execute_rounds-Ends zero st sys h m = elim m [ ]
    execute_rounds-Ends (suc fuel) st sys h m =
        execute_rounds-step fuel st sys _ refl
          (attempt-Settles env store wf st def sys (IsRunnable-can _ h))
          λ st' sys' s. execute_rounds-Ends fuel st' sys' (inr s.1) (omega arith)

    -- A step that is pending or failed is executed to an end: afterwards its row is completed, or
    -- it is failed, has used up its retries, and the error names it and counts them.
    pub execute_step-Ends :
        (st : WorkflowStep) (sys : Sys World Db)
        → IsRunnable st.state
        → Ends st (execute_step env wf st def sys)
    unfolding execute_step
    execute_step-Ends st sys h = execute_rounds-Ends _ st sys h (omega arith)

    -- A step in any other state is refused, and nothing is written.
    pub execute_step_refused :
        (st : WorkflowStep) (sys : Sys World Db)
        → can_transition_step st.state StepState.running ≡ false
        → execute_step env wf st def sys
          ≡ (throws (cannot_execute (st.state, StepState.running)), sys)
    unfolding execute_step execute_rounds
    execute_step_refused st sys h = rw (attempt_refused env store wf st def sys h, execute_rounds)
