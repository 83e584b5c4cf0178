-- ===== src/Workflow/Lifecycle/Blame.antt =====
-- The errors with which the loop of `executeSteps` stops.
use Prim.Native.Nat.{max}
use mathlib.Core.Path.{subst}
use farm_exc.Prelude.{◌+◌, ◌≡◌, refl, ◌⊎◌, inl, inr, false, sym, ◌∙◌, List, [], ◌∷◌, get_elem?}
use farm_exc.Workflow.State.{StepState, can_transition_step}
use farm_exc.Workflow.Entities.{Workflow, WorkflowStep, Message, cannot_execute}
use farm_exc.Workflow.Environment.{Env, IsStore, Sys, Outcome, ok, throws}
use farm_exc.Workflow.Execution.Attempts.{IsRunnable, IsStepFailure}
use farm_exc.Workflow.Execution.Rounds.{Ends, execute_step-Ends, execute_step_refused}
use farm_exc.Workflow.Lifecycle.{WorkflowDefinition, run_steps}
use farm_exc.Workflow.Lifecycle.Steps.{turn, at_step, run_steps-ok, run_steps-throws}

-- The error is that of the step: of its last failure, which names it and counts its retries, or of
-- its refusal, where it is neither pending nor failed.
abbrev pub BlamesStep : WorkflowStep → Message → Type 0
BlamesStep st e =
    (IsRunnable st.state × IsStepFailure st.step_name (max (st.retry_count + 1) st.max_retries) e)
    ⊎ ((¬ IsRunnable st.state) × (e ≡ cannot_execute (st.state, StepState.running)))

-- Of one of the steps.
abbrev pub Blames : List WorkflowStep → Message → Type 0
Blames [] e = ⊥
Blames (st ∷ sts) e = BlamesStep st e ⊎ Blames sts e

abbrev pub Blamed : List WorkflowStep → Outcome (Unit {0}) → Type 0
Blamed sts (ok u) = Unit
Blamed sts (throws e) = Blames sts e

Blamed-cons :
    (st : WorkflowStep) (sts : List WorkflowStep) (out : Outcome (Unit {0}))
    → Blamed sts out
    → Blamed (st ∷ sts) out
Blamed-cons st sts (ok u) h = tt
Blamed-cons st sts (throws e) h = inr h

IsRunnable-cases :
    (s : StepState)
    → IsRunnable s ⊎ ((¬ IsRunnable s) × (can_transition_step s StepState.running ≡ false))
unfolding can_transition_step
IsRunnable-cases StepState.pending = inl (inl refl)
IsRunnable-cases StepState.failed = inl (inr refl)
IsRunnable-cases s = inr (λ h. elim h [ inl e ↦ cc | inr e ↦ cc ], refl)

module _ {World Db : Type 0} (env : Env World Db) (store : IsStore env)
    (def : WorkflowDefinition World) where
  turn-BlamesStep :
      (wf : Workflow) (st : WorkflowStep) (sys sys' : Sys World Db) (e : Message)
      → turn env store def wf st sys ≡ (throws e, sys')
      → BlamesStep st e
  turn-BlamesStep wf st sys sys' e p = elim (IsRunnable-cases st.state) [
    | inl can ↦ inl (
      can,
      (subst (Ends env store st) p (
          execute_step-Ends env store (at_step env store def wf st)
            (get_elem? def.steps st.step_index) st
            (record sys { db = env.save_workflow sys.db (at_step env store def wf st) }) can)).2,
    )
    | inr (cannot, c) ↦ inr (
      cannot,
      same_error (
          sym p
          ∙ execute_step_refused env store (at_step env store def wf st)
              (get_elem? def.steps st.step_index) st
              (record sys { db = env.save_workflow sys.db (at_step env store def wf st) }) c),
    )
  ]
    where
      same_error :
          {e e' : Message} {s s' : Sys World Db}
          → ◌≡◌ {A = Outcome (Unit {0}) × Sys World Db} (throws e, s) (throws e', s')
          → e ≡ e'
      same_error h = cc

  run_steps-Blamed-turn :
      (wf : Workflow) (st : WorkflowStep) (sts : List WorkflowStep) (sys : Sys World Db)
      → (r : Outcome (Unit {0}) × Sys World Db) → turn env store def wf st sys ≡ r
      → ((wf' : Workflow) (sys' : Sys World Db) → Blamed sts (run_steps env wf' def sts sys').0)
      → Blamed (st ∷ sts) (run_steps env wf def (st ∷ sts) sys).0
  run_steps-Blamed-turn wf st sts sys (ok tt, sys') p ih =
      rw (run_steps-ok env store def wf st sts sys sys' p)
        (Blamed-cons st sts _ (ih (at_step env store def wf st) sys'))
  run_steps-Blamed-turn wf st sts sys (throws e, sys') p ih =
      rw (run_steps-throws env store def wf st sts sys sys' e p)
        (inl (turn-BlamesStep wf st sys sys' e p))

  -- The loop ends by itself: it runs through all steps, or stops with the error of one of them.
  pub run_steps-Blamed :
      (wf : Workflow) (sts : List WorkflowStep) (sys : Sys World Db)
      → Blamed sts (run_steps env wf def sts sys).0
  unfolding run_steps
  run_steps-Blamed wf [] sys = tt
  run_steps-Blamed wf (st ∷ sts) sys =
      run_steps-Blamed-turn wf st sts sys _ refl (λ wf' sys'. run_steps-Blamed wf' sts sys')
