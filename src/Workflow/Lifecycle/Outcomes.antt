-- ===== src/Workflow/Lifecycle/Outcomes.antt =====
-- How `executeWorkflow` ends.
use farm_exc.Prelude.{ℕ, ◌≡◌, refl, ◌∙◌, ◌⊎◌, inl, inr, false, true, List, [], ◌∷◌, some, arith}
use farm_exc.Workflow.State.{WorkflowState, can_transition_workflow, transition_workflow}
use farm_exc.Workflow.Entities.{Workflow, WorkflowStep, Message, cannot_start}
use farm_exc.Workflow.Environment.{
  Env, IsStore, Sys, Outcome, ok, throws, workflow_state, workflow_failure,
}
use farm_exc.Workflow.Lifecycle.{
  WorkflowDefinition, Registry, get_workflow_definition, run_steps, execute_steps, conclude,
  run_workflow, execute_workflow,
}
use farm_exc.Workflow.Lifecycle.Blame.{Blames, Blamed, run_steps-Blamed}
use farm_exc.Workflow.Lifecycle.Steps.{
  turn, at_step, run_steps-ok, run_steps-throws, AreDistinct, AreRunnable, Progress,
  run_steps-Progress, Progress-start, Progress-end, All-of,
}

-- The states from which a workflow may be started.
abbrev pub IsStartable : WorkflowState → Type 0
IsStartable s = (s ≡ WorkflowState.pending) ⊎ (s ≡ WorkflowState.failed)

-- The workflow as `executeSteps` takes it over.
abbrev pub started_workflow : Workflow → ℕ → Workflow
started_workflow wf now = record wf { state = WorkflowState.running; started_at = some now }

pub IsStartable-can :
    (s : WorkflowState) → IsStartable s → can_transition_workflow s WorkflowState.running ≡ true
unfolding can_transition_workflow
IsStartable-can s h = ground arith

IsStartable-cannot :
    (s : WorkflowState) → ¬ IsStartable s → can_transition_workflow s WorkflowState.running ≡ false
unfolding can_transition_workflow
IsStartable-cannot WorkflowState.pending h = absurd (h (inl refl))
IsStartable-cannot WorkflowState.failed h = absurd (h (inr refl))
IsStartable-cannot _ h = refl

module _ {World Db : Type 0} (env : Env World Db) (store : IsStore env) where
  -- The row of the workflow says how the run ended, with the error if there was one, which is that of
  -- one of the steps.
  abbrev pub Concludes :
      ℕ → List WorkflowStep → Outcome (Unit {0}) × Workflow × Sys World Db → Type 0
  Concludes i sts (ok _, wf, sys) =
      workflow_state (env.find_workflow sys.db i) ≡ some WorkflowState.completed
  Concludes i sts (throws e, wf, sys) =
      (workflow_state (env.find_workflow sys.db i) ≡ some WorkflowState.failed)
      × (workflow_failure (env.find_workflow sys.db i) ≡ some e)
      × Blames sts e

  pub save-state :
      (d : Db) (wf : Workflow)
      → workflow_state (env.find_workflow (env.save_workflow d wf) wf.id) ≡ some wf.state
  save-state d wf = ground (arith, store.workflow_saved d wf wf.id)

  save-failure :
      (d : Db) (wf : Workflow) (e : Message)
      → wf.failure_reason ≡ some e
      → workflow_failure (env.find_workflow (env.save_workflow d wf) wf.id) ≡ some e
  save-failure d wf e h = ground (arith, store.workflow_saved d wf wf.id)

  pub conclude-fst : (r : Outcome (Unit {0}) × Workflow × Sys World Db) → (conclude env r).0 ≡ r.0
  unfolding conclude
  conclude-fst (ok tt, wf, sys) = refl
  conclude-fst (throws e, wf, sys) = refl

  pub conclude_kept :
      (r : Outcome (Unit {0}) × Workflow × Sys World Db) (j : ℕ)
      → env.find_step (conclude env r).2.db j ≡ env.find_step r.2.db j
  unfolding conclude
  conclude_kept (ok u, wf, sys) j = store.step_kept sys.db _ j
  conclude_kept (throws e, wf, sys) j = store.step_kept sys.db _ j

  conclude-Concludes :
      (i : ℕ) (sts : List WorkflowStep) (r : Outcome (Unit {0}) × Workflow × Sys World Db)
      → r.1.id ≡ i
      → Blamed sts r.0
      → Concludes i sts (conclude env r)
  unfolding conclude
  conclude-Concludes i sts (ok u, wf, sys) h b = rw (← h) (save-state _ _)
  conclude-Concludes i sts (throws e, wf, sys) h b =
      rw (← h) (save-state _ _, save-failure _ _ e refl, b)

  conclude-Progress :
      (d : Db) (sts : List WorkflowStep) (r : Outcome (Unit {0}) × Workflow × Sys World Db)
      → Progress env store d r.2.db sts r.0
      → Progress env store d (conclude env r).2.db sts (conclude env r).0
  conclude-Progress d sts r h =
      rw (conclude-fst r) (Progress-end env store d r.2.db _ sts _ (conclude_kept r) h)

  module _ (def : WorkflowDefinition World) where
    module _ {A : Type 0} (f : Workflow → A)
        (same : (wf : Workflow) (k : ℕ) → f (record wf { current_step_index = k }) ≡ f wf) where
      run_steps-field-turn :
          (wf : Workflow) (st : WorkflowStep) (sts : List WorkflowStep) (sys : Sys World Db)
          → (r : Outcome (Unit {0}) × Sys World Db) → turn env store def wf st sys ≡ r
          → ((wf' : Workflow) (sys' : Sys World Db) → f (run_steps env wf' def sts sys').1 ≡ f wf')
          → f (run_steps env wf def (st ∷ sts) sys).1 ≡ f wf
      run_steps-field-turn wf st sts sys (ok tt, sys') p ih =
          rw (run_steps-ok env store def wf st sts sys sys' p)
            (ih (at_step env store def wf st) sys' ∙ same wf st.step_index)
      run_steps-field-turn wf st sts sys (throws e, sys') p ih =
          rw (run_steps-throws env store def wf st sts sys sys' e p) (same wf st.step_index)

      -- The loop changes no field of the workflow but `currentStepIndex`.
      pub run_steps-field :
          (wf : Workflow) (sts : List WorkflowStep) (sys : Sys World Db)
          → f (run_steps env wf def sts sys).1 ≡ f wf
      unfolding run_steps
      run_steps-field wf [] sys = refl
      run_steps-field wf (st ∷ sts) sys =
          run_steps-field-turn wf st sts sys _ refl (λ wf' sys'. run_steps-field wf' sts sys')

    pub run_workflow-eq :
        (wf : Workflow) (sys : Sys World Db)
        → let wf' = started_workflow wf (env.clock sys.world).0 in
          run_workflow env wf def sys
          ≡ conclude env (
              run_steps env wf' def
                (env.find_steps sys.db wf.id)
                (record { world = (env.clock sys.world).1; db = env.save_workflow sys.db wf' }))
    unfolding run_workflow execute_steps
    run_workflow-eq wf sys =
        rw (store.listed_kept sys.db (started_workflow wf (env.clock sys.world).0) wf.id)

    run_workflow-Concludes :
        (wf : Workflow) (sys : Sys World Db)
        → Concludes wf.id (env.find_steps sys.db wf.id) (run_workflow env wf def sys)
    run_workflow-Concludes wf sys = rw (run_workflow-eq wf sys) (
        conclude-Concludes wf.id _ _ (run_steps-field (λ w. w.id) (λ w k. refl) _ _ _)
          (run_steps-Blamed env store def _ _ _))

    run_workflow-Progress :
        (wf : Workflow) (sys : Sys World Db)
        → AreRunnable (env.find_steps sys.db wf.id)
        → AreDistinct (env.find_steps sys.db wf.id)
        → Progress env store sys.db
            (run_workflow env wf def sys).2.db
            (env.find_steps sys.db wf.id)
            (run_workflow env wf def sys).0
    run_workflow-Progress wf sys r d =
        let wf' : Workflow = started_workflow wf (env.clock sys.world).0 in
        let d' = env.save_workflow sys.db wf' in
        let sys' : Sys World Db = record { world = (env.clock sys.world).1; db = d' } in
        let sts = env.find_steps sys.db wf.id in
        rw (run_workflow-eq wf sys) (
          conclude-Progress sys.db sts (run_steps env wf' def sts sys') (
            Progress-start env store sys.db d' _ sts _
              (All-of _ (λ s. store.step_kept sys.db wf' s.id) sts)
              (run_steps-Progress env store def wf' sts sys' r d)))

  module _ (registry : Registry World) where
    pub execute_workflow-run_workflow :
        (def : WorkflowDefinition World) (wf : Workflow) (sys : Sys World Db)
        → get_workflow_definition registry wf.type ≡ some def
        → can_transition_workflow wf.state WorkflowState.running ≡ true
        → execute_workflow env registry wf sys ≡ run_workflow env wf def sys
    unfolding execute_workflow transition_workflow
    execute_workflow-run_workflow def wf sys known can = ground arith

    -- A pending or failed workflow of a registered type is executed to an end, whatever its steps do
    -- and in whatever states they are. If the call returns, the workflow's row is completed. If it
    -- throws, the row is failed and holds the error, and this is the error of one of its steps: of a
    -- pending or failed step, which names it and counts all its retries, or of the refusal of a step
    -- in another state. So the bound on the rounds of a step is never met.
    pub execute_workflow-Concludes :
        (def : WorkflowDefinition World) (wf : Workflow) (sys : Sys World Db)
        → get_workflow_definition registry wf.type ≡ some def
        → IsStartable wf.state
        → Concludes wf.id (env.find_steps sys.db wf.id) (execute_workflow env registry wf sys)
    execute_workflow-Concludes def wf sys known h =
        rw (execute_workflow-run_workflow def wf sys known (IsStartable-can _ h))
          (run_workflow-Concludes def wf sys)

    -- When a pending or failed workflow of a registered type is executed, and its steps have distinct
    -- ids and each is pending or failed: if the call returns, the rows of all its steps are completed.
    -- If it throws, the rows of the steps before some step are completed, the row of that step is
    -- failed, and the rows of the later steps are as they were.
    pub execute_workflow-Progress :
        (def : WorkflowDefinition World) (wf : Workflow) (sys : Sys World Db)
        → get_workflow_definition registry wf.type ≡ some def
        → IsStartable wf.state
        → AreRunnable (env.find_steps sys.db wf.id)
        → AreDistinct (env.find_steps sys.db wf.id)
        → Progress env store sys.db
            (execute_workflow env registry wf sys).2.db
            (env.find_steps sys.db wf.id)
            (execute_workflow env registry wf sys).0
    execute_workflow-Progress def wf sys known h r d =
        rw (execute_workflow-run_workflow def wf sys known (IsStartable-can _ h))
          (run_workflow-Progress def wf sys r d)

    -- The execution of a workflow of a registered type that is neither pending nor failed throws and
    -- writes nothing.
    pub execute_workflow_refused :
        (def : WorkflowDefinition World) (wf : Workflow) (sys : Sys World Db)
        → get_workflow_definition registry wf.type ≡ some def
        → ¬ IsStartable wf.state
        → execute_workflow env registry wf sys
          ≡ (throws (cannot_start (wf.state, WorkflowState.running)), wf, sys)
    unfolding execute_workflow transition_workflow
    execute_workflow_refused def wf sys known h = ground (arith, IsStartable-cannot wf.state h)
