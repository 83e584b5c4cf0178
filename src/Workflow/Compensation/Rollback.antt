-- ===== src/Workflow/Compensation/Rollback.antt =====
-- What a compensation leaves in the tables.
use farm_exc.Prelude.{
  ℕ, ◌≡◌, refl, ◌∙◌, ◌⊎◌, inl, inr, true, false, ◌==◌, ==_iff, List, [], ◌∷◌, All, filter, some,
  arith, Bool-cases,
}
use farm_exc.Workflow.State.{
  WorkflowState, StepState, transition_step, transition_workflow, can_transition_step,
  can_transition_workflow, can_workflow_compensate,
}
use farm_exc.Workflow.Entities.{Workflow, WorkflowStep, cannot_be_compensated}
use farm_exc.Workflow.Environment.{
  Env, IsStore, Sys, Outcome, ok, throws, workflow_state, step_state,
}
use farm_exc.Workflow.Execution.Frame.{OnlyStep, OnlyStep-trans, OnlyStep-save_step}
use farm_exc.Workflow.Execution.Attempts.{step_state-save_step}
use farm_exc.Workflow.Lifecycle.Steps.{IsFresh, ==-false_comm}
use farm_exc.Workflow.Compensation.{
  undo_step, compensate_step, compensate_steps, conclude_compensation, run_compensation,
  compensate_workflow, force_compensate_steps, force_compensate_workflow, needs_compensation,
  completed_steps,
}
use farm_exc.Workflow.Compensation.Order.{All-sort_descending, sort_descending-All}

-- The states from which a workflow may be compensated.
abbrev pub IsCompensable : WorkflowState → Type 0
IsCompensable s =
    (s ≡ WorkflowState.completed) ⊎ (s ≡ WorkflowState.failed) ⊎ (s ≡ WorkflowState.cancelled)

IsCompensable-can :
    (s : WorkflowState)
    → IsCompensable s
    → (can_workflow_compensate s ≡ true)
      × (can_transition_workflow s WorkflowState.compensating ≡ true)
unfolding can_workflow_compensate can_transition_workflow
IsCompensable-can s h = ground arith

IsCompensable-cannot : (s : WorkflowState) → ¬ IsCompensable s → can_workflow_compensate s ≡ false
unfolding can_workflow_compensate
IsCompensable-cannot WorkflowState.pending h = refl
IsCompensable-cannot s h = ground arith

All-map {ℓ κ} :
    (P : WorkflowStep → Type ℓ) (Q : WorkflowStep → Type κ)
    → ((s : WorkflowStep) → P s → Q s)
    → (sts : List WorkflowStep) → All P sts
    → All Q sts
All-map P Q f [] h = tt
All-map P Q f (s ∷ sts) h = (f s h.0, All-map P Q f sts h.1)

filter-completed :
    (sts : List WorkflowStep)
    → All (λ s. s.state ≡ StepState.completed) (filter needs_compensation sts)
filter-completed [] = tt
filter-completed (st ∷ sts) = elim (Bool-cases (needs_compensation st)) [
  | inl wanted ↦ rw wanted (ground arith, filter-completed sts)
  | inr other ↦ rw other (filter-completed sts)
]

module _ {World Db : Type 0} (env : Env World Db) (store : IsStore env) where
  -- Both writes of an undone step are to its own row.
  undo_step-OnlyStep :
      (ms : ℕ) (st : WorkflowStep) (sys : Sys World Db)
      → OnlyStep env st.id sys.db (undo_step env ms st sys).db
  unfolding undo_step
  undo_step-OnlyStep ms st sys =
      OnlyStep-trans env (OnlyStep-save_step env store st.id _ _ refl)
        (OnlyStep-save_step env store st.id _ _ refl)

  undo_step-state :
      (ms : ℕ) (st : WorkflowStep) (sys : Sys World Db)
      → step_state (env.find_step (undo_step env ms st sys).db st.id) ≡ some StepState.compensated
  unfolding undo_step
  undo_step-state ms st sys = step_state-save_step env store _ _

  compensate_step-undo_step :
      (st : WorkflowStep) (sys : Sys World Db)
      → st.state ≡ StepState.completed
      → compensate_step env st sys ≡ (ok tt, undo_step env 1000 st sys)
  unfolding compensate_step transition_step can_transition_step
  compensate_step-undo_step st sys h = ground arith

  undo_step-stays :
      (ms : ℕ) (st : WorkflowStep) (sys : Sys World Db) (j : ℕ)
      → step_state (env.find_step sys.db j) ≡ some StepState.compensated
      → step_state (env.find_step (undo_step env ms st sys).db j) ≡ some StepState.compensated
  undo_step-stays ms st sys j h = elim (Bool-cases (st.id == j)) [
    | inl own ↦ rw (← (==_iff st.id j).0 own) (undo_step-state ms st sys)
    | inr other ↦ rw ((undo_step-OnlyStep ms st sys).steps j other) h
  ]

  -- What undoing the steps `sts` makes of the tables.
  record Undone (sts : List WorkflowStep) (d d' : Db) : Type 0 where
    workflows : (j : ℕ) → env.find_workflow d' j ≡ env.find_workflow d j
    kept : (j : ℕ) → IsFresh j sts → env.find_step d' j ≡ env.find_step d j
    stays :
        (j : ℕ)
        → step_state (env.find_step d j) ≡ some StepState.compensated
        → step_state (env.find_step d' j) ≡ some StepState.compensated
    undone : All (λ s. step_state (env.find_step d' s.id) ≡ some StepState.compensated) sts

  Undone-cons :
      (ms : ℕ) (st : WorkflowStep) (sts : List WorkflowStep) (sys : Sys World Db) (d' : Db)
      → Undone sts (undo_step env ms st sys).db d'
      → Undone (st ∷ sts) sys.db d'
  Undone-cons ms st sts sys d' u = record {
    workflows = λ j. u.workflows j ∙ (undo_step-OnlyStep ms st sys).workflows j;
    kept = λ j f. u.kept j f.1 ∙ (undo_step-OnlyStep ms st sys).steps j (==-false_comm j st.id f.0);
    stays = λ j h. u.stays j (undo_step-stays ms st sys j h);
    undone = (u.stays st.id (undo_step-state ms st sys), u.undone);
  }

  compensate_steps-undo_step :
      (st : WorkflowStep) (sts : List WorkflowStep) (sys : Sys World Db)
      → st.state ≡ StepState.completed
      → compensate_steps env (st ∷ sts) sys ≡ compensate_steps env sts (undo_step env 1000 st sys)
  unfolding compensate_steps
  compensate_steps-undo_step st sts sys h = ground (arith, compensate_step-undo_step st sys h)

  compensate_steps-Undone :
      (sts : List WorkflowStep) (sys : Sys World Db)
      → All (λ s. s.state ≡ StepState.completed) sts
      → ((compensate_steps env sts sys).0 ≡ ok tt)
        × Undone sts sys.db (compensate_steps env sts sys).1.db
  unfolding compensate_steps
  compensate_steps-Undone [] sys c =
      (refl, record { workflows = λ j. refl; kept = λ j f. refl; stays = λ j h. h; undone = tt })
  compensate_steps-Undone (st ∷ sts) sys c =
      let (done, u) = compensate_steps-Undone sts (undo_step env 1000 st sys) c.1 in
      rw (compensate_steps-undo_step st sts sys c.0) (done, Undone-cons 1000 st sts sys _ u)

  force_compensate_steps-Undone :
      (sts : List WorkflowStep) (sys : Sys World Db)
      → Undone sts sys.db (force_compensate_steps env sts sys).db
  unfolding force_compensate_steps
  force_compensate_steps-Undone [] sys = record {
    workflows = λ j. refl;
    kept = λ j f. refl;
    stays = λ j h. h;
    undone = tt;
  }
  force_compensate_steps-Undone (st ∷ sts) sys =
      Undone-cons 500 st sts sys _ (force_compensate_steps-Undone sts (undo_step env 500 st sys))

  -- The rows after a compensation of workflow `i`, of which `steps` are the steps.
  abbrev pub RolledBack : ℕ → List WorkflowStep → Db → Db → Type 0
  RolledBack i steps d d' =
      (workflow_state (env.find_workflow d' i) ≡ some WorkflowState.compensated)
      × All (λ s. step_state (env.find_step d' s.id) ≡ some StepState.compensated)
          (filter needs_compensation steps)
      × ((j : ℕ)
          → IsFresh j (filter needs_compensation steps)
          → env.find_step d' j ≡ env.find_step d j)

  saved_compensated :
      (d : Db) (wf : Workflow)
      → wf.state ≡ WorkflowState.compensated
      → workflow_state (env.find_workflow (env.save_workflow d wf) wf.id)
        ≡ some WorkflowState.compensated
  saved_compensated d wf h = ground (arith, store.workflow_saved d wf wf.id)

  Undone-RolledBack :
      (i : ℕ) (steps : List WorkflowStep) (d d' : Db) (wf wf' : Workflow)
      → wf'.id ≡ i
      → wf'.state ≡ WorkflowState.compensated
      → Undone (completed_steps steps) (env.save_workflow d wf) d'
      → RolledBack i steps d (env.save_workflow d' wf')
  unfolding completed_steps
  Undone-RolledBack i steps d d' wf wf' same compensated u =
      let wanted = filter needs_compensation steps in
      let row = λ (s : WorkflowStep). step_state (env.find_step d' s.id) in
      (
        rw (← same) (saved_compensated d' wf' compensated),
        All-map _ _ (λ s h. rw (store.step_kept d' wf' s.id) h) wanted
            (sort_descending-All (λ s. row s ≡ some StepState.compensated) wanted u.undone),
        λ j f.
            store.step_kept d' wf' j
            ∙ u.kept j (All-sort_descending (λ s. (j == s.id) ≡ false) wanted f)
            ∙ store.step_kept d wf j,
      )

  conclude_compensation-RolledBack :
      (i : ℕ) (steps : List WorkflowStep) (d : Db) (wf : Workflow)
      (r : Outcome (Unit {0}) × Sys World Db)
      → wf.id ≡ i
      → r.0 ≡ ok tt
      → Undone (completed_steps steps) (env.save_workflow d wf) r.1.db
      → ((conclude_compensation env wf r).0 ≡ ok tt)
        × RolledBack i steps d (conclude_compensation env wf r).1.db
  unfolding conclude_compensation
  conclude_compensation-RolledBack i steps d wf (ok u, sys) same h v =
      (refl, Undone-RolledBack i steps d sys.db wf _ same refl v)
  conclude_compensation-RolledBack i steps d wf (throws e, sys) same h v = cc

  run_compensation-RolledBack :
      (i : ℕ) (steps : List WorkflowStep) (wf : Workflow) (sys : Sys World Db)
      → wf.id ≡ i
      → ((run_compensation env wf steps sys).0 ≡ ok tt)
        × RolledBack i steps sys.db (run_compensation env wf steps sys).1.db
  unfolding run_compensation completed_steps
  run_compensation-RolledBack i steps wf sys same =
      let (done, undone) =
        compensate_steps-Undone (completed_steps steps) _
          (All-sort_descending _ _ (filter-completed steps)) in
      conclude_compensation-RolledBack i steps sys.db _ _ same done undone

  compensate_workflow-run :
      (i : ℕ) (wf : Workflow) (sys : Sys World Db)
      → env.find_workflow sys.db i ≡ some wf
      → (can_workflow_compensate wf.state ≡ true)
        × (can_transition_workflow wf.state WorkflowState.compensating ≡ true)
      → compensate_workflow env i sys ≡ run_compensation env wf (env.find_steps sys.db i) sys
  unfolding compensate_workflow transition_workflow
  compensate_workflow-run i wf sys found h = ground arith

  compensate_workflow_refused :
      (i : ℕ) (wf : Workflow) (sys : Sys World Db)
      → env.find_workflow sys.db i ≡ some wf
      → can_workflow_compensate wf.state ≡ false
      → compensate_workflow env i sys ≡ (throws (cannot_be_compensated i wf.state), sys)
  unfolding compensate_workflow
  compensate_workflow_refused i wf sys found h = ground arith

  -- `compensateWorkflow` of a workflow that is found. If it is completed, failed or cancelled the call
  -- returns: the workflow's row and the rows of its completed steps that require compensation are
  -- compensated, and the rows of all other steps stay. Otherwise the call throws and writes nothing.
  pub compensate_workflow_cases :
      (i : ℕ) (wf : Workflow) (sys : Sys World Db)
      → env.find_workflow sys.db i ≡ some wf
      → wf.id ≡ i
      → let r = compensate_workflow env i sys in
        (IsCompensable wf.state
          → (r.0 ≡ ok tt) × RolledBack i (env.find_steps sys.db i) sys.db r.1.db)
        × (¬ IsCompensable wf.state → r ≡ (throws (cannot_be_compensated i wf.state), sys))
  compensate_workflow_cases i wf sys found same = (
    λ h.
        rw (compensate_workflow-run i wf sys found (IsCompensable-can _ h))
          (run_compensation-RolledBack i _ wf sys same),
    λ h. compensate_workflow_refused i wf sys found (IsCompensable-cannot _ h),
  )

  -- `forceCompensateWorkflow` of a workflow that is found returns, whatever the workflow's state: the
  -- workflow's row and the rows of its completed steps that require compensation are compensated, and
  -- the rows of all other steps stay.
  pub force_compensate_workflow-RolledBack :
      (i : ℕ) (wf : Workflow) (sys : Sys World Db)
      → env.find_workflow sys.db i ≡ some wf
      → wf.id ≡ i
      → let r = force_compensate_workflow env i sys in
        (r.0 ≡ ok tt) × RolledBack i (env.find_steps sys.db i) sys.db r.1.db
  unfolding force_compensate_workflow completed_steps
  force_compensate_workflow-RolledBack i wf sys found same =
      rw (found, force_compensate_workflow)
        (
          refl,
          Undone-RolledBack i (env.find_steps sys.db i) sys.db _ _ _ same refl
              (force_compensate_steps-Undone (completed_steps (env.find_steps sys.db i)) _),
        )
