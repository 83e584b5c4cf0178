-- ===== src/Workflow/Recovery/Orphans.antt =====
-- `recoverWorkflow` and `recoverOrphanedWorkflows`.
use farm_exc.Prelude.{
  ℕ, ◌-◌, ◌≤◌, ◌≡◌, refl, ◌∙◌, ◌⊎◌, inl, inr, true, false, ◌==◌, List, [], ◌∷◌, All, filter, map,
  Option, some, none, arith, Option-cases, Bool-cases, ltb,
}
use farm_exc.Workflow.State.{
  WorkflowState, StepState, same_step, same_workflow, transition_workflow, can_transition_workflow,
}
use farm_exc.Workflow.Entities.{Workflow, WorkflowStep, cannot_start, overwrite_workflow}
use farm_exc.Workflow.Environment.{Env, IsStore, Sys, throws, workflow_state}
use farm_exc.Workflow.Lifecycle.{
  Registry, WorkflowDefinition, get_workflow_definition, execute_workflow,
}
use farm_exc.Workflow.Lifecycle.Outcomes.{execute_workflow_refused}
use farm_exc.Workflow.Recovery.{
  workflow_staleness, is_failed_step, recover_stale, recover_workflow, recover_each,
  recover_orphaned_workflows, resume_index, last_completed_step,
}

-- No step of the list is failed.
abbrev pub NoneFailed : List WorkflowStep → Type 0
NoneFailed = All (λ st. same_step st.state StepState.failed ≡ false)

filter-NoneFailed : (sts : List WorkflowStep) → NoneFailed sts → filter is_failed_step sts ≡ []
unfolding is_failed_step
filter-NoneFailed [] h = refl
filter-NoneFailed (st ∷ sts) h = rw h.0 (filter-NoneFailed sts h.1)

overwrite-state :
    (old : Option Workflow) (wf : Workflow)
    → workflow_state (some (overwrite_workflow old wf)) ≡ some wf.state
overwrite-state none wf = refl
overwrite-state (some old) wf = refl

running_state :
    (s : WorkflowState) → same_workflow s WorkflowState.running ≡ true → s ≡ WorkflowState.running
running_state s h = ground arith

module _ {World Db : Type 0} (env : Env World Db) (store : IsStore env)
    (registry : Registry World) where
  -- A running workflow of a registered type that has been idle for five minutes and has no failed
  -- step is not resumed: the call throws, since a running workflow cannot be started, and writes nothing.
  pub recover_workflow_stuck :
      (def : WorkflowDefinition World) (wf : Workflow) (last_activity : ℕ)
      (steps : List WorkflowStep) (sys : Sys World Db)
      → get_workflow_definition registry wf.type ≡ some def
      → wf.state ≡ WorkflowState.running
      → workflow_staleness ≤ (env.clock sys.world).0 - last_activity
      → NoneFailed steps
      → recover_workflow env registry last_activity wf steps sys ≡ (
        throws (cannot_start (WorkflowState.running, WorkflowState.running)),
        record sys { world = (env.clock sys.world).1 },
      )
  unfolding recover_workflow
  recover_workflow_stuck def wf last_activity steps sys known running stale none_failed =
      let wf' : Workflow = record wf {
        current_step_index = resume_index (last_completed_step steps);
      } in
      let sys' : Sys World Db = record sys { world = (env.clock sys.world).1 } in
      ground (
        arith,
        filter-NoneFailed steps none_failed,
        execute_workflow_refused env store registry def wf' sys' known,
      )

  execute_workflow_running :
      (wf : Workflow) (sys : Sys World Db)
      → wf.state ≡ WorkflowState.running
      → (execute_workflow env registry wf sys).2 ≡ sys
  unfolding execute_workflow transition_workflow can_transition_workflow
  execute_workflow_running wf sys h =
      elim (Option-cases (get_workflow_definition registry wf.type)) [
        | inl e ↦ ground arith
        | inr (def, e) ↦ ground arith
      ]

  -- From `d` to `d'` no row of a step changes, and a row of a workflow stays or becomes failed.
  pub record OnlyFailures (d d' : Db) : Type 0 where
    pub steps : (j : ℕ) → env.find_step d' j ≡ env.find_step d j
    pub workflows :
        (j : ℕ)
        → (workflow_state (env.find_workflow d' j) ≡ some WorkflowState.failed)
          ⊎ (env.find_workflow d' j ≡ env.find_workflow d j)

  OnlyFailures-refl : (d : Db) → OnlyFailures d d
  OnlyFailures-refl d = record { steps = λ j. refl; workflows = λ j. inr refl }

  OnlyFailures-trans :
      {d d' d'' : Db} → OnlyFailures d d' → OnlyFailures d' d'' → OnlyFailures d d''
  OnlyFailures-trans {d} {d'} {d''} p q = record {
    steps = λ j. q.steps j ∙ p.steps j;
    workflows = λ j. elim (q.workflows j) [
      | inl failed ↦ inl failed
      | inr same ↦ elim (p.workflows j) [
        | inl failed ↦ inl (rw same failed)
        | inr same' ↦ inr (same ∙ same')
      ]
    ];
  }

  OnlyFailures-save :
      (d : Db) (wf : Workflow)
      → wf.state ≡ WorkflowState.failed
      → OnlyFailures d (env.save_workflow d wf)
  OnlyFailures-save d wf h = record {
    steps = λ j. store.step_kept d wf j;
    workflows = λ j. elim (Bool-cases (wf.id == j)) [
      | inl own ↦ inl (
          rw (store.workflow_saved d wf j, own) (overwrite-state (env.find_workflow d j) wf ∙ rw h))
      | inr other ↦ inr (store.workflow_saved d wf j ∙ rw other)
    ];
  }

  recover_stale-OnlyFailures :
      (wf : Workflow) (steps failed : List WorkflowStep) (sys : Sys World Db)
      → filter is_failed_step steps ≡ failed
      → wf.state ≡ WorkflowState.running
      → OnlyFailures sys.db (recover_stale env registry wf steps sys).1.db
  unfolding recover_stale
  recover_stale-OnlyFailures wf steps [] sys e running =
      let wf' : Workflow = record wf {
        current_step_index = resume_index (last_completed_step steps);
      } in
      rw (e, recover_stale)
        (rw (execute_workflow_running wf' sys running) (OnlyFailures-refl sys.db))
  recover_stale-OnlyFailures wf steps (f ∷ fs) sys e running =
      rw (e, recover_stale) (OnlyFailures-save sys.db _ refl)

  recover_workflow-OnlyFailures :
      (wf : Workflow) (last_activity : ℕ) (steps : List WorkflowStep) (sys : Sys World Db)
      → wf.state ≡ WorkflowState.running
      → OnlyFailures sys.db (recover_workflow env registry last_activity wf steps sys).1.db
  unfolding recover_workflow
  recover_workflow-OnlyFailures wf last_activity steps sys running =
      let sys' : Sys World Db = record sys { world = (env.clock sys.world).1 } in
      elim (Bool-cases (ltb ((env.clock sys.world).0 - last_activity) workflow_staleness)) [
        | inl active ↦ rw active (OnlyFailures-refl sys.db)
        | inr stale ↦ rw stale (recover_stale-OnlyFailures wf steps _ sys' refl running)
      ]

  recover_each-OnlyFailures :
      (load : Workflow → Workflow × ℕ × List WorkflowStep)
      → ((wf : Workflow) → (load wf).0 ≡ wf)
      → (wfs : List Workflow) (sys : Sys World Db)
      → All (λ wf. same_workflow wf.state WorkflowState.running ≡ true) wfs
      → OnlyFailures sys.db (recover_each env registry (map load wfs) sys).db
  unfolding recover_each
  recover_each-OnlyFailures load same [] sys h = OnlyFailures-refl sys.db
  recover_each-OnlyFailures load same (wf ∷ wfs) sys h =
      OnlyFailures-trans
        (recover_workflow-OnlyFailures (load wf).0 _ _ sys
          (rw (same wf) (running_state wf.state h.0)))
        (recover_each-OnlyFailures load same wfs _ h.1)

  -- Whatever workflows are found running, recovery runs none of them: it writes no row of a step, and
  -- a row of a workflow stays as it is or becomes failed.
  pub recover_orphaned_workflows-OnlyFailures :
      (sys : Sys World Db) → OnlyFailures sys.db (recover_orphaned_workflows env registry sys).db
  unfolding recover_orphaned_workflows
  recover_orphaned_workflows-OnlyFailures sys =
      recover_each-OnlyFailures _ (λ wf. refl) _ sys
        (store.queried sys.db (λ wf. same_workflow wf.state WorkflowState.running))
