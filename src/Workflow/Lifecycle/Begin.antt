-- ===== src/Workflow/Lifecycle/Begin.antt =====
-- `startWorkflow` called again, and `cancelWorkflow`.
use farm_exc.Prelude.{
  ℕ, String, ◌≡◌, refl, ◌∙◌, ◌⊎◌, inl, false, true, ◌==◌, Option, some, none, arith, if◌then◌else◌,
}
use farm_exc.Workflow.Json.{Fields}
use farm_exc.Workflow.State.{WorkflowState, can_transition_workflow, transition_workflow}
use farm_exc.Workflow.Entities.{Workflow, cannot_cancel, overwrite_workflow}
use farm_exc.Workflow.Environment.{Env, IsStore, Sys, Outcome, ok, throws, workflow_state}
use farm_exc.Workflow.Idempotency.{generate_workflow_idempotency_key}
use farm_exc.Workflow.Lifecycle.{
  WorkflowDefinition, Registry, get_workflow_definition, conclude, new_workflow, save_new_steps,
  user_or_anonymous, execute_workflow, start_workflow, cancel_workflow,
}
use farm_exc.Workflow.Lifecycle.Outcomes.{
  run_workflow-eq, run_steps-field, execute_workflow-run_workflow, IsStartable-can,
}

-- The states in which a workflow may be cancelled.
abbrev pub IsCancellable : WorkflowState → Type 0
IsCancellable s =
    (s ≡ WorkflowState.pending) ⊎ (s ≡ WorkflowState.running) ⊎ (s ≡ WorkflowState.failed)

IsCancellable-can :
    (s : WorkflowState) → IsCancellable s → can_transition_workflow s WorkflowState.cancelled ≡ true
unfolding can_transition_workflow
IsCancellable-can s h = ground arith

IsCancellable-cannot :
    (s : WorkflowState)
    → ¬ IsCancellable s
    → can_transition_workflow s WorkflowState.cancelled ≡ false
unfolding can_transition_workflow
IsCancellable-cannot WorkflowState.completed h = refl
IsCancellable-cannot s h = ground arith

-- Whether a call returned, without what it returned.
abbrev pub finished : {A : Type 0} → Outcome A → Outcome (Unit {0})
finished (ok a) = ok tt
finished (throws e) = throws e

-- The state of the row of a run that ended so.
abbrev pub final_state : Outcome (Unit {0}) → WorkflowState
final_state (ok u) = WorkflowState.completed
final_state (throws e) = WorkflowState.failed

module _ {World Db : Type 0} (env : Env World Db) (store : IsStore env) where
  -- The row of a run: it is found by its key and by its id, and its state says how the run ended.
  abbrev pub Settled : ℕ → String → Outcome (Unit {0}) → Db → Type 0
  Settled id key out d =
      (row : Workflow) × (env.find_workflow_by_key d key ≡ some row)
      × (env.find_workflow d id ≡ some row)
      × (row.state ≡ final_state out)

  save-Settled :
      (d : Db) (wf : Workflow) (out : Outcome (Unit {0}))
      → wf.state ≡ final_state out
      → Settled wf.id wf.idempotency_key out (env.save_workflow d wf)
  save-Settled d wf out h =
      let row = overwrite_workflow (env.find_workflow d wf.id) wf in
      let there : env.find_workflow (env.save_workflow d wf) wf.id ≡ some row =
        ground (arith, store.workflow_saved d wf wf.id) in
      (row, store.keyed_saved d wf ∙ there, there, state_of (env.find_workflow d wf.id) ∙ h)
    where
      state_of : (o : Option Workflow) → (overwrite_workflow o wf).state ≡ wf.state
      state_of o = ground arith

  conclude-Settled :
      (id : ℕ) (key : String) (r : Outcome (Unit {0}) × Workflow × Sys World Db)
      → r.1.id ≡ id
      → r.1.idempotency_key ≡ key
      → Settled id key (conclude env r).0 (conclude env r).2.db
  unfolding conclude
  conclude-Settled id key (ok u, wf, sys) e h = rw (← h, ← e) (save-Settled _ _ (ok tt) refl)
  conclude-Settled id key (throws m, wf, sys) e h = rw (← h, ← e) (save-Settled _ _ (throws m) refl)

  module _ (registry : Registry World) where
    execute_workflow-Settled :
        (def : WorkflowDefinition World) (wf : Workflow) (sys : Sys World Db)
        → get_workflow_definition registry wf.type ≡ some def
        → wf.state ≡ WorkflowState.pending
        → let r = execute_workflow env registry wf sys in
          Settled wf.id wf.idempotency_key r.0 r.2.db
    execute_workflow-Settled def wf sys known h =
        rw
          (
            execute_workflow-run_workflow env store registry def wf sys known
                (IsStartable-can _ (inl h)),
            run_workflow-eq env store def wf sys,
          )
          (conclude-Settled wf.id wf.idempotency_key _
            (run_steps-field env store def (λ w. w.id) (λ w k. refl) _ _ _)
            (run_steps-field env store def (λ w. w.idempotency_key) (λ w k. refl) _ _ _))

    module _ (def : WorkflowDefinition World) (type : String) (input : Fields)
        (user wallet : Option String) (context : Option Fields)
        (known : get_workflow_definition registry type ≡ some def) where
      abbrev key_at : ℕ → String
      key_at now =
          generate_workflow_idempotency_key env.sha256 type (user_or_anonymous user) input context
            now

      abbrev start : Sys World Db → Outcome Workflow × Sys World Db
      start = start_workflow env registry type input user wallet context

      -- The workflow that a first call creates, and the tables with its steps.
      created : Sys World Db → Workflow
      created sys =
          new_workflow (env.new_workflow_id sys.db) (key_at (env.clock sys.world).0) def type input
            user wallet context

      prepared : Sys World Db → Sys World Db
      prepared sys = record {
        world = (env.clock sys.world).1;
        db =
            save_new_steps env (created sys).id 0 def.steps
              (env.save_workflow sys.db (created sys));
      }

      start_workflow-execute_workflow :
          (sys : Sys World Db)
          → env.find_workflow_by_key sys.db (key_at (env.clock sys.world).0) ≡ none
          → let r = execute_workflow env registry (created sys) (prepared sys) in
            ((start sys).1 ≡ r.2) × (finished (start sys).0 ≡ r.0)
      unfolding start_workflow created prepared
      start_workflow-execute_workflow sys fresh = (ground arith, ground arith)

      start_workflow-Settled :
          (sys : Sys World Db)
          → env.find_workflow_by_key sys.db (key_at (env.clock sys.world).0) ≡ none
          → Settled
              (env.new_workflow_id sys.db)
              (key_at (env.clock sys.world).0)
              (finished (start sys).0)
              (start sys).1.db
      unfolding created new_workflow
      start_workflow-Settled sys fresh =
          let (same, out) = start_workflow-execute_workflow sys fresh in
          rw (same, out) (execute_workflow-Settled def (created sys) (prepared sys) known refl)

      start_workflow_existing :
          (sys : Sys World Db) (row : Workflow)
          → env.find_workflow_by_key sys.db (key_at (env.clock sys.world).0) ≡ some row
          → start sys ≡ (ok row, record sys { world = (env.clock sys.world).1 })
      unfolding start_workflow
      start_workflow_existing sys row found = ground arith

      -- A workflow of a registered type that is started with a new key, and once more with the same
      -- key, is run once. The second call writes nothing and returns the row that the first call left
      -- under the id that was new: completed if the first call returned, and failed if it threw.
      pub start_workflow_twice :
          (sys : Sys World Db)
          → env.find_workflow_by_key sys.db (key_at (env.clock sys.world).0) ≡ none
          → key_at (env.clock (start sys).1.world).0 ≡ key_at (env.clock sys.world).0
          → (row : Workflow) × (env.find_workflow (start sys).1.db (env.new_workflow_id sys.db)
              ≡ some row)
            × (start (start sys).1
                ≡ (ok row, record (start sys).1 { world = (env.clock (start sys).1.world).1 }))
            × (row.state ≡ final_state (finished (start sys).0))
      start_workflow_twice sys fresh same =
          let (row, found, here, settled) = start_workflow-Settled sys fresh in
          (row, here, start_workflow_existing (start sys).1 row (rw same found), settled)

  cancel_workflow-if :
      (i : ℕ) (wf : Workflow) (sys : Sys World Db)
      → env.find_workflow sys.db i ≡ some wf
      → cancel_workflow env i sys ≡ (
          if can_transition_workflow wf.state WorkflowState.cancelled
          then (
            ok tt,
            record {
              world = (env.clock sys.world).1;
              db = env.save_workflow sys.db (record wf {
                state = WorkflowState.cancelled;
                completed_at = some (env.clock sys.world).0;
              });
            },
          )
          else (throws (cannot_cancel (wf.state, WorkflowState.cancelled)), sys))
  unfolding cancel_workflow transition_workflow
  cancel_workflow-if i wf sys found = ground arith

  save-cancelled :
      (d : Db) (wf : Workflow)
      → wf.state ≡ WorkflowState.cancelled
      → workflow_state (env.find_workflow (env.save_workflow d wf) wf.id)
        ≡ some WorkflowState.cancelled
  save-cancelled d wf h = ground (arith, store.workflow_saved d wf wf.id)

  -- `cancelWorkflow` of a workflow that is found: if it is pending, running or failed its row becomes
  -- cancelled and every other row stays; otherwise the call throws and writes nothing.
  pub cancel_workflow_cases :
      (i : ℕ) (wf : Workflow) (sys : Sys World Db)
      → env.find_workflow sys.db i ≡ some wf
      → wf.id ≡ i
      → let r = cancel_workflow env i sys in
        (IsCancellable wf.state
          → (r.0 ≡ ok tt)
            × (workflow_state (env.find_workflow r.1.db i) ≡ some WorkflowState.cancelled)
            × ((j : ℕ) → (i == j) ≡ false → env.find_workflow r.1.db j ≡ env.find_workflow sys.db j)
            × ((j : ℕ) → env.find_step r.1.db j ≡ env.find_step sys.db j))
        × (¬ IsCancellable wf.state
            → r ≡ (throws (cannot_cancel (wf.state, WorkflowState.cancelled)), sys))
  cancel_workflow_cases i wf sys found same = (
    λ h.
        rw (cancel_workflow-if i wf sys found, IsCancellable-can _ h)
          (
            refl,
            rw (← same) (save-cancelled sys.db _ refl),
            λ j n. store.workflow_saved sys.db _ j ∙ rw (same, n),
            λ j. store.step_kept sys.db _ j,
          ),
    λ h. rw (cancel_workflow-if i wf sys found, IsCancellable-cannot _ h),
  )
