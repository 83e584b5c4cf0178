-- ===== src/Workflow/Lifecycle/Steps.antt =====
-- The loop over the steps of a workflow.
use farm_exc.Prelude.{
  ℕ, ◌≡◌, refl, ◌∙◌, ◌⊎◌, inl, inr, false, ◌==◌, List, [], ◌∷◌, All, some, get_elem?, arith,
}
use farm_exc.Workflow.State.{StepState}
use farm_exc.Workflow.Entities.{Workflow, WorkflowStep, Message}
use farm_exc.Workflow.Environment.{Env, IsStore, Sys, Outcome, ok, throws, step_state}
use farm_exc.Workflow.Execution.{execute_step}
use farm_exc.Workflow.Execution.Attempts.{IsRunnable}
use farm_exc.Workflow.Execution.Rounds.{Ends, execute_step-Ends}
use farm_exc.Workflow.Execution.Frame.{execute_step-OnlyStep}
use farm_exc.Workflow.Lifecycle.{WorkflowDefinition, run_steps}

abbrev pub IsFresh : ℕ → List WorkflowStep → Type 0
IsFresh i = All (λ st. (i == st.id) ≡ false)

abbrev pub AreDistinct : List WorkflowStep → Type 0
AreDistinct [] = Unit
AreDistinct (st ∷ sts) = IsFresh st.id sts × AreDistinct sts

abbrev pub AreRunnable : List WorkflowStep → Type 0
AreRunnable = All (λ st. IsRunnable st.state)

pub ==-false_comm : (a b : ℕ) → (a == b) ≡ false → (b == a) ≡ false
==-false_comm a b h = ground arith

pub All-of {ℓ κ} : {A : Type ℓ} (P : A → Type κ) → ((a : A) → P a) → (xs : List A) → All P xs
All-of P h [] = tt
All-of P h (x ∷ xs) = (h x, All-of P h xs)

module _ {World Db : Type 0} (env : Env World Db) (store : IsStore env) where
  -- How the rows of the steps stand in `d'` after a run that began at `d`: the steps up to the first
  -- that failed are completed, that one is failed, and those after it are as they were.
  abbrev pub Progress : Db → Db → List WorkflowStep → Outcome (Unit {0}) → Type 0
  Progress d d' [] (ok _) = Unit
  Progress d d' [] (throws e) = ⊥
  Progress d d' (st ∷ sts) (ok u) =
      (step_state (env.find_step d' st.id) ≡ some StepState.completed) × Progress d d' sts (ok u)
  Progress d d' (st ∷ sts) (throws e) =
      ((step_state (env.find_step d' st.id) ≡ some StepState.completed)
        × Progress d d' sts (throws e))
      ⊎ ((step_state (env.find_step d' st.id) ≡ some StepState.failed)
          × All (λ s. env.find_step d' s.id ≡ env.find_step d s.id) sts)

  -- Rows that agree on the steps may be exchanged at the start of a run.
  pub Progress-start :
      (d₀ d d' : Db) (sts : List WorkflowStep) (out : Outcome (Unit {0}))
      → All (λ s. env.find_step d s.id ≡ env.find_step d₀ s.id) sts
      → Progress d d' sts out
      → Progress d₀ d' sts out
  Progress-start d₀ d d' [] (ok _) same h = h
  Progress-start d₀ d d' [] (throws e) same h = h
  Progress-start d₀ d d' (st ∷ sts) (ok u) same h =
      (h.0, Progress-start d₀ d d' sts (ok u) same.1 h.1)
  Progress-start d₀ d d' (st ∷ sts) (throws e) same (inl h) =
      inl (h.0, Progress-start d₀ d d' sts (throws e) same.1 h.1)
  Progress-start d₀ d d' (st ∷ sts) (throws e) same (inr h) = inr (h.0, All-trans sts h.1 same.1)
    where
      All-trans :
          (xs : List WorkflowStep)
          → All (λ s. env.find_step d' s.id ≡ env.find_step d s.id) xs
          → All (λ s. env.find_step d s.id ≡ env.find_step d₀ s.id) xs
          → All (λ s. env.find_step d' s.id ≡ env.find_step d₀ s.id) xs
      All-trans [] p q = tt
      All-trans (x ∷ xs) p q = (p.0 ∙ q.0, All-trans xs p.1 q.1)

  -- Rows that agree on the steps may be exchanged at the end of a run.
  pub Progress-end :
      (d d₁ d₂ : Db) (sts : List WorkflowStep) (out : Outcome (Unit {0}))
      → ((j : ℕ) → env.find_step d₂ j ≡ env.find_step d₁ j)
      → Progress d d₁ sts out
      → Progress d d₂ sts out
  Progress-end d d₁ d₂ [] (ok _) same h = h
  Progress-end d d₁ d₂ [] (throws e) same h = h
  Progress-end d d₁ d₂ (st ∷ sts) (ok u) same h =
      (rw (same st.id) h.0, Progress-end d d₁ d₂ sts (ok u) same h.1)
  Progress-end d d₁ d₂ (st ∷ sts) (throws e) same (inl h) =
      inl (rw (same st.id) h.0, Progress-end d d₁ d₂ sts (throws e) same h.1)
  Progress-end d d₁ d₂ (st ∷ sts) (throws e) same (inr h) =
      inr (rw (same st.id) h.0, kept_all sts h.1)
    where
      kept_all :
          (xs : List WorkflowStep)
          → All (λ s. env.find_step d₁ s.id ≡ env.find_step d s.id) xs
          → All (λ s. env.find_step d₂ s.id ≡ env.find_step d s.id) xs
      kept_all [] p = tt
      kept_all (x ∷ xs) p = (same x.id ∙ p.0, kept_all xs p.1)

  Progress-completed :
      (d d' : Db) (st : WorkflowStep) (sts : List WorkflowStep) (out : Outcome (Unit {0}))
      → step_state (env.find_step d' st.id) ≡ some StepState.completed
      → Progress d d' sts out
      → Progress d d' (st ∷ sts) out
  Progress-completed d d' st sts (ok u) h k = (h, k)
  Progress-completed d d' st sts (throws e) h k = inl (h, k)

  module _ (def : WorkflowDefinition World) where
    -- One turn of the loop changes no row of a step but that of its own.
    turn_kept :
        (wf : Workflow) (st : WorkflowStep) (sys : Sys World Db) (j : ℕ)
        → (st.id == j) ≡ false
        → env.find_step
            (execute_step env wf st
              (get_elem? def.steps st.step_index)
              (record sys { db = env.save_workflow sys.db wf })).1.db
            j
          ≡ env.find_step sys.db j
    turn_kept wf st sys j n =
        (execute_step-OnlyStep env store wf (get_elem? def.steps st.step_index) st
            (record sys { db = env.save_workflow sys.db wf })).steps
          j n
        ∙ store.step_kept sys.db wf j

    turn_kept-All :
        (wf : Workflow) (st : WorkflowStep) (sys : Sys World Db) (sts : List WorkflowStep)
        → IsFresh st.id sts
        → All
            (λ s.
              env.find_step
                (execute_step env wf st
                  (get_elem? def.steps st.step_index)
                  (record sys { db = env.save_workflow sys.db wf })).1.db
                s.id
              ≡ env.find_step sys.db s.id)
            sts
    turn_kept-All wf st sys [] f = tt
    turn_kept-All wf st sys (s ∷ sts) f =
        (turn_kept wf st sys s.id f.0, turn_kept-All wf st sys sts f.1)

    -- The workflow and the tables as a turn of the loop finds them.
    abbrev pub at_step : Workflow → WorkflowStep → Workflow
    at_step wf st = record wf { current_step_index = st.step_index }

    abbrev pub turn : Workflow → WorkflowStep → Sys World Db → Outcome (Unit {0}) × Sys World Db
    turn wf st sys =
        execute_step env (at_step wf st) st (get_elem? def.steps st.step_index)
          (record sys { db = env.save_workflow sys.db (at_step wf st) })

    pub run_steps-ok :
        (wf : Workflow) (st : WorkflowStep) (sts : List WorkflowStep) (sys sys' : Sys World Db)
        → turn wf st sys ≡ (ok tt, sys')
        → run_steps env wf def (st ∷ sts) sys ≡ run_steps env (at_step wf st) def sts sys'
    unfolding run_steps
    run_steps-ok wf st sts sys sys' p = ground arith

    pub run_steps-throws :
        (wf : Workflow) (st : WorkflowStep) (sts : List WorkflowStep) (sys sys' : Sys World Db)
        (e : Message)
        → turn wf st sys ≡ (throws e, sys')
        → run_steps env wf def (st ∷ sts) sys ≡ (throws e, at_step wf st, sys')
    unfolding run_steps
    run_steps-throws wf st sts sys sys' e p = ground arith

    run_steps_kept-turn :
        (wf : Workflow) (st : WorkflowStep) (sts : List WorkflowStep) (sys : Sys World Db) (j : ℕ)
        → (r : Outcome (Unit {0}) × Sys World Db) → turn wf st sys ≡ r
        → ((wf' : Workflow) (sys' : Sys World Db)
            → env.find_step (run_steps env wf' def sts sys').2.db j ≡ env.find_step sys'.db j)
        → env.find_step (run_steps env wf def (st ∷ sts) sys).2.db j ≡ env.find_step r.1.db j
    run_steps_kept-turn wf st sts sys j (ok u, sys') p ih =
        rw (run_steps-ok wf st sts sys sys' p) (ih _ sys')
    run_steps_kept-turn wf st sts sys j (throws e, sys') p ih =
        rw (run_steps-throws wf st sts sys sys' e p)

    -- The loop changes the rows of its own steps only.
    pub run_steps_kept :
        (wf : Workflow) (sts : List WorkflowStep) (sys : Sys World Db) (j : ℕ)
        → IsFresh j sts
        → env.find_step (run_steps env wf def sts sys).2.db j ≡ env.find_step sys.db j
    unfolding run_steps
    run_steps_kept wf [] sys j f = refl
    run_steps_kept wf (st ∷ sts) sys j f =
        run_steps_kept-turn wf st sts sys j _ refl (λ wf' sys'. run_steps_kept wf' sts sys' j f.1)
        ∙ turn_kept (at_step wf st) st sys j (==-false_comm j st.id f.0)

    run_steps-Progress-turn :
        (wf : Workflow) (st : WorkflowStep) (sts : List WorkflowStep) (sys : Sys World Db)
        → AreDistinct (st ∷ sts)
        → (r : Outcome (Unit {0}) × Sys World Db) → turn wf st sys ≡ r
        → Ends env store st r
        → All (λ s. env.find_step r.1.db s.id ≡ env.find_step sys.db s.id) sts
        → ((wf' : Workflow) (sys' : Sys World Db)
            → Progress sys'.db
                (run_steps env wf' def sts sys').2.db
                sts
                (run_steps env wf' def sts sys').0)
        → Progress sys.db
            (run_steps env wf def (st ∷ sts) sys).2.db
            (st ∷ sts)
            (run_steps env wf def (st ∷ sts) sys).0
    run_steps-Progress-turn wf st sts sys d (ok u, sys') p h kept ih =
        rw (run_steps-ok wf st sts sys sys' p) (
          Progress-completed sys.db _ st sts _
            (rw (run_steps_kept (at_step wf st) sts sys' st.id d.0) h)
            (Progress-start sys.db sys'.db _ sts _ kept (ih (at_step wf st) sys')))
    run_steps-Progress-turn wf st sts sys d (throws e, sys') p h kept ih =
        rw (run_steps-throws wf st sts sys sys' e p) (inr (h.0, kept))

    -- The rows of the steps after the loop, whether it ran through or broke off.
    pub run_steps-Progress :
        (wf : Workflow) (sts : List WorkflowStep) (sys : Sys World Db)
        → AreRunnable sts
        → AreDistinct sts
        → Progress sys.db (run_steps env wf def sts sys).2.db sts (run_steps env wf def sts sys).0
    unfolding run_steps
    run_steps-Progress wf [] sys r d = tt
    run_steps-Progress wf (st ∷ sts) sys r d =
        run_steps-Progress-turn wf st sts sys d _ refl
          (execute_step-Ends env store (at_step wf st) (get_elem? def.steps st.step_index) st
            (record sys { db = env.save_workflow sys.db (at_step wf st) }) r.0)
          (turn_kept-All (at_step wf st) st sys sts d.0)
          (λ wf' sys'. run_steps-Progress wf' sts sys' r.1 d.1)
