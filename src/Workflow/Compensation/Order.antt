-- ===== src/Workflow/Compensation/Order.antt =====
-- The order in which a compensation undoes the steps.
use mathlib.Core.List.{Perm}
use mathlib.Core.List.Perm
use farm_exc.Prelude.{ℕ, ◌≤◌, List, [], ◌∷◌, All, filter, ltb, arith, Bool-cases, inl, inr}
use farm_exc.Workflow.Entities.{WorkflowStep}
use farm_exc.Workflow.Compensation.{
  insert_step, sort_descending, needs_compensation, completed_steps,
}

-- The later step first.
abbrev pub IsDescending : List WorkflowStep → Type 0
IsDescending [] = Unit
IsDescending (st ∷ sts) = All (λ s. s.step_index ≤ st.step_index) sts × IsDescending sts

module _ {ℓ} (P : WorkflowStep → Type ℓ) where
  All-insert_step :
      (st : WorkflowStep) (sts : List WorkflowStep) → P st → All P sts → All P (insert_step st sts)
  unfolding insert_step
  All-insert_step st [] h k = (h, tt)
  All-insert_step st (s ∷ sts) h k = elim (Bool-cases (ltb st.step_index s.step_index)) [
    | inl later ↦ rw later (k.0, All-insert_step st sts h k.1)
    | inr early ↦ rw early (h, k)
  ]

  pub All-sort_descending : (sts : List WorkflowStep) → All P sts → All P (sort_descending sts)
  unfolding sort_descending
  All-sort_descending [] h = tt
  All-sort_descending (st ∷ sts) h = All-insert_step st _ h.0 (All-sort_descending sts h.1)

  insert_step-All :
      (st : WorkflowStep) (sts : List WorkflowStep) → All P (insert_step st sts) → P st × All P sts
  unfolding insert_step
  insert_step-All st [] h = h
  insert_step-All st (s ∷ sts) h = elim (Bool-cases (ltb st.step_index s.step_index)) [
    | inl later ↦
        let h' : P s × All P (insert_step st sts) = rw later at h in
        let k = insert_step-All st sts h'.1 in (k.0, (h'.0, k.1))
    | inr early ↦ rw early at h
  ]

  pub sort_descending-All : (sts : List WorkflowStep) → All P (sort_descending sts) → All P sts
  unfolding sort_descending
  sort_descending-All [] h = tt
  sort_descending-All (st ∷ sts) h =
      let k = insert_step-All st _ h in (k.0, sort_descending-All sts k.1)

All-le :
    (m n : ℕ) (sts : List WorkflowStep)
    → m ≤ n
    → All (λ s. s.step_index ≤ m) sts
    → All (λ s. s.step_index ≤ n) sts
All-le m n [] h k = tt
All-le m n (s ∷ sts) h k = (omega arith, All-le m n sts h k.1)

insert_step-IsDescending :
    (st : WorkflowStep) (sts : List WorkflowStep)
    → IsDescending sts
    → IsDescending (insert_step st sts)
unfolding insert_step
insert_step-IsDescending st [] d = (tt, tt)
insert_step-IsDescending st (s ∷ sts) d = elim (Bool-cases (ltb st.step_index s.step_index)) [
  | inl later ↦
      rw later (All-insert_step _ st sts (ground arith) d.0, insert_step-IsDescending st sts d.1)
  | inr early ↦
      rw early ((ground arith, All-le s.step_index st.step_index sts (ground arith) d.0), d)
]

sort_descending-IsDescending : (sts : List WorkflowStep) → IsDescending (sort_descending sts)
unfolding sort_descending
sort_descending-IsDescending [] = tt
sort_descending-IsDescending (st ∷ sts) =
    insert_step-IsDescending st _ (sort_descending-IsDescending sts)

insert_step-perm :
    (st : WorkflowStep) (sts : List WorkflowStep) → Perm (insert_step st sts) (st ∷ sts)
unfolding insert_step
insert_step-perm st [] = Perm.refl _
insert_step-perm st (s ∷ sts) = elim (Bool-cases (ltb st.step_index s.step_index)) [
  | inl later ↦ rw later (Perm.trans (Perm.cons s (insert_step-perm st sts)) (Perm.swap st s sts))
  | inr early ↦ rw early (Perm.refl _)
]

sort_descending-perm : (sts : List WorkflowStep) → Perm (sort_descending sts) sts
unfolding sort_descending
sort_descending-perm [] = Perm.refl _
sort_descending-perm (st ∷ sts) =
    Perm.trans (insert_step-perm st _) (Perm.cons st (sort_descending-perm sts))

-- A compensation undoes the later steps first, and it undoes exactly the completed steps that require
-- compensation, each as often as it is listed.
pub completed_steps-IsDescending :
    (sts : List WorkflowStep)
    → IsDescending (completed_steps sts)
      × Perm (completed_steps sts) (filter needs_compensation sts)
unfolding completed_steps
completed_steps-IsDescending sts =
    let wanted = filter needs_compensation sts in
    (sort_descending-IsDescending wanted, sort_descending-perm wanted)
