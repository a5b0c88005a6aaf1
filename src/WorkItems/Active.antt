-- ===== src/WorkItems/Active.antt =====
-- ActiveStepFor of backend/domain/workitems.go against a description of the step that does not sort.
use saki_cli.Base.{
  ◌≡◌, refl, sym, ◌∙◌, inl, inr, Bool, true, false, not, ◌&&◌, Option, none, some, List, [], ◌∷◌,
  arith, Bool-cases, is_nil, any, lookup, ltz, ltz_irrefl, eqz, eqz_refl, ℤ,
}
use saki_cli.WorkItems.{
  spelled, sorted_slices, is_done_number, running_slice, commit_of, plan_made, active_step,
  step_of_running, active_step_for, Slice, Manifest, Verifiers, ResumeTarget, StepName, rplan_step,
  approved_step, qa_step, reviewer_step,
}
use saki_cli.WorkItems.Sorting.{
  IsAscending, any-sorted_slices, IsSorted, IsAscending-lower, sorted_slices-IsSorted,
}

module _ (v : Verifiers) (plan_exists : ℤ → Bool) (done : List ℤ) where
  abbrev commit_made : Slice → Bool
  commit_made s =
      let commit = commit_of (lookup (spelled approved_step) s.steps) in
      not (is_nil commit) && v.commit_exists commit

  unfoldable pub is_active_at : Slice → StepName → Bool
  is_active_at s rplan_step = not (plan_made v plan_exists s)
  is_active_at s approved_step = plan_made v plan_exists s && not (commit_made s)
  is_active_at s qa_step = plan_made v plan_exists s && commit_made s
  is_active_at s reviewer_step = false

  abbrev pub is_shown_at : ResumeTarget → Slice → Bool
  is_shown_at r s = eqz s.n r.slice && (not (is_done_number done s.n) && is_active_at s r.step)

  abbrev pub is_left_below : ℤ → Slice → Bool
  is_left_below n s = not (is_done_number done s.n) && ltz s.n n

  -- The step is the one a slice that is left stands at, and no slice with a lower number is left;
  -- without a step, no slice is left.
  unfoldable pub IsActiveStep : List Slice → Option ResumeTarget → Type 0
  IsActiveStep ss none = any (λ s. not (is_done_number done s.n)) ss ≡ false
  IsActiveStep ss (some r) =
      (any (is_shown_at r) ss ≡ true) × (any (is_left_below r.slice) ss ≡ false)

  active_step-is_active_at : (s : Slice) → is_active_at s (active_step v plan_exists s) ≡ true
  unfolding active_step is_active_at
  active_step-is_active_at s = ground arith

  IsAscending-is_left_below :
      (lo : ℤ) (ss : List Slice) → IsAscending lo ss → any (is_left_below lo) ss ≡ false
  IsAscending-is_left_below lo [] a = refl
  IsAscending-is_left_below lo (s ∷ ss) (g, a) =
      ground (arith, g, IsAscending-is_left_below lo ss (IsAscending-lower lo s.n ss g a))

  IsActiveStep-passed_over :
      (s : Slice) (ss : List Slice) (o : Option ResumeTarget)
      → is_done_number done s.n ≡ true
      → IsActiveStep ss o
      → IsActiveStep (s ∷ ss) o
  unfolding IsActiveStep
  IsActiveStep-passed_over s ss none c h = rw c h
  IsActiveStep-passed_over s ss (some r) c (h, g) = (ground (arith, c, h), rw c g)

  IsActiveStep-here :
      (s : Slice) (ss : List Slice)
      → is_done_number done s.n ≡ false
      → IsAscending s.n ss
      → IsActiveStep (s ∷ ss) (step_of_running v plan_exists (some s))
  unfolding IsActiveStep
  IsActiveStep-here s ss c a = (
    rw (eqz_refl s.n, c, active_step-is_active_at s) refl,
    rw (c, ltz_irrefl s.n) (IsAscending-is_left_below s.n ss a),
  )

  running_slice-IsActiveStep :
      (lo : ℤ) (ss : List Slice)
      → IsAscending lo ss
      → IsActiveStep ss (step_of_running v plan_exists (running_slice done ss))
  unfolding running_slice IsActiveStep
  running_slice-IsActiveStep lo [] a = refl
  running_slice-IsActiveStep lo (s ∷ ss) (g, a) = elim (Bool-cases (is_done_number done s.n)) [
    | inl c ↦ rw c (
        IsActiveStep-passed_over s ss (step_of_running v plan_exists (running_slice done ss)) c
          (running_slice-IsActiveStep s.n ss a))
    | inr c ↦ rw c (IsActiveStep-here s ss c a)
  ]

  running_slice_sorted-IsActiveStep :
      (ss : List Slice)
      → IsSorted ss
      → IsActiveStep ss (step_of_running v plan_exists (running_slice done ss))
  unfolding running_slice IsActiveStep IsSorted
  running_slice_sorted-IsActiveStep [] a = refl
  running_slice_sorted-IsActiveStep (s ∷ ss) a =
      running_slice-IsActiveStep s.n (s ∷ ss) (ltz_irrefl s.n, a)

  IsActiveStep-sorted_slices :
      (ss : List Slice) (o : Option ResumeTarget)
      → IsActiveStep (sorted_slices ss) o
      → IsActiveStep ss o
  unfolding IsActiveStep
  IsActiveStep-sorted_slices ss none h =
      sym (any-sorted_slices (λ s. not (is_done_number done s.n)) ss) ∙ h
  IsActiveStep-sorted_slices ss (some r) (h, g) = (
    sym (any-sorted_slices (is_shown_at r) ss) ∙ h,
    sym (any-sorted_slices (is_left_below r.slice) ss) ∙ g,
  )

-- In whatever order a manifest's slices stand: where active_step_for gives a slice and a step, a
-- slice with that number is not among the completed ones, the step is rplan where its plan is not
-- made, approved where the plan is made and no commit of it exists, qa where both are there, and
-- every slice with a lower number is completed; where it gives nothing, every slice is completed.
pub active_step_for-IsActiveStep :
    (v : Verifiers) (plan_exists : ℤ → Bool) (m : Manifest) (done : List ℤ)
    → IsActiveStep v plan_exists done m.slices (active_step_for v plan_exists (some m) done)
unfolding active_step_for
active_step_for-IsActiveStep v plan_exists m done =
    IsActiveStep-sorted_slices v plan_exists done m.slices
      (step_of_running v plan_exists (running_slice done (sorted_slices m.slices)))
      (running_slice_sorted-IsActiveStep v plan_exists done (sorted_slices m.slices)
        (sorted_slices-IsSorted m.slices))
