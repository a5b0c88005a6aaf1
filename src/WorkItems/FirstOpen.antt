-- ===== src/WorkItems/FirstOpen.antt =====
-- ComputeResumeTarget of backend/domain/workitems.go against a description of the resume point that
-- does not sort.
use saki_cli.Base.{
  ◌≡◌, refl, sym, ◌∙◌, inl, inr, Bool, true, false, not, ◌&&◌, Option, none, some, List, [], ◌∷◌,
  arith, Bool-cases, codes, same, any, ltz, ltz_irrefl, eqz, eqz_refl, ℤ,
}
use saki_cli.WorkItems.{
  step_order, sorted_slices, step_verified, open_step, is_complete, first_open,
  compute_resume_target, Slice, Manifest, Verifiers, ResumeTarget, StepName, rplan_step,
  approved_step, qa_step, reviewer_step,
}
use saki_cli.WorkItems.Sorting.{
  IsAscending, any-sorted_slices, IsSorted, IsAscending-lower, sorted_slices-IsSorted,
}

module _ (v : Verifiers) where
  -- The step is the first of the slice without a verified artifact; a slice with both is at qa.
  unfoldable pub is_open_at : Slice → StepName → Bool
  is_open_at s rplan_step = not (step_verified v rplan_step s)
  is_open_at s approved_step = step_verified v rplan_step s && not (step_verified v approved_step s)
  is_open_at s qa_step = step_verified v rplan_step s && step_verified v approved_step s
  is_open_at s reviewer_step = false

  abbrev pub is_resumed_at : ResumeTarget → Slice → Bool
  is_resumed_at r s = eqz s.n r.slice && (not (is_complete v s) && is_open_at s r.step)

  abbrev pub is_open_below : ℤ → Slice → Bool
  is_open_below n s = not (is_complete v s) && ltz s.n n

  -- The point is at an open step of an incomplete slice, and no slice with a lower number is
  -- incomplete; without a point, no slice is.
  unfoldable pub IsResumePoint : List Slice → Option ResumeTarget → Type 0
  IsResumePoint ss none = any (λ s. not (is_complete v s)) ss ≡ false
  IsResumePoint ss (some r) =
      (any (is_resumed_at r) ss ≡ true) × (any (is_open_below r.slice) ss ≡ false)

  open_step-is_open_at : (s : Slice) → is_open_at s (open_step v s step_order) ≡ true
  unfolding open_step is_open_at
  open_step-is_open_at s = ground arith

  IsAscending-is_open_below :
      (lo : ℤ) (ss : List Slice) → IsAscending lo ss → any (is_open_below lo) ss ≡ false
  IsAscending-is_open_below lo [] a = refl
  IsAscending-is_open_below lo (s ∷ ss) (g, a) =
      ground (arith, g, IsAscending-is_open_below lo ss (IsAscending-lower lo s.n ss g a))

  IsResumePoint-passed_over :
      (s : Slice) (ss : List Slice) (o : Option ResumeTarget)
      → is_complete v s ≡ true
      → IsResumePoint ss o
      → IsResumePoint (s ∷ ss) o
  unfolding IsResumePoint
  IsResumePoint-passed_over s ss none c h = rw c h
  IsResumePoint-passed_over s ss (some r) c (h, g) = (ground (arith, c, h), rw c g)

  IsResumePoint-here :
      (s : Slice) (ss : List Slice)
      → is_complete v s ≡ false
      → IsAscending s.n ss
      → IsResumePoint (s ∷ ss) (some (record { slice = s.n; step = open_step v s step_order }))
  unfolding IsResumePoint
  IsResumePoint-here s ss c a = (
    rw (eqz_refl s.n, c, open_step-is_open_at s) refl,
    rw (c, ltz_irrefl s.n) (IsAscending-is_open_below s.n ss a),
  )

  first_open-IsResumePoint :
      (lo : ℤ) (ss : List Slice) → IsAscending lo ss → IsResumePoint ss (first_open v ss)
  unfolding first_open IsResumePoint
  first_open-IsResumePoint lo [] a = refl
  first_open-IsResumePoint lo (s ∷ ss) (g, a) = elim (Bool-cases (is_complete v s)) [
    | inl c ↦
        rw c
          (IsResumePoint-passed_over s ss (first_open v ss) c (first_open-IsResumePoint s.n ss a))
    | inr c ↦ rw c (IsResumePoint-here s ss c a)
  ]

  first_open_sorted-IsResumePoint :
      (ss : List Slice) → IsSorted ss → IsResumePoint ss (first_open v ss)
  unfolding first_open IsResumePoint IsSorted
  first_open_sorted-IsResumePoint [] a = refl
  first_open_sorted-IsResumePoint (s ∷ ss) a =
      first_open-IsResumePoint s.n (s ∷ ss) (ltz_irrefl s.n, a)

  IsResumePoint-sorted_slices :
      (ss : List Slice) (o : Option ResumeTarget)
      → IsResumePoint (sorted_slices ss) o
      → IsResumePoint ss o
  unfolding IsResumePoint
  IsResumePoint-sorted_slices ss none h =
      sym (any-sorted_slices (λ s. not (is_complete v s)) ss) ∙ h
  IsResumePoint-sorted_slices ss (some r) (h, g) = (
    sym (any-sorted_slices (is_resumed_at r) ss) ∙ h,
    sym (any-sorted_slices (is_open_below r.slice) ss) ∙ g,
  )

-- For a manifest whose commit policy is per-step, in whatever order its slices stand: where
-- compute_resume_target gives a slice and a step, a slice with that number is incomplete and the
-- step is its first one without a verified artifact (qa where both are verified), and every slice
-- with a lower number is complete; where it gives nothing, every slice is complete.
pub compute_resume_target-IsResumePoint :
    (v : Verifiers) (m : Manifest)
    → same m.commit_policy (codes "per-step") ≡ true
    → IsResumePoint v m.slices (compute_resume_target v (some m))
unfolding compute_resume_target
compute_resume_target-IsResumePoint v m per_step = rw per_step (
    IsResumePoint-sorted_slices v m.slices (first_open v (sorted_slices m.slices)) (
      first_open_sorted-IsResumePoint v (sorted_slices m.slices) (sorted_slices-IsSorted m.slices)))
