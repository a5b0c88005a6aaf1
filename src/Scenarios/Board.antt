-- ===== src/Scenarios/Board.antt =====
-- A manifest with its slices out of order: slice 1 is complete, slice 2 has a plan and no commit.
use saki_cli.Base.{◌≡◌, refl, Bool, false, some, [], ◌∷◌, codes, same, lookup, ℤ, pos}
use saki_cli.WorkItems.{
  insert_slice, insert_slices, turned, sorted_slices, step_verified, open_step, is_complete,
  first_open, compute_resume_target, running_slice, plan_made, active_step, active_step_for, Step,
  Manifest, Verifiers, approved_step,
}
use saki_cli.WorkItems.Active.{IsActiveStep, active_step_for-IsActiveStep}
use saki_cli.WorkItems.FirstOpen.{IsResumePoint, compute_resume_target-IsResumePoint}

abbrev on_disk : Verifiers
on_disk = record {
  file_exists = λ p. same p (codes "p.md");
  commit_exists = λ c. same c (codes "abcd");
}

abbrev planned : Step
planned = record { status = codes "done"; artifact = codes "p.md"; commit = [] }

abbrev committed : Step
committed = record { status = codes "done"; artifact = []; commit = codes "abcd" }

abbrev half_built : Manifest
half_built = record {
  commit_policy = codes "per-step";
  slices =
      record { n = pos 2; status = codes "pending"; steps = (codes "rplan", planned) ∷ [] }
      ∷ record {
        n = pos 1;
        status = codes "done";
        steps = (codes "rplan", planned) ∷ (codes "approved", committed) ∷ [];
      }
      ∷ [];
}

-- It is resumed at the commit of slice 2.
resumes_at :
    compute_resume_target on_disk (some half_built)
    ≡ some (record { slice = pos 2; step = approved_step })
unfolding compute_resume_target same first_open sorted_slices turned insert_slices insert_slice
    is_complete step_verified lookup open_step
resumes_at = refl

compute_resume_target-IsResumePoint_example :
    IsResumePoint on_disk half_built.slices (compute_resume_target on_disk (some half_built))
unfolding same
compute_resume_target-IsResumePoint_example =
    compute_resume_target-IsResumePoint on_disk half_built refl

abbrev no_plan_found : ℤ → Bool
no_plan_found n = false

-- With slice 1 completed the board shows the same step.
shows :
    active_step_for on_disk no_plan_found (some half_built) (pos 1 ∷ [])
    ≡ some (record { slice = pos 2; step = approved_step })
unfolding active_step_for same sorted_slices turned insert_slices insert_slice lookup active_step
    plan_made running_slice
shows = refl

active_step_for-IsActiveStep_example :
    IsActiveStep on_disk no_plan_found
      (pos 1 ∷ [])
      half_built.slices
      (active_step_for on_disk no_plan_found (some half_built) (pos 1 ∷ []))
active_step_for-IsActiveStep_example =
    active_step_for-IsActiveStep on_disk no_plan_found half_built (pos 1 ∷ [])
