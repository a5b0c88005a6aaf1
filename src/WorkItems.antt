-- ===== src/WorkItems.antt =====
-- backend/domain/workitems.go: the manifest that a build keeps of its slices, and the point at which
-- a build that was cut short is resumed.

pub mod Sorting
pub mod FirstOpen
pub mod Active
use saki_cli.Base.{
  Bool, true, false, not, ◌&&◌, ◌||◌, Option, none, some, List, [], ◌∷◌, if◌then◌else◌, Text, codes,
  same, is_nil, any, Dict, lookup, ltz, eqz, ℤ,
}

pub record Step : Type 0 where
  pub status : Text
  pub artifact : Text
  pub commit : Text

-- ManifestSlice, without the title, which nothing reads.
pub record Slice : Type 0 where
  pub n : ℤ
  pub status : Text
  pub steps : Dict Step

-- BuildManifest. A slice list that is nil and an empty one give the same answers.
pub record Manifest : Type 0 where
  pub commit_policy : Text
  pub slices : List Slice

-- ResumeVerifiers.
pub record Verifiers : Type 0 where
  pub file_exists : Text → Bool
  pub commit_exists : Text → Bool

pub data StepName : Type 0 where
  rplan_step approved_step qa_step reviewer_step : StepName

-- The spelling of a step.
abbrev pub spelled : StepName → Text
spelled rplan_step = codes "rplan"
spelled approved_step = codes "approved"
spelled qa_step = codes "qa"
spelled reviewer_step = codes "reviewer"

-- ResumeTarget.
pub record ResumeTarget : Type 0 where
  pub slice : ℤ
  pub step : StepName

abbrev pub step_order : List StepName
step_order = rplan_step ∷ approved_step ∷ qa_step ∷ reviewer_step ∷ []

-- The insertion of the next slice into those before it, which stand last first: it is swapped
-- down while its number is less.
unfoldable pub insert_slice : Slice → List Slice → List Slice
insert_slice s [] = s ∷ []
insert_slice s (t ∷ ts) = if ltz s.n t.n then t ∷ insert_slice s ts else s ∷ t ∷ ts

-- The outer loop of sortedSlices.
unfoldable pub insert_slices : List Slice → List Slice → List Slice
insert_slices before [] = before
insert_slices before (s ∷ ss) = insert_slices (insert_slice s before) ss

unfoldable pub turned : List Slice → List Slice → List Slice
turned [] acc = acc
turned (s ∷ ss) acc = turned ss (s ∷ acc)

unfoldable pub sorted_slices : List Slice → List Slice
sorted_slices ss = turned (insert_slices [] ss) []

module _ (v : Verifiers) where
  -- The switch of stepVerified, on a step that is marked done.
  abbrev pub artifact_verified : StepName → Step → Bool
  artifact_verified rplan_step s = not (is_nil s.artifact) && v.file_exists s.artifact
  artifact_verified approved_step s = not (is_nil s.commit) && v.commit_exists s.commit
  artifact_verified qa_step s = false
  artifact_verified reviewer_step s = false

  abbrev pub found_verified : StepName → Option Step → Bool
  found_verified name none = false
  found_verified name (some s) = same s.status (codes "done") && artifact_verified name s

  unfoldable pub step_verified : StepName → Slice → Bool
  step_verified name s = found_verified name (lookup (spelled name) s.steps)

  abbrev pub is_rerun : StepName → Bool
  is_rerun rplan_step = false
  is_rerun approved_step = false
  is_rerun qa_step = true
  is_rerun reviewer_step = true

  -- The loop over stepOrder, and the return behind it.
  unfoldable pub open_step : Slice → List StepName → StepName
  open_step s [] = qa_step
  open_step s (name ∷ names) =
      let rest = open_step s names in
      if is_rerun name then name else if not (step_verified name s) then name else rest

  -- The test that passes over a slice.
  unfoldable pub is_complete : Slice → Bool
  is_complete s = same s.status (codes "done") && step_verified approved_step s

  unfoldable pub first_open : List Slice → Option ResumeTarget
  first_open [] = none
  first_open (s ∷ ss) =
      let rest = first_open ss in
      if is_complete s then rest else some (record { slice = s.n; step = open_step s step_order })

  -- ComputeResumeTarget.
  unfoldable pub compute_resume_target : Option Manifest → Option ResumeTarget
  compute_resume_target none = none
  compute_resume_target (some m) =
      if not (same m.commit_policy (codes "per-step"))
      then none
      else first_open (sorted_slices m.slices)

-- An int in a set that a list gives.
abbrev pub is_done_number : List ℤ → ℤ → Bool
is_done_number done n = any (eqz n) done

-- The first slice that is not among the completed ones.
unfoldable pub running_slice : List ℤ → List Slice → Option Slice
running_slice done [] = none
running_slice done (s ∷ ss) =
    let rest = running_slice done ss in if not (is_done_number done s.n) then some s else rest

-- The fields of the zero ManifestStep for a key that is not there.
abbrev pub artifact_of : Option Step → Text
artifact_of none = []
artifact_of (some s) = s.artifact

abbrev pub commit_of : Option Step → Text
commit_of none = []
commit_of (some s) = s.commit

module _ (v : Verifiers) (plan_exists : ℤ → Bool) where
  -- rplanDone.
  unfoldable pub plan_made : Slice → Bool
  plan_made s =
      let plan = artifact_of (lookup (spelled rplan_step) s.steps) in
      not (is_nil plan) && v.file_exists plan || plan_exists s.n

  unfoldable pub active_step : Slice → StepName
  active_step s =
      let commit = commit_of (lookup (spelled approved_step) s.steps) in
      if not (plan_made s)
      then rplan_step
      else if is_nil commit || not (v.commit_exists commit)
      then approved_step
      else qa_step

  abbrev pub step_of_running : Option Slice → Option ResumeTarget
  step_of_running none = none
  step_of_running (some s) = some (record { slice = s.n; step = active_step s })

  -- ActiveStepFor.
  unfoldable pub active_step_for : Option Manifest → List ℤ → Option ResumeTarget
  active_step_for none done = none
  active_step_for (some m) done = step_of_running (running_slice done (sorted_slices m.slices))
