-- ===== src/Workflow/Targets.antt =====
-- resolve of backend/usecase/workflow.go, and the working directory of its target.
use saki_cli.Base.{◌≡◌, ◌⊎◌, true, Text, is_empty}
use saki_cli.Paths.{contained}
use saki_cli.Planning.Disk.{Disk}
use saki_cli.Workflow.Answers.{Resolved, found, unresolved}

module _ (d : Disk) where
  -- No path, or one inside the root that is on the disk.
  abbrev pub Inside : Text → Text → Type 0
  Inside root path =
      (is_empty path ≡ true) ⊎ ((contained root path ≡ true) × (d.exists path ≡ true))

  abbrev TargetInside : Text → Resolved → Type 0
  TargetInside root (unresolved why) = Unit
  TargetInside root (found t) = (t.cwd ≡ root) × Inside root t.path
