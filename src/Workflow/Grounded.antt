-- ===== src/Workflow/Grounded.antt =====
-- Sweep of backend/usecase/workflow.go where its answers are those of a disk.
use saki_cli.Base.{◌≡◌, true, false, some, Text, is_empty}
use saki_cli.Paths.{clean, abs, contained}
use saki_cli.Planning.Disk.{Disk}
use saki_cli.Planning.Lock.{is_locked}
use saki_cli.Planning.Preview.{find_proto_preview}
use saki_cli.Workflow.{Workflow}
use saki_cli.Workflow.Answers.{Answers}

-- What a done PRD workflow stands for on a disk: a PRD inside its directory, with the lock marker in
-- its text, and a preview of it.
pub record OnDisk (d : Disk) (wd cwd : Text) : Type 0 where
  pub path : Text
  pub within : contained (clean (abs wd cwd)) path ≡ true
  pub there : d.exists path ≡ true
  pub content : Text
  pub text : d.read path ≡ some content
  pub is_marked : is_locked content ≡ true
  pub preview : is_empty (find_proto_preview d cwd path) ≡ false
