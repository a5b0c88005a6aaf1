-- ===== src/Workflow/Answers.antt =====
-- What the ports of backend/usecase/workflow.go answer during one operation of the coordinator.
use saki_cli.Base.{ℕ, Bool, Option, List, Text, ℤ}
use saki_cli.Run.{Run, RunEngine, RunKind}
use saki_cli.Json.{Json}
use saki_cli.Store.{Runs}
use saki_cli.Stream.Ndjson.{ParsedLine}
use saki_cli.Workflow.{Workflow, Track}

-- workflowTarget; an empty path is a target without an artifact.
pub record Target : Type 0 where
  pub cwd : Text
  pub identity : Text
  pub track : Track
  pub path : Text

pub data Resolved : Type 0 where
  found : Target → Resolved
  unresolved : Text → Resolved

-- WorkflowChildRequest, without the request key, which the coordinator never sets.
pub record ChildRequest : Type 0 where
  pub prompt : Text
  pub cwd : Text
  pub config_dir : Option Text
  pub kind : RunKind
  pub lane_key : Text
  pub engine : RunEngine
  pub as_build : Bool

pub data ChildResult : Type 0 where
  child_started : Run → ChildResult
  child_refused : Text → ChildResult

pub record ManifestStep : Type 0 where
  pub status : Text
  pub artifact : Text
  pub commit : Text

pub record ManifestSlice : Type 0 where
  pub n : ℕ
  pub status : Text
  pub steps : List ManifestStep

pub record BuildManifest : Type 0 where
  pub prd : Text
  pub slices : List ManifestSlice

-- The checkboxes of a plan.
pub record Boxes : Type 0 where
  pub ticked : ℕ
  pub total : ℕ

pub record Answers : Type 0 where
  pub now : ℕ
  -- EnsureWritable and Write of the workflow journal
  pub save_ok : Workflow → Bool
  -- resolve, of the working directory and the target
  pub resolve_target : Text → Text → Resolved
  -- Read of the file system
  pub read : Text → Option Text
  -- IsLocked and ClassifyCheckboxes, of a content
  pub is_locked : Text → Bool
  pub boxes : Text → Boxes
  pub proto_present : Text → Text → Bool
  -- readManifest, with the path that it was read from
  pub manifest : Text → Text → Option (Text × BuildManifest)
  pub same_contained_path : Text → Text → Text → Bool
  pub artifact_exists : Text → Text → Bool
  pub commit_exists : Text → Text → Bool
  -- Lock of the working directory and the path: the HTTP status, and bodyOK
  pub lock_prd : Text → Text → ℕ × Bool
  pub spawn_child : ChildRequest → ChildResult
  pub store : Runs
  pub output : Text → List ParsedLine
  -- %v of a pointer to an exit code
  pub exit_text : Option ℤ → Text
  pub decode : Text → Option Json
