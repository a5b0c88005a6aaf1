-- ===== src/Workflow/Adapter.antt =====
-- WorkflowChildAdapter of backend/usecase/workflow.go: the phases of a workflow on the two services
-- that run agents.
use saki_cli.Base.{Bool, ◌&&◌, Option, none, some, if◌then◌else◌, is_some, Text}
use saki_cli.Run.{is_build, kind_of, Meta, Run}
use saki_cli.Store.{get}
use saki_cli.World.{World, Host}
use saki_cli.Engine.Spawn.{spawn_build, BuildSpawnReq, Spawned}
use saki_cli.Engine.Watch.{stop}
use saki_cli.Service.Spawn.{spawn_run, SpawnReq}
use saki_cli.Service.Lifecycle.{stop_run}
use saki_cli.Workflow.Answers.{ChildRequest}

abbrev pub meta_of : ChildRequest → Meta
meta_of req = record { kind = req.kind; lane_key = req.lane_key }

abbrev pub as_build_request : ChildRequest → BuildSpawnReq
as_build_request req = record {
  prompt = req.prompt;
  cwd = some req.cwd;
  config_dir = req.config_dir;
  meta = some (meta_of req);
  idempotency_key = none;
  engine = req.engine;
}

abbrev pub as_run_request : ChildRequest → SpawnReq
as_run_request req = record {
  prompt = req.prompt;
  cwd = some req.cwd;
  config_dir = req.config_dir;
  meta = some (meta_of req);
  engine = req.engine;
}

module _ (h : Host) where
  -- SpawnWorkflowChild.
  unfoldable pub spawn_child : ChildRequest → World → World × Spawned
  unfolding spawn_build spawn_run
  spawn_child req w =
      if req.as_build
      then spawn_build h (as_build_request req) w
      else spawn_run h (as_run_request req) w

  abbrev pub stop_owned : Text → Option Run → World → World × Bool
  stop_owned id none w = stop_run h id w
  stop_owned id (some run) w =
      if is_some run.meta && is_build (kind_of run) then stop h id w else stop_run h id w

  -- StopWorkflowChild, with the StopService that the server gives.
  unfoldable pub stop_child : Text → World → World × Bool
  unfolding get stop stop_run
  stop_child id w = stop_owned id (get id w.runs) w
