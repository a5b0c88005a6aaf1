-- ===== src/Service/Spawn.antt =====
-- backend/usecase/spawn.go: Spawn and SpawnInit of RunService. The goroutine that waits for the
-- process is `exit_observed` of Service/Lifecycle.
use saki_cli.Base.{Bool, true, false, Option, none, some, if◌then◌else◌, Text, is_empty}
use saki_cli.Run.{
  resolve_engine, kind_of_meta, lane_key_of, zero_run, Meta, Run, running, RunEngine, RunKind, init,
}
use saki_cli.Store.{Runs, put, get, set_pid, delete, reserve_init}
use saki_cli.World.{
  log, take_id, write, World, Host, SpawnResult, started, failed, no_prompt, runs_dir_unwritable,
  not_spawned, spawned,
}
use saki_cli.Engine.Spawn.{spec_of, readopted, spawn_started, Spawned, ok, err}

pub record SpawnReq : Type 0 where
  pub prompt : Text
  pub cwd : Option Text
  pub config_dir : Option Text
  pub meta : Option Meta
  pub engine : RunEngine

module _ (h : Host) where
  unfoldable pub request_run : SpawnReq → Text → Run
  unfolding zero_run resolve_engine
  request_run req id = record (zero_run id) {
    status = running;
    prompt = req.prompt;
    cwd = req.cwd;
    started_at = h.now;
    meta = req.meta;
    config_dir = req.config_dir;
    engine = resolve_engine req.engine;
  }

  abbrev pub spawn_put : RunKind → Run → SpawnResult → World → World × Spawned
  spawn_put kind run (failed x) w = (record w { runs = delete run.id w.runs }, err (not_spawned x))
  spawn_put kind run (started pid) w =
      let run' = record run { pid = some pid } in
      let w1 = log (spawned (spec_of kind run)) (record w { runs = set_pid run.id pid w.runs }) in
      ((write h run' w1).0, ok run' spawn_started)

  abbrev pub run_written : RunKind → Run → World × Bool → World × Spawned
  run_written kind run (w, false) = (w, err runs_dir_unwritable)
  run_written kind run (w, true) =
      spawn_put kind run (h.spawn (spec_of kind run)) (record w { runs = put run w.runs })

  -- RunService.Spawn: the journal first, then the store, then the process.
  unfoldable pub spawn_run : SpawnReq → World → World × Spawned
  unfolding request_run put delete set_pid write spec_of
  spawn_run req w =
      let run = request_run req (h.new_id w.ids) in
      if is_empty req.prompt
      then (w, err no_prompt)
      else if h.writable
      then run_written (kind_of_meta req.meta) run (write h run (take_id w))
      else (w, err runs_dir_unwritable)

  abbrev pub init_written : Run → World × Bool → World × Spawned
  init_written run (w, false) = (record w { runs = delete run.id w.runs }, err runs_dir_unwritable)
  init_written run (w, true) = spawn_put init run (h.spawn (spec_of init run)) w

  abbrev pub init_reserved : Run → Runs × Option Text → World → World × Spawned
  init_reserved run (m, some existing) w = (w, readopted h (get existing m) existing)
  init_reserved run (m, none) w = init_written run (write h run (record w { runs = m }))

  -- RunService.SpawnInit: the lane is reserved before the journal is written.
  unfoldable pub spawn_init : SpawnReq → World → World × Spawned
  unfolding request_run reserve_init get delete set_pid write spec_of zero_run
  spawn_init req w =
      let run = request_run req (h.new_id w.ids) in
      let w1 = take_id w in
      if is_empty req.prompt
      then (w, err no_prompt)
      else if h.writable
      then init_reserved run (reserve_init (lane_key_of req.meta) run w1.runs) w1
      else (w, err runs_dir_unwritable)
