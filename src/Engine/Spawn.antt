-- ===== src/Engine/Spawn.antt =====
-- SpawnBuild, newBuildRun and reserveAndSpawn of backend/usecase/buildengine.go, with the
-- idempotency map.
use saki_cli.Base.{
  ℕ, Bool, true, false, Option, none, some, if◌then◌else◌, Text, is_empty, lookup, insert,
}
use saki_cli.Run.{
  resolve_engine, lane_key_of, zero_run, Meta, Run, running, RunEngine, RunKind, build,
}
use saki_cli.Store.{Runs, get, set_pid, delete, reserve_build}
use saki_cli.World.{
  log, take_id, write, SpawnSpec, World, Host, SpawnResult, started, failed, Failure, no_prompt,
  runs_dir_unwritable, not_spawned, spawned,
}

pub record BuildSpawnReq : Type 0 where
  pub prompt : Text
  pub cwd : Option Text
  pub config_dir : Option Text
  pub meta : Option Meta
  pub idempotency_key : Option Text
  pub engine : RunEngine

pub record BuildRunSpec : Type 0 where
  pub id : Text
  pub prompt : Text
  pub cwd : Option Text
  pub config_dir : Option Text
  pub idem : Option Text
  pub meta : Option Meta
  pub engine : RunEngine
  pub resume_count : ℕ
  pub streak : ℕ
  pub first_started_at : ℕ
  pub started_at : ℕ

pub data SpawnState : Type 0 where
  spawn_started spawn_deduped : SpawnState

pub data Spawned : Type 0 where
  ok : Run → SpawnState → Spawned
  err : Failure → Spawned

-- The id that a recorded key maps to is looked up in the store.
unfoldable pub lookup_idem : Text → World → Option Run
unfolding get
lookup_idem key w = elim (lookup key w.idem) [ none ↦ none | some id ↦ get id w.runs ]

unfoldable pub record_idem : Text → Text → World → World
record_idem key id w = record w { idem = insert key id w.idem }

unfoldable pub spec_of : RunKind → Run → SpawnSpec
spec_of kind r = record {
  id = r.id;
  prompt = r.prompt;
  cwd = r.cwd;
  config_dir = r.config_dir;
  kind = kind;
  engine = r.engine;
}

module _ (h : Host) where
  unfoldable pub new_build_run : BuildRunSpec → Run
  unfolding resolve_engine
  new_build_run s =
      let r : Run = record {
        id = s.id;
        status = running;
        prompt = s.prompt;
        cwd = s.cwd;
        started_at = s.started_at;
        meta = s.meta;
        pid = none;
        exit_code = none;
        engine = resolve_engine s.engine;
        config_dir = s.config_dir;
        resume_count = s.resume_count;
        no_progress_streak = s.streak;
        first_started_at = s.first_started_at;
        pending_resume = none;
        pushed_at = none;
        idempotency_key = s.idem;
        start_fingerprint = none;
        last_activity_at = s.started_at;
        last_out_size = 0;
        stall_killed_at = none;
        stop_requested = false;
        finalizing = false;
      } in
      record r { start_fingerprint = h.fingerprint r }

  -- The run in the store and on disk; the process is spawned, or the run is deleted again.
  unfoldable pub spawn_reserved : RunKind → Run → SpawnResult → World → World × Spawned
  unfolding spec_of set_pid delete write
  spawn_reserved kind run (failed x) w =
      (record w { runs = delete run.id w.runs }, err (not_spawned x))
  spawn_reserved kind run (started pid) w =
      let run' = record run { pid = some pid } in
      let w1 = log (spawned (spec_of kind run)) (record w { runs = set_pid run.id pid w.runs }) in
      ((write h run' w1).0, ok run' spawn_started)

  unfoldable pub spawn_written : RunKind → Run → World × Bool → World × Spawned
  unfolding spawn_reserved delete spec_of
  spawn_written kind run (w, true) = spawn_reserved kind run (h.spawn (spec_of kind run)) w
  spawn_written kind run (w, false) =
      (record w { runs = delete run.id w.runs }, err runs_dir_unwritable)

  -- journal.Write before the spawn; its failure deletes the run again.
  unfoldable pub journal_and_spawn : RunKind → Run → World → World × Spawned
  unfolding spawn_written write
  journal_and_spawn kind run w = spawn_written kind run (write h run w)

  abbrev pub readopted : Option Run → Text → Spawned
  readopted (some existing) id = ok existing spawn_deduped
  readopted none id = ok (zero_run id) spawn_deduped

  abbrev pub after_reserve : Run → Runs × Option Text → World → World × Spawned
  after_reserve run (m, some existing) w = (w, readopted (get existing m) existing)
  after_reserve run (m, none) w = journal_and_spawn build run (record w { runs = m })

  unfoldable pub reserve_and_spawn : Run → Text → World → World × Spawned
  unfolding journal_and_spawn get reserve_build zero_run
  reserve_and_spawn run lane w =
      if h.writable
      then after_reserve run (reserve_build lane run w.runs) w
      else (w, err runs_dir_unwritable)

  abbrev pub remember : Option Text → World × Spawned → World × Spawned
  remember (some key) (w, ok run state) = (record_idem key run.id w, ok run state)
  remember _ (w, res) = (w, res)

  abbrev pub known_key : Option Text → World → Option Run
  known_key none w = none
  known_key (some key) w = lookup_idem key w

  abbrev pub request_spec : BuildSpawnReq → Text → BuildRunSpec
  request_spec req id = record {
    id = id;
    prompt = req.prompt;
    cwd = req.cwd;
    config_dir = req.config_dir;
    idem = req.idempotency_key;
    meta = req.meta;
    engine = req.engine;
    resume_count = 0;
    streak = 0;
    first_started_at = h.now;
    started_at = h.now;
  }

  abbrev pub spawn_fresh : BuildSpawnReq → Option Run → World → World × Spawned
  spawn_fresh req (some existing) w = (w, ok existing spawn_deduped)
  spawn_fresh req none w =
      let run = new_build_run (request_spec req (h.new_id w.ids)) in
      remember req.idempotency_key (reserve_and_spawn run (lane_key_of req.meta) (take_id w))

  unfoldable pub spawn_build : BuildSpawnReq → World → World × Spawned
  unfolding reserve_and_spawn new_build_run lookup_idem record_idem
  spawn_build req w =
      if is_empty req.prompt
      then (w, err no_prompt)
      else spawn_fresh req (known_key req.idempotency_key w) w
