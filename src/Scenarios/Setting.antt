-- ===== src/Scenarios/Setting.antt =====
-- A concrete host, a request for a build, and the states that the scenarios start from.
use Prim.Native.Nat.{ℕ, ◌+◌}
use saki_cli.Base.{true, false, none, some, [], ◌∷◌, ◌++◌, Text, codes, pos}
use saki_cli.Run.{PendingResume, Run, running, error, codex, build}
use saki_cli.World.{World, Host, started}
use saki_cli.Engine.Config.{BuildConfig}
use saki_cli.Engine.Spawn.{BuildSpawnReq}
use saki_cli.Outcome.Limit.{LocalTime}

-- The clock of a place where it is always the hour that is asked for.
abbrev pub clock : LocalTime
clock = record { clock_at = λ now h m. now; next_day = λ t. t + 86400000 }

abbrev pub settings : BuildConfig
settings = record {
  max_build_resumes = 40;
  resume_base_ms = 5000;
  max_backoff_ms = 300000;
  no_progress_limit = 3;
  max_wall_ms = 21600000;
  limit_wait_ms = 3600000;
  stall_ms = 1800000;
  auto_push = true;
}

abbrev pub host_at : ℕ → Host
host_at t = record {
  now = t;
  writable = true;
  write_ok = λ r. true;
  append_ok = λ i. true;
  spawn = λ s. started (pos 77);
  new_id = λ n. codes "run" ++ n ∷ [];
  fingerprint = λ r. none;
  out_size = λ i. 0;
  alive = λ p. true;
  decode = λ s. none;
  local = clock;
  cfg = settings;
}

abbrev pub empty_world : World
empty_world = record { runs = []; journal = []; outs = []; idem = []; effects = []; ids = 0 }

abbrev pub repo_lane : Text
repo_lane = codes "repo"

abbrev pub asked : BuildSpawnReq
asked = record {
  prompt = codes "build";
  cwd = some (codes "repo");
  config_dir = none;
  meta = some (record { kind = build; lane_key = repo_lane });
  idempotency_key = some (codes "key");
  engine = codex;
}

-- A build that has run for a while.
abbrev pub at_work : Run
at_work = record {
  id = codes "b";
  status = running;
  prompt = codes "build";
  cwd = some (codes "repo");
  started_at = 10;
  meta = some (record { kind = build; lane_key = repo_lane });
  pid = some (pos 77);
  exit_code = none;
  engine = codex;
  config_dir = none;
  resume_count = 2;
  no_progress_streak = 0;
  first_started_at = 10;
  pending_resume = none;
  pushed_at = none;
  idempotency_key = none;
  start_fingerprint = none;
  last_activity_at = 10;
  last_out_size = 0;
  stall_killed_at = none;
  stop_requested = false;
  finalizing = false;
}

abbrev pub next_turn : PendingResume
next_turn = record {
  successor_id = codes "c";
  resume_at = 20;
  resume_count = 3;
  no_progress_streak = 0;
  first_started_at = 10;
  spawn_attempts = 0;
}

-- It has ended, and its next turn is pending.
abbrev pub paused_run : Run
paused_run = record at_work { status = error; pending_resume = some next_turn }

abbrev pub world_of : Run → World
world_of r = record empty_world { runs = (r.id, r) ∷ [] }
