-- ===== src/Run.antt =====
-- backend/domain/run.go: a run, the lane it belongs to, and the chain state of a build.
-- Times are milliseconds as natural numbers; a pid and an exit code are integers.
use saki_cli.Base.{ℕ, Bool, true, false, Option, none, some, Text, codes, same, ℤ}

pub data Status : Type 0 where
  running done error : Status

abbrev pub is_running : Status → Bool
is_running running = true
is_running _ = false

pub data RunEngine : Type 0 where
  unset claude opencode codex omp : RunEngine
  other_engine : Text → RunEngine

unfoldable pub resolve_engine : RunEngine → RunEngine
resolve_engine unset = claude
resolve_engine (other_engine t) = other_engine t
resolve_engine e = e

-- The kind of a run; the zero value of Go is the empty `other_kind`.
pub data RunKind : Type 0 where
  build init : RunKind
  other_kind : Text → RunKind

abbrev pub is_build : RunKind → Bool
is_build build = true
is_build _ = false

abbrev pub is_init : RunKind → Bool
is_init init = true
is_init _ = false

abbrev pub same_kind : RunKind → RunKind → Bool
same_kind build build = true
same_kind init init = true
same_kind (other_kind s) (other_kind t) = same s t
same_kind _ _ = false

pub record Meta : Type 0 where
  pub kind : RunKind
  pub lane_key : Text

pub record PendingResume : Type 0 where
  pub successor_id : Text
  pub resume_at : ℕ
  pub resume_count : ℕ
  pub no_progress_streak : ℕ
  pub first_started_at : ℕ
  pub spawn_attempts : ℕ

pub data RedriveCause : Type 0 where
  exit : Option ℤ → RedriveCause
  user_stop interrupted spawn_error : RedriveCause

pub record Run : Type 0 where
  pub id : Text
  pub status : Status
  pub prompt : Text
  pub cwd : Option Text
  pub started_at : ℕ
  pub meta : Option Meta
  pub pid : Option ℤ
  pub exit_code : Option ℤ
  pub engine : RunEngine
  pub config_dir : Option Text
  pub resume_count : ℕ
  pub no_progress_streak : ℕ
  pub first_started_at : ℕ
  pub pending_resume : Option PendingResume
  pub pushed_at : Option ℕ
  pub idempotency_key : Option Text
  pub start_fingerprint : Option Text
  pub last_activity_at : ℕ
  pub last_out_size : ℕ
  pub stall_killed_at : Option ℕ
  pub stop_requested : Bool
  pub finalizing : Bool

-- kindOf and laneKeyOf of usecase/buildengine.go.
abbrev pub kind_of_meta : Option Meta → RunKind
kind_of_meta none = other_kind (codes "")
kind_of_meta (some m) = m.kind

abbrev pub kind_of : Run → RunKind
kind_of r = kind_of_meta r.meta

abbrev pub lane_key_of : Option Meta → Text
lane_key_of none = codes ""
lane_key_of (some m) = m.lane_key

-- `domain.Run{}` with the given id.
unfoldable pub zero_run : Text → Run
zero_run i = record {
  id = i;
  status = error;
  prompt = codes "";
  cwd = none;
  started_at = 0;
  meta = none;
  pid = none;
  exit_code = none;
  engine = unset;
  config_dir = none;
  resume_count = 0;
  no_progress_streak = 0;
  first_started_at = 0;
  pending_resume = none;
  pushed_at = none;
  idempotency_key = none;
  start_fingerprint = none;
  last_activity_at = 0;
  last_out_size = 0;
  stall_killed_at = none;
  stop_requested = false;
  finalizing = false;
}
