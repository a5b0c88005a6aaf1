-- ===== src/Journal.antt =====
-- backend/infra/journal.go and journalreader.go: the record of a run on disk. Writing and reading
-- JSON is taken as the identity on records; a field that omitempty drops is the zero value that it
-- is read back as.
pub mod RoundTrip
use saki_cli.Base.{
  ℕ, Bool, true, false, ◌&&◌, Option, none, some, ◌==◌, if◌then◌else◌, Text, trim, gt_one, ℤ,
}
use saki_cli.Run.{Meta, PendingResume, Run, Status, unset}
use saki_cli.Engine.Watch.{RehydratedRun}

pub record RunRecord : Type 0 where
  pub id : Text
  pub status : Status
  pub exit_code : Option ℤ
  pub prompt : Text
  pub cwd : Option Text
  pub started_at : ℕ
  pub meta : Option Meta
  pub pid : Option ℤ
  pub config_dir : Option Text
  pub resume_count : ℕ
  pub no_progress_streak : ℕ
  pub first_started_at : ℕ
  pub pending_resume : Option PendingResume
  pub pushed_at : Option ℕ
  pub idempotency_key : Option Text

-- FileJournal.Write.
unfoldable pub to_record : Run → RunRecord
to_record r = record {
  id = r.id;
  status = r.status;
  exit_code = r.exit_code;
  prompt = r.prompt;
  cwd = r.cwd;
  started_at = r.started_at;
  meta = r.meta;
  pid = r.pid;
  config_dir = r.config_dir;
  resume_count = r.resume_count;
  no_progress_streak = r.no_progress_streak;
  first_started_at = r.first_started_at;
  pending_resume = r.pending_resume;
  pushed_at = r.pushed_at;
  idempotency_key = r.idempotency_key;
}

-- FileJournalReader.Load, one record: the fields that the record lacks have their zero values.
unfoldable pub of_record : RunRecord → Run
of_record rec = record {
  id = rec.id;
  status = rec.status;
  prompt = rec.prompt;
  cwd = rec.cwd;
  started_at = rec.started_at;
  meta = rec.meta;
  pid = rec.pid;
  exit_code = rec.exit_code;
  engine = unset;
  config_dir = rec.config_dir;
  resume_count = rec.resume_count;
  no_progress_streak = rec.no_progress_streak;
  first_started_at = if rec.first_started_at == 0 then rec.started_at else rec.first_started_at;
  pending_resume = rec.pending_resume;
  pushed_at = rec.pushed_at;
  idempotency_key = rec.idempotency_key;
  start_fingerprint = none;
  last_activity_at = 0;
  last_out_size = 0;
  stall_killed_at = none;
  stop_requested = false;
  finalizing = false;
}

-- readExitFile over the file's text, none where there is no file: the code, and whether it exists.
-- strconv.Atoi is the parameter.
unfoldable pub read_exit_file : (Text → Option ℤ) → Option Text → Option ℤ × Bool
unfolding trim
read_exit_file atoi none = (none, false)
read_exit_file atoi (some s) = (atoi (trim s), true)

abbrev pub pid_is_alive : (ℤ → Bool) → Option ℤ → Bool
pid_is_alive signal_ok none = false
pid_is_alive signal_ok (some p) = gt_one p && signal_ok p

-- What Load makes of a record, with the two facts on disk.
unfoldable pub load : (Text → Option ℤ) → (ℤ → Bool) → RunRecord → Option Text → RehydratedRun
unfolding of_record read_exit_file
load atoi signal_ok rec exit_file =
    let (code, has) = read_exit_file atoi exit_file in
    record {
      run = of_record rec;
      pid_alive = pid_is_alive signal_ok rec.pid;
      exit_code = code;
      has_exit = has;
    }
