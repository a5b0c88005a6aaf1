-- ===== src/Journal/RoundTrip.antt =====
-- A run that is written to the journal and loaded again (backend/infra/journal.go and
-- journalreader.go).
use saki_cli.Base.{◌<◌, ◌≡◌, refl, false, none, arith}
use saki_cli.Run.{resolve_engine, PendingResume, Run, unset, claude, build}
use saki_cli.World.{Host}
use saki_cli.Engine.Spawn.{spec_of, new_build_run}
use saki_cli.Engine.Resume.{successor_of}
use saki_cli.Journal.{to_record, of_record}

-- A run as a fresh process holds it: what is not journaled has its zero value.
unfoldable pub forgetful : Run → Run
forgetful r = record r {
  engine = unset;
  start_fingerprint = none;
  last_activity_at = 0;
  last_out_size = 0;
  stall_killed_at = none;
  stop_requested = false;
  finalizing = false;
}

-- A run that has a start time for its chain comes back from the journal with every durable field;
-- lost are the transient fields and the engine.
pub of_record-to_record : (r : Run) → 0 < r.first_started_at → of_record (to_record r) ≡ forgetful r
unfolding of_record to_record forgetful
of_record-to_record r h = ground arith

-- A run without one, as a plain run or an old record is, comes back with its own start for it.
pub of_record-to_record_plain :
    (r : Run)
    → r.first_started_at ≡ 0
    → of_record (to_record r) ≡ forgetful (record r { first_started_at = r.started_at })
unfolding of_record to_record forgetful
of_record-to_record_plain r h = ground arith

-- A second pass through the journal changes nothing more.
pub reload_stable :
    (r : Run) → of_record (to_record (of_record (to_record r))) ≡ of_record (to_record r)
unfolding of_record to_record
reload_stable r = ground arith

-- The engine is not in the record: whatever engine a build ran on, the successor that a resume
-- spawns for it after a restart is spawned on claude.
pub resumed_on_claude :
    (h : Host) (p : PendingResume) (r : Run)
    → (spec_of build (successor_of h p (of_record (to_record r)))).engine ≡ claude
unfolding spec_of successor_of new_build_run of_record to_record resolve_engine
resumed_on_claude h p r = refl
