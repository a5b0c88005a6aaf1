-- ===== src/Scenarios/Service.antt =====
-- The service of the workflows on concrete calls.
use saki_cli.Base.{
  ◌≡◌, refl, false, ◌||◌, Option, none, some, [], ◌∷◌, if◌then◌else◌, Text, codes, same, lookup,
  values,
}
use saki_cli.Run.{codex}
use saki_cli.Workflow.{build_phase, flow_running, flow_done, flow_failed, prd_track, mark_done}
use saki_cli.Workflow.Answers.{Target, Answers, unresolved, child_started}
use saki_cli.Workflow.Phases.{Flow}
use saki_cli.Workflow.Coordinator.{is_historical, start, Flows, StartRequest}
use saki_cli.Workflow.Resolve.{resolve_target}
use saki_cli.Planning.Disk.{Disk}
use saki_cli.Scenarios.Documents.{disk}
use saki_cli.Workflow.Rehydrate.{rehydrate, Stored}
use saki_cli.Workflow.Trusted.{rehydrate-Backed}
use saki_cli.Workflow.Honest.{Backed}
use saki_cli.Workflow.OneLive.{Reached-one_live, built, starts}
use saki_cli.Scenarios.Setting.{at_work}
use saki_cli.Scenarios.Journey.{good_manifest, answers, in_build, flow}

abbrev request : StartRequest
request = record {
  cwd = codes "/repo";
  target = codes "F7";
  config_dir = none;
  engine = codex;
  idempotency_key = codes "key";
}

-- A spawner that starts the child.
abbrev spawning : Answers
spawning = record answers { spawn_child = λ req. child_started at_work }

abbrev no_flows : Flows
no_flows = record { flows = []; by_lane = []; by_idem = [] }

-- The first workflow fails since the child is refused; the second one runs.
abbrev after_failure : Flows
after_failure = (start answers (codes "w1") request no_flows).0

abbrev restarted : Flows
restarted = (start spawning (codes "w2") request after_failure).0

abbrev or_flow : Flow → Option Flow → Flow
or_flow f none = f
or_flow f (some g) = g

abbrev owner : Flow
owner = or_flow (flow in_build) (lookup (codes "w2") restarted.flows)

abbrev loser : Flow
loser = or_flow (flow in_build) (lookup (codes "w1") restarted.flows)

failed_first : (loser.wf.status ≡ flow_failed) × (owner.wf.status ≡ flow_running)
unfolding start lookup values
failed_first = (refl, refl)

owner_there : lookup (codes "w2") restarted.flows ≡ some owner
unfolding start lookup values
owner_there = refl

owner_live : is_historical owner.wf.status ≡ false
unfolding start lookup values
owner_live = refl

Reached-one_live_example :
    (codes "w2" ≡ codes "w2") × (lookup owner.wf.lane_key restarted.by_lane ≡ some (codes "w2"))
Reached-one_live_example =
    Reached-one_live
      (starts spawning (codes "w2") request (starts answers (codes "w1") request built))
      (codes "w2") (codes "w2") owner owner owner_there owner_there refl owner_live owner_live

-- A workflow that the journal says is done, and one of its lane that was stopped.
abbrev done_record : Stored
done_record = record {
  fields = record in_build {
    id = codes "w3";
    lane_key = codes "/repo::F7";
    cwd = codes "/repo";
    child_run = [];
    history =
        record { phase = build_phase; mark = mark_done; child = codes "b"; reason = []; at = 20 }
        ∷ [];
    evidence = some (record {
      checked_paths = codes "old" ∷ [];
      commit_ids = [];
      verdicts = [];
      verified_at = 5;
    });
  };
  status_text = codes "done";
  track_text = codes "PRD";
  phase_text = codes "verify";
}

abbrev stopped_record : Text → Stored
stopped_record id = record done_record {
  fields = record (done_record.fields) { id = id };
  status_text = codes "stopped";
}

abbrev booted : Flows
booted =
    rehydrate answers 3 (codes "/") (some (done_record ∷ stopped_record (codes "w4") ∷ [])) no_flows

abbrev recovered : Flow
recovered = or_flow (flow in_build) (lookup (codes "w3") booted.flows)

recovered_there :
    (lookup (codes "w3") booted.flows ≡ some recovered) × (recovered.wf.status ≡ flow_done)
unfolding rehydrate lookup values
recovered_there = (refl, refl)

rehydrate-Backed_example : Backed answers recovered.wf
rehydrate-Backed_example =
    rehydrate-Backed answers 3 (codes "/") (done_record ∷ stopped_record (codes "w4") ∷ []) no_flows
      (codes "w3") recovered recovered_there.0 recovered_there.1

-- The reason of a workflow in the maps.
abbrev reason_at : Option Flow → Text
reason_at none = []
reason_at (some f) = f.wf.reason

-- Two stopped workflows of one lane are both refused by a boot.
stopped_refused :
    reason_at (
      lookup
        (codes "w4")
        (rehydrate answers 3
          (codes "/")
          (some (stopped_record (codes "w4") ∷ stopped_record (codes "w5") ∷ []))
          no_flows).flows)
    ≡ codes "duplicate workflow lane in journal; refusing recovery"
unfolding rehydrate lookup values
stopped_refused = refl

-- A record with a phase of the other track is dropped.
other_track_dropped :
    (rehydrate answers 3
      (codes "/")
      (some (record done_record { phase_text = codes "qa" } ∷ []))
      no_flows).flows
    ≡ []
unfolding rehydrate
other_track_dropped = refl

abbrev tree : Disk
tree = record disk { read = λ p. none }

abbrev document : Target
document = record {
  cwd = codes "/r";
  identity = codes "/r/tasks/prd-a.md";
  track = prd_track;
  path = codes "/r/tasks/prd-a.md";
}

-- A path that leaves the directory is refused.
escape_refused :
    resolve_target tree (codes "/") (codes "/r") (codes "../tasks/prd-a.md")
    ≡ unresolved (codes "workflow target could not be resolved: target path escapes cwd")
unfolding resolve_target
escape_refused = refl

-- A locked PRD with a preview beside it.
abbrev locked_tree : Disk
locked_tree = record disk {
  exists =
      λ p. same p (codes "/r/tasks/prd-a.md") || same p (codes "/r/tasks/proto-a/preview.html");
  read = λ p.
      if same p (codes "/r/tasks/prd-a.md")
      then some (codes "<!-- prd-locked: @ana · 2026-02-03 · ui:none -->\n# PRD\n")
      else none;
}

abbrev ports : Answers
ports = record answers {
  manifest =
      λ cwd path. some (codes "state", record good_manifest { prd = codes "tasks/prd-a.md" });
}

abbrev on_tree : Flow
on_tree = flow (record in_build {
  cwd = codes "/r";
  target = codes "tasks/prd-a.md";
  resolved_path = codes "/r/tasks/prd-a.md";
})
