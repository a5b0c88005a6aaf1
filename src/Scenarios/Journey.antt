-- ===== src/Scenarios/Journey.antt =====
-- A workflow of the PRD track on concrete answers.
use saki_cli.Workflow.Later.{IsEnough}
use saki_cli.Workflow.Turns.{observe-IsEnough}
use saki_cli.Base.{
  ◌≡◌, refl, ◌⊎◌, true, false, none, some, [], ◌∷◌, arith, codes, same, any, lookup, values, pos,
}
use saki_cli.Run.{Run, done, unset, codex}
use saki_cli.Outcome.Decision.{AwaitingDecision, fork}
use saki_cli.Workflow.Coordinator.{continue_by_id, Flows}
use saki_cli.Workflow.Answering.{continue_by_id-offered, GoesOn}
use saki_cli.Workflow.{
  Workflow, resolve, build_phase, verifying, flow_running, flow_awaiting, flow_done, prd_track,
  mark_started, mark_done,
}
use saki_cli.Workflow.Answers.{Target, BuildManifest, Answers, found, child_refused}
use saki_cli.Workflow.Phases.{persist, Flow}
use saki_cli.Workflow.Advance.{flow_of, advance, Advanced}
use saki_cli.Workflow.Observe.{rounds, observe}
use saki_cli.Workflow.Operator.{
  reopens, continue_flow, sweep_flow, stop_flow, refused_terminal, refused_option, continued,
}
use saki_cli.Workflow.Built.{Built}
use saki_cli.Workflow.Honest.{Backed}
use saki_cli.Workflow.Fuel.{advance-IsEnough}
use saki_cli.Workflow.Verdict.{sweep_flow-Built, continue_flow-Backed}
use saki_cli.Workflow.Stopping.{stop_flow_final}
use saki_cli.Scenarios.Setting.{repo_lane, at_work}

abbrev pub good_manifest : BuildManifest
good_manifest = record {
  prd = codes "p";
  slices =
      record {
        n = 1;
        status = codes "Done";
        steps = record { status = codes "done"; artifact = []; commit = codes "c1" } ∷ [];
      }
      ∷ [];
}

abbrev finished_child : Run
finished_child = record at_work { status = done; exit_code = some (pos 0) }

abbrev pub answers : Answers
answers = record {
  now = 50;
  save_ok = λ w. true;
  resolve_target = λ cwd target.
      found
        (record { cwd = codes "repo"; identity = codes "F7"; track = prd_track; path = codes "p" });
  read = λ path. some (codes "prd");
  is_locked = λ content. true;
  boxes = λ content. record { ticked = 0; total = 0 };
  proto_present = λ cwd path. true;
  manifest = λ cwd path. some (codes "state", good_manifest);
  same_contained_path = λ cwd left right. true;
  artifact_exists = λ cwd path. true;
  commit_exists = λ cwd sha. true;
  lock_prd = λ cwd path. (200, true);
  spawn_child = λ req. child_refused (codes "busy");
  store = (codes "b", finished_child) ∷ [];
  output = λ id. [];
  exit_text = λ code. [];
  decode = λ s. none;
}

abbrev pub in_build : Workflow
in_build = record {
  id = codes "w";
  lane_key = repo_lane;
  cwd = codes "repo";
  target = codes "F7";
  resolved_path = codes "p";
  engine = codex;
  config_dir = [];
  track = prd_track;
  phase = build_phase;
  child_run = codes "b";
  history =
      record { phase = build_phase; mark = mark_started; child = []; reason = []; at = 20 } ∷ [];
  status = flow_running;
  pending_until = 0;
  resume_count = 0;
  awaiting_decision = none;
  parked_reason = [];
  reason = [];
  evidence = none;
  idempotency_key = [];
  created_at = 10;
  updated_at = 20;
}

abbrev pub flow : Workflow → Flow
flow w = record { wf = w; saved = none; children = [] }

abbrev swept : Flow
swept = sweep_flow answers 3 (flow in_build)

swept_done : (swept.wf.status ≡ flow_done) × (swept.wf.track ≡ prd_track)
unfolding sweep_flow lookup values
swept_done = (refl, refl)

sweep_flow-Built_example :
    (v : Workflow) × (t : Target) × (v.cwd ≡ swept.wf.cwd)
    × (v.target ≡ swept.wf.target)
    × (answers.resolve_target v.cwd v.target ≡ found t)
    × Built answers v t.path
sweep_flow-Built_example = sweep_flow-Built answers 3 (flow in_build) refl swept_done.0 swept_done.1

abbrev question : AwaitingDecision
question = record { kind = fork; question = codes "?"; options = codes "yes" ∷ []; slice = none }

-- It waits for an answer, with everything built.
abbrev asking : Workflow
asking = record in_build {
  phase = verifying;
  child_run = [];
  status = flow_awaiting;
  awaiting_decision = some question;
  history =
      record { phase = build_phase; mark = mark_done; child = codes "b"; reason = []; at = 20 }
      ∷ [];
}

abbrev answered : Advanced
answered =
    advance answers rounds none unset (codes "yes")
      (persist answers (record (flow asking) { wf = reopens 50 (codes "yes") asking })).0

answered_yes :
    (continue_flow answers (codes "yes") (flow asking) ≡ continued answered)
    × ((flow_of answered).wf.status ≡ flow_done)
unfolding continue_flow
answered_yes = (refl, refl)

continue_flow-Backed_example : Backed answers (flow_of answered).wf
continue_flow-Backed_example =
    continue_flow-Backed answers (codes "yes") (flow asking) answered_yes.0 answered_yes.1

abbrev held : Flows
held = record { flows = (codes "w", flow asking) ∷ []; by_lane = []; by_idem = [] }

held_there : lookup (codes "w") held.flows ≡ some (flow asking)
unfolding lookup same
held_there = refl

continue_by_id-offered_example :
    let out = continue_by_id answers (codes "w") (codes "yes") held in
    ((any (same (codes "yes")) question.options ≡ true)
      × GoesOn answers (codes "w") (codes "yes") held (flow asking) out)
    ⊎ ((any (same (codes "yes")) question.options ≡ false) × (out ≡ (held, some refused_option)))
continue_by_id-offered_example =
    continue_by_id-offered answers (codes "w") (codes "yes") held (flow asking) question held_there
      refl refl

advance-IsEnough_example :
    IsEnough (advance answers 12 none unset [] (flow (record in_build { phase = resolve })))
advance-IsEnough_example =
    advance-IsEnough answers none unset [] 12 (flow (record in_build { phase = resolve })) refl
      (omega arith)

stop_answers : (stop_flow answers (flow in_build)).1 ≡ some (codes "b")
unfolding stop_flow
stop_answers = refl

stop_flow_final_example :
    let g = (stop_flow answers (flow in_build)).0 in
    (sweep_flow answers 3 g ≡ g)
    × (stop_flow answers g ≡ (g, none))
    × (continue_flow answers (codes "yes") g ≡ refused_terminal)
stop_flow_final_example =
    stop_flow_final answers answers (flow in_build) 3 (codes "yes") stop_answers

observe-IsEnough_example : IsEnough (observe answers none unset 2 (flow in_build))
unfolding lookup values same
observe-IsEnough_example = observe-IsEnough answers none unset 0 (flow in_build) refl (refl, tt)
