-- ===== src/Workflow/Observe.antt =====
-- observeLocked of backend/usecase/workflow.go: what a workflow makes of its child run.
use saki_cli.Workflow.Child.{phase_name, is_build_phase, find_live_child, count_of, takes}
use saki_cli.Base.{
  ℕ, zero, suc, Bool, true, false, not, ◌&&◌, ◌||◌, Option, none, some, List, [], ◌∷◌, ◌++◌, ltb,
  if◌then◌else◌, is_some, Text, codes, same, is_empty, has_prefix, to_lower, trim, any, values,
}
use saki_cli.Run.{
  is_running, is_build, kind_of, lane_key_of, PendingResume, Run, Status, done, RunEngine,
}
use saki_cli.Store.{get}
use saki_cli.Stream.Ndjson.{ParsedLine, json, raw}
use saki_cli.Stream.Spoken.{final_spoken_text}
use saki_cli.Outcome.Decision.{parse_decision, AwaitingDecision}
use saki_cli.Outcome.Parked.{parked_reason_of}
use saki_cli.Workflow.{Workflow, flow_parked, flow_awaiting}
use saki_cli.Workflow.Answers.{Answers}
use saki_cli.Workflow.Phases.{persist, complete_phase, fail, Flow}
use saki_cli.Workflow.Advance.{settle, advance, Advanced, settled, unsaved, out_of_rounds}

-- The final text that reports a block, without the white space around it.
abbrev pub spoken_block : Option Text → Text
spoken_block none = []
spoken_block (some s) =
    let t = trim s in
    if has_prefix (codes "BLOCKED:") t || has_prefix (codes "HARD STOP") t then t else []

-- workflowParkReason.
unfoldable pub park_reason : List ParsedLine → Text
unfolding parked_reason_of final_spoken_text trim has_prefix
park_reason ls =
    let reason = parked_reason_of ls in
    if is_empty reason then spoken_block (final_spoken_text ls) else reason

abbrev pub is_push_result : ParsedLine → Bool
is_push_result (json v) = false
is_push_result (raw s) =
    let t = to_lower (trim s) in
    has_prefix (codes "pushed ") t
    || has_prefix (codes "push skipped:") t
    || has_prefix (codes "push failed:") t

-- pushResultRecorded.
unfoldable pub push_recorded : List ParsedLine → Bool
unfolding to_lower trim has_prefix
push_recorded ls = any is_push_result ls

abbrev pub on_lane : Text → Run → Bool
on_lane lane r = is_some r.meta && same (lane_key_of r.meta) lane

-- What a successor shares with its predecessor.
abbrev pub same_chain : Text → Run → Run → Bool
same_chain lane pred r =
    not (same r.id pred.id) && on_lane lane r && is_build (kind_of r) && same r.prompt pred.prompt

-- The loop of findBuildSuccessor, with the highest count so far.
unfoldable pub best_successor : Text → Run → ℕ → Option Run → List Run → Option Run
unfolding same
best_successor lane pred most best [] = best
best_successor lane pred most best (r ∷ rs) =
    let taken = best_successor lane pred r.resume_count (some r) rs in
    let passed = best_successor lane pred most best rs in
    if same_chain lane pred r && ltb most r.resume_count then taken else passed

-- findBuildSuccessor.
unfoldable pub find_build_successor : Workflow → Run → List Run → Option Run
unfolding best_successor
find_build_successor w pred rs =
    if is_build_phase w.phase && is_some pred.meta
    then best_successor w.lane_key pred pred.resume_count none rs
    else none

-- A running build on the lane.
unfoldable pub find_running_build : Text → List Run → Option Run
unfolding same
find_running_build lane [] = none
find_running_build lane (r ∷ rs) =
    let rest = find_running_build lane rs in
    if is_running r.status && is_build (kind_of r) && on_lane lane r then some r else rest

abbrev pub follows : Run → Workflow → Workflow
follows r w = record w { child_run = r.id; resume_count = r.resume_count; pending_until = 0 }

abbrev pub waits_for : PendingResume → Workflow → Workflow
waits_for p w = record w { resume_count = p.resume_count; pending_until = p.resume_at }

abbrev pub asks : AwaitingDecision → Workflow → Workflow
asks d w = record w {
  status = flow_awaiting;
  awaiting_decision = some d;
  reason = d.question;
  child_run = [];
}

abbrev pub parks : Text → Workflow → Workflow
parks why w = record w { status = flow_parked; parked_reason = why; reason = why; child_run = [] }

abbrev pub is_done_run : Status → Bool
is_done_run done = true
is_done_run _ = false

-- More rounds than there are phases.
abbrev pub rounds : ℕ
rounds = 13

module _ (h : Answers) (config : Option Text) (engine : RunEngine) where
  abbrev pub go_on : Flow × Bool → Advanced
  go_on (f, false) = unsaved f
  go_on (f, true) = advance h rounds config engine [] f

  abbrev pub judge : Run → List ParsedLine → Flow → Advanced
  judge run ls f =
      let why = park_reason ls in
      if not (is_empty why)
      then settle (persist h (record f { wf = parks why f.wf }))
      else if not (is_done_run run.status)
      then settle (
          fail h
            (codes "child phase "
              ++ phase_name f.wf.phase
              ++ codes " failed (exit "
              ++ h.exit_text run.exit_code
              ++ codes ")")
            f)
      else go_on (complete_phase h (codes "child completed") f)

  abbrev pub decided : Option AwaitingDecision → Run → List ParsedLine → Flow → Advanced
  decided (some d) run ls f = settle (persist h (record f { wf = asks d f.wf }))
  decided none run ls f = judge run ls f

  -- A child that has ended, and that no turn follows.
  unfoldable pub ended : Run → Flow → Advanced
  unfolding park_reason push_recorded parse_decision final_spoken_text persist fail complete_phase
      advance phase_name
  ended run f =
      let ls = h.output run.id in
      if is_build_phase f.wf.phase && is_some run.pushed_at && not (push_recorded ls)
      then settled f
      else decided (parse_decision h.decode (final_spoken_text ls)) run ls f

  abbrev pub build_pending : Option PendingResume → Run → Flow → Advanced
  build_pending (some p) run f = settled (persist h (record f { wf = waits_for p f.wf })).0
  build_pending none run f = ended run (record f { wf = record (f.wf) { pending_until = 0 } })

  abbrev pub build_ended : Option Run → Run → Flow → Advanced
  build_ended (some r) run f = settle (persist h (record f { wf = follows r f.wf }))
  build_ended none run f = build_pending run.pending_resume run f

  abbrev pub by_kind : Bool → Run → Flow → Advanced
  by_kind true run f = build_ended (find_running_build f.wf.lane_key (values h.store)) run f
  by_kind false run f = ended run f

  -- What a child without a later turn means.
  unfoldable pub watch_child : Run → Flow → Advanced
  unfolding ended persist find_running_build
  watch_child run f =
      if is_running run.status || run.finalizing
      then settled f
      else by_kind (is_build_phase f.wf.phase) run f

  abbrev pub lost_child : Option Run → Flow → Flow × Bool
  lost_child (some r) f = persist h (record f { wf = takes h.store r.id f.wf })
  lost_child none f = fail h (codes "child run disappeared; refusing to claim workflow success") f

  abbrev pub followed : Run → Workflow → Workflow
  followed r w = record w {
    child_run = r.id;
    resume_count = count_of w (get r.id h.store);
    pending_until = 0;
  }

  -- What goes on with a successor is the first argument.
  abbrev pub succeeded : (Flow → Advanced) → Flow × Bool → Advanced
  succeeded k (g, false) = unsaved g
  succeeded k (g, true) = k g

  abbrev pub child_found : (Flow → Advanced) → Option Run → Run → Flow → Advanced
  child_found k none run f = watch_child run f
  child_found k (some r) run f = succeeded k (persist h (record f { wf = followed r f.wf }))

  abbrev pub child_looked : (Flow → Advanced) → Option Run → Flow → Advanced
  child_looked k none f = settle (lost_child (find_live_child f.wf.lane_key (values h.store)) f)
  child_looked k (some run) f = child_found k (find_build_successor f.wf run (values h.store)) run f

  -- The calls of itself are counted: each follows the child to a later turn.
  unfoldable pub observe : ℕ → Flow → Advanced
  unfolding advance get find_live_child find_build_successor watch_child persist fail
  observe zero f = out_of_rounds f
  observe (suc n) f =
      if is_empty f.wf.child_run
      then advance h rounds config engine [] f
      else child_looked (observe n) (get f.wf.child_run h.store) f
