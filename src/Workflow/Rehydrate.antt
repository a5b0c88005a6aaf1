-- ===== src/Workflow/Rehydrate.antt =====
-- Rehydrate and validWorkflow of backend/usecase/workflow.go: the maps of the service after a boot.
use saki_cli.Base.{
  ℕ, Bool, true, false, not, ◌&&◌, ◌||◌, Option, none, some, List, [], ◌∷◌, ◌++◌, ◌==◌,
  if◌then◌else◌, is_some, is_none, Text, codes, same, is_empty, has_prefix, is_nil, any, lookup,
  insert, map_values,
}
use saki_cli.Paths.{clean, abs}
use saki_cli.Workflow.{
  phases_of, Evidence, Workflow, Phase, WorkflowStatus, flow_running, flow_parked, flow_awaiting,
  flow_done, flow_failed, flow_stopped, Track, prd_track, plan_track,
}
use saki_cli.Workflow.Answers.{Answers}
use saki_cli.Workflow.Child.{phase_name}
use saki_cli.Workflow.Phases.{persist, Flow}
use saki_cli.Workflow.Operator.{refresh_terminal}
use saki_cli.Workflow.Coordinator.{is_historical, put_flow, registered, sweep, Flows}

-- A record of the journal; the status, the track and the phase are those of its JSON, which may be
-- any texts. The fields of `fields` that stand for them say nothing.
pub record Stored : Type 0 where
  pub fields : Workflow
  pub status_text : Text
  pub track_text : Text
  pub phase_text : Text

unfoldable pub status_named : Text → Option WorkflowStatus
unfolding same
status_named t =
    if same t (codes "running")
    then some flow_running
    else if same t (codes "parked")
    then some flow_parked
    else if same t (codes "awaiting-decision")
    then some flow_awaiting
    else if same t (codes "done")
    then some flow_done
    else if same t (codes "failed")
    then some flow_failed
    else if same t (codes "stopped")
    then some flow_stopped
    else none

unfoldable pub track_named : Text → Option Track
unfolding same
track_named t =
    if same t (codes "PRD")
    then some prd_track
    else if same t (codes "Plan")
    then some plan_track
    else none

-- The phase of a track with a name; validWorkflowPhase and containsWorkflowPhase.
unfoldable pub phase_named : Text → List Phase → Option Phase
unfolding same phase_name
phase_named t [] = none
phase_named t (p ∷ ps) =
    let rest = phase_named t ps in if same (phase_name p) t then some p else rest

abbrev pub good_evidence : Option Evidence → Bool
good_evidence none = false
good_evidence (some e) = not (e.verified_at == 0) && not (is_nil e.checked_paths)

abbrev pub is_awaiting : WorkflowStatus → Bool
is_awaiting flow_awaiting = true
is_awaiting _ = false

abbrev pub is_done_status : WorkflowStatus → Bool
is_done_status flow_done = true
is_done_status _ = false

-- A slash of either kind.
abbrev pub is_slash : ℕ → Bool
is_slash c = c == 47 || c == 92

module _ (wd : Text) where
  -- The checks of validWorkflow that do not read one of the three texts, in the working directory
  -- of the server.
  unfoldable pub is_valid : Workflow → Bool
  unfolding clean abs has_prefix
  is_valid w =
      not (
        is_empty w.id
        || any is_slash w.id
        || is_empty w.lane_key
        || is_empty w.cwd
        || is_empty w.target)
      && not (is_awaiting w.status && is_none w.awaiting_decision)
      && not (not (is_awaiting w.status) && is_some w.awaiting_decision)
      && has_prefix (clean (abs wd w.cwd) ++ codes "::") w.lane_key
      && not (is_done_status w.status && not (good_evidence w.evidence))

  abbrev pub if_valid : Workflow → Option Workflow
  if_valid w = if is_valid w then some w else none

  abbrev pub with_phase : Workflow → WorkflowStatus → Track → Option Phase → Option Workflow
  with_phase w s t none = none
  with_phase w s t (some p) = if_valid (record w { status = s; track = t; phase = p })

  abbrev pub with_track : Text → Workflow → WorkflowStatus → Option Track → Option Workflow
  with_track phase_text w s none = none
  with_track phase_text w s (some t) = with_phase w s t (phase_named phase_text (phases_of t))

  abbrev pub with_status : Stored → Option WorkflowStatus → Option Workflow
  with_status r none = none
  with_status r (some s) = with_track r.phase_text r.fields s (track_named r.track_text)

  -- validWorkflow, and the workflow of a record that passes.
  unfoldable pub valid_workflow : Stored → Option Workflow
  unfolding status_named track_named phase_named is_valid
  valid_workflow r = with_status r (status_named r.status_text)

-- In the maps, without the lane.
unfoldable pub known : Text → Flow → Flows → Flows
unfolding insert
known id f s = record s {
  flows = insert id f s.flows;
  by_idem =
      if is_empty f.wf.idempotency_key then s.by_idem else insert f.wf.idempotency_key id s.by_idem;
}

abbrev pub loaded : Workflow → Flow
loaded w = record { wf = w; saved = some w; children = [] }

module _ (h : Answers) where
  -- A workflow whose lane another one has.
  unfoldable pub refuse_lane : Flow → Flow
  unfolding persist
  refuse_lane f =
      (persist h (record f {
        wf = record (f.wf) {
          status = flow_failed;
          reason = codes "duplicate workflow lane in journal; refusing recovery";
          child_run = [];
          updated_at = h.now;
        };
      })).0

  -- The workflow that the lane index names, and the record that meets it there.
  unfoldable pub refuse_both : Text → Flow → Flow → Flows → Flows
  unfolding refuse_lane
  refuse_both old p f s =
      let first =
        if is_done_status p.wf.status && not (is_done_status f.wf.status)
        then refuse_lane p
        else p in
      put_flow f.wf.id (refuse_lane f) (put_flow old (refuse_lane first) s)

  abbrev pub meet : Text → Flow → Option Flow → Flows → Flows
  meet old f none s = put_flow f.wf.id (refuse_lane f) s
  meet old f (some p) s =
      if is_historical p.wf.status && not (is_historical f.wf.status)
      then registered f.wf.id f s
      else if not (is_historical p.wf.status) && is_historical f.wf.status
      then known f.wf.id f s
      else if is_done_status p.wf.status && is_historical f.wf.status
      then known f.wf.id f s
      else refuse_both old p f s

  abbrev pub place_at : Option Text → Flow → Flows → Flows
  place_at none f s = registered f.wf.id f s
  place_at (some old) f s = meet old f (lookup old s.flows) s

  abbrev pub take_in : Option Workflow → Flows → Flows
  take_in none s = s
  take_in (some w) s = place_at (lookup w.lane_key s.by_lane) (loaded w) s

  -- The loop over the records.
  unfoldable pub load_all : Text → List Stored → Flows → Flows
  unfolding lookup registered known refuse_both refuse_lane valid_workflow
  load_all wd [] s = s
  load_all wd (r ∷ rs) s = load_all wd rs (take_in (valid_workflow wd r) s)

  -- Rehydrate of what the journal loads; `none` is its error.
  unfoldable pub rehydrate : ℕ → Text → Option (List Stored) → Flows → Flows
  unfolding load_all map_values refresh_terminal sweep
  rehydrate n wd none s = s
  rehydrate n wd (some rs) s =
      let t = load_all wd rs (record { flows = []; by_lane = []; by_idem = [] }) in
      sweep h n (record t { flows = map_values (refresh_terminal h) t.flows })
