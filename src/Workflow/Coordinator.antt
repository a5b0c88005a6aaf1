-- ===== src/Workflow/Coordinator.antt =====
-- The service of backend/usecase/workflow.go: its maps, and Start, Continue, Stop and Sweep on them.
-- Each holds the lock of the service, so it is one function.
use saki_cli.Base.{
  ℕ, Bool, true, false, not, ◌&&◌, ◌||◌, Option, none, some, [], ◌∷◌, ◌++◌, if◌then◌else◌, Text,
  codes, same, is_empty, trim, Dict, lookup, insert, remove, map_values,
}
use saki_cli.Paths.{clean}
use saki_cli.Run.{resolve_engine, RunEngine}
use saki_cli.Workflow.{Workflow, resolve, WorkflowStatus, flow_running, flow_failed, flow_stopped}
use saki_cli.Workflow.Answers.{Target, Answers, Resolved, found, unresolved}
use saki_cli.Workflow.Phases.{started_at, persist, Flow}
use saki_cli.Workflow.Advance.{flow_of, advance, Advanced, settled, unsaved, out_of_rounds}
use saki_cli.Workflow.Observe.{rounds}
use saki_cli.Workflow.Operator.{
  continue_flow, sweep_flow, stop_flow, refresh_terminal, Continued, continued,
}

-- The maps workflows, byLane and byIdem.
pub record Flows : Type 0 where
  pub flows : Dict Flow
  pub by_lane : Dict Text
  pub by_idem : Dict Text

-- WorkflowStartRequest.
pub record StartRequest : Type 0 where
  pub cwd : Text
  pub target : Text
  pub config_dir : Option Text
  pub engine : RunEngine
  pub idempotency_key : Text

pub data Started : Type 0 where
  -- an error, with its text
  not_started : Text → Started
  deduped : Workflow → Started
  unsaved_start : Started
  started : Workflow → Started

-- reopenableWorkflow and historicalWorkflow.
abbrev pub is_historical : WorkflowStatus → Bool
is_historical flow_failed = true
is_historical flow_stopped = true
is_historical other = false

abbrev pub with_id : Text → Option Flow → Option (Text × Flow)
with_id id none = none
with_id id (some f) = some (id, f)

-- The workflow of an index entry.
abbrev pub flow_at : Flows → Option Text → Option (Text × Flow)
flow_at s none = none
flow_at s (some id) = with_id id (lookup id s.flows)

abbrev pub put_flow : Text → Flow → Flows → Flows
put_flow id f s = record s { flows = insert id f s.flows }

abbrev pub given : Option Text → Text
given none = []
given (some t) = t

-- With its indexes; an empty request key has none.
unfoldable pub registered : Text → Flow → Flows → Flows
unfolding insert
registered id f s = record {
  flows = insert id f s.flows;
  by_lane = insert f.wf.lane_key id s.by_lane;
  by_idem =
      if is_empty f.wf.idempotency_key then s.by_idem else insert f.wf.idempotency_key id s.by_idem;
}

-- What a failed write leaves: the entry of the request key stays.
unfoldable pub unregistered : Text → Text → Flows → Flows
unfolding remove
unregistered id lane s = record s { flows = remove id s.flows; by_lane = remove lane s.by_lane }

module _ (h : Answers) where
  -- A new workflow of a request, in its first phase.
  unfoldable pub fresh : Text → Text → Target → StartRequest → Workflow
  unfolding trim
  fresh id lane t req = record {
    id = id;
    lane_key = lane;
    cwd = t.cwd;
    target = trim req.target;
    resolved_path = [];
    engine = resolve_engine req.engine;
    config_dir = given req.config_dir;
    track = t.track;
    phase = resolve;
    child_run = [];
    history = started_at h.now resolve ∷ [];
    status = flow_running;
    pending_until = 0;
    resume_count = 0;
    awaiting_decision = none;
    parked_reason = [];
    reason = [];
    evidence = none;
    idempotency_key = req.idempotency_key;
    created_at = h.now;
    updated_at = h.now;
  }

  abbrev pub start_advanced : Text → Flows → Advanced → Flows × Started
  start_advanced id s (settled f) = (put_flow id f s, started f.wf)
  start_advanced id s (unsaved f) = (put_flow id f s, unsaved_start)
  start_advanced id s (out_of_rounds f) = (put_flow id f s, unsaved_start)

  abbrev pub start_saved : Text → StartRequest → Flows → Flow × Bool → Flows × Started
  start_saved id req s (f, false) = (unregistered id f.wf.lane_key s, unsaved_start)
  start_saved id req s (f, true) =
      start_advanced id s (advance h rounds req.config_dir req.engine [] f)

  -- The part of Start that makes a workflow.
  unfoldable pub start_fresh : Text → Text → Target → StartRequest → Flows → Flows × Started
  unfolding fresh registered unregistered persist advance
  start_fresh id lane t req s =
      let f : Flow = record { wf = fresh id lane t req; saved = none; children = [] } in
      start_saved id req (registered id f s) (persist h f)

  -- The second look, by the lane.
  abbrev pub start_by_lane :
      Text → Text → Target → StartRequest → Flows → Option (Text × Flow) → Flows × Started
  start_by_lane id lane t req s none = start_fresh id lane t req s
  start_by_lane id lane t req s (some (old, f)) =
      let g = refresh_terminal h f in
      if not (is_historical g.wf.status)
      then (put_flow old g s, deduped g.wf)
      else start_fresh id lane t req (put_flow old g s)

  unfoldable pub start_in_lane : Text → Text → Target → StartRequest → Flows → Flows × Started
  unfolding lookup start_fresh refresh_terminal
  start_in_lane id lane t req s = start_by_lane id lane t req s (flow_at s (lookup lane s.by_lane))

  -- The first look, by the request key.
  abbrev pub start_by_key :
      Text → Text → Target → StartRequest → Flows → Option (Text × Flow) → Flows × Started
  start_by_key id lane t req s none = start_in_lane id lane t req s
  start_by_key id lane t req s (some (old, f)) =
      let g = refresh_terminal h f in
      if same f.wf.lane_key lane && not (is_historical f.wf.status)
      then (put_flow old g s, deduped g.wf)
      else start_in_lane id lane t req s

  abbrev pub start_resolved : Text → StartRequest → Flows → Resolved → Flows × Started
  start_resolved id req s (unresolved why) = (s, not_started why)
  start_resolved id req s (found t) =
      let lane = clean t.cwd ++ (codes "::" ++ t.identity) in
      if is_empty req.idempotency_key
      then start_in_lane id lane t req s
      else start_by_key id lane t req s (flow_at s (lookup req.idempotency_key s.by_idem))

  -- Start, where the generator of ids gives `id`.
  unfoldable pub start : Text → StartRequest → Flows → Flows × Started
  unfolding trim clean same lookup start_in_lane refresh_terminal
  start id req s =
      if is_empty (trim req.cwd) || is_empty (trim req.target)
      then (
        s,
        not_started (codes "workflow target could not be resolved: cwd and target are required"),
      )
      else start_resolved id req s (h.resolve_target req.cwd req.target)

  abbrev pub continue_done : Text → Flows → Continued → Flows
  continue_done id s (continued a) = put_flow id (flow_of a) s
  continue_done id s other = s

  abbrev pub continue_found : Text → Text → Flows → Option Flow → Flows × Option Continued
  continue_found id option s none = (s, none)
  continue_found id option s (some f) =
      let c = continue_flow h option f in (continue_done id s c, some c)

  -- Continue; `none` is ErrWorkflowNotFound.
  unfoldable pub continue_by_id : Text → Text → Flows → Flows × Option Continued
  unfolding lookup continue_flow
  continue_by_id id option s = continue_found id option s (lookup id s.flows)

  abbrev pub stop_found : Text → Flows → Option Flow → Flows × Option Text
  stop_found id s none = (s, none)
  stop_found id s (some f) = let (g, child) = stop_flow h f in (put_flow id g s, child)

  -- Stop.
  unfoldable pub stop_by_id : Text → Flows → Flows × Option Text
  unfolding lookup stop_flow
  stop_by_id id s = stop_found id s (lookup id s.flows)

  -- Sweep, of the workflows in the order in which the range meets them.
  unfoldable pub sweep : ℕ → Flows → Flows
  unfolding map_values sweep_flow
  sweep n s = record s { flows = map_values (sweep_flow h n) s.flows }
