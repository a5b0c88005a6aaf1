-- ===== src/Workflow.antt =====
-- backend/domain/workflow.go: the workflow, which outlives its child runs. The Workflow folder has
-- the coordinator of backend/usecase/workflow.go.
pub mod Answers
pub mod Phases
pub mod Verify
pub mod Child
pub mod Advance
pub mod Observe
pub mod Operator
pub mod Later
pub mod Fuel
pub mod Honest
pub mod Success
pub mod Built
pub mod Observing
pub mod Verdict
pub mod Stopping
pub mod Following
pub mod Turns
pub mod Resolve
pub mod Coordinator
pub mod Lanes
pub mod Watched
pub mod Lasting
pub mod Owners
pub mod Claims
pub mod Rehydrate
pub mod Booted
pub mod OneLive
pub mod Trusted
pub mod Targets
pub mod Grounded
pub mod Adapter
pub mod Routed
pub mod Answering
use saki_cli.Base.{ℕ, Bool, true, false, Option, List, [], ◌∷◌, ◌==◌, Text}
use saki_cli.Outcome.Decision.{AwaitingDecision}
use saki_cli.Run.{RunEngine}

pub data Phase : Type 0 where
  resolve pickup proto lock build_phase rplan rplan_review approved qa reviewer wrap verifying :
      Phase

pub data WorkflowStatus : Type 0 where
  flow_running flow_parked flow_awaiting flow_done flow_failed flow_stopped : WorkflowStatus

-- Terminal.
unfoldable pub is_terminal : WorkflowStatus → Bool
is_terminal flow_running = false
is_terminal _ = true

pub data Track : Type 0 where
  prd_track plan_track : Track

-- The status of a phase record.
pub data Mark : Type 0 where
  mark_started mark_continued mark_done mark_failed : Mark

pub record PhaseRecord : Type 0 where
  pub phase : Phase
  pub mark : Mark
  pub child : Text
  pub reason : Text
  pub at : ℕ

pub record Evidence : Type 0 where
  pub checked_paths : List Text
  pub commit_ids : List Text
  -- the phases with the verdict "success"
  pub verdicts : List Phase
  pub verified_at : ℕ

pub record Workflow : Type 0 where
  pub id : Text
  pub lane_key : Text
  pub cwd : Text
  pub target : Text
  pub resolved_path : Text
  pub engine : RunEngine
  pub config_dir : Text
  pub track : Track
  pub phase : Phase
  pub child_run : Text
  -- newest first; the code appends
  pub history : List PhaseRecord
  pub status : WorkflowStatus
  pub pending_until : ℕ
  pub resume_count : ℕ
  -- a WorkflowDecision has the fields of an AwaitingDecision
  pub awaiting_decision : Option AwaitingDecision
  pub parked_reason : Text
  pub reason : Text
  pub evidence : Option Evidence
  pub idempotency_key : Text
  pub created_at : ℕ
  pub updated_at : ℕ

-- The place of a phase in the two tracks, one behind the other.
abbrev pub place : Phase → ℕ
place resolve = 0
place pickup = 1
place proto = 2
place lock = 3
place build_phase = 4
place rplan = 5
place rplan_review = 6
place approved = 7
place qa = 8
place reviewer = 9
place wrap = 10
place verifying = 11

-- `==` on phases.
abbrev pub same_phase : Phase → Phase → Bool
same_phase a b = place a == place b

-- PRDPhases and PlanPhases.
abbrev pub phases_of : Track → List Phase
phases_of prd_track = resolve ∷ pickup ∷ proto ∷ lock ∷ build_phase ∷ verifying ∷ []
phases_of plan_track =
    resolve ∷ rplan ∷ rplan_review ∷ approved ∷ qa ∷ reviewer ∷ wrap ∷ verifying ∷ []
