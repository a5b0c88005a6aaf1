-- ===== src/Workflow/Operator.antt =====
-- Continue, Stop, Sweep and refreshTerminalLocked of backend/usecase/workflow.go, on one workflow:
-- the coordinator has looked it up, and its lock is held.
use saki_cli.Base.{
  ℕ, Bool, true, false, Option, none, some, [], ◌∷◌, if◌then◌else◌, is_none, Text, codes, same, any,
}
use saki_cli.Run.{unset}
use saki_cli.Outcome.Decision.{AwaitingDecision}
use saki_cli.Workflow.{
  is_terminal, Workflow, WorkflowStatus, flow_running, flow_parked, flow_awaiting, flow_done,
  flow_failed, flow_stopped, mark_continued,
}
use saki_cli.Workflow.Answers.{Answers}
use saki_cli.Workflow.Phases.{persist, Flow}
use saki_cli.Workflow.Verify.{verify, Verified, verified, refused}
use saki_cli.Workflow.Advance.{flow_of, is_going, advance, Advanced, unsaved}
use saki_cli.Workflow.Observe.{rounds, observe}

pub data Continued : Type 0 where
  -- nothing to do: the workflow is running or done
  readopted_flow : Continued
  refused_terminal refused_option : Continued
  continued : Advanced → Continued

-- An option that was recorded with the question.
abbrev pub offers : Text → Option AwaitingDecision → Bool
offers option none = false
offers option (some d) = any (same option) d.options

abbrev pub reopens : ℕ → Text → Workflow → Workflow
reopens t option w = record w {
  status = flow_running;
  parked_reason = [];
  reason = [];
  awaiting_decision = elim w.status [ flow_awaiting ↦ none | _ ↦ w.awaiting_decision ];
  history =
      record { phase = w.phase; mark = mark_continued; child = []; reason = option; at = t }
      ∷ w.history;
}

module _ (h : Answers) where
  abbrev pub reopened : Text → Flow × Bool → Continued
  reopened option (f, false) = continued (unsaved f)
  reopened option (f, true) = continued (advance h rounds none unset option f)

  abbrev pub reopen : Text → Flow → Continued
  reopen option f = reopened option (persist h (record f { wf = reopens h.now option f.wf }))

  -- Continue, of the status that the workflow has.
  abbrev pub continue_as : WorkflowStatus → Text → Flow → Continued
  continue_as flow_done option f = readopted_flow
  continue_as flow_running option f = readopted_flow
  continue_as flow_failed option f = refused_terminal
  continue_as flow_stopped option f = refused_terminal
  continue_as flow_awaiting option f =
      if is_none f.wf.awaiting_decision
      then refused_terminal
      else if offers option f.wf.awaiting_decision
      then reopen option f
      else refused_option
  continue_as flow_parked option f = reopen option f

  unfoldable pub continue_flow : Text → Flow → Continued
  unfolding persist advance same
  continue_flow option f = continue_as f.wf.status option f

  -- Sweep, for one workflow.
  unfoldable pub sweep_flow : ℕ → Flow → Flow
  unfolding observe
  sweep_flow n f = if is_going h f.wf.status then flow_of (observe h none unset n f) else f

  abbrev pub stopped_by_operator : Workflow → Workflow
  stopped_by_operator w = record w {
    status = flow_stopped;
    reason = codes "stopped by operator";
    child_run = [];
    pending_until = 0;
  }

  -- Stop: whether it stopped the workflow, and the child that is stopped with it,
  -- where there is one.
  unfoldable pub stop_flow : Flow → Flow × Option Text
  unfolding persist is_terminal
  stop_flow f =
      if is_terminal f.wf.status
      then (f, none)
      else ((persist h (record f { wf = stopped_by_operator f.wf })).0, some f.wf.child_run)

  -- refreshTerminalLocked.
  abbrev pub refreshed : Flow → Verified → Flow
  refreshed f (refused why) =
      (persist h (record f { wf = record (f.wf) { status = flow_failed; reason = why } })).0
  refreshed f (verified e) = (persist h (record f { wf = record (f.wf) { evidence = some e } })).0

  abbrev pub is_done_flow : WorkflowStatus → Bool
  is_done_flow flow_done = true
  is_done_flow _ = false

  unfoldable pub refresh_terminal : Flow → Flow
  unfolding verify persist
  refresh_terminal f = if is_done_flow f.wf.status then refreshed f (verify h f.wf) else f
