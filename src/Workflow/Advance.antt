-- ===== src/Workflow/Advance.antt =====
-- advanceLocked of backend/usecase/workflow.go: a running workflow goes on until it waits for a
-- child or has ended. A round of its loop is one function; the rounds are counted.
use saki_cli.Workflow.Child.{is_build_phase, find_live_child, takes, child_request}
use saki_cli.Base.{
  ℕ, zero, suc, ◌+◌, Bool, true, false, not, ◌&&◌, ◌||◌, Option, none, some, ◌∷◌, ◌++◌, leb,
  if◌then◌else◌, Text, codes, is_empty, decimal, values,
}
use saki_cli.Run.{Run, RunEngine}
use saki_cli.Store.{get}
use saki_cli.Workflow.{
  Workflow, Phase, resolve, pickup, proto, lock, build_phase, rplan, verifying, WorkflowStatus,
  flow_running, flow_done, prd_track, plan_track,
}
use saki_cli.Workflow.Answers.{
  Target, ChildRequest, Answers, Resolved, found, unresolved, ChildResult, child_started,
  child_refused,
}
use saki_cli.Workflow.Phases.{
  next_phase, phase_done, persist, transition, moved, complete_phase, fail, Flow,
}
use saki_cli.Workflow.Verify.{locked_at, verify, Verified, verified, refused}

-- How advanceLocked returns: without an error, or with that of a write to the journal.
pub data Advanced : Type 0 where
  settled unsaved out_of_rounds : Flow → Advanced

abbrev pub flow_of : Advanced → Flow
flow_of (settled f) = f
flow_of (unsaved f) = f
flow_of (out_of_rounds f) = f

abbrev pub settle : Flow × Bool → Advanced
settle (f, true) = settled f
settle (f, false) = unsaved f

-- What a round does: `continue` or `return`.
pub data Round : Type 0 where
  goes_on : Flow → Round
  returns : Advanced → Round

abbrev pub or_return : Flow × Bool → Round
or_return (f, true) = goes_on f
or_return (f, false) = returns (unsaved f)

module _ (h : Answers) where
  -- firstPhase.
  unfoldable pub first_phase : Target → Phase
  first_phase t = elim t.track [
    | plan_track ↦ rplan
    | prd_track ↦
        if is_empty t.path
        then pickup
        else if locked_at h t.path && h.proto_present t.cwd t.path
        then build_phase
        else proto
  ]

  abbrev pub has_child : Run → Workflow → Workflow
  has_child r w = record w {
    child_run = r.id;
    resume_count = if is_build_phase w.phase then r.resume_count else w.resume_count + 1;
  }

  abbrev pub child_answered : Flow → ChildResult → Flow × Bool
  child_answered f (child_refused why) = fail h why f
  child_answered f (child_started r) = persist h (record f { wf = has_child r f.wf })

  abbrev pub adopt_or_spawn : ChildRequest → Option Run → Flow → Flow × Bool
  adopt_or_spawn req (some r) f = persist h (record f { wf = takes h.store r.id f.wf })
  adopt_or_spawn req none f =
      child_answered (record f { children = req ∷ f.children }) (h.spawn_child req)

  -- A phase that a child runs.
  unfoldable pub child_round : ChildRequest → Flow → Advanced
  unfolding fail persist find_live_child get
  child_round req f =
      if is_empty f.wf.child_run
      then settle (adopt_or_spawn req (find_live_child f.wf.lane_key (values h.store)) f)
      else settled f

  abbrev pub locked_by : ℕ × Bool → Flow → Round
  locked_by (code, ok) f =
      if leb 300 code || not ok
      then returns (settle (fail h (codes "PRD lock failed (HTTP " ++ decimal code ++ codes ")") f))
      else or_return (complete_phase h (codes "lock complete") f)

  unfoldable pub lock_round : Text → Flow → Round
  unfolding fail complete_phase decimal
  lock_round path f =
      if is_empty path
      then returns (settle (fail h (codes "cannot lock: PRD path is not present") f))
      else locked_by (h.lock_prd f.wf.cwd path) f

  abbrev pub now_done : Workflow → Workflow
  now_done w = record w { status = flow_done; reason = codes "verified completion" }

  abbrev pub save_done : Flow × Bool → Advanced
  save_done (f, false) = unsaved f
  save_done (f, true) = settle (persist h (record f { wf = now_done f.wf }))

  abbrev pub verify_result : Flow → Verified → Advanced
  verify_result f (refused why) = settle (fail h why f)
  verify_result f (verified e) = save_done (
      complete_phase h (codes "verified completion")
        (record f { wf = record (f.wf) { evidence = some e } }))

  unfoldable pub verify_round : Flow → Advanced
  unfolding verify fail complete_phase persist
  verify_round f = verify_result f (verify h f.wf)

  abbrev pub next_round : Option Phase → Flow → Round
  next_round none f = returns (settle (fail h (codes "workflow phase has no successor") f))
  next_round (some p) f = or_return (persist h (record f { wf = moved h (some p) f.wf }))

  abbrev pub by_phase : Phase → Target → ChildRequest → Flow → Round
  by_phase resolve t req f = or_return (transition h (first_phase t) f)
  by_phase verifying t req f = returns (verify_round f)
  by_phase lock t req f =
      if phase_done lock f.wf.history
      then next_round (next_phase f.wf.track lock) f
      else lock_round t.path f
  by_phase p t req f =
      if phase_done p f.wf.history
      then next_round (next_phase f.wf.track p) f
      else returns (child_round req f)

  abbrev pub by_target : Option Text → RunEngine → Text → Resolved → Flow → Round
  by_target config engine continuation (unresolved why) f = returns (settle (fail h why f))
  by_target config engine continuation (found t) f =
      let w = record (f.wf) { resolved_path = t.path } in
      by_phase w.phase t (child_request h config engine continuation w) (record f { wf = w })

  -- One round of the loop.
  unfoldable pub round : Option Text → RunEngine → Text → Flow → Round
  unfolding fail transition first_phase verify_round phase_done next_phase lock_round child_round
      child_request persist
  round config engine continuation f =
      by_target config engine continuation (h.resolve_target f.wf.cwd f.wf.target) f

  abbrev pub is_going : WorkflowStatus → Bool
  is_going flow_running = true
  is_going _ = false

  unfoldable pub advance : ℕ → Option Text → RunEngine → Text → Flow → Advanced
  unfolding round
  advance zero config engine continuation f = out_of_rounds f
  advance (suc n) config engine continuation f = elim (is_going f.wf.status) [
    | false ↦ settled f
    | true ↦ elim (round config engine continuation f) [
      | returns a ↦ a
      | goes_on g ↦ advance n config engine continuation g
    ]
  ]
