-- ===== src/Workflow/Phases.antt =====
-- The phase machine of backend/usecase/workflow.go: nextPhase, phaseDone, transitionLocked,
-- completePhaseLocked and failLocked. Each works on one workflow and its record in the journal.
use saki_cli.Base.{
  ℕ, Bool, true, false, ◌&&◌, Option, none, some, List, [], ◌∷◌, if◌then◌else◌, Text,
}
use saki_cli.Workflow.{
  same_phase, phases_of, PhaseRecord, Workflow, Phase, flow_failed, Track, Mark, mark_started,
  mark_continued, mark_done, mark_failed,
}
use saki_cli.Workflow.Answers.{ChildRequest, Answers}

-- A workflow in memory, its record in the journal, and the child requests that were sent, newest
-- first.
pub record Flow : Type 0 where
  pub wf : Workflow
  pub saved : Option Workflow
  pub children : List ChildRequest

abbrev pub next_in : Phase → List Phase → Option Phase
next_in p [] = none
next_in p (q ∷ []) = none
next_in p (q ∷ r ∷ rs) = let rest = next_in p (r ∷ rs) in if same_phase q p then some r else rest

-- nextPhase; none is the empty phase.
unfoldable pub next_phase : Track → Phase → Option Phase
next_phase t p = next_in p (phases_of t)

abbrev pub is_done : Mark → Bool
is_done mark_done = true
is_done _ = false

-- phaseDone: the newest record of the phase decides.
unfoldable pub phase_done : Phase → List PhaseRecord → Bool
phase_done p [] = false
phase_done p (r ∷ rs) =
    let rest = phase_done p rs in if same_phase (r.phase) p then is_done r.mark else rest

abbrev pub is_open : Mark → Bool
is_open mark_started = true
is_open mark_continued = true
is_open _ = false

-- The newest open record of the phase is closed.
unfoldable pub close_record : Phase → Text → Text → List PhaseRecord → List PhaseRecord
close_record p child reason [] = []
close_record p child reason (r ∷ rs) =
    let rest = close_record p child reason rs in
    if same_phase (r.phase) p && is_open r.mark
    then record r { mark = mark_done; child = child; reason = reason } ∷ rs
    else r ∷ rest

abbrev pub started_at : ℕ → Phase → PhaseRecord
started_at t p = record { phase = p; mark = mark_started; child = []; reason = []; at = t }

-- The newest record fails, where it is started.
abbrev pub fail_newest : Text → List PhaseRecord → List PhaseRecord
fail_newest reason [] = []
fail_newest reason (r ∷ rs) = elim r.mark [
  | mark_started ↦ record r { mark = mark_failed; reason = reason } ∷ rs
  | _ ↦ r ∷ rs
]

module _ (h : Answers) where
  -- persist, and whether it succeeded.
  unfoldable pub persist : Flow → Flow × Bool
  persist f = if h.save_ok f.wf then (record f { saved = some f.wf }, true) else (f, false)

  -- The part of a transition that changes the workflow.
  unfoldable pub entered : Phase → Workflow → Workflow
  entered p w = record w {
    phase = p;
    child_run = [];
    history = started_at h.now p ∷ w.history;
    updated_at = h.now;
  }

  -- transitionLocked.
  unfoldable pub transition : Phase → Flow → Flow × Bool
  unfolding persist entered
  transition p f =
      if same_phase f.wf.phase p then (f, true) else persist (record f { wf = entered p f.wf })

  abbrev pub moved : Option Phase → Workflow → Workflow
  moved none w = record w { updated_at = h.now }
  moved (some p) w = record w {
    phase = p;
    history = started_at h.now p ∷ w.history;
    updated_at = h.now;
  }

  -- What completePhaseLocked makes of the workflow.
  unfoldable pub completed : Text → Workflow → Workflow
  unfolding close_record next_phase
  completed reason w =
      moved (next_phase w.track w.phase)
        (record w { history = close_record w.phase w.child_run reason w.history; child_run = [] })

  -- completePhaseLocked.
  unfoldable pub complete_phase : Text → Flow → Flow × Bool
  unfolding persist completed
  complete_phase reason f = persist (record f { wf = completed reason f.wf })

  -- What failLocked makes of the workflow.
  unfoldable pub failed_with : Text → Workflow → Workflow
  failed_with reason w = record w {
    status = flow_failed;
    reason = reason;
    child_run = [];
    updated_at = h.now;
    history = fail_newest reason w.history;
  }

  -- failLocked.
  unfoldable pub fail : Text → Flow → Flow × Bool
  unfolding persist failed_with
  fail reason f = persist (record f { wf = failed_with reason f.wf })
