-- ===== src/Workflow/Honest.antt =====
-- The writes and failures of backend/usecase/workflow.go, and the evidence of a workflow.
use Prim.Native.Nat.{ℕ}
use saki_cli.Workflow.Child.{find_live_child, takes}
use saki_cli.Base.{
  ◌≡◌, refl, sym, ap, subst, ◌∙◌, ◌≢◌, ◌⊎◌, inl, inr, Bool, true, false, not, ◌||◌, Option, none,
  some, ◌∷◌, ◌++◌, arith, leb, Bool-cases, Text, codes, is_empty, decimal, values,
}
use saki_cli.Run.{Run}
use saki_cli.Workflow.{same_phase, Evidence, Workflow, Phase, flow_running, flow_done}
use saki_cli.Workflow.Answers.{ChildRequest, Answers, ChildResult, child_started, child_refused}
use saki_cli.Workflow.Phases.{
  next_phase, persist, entered, transition, moved, completed, complete_phase, failed_with, fail,
  Flow,
}
use saki_cli.Workflow.Verify.{verify, verified}
use saki_cli.Workflow.Advance.{
  flow_of, settle, or_return, has_child, child_answered, adopt_or_spawn, child_round, locked_by,
  lock_round, next_round, Round, goes_on, returns,
}

-- The evidence of a workflow is what verify gave for its target in this operation.
pub record Backed (h : Answers) (w : Workflow) : Type 0 where
  pub checked : Workflow
  pub given : Evidence
  pub is_verified : verify h checked ≡ verified given
  pub kept : w.evidence ≡ some given
  pub same_track : checked.track ≡ w.track
  pub same_cwd : checked.cwd ≡ w.cwd
  pub same_target : checked.target ≡ w.target

module _ (h : Answers) where
  abbrev pub Honest : Workflow → Type 0
  Honest w = (w.status ≢ flow_done) ⊎ Backed h w

  abbrev pub HonestRound : Round → Type 0
  HonestRound (returns a) = Honest (flow_of a).wf
  HonestRound (goes_on f) = f.wf.status ≡ flow_running

  pub persist-wf : (f : Flow) → (persist h f).0.wf ≡ f.wf
  unfolding persist
  persist-wf f = ground arith

  pub settle-Honest : (fb : Flow × Bool) → Honest fb.0.wf → Honest (flow_of (settle fb)).wf
  settle-Honest (f, true) a = a
  settle-Honest (f, false) a = a

  -- A workflow that is saved and not done.
  pub saved-Honest :
      (f : Flow) → f.wf.status ≢ flow_done → Honest (flow_of (settle (persist h f))).wf
  saved-Honest f n = settle-Honest (persist h f) (subst Honest (sym (persist-wf f)) (inl n))

  pub fail-Honest : (why : Text) (f : Flow) → Honest (flow_of (settle (fail h why f))).wf
  unfolding fail failed_with
  fail-Honest why f = saved-Honest (record f { wf = failed_with h why f.wf }) (λ e. cc)

  pub or_return-Honest :
      (fb : Flow × Bool) → fb.0.wf.status ≡ flow_running → HonestRound (or_return fb)
  or_return-Honest (f, true) e = e
  or_return-Honest (f, false) e = inl (λ d. cc)

  moved-status : (o : Option Phase) (w : Workflow) → (moved h o w).status ≡ w.status
  moved-status none w = refl
  moved-status (some p) w = refl

  pub persist-running :
      (f : Flow) → f.wf.status ≡ flow_running → HonestRound (or_return (persist h f))
  persist-running f e =
      or_return-Honest (persist h f) (ap (λ (w : Workflow). w.status) (persist-wf f) ∙ e)

  pub completed-status : (why : Text) (w : Workflow) → (completed h why w).status ≡ w.status
  unfolding completed
  completed-status why w = moved-status (next_phase w.track w.phase) _

  pub transition-Honest :
      (p : Phase) (f : Flow)
      → f.wf.status ≡ flow_running
      → HonestRound (or_return (transition h p f))
  unfolding transition entered
  transition-Honest p f e = elim (Bool-cases (same_phase f.wf.phase p)) [
    | inl there ↦ rw there e
    | inr other ↦ rw other (persist-running (record f { wf = entered h p f.wf }) e)
  ]

  pub next_round-Honest :
      (o : Option Phase) (f : Flow) → f.wf.status ≡ flow_running → HonestRound (next_round h o f)
  next_round-Honest none f e = fail-Honest (codes "workflow phase has no successor") f
  next_round-Honest (some p) f e = persist-running (record f { wf = moved h (some p) f.wf }) e

  pub complete-Honest :
      (why : Text) (f : Flow)
      → f.wf.status ≡ flow_running
      → HonestRound (or_return (complete_phase h why f))
  unfolding complete_phase
  complete-Honest why f e =
      persist-running (record f { wf = completed h why f.wf }) (completed-status why f.wf ∙ e)

  locked_by-Honest :
      (answer : ℕ × Bool) (f : Flow)
      → f.wf.status ≡ flow_running
      → HonestRound (locked_by h answer f)
  locked_by-Honest (code, ok) f e = elim (Bool-cases (leb 300 code || not ok)) [
    | inl denied ↦
        rw denied (fail-Honest (codes "PRD lock failed (HTTP " ++ decimal code ++ codes ")") f)
    | inr good ↦ rw good (complete-Honest (codes "lock complete") f e)
  ]

  pub lock_round-Honest :
      (path : Text) (f : Flow) → f.wf.status ≡ flow_running → HonestRound (lock_round h path f)
  unfolding lock_round
  lock_round-Honest path f e = elim (Bool-cases (is_empty path)) [
    | inl denied ↦ rw denied (fail-Honest (codes "cannot lock: PRD path is not present") f)
    | inr good ↦ rw good (locked_by-Honest (h.lock_prd f.wf.cwd path) f e)
  ]

  child_answered-Honest :
      (f : Flow) (c : ChildResult)
      → f.wf.status ≡ flow_running
      → Honest (flow_of (settle (child_answered h f c))).wf
  child_answered-Honest f (child_refused why) e = fail-Honest why f
  child_answered-Honest f (child_started r) e =
      saved-Honest (record f { wf = has_child h r f.wf }) (λ d. cc)

  adopt_or_spawn-Honest :
      (req : ChildRequest) (o : Option Run) (f : Flow)
      → f.wf.status ≡ flow_running
      → Honest (flow_of (settle (adopt_or_spawn h req o f))).wf
  adopt_or_spawn-Honest req (some r) f e =
      saved-Honest (record f { wf = takes h.store r.id f.wf }) (λ d. cc)
  adopt_or_spawn-Honest req none f e =
      child_answered-Honest (record f { children = req ∷ f.children }) (h.spawn_child req) e

  pub child_round-Honest :
      (req : ChildRequest) (f : Flow)
      → f.wf.status ≡ flow_running
      → Honest (flow_of (child_round h req f)).wf
  unfolding child_round
  child_round-Honest req f e = elim (Bool-cases (is_empty f.wf.child_run)) [
    | inl free ↦
        rw free (adopt_or_spawn-Honest req (find_live_child f.wf.lane_key (values h.store)) f e)
    | inr busy ↦ rw busy (inl (λ d. cc))
  ]
