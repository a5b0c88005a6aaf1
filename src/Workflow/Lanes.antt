-- ===== src/Workflow/Lanes.antt =====
-- advanceLocked of backend/usecase/workflow.go, and the lane of a workflow.
use Prim.Native.Nat.{ℕ, zero, suc}
use saki_cli.Base.{
  ◌≡◌, refl, sym, ap, subst, ◌∙◌, inl, inr, Bool, true, false, not, ◌||◌, Option, none, some, ◌∷◌,
  leb, if◌then◌else◌, Bool-cases, Text, codes, is_empty, values,
}
use saki_cli.Run.{Run, RunEngine}
use saki_cli.Workflow.{
  same_phase, Workflow, Phase, resolve, pickup, proto, lock, build_phase, rplan, rplan_review,
  approved, qa, reviewer, wrap, verifying,
}
use saki_cli.Workflow.Child.{find_live_child, takes, child_request}
use saki_cli.Workflow.Answers.{
  Target, ChildRequest, Answers, Resolved, found, unresolved, ChildResult, child_started,
  child_refused,
}
use saki_cli.Workflow.Phases.{
  next_phase, phase_done, persist, entered, transition, moved, completed, complete_phase,
  failed_with, fail, Flow,
}
use saki_cli.Workflow.Verify.{verify, Verified, verified, refused}
use saki_cli.Workflow.Advance.{
  flow_of, settle, or_return, first_phase, has_child, child_answered, adopt_or_spawn, child_round,
  locked_by, lock_round, now_done, save_done, verify_result, verify_round, next_round, by_phase,
  by_target, round, is_going, advance, settled, Round, goes_on, returns,
}
use saki_cli.Workflow.Honest.{persist-wf}

module _ (h : Answers) (lane : Text) where
  abbrev pub OnLane : Flow → Type 0
  OnLane f = f.wf.lane_key ≡ lane

  abbrev pub RoundOnLane : Round → Type 0
  RoundOnLane (returns a) = OnLane (flow_of a)
  RoundOnLane (goes_on f) = OnLane f

  pub persist-OnLane : (f : Flow) → OnLane f → OnLane (persist h f).0
  persist-OnLane f e = ap (λ (w : Workflow). w.lane_key) (persist-wf h f) ∙ e

  pub settle-OnLane : (fb : Flow × Bool) → OnLane fb.0 → OnLane (flow_of (settle fb))
  settle-OnLane (f, true) e = e
  settle-OnLane (f, false) e = e

  or_return-OnLane : (fb : Flow × Bool) → OnLane fb.0 → RoundOnLane (or_return fb)
  or_return-OnLane (f, true) e = e
  or_return-OnLane (f, false) e = e

  pub saved-OnLane : (f : Flow) → OnLane f → OnLane (flow_of (settle (persist h f)))
  saved-OnLane f e = settle-OnLane (persist h f) (persist-OnLane f e)

  pub fail-OnLane : (why : Text) (f : Flow) → OnLane f → OnLane (flow_of (settle (fail h why f)))
  unfolding fail failed_with
  fail-OnLane why f e = saved-OnLane (record f { wf = failed_with h why f.wf }) e

  moved-lane : (o : Option Phase) (w : Workflow) → (moved h o w).lane_key ≡ w.lane_key
  moved-lane none w = refl
  moved-lane (some p) w = refl

  pub complete-OnLane : (why : Text) (f : Flow) → OnLane f → OnLane (complete_phase h why f).0
  unfolding complete_phase completed
  complete-OnLane why f e =
      persist-OnLane (record f { wf = completed h why f.wf })
        (moved-lane (next_phase f.wf.track f.wf.phase) _ ∙ e)

  transition-OnLane : (p : Phase) (f : Flow) → OnLane f → OnLane (transition h p f).0
  unfolding transition entered
  transition-OnLane p f e = elim (Bool-cases (same_phase f.wf.phase p)) [
    | inl there ↦ rw there e
    | inr other ↦ rw other (persist-OnLane (record f { wf = entered h p f.wf }) e)
  ]

  next_round-OnLane : (o : Option Phase) (f : Flow) → OnLane f → RoundOnLane (next_round h o f)
  next_round-OnLane none f e = fail-OnLane (codes "workflow phase has no successor") f e
  next_round-OnLane (some p) f e =
      let g = record f { wf = moved h (some p) f.wf } in
      or_return-OnLane (persist h g) (persist-OnLane g e)

  locked_by-OnLane : (answer : ℕ × Bool) (f : Flow) → OnLane f → RoundOnLane (locked_by h answer f)
  locked_by-OnLane (code, ok) f e = elim (Bool-cases (leb 300 code || not ok)) [
    | inl denied ↦ rw denied (fail-OnLane _ f e)
    | inr good ↦ rw good (
        or_return-OnLane (complete_phase h (codes "lock complete") f)
          (complete-OnLane (codes "lock complete") f e))
  ]

  lock_round-OnLane : (path : Text) (f : Flow) → OnLane f → RoundOnLane (lock_round h path f)
  unfolding lock_round
  lock_round-OnLane path f e = elim (Bool-cases (is_empty path)) [
    | inl denied ↦ rw denied (fail-OnLane _ f e)
    | inr good ↦ rw good (locked_by-OnLane (h.lock_prd f.wf.cwd path) f e)
  ]

  child_answered-OnLane :
      (f : Flow) (c : ChildResult) → OnLane f → OnLane (flow_of (settle (child_answered h f c)))
  child_answered-OnLane f (child_refused why) e = fail-OnLane why f e
  child_answered-OnLane f (child_started r) e =
      saved-OnLane (record f { wf = has_child h r f.wf }) e

  adopt_or_spawn-OnLane :
      (req : ChildRequest) (o : Option Run) (f : Flow)
      → OnLane f
      → OnLane (flow_of (settle (adopt_or_spawn h req o f)))
  adopt_or_spawn-OnLane req (some r) f e =
      saved-OnLane (record f { wf = takes h.store r.id f.wf }) e
  adopt_or_spawn-OnLane req none f e =
      child_answered-OnLane (record f { children = req ∷ f.children }) (h.spawn_child req) e

  child_round-OnLane :
      (req : ChildRequest) (f : Flow) → OnLane f → OnLane (flow_of (child_round h req f))
  unfolding child_round
  child_round-OnLane req f e = elim (Bool-cases (is_empty f.wf.child_run)) [
    | inl free ↦
        rw free (adopt_or_spawn-OnLane req (find_live_child f.wf.lane_key (values h.store)) f e)
    | inr busy ↦ rw busy e
  ]

  save_done-OnLane : (fb : Flow × Bool) → OnLane fb.0 → OnLane (flow_of (save_done h fb))
  save_done-OnLane (f, false) e = e
  save_done-OnLane (f, true) e = saved-OnLane (record f { wf = now_done h f.wf }) e

  verify_result-OnLane :
      (f : Flow) (v : Verified) → OnLane f → OnLane (flow_of (verify_result h f v))
  verify_result-OnLane f (refused why) e = fail-OnLane why f e
  verify_result-OnLane f (verified evidence) e =
      let g = record f { wf = record (f.wf) { evidence = some evidence } } in
      save_done-OnLane (complete_phase h (codes "verified completion") g)
        (complete-OnLane (codes "verified completion") g e)

  waiting-OnLane :
      (p : Phase) (req : ChildRequest) (f : Flow)
      → OnLane f
      → RoundOnLane (
          if phase_done p f.wf.history
          then next_round h (next_phase f.wf.track p) f
          else returns (child_round h req f))
  waiting-OnLane p req f e = elim (Bool-cases (phase_done p f.wf.history)) [
    | inl over ↦ rw over (next_round-OnLane (next_phase f.wf.track p) f e)
    | inr still ↦ rw still (child_round-OnLane req f e)
  ]

  by_phase-OnLane :
      (p : Phase) (t : Target) (req : ChildRequest) (f : Flow)
      → OnLane f
      → RoundOnLane (by_phase h p t req f)
  unfolding verify_round
  by_phase-OnLane resolve t req f e =
      or_return-OnLane (transition h (first_phase h t) f) (transition-OnLane (first_phase h t) f e)
  by_phase-OnLane verifying t req f e = verify_result-OnLane f (verify h f.wf) e
  by_phase-OnLane lock t req f e = elim (Bool-cases (phase_done lock f.wf.history)) [
    | inl over ↦ rw over (next_round-OnLane (next_phase f.wf.track lock) f e)
    | inr still ↦ rw still (lock_round-OnLane t.path f e)
  ]
  by_phase-OnLane pickup t req f e = waiting-OnLane pickup req f e
  by_phase-OnLane proto t req f e = waiting-OnLane proto req f e
  by_phase-OnLane build_phase t req f e = waiting-OnLane build_phase req f e
  by_phase-OnLane rplan t req f e = waiting-OnLane rplan req f e
  by_phase-OnLane rplan_review t req f e = waiting-OnLane rplan_review req f e
  by_phase-OnLane approved t req f e = waiting-OnLane approved req f e
  by_phase-OnLane qa t req f e = waiting-OnLane qa req f e
  by_phase-OnLane reviewer t req f e = waiting-OnLane reviewer req f e
  by_phase-OnLane wrap t req f e = waiting-OnLane wrap req f e

module _ (h : Answers) (lane : Text) (config : Option Text) (engine : RunEngine)
    (continuation : Text) where
  by_target-OnLane :
      (r : Resolved) (f : Flow)
      → OnLane h lane f
      → RoundOnLane h lane (by_target h config engine continuation r f)
  by_target-OnLane (unresolved why) f e = fail-OnLane h lane why f e
  by_target-OnLane (found t) f e =
      let w = record (f.wf) { resolved_path = t.path } in
      by_phase-OnLane h lane f.wf.phase t (child_request h config engine continuation w)
        (record f { wf = w }) e

  after_round :
      (n : ℕ) (r : Round)
      → RoundOnLane h lane r
      → ((g : Flow)
          → OnLane h lane g
          → OnLane h lane (flow_of (advance h n config engine continuation g)))
      → OnLane h lane (
          flow_of (elim r [ returns a ↦ a | goes_on g ↦ advance h n config engine continuation g ]))
  after_round n (returns b) e ih = e
  after_round n (goes_on g) e ih = ih g e

  -- What `advance` makes of a workflow that is going on, or is not.
  abbrev LaneAt : ℕ → Flow → Bool → Type 0
  LaneAt n f going = OnLane h lane (
      flow_of (elim going [
        | false ↦ settled f
        | true ↦ elim (round h config engine continuation f) [
          | returns a ↦ a
          | goes_on g ↦ advance h n config engine continuation g
        ]
      ]))

  pub advance-OnLane :
      (n : ℕ) (f : Flow)
      → OnLane h lane f
      → OnLane h lane (flow_of (advance h n config engine continuation f))
  unfolding advance
  advance-OnLane zero f e = e
  advance-OnLane (suc n) f e = elim (Bool-cases (is_going h f.wf.status)) [
    | inr over ↦ subst (LaneAt n f) (sym over) e
    | inl going ↦ subst (LaneAt n f) (sym going) (
        after_round n (round h config engine continuation f)
          (unfold round in by_target-OnLane (h.resolve_target f.wf.cwd f.wf.target) f e)
          (advance-OnLane n))
  ]
