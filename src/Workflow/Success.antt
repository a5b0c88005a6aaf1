-- ===== src/Workflow/Success.antt =====
-- advanceLocked of backend/usecase/workflow.go, and the evidence of a workflow.
use Prim.Native.Nat.{ℕ, zero, suc}
use saki_cli.Workflow.Child.{child_request}
use saki_cli.Base.{
  ◌≡◌, refl, sym, subst, ◌∙◌, inl, inr, Bool, true, false, Option, none, some, arith, if◌then◌else◌,
  Bool-cases, Text, codes,
}
use saki_cli.Run.{RunEngine}
use saki_cli.Workflow.{
  Evidence, Workflow, Phase, resolve, pickup, proto, lock, build_phase, rplan, rplan_review,
  approved, qa, reviewer, wrap, verifying, WorkflowStatus, flow_running,
}
use saki_cli.Workflow.Answers.{Target, ChildRequest, Answers, Resolved, found, unresolved}
use saki_cli.Workflow.Phases.{
  next_phase, phase_done, persist, moved, completed, complete_phase, Flow,
}
use saki_cli.Workflow.Verify.{verify, Verified, verified, refused}
use saki_cli.Workflow.Advance.{
  flow_of, first_phase, child_round, now_done, save_done, verify_result, verify_round, next_round,
  by_phase, by_target, round, is_going, advance, settled, Round, goes_on, returns,
}
use saki_cli.Workflow.Honest.{
  Honest, HonestRound, persist-wf, settle-Honest, fail-Honest, completed-status, transition-Honest,
  next_round-Honest, lock_round-Honest, child_round-Honest,
}

module _ (h : Answers) where
  -- What completing the verify phase keeps of the workflow.
  complete-kept :
      (why : Text) (w : Workflow)
      → ((completed h why w).evidence ≡ w.evidence)
        × ((completed h why w).track ≡ w.track)
        × ((completed h why w).cwd ≡ w.cwd)
        × ((completed h why w).target ≡ w.target)
  unfolding completed
  complete-kept why w = moved-kept (next_phase w.track w.phase) _
    where
      moved-kept :
          (o : Option Phase) (v : Workflow)
          → ((moved h o v).evidence ≡ v.evidence)
            × ((moved h o v).track ≡ v.track)
            × ((moved h o v).cwd ≡ v.cwd)
            × ((moved h o v).target ≡ v.target)
      moved-kept none v = (refl, refl, refl, refl)
      moved-kept (some p) v = (refl, refl, refl, refl)

  -- A running workflow that has the evidence that v was given.
  abbrev Carries : Workflow → Evidence → Workflow → Type 0
  Carries v e w =
      (w.status ≡ flow_running)
      × (w.evidence ≡ some e)
      × (v.track ≡ w.track)
      × (v.cwd ≡ w.cwd)
      × (v.target ≡ w.target)

  save_done-Honest :
      (fb : Flow × Bool) (v : Workflow) (e : Evidence)
      → verify h v ≡ verified e
      → Carries v e fb.0.wf
      → Honest h (flow_of (save_done h fb)).wf
  save_done-Honest (f, false) v e is (s, kept, t, c, g) = inl (λ d. cc)
  save_done-Honest (f, true) v e is (s, kept, t, c, g) =
      settle-Honest h (persist h (record f { wf = now_done h f.wf })) (
        subst (Honest h) (sym (persist-wf h (record f { wf = now_done h f.wf }))) (
          inr (record {
            checked = v;
            given = e;
            is_verified = is;
            kept = kept;
            same_track = t;
            same_cwd = c;
            same_target = g;
          })))

  verify_result-Honest :
      (f : Flow) (v : Verified)
      → f.wf.status ≡ flow_running
      → verify h f.wf ≡ v
      → Honest h (flow_of (verify_result h f v)).wf
  unfolding complete_phase
  verify_result-Honest f (refused why) s e = fail-Honest h why f
  verify_result-Honest f (verified given) s e =
      let w = record (f.wf) { evidence = some given } in
      let why = codes "verified completion" in
      let (kept, t, c, g) = complete-kept why w in
      save_done-Honest (complete_phase h why (record f { wf = w })) f.wf given e (
        subst (Carries f.wf given) (sym (persist-wf h (record f { wf = completed h why w })))
          (completed-status h why w ∙ s, kept, sym t, sym c, sym g))

  -- A phase that a child runs.
  waiting-Honest :
      (p : Phase) (req : ChildRequest) (f : Flow)
      → f.wf.status ≡ flow_running
      → HonestRound h (
          if phase_done p f.wf.history
          then next_round h (next_phase f.wf.track p) f
          else returns (child_round h req f))
  waiting-Honest p req f e = elim (Bool-cases (phase_done p f.wf.history)) [
    | inl over ↦ rw over (next_round-Honest h (next_phase f.wf.track p) f e)
    | inr still ↦ rw still (child_round-Honest h req f e)
  ]

  by_phase-Honest :
      (p : Phase) (t : Target) (req : ChildRequest) (f : Flow)
      → f.wf.status ≡ flow_running
      → HonestRound h (by_phase h p t req f)
  unfolding verify_round
  by_phase-Honest resolve t req f e = transition-Honest h (first_phase h t) f e
  by_phase-Honest verifying t req f e = verify_result-Honest f (verify h f.wf) e refl
  by_phase-Honest lock t req f e = elim (Bool-cases (phase_done lock f.wf.history)) [
    | inl over ↦ rw over (next_round-Honest h (next_phase f.wf.track lock) f e)
    | inr still ↦ rw still (lock_round-Honest h t.path f e)
  ]
  by_phase-Honest pickup t req f e = waiting-Honest pickup req f e
  by_phase-Honest proto t req f e = waiting-Honest proto req f e
  by_phase-Honest build_phase t req f e = waiting-Honest build_phase req f e
  by_phase-Honest rplan t req f e = waiting-Honest rplan req f e
  by_phase-Honest rplan_review t req f e = waiting-Honest rplan_review req f e
  by_phase-Honest approved t req f e = waiting-Honest approved req f e
  by_phase-Honest qa t req f e = waiting-Honest qa req f e
  by_phase-Honest reviewer t req f e = waiting-Honest reviewer req f e
  by_phase-Honest wrap t req f e = waiting-Honest wrap req f e

module _ (h : Answers) (config : Option Text) (engine : RunEngine) (continuation : Text) where
  by_target-Honest :
      (r : Resolved) (f : Flow)
      → f.wf.status ≡ flow_running
      → HonestRound h (by_target h config engine continuation r f)
  by_target-Honest (unresolved why) f e = fail-Honest h why f
  by_target-Honest (found t) f e =
      let w = record (f.wf) { resolved_path = t.path } in
      by_phase-Honest h f.wf.phase t (child_request h config engine continuation w)
        (record f { wf = w }) e

  after_round :
      (n : ℕ) (r : Round)
      → HonestRound h r
      → ((g : Flow)
          → Honest h g.wf
          → Honest h (flow_of (advance h n config engine continuation g)).wf)
      → Honest h
          (flow_of
            (elim r [ returns a ↦ a | goes_on g ↦ advance h n config engine continuation g ])).wf
  after_round n (returns b) honest ih = honest
  after_round n (goes_on g) going ih = ih g (inl (λ d. cc))

  -- What `advance` makes of a workflow that is going on, or is not.
  abbrev HonestAt : ℕ → Flow → Bool → Type 0
  HonestAt n f going =
      Honest h
        (flow_of (elim going [
          | false ↦ settled f
          | true ↦ elim (round h config engine continuation f) [
            | returns a ↦ a
            | goes_on g ↦ advance h n config engine continuation g
          ]
        ])).wf

  running_status : (s : WorkflowStatus) → is_going h s ≡ true → s ≡ flow_running
  running_status s e = ground arith

  pub advance-Honest :
      (n : ℕ) (f : Flow)
      → Honest h f.wf
      → Honest h (flow_of (advance h n config engine continuation f)).wf
  unfolding advance
  advance-Honest zero f a = a
  advance-Honest (suc n) f a = elim (Bool-cases (is_going h f.wf.status)) [
    | inr over ↦ subst (HonestAt n f) (sym over) a
    | inl going ↦ subst (HonestAt n f) (sym going) (
        after_round n (round h config engine continuation f)
          (unfold round in
            by_target-Honest (h.resolve_target f.wf.cwd f.wf.target) f
              (running_status f.wf.status going))
          (advance-Honest n))
  ]
