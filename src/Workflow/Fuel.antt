-- ===== src/Workflow/Fuel.antt =====
-- The loop of advanceLocked in backend/usecase/workflow.go, counted in rounds.
use Prim.Native.Nat.{ℕ, zero, suc, ◌+◌, ◌≤◌}
use saki_cli.Workflow.Child.{child_request}
use saki_cli.Base.{
  ◌≡◌, refl, sym, subst, inl, inr, Bool, true, false, Option, arith, Bool-cases, Text,
}
use saki_cli.Workflow.{place, Phase}
use saki_cli.Workflow.Answers.{Answers, Resolved, found, unresolved}
use saki_cli.Workflow.Phases.{fail, Flow}
use saki_cli.Workflow.Advance.{
  by_target, round, is_going, advance, settled, Round, goes_on, returns,
}
use saki_cli.Run.{RunEngine}
use saki_cli.Workflow.Later.{
  IsEnough, place_le, is_misplaced, Later, settle-IsEnough, by_phase-Later,
}

module _ (h : Answers) (config : Option Text) (engine : RunEngine) (continuation : Text) where
  by_target-Later :
      (r : Resolved) (f : Flow)
      → is_misplaced f.wf.track f.wf.phase ≡ false
      → Later f.wf.phase (by_target h config engine continuation r f)
  by_target-Later (unresolved why) f m = settle-IsEnough h (fail h why f)
  by_target-Later (found t) f m =
      let w = record (f.wf) { resolved_path = t.path } in
      by_phase-Later h f.wf.phase t (child_request h config engine continuation w)
        (record f { wf = w }) refl m

  after_round :
      (n : ℕ) (p : Phase) (r : Round)
      → Later p r
      → 12 ≤ suc n + place p
      → ((g : Flow)
          → is_misplaced g.wf.track g.wf.phase ≡ false
          → 12 ≤ n + place g.wf.phase
          → IsEnough (advance h n config engine continuation g))
      → IsEnough (elim r [ returns a ↦ a | goes_on g ↦ advance h n config engine continuation g ])
  after_round n p (returns a) later le ih = later
  after_round n p (goes_on g) (lt, m) le ih = ih g m (omega (arith, lt, le))

  -- What `advance` makes of a workflow that is going on, or is not.
  abbrev IsEnoughAt : ℕ → Flow → Bool → Type 0
  IsEnoughAt n f going = IsEnough (elim going [
    | false ↦ settled f
    | true ↦ elim (round h config engine continuation f) [
      | returns a ↦ a
      | goes_on g ↦ advance h n config engine continuation g
    ]
  ])

  -- advanceLocked returns: 12 rounds are enough for every workflow whose phase is in its track,
  -- fewer for one that is past its first phases.
  pub advance-IsEnough :
      (n : ℕ) (f : Flow)
      → is_misplaced f.wf.track f.wf.phase ≡ false
      → 12 ≤ n + place f.wf.phase
      → IsEnough (advance h n config engine continuation f)
  unfolding advance
  advance-IsEnough zero f m le = absurd (omega (arith, place_le f.wf.phase, le))
  advance-IsEnough (suc n) f m le = elim (Bool-cases (is_going h f.wf.status)) [
    | inr over ↦ subst (IsEnoughAt n f) (sym over) tt
    | inl going ↦ subst (IsEnoughAt n f) (sym going) (
        after_round n f.wf.phase (round h config engine continuation f)
          (unfold round in by_target-Later (h.resolve_target f.wf.cwd f.wf.target) f m) le
          (advance-IsEnough n))
  ]
