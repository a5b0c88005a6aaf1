-- ===== src/Workflow/Lasting.antt =====
-- Continue, Stop, Sweep and refreshTerminalLocked of backend/usecase/workflow.go on one workflow, its
-- lane, and the states that it does not leave.
use Prim.Native.Nat.{ℕ}
use saki_cli.Base.{
  ◌≡◌, refl, ap, inl, inr, Bool, true, false, none, some, arith, Bool-cases, is_none, Text,
}
use saki_cli.Run.{unset}
use saki_cli.Workflow.{
  is_terminal, WorkflowStatus, flow_running, flow_parked, flow_awaiting, flow_done, flow_failed,
  flow_stopped,
}
use saki_cli.Workflow.Answers.{Answers}
use saki_cli.Workflow.Phases.{persist, Flow}
use saki_cli.Workflow.Verify.{verify, Verified, verified, refused}
use saki_cli.Workflow.Advance.{flow_of, is_going, advance}
use saki_cli.Workflow.Observe.{rounds, observe}
use saki_cli.Workflow.Operator.{
  offers, reopens, reopened, reopen, continue_as, continue_flow, sweep_flow, stopped_by_operator,
  stop_flow, refreshed, is_done_flow, refresh_terminal, Continued, readopted_flow, refused_terminal,
  refused_option, continued,
}
use saki_cli.Workflow.Coordinator.{is_historical}
use saki_cli.Workflow.Lanes.{OnLane, persist-OnLane, advance-OnLane}
use saki_cli.Workflow.Watched.{observe-OnLane}

-- The lane stays, and a workflow that failed or was stopped stays so.
abbrev pub Keeps : Flow → Flow → Type 0
Keeps f g =
    (g.wf.lane_key ≡ f.wf.lane_key)
    × (is_historical f.wf.status ≡ true → is_historical g.wf.status ≡ true)

-- A change of a workflow that has not failed and was not stopped.
pub live-Keeps :
    (f g : Flow) → is_historical f.wf.status ≡ false → g.wf.lane_key ≡ f.wf.lane_key → Keeps f g
live-Keeps f g live e = (e, (λ over. cc))

module _ (h : Answers) where
  abbrev pub KeepsOn : Flow → Continued → Type 0
  KeepsOn f (continued a) = Keeps f (flow_of a)
  KeepsOn f readopted_flow = Unit
  KeepsOn f refused_terminal = Unit
  KeepsOn f refused_option = Unit

  reopened-KeepsOn :
      (option : Text) (f : Flow) (gb : Flow × Bool)
      → is_historical f.wf.status ≡ false
      → OnLane h f.wf.lane_key gb.0
      → KeepsOn f (reopened h option gb)
  reopened-KeepsOn option f (g, false) live e = live-Keeps f g live e
  reopened-KeepsOn option f (g, true) live e =
      live-Keeps f (flow_of (advance h rounds none unset option g)) live
        (advance-OnLane h f.wf.lane_key none unset option rounds g e)

  reopen-KeepsOn :
      (option : Text) (f : Flow) → is_historical f.wf.status ≡ false → KeepsOn f (reopen h option f)
  reopen-KeepsOn option f live =
      let g = record f { wf = reopens h.now option f.wf } in
      reopened-KeepsOn option f (persist h g) live (persist-OnLane h f.wf.lane_key g refl)

  continue_as-KeepsOn :
      (s : WorkflowStatus) (option : Text) (f : Flow)
      → f.wf.status ≡ s
      → KeepsOn f (continue_as h s option f)
  continue_as-KeepsOn flow_done option f e = tt
  continue_as-KeepsOn flow_running option f e = tt
  continue_as-KeepsOn flow_failed option f e = tt
  continue_as-KeepsOn flow_stopped option f e = tt
  continue_as-KeepsOn flow_parked option f e = reopen-KeepsOn option f (ap is_historical e)
  continue_as-KeepsOn flow_awaiting option f e =
      elim (Bool-cases (is_none f.wf.awaiting_decision)) [
        | inl lost ↦ rw lost tt
        | inr asked ↦ elim (Bool-cases (offers option f.wf.awaiting_decision)) [
          | inl known ↦ rw (asked, known) (reopen-KeepsOn option f (ap is_historical e))
          | inr other ↦ rw (asked, other) tt
        ]
      ]

  pub continue_flow-KeepsOn : (option : Text) (f : Flow) → KeepsOn f (continue_flow h option f)
  unfolding continue_flow
  continue_flow-KeepsOn option f = continue_as-KeepsOn f.wf.status option f refl

  going_live : (s : WorkflowStatus) → is_going h s ≡ true → is_historical s ≡ false
  going_live s e = ground arith

  pub sweep_flow-Keeps : (n : ℕ) (f : Flow) → Keeps f (sweep_flow h n f)
  unfolding sweep_flow
  sweep_flow-Keeps n f = elim (Bool-cases (is_going h f.wf.status)) [
    | inr idle ↦ rw idle (refl, (λ over. over))
    | inl going ↦ rw going (
        live-Keeps f (flow_of (observe h none unset n f)) (going_live f.wf.status going)
          (observe-OnLane h f.wf.lane_key none unset n f refl))
  ]

  terminal_live : (s : WorkflowStatus) → is_terminal s ≡ false → is_historical s ≡ false
  unfolding is_terminal
  terminal_live s e = ground arith

  pub stop_flow-Keeps : (f : Flow) → Keeps f (stop_flow h f).0
  unfolding stop_flow
  stop_flow-Keeps f = elim (Bool-cases (is_terminal f.wf.status)) [
    | inl over ↦ rw over (refl, (λ was. was))
    | inr open_still ↦ rw open_still (
        let g = record f { wf = stopped_by_operator h f.wf } in
        live-Keeps f (persist h g).0 (terminal_live f.wf.status open_still)
          (persist-OnLane h f.wf.lane_key g refl))
  ]

  done_live : (s : WorkflowStatus) → is_done_flow h s ≡ true → is_historical s ≡ false
  done_live s e = ground arith

  refreshed-OnLane : (f : Flow) (v : Verified) → OnLane h f.wf.lane_key (refreshed h f v)
  refreshed-OnLane f (refused why) =
      persist-OnLane h f.wf.lane_key
        (record f { wf = record (f.wf) { status = flow_failed; reason = why } }) refl
  refreshed-OnLane f (verified e) =
      persist-OnLane h f.wf.lane_key (record f { wf = record (f.wf) { evidence = some e } }) refl

  pub refresh_terminal-Keeps : (f : Flow) → Keeps f (refresh_terminal h f)
  unfolding refresh_terminal
  refresh_terminal-Keeps f = elim (Bool-cases (is_done_flow h f.wf.status)) [
    | inr other ↦ rw other (refl, (λ was. was))
    | inl ended_well ↦ rw ended_well (
        live-Keeps f (refreshed h f (verify h f.wf)) (done_live f.wf.status ended_well)
          (refreshed-OnLane f (verify h f.wf)))
  ]
