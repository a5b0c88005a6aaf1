-- ===== src/Workflow/Stopping.antt =====
-- Stop and Continue of backend/usecase/workflow.go.
use Prim.Native.Nat.{ℕ}
use saki_cli.Base.{◌≡◌, refl, ap, inl, inr, none, some, Bool-cases, Text}
use saki_cli.Workflow.{is_terminal, Workflow, flow_stopped}
use saki_cli.Workflow.Answers.{Answers}
use saki_cli.Workflow.Phases.{Flow}
use saki_cli.Workflow.Operator.{
  continue_flow, sweep_flow, stopped_by_operator, stop_flow, refused_terminal,
}
use saki_cli.Workflow.Honest.{persist-wf}

module _ (h : Answers) where
  stop_flow-status :
      (f : Flow) {child : Text}
      → (stop_flow h f).1 ≡ some child
      → (stop_flow h f).0.wf.status ≡ flow_stopped
  unfolding stop_flow
  stop_flow-status f e = elim (Bool-cases (is_terminal f.wf.status)) [
    | inl over ↦ cc (rw over at e)
    | inr going ↦ rw going (
        ap (λ (w : Workflow). w.status)
          (persist-wf h (record f { wf = stopped_by_operator h f.wf })))
  ]

-- A stopped workflow stays stopped: whatever the ports answer later, a sweep leaves it as it is, a
-- second stop is refused, and it is not continued, with any option.
pub stop_flow_final :
    (h later : Answers) (f : Flow) (n : ℕ) (option : Text) {child : Text}
    → (stop_flow h f).1 ≡ some child
    → (sweep_flow later n (stop_flow h f).0 ≡ (stop_flow h f).0)
      × (stop_flow later (stop_flow h f).0 ≡ ((stop_flow h f).0, none))
      × (continue_flow later option (stop_flow h f).0 ≡ refused_terminal)
unfolding sweep_flow stop_flow continue_flow is_terminal
stop_flow_final h later f n option e = of_stopped (stop_flow h f).0 (stop_flow-status h f e)
  where
    of_stopped :
        (g : Flow)
        → g.wf.status ≡ flow_stopped
        → (sweep_flow later n g ≡ g)
          × (stop_flow later g ≡ (g, none))
          × (continue_flow later option g ≡ refused_terminal)
    of_stopped g s = (rw s refl, rw s refl, rw s refl)
