-- ===== src/Workflow/Trusted.antt =====
-- Rehydrate of backend/usecase/workflow.go, and the workflows that a boot finds done.
use Prim.Native.Nat.{ℕ}
use saki_cli.Base.{
  ◌≡◌, refl, sym, subst, ◌≢◌, inl, inr, true, false, none, some, List, [], arith, Bool-cases, Text,
  lookup, map_values, lookup-map_values,
}
use saki_cli.Run.{unset}
use saki_cli.Workflow.{WorkflowStatus, flow_running, flow_done, flow_failed}
use saki_cli.Workflow.Answers.{Answers}
use saki_cli.Workflow.Phases.{Flow}
use saki_cli.Workflow.Verify.{verify, Verified, verified, refused}
use saki_cli.Workflow.Advance.{is_going}
use saki_cli.Workflow.Operator.{sweep_flow, refreshed, is_done_flow, refresh_terminal}
use saki_cli.Workflow.Honest.{Honest, persist-wf, Backed}
use saki_cli.Workflow.Observing.{observe-Honest}
use saki_cli.Workflow.Verdict.{not_done}
use saki_cli.Workflow.Coordinator.{sweep, Flows}
use saki_cli.Workflow.Rehydrate.{load_all, rehydrate, Stored}

module _ (h : Answers) where
  refreshed-Honest : (f : Flow) (v : Verified) → verify h f.wf ≡ v → Honest h (refreshed h f v).wf
  refreshed-Honest f (refused why) e =
      let g : Flow = record f { wf = record (f.wf) { status = flow_failed; reason = why } } in
      subst (Honest h) (sym (persist-wf h g)) (inl (λ d. cc))
  refreshed-Honest f (verified evidence) e =
      let g : Flow = record f { wf = record (f.wf) { evidence = some evidence } } in
      subst (Honest h) (sym (persist-wf h g)) (
        inr (record {
          checked = f.wf;
          given = evidence;
          is_verified = e;
          kept = refl;
          same_track = refl;
          same_cwd = refl;
          same_target = refl;
        }))

  other_status : (s : WorkflowStatus) → is_done_flow h s ≡ false → s ≢ flow_done
  other_status s e = λ d. cc

  going_running : (s : WorkflowStatus) → is_going h s ≡ true → s ≡ flow_running
  going_running s e = ground arith

  refresh_terminal-Honest : (f : Flow) → Honest h (refresh_terminal h f).wf
  unfolding refresh_terminal
  refresh_terminal-Honest f = elim (Bool-cases (is_done_flow h f.wf.status)) [
    | inl success ↦ rw success (refreshed-Honest f (verify h f.wf) refl)
    | inr other ↦ rw other (inl (other_status f.wf.status other))
  ]

  sweep_flow-Honest : (n : ℕ) (f : Flow) → Honest h f.wf → Honest h (sweep_flow h n f).wf
  unfolding sweep_flow
  sweep_flow-Honest n f honest = elim (Bool-cases (is_going h f.wf.status)) [
    | inl going ↦ rw going (observe-Honest h none unset n f (going_running f.wf.status going))
    | inr idle ↦ rw idle honest
  ]

  -- After a boot, whatever the records of the journal say, a workflow that is done has the evidence
  -- that verify gave during the boot for its track, its working directory and its target.
  pub rehydrate-Backed :
      (n : ℕ) (wd : Text) (rs : List Stored) (s : Flows) (id : Text) (f : Flow)
      → lookup id (rehydrate h n wd (some rs) s).flows ≡ some f
      → f.wf.status ≡ flow_done
      → Backed h f.wf
  unfolding rehydrate sweep
  rehydrate-Backed n wd rs s id f at e =
      let t = load_all h wd rs (record { flows = []; by_lane = []; by_idem = [] }) in
      let (g, at_g, made_f) =
        lookup-map_values (sweep_flow h n) id (map_values (refresh_terminal h) t.flows) at in
      let (x, at_x, made_g) = lookup-map_values (refresh_terminal h) id t.flows at_g in
      let honest_g = subst (λ (y : Flow). Honest h y.wf) made_g (refresh_terminal-Honest x) in
      not_done (subst (λ (y : Flow). Honest h y.wf) made_f (sweep_flow-Honest n g honest_g)) e
