-- ===== src/Workflow/Observing.antt =====
-- observeLocked of backend/usecase/workflow.go, and the evidence of a workflow.
use Prim.Native.Nat.{ℕ, zero, suc}
use saki_cli.Workflow.Child.{is_build_phase, find_live_child, takes}
use saki_cli.Base.{
  ◌≡◌, sym, ap, subst, ◌∙◌, inl, inr, Bool, true, false, not, ◌&&◌, ◌||◌, Option, none, some, List,
  [], Bool-cases, is_some, Text, codes, is_empty, values,
}
use saki_cli.Run.{is_running, PendingResume, Run, RunEngine}
use saki_cli.Stream.Ndjson.{ParsedLine}
use saki_cli.Stream.Spoken.{final_spoken_text}
use saki_cli.Outcome.Decision.{parse_decision, AwaitingDecision}
use saki_cli.Workflow.{Workflow, flow_running}
use saki_cli.Workflow.Answers.{Answers}
use saki_cli.Workflow.Phases.{persist, completed, complete_phase, Flow}
use saki_cli.Workflow.Advance.{flow_of, settle, Advanced}
use saki_cli.Workflow.Observe.{
  park_reason, push_recorded, find_build_successor, find_running_build, follows, waits_for, asks,
  parks, is_done_run, rounds, go_on, judge, decided, ended, build_pending, build_ended, by_kind,
  watch_child, lost_child, followed, succeeded, child_found, child_looked, observe,
}
use saki_cli.Workflow.Honest.{Honest, persist-wf, saved-Honest, fail-Honest, completed-status}
use saki_cli.Workflow.Success.{advance-Honest}
use saki_cli.Store.{get}

module _ (h : Answers) (config : Option Text) (engine : RunEngine) where
  go_on-Honest :
      (fb : Flow × Bool)
      → fb.0.wf.status ≡ flow_running
      → Honest h (flow_of (go_on h config engine fb)).wf
  go_on-Honest (f, false) e = inl (λ d. cc)
  go_on-Honest (f, true) e = advance-Honest h config engine [] rounds f (inl (λ d. cc))

  judge-Honest :
      (run : Run) (ls : List ParsedLine) (f : Flow)
      → f.wf.status ≡ flow_running
      → Honest h (flow_of (judge h config engine run ls f)).wf
  unfolding complete_phase
  judge-Honest run ls f e = elim (Bool-cases (is_empty (park_reason ls))) [
    | inr why ↦ rw why (saved-Honest h (record f { wf = parks (park_reason ls) f.wf }) (λ d. cc))
    | inl quiet ↦ elim (Bool-cases (is_done_run run.status)) [
      | inr bad_exit ↦ rw (quiet, bad_exit) (fail-Honest h _ f)
      | inl good ↦
          let w = completed h (codes "child completed") f.wf in
          rw (quiet, good)
            (go_on-Honest (complete_phase h (codes "child completed") f) (
              ap (λ (v : Workflow). v.status) (persist-wf h (record f { wf = w }))
              ∙ completed-status h (codes "child completed") f.wf
              ∙ e))
    ]
  ]

  decided-Honest :
      (o : Option AwaitingDecision) (run : Run) (ls : List ParsedLine) (f : Flow)
      → f.wf.status ≡ flow_running
      → Honest h (flow_of (decided h config engine o run ls f)).wf
  decided-Honest (some d) run ls f e = saved-Honest h (record f { wf = asks d f.wf }) (λ x. cc)
  decided-Honest none run ls f e = judge-Honest run ls f e

  ended-Honest :
      (run : Run) (f : Flow)
      → f.wf.status ≡ flow_running
      → Honest h (flow_of (ended h config engine run f)).wf
  unfolding ended
  ended-Honest run f e =
      let ls = h.output run.id in
      elim (Bool-cases
        (is_build_phase f.wf.phase && is_some run.pushed_at && not (push_recorded ls))) [
          | inl pushing_now ↦ rw pushing_now (inl (λ d. cc))
          | inr over ↦
              rw over (decided-Honest (parse_decision h.decode (final_spoken_text ls)) run ls f e)
        ]

  build_pending-Honest :
      (o : Option PendingResume) (run : Run) (f : Flow)
      → f.wf.status ≡ flow_running
      → Honest h (flow_of (build_pending h config engine o run f)).wf
  build_pending-Honest (some p) run f e =
      subst (Honest h) (sym (persist-wf h (record f { wf = waits_for p f.wf }))) (inl (λ d. cc))
  build_pending-Honest none run f e =
      ended-Honest run (record f { wf = record (f.wf) { pending_until = 0 } }) e

  build_ended-Honest :
      (o : Option Run) (run : Run) (f : Flow)
      → f.wf.status ≡ flow_running
      → Honest h (flow_of (build_ended h config engine o run f)).wf
  build_ended-Honest (some r) run f e = saved-Honest h (record f { wf = follows r f.wf }) (λ d. cc)
  build_ended-Honest none run f e = build_pending-Honest run.pending_resume run f e

  by_kind-Honest :
      (a_build : Bool) (run : Run) (f : Flow)
      → f.wf.status ≡ flow_running
      → Honest h (flow_of (by_kind h config engine a_build run f)).wf
  by_kind-Honest true run f e =
      build_ended-Honest (find_running_build f.wf.lane_key (values h.store)) run f e
  by_kind-Honest false run f e = ended-Honest run f e

  watch_child-Honest :
      (run : Run) (f : Flow)
      → f.wf.status ≡ flow_running
      → Honest h (flow_of (watch_child h config engine run f)).wf
  unfolding watch_child
  watch_child-Honest run f e = elim (Bool-cases (is_running run.status || run.finalizing)) [
    | inl busy ↦ rw busy (inl (λ d. cc))
    | inr over ↦ rw over (by_kind-Honest (is_build_phase f.wf.phase) run f e)
  ]

  lost_child-Honest :
      (o : Option Run) (f : Flow)
      → f.wf.status ≡ flow_running
      → Honest h (flow_of (settle (lost_child h config engine o f))).wf
  lost_child-Honest (some r) f e =
      saved-Honest h (record f { wf = takes h.store r.id f.wf }) (λ d. cc)
  lost_child-Honest none f e =
      fail-Honest h (codes "child run disappeared; refusing to claim workflow success") f

  module _ (k : Flow → Advanced)
      (honest : (g : Flow) → g.wf.status ≡ flow_running → Honest h (flow_of (k g)).wf) where
    succeeded-Honest :
        (fb : Flow × Bool)
        → fb.0.wf.status ≡ flow_running
        → Honest h (flow_of (succeeded h config engine k fb)).wf
    succeeded-Honest (g, false) e = inl (λ d. cc)
    succeeded-Honest (g, true) e = honest g e

    child_found-Honest :
        (o : Option Run) (run : Run) (f : Flow)
        → f.wf.status ≡ flow_running
        → Honest h (flow_of (child_found h config engine k o run f)).wf
    child_found-Honest none run f e = watch_child-Honest run f e
    child_found-Honest (some r) run f e =
        let g = record f { wf = followed h config engine r f.wf } in
        succeeded-Honest (persist h g) (ap (λ (v : Workflow). v.status) (persist-wf h g) ∙ e)

    child_looked-Honest :
        (o : Option Run) (f : Flow)
        → f.wf.status ≡ flow_running
        → Honest h (flow_of (child_looked h config engine k o f)).wf
    child_looked-Honest none f e =
        lost_child-Honest (find_live_child f.wf.lane_key (values h.store)) f e
    child_looked-Honest (some run) f e =
        child_found-Honest (find_build_successor f.wf run (values h.store)) run f e

  pub observe-Honest :
      (n : ℕ) (f : Flow)
      → f.wf.status ≡ flow_running
      → Honest h (flow_of (observe h config engine n f)).wf
  unfolding observe
  observe-Honest zero f e = inl (λ d. cc)
  observe-Honest (suc n) f e = elim (Bool-cases (is_empty f.wf.child_run)) [
    | inl free ↦ rw free (advance-Honest h config engine [] rounds f (inl (λ d. cc)))
    | inr busy ↦ rw busy (
        child_looked-Honest (observe h config engine n) (observe-Honest n)
          (get f.wf.child_run h.store) f e)
  ]
