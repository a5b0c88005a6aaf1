-- ===== src/Workflow/Watched.antt =====
-- observeLocked of backend/usecase/workflow.go, and the lane of a workflow.
use Prim.Native.Nat.{ℕ, zero, suc}
use saki_cli.Base.{
  inl, inr, Bool, true, false, not, ◌&&◌, ◌||◌, Option, none, some, List, [], Bool-cases, is_some,
  Text, codes, is_empty, values,
}
use saki_cli.Run.{is_running, PendingResume, Run, RunEngine}
use saki_cli.Workflow.Child.{is_build_phase, find_live_child, takes}
use saki_cli.Workflow.Answers.{Answers}
use saki_cli.Workflow.Phases.{persist, complete_phase, Flow}
use saki_cli.Workflow.Advance.{flow_of, settle, Advanced}
use saki_cli.Workflow.Observe.{
  park_reason, push_recorded, find_build_successor, find_running_build, follows, waits_for, asks,
  parks, is_done_run, rounds, go_on, judge, decided, ended, build_pending, build_ended, by_kind,
  watch_child, lost_child, followed, succeeded, child_found, child_looked, observe,
}
use saki_cli.Workflow.Lanes.{
  OnLane, persist-OnLane, saved-OnLane, fail-OnLane, complete-OnLane, advance-OnLane,
}
use saki_cli.Stream.Ndjson.{ParsedLine}
use saki_cli.Stream.Spoken.{final_spoken_text}
use saki_cli.Outcome.Decision.{parse_decision, AwaitingDecision}
use saki_cli.Store.{get}

module _ (h : Answers) (lane : Text) (config : Option Text) (engine : RunEngine) where
  go_on-OnLane :
      (fb : Flow × Bool) → OnLane h lane fb.0 → OnLane h lane (flow_of (go_on h config engine fb))
  go_on-OnLane (f, false) e = e
  go_on-OnLane (f, true) e = advance-OnLane h lane config engine [] rounds f e

  judge-OnLane :
      (run : Run) (ls : List ParsedLine) (f : Flow)
      → OnLane h lane f
      → OnLane h lane (flow_of (judge h config engine run ls f))
  judge-OnLane run ls f e = elim (Bool-cases (is_empty (park_reason ls))) [
    | inr why ↦ rw why (saved-OnLane h lane (record f { wf = parks (park_reason ls) f.wf }) e)
    | inl quiet ↦ elim (Bool-cases (is_done_run run.status)) [
      | inr bad_exit ↦ rw (quiet, bad_exit) (fail-OnLane h lane _ f e)
      | inl good ↦
          rw (quiet, good)
            (go_on-OnLane (complete_phase h (codes "child completed") f)
              (complete-OnLane h lane (codes "child completed") f e))
    ]
  ]

  decided-OnLane :
      (o : Option AwaitingDecision) (run : Run) (ls : List ParsedLine) (f : Flow)
      → OnLane h lane f
      → OnLane h lane (flow_of (decided h config engine o run ls f))
  decided-OnLane (some d) run ls f e = saved-OnLane h lane (record f { wf = asks d f.wf }) e
  decided-OnLane none run ls f e = judge-OnLane run ls f e

  ended-OnLane :
      (run : Run) (f : Flow)
      → OnLane h lane f
      → OnLane h lane (flow_of (ended h config engine run f))
  unfolding ended
  ended-OnLane run f e =
      let ls = h.output run.id in
      elim (Bool-cases
        (is_build_phase f.wf.phase && is_some run.pushed_at && not (push_recorded ls))) [
          | inl pushing_now ↦ rw pushing_now e
          | inr over ↦
              rw over (decided-OnLane (parse_decision h.decode (final_spoken_text ls)) run ls f e)
        ]

  build_pending-OnLane :
      (o : Option PendingResume) (run : Run) (f : Flow)
      → OnLane h lane f
      → OnLane h lane (flow_of (build_pending h config engine o run f))
  build_pending-OnLane (some p) run f e =
      persist-OnLane h lane (record f { wf = waits_for p f.wf }) e
  build_pending-OnLane none run f e =
      ended-OnLane run (record f { wf = record (f.wf) { pending_until = 0 } }) e

  build_ended-OnLane :
      (o : Option Run) (run : Run) (f : Flow)
      → OnLane h lane f
      → OnLane h lane (flow_of (build_ended h config engine o run f))
  build_ended-OnLane (some r) run f e = saved-OnLane h lane (record f { wf = follows r f.wf }) e
  build_ended-OnLane none run f e = build_pending-OnLane run.pending_resume run f e

  by_kind-OnLane :
      (a_build : Bool) (run : Run) (f : Flow)
      → OnLane h lane f
      → OnLane h lane (flow_of (by_kind h config engine a_build run f))
  by_kind-OnLane true run f e =
      build_ended-OnLane (find_running_build f.wf.lane_key (values h.store)) run f e
  by_kind-OnLane false run f e = ended-OnLane run f e

  watch_child-OnLane :
      (run : Run) (f : Flow)
      → OnLane h lane f
      → OnLane h lane (flow_of (watch_child h config engine run f))
  unfolding watch_child
  watch_child-OnLane run f e = elim (Bool-cases (is_running run.status || run.finalizing)) [
    | inl busy ↦ rw busy e
    | inr over ↦ rw over (by_kind-OnLane (is_build_phase f.wf.phase) run f e)
  ]

  lost_child-OnLane :
      (o : Option Run) (f : Flow)
      → OnLane h lane f
      → OnLane h lane (flow_of (settle (lost_child h config engine o f)))
  lost_child-OnLane (some r) f e = saved-OnLane h lane (record f { wf = takes h.store r.id f.wf }) e
  lost_child-OnLane none f e = fail-OnLane h lane _ f e

  module _ (k : Flow → Advanced)
      (keeps : (g : Flow) → OnLane h lane g → OnLane h lane (flow_of (k g))) where
    succeeded-OnLane :
        (fb : Flow × Bool)
        → OnLane h lane fb.0
        → OnLane h lane (flow_of (succeeded h config engine k fb))
    succeeded-OnLane (g, false) e = e
    succeeded-OnLane (g, true) e = keeps g e

    child_looked-OnLane :
        (o : Option Run) (f : Flow)
        → OnLane h lane f
        → OnLane h lane (flow_of (child_looked h config engine k o f))
    child_looked-OnLane none f e =
        lost_child-OnLane (find_live_child f.wf.lane_key (values h.store)) f e
    child_looked-OnLane (some run) f e = found_with (find_build_successor f.wf run (values h.store))
      where
        found_with :
            (o : Option Run) → OnLane h lane (flow_of (child_found h config engine k o run f))
        found_with none = watch_child-OnLane run f e
        found_with (some r) =
            let g = record f { wf = followed h config engine r f.wf } in
            succeeded-OnLane (persist h g) (persist-OnLane h lane g e)

  pub observe-OnLane :
      (n : ℕ) (f : Flow) → OnLane h lane f → OnLane h lane (flow_of (observe h config engine n f))
  unfolding observe
  observe-OnLane zero f e = e
  observe-OnLane (suc n) f e = elim (Bool-cases (is_empty f.wf.child_run)) [
    | inl free ↦ rw free (advance-OnLane h lane config engine [] rounds f e)
    | inr busy ↦ rw busy (
        child_looked-OnLane (observe h config engine n) (observe-OnLane n)
          (get f.wf.child_run h.store) f e)
  ]
