-- ===== src/Workflow/Turns.antt =====
-- The calls that observeLocked of backend/usecase/workflow.go makes of itself.
use Prim.Native.Nat.{ℕ, suc}
use saki_cli.Workflow.Child.{is_build_phase}
use saki_cli.Workflow.Later.{IsEnough, is_misplaced, next_phase-later, settle-IsEnough}
use saki_cli.Base.{
  ◌≡◌, refl, sym, ap, subst, ◌∙◌, inl, inr, Bool, true, false, not, ◌&&◌, ◌||◌, Option, none, some,
  List, [], arith, Bool-cases, is_some, Text, codes, is_empty, lookup, values,
}
use saki_cli.Run.{is_running, PendingResume, Run, RunEngine}
use saki_cli.Store.{get}
use saki_cli.Stream.Ndjson.{ParsedLine}
use saki_cli.Stream.Spoken.{final_spoken_text}
use saki_cli.Outcome.Decision.{parse_decision, AwaitingDecision}
use saki_cli.Workflow.{Workflow, Phase}
use saki_cli.Workflow.Answers.{Answers}
use saki_cli.Workflow.Phases.{next_phase, persist, moved, completed, complete_phase, Flow}
use saki_cli.Workflow.Advance.{Advanced}
use saki_cli.Workflow.Observe.{
  park_reason, push_recorded, find_build_successor, find_running_build, is_done_run, rounds, go_on,
  judge, decided, ended, build_pending, build_ended, by_kind, watch_child, followed, succeeded,
  child_found, child_looked, observe,
}
use saki_cli.Workflow.Honest.{persist-wf}
use saki_cli.Workflow.Fuel.{advance-IsEnough}
use saki_cli.Workflow.Following.{IsNamed, lookup-All, last_turn, turn_named}

-- The phase of a workflow is not misplaced in its track.
abbrev pub IsPlaced : Workflow → Type 0
IsPlaced w = is_misplaced w.track w.phase ≡ false

module _ (h : Answers) (config : Option Text) (engine : RunEngine) where
  moved-IsPlaced :
      (o : Option Phase) (w v : Workflow)
      → next_phase w.track w.phase ≡ o
      → v.track ≡ w.track
      → v.phase ≡ w.phase
      → IsPlaced w
      → IsPlaced (moved h o v)
  moved-IsPlaced none w v n t p m =
      ap (λ k. is_misplaced k v.phase) t ∙ ap (λ q. is_misplaced w.track q) p ∙ m
  moved-IsPlaced (some q) w v n t p m =
      subst (λ k. is_misplaced k q ≡ false) (sym t) ((next_phase-later w.track w.phase n).1)

  completed-IsPlaced : (why : Text) (w : Workflow) → IsPlaced w → IsPlaced (completed h why w)
  unfolding completed
  completed-IsPlaced why w m = moved-IsPlaced (next_phase w.track w.phase) w _ refl refl refl m

  go_on-IsEnough : (fb : Flow × Bool) → IsPlaced fb.0.wf → IsEnough (go_on h config engine fb)
  go_on-IsEnough (f, false) m = tt
  go_on-IsEnough (f, true) m = advance-IsEnough h config engine [] rounds f m (omega arith)

  judge-IsEnough :
      (run : Run) (ls : List ParsedLine) (f : Flow)
      → IsPlaced f.wf
      → IsEnough (judge h config engine run ls f)
  unfolding complete_phase
  judge-IsEnough run ls f m = elim (Bool-cases (is_empty (park_reason ls))) [
    | inr why ↦ rw why (settle-IsEnough h _)
    | inl quiet ↦ elim (Bool-cases (is_done_run run.status)) [
      | inr bad_exit ↦ rw (quiet, bad_exit) (settle-IsEnough h _)
      | inl good ↦
          let w = completed h (codes "child completed") f.wf in
          rw (quiet, good)
            (go_on-IsEnough (complete_phase h (codes "child completed") f) (
              subst IsPlaced (sym (persist-wf h (record f { wf = w })))
                (completed-IsPlaced (codes "child completed") f.wf m)))
    ]
  ]

  decided-IsEnough :
      (o : Option AwaitingDecision) (run : Run) (ls : List ParsedLine) (f : Flow)
      → IsPlaced f.wf
      → IsEnough (decided h config engine o run ls f)
  decided-IsEnough (some d) run ls f m = settle-IsEnough h _
  decided-IsEnough none run ls f m = judge-IsEnough run ls f m

  ended-IsEnough : (run : Run) (f : Flow) → IsPlaced f.wf → IsEnough (ended h config engine run f)
  unfolding ended
  ended-IsEnough run f m =
      let ls = h.output run.id in
      elim (Bool-cases
        (is_build_phase f.wf.phase && is_some run.pushed_at && not (push_recorded ls))) [
          | inl pushing_now ↦ rw pushing_now tt
          | inr over ↦
              rw over (decided-IsEnough (parse_decision h.decode (final_spoken_text ls)) run ls f m)
        ]

  build_pending-IsEnough :
      (o : Option PendingResume) (run : Run) (f : Flow)
      → IsPlaced f.wf
      → IsEnough (build_pending h config engine o run f)
  build_pending-IsEnough (some p) run f m = tt
  build_pending-IsEnough none run f m =
      ended-IsEnough run (record f { wf = record (f.wf) { pending_until = 0 } }) m

  by_kind-IsEnough :
      (a_build : Bool) (run : Run) (f : Flow)
      → IsPlaced f.wf
      → IsEnough (by_kind h config engine a_build run f)
  by_kind-IsEnough false run f m = ended-IsEnough run f m
  by_kind-IsEnough true run f m = later (find_running_build f.wf.lane_key (values h.store))
    where
      later : (o : Option Run) → IsEnough (build_ended h config engine o run f)
      later (some r) = settle-IsEnough h _
      later none = build_pending-IsEnough run.pending_resume run f m

  watch_child-IsEnough :
      (run : Run) (f : Flow) → IsPlaced f.wf → IsEnough (watch_child h config engine run f)
  unfolding watch_child
  watch_child-IsEnough run f m = elim (Bool-cases (is_running run.status || run.finalizing)) [
    | inl busy ↦ rw busy tt
    | inr over ↦ rw over (by_kind-IsEnough (is_build_phase f.wf.phase) run f m)
  ]

  -- A child without a successor is not followed.
  no_successor-IsEnough :
      (k : Flow → Advanced) (run : Run) (f : Flow)
      → IsPlaced f.wf
      → find_build_successor f.wf run (values h.store) ≡ none
      → IsEnough (child_looked h config engine k (some run) f)
  no_successor-IsEnough k run f m e = rw e (watch_child-IsEnough run f m)

  -- A flow whose child is a last turn.
  last-IsEnough :
      (n : ℕ) (f : Flow) {run : Run}
      → IsPlaced f.wf
      → get f.wf.child_run h.store ≡ some run
      → find_build_successor f.wf run (values h.store) ≡ none
      → IsEnough (observe h config engine (suc n) f)
  unfolding observe
  last-IsEnough n f {run} m at e = elim (Bool-cases (is_empty f.wf.child_run)) [
    | inl free ↦ rw free (advance-IsEnough h config engine [] rounds f m (omega arith))
    | inr busy ↦ rw busy (rw at (no_successor-IsEnough (observe h config engine n) run f m e))
  ]

  -- The flow that follows its child to the last turn.
  followed-IsEnough :
      (n : ℕ) (f : Flow) (pred : Run) {r : Run}
      → IsPlaced f.wf
      → IsNamed h.store
      → lookup pred.id h.store ≡ some pred
      → find_build_successor f.wf pred (values h.store) ≡ some r
      → (fb : Flow × Bool) → fb.0.wf ≡ followed h config engine r f.wf
      → IsEnough (succeeded h config engine (observe h config engine (suc n)) fb)
  followed-IsEnough n f pred m named at e (g, false) same_wf = tt
  followed-IsEnough n f pred {r} m named at e (g, true) same_wf =
      last-IsEnough n g {run = r} (subst IsPlaced (sym same_wf) m)
        (unfold get in
          ap (λ (w : Workflow). lookup w.child_run h.store) same_wf
          ∙ turn_named h.store f.wf pred named e)
        (last_turn h.store f.wf g.wf pred named at e (ap (λ (w : Workflow). w.lane_key) same_wf))

  found-IsEnough :
      (n : ℕ) (f : Flow) (pred : Run) (o : Option Run)
      → IsPlaced f.wf
      → IsNamed h.store
      → lookup pred.id h.store ≡ some pred
      → find_build_successor f.wf pred (values h.store) ≡ o
      → IsEnough (child_found h config engine (observe h config engine (suc n)) o pred f)
  found-IsEnough n f pred none m named at e = watch_child-IsEnough pred f m
  found-IsEnough n f pred (some r) m named at e =
      let g = record f { wf = followed h config engine r f.wf } in
      followed-IsEnough n f pred m named at e (persist h g) (persist-wf h g)

  looked-IsEnough :
      (n : ℕ) (f : Flow) (o : Option Run)
      → IsPlaced f.wf
      → IsNamed h.store
      → get f.wf.child_run h.store ≡ o
      → IsEnough (child_looked h config engine (observe h config engine (suc n)) o f)
  unfolding get
  looked-IsEnough n f none m named e = settle-IsEnough h _
  looked-IsEnough n f (some pred) m named e =
      found-IsEnough n f pred (find_build_successor f.wf pred (values h.store)) m named
        (lookup-All (λ r. lookup r.id h.store ≡ some r) f.wf.child_run h.store named e) refl

  -- observeLocked returns: where each run of the store is found under its own id, two calls of itself
  -- are enough, for a workflow whose phase is in its track.
  pub observe-IsEnough :
      (n : ℕ) (f : Flow)
      → IsPlaced f.wf
      → IsNamed h.store
      → IsEnough (observe h config engine (suc (suc n)) f)
  unfolding observe
  observe-IsEnough n f m named = elim (Bool-cases (is_empty f.wf.child_run)) [
    | inl free ↦ rw free (advance-IsEnough h config engine [] rounds f m (omega arith))
    | inr busy ↦ rw busy (looked-IsEnough n f (get f.wf.child_run h.store) m named refl)
  ]
