-- ===== src/Scenarios/Engine.antt =====
-- One build, from its request to its last turn.
use Prim.Native.Nat.{◌+◌, ◌≤◌}
use saki_cli.Outcome.Decision.{parse_decision}
use saki_cli.Outcome.Sentinels.{is_terminal_end}
use saki_cli.Base.{
  ◌≡◌, refl, true, false, Option, none, some, [], ◌∷◌, ◌++◌, arith, codes, same, lookup, values,
  pos,
}
use saki_cli.Run.{Run, build, RedriveCause, exit}
use saki_cli.World.{World}
use saki_cli.Store.Lanes.{live, OneLive}
use saki_cli.Outcome.{classify_outcome, retryable}
use saki_cli.Engine.Spawn.{spawn_build}
use saki_cli.Engine.Resume.{
  plan_resume, pending_of, schedule_resume, successor_of, fire_pending_resume, ResumeDecision,
}
use saki_cli.Engine.Exit.{on_exit}
use saki_cli.Engine.Watch.{stop_signalled, stop}
use saki_cli.Engine.Fire.{spawns}
use saki_cli.Engine.Reach.{Reach-OneLive, request, here, next}
use saki_cli.Engine.Budget.{
  plan_resume-IsWithinBudget, Chain-bounded, IsWithinBudget, start, resume,
}
use saki_cli.Engine.Once.{fire_all, fire_all_once}
use saki_cli.Engine.Stopped.{stop_final, IsCancelled, stop_race}
use saki_cli.Scenarios.Setting.{host_at, empty_world, asked, at_work, paused_run, world_of}

empty-OneLive : OneLive build empty_world.runs
unfolding live values
empty-OneLive lane e = omega arith

-- Two requests for a lane: the second is answered with the first one's run.
abbrev requested_twice : World
requested_twice =
    (spawn_build (host_at 20) (record asked { idempotency_key = none })
      (spawn_build (host_at 10) asked empty_world).0).0

Reach-OneLive_example : OneLive build requested_twice.runs
Reach-OneLive_example = Reach-OneLive empty-OneLive (
    next (next here (request (host_at 10) asked))
      (request (host_at 20) (record asked { idempotency_key = none })))

stop_answered : (stop (host_at 30) (codes "b") (world_of paused_run)).1 ≡ true
unfolding stop lookup same
stop_answered = refl

stop_final_example :
    let w = (stop (host_at 30) (codes "b") (world_of paused_run)).0 in
    (on_exit (host_at 40) (codes "b") (pos 1) w ≡ w)
    × (fire_pending_resume (host_at 40) (codes "b") w ≡ w)
    × (stop (host_at 40) (codes "b") w ≡ (w, false))
stop_final_example =
    stop_final (host_at 40) (codes "b") (host_at 30) (pos 1) (world_of paused_run) stop_answered

abbrev decided : ResumeDecision
decided = record {
  successor_id = codes "c";
  delay_ms = 5000;
  next_resume_count = 3;
  next_streak = 0;
  first_started_at = 10;
}

at_work_there : lookup (codes "b") (world_of at_work).runs ≡ some at_work
unfolding lookup same
at_work_there = refl

-- A Stop and an exit of the run at work.
stop_race_example :
    let first =
      schedule_resume
        (host_at 40)
        at_work
        decided
        (stop_signalled (host_at 30) (codes "b") at_work (world_of at_work)) in
    let second =
      stop_signalled
        (host_at 30)
        (codes "b")
        at_work
        (schedule_resume (host_at 40) at_work decided (world_of at_work)) in
    (first.effects ≡ (stop_signalled (host_at 30) (codes "b") at_work (world_of at_work)).effects)
    × IsCancelled (host_at 40) (codes "b") (lookup (codes "b") first.runs)
    × IsCancelled (host_at 40) (codes "b") (lookup (codes "b") second.runs)
    × (fire_pending_resume (host_at 50) (codes "b") first ≡ first)
    × (fire_pending_resume (host_at 50) (codes "b") second ≡ second)
stop_race_example =
    stop_race (host_at 40) (host_at 30) (host_at 50) at_work at_work decided (world_of at_work)
      at_work_there

fire_all_once_example :
    spawns (fire_all (host_at 30 ∷ host_at 31 ∷ host_at 32 ∷ []) (codes "b") (world_of paused_run))
    ≤ 1
fire_all_once_example =
    fire_all_once (host_at 30 ∷ host_at 31 ∷ host_at 32 ∷ []) (codes "b") (world_of paused_run)

abbrev crashed : RedriveCause
crashed = exit (some (pos 1))

-- The crash of at_work, and what planResume decides then.
abbrev crash_plan : World × Option ResumeDecision
crash_plan = plan_resume (host_at 40) at_work [] crashed (world_of at_work)

abbrev next_decision : ResumeDecision
next_decision = record {
  successor_id = codes "run" ++ 0 ∷ [];
  delay_ms = 5000;
  next_resume_count = 3;
  next_streak = 0;
  first_started_at = 10;
}

crash_planned : crash_plan.1 ≡ some next_decision
unfolding plan_resume parse_decision is_terminal_end
crash_planned = refl

plan_resume-IsWithinBudget_example :
    (classify_outcome (host_at 40).decode build [] crashed ≡ retryable)
    × IsWithinBudget (host_at 40) at_work next_decision
plan_resume-IsWithinBudget_example =
    plan_resume-IsWithinBudget (host_at 40) at_work [] crashed (world_of at_work) crash_planned

abbrev second_turn : Run
second_turn = successor_of (host_at 50) (pending_of (host_at 40) next_decision) at_work

Chain-bounded_example : (second_turn.resume_count ≡ 2 + 1) × (2 + 1 ≤ 40)
Chain-bounded_example = Chain-bounded {first = at_work} {last = second_turn} (omega arith) (
    resume (host_at 40) [] crashed (world_of at_work) next_decision (host_at 50) start refl
      crash_planned)
