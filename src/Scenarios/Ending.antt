-- ===== src/Scenarios/Ending.antt =====
-- How a build's turns end: a repeated request, a watchdog's round, a push, a boot and a park.
use saki_cli.Base.{
  ◌≡◌, refl, true, false, none, some, List, [], ◌∷◌, ◌++◌, codes, same, to_lower, All, lookup,
  values, pos,
}
use saki_cli.Store.{finalize, find_live}
use saki_cli.Run.{Run, build, exit}
use saki_cli.World.{read_all, World, binary_not_found, not_spawned}
use saki_cli.Outcome.{classify_outcome, retryable}
use saki_cli.Outcome.Sentinels.{is_parked_text, is_build_complete, is_terminal_end}
use saki_cli.Outcome.Decision.{parse_decision}
use saki_cli.Outcome.Parked.{parked_reason_of}
use saki_cli.Json.{str, obj, end, field}
use saki_cli.Stream.Ndjson.{ParsedLine, json}
use saki_cli.Engine.Spawn.{
  new_build_run, request_spec, spawn_build, spawn_started, spawn_deduped, ok,
}
use saki_cli.Engine.Resume.{plan_resume, rearm_or_park}
use saki_cli.Engine.Watch.{sweep_run, stop, rehydrate_builds, RehydratedRun}
use saki_cli.Engine.Fire.{spawns}
use saki_cli.Engine.Replay.{replay}
use saki_cli.Engine.Between.{process_exit, operator_stop, nothing, then_also}
use saki_cli.Engine.Exit.{can_finalize, finalize_with, on_exit}
use saki_cli.Engine.Stall.{sweep_run-Watched, Watched}
use saki_cli.Stream.Spoken.{final_spoken_text}
use saki_cli.Engine.Push.{pushes, push_all, push_all_once}
use saki_cli.Engine.Routes.{Routed}
use saki_cli.Engine.Restart.{rehydrate_builds-Routed}
use saki_cli.Engine.Parked.{declined-IsShown, rearm_or_park-no_reason}
use saki_cli.Scenarios.Setting.{host_at, empty_world, asked, at_work, next_turn, world_of}

-- The first request of a build, answered.
abbrev begun : World
begun = (spawn_build (host_at 10) asked empty_world).0

abbrev first_turn : Run
first_turn =
    record (new_build_run (host_at 10) (request_spec (host_at 10) asked (codes "run" ++ 0 ∷ []))) {
      pid = some (pos 77);
    }

begun_first : spawn_build (host_at 10) asked empty_world ≡ (begun, ok first_turn spawn_started)
unfolding spawn_build lookup find_live values
begun_first = refl

-- The first turn has failed by then, and the operator has stopped what was to follow.
abbrev exited : World
exited = on_exit (host_at 30) first_turn.id (pos 1) begun

abbrev halted : World
halted = (stop (host_at 35) first_turn.id exited).0

replay_example :
    (r : Run) × (spawn_build (host_at 99) asked halted ≡ (halted, ok r spawn_deduped))
    × (r.id ≡ first_turn.id)
replay_example =
    replay (host_at 10) (host_at 99) asked asked (codes "key") empty_world begun halted first_turn
      spawn_started tt refl refl refl begun_first
      (then_also (then_also nothing (process_exit (host_at 30) first_turn.id (pos 1)))
        (operator_stop (host_at 35) first_turn.id))

-- The run has ended by the time of the repeat.
has_ended : can_finalize (lookup first_turn.id halted.runs) ≡ false
unfolding on_exit stop finalize_with finalize lookup spawn_build find_live values
    saki_cli.Base.update saki_cli.Base.insert same parse_decision is_terminal_end
has_ended = refl

sweep_run-Watched_example :
    Watched
      (host_at 1800020)
      at_work
      (world_of at_work)
      (sweep_run (host_at 1800020) at_work (world_of at_work))
sweep_run-Watched_example = sweep_run-Watched (host_at 1800020) at_work (world_of at_work)

-- The agent's last message says that the build is complete.
abbrev finished : List ParsedLine
finished =
    json (
      obj (
        field (codes "type") (str (codes "result"))
          (field (codes "result") (str (codes "PRD_BUILD_COMPLETE")) end)))
    ∷ []

-- The first finalize starts the push, the second does not.
push_all_once_example :
    pushes
      (push_all ((host_at 40, finished) ∷ (host_at 41, finished) ∷ []) at_work (world_of at_work))
    ≡ 1
unfolding is_build_complete final_spoken_text lookup same to_lower
push_all_once_example =
    push_all_once ((host_at 40, finished) ∷ (host_at 41, finished) ∷ []) at_work (world_of at_work)

-- Its process did not survive, and left no exit code; that of the next one is there.
abbrev found_dead : RehydratedRun
found_dead = record { run = at_work; pid_alive = false; exit_code = none; has_exit = false }

abbrev other_work : Run
other_work = record at_work { id = codes "a" }

abbrev found_alive : RehydratedRun
found_alive = record { run = other_work; pid_alive = true; exit_code = none; has_exit = false }

abbrev both_loaded : World
both_loaded = record empty_world { runs = (codes "b", at_work) ∷ (codes "a", other_work) ∷ [] }

rehydrate_builds-Routed_example :
    All
      (Routed
        (host_at 60)
        both_loaded.runs
        (rehydrate_builds (host_at 60) (found_dead ∷ found_alive ∷ []) both_loaded).runs)
      (found_dead ∷ found_alive ∷ [])
    × (spawns (rehydrate_builds (host_at 60) (found_dead ∷ found_alive ∷ []) both_loaded)
        ≡ spawns both_loaded)
unfolding same
rehydrate_builds-Routed_example =
    rehydrate_builds-Routed (host_at 60) (found_dead ∷ found_alive ∷ []) both_loaded
      (refl, (refl, tt)) ((refl, tt), (tt, tt))

-- All its turns are used up.
abbrev worn_out : Run
worn_out = record at_work { resume_count = 40 }

worn_out_plan :
    (classify_outcome (host_at 40).decode build [] (exit (some (pos 1))) ≡ retryable)
    × ((plan_resume (host_at 40) worn_out [] (exit (some (pos 1))) (world_of worn_out)).1 ≡ none)
unfolding plan_resume parse_decision is_terminal_end
worn_out_plan = (refl, refl)

declined-IsShown_example :
    is_parked_text (
      parked_reason_of (
        read_all
          (codes "b")
          (plan_resume (host_at 40) worn_out [] (exit (some (pos 1))) (world_of worn_out)).0))
    ≡ true
declined-IsShown_example =
    declined-IsShown (host_at 40) worn_out refl [] (exit (some (pos 1))) (world_of worn_out)
      (λ e. cc (e, worn_out_plan.0)) (λ e. cc (e, worn_out_plan.0)) worn_out_plan.1

rearm_or_park-no_reason_example :
    parked_reason_of (
      read_all (codes "b") (
        rearm_or_park
          (host_at 40)
          (codes "b")
          next_turn
          (not_spawned binary_not_found)
          (world_of at_work)))
    ≡ parked_reason_of (read_all (codes "b") (world_of at_work))
rearm_or_park-no_reason_example =
    rearm_or_park-no_reason (host_at 40) (codes "b") next_turn (world_of at_work) refl
