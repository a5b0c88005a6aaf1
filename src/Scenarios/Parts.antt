-- ===== src/Scenarios/Parts.antt =====
-- The smaller parts: the output's parser, the journal, the waits and the store.
use Prim.Native.Nat.{◌≤◌, ◌<◌, ◌*◌, ◌^◌, min}
use saki_cli.Workflow.Child.{child_request}
use saki_cli.Workflow.Adapter.{spawn_child, stop_child}
use saki_cli.Workflow.Routed.{child-OneLive}
use saki_cli.Scenarios.Journey.{answers, in_build}
use saki_cli.Service.Spawn.{spawn_run, spawn_init, SpawnReq}
use saki_cli.Service.Lifecycle.{exit_observed, reap_tick}
use saki_cli.Service.Phantom.{spawn_build-no_phantom}
use saki_cli.Engine.Watch.{TerminalState, finished}
use saki_cli.Base.{
  ℕ, ◌≡◌, refl, true, false, Option, none, some, [], ◌++◌, arith, Text, codes, same, lookup, values,
  minus_one, pos,
}
use saki_cli.Run.{claude, build, init}
use saki_cli.Store.{finalize, find_live}
use saki_cli.Store.Finalize.{finalize_twice}
use saki_cli.Store.Lanes.{live, OneLive}
use saki_cli.Stream.Ndjson.{push, NdjsonParser}
use saki_cli.Stream.Chunks.{push-append}
use saki_cli.Journal.{to_record, of_record}
use saki_cli.Journal.RoundTrip.{forgetful, of_record-to_record, resumed_on_claude}
use saki_cli.Engine.Spawn.{spec_of, spawn_build, err}
use saki_cli.Engine.Resume.{successor_of}
use saki_cli.Engine.Backoff.{less64, backoff, backoff-min, backoff_wraps}
use saki_cli.Outcome.Limit.{parse_reset_at, parse_reset_at_future}
use saki_cli.Json.{Json}
use saki_cli.Scenarios.Setting.{
  clock, host_at, empty_world, repo_lane, asked, at_work, next_turn, world_of,
}
use saki_cli.World.{Host, binary_not_found, failed, not_spawned}

abbrev nothing_read : NdjsonParser
nothing_read = record { buf = [] }

abbrev no_json : Text → Option Json
no_json t = none

push-append_example : push no_json nothing_read (codes "ab" ++ codes "c\nd") ≡ (
  (push no_json nothing_read (codes "ab")).0
      ++ (push no_json (push no_json nothing_read (codes "ab")).1 (codes "c\nd")).0,
  (push no_json (push no_json nothing_read (codes "ab")).1 (codes "c\nd")).1,
)
push-append_example = push-append no_json nothing_read (codes "ab") (codes "c\nd")

of_record-to_record_example : of_record (to_record at_work) ≡ forgetful at_work
of_record-to_record_example = of_record-to_record at_work (omega arith)

resumed_on_claude_example :
    (spec_of build (successor_of (host_at 40) next_turn (of_record (to_record at_work)))).engine
    ≡ claude
resumed_on_claude_example = resumed_on_claude (host_at 40) next_turn at_work

backoff-min_example : backoff 5000 300000 2 ≡ min (5000 * 2 ^ 2) 300000
backoff-min_example = backoff-min 5000 300000 2 (omega arith) (omega arith)

backoff_wraps_example :
    (2 ^ 63 ≤ backoff (2 ^ 62) 300000 1) × (less64 (backoff (2 ^ 62) 300000 1) 0 ≡ true)
backoff_wraps_example = backoff_wraps (2 ^ 62) 300000 (omega arith) (omega arith) (omega arith)

day_later : (h m : ℕ) → 40 < clock.next_day (clock.clock_at 40 h m)
day_later h m = omega arith

reset_read : parse_reset_at clock (codes "limit resets at 3pm") 40 ≡ some 86400040
unfolding parse_reset_at
reset_read = refl

parse_reset_at_future_example : 40 < 86400040
parse_reset_at_future_example =
    parse_reset_at_future clock (codes "limit resets at 3pm") 40 day_later reset_read

finalize_twice_example :
    finalize (codes "b") (pos 1) (finalize (codes "b") (pos 0) (world_of at_work).runs).0
    ≡ ((finalize (codes "b") (pos 0) (world_of at_work).runs).0, false)
finalize_twice_example = finalize_twice (codes "b") (pos 0) (pos 1) (world_of at_work).runs

at_work-OneLive : OneLive build (world_of at_work).runs
unfolding live values
at_work-OneLive l e = ground arith

child-OneLive_example :
    OneLive build
      (spawn_child
        (host_at 70)
        (child_request answers none claude [] in_build)
        (world_of at_work)).0.runs
    × OneLive build (stop_child (host_at 70) (codes "b") (world_of at_work)).0.runs
child-OneLive_example =
    child-OneLive (host_at 70) answers none claude [] in_build (codes "b") (world_of at_work)
      at_work-OneLive

-- A host whose engine is not installed.
abbrev bare_host : Host
bare_host = record (host_at 10) { spawn = λ s. failed binary_not_found }

abbrev plain : SpawnReq
plain = record {
  prompt = codes "go";
  cwd = none;
  config_dir = none;
  meta = some (record { kind = init; lane_key = repo_lane });
  engine = claude;
}

new_id_free : lookup (bare_host.new_id empty_world.ids) empty_world.runs ≡ none
unfolding lookup
new_id_free = refl

plain_refused : (spawn_run bare_host plain empty_world).1 ≡ err (not_spawned binary_not_found)
unfolding spawn_run
plain_refused = refl

init_refused : (spawn_init bare_host plain empty_world).1 ≡ err (not_spawned binary_not_found)
unfolding spawn_init find_live values
init_refused = refl

build_refused : (spawn_build bare_host asked empty_world).1 ≡ err (not_spawned binary_not_found)
unfolding spawn_build lookup find_live values
build_refused = refl

spawn_build-no_phantom_example : (spawn_build bare_host asked empty_world).0.runs ≡ []
spawn_build-no_phantom_example =
    spawn_build-no_phantom bare_host asked empty_world new_id_free build_refused

abbrev gone : TerminalState
gone = record { exit_code = none; has_exit = false; alive = false }

reaped :
    reap_tick (host_at 70) (codes "b") gone (world_of at_work)
    ≡ finished (exit_observed (host_at 70) (codes "b") minus_one (world_of at_work))
unfolding reap_tick lookup same
reaped = refl
