-- ===== src/Service/Lifecycle.antt =====
-- What ends or revives a run that is not a build: the wait goroutine of backend/usecase/spawn.go,
-- usecase/stop.go, usecase/reaper.go and usecase/rehydrate.go. A loop that waits for a ticker is one
-- step for each tick.
use saki_cli.Base.{
  Bool, true, false, not, ◌&&◌, none, some, List, [], ◌∷◌, if◌then◌else◌, Text, lookup, is_zero,
  minus_one, ℤ, pos,
}
use saki_cli.Run.{is_running, is_build, kind_of, Run, done, error}
use saki_cli.Store.{put, finalize}
use saki_cli.World.{rejournal, World, Host}
use saki_cli.Engine.Exit.{can_finalize}
use saki_cli.Engine.Watch.{
  group_of, signal_term, or_minus_one, RehydratedRun, TerminalState, Poll, finished, waits,
}

module _ (h : Host) where
  -- `s.store.Finalize(id, code); s.rejournal(id)`.
  unfoldable pub exit_observed : Text → ℤ → World → World
  unfolding finalize rejournal
  exit_observed id code w = rejournal h id (record w { runs = (finalize id code w.runs).0 })

  -- StopService.Stop.
  unfoldable pub stop_run : Text → World → World × Bool
  unfolding finalize
  stop_run id w = elim (lookup id w.runs) [
    | none ↦ (w, false)
    | some run ↦
        if is_running run.status
        then (
          record (signal_term (group_of run.pid) w) { runs = (finalize id (pos 143) w.runs).0 },
          true,
        )
        else (w, false)
  ]

  -- A run that the reaper takes on: it is running, and no build.
  unfoldable pub reaps : Run → Bool
  reaps r = not (is_build (kind_of r)) && is_running r.status

  -- A tick of reap.
  abbrev pub reap_terminal : Text → TerminalState → World → Poll
  reap_terminal id t w =
      if t.has_exit
      then finished (exit_observed id (or_minus_one t.exit_code) w)
      else if t.alive
      then waits w
      else finished (exit_observed id minus_one w)

  unfoldable pub reap_tick : Text → TerminalState → World → Poll
  unfolding exit_observed
  reap_tick id t w = if can_finalize (lookup id w.runs) then reap_terminal id t w else finished w

  unfoldable pub reap_give_up : Text → World → World
  unfolding exit_observed
  reap_give_up id w = exit_observed id minus_one w

-- What Rehydrate makes of a journaled run.
unfoldable pub rehydrated : RehydratedRun → Run
rehydrated rr =
    if is_build (kind_of rr.run)
    then rr.run
    else if not (is_running rr.run.status)
    then rr.run
    else if rr.has_exit
    then record (rr.run) {
      status = if is_zero (or_minus_one rr.exit_code) then done else error;
      exit_code = rr.exit_code;
    }
    else if rr.pid_alive
    then rr.run
    else record (rr.run) { status = error }

-- Rehydrate.
unfoldable pub rehydrate : List RehydratedRun → World → World
unfolding rehydrated put
rehydrate [] w = w
rehydrate (rr ∷ rs) w = rehydrate rs (record w { runs = put (rehydrated rr) w.runs })
