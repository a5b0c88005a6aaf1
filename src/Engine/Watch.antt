-- ===== src/Engine/Watch.antt =====
-- Sweep and its stall watchdog, Stop, RehydrateBuilds and watchSurvivedBuild of
-- backend/usecase/buildengine.go. A loop that waits for a ticker is one step for each tick.
use saki_cli.Base.{
  ℕ, ◌+◌, Bool, true, false, ◌&&◌, Option, none, some, List, [], ◌∷◌, ltb, ◌==◌, if◌then◌else◌,
  is_some, Text, decimal, lookup, gt_one, minus_one, ℤ, pos,
}
use saki_cli.Run.{is_running, is_build, kind_of, Run, exit, interrupted}
use saki_cli.Store.{list, finalize}
use saki_cli.World.{log, modify, rejournal, breadcrumb, World, Host, terminated, killed}
use saki_cli.Engine.Config.{stall_sigkill_grace_ms}
use saki_cli.Engine.Breadcrumb.{cancelled, stalled}
use saki_cli.Engine.Spawn.{record_idem}
use saki_cli.Engine.Resume.{sweep_pending_resumes}
use saki_cli.Engine.Exit.{can_finalize, finalize_survived}

-- `pid != nil && *pid > 1`, and the pid.
abbrev pub group_of : Option ℤ → Option ℤ
group_of none = none
group_of (some p) = if gt_one p then some p else none

abbrev pub signal_term : Option ℤ → World → World
signal_term none w = w
signal_term (some p) w = log (terminated p) w

abbrev pub signal_kill : Option ℤ → World → World
signal_kill none w = w
signal_kill (some p) w = log (killed p) w

abbrev pub set_stall_killed : ℕ → Run → Run
set_stall_killed t r = record r { stall_killed_at = some t }

-- `r.LastOutSize = size; r.LastActivityAt = now; r.StallKilledAt = nil`.
abbrev pub saw_output : ℕ → ℕ → Run → Run
saw_output size t r = record r {
  last_out_size = size;
  last_activity_at = t;
  stall_killed_at = none;
}

abbrev pub request_stop : Run → Run
request_stop r = record r { stop_requested = true; pending_resume = none }

-- RehydratedRun of usecase/run_ports.go.
pub record RehydratedRun : Type 0 where
  pub run : Run
  pub pid_alive : Bool
  pub exit_code : Option ℤ
  pub has_exit : Bool

-- What ExitWatcher.Terminal answers.
pub record TerminalState : Type 0 where
  pub exit_code : Option ℤ
  pub has_exit : Bool
  pub alive : Bool

abbrev pub or_minus_one : Option ℤ → ℤ
or_minus_one none = minus_one
or_minus_one (some n) = n

-- What a tick of a poll does next.
pub data Poll : Type 0 where
  finished waits : World → Poll

abbrev pub polled : Poll → World
polled (finished w) = w
polled (waits w) = w

-- The activity baseline that a survived build starts from.
abbrev pub seed : ℕ → ℕ → Run → Run
seed t size r = record r { last_activity_at = t; last_out_size = size }

module _ (h : Host) where
  abbrev pub escalate : Run → ℤ → ℕ → World → World
  escalate run p killed_at w =
      if ltb h.now (killed_at + stall_sigkill_grace_ms)
      then w
      else log (killed p) (modify run.id (set_stall_killed h.now) w)

  -- No fresh output; the first argument is StallKilledAt.
  abbrev pub stall_quiet : Option ℕ → Run → ℤ → World → World
  stall_quiet (some killed_at) run p w = escalate run p killed_at w
  stall_quiet none run p w =
      if ltb h.now (run.last_activity_at + h.cfg.stall_ms)
      then w
      else log (terminated p)
          (breadcrumb h run.id (stalled h.cfg.stall_ms) (modify run.id (set_stall_killed h.now) w))

  abbrev pub stall_alive : Run → ℤ → World → World
  stall_alive run p w =
      let size = h.out_size run.id in
      if ltb run.last_out_size size
      then modify run.id (saw_output size h.now) w
      else stall_quiet run.stall_killed_at run p w

  abbrev pub stall_group : Run → Option ℤ → World → World
  stall_group run none w = w
  stall_group run (some p) w = if h.alive p then stall_alive run p w else w

  unfoldable pub sweep_run : Run → World → World
  unfolding breadcrumb decimal
  sweep_run run w =
      if is_running run.status && is_build (kind_of run)
      then stall_group run (group_of run.pid) w
      else w

  unfoldable pub sweep_runs : List Run → World → World
  unfolding sweep_run
  sweep_runs [] w = w
  sweep_runs (r ∷ rs) w = sweep_runs rs (sweep_run r w)

  unfoldable pub sweep_stalls : World → World
  unfolding sweep_runs list
  sweep_stalls w = if h.cfg.stall_ms == 0 then w else sweep_runs (list w.runs) w

  unfoldable pub sweep : World → World
  unfolding sweep_stalls sweep_pending_resumes
  sweep w = sweep_pending_resumes h (sweep_stalls w)

  -- The stop of a running build, up to the signal.
  abbrev pub stop_signalled : Text → Run → World → World
  stop_signalled id run w = signal_term (group_of run.pid) (modify id request_stop w)

  abbrev pub stop_running : Text → Run → World → World
  stop_running id run w =
      let w1 = stop_signalled id run w in
      rejournal h id (record w1 { runs = (finalize id (pos 143) w1.runs).0 })

  abbrev pub stop_found : Text → Run → World → World × Bool
  stop_found id run w =
      if is_running run.status
      then (stop_running id run w, true)
      else if is_some run.pending_resume
      then (rejournal h id (breadcrumb h id cancelled (modify id request_stop w)), true)
      else (w, false)

  abbrev pub stop_looked : Text → Option Run → World → World × Bool
  stop_looked id none w = (w, false)
  stop_looked id (some run) w = stop_found id run w

  unfoldable pub stop : Text → World → World × Bool
  unfolding finalize rejournal breadcrumb
  stop id w = stop_looked id (lookup id w.runs) w

  -- Rehydration of one journaled build. The goroutine that watches a live child is `watch_tick`.
  abbrev pub record_original : Option Text → Run → World → World
  record_original none run w = w
  record_original (some key) run w = if run.resume_count == 0 then record_idem key run.id w else w

  abbrev pub route_survived : RehydratedRun → World → World
  route_survived rr w =
      let w1 = modify rr.run.id (seed h.now (h.out_size rr.run.id)) w in
      if rr.has_exit
      then finalize_survived h rr.run.id (exit (some (or_minus_one rr.exit_code)))
          (or_minus_one rr.exit_code) w1
      else if rr.pid_alive
      then w1
      else finalize_survived h rr.run.id interrupted minus_one w1

  unfoldable pub rehydrate_build : RehydratedRun → World → World
  unfolding finalize_survived record_idem
  rehydrate_build rr w =
      if is_build (kind_of rr.run)
      then (let w1 = record_original rr.run.idempotency_key rr.run w in
          if is_running rr.run.status then route_survived rr w1 else w1)
      else w

  unfoldable pub rehydrate_builds : List RehydratedRun → World → World
  unfolding rehydrate_build
  rehydrate_builds [] w = w
  rehydrate_builds (rr ∷ rs) w = rehydrate_builds rs (rehydrate_build rr w)

  -- A tick of watchSurvivedBuild.
  abbrev pub watch_terminal : Text → TerminalState → World → Poll
  watch_terminal id t w =
      if t.has_exit
      then finished (
          finalize_survived h id (exit (some (or_minus_one t.exit_code))) (or_minus_one t.exit_code)
            w)
      else if t.alive
      then waits w
      else finished (finalize_survived h id interrupted minus_one w)

  unfoldable pub watch_tick : Text → TerminalState → World → Poll
  unfolding finalize_survived
  watch_tick id t w = if can_finalize (lookup id w.runs) then watch_terminal id t w else finished w

  -- The poll's bound has passed: the group is killed before the build is finalized.
  unfoldable pub watch_give_up : Text → Option ℤ → World → World
  unfolding finalize_survived
  watch_give_up id pid w =
      finalize_survived h id interrupted minus_one (signal_kill (group_of pid) w)
