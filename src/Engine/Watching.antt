-- ===== src/Engine/Watching.antt =====
-- The live builds of a lane under the operations of Engine/Watch, which models Sweep, Stop and
-- RehydrateBuilds of backend/usecase/buildengine.go.
use saki_cli.Base.{
  ℕ, ◌≤◌, ◌≡◌, refl, ap, Option, none, some, List, [], ◌∷◌, arith, Text, lookup, update, minus_one,
  ℤ, pos,
}
use saki_cli.Run.{Run, build, RedriveCause, exit, interrupted}
use saki_cli.Store.{Runs, list, finalize}
use saki_cli.Store.Lanes.{live, live-update, live-finalize}
use saki_cli.World.{modify, breadcrumb, World, Host}
use saki_cli.Engine.Breadcrumb.{cancelled, stalled}
use saki_cli.Engine.Exit.{finalize_survived}
use saki_cli.Engine.Watch.{
  group_of, signal_term, signal_kill, set_stall_killed, saw_output, request_stop, or_minus_one,
  polled, seed, stall_quiet, stall_group, sweep_run, sweep_runs, sweep_stalls, stop_signalled,
  stop_running, stop_looked, stop, record_original, route_survived, rehydrate_build,
  rehydrate_builds, watch_terminal, watch_tick, watch_give_up, RehydratedRun, TerminalState,
}
use saki_cli.Engine.Lanes.{live-request_stop, breadcrumb-live, rejournal-live}
use saki_cli.Engine.Spawn.{record_idem}
use saki_cli.Engine.Endings.{finalize_with-live}

signal_term-runs : (p : Option ℤ) (w : World) → (signal_term p w).runs ≡ w.runs
signal_term-runs none w = refl
signal_term-runs (some p) w = refl

signal_kill-runs : (p : Option ℤ) (w : World) → (signal_kill p w).runs ≡ w.runs
signal_kill-runs none w = refl
signal_kill-runs (some p) w = refl

module _ (lane : Text) where
  live-set_stall_killed :
      (id : Text) (t : ℕ) (m : Runs)
      → live build lane (update id (set_stall_killed t) m) ≤ live build lane m
  live-set_stall_killed id t m = live-update build lane id _ m (λ r e. e)

  live-saw_output :
      (id : Text) (size t : ℕ) (m : Runs)
      → live build lane (update id (saw_output size t) m) ≤ live build lane m
  live-saw_output id size t m = live-update build lane id _ m (λ r e. e)

module _ (h : Host) (lane : Text) where
  stop_running-live :
      (id : Text) (run : Run) (w : World)
      → live build lane (stop_running h id run w).runs ≤ live build lane w.runs
  stop_running-live id run w =
      let w1 = stop_signalled h id run w in
      omega (
        arith,
        rejournal-live h build lane id (record w1 { runs = (finalize id (pos 143) w1.runs).0 }),
        live-finalize build lane id (pos 143) w1.runs,
        ap (live build lane) (signal_term-runs (group_of run.pid) (modify id request_stop w)),
        live-request_stop build lane id w.runs,
      )

  stop_looked-live :
      (id : Text) (o : Option Run) (w : World)
      → live build lane (stop_looked h id o w).0.runs ≤ live build lane w.runs
  stop_looked-live id none w = omega arith
  stop_looked-live id (some run) w =
      let w1 = modify id request_stop w in
      ground (
        arith,
        stop_running-live id run w,
        live-request_stop build lane id w.runs,
        breadcrumb-live h build lane id cancelled w1,
        rejournal-live h build lane id (breadcrumb h id cancelled w1),
      )

  pub stop-live :
      (id : Text) (w : World) → live build lane (stop h id w).0.runs ≤ live build lane w.runs
  unfolding stop
  stop-live id w = stop_looked-live id (lookup id w.runs) w

  stall_quiet-live :
      (t : Option ℕ) (run : Run) (p : ℤ) (w : World)
      → live build lane (stall_quiet h t run p w).runs ≤ live build lane w.runs
  stall_quiet-live (some t) run p w = ground (arith, live-set_stall_killed lane run.id h.now w.runs)
  stall_quiet-live none run p w = ground (
    arith,
    live-set_stall_killed lane run.id h.now w.runs,
    breadcrumb-live h build lane run.id (stalled h.cfg.stall_ms)
        (modify run.id (set_stall_killed h.now) w),
  )

  stall_group-live :
      (run : Run) (p : Option ℤ) (w : World)
      → live build lane (stall_group h run p w).runs ≤ live build lane w.runs
  stall_group-live run none w = omega arith
  stall_group-live run (some p) w = ground (
    arith,
    stall_quiet-live run.stall_killed_at run p w,
    live-saw_output lane run.id (h.out_size run.id) h.now w.runs,
  )

  sweep_run-live :
      (run : Run) (w : World) → live build lane (sweep_run h run w).runs ≤ live build lane w.runs
  unfolding sweep_run
  sweep_run-live run w = ground (arith, stall_group-live run (group_of run.pid) w)

  sweep_runs-live :
      (rs : List Run) (w : World)
      → live build lane (sweep_runs h rs w).runs ≤ live build lane w.runs
  unfolding sweep_runs
  sweep_runs-live [] w = omega arith
  sweep_runs-live (r ∷ rs) w =
      omega (arith, sweep_runs-live rs (sweep_run h r w), sweep_run-live r w)

  pub sweep_stalls-live :
      (w : World) → live build lane (sweep_stalls h w).runs ≤ live build lane w.runs
  unfolding sweep_stalls
  sweep_stalls-live w = ground (arith, sweep_runs-live (list w.runs) w)

  finalize_survived-live :
      (id : Text) (c : RedriveCause) (code : ℤ) (w : World)
      → live build lane (finalize_survived h id c code w).runs ≤ live build lane w.runs
  unfolding finalize_survived
  finalize_survived-live id c code w = finalize_with-live h lane id (λ _. c) code w

  watch_terminal-live :
      (id : Text) (t : TerminalState) (w : World)
      → live build lane (polled (watch_terminal h id t w)).runs ≤ live build lane w.runs
  watch_terminal-live id t w =
      let code = or_minus_one t.exit_code in
      ground (
        arith,
        finalize_survived-live id (exit (some code)) code w,
        finalize_survived-live id interrupted minus_one w,
      )

  pub watch_tick-live :
      (id : Text) (t : TerminalState) (w : World)
      → live build lane (polled (watch_tick h id t w)).runs ≤ live build lane w.runs
  unfolding watch_tick
  watch_tick-live id t w = ground (arith, watch_terminal-live id t w)

  pub watch_give_up-live :
      (id : Text) (pid : Option ℤ) (w : World)
      → live build lane (watch_give_up h id pid w).runs ≤ live build lane w.runs
  unfolding watch_give_up
  watch_give_up-live id pid w = omega (
    arith,
    finalize_survived-live id interrupted minus_one (signal_kill (group_of pid) w),
    ap (live build lane) (signal_kill-runs (group_of pid) w),
  )

  record_original-runs :
      (key : Option Text) (run : Run) (w : World) → (record_original h key run w).runs ≡ w.runs
  unfolding record_idem
  record_original-runs none run w = refl
  record_original-runs (some key) run w = ground arith

  route_survived-live :
      (rr : RehydratedRun) (w : World)
      → live build lane (route_survived h rr w).runs ≤ live build lane w.runs
  route_survived-live rr w =
      let id = rr.run.id in
      let code = or_minus_one rr.exit_code in
      let w1 = modify id (seed h.now (h.out_size id)) w in
      let seeded = live-update build lane id (seed h.now (h.out_size id)) w.runs (λ r e. e) in
      ground (
        arith,
        seeded,
        finalize_survived-live id (exit (some code)) code w1,
        finalize_survived-live id interrupted minus_one w1,
      )

  rehydrate_build-live :
      (rr : RehydratedRun) (w : World)
      → live build lane (rehydrate_build h rr w).runs ≤ live build lane w.runs
  unfolding rehydrate_build
  rehydrate_build-live rr w =
      let w1 = record_original h rr.run.idempotency_key rr.run w in
      ground (
        arith,
        route_survived-live rr w1,
        ap (live build lane) (record_original-runs rr.run.idempotency_key rr.run w),
      )

  pub rehydrate_builds-live :
      (rs : List RehydratedRun) (w : World)
      → live build lane (rehydrate_builds h rs w).runs ≤ live build lane w.runs
  unfolding rehydrate_builds
  rehydrate_builds-live [] w = omega arith
  rehydrate_builds-live (r ∷ rs) w =
      omega (arith, rehydrate_builds-live rs (rehydrate_build h r w), rehydrate_build-live r w)
