-- ===== src/Engine/Reach.antt =====
-- What the engine of backend/usecase/buildengine.go can do to the world while the server runs, one
-- operation after the other, each against a host of its own. A restart, which reloads the store from
-- the journal, is none of these steps.
use saki_cli.Base.{◌≤◌, Option, arith, Text, ℤ}
use saki_cli.Run.{build}
use saki_cli.Store.Lanes.{live, OneLive}
use saki_cli.World.{breadcrumb, PushResult, World, Host}
use saki_cli.Engine.Breadcrumb.{push_result_line}
use saki_cli.Engine.Spawn.{spawn_build, BuildSpawnReq}
use saki_cli.Engine.Resume.{fire_pending_resume}
use saki_cli.Engine.Exit.{cause_of_exit, push_finished, finalize_with, on_exit}
use saki_cli.Engine.Watch.{
  polled, sweep_stalls, sweep, stop, watch_tick, watch_give_up, TerminalState,
}
use saki_cli.Engine.Lanes.{
  breadcrumb-live, spawn_build-OneLive, fire_pending_resume-OneLive, sweep_pending_resumes-OneLive,
}
use saki_cli.Engine.Endings.{finalize_with-live}
use saki_cli.Engine.Watching.{stop-live, sweep_stalls-live, watch_tick-live, watch_give_up-live}

pub data Step (w : World) : World → Type 0 where
  request : (h : Host) (req : BuildSpawnReq) → Step w (spawn_build h req w).0
  process_exit : (h : Host) (id : Text) (code : ℤ) → Step w (on_exit h id code w)
  timer_fires : (h : Host) (id : Text) → Step w (fire_pending_resume h id w)
  tick : (h : Host) → Step w (sweep h w)
  operator_stop : (h : Host) (id : Text) → Step w (stop h id w).0
  push_ends : (h : Host) (id : Text) (res : PushResult) → Step w (push_finished h id res w)
  poll : (h : Host) (id : Text) (t : TerminalState) → Step w (polled (watch_tick h id t w))
  poll_bound : (h : Host) (id : Text) (pid : Option ℤ) → Step w (watch_give_up h id pid w)

pub data Reach (w : World) : World → Type 0 where
  here : Reach w w
  next : {u v : World} → Reach w u → Step u v → Reach w v

le-OneLive :
    (w w' : World)
    → ((lane : Text) → live build lane w'.runs ≤ live build lane w.runs)
    → OneLive build w.runs
    → OneLive build w'.runs
le-OneLive w w' le one lane e = omega (arith, le lane, one lane e)

Step-OneLive : {w w' : World} → Step w w' → OneLive build w.runs → OneLive build w'.runs
unfolding on_exit sweep push_finished
Step-OneLive (request h req) one = spawn_build-OneLive h req _ one
Step-OneLive {w} (process_exit h id code) one =
    le-OneLive w (finalize_with h id (cause_of_exit code) code w)
      (λ lane. finalize_with-live h lane id (cause_of_exit code) code w) one
Step-OneLive (timer_fires h id) one = fire_pending_resume-OneLive h id _ one
Step-OneLive {w} (tick h) one =
    sweep_pending_resumes-OneLive h (sweep_stalls h w)
      (le-OneLive w (sweep_stalls h w) (λ lane. sweep_stalls-live h lane w) one)
Step-OneLive {w} (operator_stop h id) one =
    le-OneLive w (stop h id w).0 (λ lane. stop-live h lane id w) one
Step-OneLive {w} (push_ends h id res) one =
    le-OneLive w (breadcrumb h id (push_result_line res) w)
      (λ lane. omega (arith, breadcrumb-live h build lane id (push_result_line res) w)) one
Step-OneLive {w} (poll h id t) one =
    le-OneLive w (polled (watch_tick h id t w)) (λ lane. watch_tick-live h lane id t w) one
Step-OneLive {w} (poll_bound h id pid) one =
    le-OneLive w (watch_give_up h id pid w) (λ lane. watch_give_up-live h lane id pid w) one

-- From a store where no lane with a key has two running builds, and while the server is not
-- restarted: however requests, exits, timers, sweeps, stops, ends of pushes and polls follow one
-- another, and whatever the host answers each time, no lane with a key ever has two running builds
-- in the store.
pub Reach-OneLive : {w w' : World} → OneLive build w.runs → Reach w w' → OneLive build w'.runs
Reach-OneLive one here = one
Reach-OneLive one (next r st) = Step-OneLive st (Reach-OneLive one r)
