-- ===== src/Engine/Lanes.antt =====
-- The live builds of a lane under SpawnBuild and firePendingResume of
-- backend/usecase/buildengine.go.
use saki_cli.Base.{
  ℕ, ◌≤◌, ◌≡◌, refl, ap, Bool, true, false, Option, none, some, List, [], ◌∷◌, arith, if◌then◌else◌,
  Text, lookup, update, ℤ,
}
use saki_cli.Run.{lane_key_of, PendingResume, Run, RunKind, build}
use saki_cli.Store.{Runs, list, set_pid, reserve, reserve_build}
use saki_cli.Store.Lanes.{live, OneLive, live-delete, live-update, reserve-OneLive}
use saki_cli.World.{
  take_id, modify, write, rejournal, breadcrumb, World, Host, SpawnResult, started, failed, Failure,
}
use saki_cli.World.Laws.{write-runs, rejournal-runs, breadcrumb-runs}
use saki_cli.Engine.Spawn.{
  record_idem, spec_of, new_build_run, spawn_reserved, spawn_written, journal_and_spawn,
  after_reserve, reserve_and_spawn, remember, request_spec, spawn_build, BuildSpawnReq, Spawned, ok,
  err,
}
use saki_cli.Engine.Resume.{
  arm, again, rearm_or_park, clear_pending, pending_found, successor_of, after_spawn,
  fire_successor, fire_won, fire_pending_resume, is_due, sweep_each, sweep_pending_resumes,
}
use saki_cli.Engine.Exit.{set_finalizing, set_pushed}
use saki_cli.Engine.Watch.{request_stop}
use saki_cli.Engine.Breadcrumb.{no_binary}

-- An update that keeps a run's status and meta.
module _ (kind : RunKind) (lane : Text) where
  pub live-set_pid :
      (id : Text) (p : ℤ) (m : Runs) → live kind lane (set_pid id p m) ≤ live kind lane m
  unfolding set_pid
  live-set_pid id p m = live-update kind lane id _ m (λ r e. e)

  pub live-set_finalizing :
      (id : Text) (b : Bool) (m : Runs)
      → live kind lane (update id (set_finalizing b) m) ≤ live kind lane m
  live-set_finalizing id b m = live-update kind lane id _ m (λ r e. e)

  pub live-set_pushed :
      (id : Text) (t : ℕ) (m : Runs)
      → live kind lane (update id (set_pushed t) m) ≤ live kind lane m
  live-set_pushed id t m = live-update kind lane id _ m (λ r e. e)

  live-clear_pending :
      (h : Host) (id : Text) (m : Runs)
      → live kind lane (update id (clear_pending h) m) ≤ live kind lane m
  live-clear_pending h id m = live-update kind lane id _ m (λ r e. e)

  pub live-request_stop :
      (id : Text) (m : Runs) → live kind lane (update id request_stop m) ≤ live kind lane m
  live-request_stop id m = live-update kind lane id _ m (λ r e. e)

  pub live-arm :
      (h : Host) (id : Text) (p : PendingResume) (m : Runs)
      → live kind lane (update id (arm h p) m) ≤ live kind lane m
  live-arm h id p m = live-update kind lane id _ m (λ r e. ground (arith, e))

  live-rearm :
      (id : Text) (p : PendingResume) (m : Runs)
      → live kind lane (update id (λ r. record r { pending_resume = some p }) m) ≤ live kind lane m
  live-rearm id p m = live-update kind lane id _ m (λ r e. e)

module _ (h : Host) (kind : RunKind) (lane : Text) where
  spawn_reserved-live :
      (run : Run) (res : SpawnResult) (w : World)
      → live kind lane (spawn_reserved h build run res w).0.runs ≤ live kind lane w.runs
  unfolding spawn_reserved
  spawn_reserved-live run (failed x) w = live-delete kind lane run.id w.runs
  spawn_reserved-live run (started pid) w = rw write-runs (live-set_pid kind lane run.id pid w.runs)

  spawn_written-live :
      (run : Run) (wb : World × Bool)
      → live kind lane (spawn_written h build run wb).0.runs ≤ live kind lane wb.0.runs
  unfolding spawn_written
  spawn_written-live run (w, true) = spawn_reserved-live run (h.spawn (spec_of build run)) w
  spawn_written-live run (w, false) = live-delete kind lane run.id w.runs

  journal_and_spawn-live :
      (run : Run) (w : World)
      → live kind lane (journal_and_spawn h build run w).0.runs ≤ live kind lane w.runs
  unfolding journal_and_spawn
  journal_and_spawn-live run w =
      omega
        (arith, spawn_written-live run (write h run w), ap (live kind lane) (write-runs h run w))

  pub breadcrumb-live :
      (id t : Text) (w : World) → live kind lane (breadcrumb h id t w).runs ≡ live kind lane w.runs
  breadcrumb-live id t w = ap (live kind lane) (breadcrumb-runs h id t w)

  pub rejournal-live :
      (id : Text) (w : World) → live kind lane (rejournal h id w).runs ≡ live kind lane w.runs
  rejournal-live id w = ap (live kind lane) (rejournal-runs h id w)

  rearm_or_park-live :
      (id : Text) (p : PendingResume) (x : Failure) (w : World)
      → live kind lane (rearm_or_park h id p x w).runs ≤ live kind lane w.runs
  unfolding rearm_or_park
  rearm_or_park-live id p x w = ground (
    arith,
    breadcrumb-live id no_binary w,
    rejournal-live id w,
    rejournal-live id (modify id (λ r. record r { pending_resume = some (again h p) }) w),
    live-rearm kind lane id (again h p) w.runs,
  )

pub if-OneLive :
    (b : Bool) (w w' : World)
    → OneLive build w.runs
    → OneLive build w'.runs
    → OneLive build (if b then w else w').runs
if-OneLive true w w' one one' = one
if-OneLive false w w' one one' = one'

module _ (h : Host) where
  after_reserve-live :
      (lane : Text) (run : Run) (mr : Runs × Option Text) (w : World)
      → live build lane mr.0 ≤ 1
      → live build lane w.runs ≤ 1
      → live build lane (after_reserve h run mr w).0.runs ≤ 1
  after_reserve-live lane run (m, some existing) w le one = one
  after_reserve-live lane run (m, none) w le one =
      omega (arith, journal_and_spawn-live h build lane run (record w { runs = m }))

  pub reserve_and_spawn-OneLive :
      (run : Run) (w : World)
      → OneLive build w.runs
      → OneLive build (reserve_and_spawn h run (lane_key_of run.meta) w).0.runs
  unfolding reserve_and_spawn reserve_build
  reserve_and_spawn-OneLive run w one lane e =
      let le = reserve-OneLive build run w.runs one lane e in
      let le' =
        after_reserve-live lane run (reserve build (lane_key_of run.meta) run w.runs) w le
          (one lane e) in
      ground (arith, le', one lane e)

  remember-runs :
      (key : Option Text) (ws : World × Spawned) → (remember h key ws).0.runs ≡ ws.0.runs
  unfolding record_idem
  remember-runs none (w, ok r s) = refl
  remember-runs none (w, err x) = refl
  remember-runs (some key) (w, ok r s) = refl
  remember-runs (some key) (w, err x) = refl

  -- A build request, whatever the host answers, leaves each lane with one live build at most.
  pub spawn_build-OneLive :
      (req : BuildSpawnReq) (w : World)
      → OneLive build w.runs
      → OneLive build (spawn_build h req w).0.runs
  unfolding spawn_build new_build_run
  spawn_build-OneLive req w one lane e =
      let run = new_build_run h (request_spec h req (h.new_id w.ids)) in
      let le = reserve_and_spawn-OneLive run (take_id w) one lane e in
      ground (
        arith,
        one lane e,
        le,
        ap (live build lane) (
            remember-runs req.idempotency_key
              (reserve_and_spawn h run (lane_key_of req.meta) (take_id w))),
      )

  after_spawn-live :
      (lane id : Text) (p : PendingResume) (ws : World × Spawned)
      → live build lane (after_spawn h id p ws).runs ≤ live build lane ws.0.runs
  after_spawn-live lane id p (w, ok r s) = omega arith
  after_spawn-live lane id p (w, err x) = rearm_or_park-live h build lane id p x w

  fire_successor-OneLive :
      (id : Text) (p : PendingResume) (o : Option Run) (w : World)
      → OneLive build w.runs
      → OneLive build (fire_successor h id p o w).runs
  unfolding successor_of new_build_run
  fire_successor-OneLive id p none w one lane e = one lane e
  fire_successor-OneLive id p (some pred) w one lane e =
      let spawned_now = reserve_and_spawn h (successor_of h p pred) (lane_key_of pred.meta) w in
      let le = reserve_and_spawn-OneLive (successor_of h p pred) w one lane e in
      ground (arith, one lane e, le, after_spawn-live lane id p spawned_now)

  fire_won-OneLive :
      (id : Text) (o : Option PendingResume) (w : World)
      → OneLive build w.runs
      → OneLive build (fire_won h id o w).runs
  fire_won-OneLive id none w one = one
  fire_won-OneLive id (some p) w one =
      let w1 = rejournal h id (modify id (clear_pending h) w) in
      fire_successor-OneLive id p (lookup id w1.runs) w1 λ lane e. omega (
        arith,
        one lane e,
        rejournal-live h build lane id (modify id (clear_pending h) w),
        live-clear_pending build lane h id w.runs,
      )

  -- Firing a pending resume spawns a successor only where its lane is free.
  pub fire_pending_resume-OneLive :
      (id : Text) (w : World)
      → OneLive build w.runs
      → OneLive build (fire_pending_resume h id w).runs
  unfolding fire_pending_resume
  fire_pending_resume-OneLive id w = fire_won-OneLive id (pending_found h (lookup id w.runs)) w

  sweep_each-OneLive :
      (rs : List Run) (w : World) → OneLive build w.runs → OneLive build (sweep_each h rs w).runs
  unfolding sweep_each
  sweep_each-OneLive [] w one = one
  sweep_each-OneLive (r ∷ rs) w one =
      sweep_each-OneLive rs (if is_due h r then fire_pending_resume h r.id w else w)
        (if-OneLive (is_due h r) _ _ (fire_pending_resume-OneLive r.id w one) one)

  pub sweep_pending_resumes-OneLive :
      (w : World) → OneLive build w.runs → OneLive build (sweep_pending_resumes h w).runs
  unfolding sweep_pending_resumes
  sweep_pending_resumes-OneLive w one = sweep_each-OneLive (list w.runs) w one
