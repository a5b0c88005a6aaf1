-- ===== src/Service/Phantom.antt =====
-- The failures of Spawn and SpawnInit in backend/usecase/spawn.go, and of SpawnBuild in
-- backend/usecase/buildengine.go.
use saki_cli.Base.{
  ◌≡◌, refl, ap, ◌∙◌, Bool, true, false, Option, none, some, if◌then◌else◌, Text, is_empty, lookup,
  insert, values,
}
use saki_cli.Run.{lane_key_of, Run, build}
use saki_cli.Store.{Runs, get, delete, find_live, reserve_found, reserve, reserve_build}
use saki_cli.World.{take_id, write, World, Host, SpawnResult, started, failed, Failure}
use saki_cli.World.Laws.{write-runs}
use saki_cli.Engine.Spawn.{
  spec_of, new_build_run, spawn_reserved, spawn_written, journal_and_spawn, readopted,
  after_reserve, reserve_and_spawn, remember, known_key, request_spec, spawn_fresh, spawn_build,
  BuildSpawnReq, Spawned, ok, err,
}
use saki_cli.Service.Spawn.{spawn_run, spawn_init, SpawnReq}
use saki_cli.Service.Clean.{
  delete-put, IsClean, tests-IsClean, spawn_run-IsClean, spawn_init-IsClean,
}

module _ (h : Host) where
  spawn_reserved-IsClean :
      (run : Run) (res : SpawnResult) (w : World) (m : Runs)
      → w.runs ≡ insert run.id run m
      → lookup run.id m ≡ none
      → IsClean m (spawn_reserved h build run res w)
  unfolding spawn_reserved
  spawn_reserved-IsClean run (failed x) w m e new = ap (delete run.id) e ∙ delete-put run m new
  spawn_reserved-IsClean run (started pid) w m e new = tt

  spawn_written-IsClean :
      (run : Run) (wb : World × Bool) (m : Runs)
      → wb.0.runs ≡ insert run.id run m
      → lookup run.id m ≡ none
      → IsClean m (spawn_written h build run wb)
  unfolding spawn_written
  spawn_written-IsClean run (w, false) m e new = ap (delete run.id) e ∙ delete-put run m new
  spawn_written-IsClean run (w, true) m e new =
      spawn_reserved-IsClean run (h.spawn (spec_of build run)) w m e new

  after_reserve-IsClean :
      (run : Run) (o : Option Run) (w : World)
      → lookup run.id w.runs ≡ none
      → IsClean w.runs (after_reserve h run (reserve_found o run w.runs) w)
  unfolding journal_and_spawn
  after_reserve-IsClean run none w new =
      let w1 = record w { runs = insert run.id run w.runs } in
      spawn_written-IsClean run (write h run w1) w.runs (write-runs h run w1) new
  after_reserve-IsClean run (some r) w new = readopted-IsClean (get r.id w.runs)
    where
      readopted-IsClean : (o : Option Run) → IsClean w.runs (w, readopted h o r.id)
      readopted-IsClean none = tt
      readopted-IsClean (some x) = tt

  remember-IsClean :
      (key : Option Text) (m : Runs) (ws : World × Spawned)
      → IsClean m ws
      → IsClean m (remember h key ws)
  remember-IsClean none m (w, ok r s) e = tt
  remember-IsClean none m (w, err x) e = e
  remember-IsClean (some key) m (w, ok r s) e = tt
  remember-IsClean (some key) m (w, err x) e = e

  reserve_and_spawn-IsClean :
      (run : Run) (lane : Text) (w : World)
      → lookup run.id w.runs ≡ none
      → IsClean w.runs (reserve_and_spawn h run lane w)
  unfolding reserve_and_spawn reserve_build reserve
  reserve_and_spawn-IsClean run lane w new =
      tests-IsClean false h.writable w.runs w
        (after_reserve h run (reserve_build lane run w.runs) w) refl
        (after_reserve-IsClean run
          (if is_empty lane then none else find_live build lane (values w.runs)) w new)

  spawn_fresh-IsClean :
      (req : BuildSpawnReq) (o : Option Run) (w : World)
      → lookup (h.new_id w.ids) w.runs ≡ none
      → IsClean w.runs (spawn_fresh h req o w)
  unfolding new_build_run
  spawn_fresh-IsClean req (some r) w new = tt
  spawn_fresh-IsClean req none w new =
      let run = new_build_run h (request_spec h req (h.new_id w.ids)) in
      let ws = reserve_and_spawn h run (lane_key_of req.meta) (take_id w) in
      remember-IsClean req.idempotency_key w.runs ws
        (reserve_and_spawn-IsClean run (lane_key_of req.meta) (take_id w) new)

  spawn_build-IsClean :
      (req : BuildSpawnReq) (w : World)
      → lookup (h.new_id w.ids) w.runs ≡ none
      → IsClean w.runs (spawn_build h req w)
  unfolding spawn_build
  spawn_build-IsClean req w new =
      tests-IsClean (is_empty req.prompt) true w.runs w
        (spawn_fresh h req (known_key h req.idempotency_key w) w) refl
        (spawn_fresh-IsClean req (known_key h req.idempotency_key w) w new)

clean_refused :
    (m : Runs) (ws : World × Spawned) {x : Failure} → IsClean m ws → ws.1 ≡ err x → ws.0.runs ≡ m
clean_refused m (w, ok r s) clean e = cc
clean_refused m (w, err y) clean e = clean

-- No phantom run: Spawn that is answered with an error leaves the store as it was, if the id that it
-- was given is new.
pub spawn_run-no_phantom :
    (h : Host) (req : SpawnReq) (w : World) {x : Failure}
    → lookup (h.new_id w.ids) w.runs ≡ none
    → (spawn_run h req w).1 ≡ err x
    → (spawn_run h req w).0.runs ≡ w.runs
spawn_run-no_phantom h req w new =
    clean_refused w.runs (spawn_run h req w) (spawn_run-IsClean h req w new)

-- SpawnInit that is answered with an error leaves the store as it was, if the id that it was given is
-- new: no run holds its lane.
pub spawn_init-no_phantom :
    (h : Host) (req : SpawnReq) (w : World) {x : Failure}
    → lookup (h.new_id w.ids) w.runs ≡ none
    → (spawn_init h req w).1 ≡ err x
    → (spawn_init h req w).0.runs ≡ w.runs
spawn_init-no_phantom h req w new =
    clean_refused w.runs (spawn_init h req w) (spawn_init-IsClean h req w new)

-- A build request that is answered with an error leaves the store as it was, if the id that it
-- was given is new.
pub spawn_build-no_phantom :
    (h : Host) (req : BuildSpawnReq) (w : World) {x : Failure}
    → lookup (h.new_id w.ids) w.runs ≡ none
    → (spawn_build h req w).1 ≡ err x
    → (spawn_build h req w).0.runs ≡ w.runs
spawn_build-no_phantom h req w new =
    clean_refused w.runs (spawn_build h req w) (spawn_build-IsClean h req w new)
