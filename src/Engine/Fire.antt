-- ===== src/Engine/Fire.antt =====
-- firePendingResume of backend/usecase/buildengine.go where there is nothing to fire, and the count
-- of spawned processes.
use saki_cli.Base.{
  ℕ, ◌≡◌, refl, Bool, true, false, Option, none, some, arith, if◌then◌else◌, Text, same, count_if,
  lookup, insert, remove, update, lookup-insert, mapped, lookup-update, lookup-remove,
}
use saki_cli.Run.{PendingResume, Run, build}
use saki_cli.Store.{Runs, set_pid, delete, reserve, reserve_build}
use saki_cli.World.{write, World, Host, SpawnResult, started, failed, Effect, spawned}
use saki_cli.Engine.Resume.{pending_found, fire_pending_resume}
use saki_cli.World.Laws.{write-runs}
use saki_cli.Engine.Spawn.{
  spec_of, spawn_reserved, spawn_written, journal_and_spawn, after_reserve, reserve_and_spawn,
}

abbrev pub is_spawn : Effect → Bool
is_spawn (spawned s) = true
is_spawn _ = false

-- How many processes were spawned.
abbrev pub spawns : World → ℕ
spawns w = count_if is_spawn w.effects

-- The pending resume that the store has for a run.
abbrev pub pending_at : Host → Text → Runs → Option PendingResume
pending_at h id m = pending_found h (lookup id m)

module _ (h : Host) (id : Text) where
  pending-insert :
      (k : Text) (r : Run) (m : Runs)
      → r.pending_resume ≡ none
      → pending_at h id m ≡ none
      → pending_at h id (insert k r m) ≡ none
  pending-insert k r m a b = ground (arith, lookup-insert k id r m, a, b)

  pending-remove :
      (k : Text) (m : Runs) → pending_at h id m ≡ none → pending_at h id (remove k m) ≡ none
  pending-remove k m b = ground (arith, lookup-remove k id m, b)

  pending-update :
      (k : Text) (f : Run → Run) (m : Runs)
      → ((r : Run) → r.pending_resume ≡ none → (f r).pending_resume ≡ none)
      → pending_at h id m ≡ none
      → pending_at h id (update k f m) ≡ none
  pending-update k f m keeps b = rw (lookup-update k id f m) (choose (same k id) (lookup id m) b)
    where
      choose :
          (c : Bool) (o : Option Run)
          → pending_found h o ≡ none
          → pending_found h (if c then mapped f o else o) ≡ none
      choose true none e = refl
      choose true (some r) e = keeps r e
      choose false o e = e

  spawn_reserved-pending :
      (run : Run) (res : SpawnResult) (w : World)
      → pending_at h id w.runs ≡ none
      → pending_at h id (spawn_reserved h build run res w).0.runs ≡ none
  unfolding spawn_reserved delete set_pid
  spawn_reserved-pending run (failed x) w e = pending-remove run.id w.runs e
  spawn_reserved-pending run (started pid) w e =
      rw write-runs (pending-update run.id _ w.runs (λ r p. p) e)

  spawn_written-pending :
      (run : Run) (wb : World × Bool)
      → pending_at h id wb.0.runs ≡ none
      → pending_at h id (spawn_written h build run wb).0.runs ≡ none
  unfolding spawn_written delete
  spawn_written-pending run (w, true) e =
      spawn_reserved-pending run (h.spawn (spec_of build run)) w e
  spawn_written-pending run (w, false) e = pending-remove run.id w.runs e

  after_reserve-pending :
      (run : Run) (mr : Runs × Option Text) (w : World)
      → pending_at h id mr.0 ≡ none
      → pending_at h id w.runs ≡ none
      → pending_at h id (after_reserve h run mr w).0.runs ≡ none
  unfolding journal_and_spawn
  after_reserve-pending run (m, some existing) w a b = b
  after_reserve-pending run (m, none) w a b =
      spawn_written-pending run (write h run (record w { runs = m })) (rw write-runs a)

  reserve-pending :
      (lane : Text) (run : Run) (m : Runs)
      → run.pending_resume ≡ none
      → pending_at h id m ≡ none
      → pending_at h id (reserve_build lane run m).0 ≡ none
  unfolding reserve_build reserve
  reserve-pending lane run m a b = ground (arith, pending-insert run.id run m a b, b)

  pub reserve_and_spawn-pending :
      (run : Run) (lane : Text) (w : World)
      → run.pending_resume ≡ none
      → pending_at h id w.runs ≡ none
      → pending_at h id (reserve_and_spawn h run lane w).0.runs ≡ none
  unfolding reserve_and_spawn
  reserve_and_spawn-pending run lane w a b = ground (
    arith,
    b,
    after_reserve-pending run (reserve_build lane run w.runs) w
        (reserve-pending lane run w.runs a b) b,
  )

  -- Without a pending resume nothing is fired.
  pub fire_nothing : (w : World) → pending_at h id w.runs ≡ none → fire_pending_resume h id w ≡ w
  unfolding fire_pending_resume
  fire_nothing w e = rw e
