-- ===== src/Engine/Once.antt =====
-- firePendingResume of backend/usecase/buildengine.go, called again and again.
use saki_cli.Base.{
  ℕ, ◌+◌, ◌≤◌, ◌≡◌, refl, subst, ◌⊎◌, inl, inr, Bool, true, false, Option, none, some, List, [],
  ◌∷◌, arith, Bool-cases, Text, same_refl, lookup, mapped, lookup-update,
}
use saki_cli.Run.{lane_key_of, PendingResume, Run, build}
use saki_cli.Store.{Runs, get, reserve_build}
use saki_cli.World.{modify, write, rejournal, World, Host, SpawnResult, started, failed, Failure}
use saki_cli.World.Laws.{write-effects, rejournal-runs, rejournal-effects, quiet}
use saki_cli.Engine.Spawn.{
  spec_of, new_build_run, spawn_reserved, spawn_written, journal_and_spawn, readopted,
  after_reserve, reserve_and_spawn, Spawned, ok, err,
}
use saki_cli.Engine.Resume.{
  rearm_or_park, clear_pending, pending_found, successor_of, after_spawn, fire_successor, fire_won,
  fire_pending_resume,
}
use saki_cli.Engine.Fire.{spawns, pending_at, reserve_and_spawn-pending, fire_nothing}

-- An error spawned nothing, a success one process at most.
abbrev Frugal : ℕ → World × Spawned → Type 0
Frugal n (w, ok r s) = spawns w ≤ n + 1
Frugal n (w, err x) = spawns w ≡ n

module _ (h : Host) where
  write-spawns : (r : Run) (w : World) → spawns (write h r w).0 ≡ spawns w
  write-spawns r w = rw write-effects

  spawn_reserved-Frugal :
      (run : Run) (res : SpawnResult) (w : World)
      → Frugal (spawns w) (spawn_reserved h build run res w)
  unfolding spawn_reserved
  spawn_reserved-Frugal run (failed x) w = refl
  spawn_reserved-Frugal run (started pid) w = rw write-effects (omega arith)

  spawn_written-Frugal :
      (run : Run) (wb : World × Bool) → Frugal (spawns wb.0) (spawn_written h build run wb)
  unfolding spawn_written
  spawn_written-Frugal run (w, true) = spawn_reserved-Frugal run (h.spawn (spec_of build run)) w
  spawn_written-Frugal run (w, false) = refl

  after_reserve-Frugal :
      (run : Run) (mr : Runs × Option Text) (w : World)
      → Frugal (spawns w) (after_reserve h run mr w)
  unfolding journal_and_spawn
  after_reserve-Frugal run (m, none) w =
      let w1 = record w { runs = m } in
      subst (λ n. Frugal n (spawn_written h build run (write h run w1))) (write-spawns run w1)
        (spawn_written-Frugal run (write h run w1))
  after_reserve-Frugal run (m, some existing) w = found (get existing m)
    where
      found : (o : Option Run) → Frugal (spawns w) (w, readopted h o existing)
      found none = omega arith
      found (some r) = omega arith

  pub reserve_and_spawn-Frugal :
      (run : Run) (lane : Text) (w : World) → Frugal (spawns w) (reserve_and_spawn h run lane w)
  unfolding reserve_and_spawn
  reserve_and_spawn-Frugal run lane w = elim (Bool-cases h.writable) [
    | inl e ↦ rw e (after_reserve-Frugal run (reserve_build lane run w.runs) w)
    | inr e ↦ rw e
  ]

  rearm_or_park-effects :
      (id : Text) (p : PendingResume) (x : Failure) (w : World)
      → (rearm_or_park h id p x w).effects ≡ w.effects
  unfolding rearm_or_park
  rearm_or_park-effects id p x w = grind (arith, quiet)

-- What a call of firePendingResume does to the number of spawns: it spawned nothing, or it spawned
-- one process and has left no pending resume.
abbrev pub Fired : Host → Text → ℕ → World → Type 0
Fired h id n w = (spawns w ≡ n) ⊎ ((spawns w ≤ n + 1) × (pending_at h id w.runs ≡ none))

module _ (h : Host) (id : Text) where
  after_spawn-Fired :
      (n : ℕ) (p : PendingResume) (ws : World × Spawned)
      → Frugal n ws
      → pending_at h id ws.0.runs ≡ none
      → Fired h id n (after_spawn h id p ws)
  after_spawn-Fired n p (w, ok r s) f e = inr (f, e)
  after_spawn-Fired n p (w, err x) f e = inl (rw (rearm_or_park-effects h id p x w) f)

  fire_successor-Fired :
      (p : PendingResume) (o : Option Run) (w : World)
      → pending_at h id w.runs ≡ none
      → Fired h id (spawns w) (fire_successor h id p o w)
  unfolding successor_of new_build_run
  fire_successor-Fired p none w e = inl refl
  fire_successor-Fired p (some pred) w e = elim (Bool-cases pred.stop_requested) [
    | inl s ↦ rw s (inl refl)
    | inr s ↦
        let lane = lane_key_of pred.meta in
        let succ = successor_of h p pred in
        rw s (
          after_spawn-Fired (spawns w) p (reserve_and_spawn h succ lane w)
            (reserve_and_spawn-Frugal h succ lane w)
            (reserve_and_spawn-pending h id succ lane w refl e))
  ]

  cleared : (o : Option Run) → pending_found h (mapped (clear_pending h) o) ≡ none
  cleared none = refl
  cleared (some r) = refl

  fire_won-Fired :
      (o : Option PendingResume) (w : World) → Fired h id (spawns w) (fire_won h id o w)
  fire_won-Fired none w = inl refl
  fire_won-Fired (some p) w =
      let w1 = rejournal h id (modify id (clear_pending h) w) in
      subst (λ n. Fired h id n (fire_successor h id p (lookup id w1.runs) w1)) (cleared_spawns w)
        (fire_successor-Fired p (lookup id w1.runs) w1 (cleared_pending w))
    where
      cleared_spawns :
          (w : World) → spawns (rejournal h id (modify id (clear_pending h) w)) ≡ spawns w
      cleared_spawns w = rw rejournal-effects

      cleared_pending :
          (w : World) → pending_at h id (rejournal h id (modify id (clear_pending h) w)).runs ≡ none
      cleared_pending w =
          rw rejournal-runs (rw lookup-update (rw (same_refl id) (cleared (lookup id w.runs))))

  pub fire-Fired : (w : World) → Fired h id (spawns w) (fire_pending_resume h id w)
  unfolding fire_pending_resume
  fire-Fired w = fire_won-Fired (pending_found h (lookup id w.runs)) w

-- The timer and the sweeps fire the same run one after the other.
unfoldable pub fire_all : List Host → Text → World → World
unfolding fire_pending_resume
fire_all [] id w = w
fire_all (h ∷ hs) id w = fire_all hs id (fire_pending_resume h id w)

fire_all_nothing :
    (hs : List Host) (h : Host) (id : Text) (w : World)
    → pending_at h id w.runs ≡ none
    → fire_all hs id w ≡ w
unfolding fire_all
fire_all_nothing [] h id w e = refl
fire_all_nothing (g ∷ hs) h id w e = rw (fire_nothing g id w e) (fire_all_nothing hs h id w e)

-- However often the timer and the sweeps fire a run's pending resume, and whatever the host answers
-- each time, one process at most is spawned.
pub fire_all_once :
    (hs : List Host) (id : Text) (w : World) → spawns (fire_all hs id w) ≤ spawns w + 1
unfolding fire_all
fire_all_once [] id w = omega arith
fire_all_once (h ∷ hs) id w = elim (fire-Fired h id w) [
  | inl same_count ↦ omega (arith, same_count, fire_all_once hs id (fire_pending_resume h id w))
  | inr (one, gone) ↦ rw (fire_all_nothing hs h id (fire_pending_resume h id w) gone) one
]
