-- ===== src/Engine/Replay.antt =====
-- A build request that is sent again with its idempotency key (SpawnBuild of
-- backend/usecase/buildengine.go).
use saki_cli.Base.{
  ◌≡◌, refl, sym, ap, subst, ◌∙◌, inl, inr, Bool, true, false, Option, none, some, [], ◌∷◌, arith,
  if◌then◌else◌, Bool-cases, Text, same, same_iff, same_refl, is_empty, lookup, insert, values,
  lookup-insert, lookup-update, ℤ,
}
use saki_cli.Run.{lane_key_of, Run, RunKind, build}
use saki_cli.Store.{Runs, get, set_pid, is_live, find_live, reserve_found, reserve, reserve_build}
use saki_cli.World.{take_id, write, World, Host, SpawnResult, started, failed}
use saki_cli.Engine.Later.{Becomes, Follows, Kept}
use saki_cli.Engine.Between.{Meanwhile-Kept, Meanwhile}
use saki_cli.World.Laws.{write-runs}
use saki_cli.Engine.Spawn.{
  lookup_idem, record_idem, spec_of, new_build_run, spawn_reserved, spawn_written,
  journal_and_spawn, readopted, after_reserve, reserve_and_spawn, remember, known_key, request_spec,
  spawn_fresh, spawn_build, BuildSpawnReq, SpawnState, spawn_deduped, Spawned, ok, err,
}

-- Each run stands in the store under its own id.
abbrev pub Keyed : Runs → Type 0
Keyed [] = Unit
Keyed ((k, r) ∷ m) = (r.id ≡ k) × Keyed m

-- A run of that id is in the store.
abbrev Present : Text → Runs → Type 0
Present id m = (r : Run) × (lookup id m ≡ some r) × (r.id ≡ id)

-- An entry in front keeps what is behind it present.
cons-Present :
    (id : Text) (e : Text × Run) (m : Runs) → e.1.id ≡ e.0 → Present id m → Present id (e ∷ m)
unfolding lookup
cons-Present id (j, x) m named (y, at, of_id) = elim (Bool-cases (same j id)) [
  | inl hit ↦ (x, rw hit, named ∙ (same_iff j id).0 hit)
  | inr miss ↦ (y, rw miss at, of_id)
]

head-Present : (e : Text × Run) (m : Runs) → e.1.id ≡ e.0 → Present e.1.id (e ∷ m)
unfolding lookup
head-Present (j, x) m named = (x, ground (arith, same_iff j x.id, named), refl)

find_live-Present :
    (kind : RunKind) (lane : Text) (m : Runs) (r : Run)
    → Keyed m
    → find_live kind lane (values m) ≡ some r
    → Present r.id m
unfolding find_live values
find_live-Present kind lane [] r k e = cc
find_live-Present kind lane ((j, x) ∷ m) r k e = elim (Bool-cases (is_live kind lane x)) [
  | inl live_x ↦
      let same_run : x ≡ r = cc (rw live_x at e) in
      subst (λ (y : Run). Present y.id ((j, x) ∷ m)) same_run (head-Present (j, x) m (k.0))
  | inr dead ↦
      cons-Present r.id (j, x) m (k.0) (find_live-Present kind lane m r (k.1) (rw dead at e))
]

set_pid-Present : (id : Text) (p : ℤ) (m : Runs) → Present id m → Present id (set_pid id p m)
unfolding set_pid
set_pid-Present id p m (r, at, of_id) =
    (record r { pid = some p }, rw lookup-update (rw (same_refl id, at)), of_id)

insert-Present : (r : Run) (m : Runs) → Present r.id (insert r.id r m)
insert-Present r m = (r, rw lookup-insert (rw (same_refl r.id)), refl)

-- A spawn that was answered with a run has that run in the store.
abbrev Answered : World × Spawned → Type 0
Answered (w, ok r s) = Present r.id w.runs
Answered (w, err x) = Unit

module _ (h : Host) where
  spawn_reserved-Answered :
      (run : Run) (res : SpawnResult) (w : World)
      → Present run.id w.runs
      → Answered (spawn_reserved h build run res w)
  unfolding spawn_reserved
  spawn_reserved-Answered run (failed x) w at = tt
  spawn_reserved-Answered run (started pid) w at =
      rw write-runs (set_pid-Present run.id pid w.runs at)

  spawn_written-Answered :
      (run : Run) (wb : World × Bool)
      → Present run.id wb.0.runs
      → Answered (spawn_written h build run wb)
  unfolding spawn_written
  spawn_written-Answered run (w, true) at =
      spawn_reserved-Answered run (h.spawn (spec_of build run)) w at
  spawn_written-Answered run (w, false) at = tt

  after_reserve-Answered :
      (run : Run) (mr : Runs × Option Text) (w : World)
      → ((existing : Text) → mr.1 ≡ some existing → Present existing w.runs × (mr.0 ≡ w.runs))
      → (mr.1 ≡ none → Present run.id mr.0)
      → Answered (after_reserve h run mr w)
  unfolding journal_and_spawn
  after_reserve-Answered run (m, none) w a b =
      spawn_written-Answered run (write h run (record w { runs = m })) (rw write-runs (b refl))
  after_reserve-Answered run (m, some existing) w a b = found (a existing refl)
    where
      found :
          Present existing w.runs × (m ≡ w.runs)
          → Answered (w, readopted h (get existing m) existing)
      found ((r, at, of_id), kept) =
          rw kept
            (unfold get in rw at (r, subst (λ i. lookup i w.runs ≡ some r) (sym of_id) at, refl))

  reserve_found-Answered :
      (run : Run) (o : Option Run) (w : World)
      → ((r : Run) → o ≡ some r → Present r.id w.runs)
      → Answered (after_reserve h run (reserve_found o run w.runs) w)
  reserve_found-Answered run none w a =
      after_reserve-Answered run (insert run.id run w.runs, none) w (λ x e. cc)
        (λ _. insert-Present run w.runs)
  reserve_found-Answered run (some r) w a =
      after_reserve-Answered run (w.runs, some r.id) w
        (λ x e. (subst (λ i. Present i w.runs) (cc) (a r refl), refl)) (λ e. cc)

  -- A request that is answered with a run leaves that run in the store.
  reserve_and_spawn-Answered :
      (run : Run) (lane : Text) (w : World)
      → Keyed w.runs
      → Answered (reserve_and_spawn h run lane w)
  unfolding reserve_and_spawn reserve_build reserve
  reserve_and_spawn-Answered run lane w k = elim (Bool-cases h.writable) [
    | inl e ↦ rw e (
        reserve_found-Answered run
          (if is_empty lane then none else find_live build lane (values w.runs)) w
          (λ r at. find_live-Present build lane w.runs r k (ground (arith, at))))
    | inr e ↦ rw e tt
  ]

-- The key of a request that was answered with a run leads to that run.
abbrev Recorded : Text → World × Spawned → Type 0
Recorded key (w, ok run s) = (r : Run) × (lookup_idem key w ≡ some r) × (r.id ≡ run.id)
Recorded key (w, err x) = Unit

lookup_idem_recorded :
    (key id : Text) (w : World) → lookup_idem key (record_idem key id w) ≡ get id w.runs
unfolding lookup_idem record_idem
lookup_idem_recorded key id w = leads (rw lookup-insert (rw (same_refl key)))
  where
    leads :
        {o : Option Text}
        → o ≡ some id
        → elim o [ none ↦ none | some i ↦ get i w.runs ] ≡ get id w.runs
    leads e = rw e

module _ (h : Host) where
  remember-Recorded :
      (key : Text) (ws : World × Spawned) → Answered ws → Recorded key (remember h (some key) ws)
  unfolding get
  remember-Recorded key (w, ok run s) (r, at, of_id) =
      (r, lookup_idem_recorded key run.id w ∙ at, of_id)
  remember-Recorded key (w, err x) a = tt

  spawn_fresh-Recorded :
      (req : BuildSpawnReq) (key : Text) (o : Option Run) (w : World)
      → Keyed w.runs
      → req.idempotency_key ≡ some key
      → lookup_idem key w ≡ o
      → Recorded key (spawn_fresh h req o w)
  spawn_fresh-Recorded req key (some existing) w k e at = (existing, at, refl)
  spawn_fresh-Recorded req key none w k e at =
      let run = new_build_run h (request_spec h req (h.new_id w.ids)) in
      let ws = reserve_and_spawn h run (lane_key_of req.meta) (take_id w) in
      subst (λ o. Recorded key (remember h o ws)) (sym e)
        (remember-Recorded key ws
          (reserve_and_spawn-Answered h run (lane_key_of req.meta) (take_id w) k))

  spawn_build-Recorded :
      (req : BuildSpawnReq) (key : Text) (w : World)
      → Keyed w.runs
      → req.idempotency_key ≡ some key
      → Recorded key (spawn_build h req w)
  unfolding spawn_build
  spawn_build-Recorded req key w k e = elim (Bool-cases (is_empty req.prompt)) [
    | inl empty ↦ rw empty tt
    | inr prompt ↦
        let known = known_key h req.idempotency_key w in
        rw prompt (spawn_fresh-Recorded req key known w k e (sym (ap (λ o. known_key h o w) e)))
  ]

get-Becomes :
    (i : Text) (m m' : Runs) (r : Run)
    → Follows m m'
    → get i m ≡ some r
    → (r' : Run) × (get i m' ≡ some r') × (r'.id ≡ r.id)
unfolding get
get-Becomes i m m' r f at = go (lookup i m') refl (subst (λ o. Becomes o (lookup i m')) at (f i))
  where
    go :
        (o : Option Run)
        → lookup i m' ≡ o
        → Becomes (some r) o
        → (r' : Run) × (lookup i m' ≡ some r') × (r'.id ≡ r.id)
    go none e b = absurd b
    go (some r') e (same_id, _) = (r', e, same_id)

-- A key leads to the same run as long as it is kept.
lookup_idem-Kept :
    (key : Text) (w w' : World) (r : Run)
    → Kept w w'
    → lookup_idem key w ≡ some r
    → (r' : Run) × (lookup_idem key w' ≡ some r') × (r'.id ≡ r.id)
unfolding lookup_idem
lookup_idem-Kept key w w' r kept at = rw kept.keys (go (lookup key w.idem) at)
  where
    go :
        (o : Option Text)
        → elim o [ none ↦ none | some i ↦ get i w.runs ] ≡ some r
        → (r' : Run) × (elim o [ none ↦ none | some i ↦ get i w'.runs ] ≡ some r') × (r'.id ≡ r.id)
    go none e = cc
    go (some i) e = get-Becomes i w.runs w'.runs r kept.runs_go_on e

-- A request that carries the key of an earlier one, which was answered with a run, spawns nothing
-- and changes nothing: it is answered with the run of that id, whatever else it asks for, whatever
-- the host answers then, and however many processes exited, builds were stopped, pushes ended and
-- polls ticked in between, so that the run may long have ended.
pub replay :
    (h h' : Host) (req req' : BuildSpawnReq) (key : Text) (w w' w'' : World) (run : Run)
    (state : SpawnState)
    → Keyed w.runs
    → req.idempotency_key ≡ some key
    → req'.idempotency_key ≡ some key
    → is_empty req'.prompt ≡ false
    → spawn_build h req w ≡ (w', ok run state)
    → Meanwhile w' w''
    → (r : Run) × (spawn_build h' req' w'' ≡ (w'', ok r spawn_deduped)) × (r.id ≡ run.id)
unfolding spawn_build
replay h h' req req' key w w' w'' run state k e e' prompt first between =
    let (x, found, of_run) = subst (Recorded key) first (spawn_build-Recorded h req key w k e) in
    let (r, at, of_id) = lookup_idem-Kept key w' w'' x (Meanwhile-Kept between) found in
    (
      r,
      rw prompt (ap (λ o. spawn_fresh h' req' o w'') (ap (λ o. known_key h' o w'') e' ∙ at)),
      of_id ∙ of_run,
    )
