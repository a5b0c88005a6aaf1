-- ===== src/Service/Clean.antt =====
-- What Spawn and SpawnInit of backend/usecase/spawn.go leave in the store where they fail.
use saki_cli.Base.{
  ◌≡◌, refl, ap, ◌∙◌, inl, inr, Bool, true, false, Option, none, some, [], ◌∷◌, arith,
  if◌then◌else◌, Bool-cases, same, same_refl, is_empty, lookup, insert, remove, values,
}
use saki_cli.Run.{kind_of_meta, lane_key_of, zero_run, Run, RunKind, init}
use saki_cli.Store.{Runs, put, get, delete, find_live, reserve_found, reserve, reserve_init}
use saki_cli.World.{
  take_id, write, World, Host, SpawnResult, started, failed, no_prompt, runs_dir_unwritable,
}
use saki_cli.World.Laws.{write-runs}
use saki_cli.Engine.Spawn.{spec_of, readopted, Spawned, ok, err}
use saki_cli.Service.Spawn.{
  request_run, spawn_put, run_written, spawn_run, init_written, init_reserved, spawn_init, SpawnReq,
}

-- A key that is not there is inserted at the end, and taken away again.
pub delete-put : (r : Run) (m : Runs) → lookup r.id m ≡ none → delete r.id (insert r.id r m) ≡ m
unfolding delete lookup insert remove
delete-put r [] e = ground (arith, same_refl r.id)
delete-put r ((j, x) ∷ m) e = elim (Bool-cases (same j r.id)) [
  | inl hit ↦ cc (rw hit at e)
  | inr miss ↦ rw (miss, miss) (ap (λ n. (j, x) ∷ n) (delete-put r m (rw miss at e)))
]

-- Where a spawn is refused, the store has the given runs.
abbrev pub IsClean : Runs → World × Spawned → Type 0
IsClean m (w, ok r s) = Unit
IsClean m (w, err x) = w.runs ≡ m

-- The two tests that come first.
pub tests-IsClean :
    (empty able : Bool) (m : Runs) (w : World) (ws : World × Spawned)
    → w.runs ≡ m
    → IsClean m ws
    → IsClean m
        (if empty then (w, err no_prompt) else if able then ws else (w, err runs_dir_unwritable))
tests-IsClean true able m w ws e clean = e
tests-IsClean false true m w ws e clean = clean
tests-IsClean false false m w ws e clean = e

module _ (h : Host) where
  spawn_put-IsClean :
      (kind : RunKind) (run : Run) (res : SpawnResult) (w : World) (m : Runs)
      → w.runs ≡ insert run.id run m
      → lookup run.id m ≡ none
      → IsClean m (spawn_put h kind run res w)
  spawn_put-IsClean kind run (failed x) w m e new = ap (delete run.id) e ∙ delete-put run m new
  spawn_put-IsClean kind run (started pid) w m e new = tt

  run_written-IsClean :
      (kind : RunKind) (run : Run) (wb : World × Bool) (m : Runs)
      → wb.0.runs ≡ m
      → lookup run.id m ≡ none
      → IsClean m (run_written h kind run wb)
  unfolding put
  run_written-IsClean kind run (w, false) m e new = e
  run_written-IsClean kind run (w, true) m e new =
      spawn_put-IsClean kind run (h.spawn (spec_of kind run)) (record w { runs = put run w.runs }) m
        (ap (insert run.id run) e) new

  -- Spawn that is answered with an error leaves the store as it was, if the new id is not in use.
  pub spawn_run-IsClean :
      (req : SpawnReq) (w : World)
      → lookup (h.new_id w.ids) w.runs ≡ none
      → IsClean w.runs (spawn_run h req w)
  unfolding spawn_run request_run zero_run
  spawn_run-IsClean req w new =
      let run = request_run h req (h.new_id w.ids) in
      tests-IsClean (is_empty req.prompt) h.writable w.runs w
        (run_written h (kind_of_meta req.meta) run (write h run (take_id w))) refl
        (run_written-IsClean (kind_of_meta req.meta) run (write h run (take_id w)) w.runs
          (write-runs h run (take_id w)) new)

  init_written-IsClean :
      (run : Run) (wb : World × Bool) (m : Runs)
      → wb.0.runs ≡ insert run.id run m
      → lookup run.id m ≡ none
      → IsClean m (init_written h run wb)
  init_written-IsClean run (w, false) m e new = ap (delete run.id) e ∙ delete-put run m new
  init_written-IsClean run (w, true) m e new =
      spawn_put-IsClean init run (h.spawn (spec_of init run)) w m e new

  init_reserved-IsClean :
      (run : Run) (o : Option Run) (w : World)
      → lookup run.id w.runs ≡ none
      → IsClean w.runs (init_reserved h run (reserve_found o run w.runs) w)
  init_reserved-IsClean run none w new =
      let w1 = record w { runs = insert run.id run w.runs } in
      init_written-IsClean run (write h run w1) w.runs (write-runs h run w1) new
  init_reserved-IsClean run (some r) w new = readopted-IsClean (get r.id w.runs)
    where
      readopted-IsClean : (o : Option Run) → IsClean w.runs (w, readopted h o r.id)
      readopted-IsClean none = tt
      readopted-IsClean (some x) = tt

  -- So does SpawnInit.
  pub spawn_init-IsClean :
      (req : SpawnReq) (w : World)
      → lookup (h.new_id w.ids) w.runs ≡ none
      → IsClean w.runs (spawn_init h req w)
  unfolding spawn_init request_run zero_run reserve_init reserve
  spawn_init-IsClean req w new =
      let run = request_run h req (h.new_id w.ids) in
      let lane = lane_key_of req.meta in
      tests-IsClean (is_empty req.prompt) h.writable w.runs w
        (init_reserved h run (reserve_init lane run w.runs) (take_id w)) refl
        (init_reserved-IsClean run
          (if is_empty lane then none else find_live init lane (values w.runs)) (take_id w) new)
