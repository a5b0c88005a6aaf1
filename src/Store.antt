-- ===== src/Store.antt =====
-- backend/infra/memstore.go: the runs that the backend owns, by id. The mutex makes each operation
-- one step, so an operation is a function of the map.
pub mod Lanes
pub mod Finalize
use saki_cli.Base.{
  Bool, true, false, ◌&&◌, Option, none, some, List, [], ◌∷◌, if◌then◌else◌, Text, same, is_empty,
  Dict, lookup, insert, remove, update, values, is_zero, ℤ,
}
use saki_cli.Run.{is_running, same_kind, Meta, Run, done, error, RunKind, build, init}

abbrev pub Runs : Type 0
Runs = Dict Run

unfoldable pub put : Run → Runs → Runs
put run m = insert run.id run m

unfoldable pub get : Text → Runs → Option Run
get id m = lookup id m

unfoldable pub list : Runs → List Run
list m = values m

unfoldable pub set_pid : Text → ℤ → Runs → Runs
set_pid id pid m = update id (λ r. record r { pid = some pid }) m

unfoldable pub delete : Text → Runs → Runs
delete id m = remove id m

-- What Finalize writes into a run that is still running.
abbrev pub finalized : ℤ → Run → Run
finalized code r = record r { exit_code = some code; status = if is_zero code then done else error }

abbrev pub finalize_found : Text → ℤ → Option Run → Runs → Runs × Bool
finalize_found id code none m = (m, false)
finalize_found id code (some r) m =
    if is_running r.status then (update id (finalized code) m, true) else (m, false)

-- The result says whether this call made the run terminal.
unfoldable pub finalize : Text → ℤ → Runs → Runs × Bool
finalize id code m = finalize_found id code (lookup id m) m

-- A running run of the kind on the lane.
abbrev pub holds : RunKind → Text → Option Meta → Bool
holds kind lane none = false
holds kind lane (some t) = same_kind t.kind kind && same t.lane_key lane

abbrev pub is_live : RunKind → Text → Run → Bool
is_live kind lane r = is_running r.status && holds kind lane r.meta

unfoldable pub find_live : RunKind → Text → List Run → Option Run
find_live kind lane [] = none
find_live kind lane (r ∷ rs) = if is_live kind lane r then some r else find_live kind lane rs

-- reserveKind. The text is the id of the run in flight, none when `run` was put.
abbrev pub reserve_found : Option Run → Run → Runs → Runs × Option Text
reserve_found (some r) run m = (m, some r.id)
reserve_found none run m = (insert run.id run m, none)

unfoldable pub reserve : RunKind → Text → Run → Runs → Runs × Option Text
reserve kind lane run m =
    reserve_found (if is_empty lane then none else find_live kind lane (values m)) run m

unfoldable pub reserve_build : Text → Run → Runs → Runs × Option Text
unfolding reserve
reserve_build lane run m = reserve build lane run m

unfoldable pub reserve_init : Text → Run → Runs → Runs × Option Text
unfolding reserve
reserve_init lane run m = reserve init lane run m

abbrev pub is_found : Option Run → Bool
is_found none = false
is_found (some r) = true

unfoldable pub update_run : Text → (Run → Run) → Runs → Runs × Bool
update_run id mut m = (update id mut m, is_found (lookup id m))
