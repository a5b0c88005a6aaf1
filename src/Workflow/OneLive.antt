-- ===== src/Workflow/OneLive.antt =====
-- The service of backend/usecase/workflow.go over its calls: Start, Continue, Stop, Sweep and
-- Rehydrate in any order.
use Prim.Native.Nat.{ℕ}
use saki_cli.Base.{◌≡◌, sym, subst, ◌∙◌, false, Option, some, List, [], Text, lookup}
use saki_cli.Workflow.Answers.{Answers}
use saki_cli.Workflow.Phases.{Flow}
use saki_cli.Workflow.Coordinator.{
  is_historical, start, continue_by_id, stop_by_id, sweep, Flows, StartRequest,
}
use saki_cli.Workflow.Owners.{Owned, stop_by_id-Owned, continue_by_id-Owned, sweep-Owned}
use saki_cli.Workflow.Claims.{start-Owned}
use saki_cli.Workflow.Booted.{empty-Owned, rehydrate-Owned}
use saki_cli.Workflow.Rehydrate.{rehydrate, Stored}

-- The states of the service after its calls. Each call has its own answers of the ports, and any
-- id of the generator.
pub data Reached : Flows → Type 0 where
  built : Reached (record { flows = []; by_lane = []; by_idem = [] })
  boots :
      (h : Answers) (n : ℕ) (wd : Text) (o : Option (List Stored)) {s : Flows}
      → Reached s
      → Reached (rehydrate h n wd o s)
  starts :
      (h : Answers) (id : Text) (req : StartRequest) {s : Flows}
      → Reached s
      → Reached (start h id req s).0
  continues :
      (h : Answers) (id option : Text) {s : Flows}
      → Reached s
      → Reached (continue_by_id h id option s).0
  stops : (h : Answers) (id : Text) {s : Flows} → Reached s → Reached (stop_by_id h id s).0
  sweeps : (h : Answers) (n : ℕ) {s : Flows} → Reached s → Reached (sweep h n s)

Reached-Owned : {s : Flows} → Reached s → Owned s
Reached-Owned built = empty-Owned
Reached-Owned (boots h n wd o r) = rehydrate-Owned h n wd o _ (Reached-Owned r)
Reached-Owned (starts h id req r) = start-Owned h id req _ (Reached-Owned r)
Reached-Owned (continues h id option r) = continue_by_id-Owned h id option _ (Reached-Owned r)
Reached-Owned (stops h id r) = stop_by_id-Owned h id _ (Reached-Owned r)
Reached-Owned (sweeps h n r) = sweep-Owned h n _ (Reached-Owned r)

-- After any calls of Start, Continue, Stop, Sweep and Rehydrate on the maps of a new service, two
-- workflows of one lane that have not failed and were not stopped are one workflow, and the lane
-- index names it.
pub Reached-one_live :
    {s : Flows}
    → Reached s
    → (i j : Text) (f g : Flow) → lookup i s.flows ≡ some f
    → lookup j s.flows ≡ some g
    → f.wf.lane_key ≡ g.wf.lane_key
    → is_historical f.wf.status ≡ false
    → is_historical g.wf.status ≡ false
    → (i ≡ j) × (lookup f.wf.lane_key s.by_lane ≡ some i)
Reached-one_live {s} r i j f g at_i at_j one_lane f_live g_live =
    let owned = Reached-Owned r in
    let of_f = owned i f at_i f_live in
    let of_g = subst (λ l. lookup l s.by_lane ≡ some j) (sym one_lane) (owned j g at_j g_live) in
    (cc (sym of_f ∙ of_g), of_f)
