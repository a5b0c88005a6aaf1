-- ===== src/Workflow/Child.antt =====
-- The child run that a phase is given, in advanceLocked of backend/usecase/workflow.go.
use saki_cli.Base.{
  ℕ, Bool, true, false, not, ◌&&◌, ◌||◌, Option, none, some, List, [], ◌∷◌, ◌++◌, if◌then◌else◌,
  is_some, Text, codes, same, is_empty,
}
use saki_cli.Run.{
  is_running, resolve_engine, lane_key_of, Run, RunEngine, unset, RunKind, build, other_kind,
}
use saki_cli.Store.{Runs, get}
use saki_cli.Workflow.{
  Workflow, Phase, resolve, pickup, proto, lock, build_phase, rplan, rplan_review, approved, qa,
  reviewer, wrap, verifying,
}
use saki_cli.Workflow.Answers.{ChildRequest, Answers}

unfoldable pub phase_name : Phase → Text
phase_name resolve = codes "resolve"
phase_name pickup = codes "pickup"
phase_name proto = codes "proto"
phase_name lock = codes "lock"
phase_name build_phase = codes "build"
phase_name rplan = codes "rplan"
phase_name rplan_review = codes "rplan-review"
phase_name approved = codes "approved"
phase_name qa = codes "qa"
phase_name reviewer = codes "reviewer"
phase_name wrap = codes "wrap"
phase_name verifying = codes "verify"

abbrev pub is_build_phase : Phase → Bool
is_build_phase build_phase = true
is_build_phase _ = false

abbrev pub kind_of_phase : Phase → RunKind
kind_of_phase build_phase = build
kind_of_phase p = other_kind (phase_name p)

-- The phases whose skill is given the target as it was asked for.
abbrev pub asks_target : Phase → Bool
asks_target pickup = true
asks_target rplan = true
asks_target _ = false

unfoldable pub prompt_of : Text → Workflow → Text
unfolding phase_name
prompt_of continuation w =
    let target =
      if is_empty w.resolved_path || asks_target w.phase then w.target else w.resolved_path in
    codes "/saki-builder:"
    ++ phase_name w.phase
    ++ (if is_empty target then [] else codes " " ++ target)
    ++ (if is_build_phase w.phase
        then codes
            "\nWhen all required implementation work is complete and the durable build evidence is written, end your final response with PRD_BUILD_COMPLETE on its own line."
        else [])
    ++ (if is_empty continuation then [] else codes "\nOperator selected option: " ++ continuation)

-- findLiveChild.
unfoldable pub find_live_child : Text → List Run → Option Run
unfolding same
find_live_child lane [] = none
find_live_child lane (r ∷ rs) =
    let rest = find_live_child lane rs in
    if is_running r.status
      && is_some r.meta
      && same (lane_key_of r.meta) lane
      && not (is_empty r.prompt)
    then some r
    else rest

abbrev pub count_of : Workflow → Option Run → ℕ
count_of w none = w.resume_count
count_of w (some r) = r.resume_count

-- The workflow takes a run as its child.
abbrev pub takes : Runs → Text → Workflow → Workflow
takes m id w = record w {
  child_run = id;
  resume_count = if is_build_phase w.phase then count_of w (get id m) else w.resume_count;
}

module _ (h : Answers) where
  -- What an own engine and an own profile override.
  abbrev pub child_engine : RunEngine → Workflow → RunEngine
  child_engine unset w = resolve_engine w.engine
  child_engine e w = e

  abbrev pub child_config : Option Text → Workflow → Option Text
  child_config (some d) w = some d
  child_config none w = if is_empty w.config_dir then none else some w.config_dir

  unfoldable pub child_request : Option Text → RunEngine → Text → Workflow → ChildRequest
  unfolding prompt_of resolve_engine phase_name
  child_request config engine continuation w = record {
    prompt = prompt_of continuation w;
    cwd = w.cwd;
    config_dir = child_config config w;
    kind = kind_of_phase w.phase;
    lane_key = w.lane_key;
    engine = child_engine engine w;
    as_build = is_build_phase w.phase;
  }
