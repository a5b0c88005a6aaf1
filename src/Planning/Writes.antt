-- ===== src/Planning/Writes.antt =====
-- The write use cases on the documents: backend/usecase/plantrack.go and
-- backend/usecase/resolveblocker.go.
use saki_cli.Base.{
  ℕ, ◌+◌, Bool, true, false, not, ◌||◌, Option, none, some, List, [], ◌∷◌, ltb, leb, ◌==◌,
  if◌then◌else◌, Text, codes, same, is_empty, trim, is_nil, has_suffix, contains_any,
}
use saki_cli.Json.{or_else, Json, str, obj, Fields, end, field}
use saki_cli.Planning.Roadmap.{resolve_roadmap_path, RoadmapPath, path_ok, path_refused}
use saki_cli.Planning.PlanTrack.{
  match_item_id, Edit, start_plan_track, ship_plan_track, record_child_plan,
}
use saki_cli.Planning.Resolve.{resolve_question, append_resolved_question}
use saki_cli.Planning.Disk.{reply, after_write, Disk, Reply}

pub data EditBody : Type 0 where
  edit_error edit_failed : Text → EditBody
  changed_is : Bool → EditBody

-- len(s), in bytes of UTF-8.
abbrev pub utf8_width : ℕ → ℕ
utf8_width c = if ltb c 128 then 1 else if ltb c 2048 then 2 else if ltb c 65536 then 3 else 4

unfoldable pub byte_length : Text → ℕ
byte_length [] = 0
byte_length (c ∷ s) = utf8_width c + byte_length s

-- validPlanFile.
unfoldable pub valid_plan_file : Text → Bool
unfolding trim byte_length
valid_plan_file f =
    if is_empty (trim f)
    then false
    else if contains_any (codes "\n\r") f
    then false
    else leb (byte_length f) 256

module _ (d : Disk) (wd : Text) where
  abbrev pub edited : Text → Edit → Reply EditBody
  edited path (next, false) = reply 200 (changed_is false)
  edited path (next, true) =
      after_write path next (d.write path next) (λ e. reply 200 (edit_failed e))
        (reply 200 (changed_is true))

  abbrev pub edit_read : (Text → Edit) → Text → Option Text → Reply EditBody
  edit_read apply path none = reply 200 (edit_failed (codes "read failed"))
  edit_read apply path (some content) = edited path (apply content)

  abbrev pub edit_existing : (Text → Edit) → Text → Reply EditBody
  edit_existing apply path =
      if not (d.exists path)
      then reply 200 (changed_is false)
      else edit_read apply path (d.read path)

  -- The guard's refusal, where it gives one.
  abbrev pub edit_guarded : Option Text → (Text → Edit) → Text → Reply EditBody
  edit_guarded (some e) apply path = reply 422 (edit_error e)
  edit_guarded none apply path = edit_existing apply path

  abbrev pub edit_resolved : Text → Option Text → (Text → Edit) → RoadmapPath → Reply EditBody
  edit_resolved id guard apply (path_refused e) = reply 422 (edit_error e)
  edit_resolved id guard apply (path_ok path) =
      if not (match_item_id id)
      then reply 422 (edit_error (codes "id must match /^[EFIB]\\d+$/"))
      else edit_guarded guard apply path

  -- runWrite.
  unfoldable pub run_write : Text → Text → Option Text → (Text → Edit) → Reply EditBody
  unfolding resolve_roadmap_path match_item_id
  run_write cwd id guard apply = edit_resolved id guard apply (resolve_roadmap_path wd cwd)

  -- PlanStart.
  unfoldable pub plan_start : Text → Text → Text → Reply EditBody
  unfolding run_write start_plan_track
  plan_start cwd id date = run_write cwd id none (λ c. start_plan_track c id date)

  -- PlanShip.
  unfoldable pub plan_ship : Text → Text → Text → Reply EditBody
  unfolding run_write ship_plan_track
  plan_ship cwd id date = run_write cwd id none (λ c. ship_plan_track c id date)

  abbrev pub plan_file_guard : Text → Option Text
  plan_file_guard f =
      if not (valid_plan_file f)
      then some (codes "planFile must be a non-empty single-line filename")
      else none

  -- PlanAttach.
  unfoldable pub plan_attach : Text → Text → Text → Reply EditBody
  unfolding run_write record_child_plan valid_plan_file
  plan_attach cwd id f = run_write cwd id (plan_file_guard f) (λ c. record_child_plan c id f)

-- The value of a key of a map[string]any.
unfoldable pub map_get : Text → Fields → Option Json
unfolding same
map_get k end = none
map_get k (field j v fs) = or_else (map_get k fs) (if same j k then some v else none)

abbrev pub full_text : Option Json → Option Text
full_text (some (str s)) = if is_empty (trim s) then none else some s
full_text v = none

abbrev pub both_texts : Option Text → Option Text → Option (Text × Text)
both_texts (some q) (some a) = some (q, a)
both_texts (some q) none = none
both_texts none a = none

-- decisionFields.
unfoldable pub decision_fields : Json → Option (Text × Text)
unfolding map_get trim
decision_fields (obj fs) =
    both_texts (full_text (map_get (codes "question") fs))
      (full_text (map_get (codes "decision") fs))
decision_fields v = none

-- The document, the valid decisions and the changes so far.
pub record Progress : Type 0 where
  pub md : Text
  pub valid : ℕ
  pub changed : ℕ

abbrev pub changed_to : Progress → Text → Progress
changed_to p md = record { md = md; valid = p.valid + 1; changed = p.changed + 1 }

-- A valid decision.
unfoldable pub decide : Progress → Text → Text → Progress
unfolding resolve_question append_resolved_question same
decide p q a =
    let next = resolve_question p.md q a in
    let appended = append_resolved_question p.md q a in
    if not (same next p.md)
    then changed_to p next
    else if not (same appended p.md)
    then changed_to p appended
    else record p { valid = p.valid + 1 }

abbrev pub decide_if : Progress → Option (Text × Text) → Progress
decide_if p none = p
decide_if p (some (q, a)) = decide p q a

-- The loop over the decisions.
unfoldable pub decide_all : Progress → List Json → Progress
unfolding decision_fields decide
decide_all p [] = p
decide_all p (j ∷ js) = decide_all (decide_if p (decision_fields j)) js

pub data ResolveBody : Type 0 where
  resolve_error : Text → ResolveBody
  resolved_count : ℕ → ResolveBody

module _ (d : Disk) where
  abbrev pub resolve_done : Text → Progress → Reply ResolveBody
  resolve_done path p =
      if p.valid == 0
      then reply 422 (resolve_error (codes "no matching unresolved questions"))
      else if ltb 0 p.changed
      then after_write path p.md (d.write path p.md) (λ e. reply 500 (resolve_error e))
          (reply 200 (resolved_count p.changed))
      else reply 200 (resolved_count p.changed)

  abbrev pub resolve_read : Text → List Json → Option Text → Reply ResolveBody
  resolve_read path ds none = reply 404 (resolve_error (codes "PRD not found"))
  resolve_read path ds (some md) =
      resolve_done path (decide_all (record { md = md; valid = 0; changed = 0 }) ds)

  -- ResolveBlocker.
  unfoldable pub resolve_blocker : Text → List Json → Reply ResolveBody
  unfolding has_suffix decide_all
  resolve_blocker path ds =
      if is_empty path || (not (has_suffix (codes ".md") path) || is_nil ds)
      then reply 422
          (resolve_error (codes "prdPath (.md) and a non-empty decisions[] are required"))
      else resolve_read path ds (d.read path)
