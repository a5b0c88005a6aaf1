-- ===== src/Workflow/Resolve.antt =====
-- resolve of backend/usecase/workflow.go, and the functions of the file that ask the disk: what the
-- coordinator's Answers are on a disk.
use saki_cli.Base.{
  Bool, not, ◌&&◌, ◌||◌, Option, none, some, List, [], ◌∷◌, ◌++◌, if◌then◌else◌, is_some, Text,
  codes, same, is_empty, has_prefix, to_lower, trim, has_suffix, equal_fold,
}
use saki_cli.Regexp.{find, is_match, Re, text_start, text_end}
use saki_cli.Regexp.Syntax.{one_in, digit, plus, ◌⋅◌}
use saki_cli.Paths.{is_abs, clean, join, dir, base, abs, contained}
use saki_cli.Planning.Disk.{Disk}
use saki_cli.Planning.Roadmap.{parse_roadmap, RoadmapItem}
use saki_cli.Planning.Artifacts.{classify, Kind, kind_none, kind_prd, kind_plan}
use saki_cli.Planning.Lock.{is_locked}
use saki_cli.Planning.Boxes.{classify_checkboxes}
use saki_cli.Planning.Preview.{find_proto_preview}
use saki_cli.Workflow.{Track, prd_track, plan_track}
use saki_cli.Workflow.Answers.{Boxes, Answers, Resolved, found, unresolved}

abbrev pub workflow_id_re : Re
workflow_id_re = text_start ⋅ one_in (codes "EFIBefib") ⋅ plus digit ⋅ text_end

unfoldable pub is_workflow_id : Text → Bool
unfolding find
is_workflow_id t = is_match workflow_id_re t

-- An error that wraps ErrWorkflowTarget or ErrWorkflowTargetNotFound.
abbrev pub bad_target : Text → Resolved
bad_target why = unresolved (codes "workflow target could not be resolved: " ++ why)

abbrev pub no_target : Text → Resolved
no_target why = unresolved (codes "workflow target was not found: " ++ why)

-- A parsed item always has a track.
abbrev pub track_or : Option Track → Track
track_or none = plan_track
track_or (some t) = t

abbrev pub child_of_track : Track → RoadmapItem → Option Text
child_of_track prd_track item = item.child_prd
child_of_track plan_track item = item.child_plan

module _ (d : Disk) where
  -- containedChild.
  unfoldable pub contained_child : Text → Text → Text
  unfolding clean join dir base is_abs contained same has_prefix
  contained_child root child =
      let placed =
        if same (base (dir child)) (codes "tasks") || has_prefix (codes "tasks/") child
        then join (root ∷ child ∷ [])
        else join (root ∷ codes "tasks" ∷ child ∷ []) in
      let path = clean (if not (is_abs child) then placed else child) in
      if contained root path && d.exists path then path else []

  abbrev pub child_path : Text → Option Text → Text
  child_path root none = []
  child_path root (some child) = contained_child root child

  abbrev pub item_target : Text → Text → RoadmapItem → Resolved
  item_target root path item =
      found (record { cwd = root; identity = item.id; track = track_or item.track; path = path })

  -- The loop over the items for an id.
  unfoldable pub target_by_id : Text → Text → List RoadmapItem → Resolved
  unfolding equal_fold trim contained_child
  target_by_id root target [] = no_target (codes "roadmap item " ++ (target ++ codes " not found"))
  target_by_id root target (item ∷ items) =
      let rest = target_by_id root target items in
      if not (equal_fold item.id (trim target))
      then rest
      else item_target root (child_path root (child_of_track (track_or item.track) item)) item

  -- The loop over the items for the path of a document.
  unfoldable pub target_by_path : Text → Text → Track → List RoadmapItem → Resolved
  unfolding contained_child same
  target_by_path root path track [] =
      found (record { cwd = root; identity = path; track = track; path = path })
  target_by_path root path track (item ∷ items) =
      let rest = target_by_path root path track items in
      let child = child_of_track (track_or item.track) item in
      if is_some child && same (child_path root child) path
      then item_target root path item
      else rest

  abbrev pub items_in : Option Text → List RoadmapItem
  items_in none = []
  items_in (some content) = (parse_roadmap content).1

  unfoldable pub roadmap_path : Text → Text
  unfolding join
  roadmap_path root = join (root ∷ codes "tasks" ∷ codes "roadmap.md" ∷ [])

  abbrev pub id_target : Text → Text → Option Text → Resolved
  id_target root target none = no_target (codes "no tasks/roadmap.md found")
  id_target root target (some content) = target_by_id root target (parse_roadmap content).1

  abbrev pub kind_target : Text → Text → Kind → Resolved
  kind_target root path kind_none = bad_target (codes "target is not a PRD or plan")
  kind_target root path kind_plan =
      target_by_path root path plan_track (items_in (d.read (roadmap_path root)))
  kind_target root path kind_prd =
      target_by_path root path prd_track (items_in (d.read (roadmap_path root)))

  abbrev pub document_target : Text → Text → Resolved
  document_target root path =
      if not (contained root path)
      then bad_target (codes "target path escapes cwd")
      else if not (d.exists path)
      then no_target (codes "target path is missing")
      else kind_target root path (classify root path)

  -- resolve, in the working directory of the server.
  unfoldable pub resolve_target : Text → Text → Text → Resolved
  unfolding abs clean join is_abs trim to_lower has_suffix contained is_workflow_id parse_roadmap
      roadmap_path target_by_id target_by_path classify
  resolve_target wd cwd target =
      let root = clean (abs wd cwd) in
      let path = trim target in
      if is_workflow_id (trim target)
      then id_target root target (d.read (roadmap_path root))
      else if not (has_suffix (codes ".md") (to_lower (trim target)))
      then bad_target (codes "target must be a roadmap id or .md path")
      else document_target root
          (clean (if not (is_abs path) then join (root ∷ path ∷ []) else path))

  -- artifactExists.
  unfoldable pub artifact_exists : Text → Text → Bool
  unfolding clean join is_abs contained
  artifact_exists cwd artifact =
      let path = clean (if not (is_abs artifact) then join (cwd ∷ artifact ∷ []) else artifact) in
      contained (clean cwd) path && d.exists path

  -- sameContainedPath.
  abbrev pub placed_in : Text → Text → Text
  placed_in root path = clean (if not (is_abs path) then join (root ∷ path ∷ []) else path)

  unfoldable pub same_contained_path : Text → Text → Text → Bool
  unfolding clean join is_abs contained same
  same_contained_path cwd left right =
      let root = clean cwd in
      contained root (placed_in root left)
      && (contained root (placed_in root right)
          && same (placed_in root left) (placed_in root right))

  -- protoPresent.
  unfoldable pub proto_present : Text → Text → Bool
  unfolding find_proto_preview
  proto_present cwd path = not (is_empty (find_proto_preview d cwd path))

  abbrev pub boxes_of : Text → Boxes
  boxes_of md = record {
    ticked = (classify_checkboxes md).ticked;
    total = (classify_checkboxes md).total;
  }

  -- The answers that the disk gives in the place of those of `h`.
  unfoldable pub on_disk : Text → Answers → Answers
  on_disk wd h = record h {
    resolve_target = resolve_target wd;
    read = d.read;
    is_locked = is_locked;
    boxes = boxes_of;
    proto_present = proto_present;
    same_contained_path = same_contained_path;
    artifact_exists = artifact_exists;
  }
