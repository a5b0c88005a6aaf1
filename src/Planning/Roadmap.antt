-- ===== src/Planning/Roadmap.antt =====
-- backend/domain/roadmap.go: tasks/roadmap.md read into items.
use saki_cli.Base.{
  ℕ, not, Option, none, some, List, [], ◌∷◌, ◌++◌, ◌==◌, if◌then◌else◌, Text, codes, same, is_empty,
  trim, decimal,
}
use saki_cli.Regexp.{group_of, find_all, Found, Re, star, group, line_start, line_end}
use saki_cli.Regexp.Syntax.{lit, one_in, dot, space, digit, plus, lazy_plus, ◌⋅◌}
use saki_cli.Paths.{join, abs, contained}
use saki_cli.Workflow.{Track, prd_track, plan_track}
use saki_cli.Planning.{atoi_clamped, boundary, first_group, dash_null, contains_str}

pub data ItemType : Type 0 where
  epic feature improvement bug : ItemType

-- typeByPrefix; another prefix gives the zero value, the empty type.
abbrev pub type_by_prefix : Text → Option ItemType
type_by_prefix (c ∷ []) =
    if c == b'E'
    then some epic
    else if c == b'F'
    then some feature
    else if c == b'I'
    then some improvement
    else if c == b'B'
    then some bug
    else none
type_by_prefix s = none

-- trackByType.
abbrev pub track_by_type : ItemType → Track
track_by_type epic = prd_track
track_by_type feature = prd_track
track_by_type improvement = plan_track
track_by_type bug = plan_track

abbrev pub track_of_type : Option ItemType → Option Track
track_of_type none = none
track_of_type (some t) = some (track_by_type t)

abbrev pub valid_statuses : List Text
valid_statuses = codes "Planned" ∷ codes "In-progress" ∷ codes "Shipped" ∷ codes "Blocked" ∷ []

pub record RoadmapItem : Type 0 where
  pub id : Text
  pub n : ℕ
  pub type : Option ItemType
  pub track : Option Track
  pub title : Text
  pub status : Text
  pub goal : Text
  pub child_prd : Option Text
  pub child_plan : Option Text
  pub phase_chain : Option Text

-- `(.+?)\s*$` in a group.
abbrev to_line_end : ℕ → Re
to_line_end k = group k (lazy_plus dot) ⋅ star space ⋅ line_end

abbrev pub product_re : Re
product_re =
    line_start ⋅ lit (codes "#") ⋅ plus space ⋅ lit (codes "Roadmap:") ⋅ star space ⋅ to_line_end 1

abbrev pub item_header_re : Re
item_header_re =
    line_start
    ⋅ lit (codes "###")
    ⋅ plus space
    ⋅ group 1 (one_in (codes "EFIB"))
    ⋅ group 2 (plus digit)
    ⋅ star space
    ⋅ lit (codes "·")
    ⋅ star space
    ⋅ to_line_end 3

abbrev pub status_re : Re
status_re = lit (codes "**Status:**") ⋅ star space ⋅ group 1 (lazy_plus dot) ⋅ boundary

abbrev pub goal_re : Re
goal_re = line_start ⋅ lit (codes "**Goal:**") ⋅ star space ⋅ to_line_end 1

abbrev pub what_re : Re
what_re = line_start ⋅ lit (codes "**What:**") ⋅ star space ⋅ to_line_end 1

abbrev pub child_prd_re : Re
child_prd_re =
    line_start ⋅ lit (codes "**Child PRD:**") ⋅ star space ⋅ group 1 (lazy_plus dot) ⋅ boundary

abbrev pub child_plan_re : Re
child_plan_re =
    line_start ⋅ lit (codes "**Child plan:**") ⋅ star space ⋅ group 1 (lazy_plus dot) ⋅ boundary

abbrev pub phase_chain_re : Re
phase_chain_re = line_start ⋅ lit (codes "**Phase chain:**") ⋅ star space ⋅ to_line_end 1

abbrev pub or_else_text : Option Text → Text → Text
or_else_text none t = t
or_else_text (some s) t = s

abbrev item_with_status : Text → ℕ → Text → Text → Option Text → Option RoadmapItem
item_with_status prefix n title body none = none
item_with_status prefix n title body (some status) =
    if not (contains_str valid_statuses status)
    then none
    else some (record {
      id = prefix ++ decimal n;
      n = n;
      type = type_by_prefix prefix;
      track = track_of_type (type_by_prefix prefix);
      title = trim title;
      status = status;
      goal = or_else_text (first_group goal_re body) (or_else_text (first_group what_re body) []);
      child_prd = dash_null child_prd_re body;
      child_plan = dash_null child_plan_re body;
      phase_chain = dash_null phase_chain_re body;
    })

-- parseEpicBody.
unfoldable pub parse_epic_body : Text → ℕ → Text → Text → Option RoadmapItem
unfolding first_group dash_null trim decimal same
parse_epic_body prefix n title body =
    item_with_status prefix n title body (first_group status_re body)

abbrev pub keep_item : Option RoadmapItem → List RoadmapItem → List RoadmapItem
keep_item none items = items
keep_item (some item) items = item ∷ items

-- The body of a block runs from the end of its header to the end of the next header.
abbrev pub body_of : Found → List Found → Text
body_of f [] = f.after
body_of f (g ∷ gs) = g.before ++ g.matched

-- The loop over the headers.
unfoldable pub items_of : List Found → List RoadmapItem
unfolding parse_epic_body atoi_clamped
items_of [] = []
items_of (f ∷ fs) =
    keep_item
      (parse_epic_body (group_of 1 f) (atoi_clamped (group_of 2 f)) (group_of 3 f) (body_of f fs))
      (items_of fs)

-- ParseRoadmap.
unfoldable pub parse_roadmap : Text → Option Text × List RoadmapItem
unfolding first_group find_all items_of
parse_roadmap content = (first_group product_re content, items_of (find_all item_header_re content))

pub data RoadmapPath : Type 0 where
  path_ok : Text → RoadmapPath
  path_refused : Text → RoadmapPath

-- ResolveRoadmapPath, in the working directory of the server.
unfoldable pub resolve_roadmap_path : Text → Text → RoadmapPath
unfolding abs join contained
resolve_roadmap_path wd cwd =
    let root = abs wd cwd in
    let path = join (root ∷ codes "tasks" ∷ codes "roadmap.md" ∷ []) in
    if is_empty cwd
    then path_refused (codes "cwd is required")
    else if not (contained root path)
    then path_refused (codes "path escapes cwd")
    else path_ok path
