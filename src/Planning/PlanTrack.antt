-- ===== src/Planning/PlanTrack.antt =====
-- backend/domain/plantrack.go: the edits of tasks/roadmap.md.
use saki_cli.Base.{
  ℕ, Bool, true, false, not, ◌&&◌, Option, none, some, List, [], ◌∷◌, ◌++◌, ◌==◌, if◌then◌else◌,
  is_some, Text, codes, same, is_empty, trim,
}
use saki_cli.Regexp.{
  find, group_of, find_all, Found, Re, star, group, line_start, text_start, text_end,
}
use saki_cli.Regexp.Syntax.{lit, one_in, dot, space, not_space, digit, plus, lazy_plus, ◌⋅◌}
use saki_cli.Workflow.{Track, prd_track, plan_track}
use saki_cli.Planning.{atoi_clamped, boundary, first_group, contains_str}
use saki_cli.Planning.Roadmap.{
  type_by_prefix, track_of_type, item_header_re, status_re, child_plan_re,
}

abbrev pub plan_id_re : Re
plan_id_re = text_start ⋅ group 1 (one_in (codes "EFIB")) ⋅ group 2 (plus digit) ⋅ text_end

abbrev pub status_write_re : Re
status_write_re =
    lit (codes "**Status:**") ⋅ star space ⋅ group 1 (lazy_plus dot) ⋅ group 2 boundary

abbrev pub child_plan_write_re : Re
child_plan_write_re =
    line_start
    ⋅ lit (codes "**Child plan:**")
    ⋅ star space
    ⋅ group 1 (lazy_plus dot)
    ⋅ group 2 boundary

abbrev pub updated_write_re : Re
updated_write_re = group 1 (lit (codes "**Updated:**") ⋅ star space) ⋅ group 2 (plus not_space)

-- MatchItemID.
unfoldable pub match_item_id : Text → Bool
unfolding find
match_item_id id = is_some (find plan_id_re id)

abbrev pub is_plan_track : Option Track → Bool
is_plan_track none = false
is_plan_track (some prd_track) = false
is_plan_track (some plan_track) = true

abbrev pub target_found : Option Found → Option (Text × ℕ)
target_found none = none
target_found (some m) =
    if is_plan_track (track_of_type (type_by_prefix (group_of 1 m)))
    then some (group_of 1 m, atoi_clamped (group_of 2 m))
    else none

-- planTrackTarget.
unfoldable pub plan_track_target : Text → Option (Text × ℕ)
unfolding find atoi_clamped
plan_track_target id = target_found (find plan_id_re id)

-- A block with the text before it and behind it.
pub record Span : Type 0 where
  pub head : Text
  pub block : Text
  pub tail : Text

abbrev pub behind_text : Text → Option Span → Option Span
behind_text t none = none
behind_text t (some s) = some (record s { head = t ++ s.head })

-- The block from a header on: to the start of the next header or the end.
abbrev pub span_at : Found → List Found → Span
span_at f [] = record { head = f.before; block = f.matched ++ f.after; tail = [] }
span_at f (g ∷ gs) = record {
  head = f.before;
  block = f.matched ++ g.before;
  tail = g.matched ++ g.after;
}

abbrev pub is_header_of : Text → ℕ → Found → Bool
is_header_of prefix n f = same (group_of 1 f) prefix && atoi_clamped (group_of 2 f) == n

-- The loop over the headers.
unfoldable pub span_among : Text → ℕ → List Found → Option Span
unfolding same atoi_clamped
span_among prefix n [] = none
span_among prefix n (f ∷ fs) =
    let rest = behind_text (f.before ++ f.matched) (span_among prefix n fs) in
    if is_header_of prefix n f then some (span_at f fs) else rest

-- findItemBlockSpan.
unfoldable pub find_item_block_span : Text → Text → ℕ → Option Span
unfolding span_among find_all
find_item_block_span content prefix n = span_among prefix n (find_all item_header_re content)

abbrev pub field_replaced : Text → Text → Text → Option Found → Text
field_replaced s label v none = s
field_replaced s label v (some f) = f.before ++ ((label ++ (v ++ group_of 2 f)) ++ f.after)

-- replaceFirstField.
unfoldable pub replace_first_field : Re → Text → Text → Text → Text
unfolding find
replace_first_field r s label v = field_replaced s label v (find r s)

abbrev pub updated_replaced : Text → Text → Option Found → Text
updated_replaced s date none = s
updated_replaced s date (some f) = f.before ++ ((group_of 1 f ++ date) ++ f.after)

-- replaceFirstUpdated.
unfoldable pub replace_first_updated : Text → Text → Text
unfolding find
replace_first_updated s date = updated_replaced s date (find updated_write_re s)

-- A content with a block in the place of another; and whether something was changed.
abbrev pub Edit : Type 0
Edit = Text × Bool

abbrev pub spliced : Span → Text → Edit
spliced sp block = (sp.head ++ (block ++ sp.tail), true)

-- The block with the new status, and the new date where there is one.
unfoldable pub restated : Text → Text → Text → Text
unfolding replace_first_field replace_first_updated
restated block to date =
    let next = replace_first_field status_write_re block (codes "**Status:** ") to in
    if is_empty date then next else replace_first_updated next date

abbrev pub status_gated : Text → List Text → Text → Text → Span → Option Text → Edit
status_gated content from to date sp none = (content, false)
status_gated content from to date sp (some current) =
    if not (contains_str from current)
    then (content, false)
    else spliced sp (restated sp.block to date)

abbrev pub transition_in : Text → List Text → Text → Text → Option Span → Edit
transition_in content from to date none = (content, false)
transition_in content from to date (some sp) =
    status_gated content from to date sp (first_group status_re sp.block)

abbrev pub transition_of : Text → List Text → Text → Text → Option (Text × ℕ) → Edit
transition_of content from to date none = (content, false)
transition_of content from to date (some (prefix, n)) =
    transition_in content from to date (find_item_block_span content prefix n)

-- transitionPlanTrackStatus.
unfoldable pub transition_plan_track_status : Text → Text → List Text → Text → Text → Edit
unfolding plan_track_target find_item_block_span first_group restated same
transition_plan_track_status content id from to date =
    transition_of content from to date (plan_track_target id)

-- StartPlanTrack.
unfoldable pub start_plan_track : Text → Text → Text → Edit
unfolding transition_plan_track_status
start_plan_track content id date =
    transition_plan_track_status content id (codes "Planned" ∷ []) (codes "In-progress") date

-- ShipPlanTrack.
unfoldable pub ship_plan_track : Text → Text → Text → Edit
unfolding transition_plan_track_status
ship_plan_track content id date =
    transition_plan_track_status content id (codes "In-progress" ∷ codes "Planned" ∷ [])
      (codes "Shipped") date

abbrev pub child_recorded : Text → Text → Span → Option Text → Edit
child_recorded content file sp none = (content, false)
child_recorded content file sp (some current) =
    if same current file
    then (content, false)
    else spliced sp
        (replace_first_field child_plan_write_re sp.block (codes "**Child plan:** ") file)

abbrev pub record_in : Text → Text → Option Span → Edit
record_in content file none = (content, false)
record_in content file (some sp) =
    child_recorded content file sp (first_group child_plan_re sp.block)

abbrev pub record_of : Text → Text → Option (Text × ℕ) → Edit
record_of content file none = (content, false)
record_of content file (some (prefix, n)) =
    if is_empty file
    then (content, false)
    else record_in content file (find_item_block_span content prefix n)

-- RecordChildPlan.
unfoldable pub record_child_plan : Text → Text → Text → Edit
unfolding plan_track_target find_item_block_span first_group replace_first_field trim same
record_child_plan content id plan_file = record_of content (trim plan_file) (plan_track_target id)
