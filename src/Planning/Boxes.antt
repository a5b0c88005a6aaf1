-- ===== src/Planning/Boxes.antt =====
-- The checkbox lines of a progress document: the second part of backend/domain/workitems.go.
use saki_cli.Base.{
  ℕ, Bool, true, false, not, ◌&&◌, Option, none, some, List, [], ◌∷◌, ltb, leb, if◌then◌else◌, Text,
  codes, length, ℤ, pos, negsuc, lines_of, without,
}
use saki_cli.Regexp.{
  find, is_match, group_of, find_all, Found, Re, alt, star, group, line_start, text_start,
}
use saki_cli.Regexp.Syntax.{lit, lit_fold, char, one_in, space, digit, plus, at_most, ◌⋅◌}
use saki_cli.Planning.{atoi}

-- WorkStatus.
pub data WorkStatus : Type 0 where
  not_started in_progress work_done : WorkStatus

-- `^\s*[-*]\s*`.
abbrev pub bullet : Re → Re
bullet start = start ⋅ star space ⋅ one_in (codes "-*") ⋅ star space

abbrev pub box : Text → Re
box marks = char b'[' ⋅ one_in marks ⋅ char b']'

-- checkedRe and anyBoxRe.
abbrev pub checked_re : Re
checked_re = bullet line_start ⋅ box (codes "xX")

abbrev pub any_box_re : Re
any_box_re = bullet line_start ⋅ box (codes " xX")

-- uncheckedLineRe and checkedLineRe.
abbrev pub unchecked_line_re : Re
unchecked_line_re = bullet text_start ⋅ lit (codes "[ ]")

abbrev pub checked_line_re : Re
checked_line_re = bullet text_start ⋅ box (codes "xX")

-- `\s*(\d+)\.`, and `\s*\*{0,2}Slice\s+(\d+)\s*[—\-]`.
abbrev pub numbered : Re
numbered = star space ⋅ group 1 (plus digit) ⋅ char b'.'

abbrev pub named : Re
named =
    star space
    ⋅ at_most 2 (char b'*')
    ⋅ lit (codes "Slice")
    ⋅ plus space
    ⋅ group 1 (plus digit)
    ⋅ star space
    ⋅ one_in (codes "—-")

abbrev pub completed_num_a : Re
completed_num_a = checked_line_re ⋅ numbered

abbrev pub completed_num_b : Re
completed_num_b = checked_line_re ⋅ named

abbrev pub unchecked_num_a : Re
unchecked_num_a = unchecked_line_re ⋅ numbered

abbrev pub unchecked_num_b : Re
unchecked_num_b = unchecked_line_re ⋅ named

abbrev pub build_complete_re : Re
build_complete_re = alt (lit_fold (codes "PRD_BUILD_COMPLETE")) (lit_fold (codes "/build COMPLETE"))

-- The number of the first expression that is found, or else of the second.
abbrev pub number_found : Option Found → Option ℤ → Option ℤ
number_found none other = other
number_found (some m) other = some (atoi (group_of 1 m))

unfoldable pub number_by : Re → Re → Text → Option ℤ
unfolding find atoi
number_by a b line = number_found (find a line) (number_found (find b line) none)

abbrev pub keep_number : Option ℤ → List ℤ → List ℤ
keep_number none ns = ns
keep_number (some n) ns = n ∷ ns

-- The loop of CompletedSliceNums.
unfoldable pub completed_among : List Text → List ℤ
unfolding find number_by
completed_among [] = []
completed_among (l ∷ ls) =
    let rest = completed_among ls in
    if not (is_match checked_line_re l)
    then rest
    else keep_number (number_by completed_num_a completed_num_b l) rest

-- CompletedSliceNums.
unfoldable pub completed_slice_nums : Text → List ℤ
unfolding completed_among
completed_slice_nums md = completed_among (lines_of md)

-- uncheckedSliceNum; -1 is `none`.
unfoldable pub unchecked_slice_num : Text → Option ℤ
unfolding find number_by without
unchecked_slice_num line =
    if not (is_match unchecked_line_re line)
    then none
    else number_by unchecked_num_a unchecked_num_b (without (codes "~~") line)

-- A number that wrapped below zero counts as none.
abbrev pub keep_natural : Option ℤ → List ℤ → List ℤ
keep_natural none ns = ns
keep_natural (some (pos n)) ns = pos n ∷ ns
keep_natural (some (negsuc n)) ns = ns

-- blockedMarkerRe and laterMarkerRe.
unfoldable pub is_blocked_line : Text → Bool
unfolding find
is_blocked_line l = is_match (lit_fold (codes "BLOCKED")) l

unfoldable pub is_later_line : Text → Bool
unfolding find
is_later_line l = is_match (lit_fold (codes "later")) l

-- The loops of BlockedSliceNums and DeferredSliceNums, by whether a LATER mark is wanted.
unfoldable pub gated_among : Bool → List Text → List ℤ
unfolding unchecked_slice_num is_blocked_line is_later_line
gated_among wanted [] = []
gated_among wanted (l ∷ ls) =
    let rest = gated_among wanted ls in
    if not (is_blocked_line l)
    then rest
    else if (if wanted then not (is_later_line l) else is_later_line l)
    then rest
    else keep_natural (unchecked_slice_num l) rest

-- BlockedSliceNums.
unfoldable pub blocked_slice_nums : Text → List ℤ
unfolding gated_among
blocked_slice_nums md = gated_among false (lines_of md)

-- DeferredSliceNums.
unfoldable pub deferred_slice_nums : Text → List ℤ
unfolding gated_among
deferred_slice_nums md = gated_among true (lines_of md)

-- CheckboxProgress.
pub record CheckboxProgress : Type 0 where
  pub ticked : ℕ
  pub total : ℕ
  pub status : WorkStatus

abbrev pub status_by : ℕ → ℕ → WorkStatus
status_by ticked total =
    if ltb 0 total && leb total ticked
    then work_done
    else if ltb 0 ticked
    then in_progress
    else not_started

-- ClassifyCheckboxes.
unfoldable pub classify_checkboxes : Text → CheckboxProgress
unfolding find_all
classify_checkboxes md =
    let total = length (find_all any_box_re md) in
    let ticked = length (find_all checked_re md) in
    record { ticked = ticked; total = total; status = status_by ticked total }

-- PrdBuildStatus.
unfoldable pub prd_build_status : Option Text → WorkStatus
unfolding find
prd_build_status none = not_started
prd_build_status (some progress) =
    if is_match build_complete_re progress then work_done else in_progress
