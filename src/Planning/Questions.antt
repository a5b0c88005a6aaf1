-- ===== src/Planning/Questions.antt =====
-- backend/domain/blockers.go and backend/usecase/blockers.go: the open questions of a PRD and the
-- blocker of a slice.
use saki_cli.Base.{
  ℕ, Bool, true, false, not, ◌&&◌, ◌||◌, Option, none, some, List, [], ◌∷◌, leb, ◌==◌,
  if◌then◌else◌, Text, codes, is_empty, contains, to_lower, trim, length, take, any, ltz, eqz, ℤ,
  pos, negsuc, lines_of, has_suffix, without,
}
use saki_cli.Regexp.{
  find, is_match, group_of, Found, Re, one, alt, star, group, text_start, text_end,
}
use saki_cli.Regexp.Syntax.{
  lit, lit_fold, char, one_in, dot, space, digit, plus, lazy_plus, optional, at_most, ◌⋅◌,
}
use saki_cli.Planning.{atoi}
use saki_cli.Planning.Boxes.{
  unchecked_line_re, unchecked_num_a, unchecked_num_b, number_by, is_blocked_line,
  deferred_slice_nums,
}
use saki_cli.Planning.Artifacts.{build_artifact_candidates, progress_file}
use saki_cli.Planning.Disk.{reply, nil_if_empty, Disk, Reply}

pub record OpenQuestion : Type 0 where
  pub text : Text
  pub title : Text
  pub owner : Option Text
  pub deadline : Option ℤ
  pub resolved : Bool

abbrev pub heading_re : Re
heading_re = text_start ⋅ char b'#' ⋅ at_most 5 (char b'#') ⋅ space

-- `^\s*\*\*\s*` and a word.
abbrev pub marker : Text → Re
marker word = text_start ⋅ star space ⋅ lit (codes "**") ⋅ star space ⋅ lit_fold word

abbrev pub open_q_marker_re : Re
open_q_marker_re = marker (codes "open questions")

abbrev pub rabbit_marker_re : Re
rabbit_marker_re = marker (codes "rabbit holes")

abbrev pub oq_bullet_re : Re
oq_bullet_re =
    text_start ⋅ star space ⋅ one_in (codes "-*") ⋅ plus space ⋅ group 1 (star dot) ⋅ text_end

abbrev pub resolved_re : Re
resolved_re = lit (codes "✅") ⋅ star space ⋅ lit_fold (codes "RESOLVED")

abbrev pub bold_re : Re
bold_re = lit (codes "**") ⋅ group 1 (lazy_plus dot) ⋅ lit (codes "**")

-- `[^—\n]`.
abbrev pub before_dash : Re
before_dash = one (λ c. not (any (◌==◌ c) (codes "—\n")))

abbrev pub oq_owner_re : Re
oq_owner_re =
    lit_fold (codes "Owner")
    ⋅ optional (char b':')
    ⋅ star space
    ⋅ group 1 (lazy_plus before_dash)
    ⋅ star space
    ⋅ alt (lit (codes "—")) text_end

abbrev pub before_slice_re : Re
before_slice_re =
    lit_fold (codes "before")
    ⋅ plus space
    ⋅ lit_fold (codes "slice")
    ⋅ plus space
    ⋅ group 1 (plus digit)

abbrev pub trailing_colon : Re
trailing_colon = char b':' ⋅ text_end

-- ReplaceAllString with nothing, of an expression that ends at the end of the text.
abbrev pub before_found : Text → Option Found → Text
before_found s none = s
before_found s (some f) = f.before

-- truncateRunes.
unfoldable pub truncate_runes : Text → ℕ → Text
truncate_runes s n = if leb (length s) n then s else take n s

abbrev pub bold_or : Text → Option Found → Text
bold_or other none = other
bold_or other (some f) = group_of 1 f

abbrev pub trimmed : Option Found → Option Text
trimmed none = none
trimmed (some f) = some (trim (group_of 1 f))

abbrev pub number : Option Found → Option ℤ
number none = none
number (some f) = some (atoi (group_of 1 f))

-- The resolved mark of a bullet.
unfoldable pub is_resolved : Text → Bool
unfolding find
is_resolved body = is_match resolved_re body

-- parseQuestionBody.
unfoldable pub parse_question_body : Text → OpenQuestion
unfolding find truncate_runes trim atoi is_resolved
parse_question_body body =
    let title = bold_or (truncate_runes body 60) (find bold_re body) in
    record {
      text = body;
      title = trim (before_found title (find trailing_colon title));
      owner = trimmed (find oq_owner_re body);
      deadline = number (find before_slice_re body);
      resolved = is_resolved body;
    }

-- A heading of the section.
unfoldable pub is_heading : Text → Bool
unfolding find
is_heading line = is_match heading_re line

unfoldable pub is_section : Text → Bool
unfolding contains to_lower
is_section line = contains (codes "open question") (to_lower line)

unfoldable pub is_open_q_marker : Text → Bool
unfolding find
is_open_q_marker line = is_match open_q_marker_re line

unfoldable pub is_rabbit_marker : Text → Bool
unfolding find
is_rabbit_marker line = is_match rabbit_marker_re line

abbrev pub keep_question : Text → List OpenQuestion → List OpenQuestion
keep_question body qs = if is_empty body then qs else parse_question_body body ∷ qs

abbrev pub keep_bullet : Option Found → List OpenQuestion → List OpenQuestion
keep_bullet none qs = qs
keep_bullet (some m) qs = keep_question (trim (group_of 1 m)) qs

-- The loop of ParseOpenQuestions, by inSection and inOpenQ.
unfoldable pub questions_among : Bool → Bool → List Text → List OpenQuestion
unfolding is_heading is_section is_open_q_marker is_rabbit_marker find trim parse_question_body
questions_among sec q [] = []
questions_among sec q (l ∷ ls) =
    let at_heading = questions_among (is_section l) false ls in
    let outside = questions_among sec q ls in
    let marked = questions_among sec true ls in
    let unmarked = questions_among sec false ls in
    if is_heading l
    then at_heading
    else if not sec
    then outside
    else if is_open_q_marker l
    then marked
    else if is_rabbit_marker l
    then unmarked
    else if not q
    then outside
    else keep_bullet (find oq_bullet_re l) outside

-- ParseOpenQuestions.
unfoldable pub parse_open_questions : Text → List OpenQuestion
unfolding questions_among
parse_open_questions md = questions_among false false (lines_of md)

-- `DeadlineSlice != nil && *DeadlineSlice <= n`.
abbrev pub is_due : ℤ → Option ℤ → Bool
is_due n none = false
is_due n (some d) = not (ltz n d)

-- The test of QuestionsForSlice.
abbrev pub is_gating : ℤ → OpenQuestion → Bool
is_gating n q = not q.resolved && is_due n q.deadline

-- The gating questions have one.
abbrev pub deadline_or : Option ℤ → ℤ
deadline_or none = pos 0
deadline_or (some d) = d

abbrev pub deadline_of : OpenQuestion → ℤ
deadline_of q = number_of q.deadline
  where
    number_of : Option ℤ → ℤ
    number_of none = pos 0
    number_of (some d) = d

unfoldable pub gating : ℤ → List OpenQuestion → List OpenQuestion
gating n [] = []
gating n (q ∷ qs) = let rest = gating n qs in if is_gating n q then q ∷ rest else rest

-- The insertion of the next question into those before it, which stand last first.
unfoldable pub insert_question : OpenQuestion → List OpenQuestion → List OpenQuestion
insert_question q [] = q ∷ []
insert_question q (p ∷ ps) =
    if ltz (deadline_of q) (deadline_of p) then p ∷ insert_question q ps else q ∷ p ∷ ps

unfoldable pub insert_questions : List OpenQuestion → List OpenQuestion → List OpenQuestion
unfolding insert_question
insert_questions before [] = before
insert_questions before (q ∷ qs) = insert_questions (insert_question q before) qs

unfoldable pub turned_questions : List OpenQuestion → List OpenQuestion → List OpenQuestion
turned_questions [] acc = acc
turned_questions (q ∷ qs) acc = turned_questions qs (q ∷ acc)

-- QuestionsForSlice.
unfoldable pub questions_for_slice : Text → ℤ → List OpenQuestion
unfolding parse_open_questions gating insert_questions turned_questions
questions_for_slice md n =
    turned_questions (insert_questions [] (gating n (parse_open_questions md))) []

abbrev pub blocked_reason_re : Re
blocked_reason_re =
    lit_fold (codes "BLOCKED") ⋅ optional (char b':') ⋅ star space ⋅ group 1 (plus dot) ⋅ text_end

-- The number of the line, -1 where it has none.
abbrev pub line_number : Option ℤ → ℤ
line_number none = negsuc 0
line_number (some n) = n

-- The loop of BlockerReason.
unfoldable pub reason_among : ℤ → List Text → Option Text
unfolding find is_blocked_line number_by without trim
reason_among n [] = none
reason_among n (l ∷ ls) =
    let rest = reason_among n ls in
    let s = without (codes "~~") l in
    if not (is_match unchecked_line_re l) || not (is_blocked_line l)
    then rest
    else if not (eqz (line_number (number_by unchecked_num_a unchecked_num_b s)) n)
    then rest
    else trimmed (find blocked_reason_re (without (codes "**") s))

-- BlockerReason.
unfoldable pub blocker_reason : Text → ℤ → Option Text
unfolding reason_among
blocker_reason md n = reason_among n (lines_of md)

pub record Blockers : Type 0 where
  pub n : ℤ
  pub reason : Option Text
  pub deferred : Bool
  pub questions : List OpenQuestion

pub data BlockersBody : Type 0 where
  blockers_error : Text → BlockersBody
  blockers : Blockers → BlockersBody

-- The value of `reason, _ :=`, as nilIfEmpty shows it.
abbrev pub shown_reason : Option Text → Option Text
shown_reason none = none
shown_reason (some r) = nil_if_empty r

module _ (d : Disk) where
  abbrev pub text_of : Option Text → Text
  text_of none = []
  text_of (some t) = t

  -- The loop of readProgress.
  unfoldable pub progress_among : List Text → Text
  progress_among [] = []
  progress_among (c ∷ cs) =
      let rest = progress_among cs in if d.exists c then text_of (d.read c) else rest

  -- readProgress.
  unfoldable pub read_progress : Text → Text → Text
  unfolding progress_among build_artifact_candidates
  read_progress cwd prd =
      if is_empty cwd then [] else progress_among (build_artifact_candidates cwd prd progress_file)

  abbrev pub blockers_in : Text → ℤ → Option Text → Reply BlockersBody
  blockers_in progress n none = reply 404 (blockers_error (codes "PRD not found"))
  blockers_in progress n (some md) = reply 200 (
      blockers (record {
        n = n;
        reason = shown_reason (blocker_reason progress n);
        deferred = any (eqz n) (deferred_slice_nums progress);
        questions = questions_for_slice md n;
      }))

  abbrev pub blockers_refused : Reply BlockersBody
  blockers_refused = reply 422 (blockers_error (codes "prd (.md) and integer n are required"))

  -- ReadBlockers; the third argument is the result of strconv.Atoi.
  unfoldable pub read_blockers : Text → Text → Option ℤ → Reply BlockersBody
  unfolding has_suffix read_progress blocker_reason deferred_slice_nums questions_for_slice
  read_blockers cwd prd none = blockers_refused
  read_blockers cwd prd (some n) =
      if is_empty prd || not (has_suffix (codes ".md") prd)
      then blockers_refused
      else blockers_in (read_progress cwd prd) n (d.read prd)
