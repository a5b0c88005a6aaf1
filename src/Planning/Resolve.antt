-- ===== src/Planning/Resolve.antt =====
-- backend/domain/resolveq.go and backend/usecase/resolveblocker.go: decisions written back as
-- resolved bullets.
use saki_cli.Base.{
  Bool, true, false, not, ◌&&◌, ◌||◌, Option, none, some, List, [], ◌∷◌, ◌++◌, map, if◌then◌else◌,
  Text, codes, same, is_empty, contains, is_space, trim, join_at, lines_of, has_suffix,
}
use saki_cli.Regexp.{find, group_of, Found, Re, star, group, text_start, text_end}
use saki_cli.Regexp.Syntax.{one_in, dot, space, plus, ◌⋅◌}
use saki_cli.Planning.Questions.{
  is_resolved, is_heading, is_section, is_open_q_marker, parse_open_questions, OpenQuestion,
}

abbrev pub open_q_marker : Text
open_q_marker = codes "**Open questions:**"

abbrev pub bullet_line_re : Re
bullet_line_re =
    text_start
    ⋅ group 1 (star space ⋅ one_in (codes "-*") ⋅ plus space)
    ⋅ group 2 (star dot)
    ⋅ text_end

-- The loop over the parsed questions.
unfoldable pub target_body : Text → List OpenQuestion → Text
unfolding same
target_body q [] = q
target_body q (o ∷ os) =
    let rest = target_body q os in if not o.resolved && same o.title q then o.text else rest

abbrev pub resolved_mark : Text → Text
resolved_mark decision = codes "✅ RESOLVED — " ++ decision ++ codes " — "

abbrev pub mark_bullet : Text → Text → Text → Option Found → Text
mark_bullet target decision line none = line
mark_bullet target decision line (some m) =
    let body = trim (group_of 2 m) in
    if not (same body target) || is_resolved body
    then line
    else group_of 1 m ++ (resolved_mark decision ++ group_of 2 m)

-- One round of the loop over the lines.
unfoldable pub mark_line : Text → Text → Text → Text
unfolding find trim same is_resolved
mark_line target decision line = mark_bullet target decision line (find bullet_line_re line)

-- ResolveQuestion.
unfoldable pub resolve_question : Text → Text → Text → Text
unfolding trim target_body parse_open_questions mark_line join_at
resolve_question md question decision =
    let target = target_body (trim question) (parse_open_questions md) in
    join_at 10 (map (mark_line target (trim decision)) (lines_of md))

-- wsCollapseRe.ReplaceAllString(s, " "); the Boolean says that the space before is white.
unfoldable pub collapse_from : Bool → Text → Text
collapse_from run [] = []
collapse_from run (c ∷ s) =
    let inside = collapse_from true s in
    let next = collapse_from false s in
    if is_space c then (if run then inside else 32 ∷ inside) else c ∷ next

-- The lines up to the first of the section with its heading, and those behind; `none` where there
-- is no section.
abbrev pub before_section : Text → Option (List Text × List Text) → Option (List Text × List Text)
before_section l none = none
before_section l (some (pre, post)) = some (l ∷ pre, post)

unfoldable pub split_section : List Text → Option (List Text × List Text)
unfolding is_heading is_section
split_section [] = none
split_section (l ∷ ls) =
    let rest = before_section l (split_section ls) in
    if is_heading l && is_section l then some (l ∷ [], ls) else rest

-- The lines of the section behind its heading, and those from the next heading on.
unfoldable pub split_next : List Text → List Text × List Text
unfolding is_heading
split_next [] = ([], [])
split_next (l ∷ ls) =
    let (body, post) = split_next ls in if is_heading l then ([], l ∷ ls) else (l ∷ body, post)

abbrev pub behind_line : Text → Option (List Text) → Option (List Text)
behind_line l none = none
behind_line l (some ls) = some (l ∷ ls)

-- The bullet behind the first marker of the section, where it has one.
unfoldable pub insert_behind_marker : Text → List Text → Option (List Text)
unfolding is_open_q_marker
insert_behind_marker bullet [] = none
insert_behind_marker bullet (l ∷ ls) =
    let rest = behind_line l (insert_behind_marker bullet ls) in
    if is_open_q_marker l then some (l ∷ bullet ∷ ls) else rest

abbrev pub add_line : Text → Bool → List Text × List Text → List Text × List Text
add_line l blank ([], post) = if blank then ([], l ∷ post) else (l ∷ [], post)
add_line l blank (k ∷ ks, post) = (l ∷ k ∷ ks, post)

-- The lines up to the last that is not blank, and the blank ones behind it.
unfoldable pub split_blank : List Text → List Text × List Text
unfolding trim
split_blank [] = ([], [])
split_blank (l ∷ ls) = add_line l (is_empty (trim l)) (split_blank ls)

abbrev pub inserted : Text → List Text → Option (List Text) → List Text
inserted bullet body (some ls) = ls
inserted bullet body none =
    let (kept, blank) = split_blank body in kept ++ ([] ∷ open_q_marker ∷ bullet ∷ blank)

-- insertBulletInSection, on the lines of the section behind its heading.
unfoldable pub insert_bullet : Text → List Text → List Text
unfolding insert_behind_marker split_blank
insert_bullet bullet body = inserted bullet body (insert_behind_marker bullet body)

abbrev pub new_section : Text → Text → Text
new_section md bullet =
    md
    ++ ((if has_suffix (codes "\n") md then [] else codes "\n")
        ++ (codes "\n## Rabbit Holes & Open Questions\n\n"
            ++ (open_q_marker ++ (codes "\n" ++ (bullet ++ codes "\n")))))

abbrev pub appended_in : Text → Text → Option (List Text × List Text) → Text
appended_in md bullet none = new_section md bullet
appended_in md bullet (some (pre, post)) =
    let (body, others) = split_next post in
    join_at 10 (pre ++ (insert_bullet bullet body ++ others))

-- The bullet of a decision.
unfoldable pub resolved_bullet : Text → Text → Text
unfolding trim collapse_from
resolved_bullet question decision = codes "- " ++ (resolved_mark decision ++ question)

-- The rest of AppendResolvedQuestion, for a bullet.
unfoldable pub append_bullet : Text → Text → Text
unfolding contains split_section split_next insert_bullet has_suffix join_at
append_bullet md bullet =
    if contains bullet md then md else appended_in md bullet (split_section (lines_of md))

-- AppendResolvedQuestion.
unfoldable pub append_resolved_question : Text → Text → Text → Text
unfolding trim collapse_from resolved_bullet append_bullet
append_resolved_question md question decision =
    let q = trim (collapse_from false question) in
    let dec = trim decision in
    if is_empty q || is_empty dec then md else append_bullet md (resolved_bullet q dec)
