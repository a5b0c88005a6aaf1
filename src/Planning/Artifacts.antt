-- ===== src/Planning/Artifacts.antt =====
-- The classification of files by their names, and the names of a build's artifacts: the last part
-- of backend/domain/workitems.go.
use saki_cli.Base.{
  ℕ, Bool, true, false, not, ◌&&◌, ◌||◌, Option, none, some, List, [], ◌∷◌, ◌++◌, map, reverse, ltb,
  ◌==◌, if◌then◌else◌, Text, codes, same, is_empty, has_prefix, to_lower, is_space, drop_while, any,
  onto_first, has_suffix, trim_prefix,
}
use saki_cli.Regexp.{find, is_match, group_of, Found, Re, group, text_start, text_end}
use saki_cli.Regexp.Syntax.{lit, lit_fold, char, dot, plus, optional, ◌⋅◌}
use saki_cli.Paths.{join, dir, base}

-- Kind.
pub data Kind : Type 0 where
  kind_none kind_prd kind_plan : Kind

abbrev pub build_state_prefix : Text
build_state_prefix = codes ".build-"

-- planTokenRe, prdSlugRe, mdSuffixRe.
abbrev pub plan_token_re : Re
plan_token_re =
    text_start ⋅ optional (char b'r') ⋅ lit (codes "plan") ⋅ optional (char b's') ⋅ text_end

abbrev pub prd_slug_re : Re
prd_slug_re =
    text_start ⋅ lit_fold (codes "prd-") ⋅ group 1 (plus dot) ⋅ lit_fold (codes ".md") ⋅ text_end

abbrev pub md_suffix_re : Re
md_suffix_re = lit_fold (codes ".md") ⋅ text_end

abbrev pub cut_found : Text → Option Found → Text
cut_found s none = s
cut_found s (some f) = f.before ++ f.after

-- mdSuffixRe.ReplaceAllString(s, ""): there is one match at most, at the end.
unfoldable pub without_md : Text → Text
unfolding find
without_md s = cut_found s (find md_suffix_re s)

-- classifyTokenSplit.Split(s, -1): pieces between runs of the separators.
abbrev pub is_token_separator : ℕ → Bool
is_token_separator c = c == b'-' || c == b'_' || c == b'.' || is_space c

-- The Boolean says that the separator before belongs to the same run.
unfoldable pub split_tokens : Bool → Text → List Text
split_tokens run [] = [] ∷ []
split_tokens run (c ∷ s) =
    let inside = split_tokens true s in
    let next = split_tokens false s in
    if is_token_separator c then (if run then inside else [] ∷ inside) else onto_first c next

-- classifyTokens.
abbrev pub is_prd_word : Text → Bool
is_prd_word t = same t (codes "prd") || same t (codes "prds")

abbrev pub is_plan_word : Text → Bool
is_plan_word t = is_match plan_token_re t

unfoldable pub classify_tokens : List Text → Bool × Bool
unfolding same find
classify_tokens ts = (any is_prd_word ts, any is_plan_word ts)

abbrev pub is_slash : ℕ → Bool
is_slash c = c == b'/' || c == b'\\'

-- strings.FieldsFunc at slashes: the pieces that are not empty.
unfoldable pub fields_from : Text → Text → List Text
fields_from cur [] = if is_empty cur then [] else reverse cur ∷ []
fields_from cur (c ∷ s) =
    let cut = fields_from [] s in
    let rest = fields_from (c ∷ cur) s in
    if is_slash c then (if is_empty cur then cut else reverse cur ∷ cut) else rest

abbrev pub but_last : List Text → List Text
but_last [] = []
but_last (p ∷ []) = []
but_last (p ∷ q ∷ ps) = p ∷ but_last (q ∷ ps)

-- dirTokens.
unfoldable pub dir_tokens : Text → Text → List Text
unfolding trim_prefix drop_while fields_from to_lower
dir_tokens cwd full =
    map to_lower (but_last (fields_from [] (drop_while is_slash (trim_prefix cwd full))))

-- Classify.
unfoldable pub classify : Text → Text → Kind
unfolding to_lower base has_suffix has_prefix without_md split_tokens classify_tokens dir_tokens
    same
classify cwd full =
    let name = to_lower (base full) in
    let (is_prd, is_plan) = classify_tokens (split_tokens false (without_md name)) in
    if has_suffix (codes "-review.md") name
    then kind_none
    else if has_suffix (codes "-progress.md") name || has_prefix build_state_prefix name
    then kind_none
    else if has_prefix (codes "prd-planproto-") name
    then kind_none
    else if not is_prd && not is_plan
    then kind_none
    else if is_prd
    then kind_prd
    else if any is_prd_word (dir_tokens cwd full)
    then kind_prd
    else kind_plan

-- `stem == "plan" || stem == "prd"`.
unfoldable pub dir_style_stem : Text → Bool
unfolding to_lower without_md base same
dir_style_stem full =
    let stem = to_lower (without_md (base full)) in
    same stem (codes "prd") || same stem (codes "plan")

-- The name of the parent directory, where it has one.
unfoldable pub parent_name : Text → Text
unfolding base dir same
parent_name full =
    let d = base (dir full) in
    if is_empty d || same d (codes ".") || same d (codes "/") then [] else d

-- LabelFor.
unfoldable pub label_for : Text → Text
unfolding dir_style_stem parent_name base
label_for full =
    if dir_style_stem full
    then (if is_empty (parent_name full) then base full else parent_name full)
    else base full

abbrev pub slug_found : Text → Option Found → Text
slug_found full (some m) = group_of 1 m
slug_found full none = if dir_style_stem full then parent_name full else []

-- PrdSlug.
unfoldable pub prd_slug : Text → Text
unfolding find base dir_style_stem parent_name
prd_slug full = slug_found full (find prd_slug_re (base full))

pub data ArtifactKind : Type 0 where
  progress_file state_file : ArtifactKind

abbrev pub artifact_base : ArtifactKind → Text
artifact_base progress_file = codes "progress.md"
artifact_base state_file = codes "state.json"

-- BuildArtifactCandidates.
unfoldable pub build_artifact_candidates : Text → Text → ArtifactKind → List Text
unfolding dir join prd_slug dir_style_stem
build_artifact_candidates cwd full kind =
    let file = artifact_base kind in
    let slug = prd_slug full in
    let own = build_state_prefix ++ slug ++ codes "-" ++ file in
    (if dir_style_stem full then join (dir full ∷ (build_state_prefix ++ file) ∷ []) ∷ [] else [])
    ++ (if is_empty slug
        then []
        else join (dir full ∷ own ∷ []) ∷ join (cwd ∷ codes "tasks" ∷ own ∷ []) ∷ [])

-- `a < b` on strings.
unfoldable pub less : Text → Text → Bool
less [] [] = false
less [] (d ∷ t) = true
less (c ∷ s) [] = false
less (c ∷ s) (d ∷ t) = if ltb c d then true else if c == d then less s t else false

-- LocaleLess.
unfoldable pub locale_less : Text → Text → Bool
unfolding to_lower same less
locale_less a b =
    let la = to_lower a in let lb = to_lower b in if not (same la lb) then less la lb else less a b
