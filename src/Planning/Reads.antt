-- ===== src/Planning/Reads.antt =====
-- The read use cases on the documents: backend/usecase/roadmap.go, backend/usecase/prd.go and
-- backend/domain/prd.go.
use saki_cli.Base.{
  not, ◌||◌, Option, none, some, List, [], ◌∷◌, ◌++◌, reverse, if◌then◌else◌, Text, codes, is_empty,
  ltz, ℤ, pos, has_suffix, trim_prefix, trim_suffix,
}
use saki_cli.Regexp.{find, group_of, Found, Re, star, group}
use saki_cli.Regexp.Syntax.{lit, lit_fold, char, space, digit, optional, at_most, ◌⋅◌}
use saki_cli.Paths.{not_separator, take_while}
use saki_cli.Planning.Roadmap.{
  parse_roadmap, resolve_roadmap_path, RoadmapItem, RoadmapPath, path_ok, path_refused,
}
use saki_cli.Planning.Artifacts.{classify, kind_prd}
use saki_cli.Planning.Preview.{find_proto_preview}
use saki_cli.Planning.Disk.{reply, nil_if_empty, Disk, Reply}

pub data RoadmapBody : Type 0 where
  roadmap_error : Text → RoadmapBody
  no_roadmap : RoadmapBody
  roadmap : Option Text → List RoadmapItem → RoadmapBody

-- `(?i)Quality Gate:?\s*([0-9]{1,3})\s*/\s*100`.
abbrev pub score_re : Re
score_re =
    lit_fold (codes "Quality Gate")
    ⋅ optional (char b':')
    ⋅ star space
    ⋅ group 1 (digit ⋅ at_most 2 digit)
    ⋅ star space
    ⋅ char b'/'
    ⋅ star space
    ⋅ lit (codes "100")

abbrev pub score_of : Option Found → Text
score_of none = []
score_of (some m) = group_of 1 m ++ codes "/100"

-- ExtractScore.
unfoldable pub extract_score : Text → Text
unfolding find
extract_score md = score_of (find score_re md)

-- ReviewPathFor.
unfoldable pub review_path_for : Text → Text
unfolding has_suffix trim_suffix
review_path_for p =
    if has_suffix (codes ".md") p then trim_suffix (codes ".md") p ++ codes "-review.md" else p

-- ReviewStatePathFor.
unfoldable pub review_state_path_for : Text → Text → Text
unfolding take_while trim_prefix trim_suffix
review_state_path_for p cwd =
    let name = reverse (take_while not_separator (reverse p)) in
    cwd
    ++ (codes "/tasks/.prd-review-"
        ++ (trim_suffix (codes ".md") (trim_prefix (codes "prd-") name) ++ codes "-state.json"))

pub record Prd : Type 0 where
  pub path : Text
  pub score : Option Text
  pub content : Text
  pub preview : Option Text

pub data PrdBody : Type 0 where
  prd_error : Text → PrdBody
  no_prd : PrdBody
  prd : Prd → PrdBody

pub data ReviewBody : Type 0 where
  review_error : Text → ReviewBody
  no_review : ReviewBody
  review : Text → Text → ReviewBody

module _ (d : Disk) where
  abbrev pub roadmap_read : Option Text → Reply RoadmapBody
  roadmap_read none = reply 200 no_roadmap
  roadmap_read (some content) =
      let (name, items) = parse_roadmap content in reply 200 (roadmap name items)

  abbrev pub roadmap_at : RoadmapPath → Reply RoadmapBody
  roadmap_at (path_refused e) = reply 422 (roadmap_error e)
  roadmap_at (path_ok path) =
      if not (d.exists path) then reply 200 no_roadmap else roadmap_read (d.read path)

  -- ReadRoadmap.
  unfoldable pub read_roadmap : Text → Text → Reply RoadmapBody
  unfolding resolve_roadmap_path parse_roadmap
  read_roadmap wd cwd = roadmap_at (resolve_roadmap_path wd cwd)

  -- prdBody.
  unfoldable pub prd_body : Text → Text → Text → Prd
  unfolding extract_score find_proto_preview
  prd_body cwd path content = record {
    path = path;
    score = nil_if_empty (extract_score content);
    content = content;
    preview = nil_if_empty (find_proto_preview d cwd path);
  }

  -- The loop of latestPrdPath, by the best so far.
  unfoldable pub latest_among : Text → Text → ℤ → List Text → Text
  unfolding classify
  latest_among cwd best at [] = best
  latest_among cwd best at (f ∷ fs) = elim (classify cwd f) [
    | kind_prd ↦
        let taken = latest_among cwd f (d.mtime f) fs in
        let kept = latest_among cwd best at fs in
        if is_empty best || ltz at (d.mtime f) then taken else kept
    | other ↦ latest_among cwd best at fs
  ]

  -- latestPrdPath.
  unfoldable pub latest_prd_path : Text → Text
  unfolding latest_among
  latest_prd_path cwd = latest_among cwd [] (pos 0) (d.walk cwd)

  abbrev pub prd_read : Text → Text → Option Text → Reply PrdBody
  prd_read cwd path none = reply 200 no_prd
  prd_read cwd path (some content) = reply 200 (prd (prd_body cwd path content))

  -- ReadPrd.
  unfoldable pub read_prd : Text → Text → Reply PrdBody
  unfolding has_suffix prd_body latest_prd_path
  read_prd cwd path =
      let best = latest_prd_path cwd in
      if not (is_empty path)
      then (if not (has_suffix (codes ".md") path)
          then reply 422 (prd_error (codes "path must be a .md file"))
          else prd_read cwd path (d.read path))
      else if is_empty cwd
      then reply 422 (prd_error (codes "cwd or path is required"))
      else if is_empty best
      then reply 200 no_prd
      else prd_read cwd best (d.read best)

  abbrev pub review_read : Text → Option Text → Reply ReviewBody
  review_read path none = reply 200 no_review
  review_read path (some content) = reply 200 (review path content)

  -- ReadReview.
  unfoldable pub read_review : Text → Reply ReviewBody
  unfolding has_suffix review_path_for
  read_review path =
      if is_empty path
      then reply 422 (review_error (codes "path is required"))
      else if not (has_suffix (codes ".md") path)
      then reply 422 (review_error (codes "path must be a .md file"))
      else review_read (review_path_for path) (d.read (review_path_for path))

  -- ReadReviewState.
  unfoldable pub read_review_state : Text → Text → Reply ReviewBody
  unfolding has_suffix review_state_path_for
  read_review_state path cwd =
      let at = review_state_path_for path cwd in
      if is_empty path || not (has_suffix (codes ".md") path)
      then reply 422 (review_error (codes "path must be a .md file"))
      else review_read at (d.read at)
