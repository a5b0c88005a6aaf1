-- ===== src/Planning/Items.antt =====
-- backend/usecase/workitems.go: the work queue of a repository. The functions of json.Unmarshal that
-- ParseManifest calls are parameters.
use saki_cli.Base.{
  ℕ, ◌+◌, ◌^◌, Bool, true, false, not, ◌&&◌, ◌||◌, Option, none, some, List, [], ◌∷◌, ◌++◌, leb,
  ◌==◌, if◌then◌else◌, Text, codes, to_lower, decimal, length, any, ℤ, pos, negsuc, has_suffix,
}
use saki_cli.Regexp.{find, is_match, Re, one, alt, star, text_start, text_end, word_bound}
use saki_cli.Regexp.Syntax.{lit_fold, char, dot, is_digit, at_most, ◌⋅◌}
use saki_cli.Paths.{is_abs, join, dir}
use saki_cli.WorkItems.{
  spelled, compute_resume_target, active_step_for, Slice, Manifest, Verifiers, ResumeTarget,
}
use saki_cli.Planning.Disk.{Disk}
use saki_cli.Planning.Boxes.{
  completed_slice_nums, blocked_slice_nums, deferred_slice_nums, classify_checkboxes,
  prd_build_status, WorkStatus, in_progress,
}
use saki_cli.Planning.Artifacts.{
  classify, label_for, build_artifact_candidates, locale_less, Kind, kind_prd, kind_plan,
  ArtifactKind, progress_file, state_file,
}

-- json.Unmarshal into a map of raw messages, into slices, and into a BuildManifest with errors
-- ignored, of which the commit policy is read.
pub record Decoders : Type 0 where
  pub raw : Text → Option (Text → Option Text)
  pub slices : Text → Option (List Slice)
  pub commit_policy : Text → Text

module _ (j : Decoders) where
  abbrev pub with_slices : Text → Option (List Slice) → Option Manifest
  with_slices s none = none
  with_slices s (some ss) = some (record { commit_policy = j.commit_policy s; slices = ss })

  abbrev pub with_raw_slices : Text → Option Text → Option Manifest
  with_raw_slices s none = none
  with_raw_slices s (some r) = with_slices s (j.slices r)

  abbrev pub with_raw : Text → Option (Text → Option Text) → Option Manifest
  with_raw s none = none
  with_raw s (some m) = with_raw_slices s (m (codes "slices"))

  -- ParseManifest.
  unfoldable pub parse_manifest : Text → Option Manifest
  parse_manifest s = with_raw s (j.raw s)

-- WorkItem.
pub record WorkItem : Type 0 where
  pub name : Text
  pub path : Text
  pub status : WorkStatus
  pub ticked : ℕ
  pub total : ℕ
  pub completed : List ℤ
  pub blocked : List ℤ
  pub deferred : List ℤ
  pub resumable : Bool
  pub resume_target : Option ResumeTarget
  pub active_step : Option ResumeTarget

-- sortByName: the next item is swapped down while its name is less than that of the one before; the
-- items before it stand last first.
unfoldable pub insert_item : WorkItem → List WorkItem → List WorkItem
insert_item w [] = w ∷ []
insert_item w (x ∷ xs) = if locale_less w.name x.name then x ∷ insert_item w xs else w ∷ x ∷ xs

unfoldable pub insert_items : List WorkItem → List WorkItem → List WorkItem
unfolding insert_item
insert_items before [] = before
insert_items before (w ∷ ws) = insert_items (insert_item w before) ws

unfoldable pub turned_items : List WorkItem → List WorkItem → List WorkItem
turned_items [] acc = acc
turned_items (w ∷ ws) acc = turned_items ws (w ∷ acc)

unfoldable pub sort_by_name : List WorkItem → List WorkItem
unfolding insert_items turned_items
sort_by_name ws = turned_items (insert_items [] ws) []

-- `[0-9a-f]{4,40}` in either case: shaRe.
abbrev pub hex : ℕ → Bool
hex c = is_digit c || leb b'a' c && leb c b'f' || leb b'A' c && leb c b'F'

abbrev pub sha_re : Re
sha_re = text_start ⋅ one hex ⋅ one hex ⋅ one hex ⋅ one hex ⋅ at_most 36 (one hex) ⋅ text_end

-- itoa, which does not turn the least int round.
abbrev pub itoa : ℤ → Text
itoa (pos n) = decimal n
itoa (negsuc n) = if n + 1 == 2 ^ 63 then codes "-" else codes "-" ++ decimal (n + 1)

module _ (d : Disk) (j : Decoders) (commit_exists : Text → Text → Bool) (cwd : Text) where
  abbrev pub or_next : Option Text → Option Text → Option Text
  or_next (some t) next = some t
  or_next none next = next

  -- The loop of readArtifact.
  unfoldable pub first_readable : List Text → Option Text
  first_readable [] = none
  first_readable (p ∷ ps) =
      let rest = first_readable ps in if d.exists p then or_next (d.read p) rest else rest

  -- readArtifact.
  unfoldable pub read_artifact : Text → ArtifactKind → Option Text
  unfolding first_readable build_artifact_candidates
  read_artifact full kind = first_readable (build_artifact_candidates cwd full kind)

  -- realVerifiers.
  unfoldable pub real_verifiers : Verifiers
  unfolding find join is_abs
  real_verifiers = record {
    file_exists = λ p. d.exists (if not (is_abs p) then join (cwd ∷ p ∷ []) else p);
    commit_exists = λ sha. if not (is_match sha_re sha) then false else commit_exists cwd sha;
  }

  abbrev pub manifest_in : Option Text → Option Manifest
  manifest_in none = none
  manifest_in (some raw) = parse_manifest j raw

  -- manifestResumeTarget.
  unfoldable pub manifest_resume_target : Text → Option ResumeTarget
  unfolding read_artifact parse_manifest real_verifiers compute_resume_target
  manifest_resume_target full =
      compute_resume_target real_verifiers (manifest_in (read_artifact full state_file))

  -- The expression of planArtifactExists for a slice.
  abbrev pub slice_part : ℤ → Re
  slice_part n = lit_fold (codes "slice") ⋅ star (char b'0') ⋅ lit_fold (itoa n) ⋅ word_bound

  abbrev pub plan_file_re : ℤ → Re
  plan_file_re n =
      alt (slice_part n ⋅ star dot ⋅ lit_fold (codes "plan"))
        (lit_fold (codes "plan") ⋅ star dot ⋅ slice_part n)

  unfoldable pub is_plan_file : ℤ → Text → Bool
  unfolding has_suffix to_lower find
  is_plan_file n f = has_suffix (codes ".md") (to_lower f) && is_match (plan_file_re n) f

  -- planArtifactExists.
  unfoldable pub plan_artifact_exists : Text → ℤ → Bool
  unfolding dir join is_plan_file
  plan_artifact_exists prd n =
      d.exists (join (dir prd ∷ (codes "plan-slice" ++ itoa n ++ codes ".md") ∷ []))
      || any (is_plan_file n) (d.list_dir (dir prd))
      || any (is_plan_file n) (d.list_dir (join (cwd ∷ codes "tasks" ∷ [])))

  -- activeStepFromDisk.
  unfoldable pub active_step_from_disk : Text → List ℤ → Option ResumeTarget
  unfolding read_artifact parse_manifest real_verifiers active_step_for plan_artifact_exists
  active_step_from_disk full completed =
      active_step_for real_verifiers (plan_artifact_exists full)
        (manifest_in (read_artifact full state_file)) completed

  -- The active step of an item whose status is in-progress.
  abbrev pub step_while : WorkStatus → Text → List ℤ → Option ResumeTarget
  step_while in_progress full completed = active_step_from_disk full completed
  step_while other full completed = none

  -- An item by a document, with its resume target and its active step.
  unfoldable pub item_by :
      Text → Text → WorkStatus → Bool → Option ResumeTarget → Option ResumeTarget → WorkItem
  unfolding label_for classify_checkboxes completed_slice_nums blocked_slice_nums
      deferred_slice_nums
  item_by full md status resumable target step = record {
    name = label_for full;
    path = full;
    status = status;
    ticked = (classify_checkboxes md).ticked;
    total = (classify_checkboxes md).total;
    completed = completed_slice_nums md;
    blocked = blocked_slice_nums md;
    deferred = deferred_slice_nums md;
    resumable = resumable;
    resume_target = target;
    active_step = step;
  }

  -- `md, _ := Read(full)`.
  abbrev pub or_empty : Option Text → Text
  or_empty none = []
  or_empty (some t) = t

  -- The last return of buildItem.
  unfoldable pub plain_item : Text → WorkItem
  unfolding item_by classify_checkboxes
  plain_item full =
      let md = or_empty (d.read full) in
      item_by full md (classify_checkboxes md).status false none none

  abbrev pub prd_by_manifest : Text → Option ResumeTarget → WorkItem
  prd_by_manifest full none = plain_item full
  prd_by_manifest full (some target) =
      let md = or_empty (d.read full) in
      let status = (classify_checkboxes md).status in
      item_by full md status true (some target) (step_while status full (completed_slice_nums md))

  abbrev pub prd_item : Text → Option ResumeTarget → Option Text → WorkItem
  prd_item full target none = prd_by_manifest full target
  prd_item full target (some progress) =
      let status = prd_build_status (some progress) in
      item_by full progress status true target
        (step_while status full (completed_slice_nums progress))

  -- buildItem.
  unfoldable pub build_item : Text → Kind → WorkItem
  unfolding plain_item item_by manifest_resume_target read_artifact prd_build_status
      completed_slice_nums classify_checkboxes active_step_from_disk
  build_item full kind_prd =
      prd_item full (manifest_resume_target full) (read_artifact full progress_file)
  build_item full kind = plain_item full

  -- The loop of FindWorkItems for one of the two kinds.
  abbrev pub is_kind : Kind → Kind → Bool
  is_kind kind_prd kind_prd = true
  is_kind kind_plan kind_plan = true
  is_kind a b = false

  unfoldable pub items_of_kind : Kind → List Text → List WorkItem
  unfolding classify build_item
  items_of_kind k [] = []
  items_of_kind k (full ∷ fs) =
      let rest = items_of_kind k fs in
      if is_kind k (classify cwd full) then build_item full k ∷ rest else rest

  -- FindWorkItems.
  unfoldable pub find_work_items : List WorkItem × List WorkItem
  unfolding items_of_kind sort_by_name
  find_work_items = (
    sort_by_name (items_of_kind kind_prd (d.walk cwd)),
    sort_by_name (items_of_kind kind_plan (d.walk cwd)),
  )

  abbrev pub target_text : Option ResumeTarget → Text
  target_text none = codes "none"
  target_text (some rt) = itoa rt.slice ++ codes "." ++ spelled rt.step

  abbrev pub fingerprint_of : Text → Option Text → Option Text
  fingerprint_of prd none = none
  fingerprint_of prd (some progress) = some (
      decimal (length (completed_slice_nums progress))
      ++ codes ":"
      ++ target_text (manifest_resume_target prd))

  -- ProgressFingerprint.
  unfoldable pub progress_fingerprint : Text → Option Text
  unfolding read_artifact completed_slice_nums decimal manifest_resume_target
  progress_fingerprint prd = fingerprint_of prd (read_artifact prd progress_file)
