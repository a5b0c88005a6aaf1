-- ===== src/Workflow/Verify.antt =====
-- verify of backend/usecase/workflow.go.
use saki_cli.Base.{
  ℕ, Bool, false, not, ◌&&◌, ◌||◌, Option, none, some, List, [], ◌∷◌, ◌++◌, ◌==◌, if◌then◌else◌,
  Text, codes, same, is_empty, has_prefix, to_lower, trim, decimal, is_nil, any,
}
use saki_cli.Stream.Ndjson.{ParsedLine, json, raw}
use saki_cli.Workflow.{
  same_phase, PhaseRecord, Evidence, Workflow, Phase, build_phase, qa, reviewer, wrap, Track,
  prd_track, plan_track,
}
use saki_cli.Workflow.Answers.{
  ManifestStep, ManifestSlice, BuildManifest, Boxes, Answers, Resolved, found, unresolved,
}
use saki_cli.Workflow.Phases.{is_done}

pub data Verified : Type 0 where
  verified : Evidence → Verified
  refused : Text → Verified

-- The commits that a check of the manifest found, or what it failed on.
pub data Checked : Type 0 where
  commits : List Text → Checked
  bad : Text → Checked

-- The phases with a record that is done.
unfoldable pub success_phases : List PhaseRecord → List Phase
success_phases [] = []
success_phases (r ∷ rs) =
    let rest = success_phases rs in if is_done r.mark then r.phase ∷ rest else rest

-- phaseVerdict.
unfoldable pub has_verdict : Phase → List Phase → Bool
has_verdict p ps = any (same_phase p) ps

-- The newest build record with a child.
unfoldable pub last_build_child : List PhaseRecord → Text
last_build_child [] = []
last_build_child (r ∷ rs) =
    let rest = last_build_child rs in
    if same_phase (r.phase) build_phase && not (is_empty r.child) then r.child else rest

-- The text of the first line that says that the push failed.
unfoldable pub push_failure : List ParsedLine → Option Text
unfolding has_prefix to_lower trim
push_failure [] = none
push_failure (json v ∷ ls) = push_failure ls
push_failure (raw t ∷ ls) =
    let rest = push_failure ls in
    if has_prefix (codes "push failed:") (to_lower (trim t)) then some t else rest

abbrev pub done_word : Text → Bool
done_word s = same (to_lower s) (codes "done")

abbrev pub and_commit : Text → Checked → Checked
and_commit c (commits cs) = commits (c ∷ cs)
and_commit c (bad why) = bad why

abbrev pub and_commits : Checked → Checked → Checked
and_commits (commits cs) (commits ds) = commits (cs ++ ds)
and_commits (commits cs) (bad why) = bad why
and_commits (bad why) other = bad why

abbrev pub slice_text : ℕ → Text → Text
slice_text n s = codes "verification failed: slice " ++ decimal n ++ s

module _ (h : Answers) (cwd : Text) where
  -- One step, and what the steps behind it give.
  unfoldable pub check_step : ℕ → ManifestStep → Checked → Checked
  unfolding to_lower same decimal
  check_step n s rest =
      if not (done_word s.status)
      then bad (slice_text n (codes " has an incomplete step"))
      else if not (is_empty s.artifact) && not (h.artifact_exists cwd s.artifact)
      then bad (codes "verification failed: a recorded artifact is missing")
      else if is_empty s.commit
      then rest
      else if not (h.commit_exists cwd s.commit)
      then bad (codes "verification failed: implementation commit is missing")
      else and_commit s.commit rest

  unfoldable pub check_steps : ℕ → List ManifestStep → Checked
  unfolding check_step
  check_steps n [] = commits []
  check_steps n (s ∷ ss) = check_step n s (check_steps n ss)

  unfoldable pub check_slice : ManifestSlice → Checked → Checked
  unfolding check_steps to_lower same decimal
  check_slice s rest =
      if not (done_word s.status)
      then bad (slice_text s.n (codes " is not done"))
      else if is_nil s.steps
      then bad (slice_text s.n (codes " has no recorded steps"))
      else and_commits (check_steps s.n s.steps) rest

  unfoldable pub check_slices : List ManifestSlice → Checked
  unfolding check_slice
  check_slices [] = commits []
  check_slices (s ∷ ss) = check_slice s (check_slices ss)

  unfoldable pub check_manifest : Text → BuildManifest → Checked
  unfolding check_slices
  check_manifest path m =
      if is_empty m.prd || not (h.same_contained_path cwd m.prd path)
      then bad (codes "verification failed: build manifest targets a different PRD")
      else if is_nil m.slices
      then bad (codes "verification failed: build manifest has no slices")
      else check_slices m.slices

module _ (h : Answers) where
  abbrev pub locked_at : Text → Bool
  locked_at path = elim (h.read path) [ none ↦ false | some content ↦ h.is_locked content ]

  abbrev pub boxes_done : Boxes → Bool
  boxes_done b = not (b.total == 0) && b.ticked == b.total

  abbrev pub no_verdict : Text → Verified
  no_verdict phase =
      refused (codes "verification failed: " ++ phase ++ codes " phase has no successful verdict")

  abbrev pub unless_failed : Evidence → Option Text → Verified
  unless_failed e none = verified e
  unless_failed e (some line) = refused (codes "verification failed: push failed — " ++ line)

  -- The last check: no push of the last build failed.
  unfoldable pub check_push : Workflow → Evidence → Verified
  unfolding last_build_child push_failure
  check_push w e =
      let child = last_build_child w.history in
      if is_empty child then verified e else unless_failed e (push_failure (h.output child))

  abbrev pub manifest_checked : Workflow → Evidence → Text → Checked → Verified
  manifest_checked w e state (bad why) = refused why
  manifest_checked w e state (commits cs) =
      if has_verdict build_phase e.verdicts
      then check_push w
          (record e { checked_paths = e.checked_paths ++ state ∷ []; commit_ids = cs })
      else no_verdict (codes "build")

  abbrev pub manifest_found : Workflow → Text → Evidence → Option (Text × BuildManifest) → Verified
  manifest_found w path e none =
      refused (codes "verification failed: build manifest is missing or malformed")
  manifest_found w path e (some (state, m)) =
      manifest_checked w e state (check_manifest h w.cwd path m)

  unfoldable pub verify_prd : Workflow → Text → Evidence → Verified
  unfolding check_manifest has_verdict check_push
  verify_prd w path e =
      if not (locked_at path)
      then refused (codes "verification failed: PRD is not locked")
      else if not (h.proto_present w.cwd path)
      then refused (codes "verification failed: proto preview artifact is missing")
      else manifest_found w path e (h.manifest w.cwd path)

  abbrev pub plan_read : Workflow → Evidence → Option Text → Verified
  plan_read w e none = refused (codes "verification failed: plan is missing")
  plan_read w e (some content) =
      if not (boxes_done (h.boxes content))
      then refused (codes "verification failed: plan gates are incomplete")
      else if not (has_verdict qa e.verdicts)
      then no_verdict (codes "qa")
      else if not (has_verdict reviewer e.verdicts)
      then no_verdict (codes "reviewer")
      else if not (has_verdict wrap e.verdicts)
      then no_verdict (codes "wrap")
      else check_push w e

  unfoldable pub verify_plan : Workflow → Text → Evidence → Verified
  unfolding has_verdict check_push
  verify_plan w path e = plan_read w e (h.read path)

  abbrev pub first_evidence : Workflow → Text → Evidence
  first_evidence w path = record {
    checked_paths = path ∷ [];
    commit_ids = [];
    verdicts = success_phases w.history;
    verified_at = h.now;
  }

  abbrev pub verify_track : Track → Workflow → Text → Verified
  verify_track prd_track w path = verify_prd w path (first_evidence w path)
  verify_track plan_track w path = verify_plan w path (first_evidence w path)

  abbrev pub missing_target : Verified
  missing_target = refused (codes "verification failed: target artifact is missing or escaped cwd")

  abbrev pub verify_target : Workflow → Resolved → Verified
  verify_target w (unresolved why) = missing_target
  verify_target w (found t) =
      if is_empty t.path then missing_target else verify_track w.track w t.path

  unfoldable pub verify : Workflow → Verified
  unfolding verify_prd verify_plan success_phases
  verify w = verify_target w (h.resolve_target w.cwd w.target)
