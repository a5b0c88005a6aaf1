-- ===== src/Workflow/Built.antt =====
-- The evidence of verify in backend/usecase/workflow.go for a PRD.
use saki_cli.Base.{
  ℕ, ◌≡◌, refl, inl, inr, true, false, not, ◌||◌, Option, none, some, List, [], ◌∷◌, arith,
  Bool-cases, Text, is_empty, is_nil, All,
}
use saki_cli.Workflow.{Evidence, Workflow, build_phase, Track, prd_track, plan_track}
use saki_cli.Workflow.Answers.{
  Target, ManifestStep, ManifestSlice, BuildManifest, Answers, Resolved, found, unresolved,
}
use saki_cli.Workflow.Verify.{
  success_phases, has_verdict, done_word, and_commits, check_step, check_steps, check_slice,
  check_slices, check_manifest, locked_at, manifest_checked, manifest_found, verify_prd,
  first_evidence, verify_track, verify_target, verify, verified, Checked, commits, bad,
}

-- A recorded step: done, with its artifact and its commit where it names one.
pub record StepOk (h : Answers) (cwd : Text) (s : ManifestStep) : Type 0 where
  pub step_done : done_word s.status ≡ true
  pub has_artifact : (is_empty s.artifact || h.artifact_exists cwd s.artifact) ≡ true
  pub has_commit : (is_empty s.commit || h.commit_exists cwd s.commit) ≡ true

pub record SliceOk (h : Answers) (cwd : Text) (s : ManifestSlice) : Type 0 where
  pub slice_done : done_word s.status ≡ true
  pub has_steps : is_nil s.steps ≡ false
  pub steps_ok : All (StepOk h cwd) s.steps

-- A locked PRD with a preview, whose manifest has slices, all of them done.
pub record Built (h : Answers) (w : Workflow) (path : Text) : Type 0 where
  pub is_locked : locked_at h path ≡ true
  pub has_preview : h.proto_present w.cwd path ≡ true
  pub state : Text
  pub manifest : BuildManifest
  pub has_manifest : h.manifest w.cwd path ≡ some (state, manifest)
  pub of_path : h.same_contained_path w.cwd manifest.prd path ≡ true
  pub has_slices : is_nil manifest.slices ≡ false
  pub slices_ok : All (SliceOk h w.cwd) manifest.slices
  pub build_verdict : has_verdict build_phase (success_phases w.history) ≡ true

and_commits-inv :
    (x y : Checked) {cs : List Text}
    → and_commits x y ≡ commits cs
    → ((ds : List Text) × (x ≡ commits ds)) × ((ds : List Text) × (y ≡ commits ds))
and_commits-inv (commits ds) (commits es) e = ((ds, refl), (es, refl))
and_commits-inv (commits ds) (bad why) e = cc
and_commits-inv (bad why) y e = cc

-- A check that found commits.
abbrev IsCommits : Checked → Type 0
IsCommits x = (ds : List Text) × (x ≡ commits ds)

module _ (h : Answers) (cwd : Text) where
  check_step-Ok :
      (n : ℕ) (s : ManifestStep) (rest : Checked) {cs : List Text}
      → check_step h cwd n s rest ≡ commits cs
      → StepOk h cwd s × IsCommits rest
  unfolding check_step
  check_step-Ok n s (commits ds) e = (
    record { step_done = ground arith; has_artifact = ground arith; has_commit = ground arith },
    (ds, refl),
  )
  check_step-Ok n s (bad why) e = absurd (ground arith)

  check_steps-Ok :
      (n : ℕ) (ss : List ManifestStep) {cs : List Text}
      → check_steps h cwd n ss ≡ commits cs
      → All (StepOk h cwd) ss
  unfolding check_steps
  check_steps-Ok n [] e = tt
  check_steps-Ok n (s ∷ ss) e =
      let (ok, (ds, d)) = check_step-Ok n s (check_steps h cwd n ss) e in
      (ok, check_steps-Ok n ss d)

  check_slice-Ok :
      (s : ManifestSlice) (rest : Checked) {cs : List Text}
      → check_slice h cwd s rest ≡ commits cs
      → SliceOk h cwd s × IsCommits rest
  unfolding check_slice
  check_slice-Ok s rest {cs} e =
      let over : done_word s.status ≡ true = ground arith in
      let some_steps : is_nil s.steps ≡ false = ground arith in
      let both : and_commits (check_steps h cwd s.n s.steps) rest ≡ commits cs =
        rw (over, some_steps) at e in
      let ((ds, d), last) = and_commits-inv (check_steps h cwd s.n s.steps) rest both in
      (
        record {
          slice_done = over;
          has_steps = some_steps;
          steps_ok = check_steps-Ok s.n s.steps d;
        },
        last,
      )

  check_slices-Ok :
      (ss : List ManifestSlice) {cs : List Text}
      → check_slices h cwd ss ≡ commits cs
      → All (SliceOk h cwd) ss
  unfolding check_slices
  check_slices-Ok [] e = tt
  check_slices-Ok (s ∷ ss) e =
      let (ok, (ds, d)) = check_slice-Ok s (check_slices h cwd ss) e in (ok, check_slices-Ok ss d)

module _ (h : Answers) where
  manifest_checked-verdict :
      (w : Workflow) (path state : Text) (c : Checked) {e : Evidence}
      → manifest_checked h w (first_evidence h w path) state c ≡ verified e
      → IsCommits c × (has_verdict build_phase (success_phases w.history) ≡ true)
  manifest_checked-verdict w path state (bad why) e = cc
  manifest_checked-verdict w path state (commits cs) e = ((cs, refl), ground arith)

  manifest_found-Built :
      (w : Workflow) (path : Text) (o : Option (Text × BuildManifest)) {e : Evidence}
      → h.manifest w.cwd path ≡ o
      → locked_at h path ≡ true
      → h.proto_present w.cwd path ≡ true
      → manifest_found h w path (first_evidence h w path) o ≡ verified e
      → Built h w path
  unfolding check_manifest
  manifest_found-Built w path none at locked shown e = cc
  manifest_found-Built w path (some (state, m)) at locked shown e =
      let ((cs, c), verdict) =
        manifest_checked-verdict w path state (check_manifest h w.cwd path m) e in
      let own : (is_empty m.prd || not (h.same_contained_path w.cwd m.prd path)) ≡ false =
        ground (arith, c) in
      let some_slices : is_nil m.slices ≡ false = ground (arith, c) in
      record {
        is_locked = locked;
        has_preview = shown;
        state = state;
        manifest = m;
        has_manifest = at;
        of_path = ground (arith, own);
        has_slices = some_slices;
        slices_ok = check_slices-Ok h w.cwd m.slices (rw (own, some_slices) at c);
        build_verdict = verdict;
      }

  verify_prd-Built :
      (w : Workflow) (path : Text) {e : Evidence}
      → verify_prd h w path (first_evidence h w path) ≡ verified e
      → Built h w path
  unfolding verify_prd
  verify_prd-Built w path {e} v =
      let locked : locked_at h path ≡ true = ground arith in
      let shown : h.proto_present w.cwd path ≡ true = ground arith in
      manifest_found-Built w path (h.manifest w.cwd path) refl locked shown
        (rw (locked, shown) at v)

  verify_track-Built :
      (k : Track) (w : Workflow) (path : Text) {e : Evidence}
      → k ≡ prd_track
      → verify_track h k w path ≡ verified e
      → Built h w path
  verify_track-Built prd_track w path p v = verify_prd-Built w path v
  verify_track-Built plan_track w path p v = cc

  verify_target-Built :
      (w : Workflow) (r : Resolved) {e : Evidence}
      → w.track ≡ prd_track
      → verify_target h w r ≡ verified e
      → (t : Target) × (r ≡ found t) × Built h w t.path
  verify_target-Built w (unresolved why) p v = cc
  verify_target-Built w (found t) p v = elim (Bool-cases (is_empty t.path)) [
    | inl gone ↦ cc (rw gone at v)
    | inr there ↦ (t, refl, verify_track-Built w.track w t.path p (rw there at v))
  ]

  -- A workflow of the PRD track that verify accepts is built: its target is an artifact, the PRD is
  -- locked and has a preview, and its manifest, which is of that PRD, has slices, all of them done,
  -- with steps that are all done, the artifacts and commits that they name there, and the build
  -- phase closed with success.
  pub verify-Built :
      (w : Workflow) {e : Evidence}
      → w.track ≡ prd_track
      → verify h w ≡ verified e
      → (t : Target) × (h.resolve_target w.cwd w.target ≡ found t) × Built h w t.path
  unfolding verify
  verify-Built w p v = verify_target-Built w (h.resolve_target w.cwd w.target) p v
