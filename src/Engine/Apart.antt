-- ===== src/Engine/Apart.antt =====
-- The end of a build in backend/usecase/buildengine.go changes no other run of the store.
use saki_cli.Base.{
  ◌≡◌, refl, ap, subst, ◌∙◌, inl, inr, Bool, true, false, Option, none, some, List, if◌then◌else◌,
  Bool-cases, Text, same, lookup, lookup-update, ℤ,
}
use saki_cli.Run.{is_running, Run, RedriveCause}
use saki_cli.Stream.Ndjson.{ParsedLine}
use saki_cli.Store.{Runs, finalized, finalize_found, finalize}
use saki_cli.World.{read_all, log, modify, rejournal, breadcrumb, World, Host, timer, pushing}
use saki_cli.World.Laws.{rejournal-runs, breadcrumb-runs}
use saki_cli.Engine.Breadcrumb.{pushing_text}
use saki_cli.Engine.Resume.{plan_resume, pending_of, arm, may_arm, schedule_resume, ResumeDecision}
use saki_cli.Engine.Exit.{
  set_finalizing, can_finalize, begin_finalizing, end_finalizing, set_pushed, not_pushed,
  start_push, push_at, maybe_push_on_complete, schedule_planned, finalize_build, finalized_run,
  finalize_inner, finalize_begun, finalize_with,
}
use saki_cli.Engine.Endings.{plan_resume-runs}
use saki_cli.Engine.After.{begin_finalizing-Kept}
use saki_cli.Engine.Later.{Becomes, Follows, finalize-Follows}

-- Each run is found under its own id.
abbrev pub Named : Runs → Type 0
Named m = (id : Text) (r : Run) → lookup id m ≡ some r → r.id ≡ id

pub Named-Follows : (m m' : Runs) → Follows m m' → Named m → Named m'
Named-Follows m m' f named id r at = go (lookup id m) refl (subst (Becomes (lookup id m)) at (f id))
  where
    go : (o : Option Run) → lookup id m ≡ o → Becomes o (some r) → r.id ≡ id
    go none e b = absurd b
    go (some x) e (same_id, _) = same_id ∙ named id x e

-- Only what stands under `id` differs.
pub record Apart (id : Text) (w w' : World) : Type 0 where
  pub others : (j : Text) → same id j ≡ false → lookup j w'.runs ≡ lookup j w.runs

pub Apart-trans : {id : Text} {u v w : World} → Apart id u v → Apart id v w → Apart id u w
Apart-trans a b = record { others = λ j other. b.others j other ∙ a.others j other }

pub still-Apart : (id : Text) (w w' : World) → w'.runs ≡ w.runs → Apart id w w'
still-Apart id w w' e = record { others = λ j other. ap (lookup j) e }

pub modify-Apart : (id : Text) (f : Run → Run) (w : World) → Apart id w (modify id f w)
modify-Apart id f w = record { others = λ j other. rw lookup-update (rw other refl) }

module _ (h : Host) where
  rejournal-Apart : (id i : Text) (w : World) → Apart id w (rejournal h i w)
  rejournal-Apart id i w = still-Apart id w (rejournal h i w) (rejournal-runs h i w)

  schedule_resume-Apart :
      (run : Run) (d : ResumeDecision) (w : World) → Apart run.id w (schedule_resume h run d w)
  unfolding schedule_resume
  schedule_resume-Apart run d w = pick (may_arm h (lookup run.id w.runs))
    where
      pick :
          (b : Bool)
          → Apart run.id w (
              if b
              then log
                  (timer d.delay_ms run.id)
                  (rejournal h run.id (modify run.id (arm h (pending_of h d)) w))
              else modify run.id (arm h (pending_of h d)) w)
      pick true =
          let w1 = modify run.id (arm h (pending_of h d)) w in
          Apart-trans (modify-Apart run.id (arm h (pending_of h d)) w) (
            still-Apart run.id w1 (log (timer d.delay_ms run.id) (rejournal h run.id w1))
              (rejournal-runs h run.id w1))
      pick false = modify-Apart run.id (arm h (pending_of h d)) w

  start_push-Apart : (id cwd : Text) (w : World) → Apart id w (start_push h id cwd w)
  start_push-Apart id cwd w = pick (not_pushed (lookup id w.runs))
    where
      pick :
          (b : Bool)
          → Apart id w (
              if b
              then log
                  (pushing cwd)
                  (breadcrumb h id pushing_text (rejournal h id (modify id (set_pushed h.now) w)))
              else w)
      pick true =
          let w1 = modify id (set_pushed h.now) w in
          Apart-trans (modify-Apart id (set_pushed h.now) w) (
            still-Apart id w1 (log (pushing cwd) (breadcrumb h id pushing_text (rejournal h id w1)))
              (breadcrumb-runs h id pushing_text (rejournal h id w1) ∙ rejournal-runs h id w1))
      pick false = still-Apart id w w refl

  push_at-Apart : (id : Text) (cwd : Option Text) (w : World) → Apart id w (push_at h id cwd w)
  push_at-Apart id none w = still-Apart id w w refl
  push_at-Apart id (some cwd) w = start_push-Apart id cwd w

  maybe_push-Apart :
      (run : Run) (ls : List ParsedLine) (w : World)
      → Apart run.id w (maybe_push_on_complete h run ls w)
  unfolding maybe_push_on_complete
  maybe_push-Apart run ls w = pick _
    where
      pick : (b : Bool) → Apart run.id w (if b then push_at h run.id run.cwd w else w)
      pick true = push_at-Apart run.id run.cwd w
      pick false = still-Apart run.id w w refl

  schedule_planned-Apart :
      (run : Run) (wd : World × Option ResumeDecision)
      → Apart run.id wd.0 (schedule_planned h run wd)
  schedule_planned-Apart run (w, none) = still-Apart run.id w w refl
  schedule_planned-Apart run (w, some d) = schedule_resume-Apart run d w

  finalize_build-Apart :
      (run : Run) (c : RedriveCause) (w : World) → Apart run.id w (finalize_build h run c w)
  unfolding finalize_build
  finalize_build-Apart run c w =
      let ls = read_all run.id w in
      let w1 = maybe_push_on_complete h run ls w in
      Apart-trans (maybe_push-Apart run ls w) (
        Apart-trans
          (still-Apart run.id w1 (plan_resume h run ls c w1).0 (plan_resume-runs h run ls c w1))
          (schedule_planned-Apart run (plan_resume h run ls c w1)))

  finalized_run-Apart :
      (id : Text) (c : Run → RedriveCause) (o : Option Run) (w : World)
      → ((r : Run) → o ≡ some r → r.id ≡ id)
      → Apart id w (finalized_run h id c o w)
  finalized_run-Apart id c none w named = still-Apart id w w refl
  finalized_run-Apart id c (some run) w named =
      let w1 = rejournal h id w in
      Apart-trans (rejournal-Apart id id w) (
        subst (λ i. Apart i w1 (finalize_build h run (c run) w1)) (named run refl)
          (finalize_build-Apart run (c run) w1))

  finalize_inner-Apart :
      (id : Text) (c : Run → RedriveCause) (mb : Runs × Bool) (w : World)
      → Named mb.0
      → Apart id (record w { runs = mb.0 }) (finalize_inner h id c mb w)
  finalize_inner-Apart id c (m, false) w named =
      still-Apart id (record w { runs = m }) (record w { runs = m }) refl
  finalize_inner-Apart id c (m, true) w named =
      finalized_run-Apart id c (lookup id m) (record w { runs = m }) (named id)

  finalize-Apart :
      (id : Text) (code : ℤ) (w : World)
      → Apart id w (record w { runs = (finalize id code w.runs).0 })
  unfolding finalize
  finalize-Apart id code w = found (lookup id w.runs)
    where
      found :
          (o : Option Run) → Apart id w (record w { runs = (finalize_found id code o w.runs).0 })
      found none = still-Apart id w w refl
      found (some r) = elim (Bool-cases (is_running r.status)) [
        | inl live ↦ rw live (modify-Apart id (finalized code) w)
        | inr dead ↦ rw dead (still-Apart id w w refl)
      ]

  begin_finalizing-Apart : (id : Text) (w : World) → Apart id w (begin_finalizing id w).0
  unfolding begin_finalizing
  begin_finalizing-Apart id w = elim (Bool-cases (can_finalize (lookup id w.runs))) [
    | inl live ↦ rw live (modify-Apart id (set_finalizing true) w)
    | inr dead ↦ rw dead (still-Apart id w w refl)
  ]

  finalize_begun-Apart :
      (id : Text) (c : Run → RedriveCause) (code : ℤ) (wb : World × Bool)
      → Named wb.0.runs
      → Apart id wb.0 (finalize_begun h id c code wb)
  unfolding end_finalizing
  finalize_begun-Apart id c code (w, false) named = still-Apart id w w refl
  finalize_begun-Apart id c code (w, true) named =
      let mb = finalize id code w.runs in
      let named' = Named-Follows w.runs mb.0 (finalize-Follows id code w) named in
      Apart-trans (finalize-Apart id code w) (
        Apart-trans (finalize_inner-Apart id c mb w named')
          (modify-Apart id (set_finalizing false) (finalize_inner h id c mb w)))

  -- The end of a build leaves every other run as it is.
  pub finalize_with-Apart :
      (id : Text) (c : Run → RedriveCause) (code : ℤ) (w : World)
      → Named w.runs
      → Apart id w (finalize_with h id c code w)
  unfolding finalize_with
  finalize_with-Apart id c code w named =
      let kept = begin_finalizing-Kept h id w in
      Apart-trans (begin_finalizing-Apart id w) (
        finalize_begun-Apart id c code (begin_finalizing id w)
          (Named-Follows w.runs (begin_finalizing id w).0.runs kept.runs_go_on named))
