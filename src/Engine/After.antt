-- ===== src/Engine/After.antt =====
-- The end of a build and its push in backend/usecase/buildengine.go keep the runs and the
-- idempotency keys.
use saki_cli.Base.{
  ◌≡◌, refl, inl, inr, Bool, true, false, Option, none, some, List, arith, if◌then◌else◌,
  Bool-cases, Text, lookup, ℤ,
}
use saki_cli.Run.{Run, RedriveCause}
use saki_cli.Stream.Ndjson.{ParsedLine}
use saki_cli.Store.{Runs, finalize}
use saki_cli.World.{read_all, take_id, modify, rejournal, breadcrumb, World, Host, timer, pushing}
use saki_cli.World.Laws.{rejournal-runs, breadcrumb-runs}
use saki_cli.Outcome.{Outcome, terminal, retryable, park, awaiting}
use saki_cli.Outcome.Limit.{detect_limit, LimitSignal, auth_error, usage_limit}
use saki_cli.Engine.Breadcrumb.{turns_exhausted, wall_exhausted, pushing_text}
use saki_cli.Engine.Resume.{
  progress, plan_limit, plan_streak, plan_limited, plan_retry, plan_outcome, plan_resume,
  pending_of, arm, may_arm, schedule_resume, ResumeDecision,
}
use saki_cli.Engine.Exit.{
  set_finalizing, can_finalize, begin_finalizing, end_finalizing, set_pushed, not_pushed,
  start_push, push_at, maybe_push_on_complete, schedule_planned, finalize_build, finalized_run,
  finalize_inner, finalize_begun, finalize_with,
}
use saki_cli.Engine.Endings.{plan_resume-runs}
use saki_cli.Engine.Later.{
  finalize-Follows, Kept-refl, Kept-trans, modify-Kept, still-Kept, log-Kept, Kept,
}

module _ (h : Host) where
  rejournal-idem : (id : Text) (w : World) → (rejournal h id w).idem ≡ w.idem
  unfolding rejournal
  rejournal-idem id w = ground arith

  breadcrumb-idem : (id t : Text) (w : World) → (breadcrumb h id t w).idem ≡ w.idem
  unfolding breadcrumb
  breadcrumb-idem id t w = ground arith

  pub rejournal-Kept : (id : Text) (w : World) → Kept w (rejournal h id w)
  rejournal-Kept id w =
      still-Kept w (rejournal h id w) (rejournal-idem id w) (rejournal-runs h id w)

  pub breadcrumb-Kept : (id t : Text) (w : World) → Kept w (breadcrumb h id t w)
  breadcrumb-Kept id t w =
      still-Kept w (breadcrumb h id t w) (breadcrumb-idem id t w) (breadcrumb-runs h id t w)

  plan_streak-idem :
      (run : Run) (p : Option Bool) (w : World) → (plan_streak h run p w).0.idem ≡ w.idem
  unfolding plan_streak breadcrumb
  plan_streak-idem run p w = ground arith

  plan_limited-idem :
      (run : Run) (l : Option LimitSignal) (w : World) → (plan_limited h run l w).0.idem ≡ w.idem
  unfolding plan_limited plan_limit
  plan_limited-idem run (some auth_error) w = breadcrumb-idem _ _ w
  plan_limited-idem run (some (usage_limit r)) w = breadcrumb-idem _ _ (take_id w)
  plan_limited-idem run none w = ground (
    arith,
    plan_streak-idem run (progress run.start_fingerprint (h.fingerprint run)) w,
    breadcrumb-idem run.id (wall_exhausted h.cfg.max_wall_ms) w,
  )

  plan_outcome-idem :
      (o : Outcome) (run : Run) (ls : List ParsedLine) (w : World)
      → (plan_outcome h o run ls w).0.idem ≡ w.idem
  unfolding plan_outcome plan_retry
  plan_outcome-idem retryable run ls w = ground (
    arith,
    plan_limited-idem run (detect_limit h.local ls h.now) w,
    breadcrumb-idem run.id (turns_exhausted run.resume_count) w,
  )
  plan_outcome-idem park run ls w = breadcrumb-idem _ _ w
  plan_outcome-idem awaiting run ls w = breadcrumb-idem _ _ w
  plan_outcome-idem terminal run ls w = refl

  plan_resume-Kept :
      (run : Run) (ls : List ParsedLine) (c : RedriveCause) (w : World)
      → Kept w (plan_resume h run ls c w).0
  unfolding plan_resume
  plan_resume-Kept run ls c w =
      still-Kept w (plan_resume h run ls c w).0 (plan_outcome-idem _ run ls w)
        (plan_resume-runs h run ls c w)

  schedule_resume-Kept :
      (run : Run) (d : ResumeDecision) (w : World) → Kept w (schedule_resume h run d w)
  unfolding schedule_resume
  schedule_resume-Kept run d w =
      let w1 = modify run.id (arm h (pending_of h d)) w in
      let armed : Kept w w1 = modify-Kept run.id (arm h (pending_of h d)) w (λ r. ground arith) in
      elim (Bool-cases (may_arm h (lookup run.id w.runs))) [
        | inl free ↦ rw free (
            Kept-trans armed (
              Kept-trans (rejournal-Kept run.id w1)
                (log-Kept (timer d.delay_ms run.id) (rejournal h run.id w1))))
        | inr marked ↦ rw marked armed
      ]

  start_push-Kept : (id cwd : Text) (w : World) → Kept w (start_push h id cwd w)
  start_push-Kept id cwd w =
      let w1 = modify id (set_pushed h.now) w in
      let w2 = breadcrumb h id pushing_text (rejournal h id w1) in
      elim (Bool-cases (not_pushed (lookup id w.runs))) [
        | inl first ↦ rw first (
            Kept-trans (modify-Kept id (set_pushed h.now) w (λ r. (refl, λ e. e))) (
              Kept-trans (rejournal-Kept id w1) (
                Kept-trans (breadcrumb-Kept id pushing_text (rejournal h id w1))
                  (log-Kept (pushing cwd) w2))))
        | inr pushed_once ↦ rw pushed_once (Kept-refl w)
      ]

  push_at-Kept : (id : Text) (cwd : Option Text) (w : World) → Kept w (push_at h id cwd w)
  push_at-Kept id none w = Kept-refl w
  push_at-Kept id (some cwd) w = start_push-Kept id cwd w

  maybe_push-Kept :
      (run : Run) (ls : List ParsedLine) (w : World) → Kept w (maybe_push_on_complete h run ls w)
  unfolding maybe_push_on_complete
  maybe_push-Kept run ls w = pick _
    where
      pick : (b : Bool) → Kept w (if b then push_at h run.id run.cwd w else w)
      pick true = push_at-Kept run.id run.cwd w
      pick false = Kept-refl w

  schedule_planned-Kept :
      (run : Run) (wd : World × Option ResumeDecision) → Kept wd.0 (schedule_planned h run wd)
  schedule_planned-Kept run (w, none) = Kept-refl w
  schedule_planned-Kept run (w, some d) = schedule_resume-Kept run d w

  finalize_build-Kept :
      (run : Run) (c : RedriveCause) (w : World) → Kept w (finalize_build h run c w)
  unfolding finalize_build
  finalize_build-Kept run c w =
      let ls = read_all run.id w in
      let w1 = maybe_push_on_complete h run ls w in
      Kept-trans (maybe_push-Kept run ls w) (
        Kept-trans (plan_resume-Kept run ls c w1)
          (schedule_planned-Kept run (plan_resume h run ls c w1)))

  pub finalized_run-Kept :
      (id : Text) (c : Run → RedriveCause) (o : Option Run) (w : World)
      → Kept w (finalized_run h id c o w)
  finalized_run-Kept id c none w = Kept-refl w
  finalized_run-Kept id c (some run) w =
      Kept-trans (rejournal-Kept id w) (finalize_build-Kept run (c run) (rejournal h id w))

  pub finalize_inner-Kept :
      (id : Text) (c : Run → RedriveCause) (mb : Runs × Bool) (w : World)
      → Kept (record w { runs = mb.0 }) (finalize_inner h id c mb w)
  finalize_inner-Kept id c (m, false) w = Kept-refl (record w { runs = m })
  finalize_inner-Kept id c (m, true) w =
      finalized_run-Kept id c (lookup id m) (record w { runs = m })

  pub end_finalizing-Kept : (id : Text) (w : World) → Kept w (end_finalizing id w)
  unfolding end_finalizing
  end_finalizing-Kept id w = modify-Kept id (set_finalizing false) w (λ r. (refl, λ e. e))

  pub begin_finalizing-Kept : (id : Text) (w : World) → Kept w (begin_finalizing id w).0
  unfolding begin_finalizing
  begin_finalizing-Kept id w = elim (Bool-cases (can_finalize (lookup id w.runs))) [
    | inl live ↦ rw live (modify-Kept id (set_finalizing true) w (λ r. (refl, λ e. e)))
    | inr dead ↦ rw dead (Kept-refl w)
  ]

  finalize_begun-Kept :
      (id : Text) (c : Run → RedriveCause) (code : ℤ) (wb : World × Bool)
      → Kept wb.0 (finalize_begun h id c code wb)
  finalize_begun-Kept id c code (w, false) = Kept-refl w
  finalize_begun-Kept id c code (w, true) =
      let mb = finalize id code w.runs in
      let ended : Kept w (record w { runs = mb.0 }) = record {
        keys = refl;
        runs_go_on = finalize-Follows id code w;
      } in
      Kept-trans ended (
        Kept-trans (finalize_inner-Kept id c mb w)
          (end_finalizing-Kept id (finalize_inner h id c mb w)))

  -- The end of a build.
  pub finalize_with-Kept :
      (id : Text) (c : Run → RedriveCause) (code : ℤ) (w : World)
      → Kept w (finalize_with h id c code w)
  unfolding finalize_with
  finalize_with-Kept id c code w =
      Kept-trans (begin_finalizing-Kept id w)
        (finalize_begun-Kept id c code (begin_finalizing id w))
