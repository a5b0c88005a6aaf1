-- ===== src/Engine/Endings.antt =====
-- The live builds of a lane under the endings of a build in backend/usecase/buildengine.go.
use saki_cli.Base.{
  ◌≤◌, ◌≡◌, refl, ap, Bool, true, false, Option, none, some, List, arith, Text, lookup, ℤ,
}
use saki_cli.Run.{Run, build, RedriveCause}
use saki_cli.Stream.Ndjson.{ParsedLine}
use saki_cli.Store.{Runs, finalize}
use saki_cli.Store.Lanes.{live, live-finalize}
use saki_cli.World.{read_all, take_id, modify, rejournal, breadcrumb, World, Host}
use saki_cli.World.Laws.{breadcrumb-runs}
use saki_cli.Outcome.{Outcome, terminal, retryable, park, awaiting}
use saki_cli.Outcome.Limit.{detect_limit, LimitSignal, auth_error, usage_limit}
use saki_cli.Engine.Breadcrumb.{turns_exhausted, wall_exhausted, pushing_text}
use saki_cli.Engine.Resume.{
  progress, plan_limit, plan_streak, plan_limited, plan_retry, plan_outcome, plan_resume,
  pending_of, arm, schedule_resume, ResumeDecision,
}
use saki_cli.Engine.Exit.{
  begin_finalizing, end_finalizing, set_pushed, start_push, push_at, maybe_push_on_complete,
  schedule_planned, finalize_build, finalized_run, finalize_inner, finalize_begun, finalize_with,
}
use saki_cli.Engine.Lanes.{
  live-set_finalizing, live-set_pushed, live-arm, breadcrumb-live, rejournal-live,
}

module _ (h : Host) where
  plan_streak-runs :
      (run : Run) (p : Option Bool) (w : World) → (plan_streak h run p w).0.runs ≡ w.runs
  unfolding plan_streak breadcrumb
  plan_streak-runs run p w = ground arith

  plan_limited-runs :
      (run : Run) (l : Option LimitSignal) (w : World) → (plan_limited h run l w).0.runs ≡ w.runs
  unfolding plan_limited plan_limit
  plan_limited-runs run (some auth_error) w = breadcrumb-runs h _ _ w
  plan_limited-runs run (some (usage_limit r)) w = breadcrumb-runs h _ _ (take_id w)
  plan_limited-runs run none w = ground (
    arith,
    plan_streak-runs run (progress run.start_fingerprint (h.fingerprint run)) w,
    breadcrumb-runs h run.id (wall_exhausted h.cfg.max_wall_ms) w,
  )

  plan_outcome-runs :
      (o : Outcome) (run : Run) (ls : List ParsedLine) (w : World)
      → (plan_outcome h o run ls w).0.runs ≡ w.runs
  unfolding plan_outcome plan_retry
  plan_outcome-runs retryable run ls w = ground (
    arith,
    plan_limited-runs run (detect_limit h.local ls h.now) w,
    breadcrumb-runs h run.id (turns_exhausted run.resume_count) w,
  )
  plan_outcome-runs park run ls w = breadcrumb-runs h _ _ w
  plan_outcome-runs awaiting run ls w = breadcrumb-runs h _ _ w
  plan_outcome-runs terminal run ls w = refl

  -- The decision to resume changes no run.
  pub plan_resume-runs :
      (run : Run) (ls : List ParsedLine) (c : RedriveCause) (w : World)
      → (plan_resume h run ls c w).0.runs ≡ w.runs
  unfolding plan_resume
  plan_resume-runs run ls c w = plan_outcome-runs _ run ls w

module _ (h : Host) (lane : Text) where
  schedule_resume-live :
      (run : Run) (d : ResumeDecision) (w : World)
      → live build lane (schedule_resume h run d w).runs ≤ live build lane w.runs
  unfolding schedule_resume
  schedule_resume-live run d w = ground (
    arith,
    live-arm build lane h run.id (pending_of h d) w.runs,
    rejournal-live h build lane run.id (modify run.id (arm h (pending_of h d)) w),
  )

  start_push-live :
      (id cwd : Text) (w : World)
      → live build lane (start_push h id cwd w).runs ≤ live build lane w.runs
  start_push-live id cwd w =
      let w1 = modify id (set_pushed h.now) w in
      ground (
        arith,
        live-set_pushed build lane id h.now w.runs,
        rejournal-live h build lane id w1,
        breadcrumb-live h build lane id pushing_text (rejournal h id w1),
      )

  push_at-live :
      (id : Text) (cwd : Option Text) (w : World)
      → live build lane (push_at h id cwd w).runs ≤ live build lane w.runs
  push_at-live id none w = omega arith
  push_at-live id (some cwd) w = start_push-live id cwd w

  maybe_push-live :
      (run : Run) (ls : List ParsedLine) (w : World)
      → live build lane (maybe_push_on_complete h run ls w).runs ≤ live build lane w.runs
  unfolding maybe_push_on_complete
  maybe_push-live run ls w = ground (arith, push_at-live run.id run.cwd w)

  schedule_planned-live :
      (run : Run) (wd : World × Option ResumeDecision)
      → live build lane (schedule_planned h run wd).runs ≤ live build lane wd.0.runs
  schedule_planned-live run (w, none) = omega arith
  schedule_planned-live run (w, some d) = schedule_resume-live run d w

  finalize_build-live :
      (run : Run) (c : RedriveCause) (w : World)
      → live build lane (finalize_build h run c w).runs ≤ live build lane w.runs
  unfolding finalize_build
  finalize_build-live run c w =
      let ls = read_all run.id w in
      let w1 = maybe_push_on_complete h run ls w in
      omega (
        arith,
        schedule_planned-live run (plan_resume h run ls c w1),
        ap (live build lane) (plan_resume-runs h run ls c w1),
        maybe_push-live run ls w,
      )

  finalized_run-live :
      (id : Text) (c : Run → RedriveCause) (o : Option Run) (w : World)
      → live build lane (finalized_run h id c o w).runs ≤ live build lane w.runs
  finalized_run-live id c none w = omega arith
  finalized_run-live id c (some run) w =
      omega (
        arith,
        finalize_build-live run (c run) (rejournal h id w),
        rejournal-live h build lane id w,
      )

  finalize_inner-live :
      (id : Text) (c : Run → RedriveCause) (mb : Runs × Bool) (w : World)
      → live build lane (finalize_inner h id c mb w).runs ≤ live build lane mb.0
  finalize_inner-live id c (m, false) w = omega arith
  finalize_inner-live id c (m, true) w =
      finalized_run-live id c (lookup id m) (record w { runs = m })

  finalize_begun-live :
      (id : Text) (c : Run → RedriveCause) (code : ℤ) (wb : World × Bool)
      → live build lane (finalize_begun h id c code wb).runs ≤ live build lane wb.0.runs
  unfolding end_finalizing
  finalize_begun-live id c code (w, false) = omega arith
  finalize_begun-live id c code (w, true) =
      let mb = finalize id code w.runs in
      omega (
        arith,
        live-set_finalizing build lane id false (finalize_inner h id c mb w).runs,
        finalize_inner-live id c mb w,
        live-finalize build lane id code w.runs,
      )

  begin_finalizing-live :
      (id : Text) (w : World)
      → live build lane (begin_finalizing id w).0.runs ≤ live build lane w.runs
  unfolding begin_finalizing
  begin_finalizing-live id w = ground (arith, live-set_finalizing build lane id true w.runs)

  pub finalize_with-live :
      (id : Text) (c : Run → RedriveCause) (code : ℤ) (w : World)
      → live build lane (finalize_with h id c code w).runs ≤ live build lane w.runs
  unfolding finalize_with
  finalize_with-live id c code w =
      omega
        (arith, finalize_begun-live id c code (begin_finalizing id w), begin_finalizing-live id w)
