-- ===== src/Engine/Boot.antt =====
-- RehydrateBuilds of backend/usecase/buildengine.go, and the processes that the endings of a build
-- spawn.
use saki_cli.Base.{
  ◌≡◌, refl, ap, ◌∙◌, Bool, true, false, Option, none, some, List, [], ◌∷◌, arith, Text, count_if,
  lookup, minus_one, ℤ,
}
use saki_cli.Run.{kind_of, Run, RedriveCause, exit, interrupted}
use saki_cli.Stream.Ndjson.{ParsedLine}
use saki_cli.Store.{Runs, finalize}
use saki_cli.World.{read_all, take_id, modify, rejournal, breadcrumb, World, Host}
use saki_cli.World.Laws.{rejournal-effects, breadcrumb-effects}
use saki_cli.Outcome.{classify_outcome, Outcome, terminal, retryable, park, awaiting}
use saki_cli.Outcome.Limit.{detect_limit, LimitSignal, auth_error, usage_limit}
use saki_cli.Engine.Breadcrumb.{turns_exhausted, wall_exhausted, pushing_text}
use saki_cli.Engine.Spawn.{record_idem}
use saki_cli.Engine.Resume.{
  progress, plan_limit, plan_streak, plan_limited, plan_retry, plan_outcome, plan_resume,
  pending_of, arm, schedule_resume, ResumeDecision,
}
use saki_cli.Engine.Exit.{
  begin_finalizing, end_finalizing, set_pushed, start_push, push_at, maybe_push_on_complete,
  schedule_planned, finalize_build, finalized_run, finalize_inner, finalize_begun, finalize_with,
  finalize_survived,
}
use saki_cli.Engine.Watch.{
  or_minus_one, seed, record_original, rehydrate_build, rehydrate_builds, RehydratedRun,
}
use saki_cli.Engine.Fire.{is_spawn, spawns}

module _ (h : Host) where
  breadcrumb-spawns : (id t : Text) (w : World) → spawns (breadcrumb h id t w) ≡ spawns w
  breadcrumb-spawns id t w = ap (count_if is_spawn) (breadcrumb-effects h id t w)

  rejournal-spawns : (id : Text) (w : World) → spawns (rejournal h id w) ≡ spawns w
  rejournal-spawns id w = ap (count_if is_spawn) (rejournal-effects h id w)

  plan_streak-effects :
      (run : Run) (p : Option Bool) (w : World) → (plan_streak h run p w).0.effects ≡ w.effects
  unfolding plan_streak breadcrumb
  plan_streak-effects run p w = ground arith

  plan_limited-effects :
      (run : Run) (l : Option LimitSignal) (w : World)
      → (plan_limited h run l w).0.effects ≡ w.effects
  unfolding plan_limited plan_limit
  plan_limited-effects run (some auth_error) w = breadcrumb-effects h _ _ w
  plan_limited-effects run (some (usage_limit r)) w = breadcrumb-effects h _ _ (take_id w)
  plan_limited-effects run none w = ground (
    arith,
    plan_streak-effects run (progress run.start_fingerprint (h.fingerprint run)) w,
    breadcrumb-effects h run.id (wall_exhausted h.cfg.max_wall_ms) w,
  )

  plan_outcome-effects :
      (o : Outcome) (run : Run) (ls : List ParsedLine) (w : World)
      → (plan_outcome h o run ls w).0.effects ≡ w.effects
  unfolding plan_outcome plan_retry
  plan_outcome-effects retryable run ls w = ground (
    arith,
    plan_limited-effects run (detect_limit h.local ls h.now) w,
    breadcrumb-effects h run.id (turns_exhausted run.resume_count) w,
  )
  plan_outcome-effects park run ls w = breadcrumb-effects h _ _ w
  plan_outcome-effects awaiting run ls w = breadcrumb-effects h _ _ w
  plan_outcome-effects terminal run ls w = refl

  plan_resume-effects :
      (run : Run) (ls : List ParsedLine) (c : RedriveCause) (w : World)
      → (plan_resume h run ls c w).0.effects ≡ w.effects
  unfolding plan_resume
  plan_resume-effects run ls c w =
      plan_outcome-effects (classify_outcome h.decode (kind_of run) ls c) run ls w

  schedule_resume-spawns :
      (run : Run) (d : ResumeDecision) (w : World) → spawns (schedule_resume h run d w) ≡ spawns w
  unfolding schedule_resume
  schedule_resume-spawns run d w =
      ground (arith, rejournal-spawns run.id (modify run.id (arm h (pending_of h d)) w))

  start_push-spawns : (id cwd : Text) (w : World) → spawns (start_push h id cwd w) ≡ spawns w
  start_push-spawns id cwd w =
      let w1 = modify id (set_pushed h.now) w in
      ground (arith, rejournal-spawns id w1, breadcrumb-spawns id pushing_text (rejournal h id w1))

  push_at-spawns :
      (id : Text) (cwd : Option Text) (w : World) → spawns (push_at h id cwd w) ≡ spawns w
  push_at-spawns id none w = refl
  push_at-spawns id (some cwd) w = start_push-spawns id cwd w

  maybe_push-spawns :
      (run : Run) (ls : List ParsedLine) (w : World)
      → spawns (maybe_push_on_complete h run ls w) ≡ spawns w
  unfolding maybe_push_on_complete
  maybe_push-spawns run ls w = ground (arith, push_at-spawns run.id run.cwd w)

  schedule_planned-spawns :
      (run : Run) (wd : World × Option ResumeDecision)
      → spawns (schedule_planned h run wd) ≡ spawns wd.0
  schedule_planned-spawns run (w, none) = refl
  schedule_planned-spawns run (w, some d) = schedule_resume-spawns run d w

  finalize_build-spawns :
      (run : Run) (c : RedriveCause) (w : World) → spawns (finalize_build h run c w) ≡ spawns w
  unfolding finalize_build
  finalize_build-spawns run c w =
      let ls = read_all run.id w in
      let w1 = maybe_push_on_complete h run ls w in
      omega (
        arith,
        schedule_planned-spawns run (plan_resume h run ls c w1),
        ap (count_if is_spawn) (plan_resume-effects run ls c w1),
        maybe_push-spawns run ls w,
      )

  finalized_run-spawns :
      (id : Text) (c : Run → RedriveCause) (o : Option Run) (w : World)
      → spawns (finalized_run h id c o w) ≡ spawns w
  finalized_run-spawns id c none w = refl
  finalized_run-spawns id c (some run) w =
      omega (arith, finalize_build-spawns run (c run) (rejournal h id w), rejournal-spawns id w)

  finalize_inner-spawns :
      (id : Text) (c : Run → RedriveCause) (mb : Runs × Bool) (w : World)
      → spawns (finalize_inner h id c mb w) ≡ spawns w
  finalize_inner-spawns id c (m, false) w = refl
  finalize_inner-spawns id c (m, true) w =
      finalized_run-spawns id c (lookup id m) (record w { runs = m })

  finalize_begun-spawns :
      (id : Text) (c : Run → RedriveCause) (code : ℤ) (wb : World × Bool)
      → spawns (finalize_begun h id c code wb) ≡ spawns wb.0
  unfolding end_finalizing
  finalize_begun-spawns id c code (w, false) = refl
  finalize_begun-spawns id c code (w, true) = finalize_inner-spawns id c (finalize id code w.runs) w

  begin_finalizing-spawns : (id : Text) (w : World) → spawns (begin_finalizing id w).0 ≡ spawns w
  unfolding begin_finalizing
  begin_finalizing-spawns id w = ground arith

  -- The end of a build spawns nothing at once: a successor comes only when its resume is fired.
  pub finalize_with-spawns :
      (id : Text) (c : Run → RedriveCause) (code : ℤ) (w : World)
      → spawns (finalize_with h id c code w) ≡ spawns w
  unfolding finalize_with
  finalize_with-spawns id c code w =
      omega (
        arith,
        finalize_begun-spawns id c code (begin_finalizing id w),
        begin_finalizing-spawns id w,
      )

  finalize_survived-spawns :
      (id : Text) (c : RedriveCause) (code : ℤ) (w : World)
      → spawns (finalize_survived h id c code w) ≡ spawns w
  unfolding finalize_survived
  finalize_survived-spawns id c code w = finalize_with-spawns id (λ _. c) code w

  record_original-spawns :
      (key : Option Text) (run : Run) (w : World) → spawns (record_original h key run w) ≡ spawns w
  unfolding record_idem
  record_original-spawns none run w = refl
  record_original-spawns (some key) run w = ground arith

  rehydrate_build-spawns :
      (rr : RehydratedRun) (w : World) → spawns (rehydrate_build h rr w) ≡ spawns w
  unfolding rehydrate_build
  rehydrate_build-spawns rr w =
      let id = rr.run.id in
      let w1 = record_original h rr.run.idempotency_key rr.run w in
      let w2 = modify id (seed h.now (h.out_size id)) w1 in
      let code = or_minus_one rr.exit_code in
      ground (
        arith,
        record_original-spawns rr.run.idempotency_key rr.run w,
        finalize_survived-spawns id (exit (some code)) code w2,
        finalize_survived-spawns id interrupted minus_one w2,
      )

  -- A restart spawns no process, whatever builds it finds in the journal, alive, finished or
  -- interrupted: a live one is re-attached, the others wait for their resume to be fired.
  pub rehydrate_builds-spawns :
      (rs : List RehydratedRun) (w : World) → spawns (rehydrate_builds h rs w) ≡ spawns w
  unfolding rehydrate_builds
  rehydrate_builds-spawns [] w = refl
  rehydrate_builds-spawns (r ∷ rs) w =
      rehydrate_builds-spawns rs (rehydrate_build h r w) ∙ rehydrate_build-spawns r w
