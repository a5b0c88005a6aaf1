-- ===== src/Engine/Exit.antt =====
-- What ends a build in backend/usecase/buildengine.go: onExit, finalizeSurvived, finalizeBuild and
-- maybePushOnComplete.
use saki_cli.Base.{
  ℕ, Bool, true, false, ◌&&◌, Option, none, some, List, if◌then◌else◌, is_none, Text, lookup, ℤ,
}
use saki_cli.Run.{is_running, is_build, kind_of, Run, RedriveCause, exit, user_stop}
use saki_cli.Stream.Ndjson.{ParsedLine}
use saki_cli.Stream.Spoken.{final_spoken_text}
use saki_cli.Store.{Runs, finalize}
use saki_cli.World.{read_all, log, modify, rejournal, breadcrumb, PushResult, World, Host, pushing}
use saki_cli.Outcome.Sentinels.{is_build_complete}
use saki_cli.Engine.Breadcrumb.{pushing_text, push_result_line}
use saki_cli.Engine.Resume.{plan_resume, schedule_resume, ResumeDecision}

abbrev pub set_finalizing : Bool → Run → Run
set_finalizing b r = record r { finalizing = b }

abbrev pub can_finalize : Option Run → Bool
can_finalize none = false
can_finalize (some r) = is_running r.status

-- The closure of Update does nothing to a run that is not running.
unfoldable pub begin_finalizing : Text → World → World × Bool
begin_finalizing id w =
    if can_finalize (lookup id w.runs)
    then (modify id (set_finalizing true) w, true)
    else (w, false)

unfoldable pub end_finalizing : Text → World → World
end_finalizing id w = modify id (set_finalizing false) w

abbrev pub set_pushed : ℕ → Run → Run
set_pushed t r = record r { pushed_at = some t }

abbrev pub not_pushed : Option Run → Bool
not_pushed none = false
not_pushed (some r) = is_none r.pushed_at

abbrev pub cause_of_exit : ℤ → Run → RedriveCause
cause_of_exit code r = if r.stop_requested then user_stop else exit (some code)

module _ (h : Host) where
  -- Behind the test-and-set of PushedAt; the push itself runs on its own goroutine.
  abbrev pub start_push : Text → Text → World → World
  start_push id cwd w =
      if not_pushed (lookup id w.runs)
      then log (pushing cwd)
          (breadcrumb h id pushing_text (rejournal h id (modify id (set_pushed h.now) w)))
      else w

  abbrev pub push_at : Text → Option Text → World → World
  push_at id none w = w
  push_at id (some cwd) w = start_push id cwd w

  -- The pusher is always there in the program: main.go passes one.
  unfoldable pub maybe_push_on_complete : Run → List ParsedLine → World → World
  unfolding is_build_complete final_spoken_text breadcrumb rejournal
  maybe_push_on_complete run lines w =
      if h.cfg.auto_push && is_build (kind_of run) && is_build_complete (final_spoken_text lines)
      then push_at run.id run.cwd w
      else w

  -- The goroutine of the push: its result, when it comes, as a line of the output.
  unfoldable pub push_finished : Text → PushResult → World → World
  unfolding breadcrumb push_result_line
  push_finished id res w = breadcrumb h id (push_result_line res) w

  abbrev pub schedule_planned : Run → World × Option ResumeDecision → World
  schedule_planned run (w, none) = w
  schedule_planned run (w, some d) = schedule_resume h run d w

  unfoldable pub finalize_build : Run → RedriveCause → World → World
  unfolding maybe_push_on_complete plan_resume schedule_resume read_all
  finalize_build run cause w =
      let lines = read_all run.id w in
      schedule_planned run (plan_resume h run lines cause (maybe_push_on_complete run lines w))

  abbrev pub finalized_run : Text → (Run → RedriveCause) → Option Run → World → World
  finalized_run id cause none w = w
  finalized_run id cause (some run) w = finalize_build run (cause run) (rejournal h id w)

  -- Between beginFinalizing and endFinalizing.
  abbrev pub finalize_inner : Text → (Run → RedriveCause) → Runs × Bool → World → World
  finalize_inner id cause (m, false) w = record w { runs = m }
  finalize_inner id cause (m, true) w = finalized_run id cause (lookup id m) (record w { runs = m })

  abbrev pub finalize_begun : Text → (Run → RedriveCause) → ℤ → World × Bool → World
  finalize_begun id cause code (w, false) = w
  finalize_begun id cause code (w, true) =
      end_finalizing id (finalize_inner id cause (finalize id code w.runs) w)

  -- The common body of onExit and finalizeSurvived, which differ in the cause.
  unfoldable pub finalize_with : Text → (Run → RedriveCause) → ℤ → World → World
  unfolding begin_finalizing end_finalizing finalize finalize_build rejournal
  finalize_with id cause code w = finalize_begun id cause code (begin_finalizing id w)

  unfoldable pub on_exit : Text → ℤ → World → World
  unfolding finalize_with
  on_exit id code w = finalize_with id (cause_of_exit code) code w

  unfoldable pub finalize_survived : Text → RedriveCause → ℤ → World → World
  unfolding finalize_with
  finalize_survived id cause code w = finalize_with id (λ _. cause) code w
