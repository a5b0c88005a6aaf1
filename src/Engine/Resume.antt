-- ===== src/Engine/Resume.antt =====
-- planResume, scheduleResume, firePendingResume and rearmOrPark of backend/usecase/buildengine.go.
-- Times are natural numbers, so a difference `a - b >= c` of the code is written `b + c ≤ a`.
use saki_cli.Base.{
  ℕ, ◌+◌, Bool, true, false, not, Option, none, some, List, [], ◌∷◌, leb, if◌then◌else◌, Text, same,
  decimal, lookup,
}
use saki_cli.Run.{kind_of, lane_key_of, PendingResume, Run, RedriveCause}
use saki_cli.Stream.Ndjson.{ParsedLine}
use saki_cli.Store.{list}
use saki_cli.World.{
  log, take_id, modify, rejournal, breadcrumb, World, Host, binary_not_found, Failure, not_spawned,
  timer,
}
use saki_cli.Outcome.{classify_outcome, Outcome, terminal, retryable, park, awaiting}
use saki_cli.Outcome.Limit.{detect_limit, LimitSignal, auth_error, usage_limit}
use saki_cli.Engine.Config.{max_spawn_retries}
use saki_cli.Engine.Backoff.{backoff, clamp_delay}
use saki_cli.Engine.Breadcrumb.{
  declined, paused, turns_exhausted, auth_parked, limit_waiting, wall_exhausted, no_progress,
  continuing, no_binary,
}
use saki_cli.Engine.Spawn.{new_build_run, reserve_and_spawn, Spawned, ok, err}

pub record ResumeDecision : Type 0 where
  pub successor_id : Text
  pub delay_ms : ℕ
  pub next_resume_count : ℕ
  pub next_streak : ℕ
  pub first_started_at : ℕ

-- `known && …` of the two fingerprints: none where one of them is unknown.
abbrev pub progress : Option Text → Option Text → Option Bool
progress (some a) (some b) = some (not (same b a))
progress _ _ = none

abbrev pub streak_after : Option Bool → ℕ → ℕ
streak_after none n = n
streak_after (some true) n = 0
streak_after (some false) n = n + 1

abbrev pub made_progress : Option Bool → Bool
made_progress (some true) = true
made_progress _ = false

module _ (h : Host) where
  abbrev pub park_with : Text → Text → World → World × Option ResumeDecision
  park_with id text w = (breadcrumb h id text w, none)

  -- The wait of a usage limit.
  abbrev pub limit_delay : Option ℕ → ℕ
  limit_delay none = h.cfg.limit_wait_ms
  limit_delay (some reset_at) = clamp_delay reset_at h.now h.cfg.resume_base_ms h.cfg.limit_wait_ms

  unfoldable pub plan_limit : Run → Option ℕ → World → World × Option ResumeDecision
  unfolding clamp_delay breadcrumb decimal
  plan_limit run reset w =
      let delay = limit_delay reset in
      let successor = h.new_id w.ids in
      (
        breadcrumb h run.id (limit_waiting delay successor) (take_id w),
        some (record {
          successor_id = successor;
          delay_ms = delay;
          next_resume_count = run.resume_count + 1;
          next_streak = run.no_progress_streak;
          first_started_at = run.first_started_at + delay;
        }),
      )

  -- From the fingerprints on.
  unfoldable pub plan_streak : Run → Option Bool → World → World × Option ResumeDecision
  unfolding backoff breadcrumb decimal
  plan_streak run p w =
      let streak = streak_after p run.no_progress_streak in
      let delay =
        (if made_progress p
          then h.cfg.resume_base_ms
          else backoff h.cfg.resume_base_ms h.cfg.max_backoff_ms streak) in
      let successor = h.new_id w.ids in
      if leb h.cfg.no_progress_limit streak then park_with run.id (no_progress streak) w else (
        breadcrumb h run.id (continuing successor delay) (take_id w),
        some (record {
          successor_id = successor;
          delay_ms = delay;
          next_resume_count = run.resume_count + 1;
          next_streak = streak;
          first_started_at = run.first_started_at;
        }),
      )

  unfoldable pub plan_limited : Run → Option LimitSignal → World → World × Option ResumeDecision
  unfolding plan_limit plan_streak breadcrumb
  plan_limited run (some auth_error) w = park_with run.id auth_parked w
  plan_limited run (some (usage_limit reset)) w = plan_limit run reset w
  plan_limited run none w =
      if leb (run.first_started_at + h.cfg.max_wall_ms) h.now
      then park_with run.id (wall_exhausted h.cfg.max_wall_ms) w
      else plan_streak run (progress run.start_fingerprint (h.fingerprint run)) w

  unfoldable pub plan_retry : Run → List ParsedLine → World → World × Option ResumeDecision
  unfolding plan_limited breadcrumb detect_limit
  plan_retry run lines w =
      if leb h.cfg.max_build_resumes run.resume_count
      then park_with run.id (turns_exhausted run.resume_count) w
      else plan_limited run (detect_limit h.local lines h.now) w

  unfoldable pub plan_outcome :
      Outcome → Run → List ParsedLine → World → World × Option ResumeDecision
  unfolding plan_retry breadcrumb
  plan_outcome retryable run lines w = plan_retry run lines w
  plan_outcome park run lines w = park_with run.id declined w
  plan_outcome awaiting run lines w = park_with run.id paused w
  plan_outcome terminal run lines w = (w, none)

  unfoldable pub plan_resume :
      Run → List ParsedLine → RedriveCause → World → World × Option ResumeDecision
  unfolding plan_outcome classify_outcome
  plan_resume run lines cause w =
      plan_outcome (classify_outcome h.decode (kind_of run) lines cause) run lines w

  unfoldable pub pending_of : ResumeDecision → PendingResume
  pending_of d = record {
    successor_id = d.successor_id;
    resume_at = h.now + d.delay_ms;
    resume_count = d.next_resume_count;
    no_progress_streak = d.next_streak;
    first_started_at = d.first_started_at;
    spawn_attempts = 0;
  }

  -- The closure that scheduleResume hands to Update.
  abbrev pub arm : PendingResume → Run → Run
  arm p r = if r.stop_requested then r else record r { pending_resume = some p }

  abbrev pub may_arm : Option Run → Bool
  may_arm none = false
  may_arm (some r) = not r.stop_requested

  unfoldable pub schedule_resume : Run → ResumeDecision → World → World
  unfolding pending_of rejournal
  schedule_resume run d w =
      let w1 = modify run.id (arm (pending_of d)) w in
      if may_arm (lookup run.id w.runs)
      then log (timer d.delay_ms run.id) (rejournal h run.id w1)
      else w1

  abbrev pub again : PendingResume → PendingResume
  again p = record p {
    spawn_attempts = p.spawn_attempts + 1;
    resume_at = h.now + h.cfg.resume_base_ms;
  }

  abbrev pub is_missing : Failure → Bool
  is_missing (not_spawned binary_not_found) = true
  is_missing _ = false

  unfoldable pub rearm_or_park : Text → PendingResume → Failure → World → World
  unfolding breadcrumb rejournal
  rearm_or_park pred p x w =
      if is_missing x
      then breadcrumb h pred no_binary w
      else if leb (p.spawn_attempts + 1) max_spawn_retries
      then rejournal h pred (modify pred (λ r. record r { pending_resume = some (again p) }) w)
      else rejournal h pred w

  abbrev pub clear_pending : Run → Run
  clear_pending r = record r { pending_resume = none }

  abbrev pub pending_found : Option Run → Option PendingResume
  pending_found none = none
  pending_found (some r) = r.pending_resume

  unfoldable pub successor_of : PendingResume → Run → Run
  unfolding new_build_run
  successor_of p pred = new_build_run h (record {
    id = p.successor_id;
    prompt = pred.prompt;
    cwd = pred.cwd;
    config_dir = pred.config_dir;
    idem = pred.idempotency_key;
    meta = pred.meta;
    engine = pred.engine;
    resume_count = p.resume_count;
    streak = p.no_progress_streak;
    first_started_at = p.first_started_at;
    started_at = h.now;
  })

  abbrev pub after_spawn : Text → PendingResume → World × Spawned → World
  after_spawn pred p (w, ok run state) = w
  after_spawn pred p (w, err x) = rearm_or_park pred p x w

  abbrev pub fire_successor : Text → PendingResume → Option Run → World → World
  fire_successor id p none w = w
  fire_successor id p (some pred) w =
      if pred.stop_requested
      then w
      else after_spawn id p (reserve_and_spawn h (successor_of p pred) (lane_key_of pred.meta) w)

  -- Behind the test-and-clear: the pending resume that it took.
  abbrev pub fire_won : Text → Option PendingResume → World → World
  fire_won id none w = w
  fire_won id (some p) w =
      let w1 = rejournal h id (modify id clear_pending w) in
      fire_successor id p (lookup id w1.runs) w1

  unfoldable pub fire_pending_resume : Text → World → World
  unfolding rejournal rearm_or_park successor_of reserve_and_spawn
  fire_pending_resume id w = fire_won id (pending_found (lookup id w.runs)) w

  abbrev pub is_due : Run → Bool
  is_due r = elim r.pending_resume [ none ↦ false | some p ↦ leb p.resume_at h.now ]

  unfoldable pub sweep_each : List Run → World → World
  unfolding fire_pending_resume
  sweep_each [] w = w
  sweep_each (r ∷ rs) w = sweep_each rs (if is_due r then fire_pending_resume r.id w else w)

  unfoldable pub sweep_pending_resumes : World → World
  unfolding sweep_each list
  sweep_pending_resumes w = sweep_each (list w.runs) w
