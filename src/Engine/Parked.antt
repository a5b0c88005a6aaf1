-- ===== src/Engine/Parked.antt =====
-- What a declined resume of backend/usecase/buildengine.go leaves for the operator to read.
use saki_cli.Base.{
  ℕ, ◌/◌, ◌≡◌, refl, ◌≢◌, true, false, Option, none, some, List, [], ◌∷◌, ◌++◌, append_assoc, arith,
  Text, codes, same_refl, contains, to_lower, decimal, lookup-insert,
}
use saki_cli.Outcome.Sentinels.{is_parked_text}
use saki_cli.Outcome.Parked.{
  parked_reason_of, parked_by_suffix, parked_reason_of-append, parked_reason_of-append_other,
}
use saki_cli.Engine.Breadcrumb.{
  declined, turns_exhausted, auth_parked, wall_exhausted, no_progress, no_binary,
}
use saki_cli.Run.{kind_of, PendingResume, Run, RedriveCause}
use saki_cli.Stream.Ndjson.{ParsedLine, raw}
use saki_cli.World.{read_all, breadcrumb, World, Host, binary_not_found, not_spawned}
use saki_cli.Outcome.{classify_outcome, Outcome, terminal, retryable, park, awaiting}
use saki_cli.Outcome.Limit.{detect_limit, LimitSignal, auth_error, usage_limit}
use saki_cli.Engine.Resume.{
  progress, streak_after, plan_limit, plan_streak, plan_limited, plan_retry, plan_outcome,
  plan_resume, rearm_or_park, ResumeDecision,
}

declined_parked : is_parked_text declined ≡ true
unfolding is_parked_text
declined_parked = refl

auth_parked_parked : is_parked_text auth_parked ≡ true
unfolding is_parked_text
auth_parked_parked = refl

turns_exhausted_parked : (n : ℕ) → is_parked_text (turns_exhausted n) ≡ true
unfolding to_lower contains
turns_exhausted_parked n = rw (← append_assoc) (
    parked_by_suffix (codes "auto-resume: resume budget exhausted (" ++ decimal n)
      (codes ") — parked for operator") refl)

no_progress_parked : (n : ℕ) → is_parked_text (no_progress n) ≡ true
unfolding to_lower contains
no_progress_parked n = rw (← append_assoc) (
    parked_by_suffix (codes "BLOCKED: no verified progress after " ++ decimal n)
      (codes " auto-resumes — parked for operator") refl)

wall_exhausted_parked : (n : ℕ) → is_parked_text (wall_exhausted n) ≡ true
unfolding to_lower contains
wall_exhausted_parked n = rw (← append_assoc) (
    parked_by_suffix (codes "BLOCKED: wall-clock budget (" ++ decimal (n / 60000))
      (codes "min) exhausted — parked for operator") refl)

module _ (h : Host) where
  -- What a reader of the run's output takes for the reason.
  abbrev pub reason_at : Text → World → Text
  reason_at id w = parked_reason_of (read_all id w)

  breadcrumb-lines :
      (id t : Text) (w : World)
      → h.append_ok id ≡ true
      → read_all id (breadcrumb h id t w) ≡ read_all id w ++ raw t ∷ []
  unfolding read_all breadcrumb
  breadcrumb-lines id t w ok_append = rw ok_append (rw (lookup-insert, same_refl id))

  breadcrumb_reason :
      (id t : Text) (w : World)
      → h.append_ok id ≡ true
      → is_parked_text t ≡ true
      → reason_at id (breadcrumb h id t w) ≡ t
  breadcrumb_reason id t w ok_append parked =
      rw (breadcrumb-lines id t w ok_append) (parked_reason_of-append (read_all id w) t parked)

  breadcrumb_shown :
      (id t : Text) (w : World)
      → h.append_ok id ≡ true
      → is_parked_text t ≡ true
      → is_parked_text (reason_at id (breadcrumb h id t w)) ≡ true
  breadcrumb_shown id t w ok_append parked = rw (breadcrumb_reason id t w ok_append parked) parked

module _ (h : Host) (run : Run) (ok_append : h.append_ok run.id ≡ true) where
  -- No decision, and a parked reason in the output.
  abbrev IsShown : World × Option ResumeDecision → Type 0
  IsShown wd = wd.1 ≡ none → is_parked_text (reason_at h run.id wd.0) ≡ true

  plan_limited-IsShown : (l : Option LimitSignal) (w : World) → IsShown (plan_limited h run l w)
  unfolding plan_limited plan_limit plan_streak
  plan_limited-IsShown (some auth_error) w e =
      breadcrumb_shown h run.id auth_parked w ok_append auth_parked_parked
  plan_limited-IsShown (some (usage_limit r)) w e = cc
  plan_limited-IsShown none w e =
      let streak =
        streak_after (progress run.start_fingerprint (h.fingerprint run)) run.no_progress_streak in
      ground (
        arith,
        breadcrumb_shown h run.id (wall_exhausted h.cfg.max_wall_ms) w ok_append
            (wall_exhausted_parked h.cfg.max_wall_ms),
        breadcrumb_shown h run.id (no_progress streak) w ok_append (no_progress_parked streak),
      )

  plan_outcome-IsShown :
      (o : Outcome) (ls : List ParsedLine) (w : World)
      → o ≢ terminal
      → o ≢ awaiting
      → IsShown (plan_outcome h o run ls w)
  unfolding plan_outcome plan_retry
  plan_outcome-IsShown park ls w a b e =
      breadcrumb_shown h run.id declined w ok_append declined_parked
  plan_outcome-IsShown awaiting ls w a b e = absurd (b refl)
  plan_outcome-IsShown terminal ls w a b e = absurd (a refl)
  plan_outcome-IsShown retryable ls w a b e = ground (
    arith,
    plan_limited-IsShown (detect_limit h.local ls h.now) w,
    breadcrumb_shown h run.id (turns_exhausted run.resume_count) w ok_append
        (turns_exhausted_parked run.resume_count),
  )

  -- Where planResume declines a build that neither finished nor waits for a decision, and the line
  -- can be appended, parkedReasonOf finds a parked reason in the output.
  pub declined-IsShown :
      (ls : List ParsedLine) (c : RedriveCause) (w : World)
      → classify_outcome h.decode (kind_of run) ls c ≢ terminal
      → classify_outcome h.decode (kind_of run) ls c ≢ awaiting
      → (plan_resume h run ls c w).1 ≡ none
      → is_parked_text (parked_reason_of (read_all run.id (plan_resume h run ls c w).0)) ≡ true
  unfolding plan_resume
  declined-IsShown ls c w a b e =
      plan_outcome-IsShown (classify_outcome h.decode (kind_of run) ls c) ls w a b e

no_binary_unparked : is_parked_text no_binary ≡ false
unfolding is_parked_text
no_binary_unparked = refl

-- A resume that is dropped because the engine's binary is missing leaves the parked reason of the
-- output as it was: parkedRe does not match the breadcrumb that is appended.
pub rearm_or_park-no_reason :
    (h : Host) (id : Text) (p : PendingResume) (w : World)
    → h.append_ok id ≡ true
    → parked_reason_of (read_all id (rearm_or_park h id p (not_spawned binary_not_found) w))
      ≡ parked_reason_of (read_all id w)
unfolding rearm_or_park
rearm_or_park-no_reason h id p w ok_append =
    rw (breadcrumb-lines h id no_binary w ok_append)
      (parked_reason_of-append_other (read_all id w) no_binary no_binary_unparked)
