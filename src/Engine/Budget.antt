-- ===== src/Engine/Budget.antt =====
-- The budgets of planResume in backend/usecase/buildengine.go.
use saki_cli.Base.{
  ℕ, suc, ◌+◌, ◌≤◌, ◌<◌, ◌≡◌, refl, ◌⊎◌, inl, inr, Bool, Option, none, some, List, arith, leb,
  Bool-cases,
}
use saki_cli.Run.{kind_of, Run, RedriveCause}
use saki_cli.World.{World, Host}
use saki_cli.Engine.Resume.{
  progress, limit_delay, plan_limit, plan_streak, plan_limited, plan_retry, plan_outcome,
  plan_resume, pending_of, successor_of, ResumeDecision,
}
use saki_cli.Stream.Ndjson.{ParsedLine}
use saki_cli.Outcome.{classify_outcome, Outcome, terminal, retryable, park, awaiting}
use saki_cli.Outcome.Limit.{detect_limit, LimitSignal, auth_error, usage_limit}
use saki_cli.Engine.Backoff.{clamp_delay}
use saki_cli.Engine.Spawn.{new_build_run}

-- A resume after a turn that ended early: the streak is under its limit and the wall-clock budget is
-- not used up.
pub record IsRetry (h : Host) (run : Run) (d : ResumeDecision) : Type 0 where
  pub streak_left : d.next_streak < h.cfg.no_progress_limit
  pub wall_left : h.now < run.first_started_at + h.cfg.max_wall_ms
  pub same_start : d.first_started_at ≡ run.first_started_at

-- A resume after a usage limit: the wait is bounded, and moves the start of the budget.
pub record IsLimitWait (h : Host) (run : Run) (d : ResumeDecision) : Type 0 where
  pub bounded : d.delay_ms ≤ h.cfg.limit_wait_ms
  pub shifted : d.first_started_at ≡ run.first_started_at + d.delay_ms
  pub same_streak : d.next_streak ≡ run.no_progress_streak

pub record IsWithinBudget (h : Host) (run : Run) (d : ResumeDecision) : Type 0 where
  pub turns_left : run.resume_count < h.cfg.max_build_resumes
  pub counted : d.next_resume_count ≡ run.resume_count + 1
  pub kind_of_wait : IsRetry h run d ⊎ IsLimitWait h run d

module _ (h : Host) (run : Run) where
  plan_streak-IsRetry :
      (p : Option Bool) (w : World) {d : ResumeDecision}
      → h.now < run.first_started_at + h.cfg.max_wall_ms
      → (plan_streak h run p w).1 ≡ some d
      → IsRetry h run d × (d.next_resume_count ≡ run.resume_count + 1)
  unfolding plan_streak
  plan_streak-IsRetry p w left e = ground arith

  limit_delay-le : (reset : Option ℕ) → limit_delay h reset ≤ h.cfg.limit_wait_ms
  unfolding clamp_delay
  limit_delay-le none = omega arith
  limit_delay-le (some r) = ground arith

  plan_limit-IsLimitWait :
      (reset : Option ℕ) (w : World) {d : ResumeDecision}
      → (plan_limit h run reset w).1 ≡ some d
      → IsLimitWait h run d × (d.next_resume_count ≡ run.resume_count + 1)
  unfolding plan_limit
  plan_limit-IsLimitWait reset w e = ground (arith, limit_delay-le reset)

  plan_limited-budget :
      (l : Option LimitSignal) (w : World) {d : ResumeDecision}
      → run.resume_count < h.cfg.max_build_resumes
      → (plan_limited h run l w).1 ≡ some d
      → IsWithinBudget h run d
  unfolding plan_limited
  plan_limited-budget (some auth_error) w left e = cc
  plan_limited-budget (some (usage_limit reset)) w left e =
      let (wait, counted) = plan_limit-IsLimitWait reset w e in
      record { turns_left = left; counted = counted; kind_of_wait = inr wait }
  plan_limited-budget none w left e =
      elim (Bool-cases (leb (run.first_started_at + h.cfg.max_wall_ms) h.now)) [
        | inl gone ↦ cc (rw gone at e)
        | inr in_time ↦
            let (retry, counted) =
              plan_streak-IsRetry (progress run.start_fingerprint (h.fingerprint run)) w
                (ground arith) (rw in_time at e) in
            record { turns_left = left; counted = counted; kind_of_wait = inl retry }
      ]

  plan_retry-budget :
      (ls : List ParsedLine) (w : World) {d : ResumeDecision}
      → (plan_retry h run ls w).1 ≡ some d
      → IsWithinBudget h run d
  unfolding plan_retry
  plan_retry-budget ls w e = elim (Bool-cases (leb h.cfg.max_build_resumes run.resume_count)) [
    | inl gone ↦ cc (rw gone at e)
    | inr left ↦ plan_limited-budget (detect_limit h.local ls h.now) w (ground arith) (rw left at e)
  ]

  plan_outcome-budget :
      (o : Outcome) (ls : List ParsedLine) (w : World) {d : ResumeDecision}
      → (plan_outcome h o run ls w).1 ≡ some d
      → (o ≡ retryable) × IsWithinBudget h run d
  unfolding plan_outcome
  plan_outcome-budget retryable ls w e = (refl, plan_retry-budget ls w e)
  plan_outcome-budget park ls w e = cc
  plan_outcome-budget awaiting ls w e = cc
  plan_outcome-budget terminal ls w e = cc

  -- A build is resumed only if it ended retryable, with turns left, and either within the streak and
  -- wall-clock budgets or to wait for a usage limit no longer than the configured wait.
  pub plan_resume-IsWithinBudget :
      (ls : List ParsedLine) (c : RedriveCause) (w : World) {d : ResumeDecision}
      → (plan_resume h run ls c w).1 ≡ some d
      → (classify_outcome h.decode (kind_of run) ls c ≡ retryable) × IsWithinBudget h run d
  unfolding plan_resume
  plan_resume-IsWithinBudget ls c w e =
      plan_outcome-budget (classify_outcome h.decode (kind_of run) ls c) ls w e

-- A chain of n resumes, each planned by planResume under the same turn cap: the predecessor's
-- decision is the successor's count.
pub data Chain (cap_turns : ℕ) (first : Run) : ℕ → Run → Type 0 where
  start : Chain cap_turns first 0 first
  resume :
      {n : ℕ} {pred : Run} (h : Host) (ls : List ParsedLine) (c : RedriveCause) (w : World)
      (d : ResumeDecision) (at : Host)
      → Chain cap_turns first n pred
      → h.cfg.max_build_resumes ≡ cap_turns
      → (plan_resume h pred ls c w).1 ≡ some d
      → Chain cap_turns first (suc n) (successor_of at (pending_of h d) pred)

successor-count :
    (h at : Host) (d : ResumeDecision) (pred : Run)
    → (successor_of at (pending_of h d) pred).resume_count ≡ d.next_resume_count
unfolding successor_of new_build_run pending_of
successor-count h at d pred = refl

-- A chain of resumes ends: from a run that is within the cap it has at most as many turns as the cap
-- leaves, and every member counts its turns exactly.
pub Chain-bounded :
    {cap_turns : ℕ} {first last : Run} {n : ℕ}
    → first.resume_count ≤ cap_turns
    → Chain cap_turns first n last
    → (last.resume_count ≡ first.resume_count + n) × (first.resume_count + n ≤ cap_turns)
Chain-bounded le start = (omega arith, omega arith)
Chain-bounded le (resume {pred = pred} h ls c w d at ch same_cap planned) =
    let (counted, bounded) = Chain-bounded le ch in
    let within = (plan_resume-IsWithinBudget h pred ls c w planned).1 in
    let grown = successor-count h at d pred in
    (
      omega (arith, counted, within.counted, grown),
      omega (arith, counted, within.turns_left, same_cap),
    )
