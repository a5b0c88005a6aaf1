-- ===== src/Engine/Stopped.antt =====
-- What an operator's Stop of backend/usecase/buildengine.go promises.
use saki_cli.Base.{
  ◌≡◌, refl, sym, ap, subst, ◌∙◌, inl, inr, true, false, Option, none, some, arith, Bool-cases,
  is_some, Text, same_refl, lookup, mapped, lookup-update, ℤ,
}
use saki_cli.Run.{is_running, Run}
use saki_cli.Store.Finalize.{lookup-finalize}
use saki_cli.World.{World, Host}
use saki_cli.World.Laws.{rejournal-runs, breadcrumb-runs}
use saki_cli.Engine.Watch.{
  signal_term, request_stop, stop_signalled, stop_running, stop_looked, stop,
}
use saki_cli.Engine.Resume.{
  pending_of, arm, may_arm, schedule_resume, pending_found, fire_pending_resume, ResumeDecision,
}
use saki_cli.Engine.Exit.{can_finalize, begin_finalizing, finalize_with, on_exit}
use saki_cli.Engine.Fire.{fire_nothing}

-- A stopped run: not running, nothing pending, and marked.
abbrev pub IsStopped : Option Run → Type 0
IsStopped none = ⊥
IsStopped (some r) =
    (is_running r.status ≡ false) × (r.pending_resume ≡ none) × (r.stop_requested ≡ true)

module _ (h : Host) (id : Text) where
  signal_term-runs : (p : Option ℤ) (w : World) → (signal_term p w).runs ≡ w.runs
  signal_term-runs none w = refl
  signal_term-runs (some p) w = refl

  stop_running-IsStopped :
      (run : Run) (w : World)
      → lookup id w.runs ≡ some run
      → IsStopped (lookup id (stop_running h id run w).runs)
  stop_running-IsStopped run w e =
      rw (rejournal-runs, signal_term-runs)
        (rw (lookup-finalize, lookup-update, same_refl, e) (ground arith))

  stop_looked-IsStopped :
      (o : Option Run) (w : World)
      → lookup id w.runs ≡ o
      → (stop_looked h id o w).1 ≡ true
      → IsStopped (lookup id (stop_looked h id o w).0.runs)
  stop_looked-IsStopped none w e t = cc
  stop_looked-IsStopped (some run) w e t = elim (Bool-cases (is_running run.status)) [
    | inl live ↦ rw live (stop_running-IsStopped run w e)
    | inr dead ↦ elim (Bool-cases (is_some run.pending_resume)) [
      | inl pend ↦
          rw (dead, pend)
            (rw (rejournal-runs, breadcrumb-runs)
              (rw (lookup-update, same_refl, e) (dead, refl, refl)))
      | inr idle ↦ cc (rw (dead, idle) at t)
    ]
  ]

  pub stop-IsStopped :
      (w : World) → (stop h id w).1 ≡ true → IsStopped (lookup id (stop h id w).0.runs)
  unfolding stop
  stop-IsStopped w t = stop_looked-IsStopped (lookup id w.runs) w refl t

module _ (h : Host) (id : Text) where
  stopped_pending : (o : Option Run) → IsStopped o → pending_found h o ≡ none
  stopped_pending none s = absurd s
  stopped_pending (some r) s = s.1

  stopped_dead : (o : Option Run) → IsStopped o → can_finalize o ≡ false
  stopped_dead none s = refl
  stopped_dead (some r) s = s.0

  stopped_unarmed : (o : Option Run) → IsStopped o → may_arm h o ≡ false
  stopped_unarmed none s = absurd s
  stopped_unarmed (some r) s = rw (s.2)

  exit_of_stopped : (code : ℤ) (w : World) → IsStopped (lookup id w.runs) → on_exit h id code w ≡ w
  unfolding on_exit finalize_with begin_finalizing
  exit_of_stopped code w s = rw (stopped_dead (lookup id w.runs) s)

  refused : (o : Option Run) (w : World) → IsStopped o → stop_looked h id o w ≡ (w, false)
  refused none w s = refl
  refused (some r) w s = rw (s.0, s.1)

  stop_of_stopped : (w : World) → IsStopped (lookup id w.runs) → stop h id w ≡ (w, false)
  unfolding stop
  stop_of_stopped w s = refused (lookup id w.runs) w s

  -- A stop that is answered with success is final: the exit of the process changes nothing, whatever
  -- its code, no timer or sweep fires a resume of the run, and a second stop is refused, whatever
  -- the host answers then.
  pub stop_final :
      (at : Host) (code : ℤ) (w : World)
      → (stop at id w).1 ≡ true
      → (on_exit h id code (stop at id w).0 ≡ (stop at id w).0)
        × (fire_pending_resume h id (stop at id w).0 ≡ (stop at id w).0)
        × (stop h id (stop at id w).0 ≡ ((stop at id w).0, false))
  stop_final at code w t =
      let s = stop-IsStopped at id w t in
      let w' = (stop at id w).0 in
      (
        exit_of_stopped code w' s,
        fire_nothing h id w' (stopped_pending (lookup id w'.runs) s),
        stop_of_stopped w' s,
      )

  -- The run is marked and has nothing pending.
  abbrev pub IsCancelled : Option Run → Type 0
  IsCancelled none = ⊥
  IsCancelled (some r) = (r.pending_resume ≡ none) × (r.stop_requested ≡ true)

  cancelled_pending : (o : Option Run) → IsCancelled o → pending_found h o ≡ none
  cancelled_pending none s = absurd s
  cancelled_pending (some r) s = s.0

  cancelled_unfired : (w : World) → IsCancelled (lookup id w.runs) → fire_pending_resume h id w ≡ w
  cancelled_unfired w s = fire_nothing h id w (cancelled_pending (lookup id w.runs) s)

  schedule_lookup :
      (run : Run) (d : ResumeDecision) (w : World)
      → lookup run.id (schedule_resume h run d w).runs
        ≡ mapped (arm h (pending_of h d)) (lookup run.id w.runs)
  unfolding schedule_resume
  schedule_lookup run d w = elim (Bool-cases (may_arm h (lookup run.id w.runs))) [
    | inl free ↦ rw free (rw rejournal-runs (rw (lookup-update, same_refl) refl))
    | inr marked ↦ rw marked (rw (lookup-update, same_refl) refl)
  ]

  -- A marked run is not armed, and no timer is set for it.
  schedule_of_marked :
      (run : Run) (d : ResumeDecision) (w : World)
      → IsCancelled (lookup run.id w.runs)
      → IsCancelled (lookup run.id (schedule_resume h run d w).runs)
        × ((schedule_resume h run d w).effects ≡ w.effects)
  unfolding schedule_resume
  schedule_of_marked run d w s = (
    subst IsCancelled (sym (schedule_lookup run d w)) (unarmed (lookup run.id w.runs) s),
    rw (untimed (lookup run.id w.runs) s) refl,
  )
    where
      unarmed : (o : Option Run) → IsCancelled o → IsCancelled (mapped (arm h (pending_of h d)) o)
      unarmed none c = c
      unarmed (some r) (idle, marked) =
          subst (λ (x : Run). IsCancelled (some x)) (sym (kept r marked)) (idle, marked)
        where
          kept : (x : Run) → x.stop_requested ≡ true → arm h (pending_of h d) x ≡ x
          kept x m = rw m refl

      untimed : (o : Option Run) → IsCancelled o → may_arm h o ≡ false
      untimed none c = absurd c
      untimed (some r) (idle, marked) = rw marked refl

  signalled_at :
      (run r : Run) (w : World)
      → lookup run.id w.runs ≡ some r
      → lookup run.id (stop_signalled h run.id run w).runs ≡ some (request_stop r)
  signalled_at run r w e = rw signal_term-runs (rw (lookup-update, same_refl, e) refl)

-- The race of a Stop with a natural exit, after the Stop has found the run running: whether its mark
-- lands between the exit's Finalize and its scheduleResume or behind both, the run is marked with
-- nothing pending, and no timer or sweep fires a resume of it, whatever the host answers then; in the
-- first case no timer is set either.
pub stop_race :
    (h stopper later : Host) (run r : Run) (d : ResumeDecision) (w : World)
    → lookup run.id w.runs ≡ some r
    → let first = schedule_resume h run d (stop_signalled stopper run.id run w) in
      let second = stop_signalled stopper run.id run (schedule_resume h run d w) in
      (first.effects ≡ (stop_signalled stopper run.id run w).effects)
      × IsCancelled h run.id (lookup run.id first.runs)
      × IsCancelled h run.id (lookup run.id second.runs)
      × (fire_pending_resume later run.id first ≡ first)
      × (fire_pending_resume later run.id second ≡ second)
stop_race h stopper later run r d w e =
    let first = schedule_resume h run d (stop_signalled stopper run.id run w) in
    let second = stop_signalled stopper run.id run (schedule_resume h run d w) in
    let marked =
      subst (IsCancelled h run.id) (sym (signalled_at stopper run.id run r w e)) (refl, refl) in
    let (a, untimed) =
      schedule_of_marked h run.id run d (stop_signalled stopper run.id run w) marked in
    let at = schedule_lookup h run.id run d w ∙ ap (mapped (arm h (pending_of h d))) e in
    let b =
      subst (IsCancelled h run.id)
        (sym (
          signalled_at stopper run.id run (arm h (pending_of h d) r) (schedule_resume h run d w)
            at))
        (refl, refl) in
    (untimed, a, b, cancelled_unfired later run.id first a, cancelled_unfired later run.id second b)
