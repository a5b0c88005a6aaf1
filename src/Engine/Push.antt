-- ===== src/Engine/Push.antt =====
-- The push of a finished build (maybePushOnComplete of backend/usecase/buildengine.go).
use saki_cli.Base.{
  ℕ, ◌+◌, ◌≡◌, refl, ap, ◌∙◌, inl, inr, Bool, true, false, ◌&&◌, Option, none, some, List, [], ◌∷◌,
  arith, if◌then◌else◌, Bool-cases, is_some, Text, same_refl, count_if, any, lookup, mapped,
  lookup-update,
}
use saki_cli.Run.{is_build, kind_of, Run}
use saki_cli.World.{World, Host, Effect, pushing}
use saki_cli.World.Laws.{rejournal-runs, rejournal-effects, breadcrumb-runs, breadcrumb-effects}
use saki_cli.Engine.Exit.{set_pushed, not_pushed, start_push, push_at, maybe_push_on_complete}
use saki_cli.Stream.Ndjson.{ParsedLine}
use saki_cli.Stream.Spoken.{final_spoken_text}
use saki_cli.Outcome.Sentinels.{is_build_complete}

abbrev pub is_push : Effect → Bool
is_push (pushing cwd) = true
is_push _ = false

-- How many pushes were started.
abbrev pub pushes : World → ℕ
pushes w = count_if is_push w.effects

-- A push was started before for the run that the store has, or there is none to push for.
abbrev pub IsPushed : Text → World → Type 0
IsPushed id w = not_pushed (lookup id w.runs) ≡ false

module _ (h : Host) where
  pushed_marks : (t : ℕ) (o : Option Run) → not_pushed (mapped (set_pushed t) o) ≡ false
  pushed_marks t none = refl
  pushed_marks t (some r) = refl

  start_push-once :
      (id cwd : Text) (w : World)
      → not_pushed (lookup id w.runs) ≡ true
      → (pushes (start_push h id cwd w) ≡ pushes w + 1) × IsPushed id (start_push h id cwd w)
  start_push-once id cwd w e = rw e (
    rw (breadcrumb-effects, rejournal-effects) (omega arith),
    rw (breadcrumb-runs, rejournal-runs)
        (rw lookup-update (rw (same_refl id) (pushed_marks h.now (lookup id w.runs)))),
  )

  start_push-done : (id cwd : Text) (w : World) → IsPushed id w → start_push h id cwd w ≡ w
  start_push-done id cwd w e = rw e

module _ (h : Host) (run : Run) (ls : List ParsedLine) where
  marked_push : (o : Option Text) (w : World) → IsPushed run.id w → push_at h run.id o w ≡ w
  marked_push none w e = refl
  marked_push (some cwd) w e = start_push-done h run.id cwd w e

  maybe_push-done : (w : World) → IsPushed run.id w → maybe_push_on_complete h run ls w ≡ w
  unfolding maybe_push_on_complete
  maybe_push-done w e = ground (arith, marked_push run.cwd w e)

-- A finalize that has a push to start: the setting is on, the run is a build with a working directory
-- whose final text says that it is complete, and no push was started for it before.
abbrev pub is_due : Run → World → Host × List ParsedLine → Bool
is_due run w (h, ls) =
    h.cfg.auto_push
    && is_build (kind_of run)
    && is_build_complete (final_spoken_text ls)
    && is_some run.cwd
    && not_pushed (lookup run.id w.runs)

-- The run is finalized again and again, by the exit, a poll or a restart.
unfoldable pub push_all : List (Host × List ParsedLine) → Run → World → World
unfolding maybe_push_on_complete
push_all [] run w = w
push_all ((h, ls) ∷ es) run w = push_all es run (maybe_push_on_complete h run ls w)

push_all_done :
    (es : List (Host × List ParsedLine)) (run : Run) (w : World)
    → IsPushed run.id w
    → push_all es run w ≡ w
unfolding push_all
push_all_done [] run w e = refl
push_all_done ((h, ls) ∷ es) run w e = rw (maybe_push-done h run ls w e) (push_all_done es run w e)

push_due :
    (h : Host) (run : Run) (ls : List ParsedLine) (w : World) (o : Option Text)
    → run.cwd ≡ o
    → is_due run w (h, ls) ≡ true
    → (pushes (maybe_push_on_complete h run ls w) ≡ pushes w + 1)
      × IsPushed run.id (maybe_push_on_complete h run ls w)
unfolding maybe_push_on_complete
push_due h run ls w none e due = absurd (ground (arith, e, due))
push_due h run ls w (some cwd) e due =
    let (on, kind, complete, fresh) : (h.cfg.auto_push ≡ true)
        × (is_build (kind_of run) ≡ true)
        × (is_build_complete (final_spoken_text ls) ≡ true)
        × (not_pushed (lookup run.id w.runs) ≡ true) =
      (ground (arith, due), ground (arith, due), ground (arith, due), ground (arith, due)) in
    rw (on, kind, complete, e) (start_push-once h run.id cwd w fresh)

push_not_due :
    (h : Host) (run : Run) (ls : List ParsedLine) (w : World) (o : Option Text)
    → run.cwd ≡ o
    → is_due run w (h, ls) ≡ false
    → maybe_push_on_complete h run ls w ≡ w
unfolding maybe_push_on_complete
push_not_due h run ls w none e idle = rw e (ground arith)
push_not_due h run ls w (some cwd) e idle = rw e (ground (arith, e, idle))

-- Finalizing a run again and again starts exactly one push, where the run is a build of the store
-- with a working directory for which no push was started before, and one of the times the automatic
-- push is on and the final text of the output says that the build is complete; otherwise it starts
-- none.
pub push_all_once :
    (es : List (Host × List ParsedLine)) (run : Run) (w : World)
    → pushes (push_all es run w) ≡ pushes w + (if any (is_due run w) es then 1 else 0)
unfolding push_all
push_all_once [] run w = omega arith
push_all_once ((h, ls) ∷ es) run w = elim (Bool-cases (is_due run w (h, ls))) [
  | inl due ↦
      let (one, marked) = push_due h run ls w run.cwd refl due in
      rw (due, push_all_done es run (maybe_push_on_complete h run ls w) marked, one) refl
  | inr idle ↦ rw idle (
      ap (λ v. pushes (push_all es run v)) (push_not_due h run ls w run.cwd refl idle)
      ∙ push_all_once es run w)
]
