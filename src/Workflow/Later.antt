-- ===== src/Workflow/Later.antt =====
-- The rounds of advanceLocked in backend/usecase/workflow.go, and the order of the phases.
use Prim.Native.Nat.{ℕ, ◌≤◌, ◌<◌}
use saki_cli.Base.{
  ◌≡◌, refl, sym, subst, inl, inr, Bool, true, false, not, ◌||◌, Option, none, some, ◌++◌, arith,
  leb, if◌then◌else◌, Bool-cases, Text, codes, is_empty, decimal,
}
use saki_cli.Workflow.{
  place, same_phase, Workflow, Phase, resolve, pickup, proto, lock, build_phase, rplan,
  rplan_review, approved, qa, reviewer, wrap, verifying, Track, prd_track, plan_track,
}
use saki_cli.Workflow.Answers.{Target, ChildRequest, Answers}
use saki_cli.Workflow.Phases.{
  next_phase, phase_done, persist, entered, transition, moved, completed, complete_phase, fail,
  Flow,
}
use saki_cli.Workflow.Advance.{
  settle, or_return, first_phase, child_round, locked_by, lock_round, now_done, save_done,
  verify_result, verify_round, next_round, by_phase, Advanced, settled, unsaved, out_of_rounds,
  Round, goes_on, returns,
}
use saki_cli.Workflow.Verify.{verify, Verified, verified, refused}

abbrev pub IsEnough : Advanced → Type 0
IsEnough (settled f) = Unit
IsEnough (unsaved f) = Unit
IsEnough (out_of_rounds f) = ⊥

pub place_le : (p : Phase) → place p ≤ 11
place_le p = ground arith

-- A lock in the plan track, which validWorkflow rejects.
abbrev pub is_misplaced : Track → Phase → Bool
is_misplaced prd_track p = false
is_misplaced plan_track lock = true
is_misplaced plan_track p = false

-- nextPhase names a later phase, which is not misplaced.
pub next_phase-later :
    (t : Track) (p : Phase) {q : Phase}
    → next_phase t p ≡ some q
    → (place p < place q) × (is_misplaced t q ≡ false)
unfolding next_phase
next_phase-later prd_track p e = (ground arith, refl)
next_phase-later plan_track p e = (ground arith, ground arith)

-- A round that goes on has entered a later phase.
abbrev pub Later : Phase → Round → Type 0
Later p (returns a) = IsEnough a
Later p (goes_on f) = (place p < place f.wf.phase) × (is_misplaced f.wf.track f.wf.phase ≡ false)

module _ (h : Answers) where
  pub settle-IsEnough : (fb : Flow × Bool) → IsEnough (settle fb)
  settle-IsEnough (f, true) = tt
  settle-IsEnough (f, false) = tt

  persist-Later :
      (p : Phase) (f : Flow)
      → place p < place f.wf.phase
      → is_misplaced f.wf.track f.wf.phase ≡ false
      → Later p (or_return (persist h f))
  unfolding persist
  persist-Later p f le m = elim (Bool-cases (h.save_ok f.wf)) [
    | inl e ↦ rw e (le, m)
    | inr e ↦ rw e tt
  ]

  first_phase-later : (t : Target) → 0 < place (first_phase h t)
  unfolding first_phase
  first_phase-later t = ground arith

  first_phase-placed : (t : Target) (k : Track) → is_misplaced k (first_phase h t) ≡ false
  unfolding first_phase
  first_phase-placed t prd_track = refl
  first_phase-placed t plan_track = ground arith

  transition-Later :
      (t : Target) (f : Flow)
      → f.wf.phase ≡ resolve
      → Later resolve (or_return (transition h (first_phase h t) f))
  unfolding transition entered
  transition-Later t f e = elim (Bool-cases (same_phase f.wf.phase (first_phase h t))) [
    | inl same_one ↦ absurd (ground (arith, first_phase-later t, e, same_one))
    | inr other ↦ rw other (
        persist-Later resolve (record f { wf = entered h (first_phase h t) f.wf })
          (first_phase-later t) (first_phase-placed t f.wf.track))
  ]

  next_round-Later :
      (p : Phase) (o : Option Phase) (f : Flow)
      → next_phase f.wf.track p ≡ o
      → Later p (next_round h o f)
  next_round-Later p none f n = settle-IsEnough (fail h (codes "workflow phase has no successor") f)
  next_round-Later p (some q) f n =
      let (le, m) = next_phase-later f.wf.track p n in
      persist-Later p (record f { wf = moved h (some q) f.wf }) le m

  completed-later :
      (why : Text) (w : Workflow) {q : Phase}
      → next_phase w.track w.phase ≡ some q
      → (place w.phase < place (completed h why w).phase)
        × (is_misplaced (completed h why w).track (completed h why w).phase ≡ false)
  unfolding completed
  completed-later why w n = let (le, m) = next_phase-later w.track w.phase n in rw n (le, m)

  lock_next : (t : Track) → is_misplaced t lock ≡ false → next_phase t lock ≡ some build_phase
  unfolding next_phase
  lock_next prd_track m = refl
  lock_next plan_track m = cc

  complete_lock-Later :
      (why : Text) (f : Flow)
      → f.wf.phase ≡ lock
      → is_misplaced f.wf.track f.wf.phase ≡ false
      → Later lock (or_return (complete_phase h why f))
  unfolding complete_phase
  complete_lock-Later why f e m =
      let n : next_phase f.wf.track f.wf.phase ≡ some build_phase =
        subst (λ p. next_phase f.wf.track p ≡ some build_phase) (sym e)
          (lock_next f.wf.track (subst (λ p. is_misplaced f.wf.track p ≡ false) e m)) in
      let (le, placed) = completed-later why f.wf n in
      persist-Later lock (record f { wf = completed h why f.wf })
        (subst (λ p. place p < place (completed h why f.wf).phase) e le) placed

  locked_by-Later :
      (answer : ℕ × Bool) (f : Flow)
      → f.wf.phase ≡ lock
      → is_misplaced f.wf.track f.wf.phase ≡ false
      → Later lock (locked_by h answer f)
  locked_by-Later (code, ok) f e m = elim (Bool-cases (leb 300 code || not ok)) [
    | inl denied ↦
        rw denied
          (settle-IsEnough (fail h (codes "PRD lock failed (HTTP " ++ decimal code ++ codes ")") f))
    | inr good ↦ rw good (complete_lock-Later (codes "lock complete") f e m)
  ]

  lock_round-Later :
      (path : Text) (f : Flow)
      → f.wf.phase ≡ lock
      → is_misplaced f.wf.track f.wf.phase ≡ false
      → Later lock (lock_round h path f)
  unfolding lock_round
  lock_round-Later path f e m = elim (Bool-cases (is_empty path)) [
    | inl denied ↦
        rw denied (settle-IsEnough (fail h (codes "cannot lock: PRD path is not present") f))
    | inr good ↦ rw good (locked_by-Later (h.lock_prd f.wf.cwd path) f e m)
  ]

  child_round-IsEnough : (req : ChildRequest) (f : Flow) → IsEnough (child_round h req f)
  unfolding child_round
  child_round-IsEnough req f = elim (Bool-cases (is_empty f.wf.child_run)) [
    | inl free ↦ rw free (settle-IsEnough _)
    | inr busy ↦ rw busy tt
  ]

  verify_result-IsEnough : (f : Flow) (v : Verified) → IsEnough (verify_result h f v)
  verify_result-IsEnough f (refused why) = settle-IsEnough (fail h why f)
  verify_result-IsEnough f (verified e) = saved (
      complete_phase h (codes "verified completion")
        (record f { wf = record (f.wf) { evidence = some e } }))
    where
      saved : (fb : Flow × Bool) → IsEnough (save_done h fb)
      saved (g, true) = settle-IsEnough (persist h (record g { wf = now_done h g.wf }))
      saved (g, false) = tt

  -- A phase that a child runs.
  waiting-Later :
      (p : Phase) (req : ChildRequest) (f : Flow)
      → f.wf.phase ≡ p
      → Later p (
          if phase_done p f.wf.history
          then next_round h (next_phase f.wf.track p) f
          else returns (child_round h req f))
  waiting-Later p req f e = elim (Bool-cases (phase_done p f.wf.history)) [
    | inl over ↦ rw over (next_round-Later p (next_phase f.wf.track p) f refl)
    | inr still ↦ rw still (child_round-IsEnough req f)
  ]

  pub by_phase-Later :
      (p : Phase) (t : Target) (req : ChildRequest) (f : Flow)
      → f.wf.phase ≡ p
      → is_misplaced f.wf.track f.wf.phase ≡ false
      → Later p (by_phase h p t req f)
  unfolding verify_round
  by_phase-Later resolve t req f e m = transition-Later t f e
  by_phase-Later verifying t req f e m = verify_result-IsEnough f (verify h f.wf)
  by_phase-Later lock t req f e m = elim (Bool-cases (phase_done lock f.wf.history)) [
    | inl over ↦ rw over (next_round-Later lock (next_phase f.wf.track lock) f refl)
    | inr still ↦ rw still (lock_round-Later t.path f e m)
  ]
  by_phase-Later pickup t req f e m = waiting-Later pickup req f e
  by_phase-Later proto t req f e m = waiting-Later proto req f e
  by_phase-Later build_phase t req f e m = waiting-Later build_phase req f e
  by_phase-Later rplan t req f e m = waiting-Later rplan req f e
  by_phase-Later rplan_review t req f e m = waiting-Later rplan_review req f e
  by_phase-Later approved t req f e m = waiting-Later approved req f e
  by_phase-Later qa t req f e m = waiting-Later qa req f e
  by_phase-Later reviewer t req f e m = waiting-Later reviewer req f e
  by_phase-Later wrap t req f e m = waiting-Later wrap req f e
