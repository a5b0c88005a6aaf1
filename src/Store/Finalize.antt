-- ===== src/Store/Finalize.antt =====
-- The first-write-wins rule of Finalize in backend/infra/memstore.go.
use saki_cli.Base.{
  ◌≡◌, refl, inl, inr, false, Option, none, some, arith, if◌then◌else◌, Bool-cases, Text, same_refl,
  lookup, mapped, lookup-update, ℤ,
}
use saki_cli.Run.{is_running, Run}
use saki_cli.Store.{Runs, finalized, finalize_found, finalize}

-- What Finalize does to a run that it finds.
abbrev pub finalize_one : ℤ → Run → Run
finalize_one code r = if is_running r.status then finalized code r else r

finalize_found-runs :
    (id : Text) (code : ℤ) (o : Option Run) (m : Runs)
    → lookup id m ≡ o
    → lookup id (finalize_found id code o m).0 ≡ mapped (finalize_one code) o
finalize_found-runs id code none m e = e
finalize_found-runs id code (some r) m e = elim (Bool-cases (is_running r.status)) [
  | inl live ↦ rw live (rw (lookup-update, same_refl, e))
  | inr dead ↦ rw dead e
]

pub lookup-finalize :
    (id : Text) (code : ℤ) (m : Runs)
    → lookup id (finalize id code m).0 ≡ mapped (finalize_one code) (lookup id m)
unfolding finalize
lookup-finalize id code m = finalize_found-runs id code (lookup id m) m refl

one_code :
    (id : Text) (code code' : ℤ) (o : Option Run) (m : Runs)
    → finalize_found id code' (mapped (finalize_one code) o) m ≡ (m, false)
one_code id code code' none m = refl
one_code id code code' (some r) m = ground arith

-- The first exit code wins: a second Finalize of the run, with any code, changes nothing and says
-- so, whether the first one found a running run, a finished one or none.
pub finalize_twice :
    (id : Text) (code code' : ℤ) (m : Runs)
    → finalize id code' (finalize id code m).0 ≡ ((finalize id code m).0, false)
unfolding finalize
finalize_twice id code code' m =
    rw (lookup-finalize id code m) (one_code id code code' (lookup id m) _)

-- Finalize tells the truth: it reports a transition exactly where a run of that id was running.
pub finalize_reports :
    (id : Text) (code : ℤ) (m : Runs)
    → (finalize id code m).1 ≡ elim (lookup id m) [ none ↦ false | some r ↦ is_running r.status ]
unfolding finalize
finalize_reports id code m = ground arith
