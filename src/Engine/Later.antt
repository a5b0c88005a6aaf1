-- ===== src/Engine/Later.antt =====
-- What the operations of backend/usecase/buildengine.go leave of the runs and of the idempotency
-- keys, other than a spawn.
use saki_cli.Base.{
  ◌≡◌, refl, sym, subst, ◌∙◌, inl, inr, false, Option, none, some, arith, if◌then◌else◌, Bool-cases,
  Text, same, lookup, mapped, lookup-update, ℤ,
}
use saki_cli.Run.{is_running, Run}
use saki_cli.Store.{Runs, finalized, finalize_found, finalize}
use saki_cli.World.{log, modify, World, Effect}

-- What stands under an id afterwards: a run as long as there was one, of the same id, which does not
-- run again once it has ended.
abbrev pub Becomes : Option Run → Option Run → Type 0
Becomes none none = Unit
Becomes none (some r') = ⊥
Becomes (some r) none = ⊥
Becomes (some r) (some r') =
    (r'.id ≡ r.id) × (is_running r.status ≡ false → is_running r'.status ≡ false)

Becomes-refl : (o : Option Run) → Becomes o o
Becomes-refl none = tt
Becomes-refl (some r) = (refl, λ e. e)

Becomes-trans : (o p q : Option Run) → Becomes o p → Becomes p q → Becomes o q
Becomes-trans none none none a b = tt
Becomes-trans none none (some r) a b = absurd b
Becomes-trans none (some r) q a b = absurd a
Becomes-trans (some r) none q a b = absurd a
Becomes-trans (some r) (some s) none a b = absurd b
Becomes-trans (some r) (some s) (some t) (i, d) (j, e) = (j ∙ i, λ h. e (d h))

abbrev pub Follows : Runs → Runs → Type 0
Follows m m' = (id : Text) → Becomes (lookup id m) (lookup id m')

pub Follows-refl : (m : Runs) → Follows m m
Follows-refl m id = Becomes-refl (lookup id m)

pub Follows-trans : (l m n : Runs) → Follows l m → Follows m n → Follows l n
Follows-trans l m n a b id = Becomes-trans (lookup id l) (lookup id m) (lookup id n) (a id) (b id)

Follows-same : (m m' : Runs) → m' ≡ m → Follows m m'
Follows-same m m' e = subst (Follows m) (sym e) (Follows-refl m)

-- An update that keeps the id, and starts no run again.
abbrev pub Tame : (Run → Run) → Type 0
Tame f = (r : Run) → Becomes (some r) (some (f r))

pub modify-Follows :
    (id : Text) (f : Run → Run) (w : World) → Tame f → Follows w.runs (modify id f w).runs
modify-Follows id f w tame j = rw lookup-update (split (lookup j w.runs))
  where
    step : (o : Option Run) → Becomes o (mapped f o)
    step none = tt
    step (some r) = tame r

    split : (o : Option Run) → Becomes o (if same id j then mapped f o else o)
    split o = elim (Bool-cases (same id j)) [
      | inl hit ↦ rw hit (step o)
      | inr miss ↦ rw miss (Becomes-refl o)
    ]

finalized-Tame : (code : ℤ) → Tame (finalized code)
finalized-Tame code r = (refl, λ e. ground arith)

finalize_found-Follows :
    (id : Text) (code : ℤ) (o : Option Run) (w : World)
    → Follows w.runs (finalize_found id code o w.runs).0
finalize_found-Follows id code none w = Follows-refl w.runs
finalize_found-Follows id code (some r) w = elim (Bool-cases (is_running r.status)) [
  | inl live ↦ rw live (modify-Follows id (finalized code) w (finalized-Tame code))
  | inr dead ↦ rw dead (Follows-refl w.runs)
]

pub finalize-Follows :
    (id : Text) (code : ℤ) (w : World) → Follows w.runs (finalize id code w.runs).0
unfolding finalize
finalize-Follows id code w = finalize_found-Follows id code (lookup id w.runs) w

-- The keys are the same, and the runs go on.
pub record Kept (w w' : World) : Type 0 where
  pub keys : w'.idem ≡ w.idem
  pub runs_go_on : Follows w.runs w'.runs

pub Kept-refl : (w : World) → Kept w w
Kept-refl w = record { keys = refl; runs_go_on = Follows-refl w.runs }

pub Kept-trans : {u v w : World} → Kept u v → Kept v w → Kept u w
Kept-trans {u} {v} {w} a b = record {
  keys = b.keys ∙ a.keys;
  runs_go_on = Follows-trans u.runs v.runs w.runs a.runs_go_on b.runs_go_on;
}

pub modify-Kept : (id : Text) (f : Run → Run) (w : World) → Tame f → Kept w (modify id f w)
modify-Kept id f w tame = record { keys = refl; runs_go_on = modify-Follows id f w tame }

-- A step that changes neither.
pub still-Kept : (w w' : World) → w'.idem ≡ w.idem → w'.runs ≡ w.runs → Kept w w'
still-Kept w w' e r = record { keys = e; runs_go_on = Follows-same w.runs w'.runs r }

pub log-Kept : (x : Effect) (w : World) → Kept w (log x w)
log-Kept x w = still-Kept w (log x w) refl refl
