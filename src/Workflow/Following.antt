-- ===== src/Workflow/Following.antt =====
-- findBuildSuccessor of backend/usecase/workflow.go on a store of named runs.
use Prim.Native.Nat.{ℕ, ◌≤◌}
use saki_cli.Workflow.Child.{is_build_phase}
use saki_cli.Base.{
  ◌≡◌, refl, sym, ap, subst, ◌⊎◌, inl, inr, true, false, ◌&&◌, Option, none, some, List, [], ◌∷◌,
  arith, ltb, Bool-cases, is_some, Text, same, same_iff, All, lookup, values,
}
use saki_cli.Run.{Run}
use saki_cli.Store.{Runs}
use saki_cli.Workflow.Observe.{same_chain, best_successor, find_build_successor}
use saki_cli.Workflow.{Workflow}

-- Each run of the store is found under its own id.
abbrev pub IsNamed : Runs → Type 0
IsNamed m = All (λ r. lookup r.id m ≡ some r) (values m)

-- What holds of all runs holds of one that is looked up.
pub lookup-All :
    (P : Run → Type 0) (k : Text) (m : Runs) {r : Run}
    → All P (values m)
    → lookup k m ≡ some r
    → P r
unfolding lookup values
lookup-All P k [] a e = cc
lookup-All P k ((j, x) ∷ m) (p, a) e = elim (Bool-cases (same j k)) [
  | inl hit ↦ subst P (cc (rw hit at e)) p
  | inr miss ↦ lookup-All P k m a (rw miss at e)
]

some_count : (x y : Run) → some x ≡ some y → y.resume_count ≡ x.resume_count
some_count x y d = let e : y ≡ x = cc in ap (λ (z : Run). z.resume_count) e

module _ (lane : Text) (pred : Run) where
  -- What holds of every later turn holds of the one that is found.
  best_successor-All :
      (P : Run → Type 0) (most : ℕ) (best : Option Run) (rs : List Run) {r : Run}
      → All (λ x. same_chain lane pred x ≡ true → P x) rs
      → ((b : Run) → best ≡ some b → P b)
      → best_successor lane pred most best rs ≡ some r
      → P r
  unfolding best_successor
  best_successor-All P most best [] a b e = b _ e
  best_successor-All P most best (x ∷ rs) (p, a) b e =
      elim (Bool-cases (same_chain lane pred x && ltb most x.resume_count)) [
        | inl taken ↦
            best_successor-All P x.resume_count (some x) rs a
              (λ y d. subst P (cc d) (p (ground (arith, taken)))) (rw taken at e)
        | inr passed ↦ best_successor-All P most best rs a b (rw passed at e)
      ]

  -- No turn of the chain is later than the one that is found.
  best_successor-max :
      (most : ℕ) (best : Option Run) (rs : List Run) {r : Run}
      → ((b : Run) → best ≡ some b → b.resume_count ≡ most)
      → best_successor lane pred most best rs ≡ some r
      → (most ≤ r.resume_count)
        × All (λ x. same_chain lane pred x ≡ true → x.resume_count ≤ r.resume_count) rs
  unfolding best_successor
  best_successor-max most best [] {r} b e = (omega (arith, b r e), tt)
  best_successor-max most best (x ∷ rs) {r} b e =
      elim (Bool-cases (same_chain lane pred x && ltb most x.resume_count)) [
        | inl taken ↦
            let (le, a) =
              best_successor-max x.resume_count (some x) rs (λ y d. some_count x y d)
                (rw taken at e) in
            (ground (arith, taken, le), ((λ c. le), a))
        | inr passed ↦
            let (le, a) = best_successor-max most best rs b (rw passed at e) in
            (le, ((λ c. ground (arith, passed, le, c)), a))
      ]

  best_successor-none :
      (most : ℕ) (rs : List Run)
      → All (λ x. (same_chain lane pred x && ltb most x.resume_count) ≡ false) rs
      → best_successor lane pred most none rs ≡ none
  unfolding best_successor
  best_successor-none most [] a = refl
  best_successor-none most (x ∷ rs) (p, a) = rw p (best_successor-none most rs a)

same_trans : (a b c : Text) → same a b ≡ true → same b c ≡ true → same a c ≡ true
same_trans a b c h g = subst (λ x. same a x ≡ true) ((same_iff b c).0 g) h

-- A turn of the later one is a turn of the earlier one, or that one itself.
chain_trans :
    (lane : Text) (pred r x : Run)
    → same_chain lane pred r ≡ true
    → same_chain lane r x ≡ true
    → (same x.id pred.id ≡ true) ⊎ (same_chain lane pred x ≡ true)
chain_trans lane pred r x a b = elim (Bool-cases (same x.id pred.id)) [
  | inl self ↦ inl self
  | inr other ↦ inr (ground (arith, other, same_trans x.prompt r.prompt pred.prompt))
]

both-All :
    {P Q R : Run → Type 0} (xs : List Run)
    → ((x : Run) → P x → Q x → R x)
    → All P xs
    → All Q xs
    → All R xs
both-All [] f a b = tt
both-All (x ∷ xs) f (p, a) (q, b) = (f x p q, both-All xs f a b)

same_run :
    (m : Runs) (x y : Run)
    → same x.id y.id ≡ true
    → lookup x.id m ≡ some x
    → lookup y.id m ≡ some y
    → x ≡ y
same_run m x y e a b = let c = subst (λ i. lookup i m ≡ some x) ((same_iff x.id y.id).0 e) a in cc

-- No run is a turn behind the last one.
turn_beaten :
    (lane : Text) (m : Runs) (pred r x : Run)
    → same_chain lane pred r ≡ true
    → pred.resume_count ≤ r.resume_count
    → lookup pred.id m ≡ some pred
    → lookup x.id m ≡ some x
    → (same_chain lane pred x ≡ true → x.resume_count ≤ r.resume_count)
    → (same_chain lane r x && ltb r.resume_count x.resume_count) ≡ false
turn_beaten lane m pred r x chain le at of_x most = elim (Bool-cases (same_chain lane r x)) [
  | inr other ↦ rw other refl
  | inl behind ↦ elim (chain_trans lane pred r x chain behind) [
    | inl self ↦
        let e = ap (λ (z : Run). z.resume_count) (same_run m x pred self of_x at) in
        ground (arith, e, le)
    | inr turn ↦ ground (arith, most turn)
  ]
]

found_turn :
    (w : Workflow) (pred : Run) (rs : List Run) {r : Run}
    → find_build_successor w pred rs ≡ some r
    → best_successor w.lane_key pred pred.resume_count none rs ≡ some r
unfolding find_build_successor
found_turn w pred rs e = elim (Bool-cases (is_build_phase w.phase && is_some pred.meta)) [
  | inl open_phase ↦ rw open_phase at e
  | inr closed ↦ cc (rw closed at e)
]

-- The last turn has no successor.
pub last_turn :
    (m : Runs) (w v : Workflow) (pred : Run) {r : Run}
    → IsNamed m
    → lookup pred.id m ≡ some pred
    → find_build_successor w pred (values m) ≡ some r
    → v.lane_key ≡ w.lane_key
    → find_build_successor v r (values m) ≡ none
unfolding find_build_successor
last_turn m w v pred {r} named at e same_lane =
    let turn = found_turn w pred (values m) e in
    let (le, most) =
      best_successor-max w.lane_key pred pred.resume_count none (values m) (λ b d. cc) turn in
    let chain =
      best_successor-All w.lane_key pred (λ x. same_chain w.lane_key pred x ≡ true)
        pred.resume_count none (values m) (each_self (values m)) (λ b d. cc) turn in
    elim (Bool-cases (is_build_phase v.phase && is_some r.meta)) [
      | inr closed ↦ rw closed refl
      | inl open_phase ↦ rw open_phase (
          subst (λ l. best_successor l r r.resume_count none (values m) ≡ none) (sym same_lane)
            (best_successor-none w.lane_key r r.resume_count (values m) (
              both-All (values m) (λ x. turn_beaten w.lane_key m pred r x chain le at) named most)))
    ]
  where
    each_self :
        (rs : List Run)
        → All (λ x. same_chain w.lane_key pred x ≡ true → same_chain w.lane_key pred x ≡ true) rs
    each_self [] = tt
    each_self (x ∷ rs) = ((λ c. c), each_self rs)

-- The last turn is found under its id.
pub turn_named :
    (m : Runs) (w : Workflow) (pred : Run) {r : Run}
    → IsNamed m
    → find_build_successor w pred (values m) ≡ some r
    → lookup r.id m ≡ some r
turn_named m w pred named e =
    best_successor-All w.lane_key pred (λ x. lookup x.id m ≡ some x) pred.resume_count none
      (values m) (weaken (values m) named) (λ b d. cc) (found_turn w pred (values m) e)
  where
    weaken :
        (rs : List Run)
        → All (λ x. lookup x.id m ≡ some x) rs
        → All (λ x. same_chain w.lane_key pred x ≡ true → lookup x.id m ≡ some x) rs
    weaken [] a = tt
    weaken (x ∷ rs) (p, a) = ((λ c. p), weaken rs a)
