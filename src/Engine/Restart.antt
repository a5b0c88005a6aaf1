-- ===== src/Engine/Restart.antt =====
-- RehydrateBuilds of backend/usecase/buildengine.go over all builds of the journal.
use saki_cli.Base.{
  ◌≡◌, refl, sym, ap, ◌∙◌, inl, inr, false, List, [], ◌∷◌, arith, Bool-cases, Text, same, same_iff,
  All, lookup, mapped,
}
use saki_cli.Run.{Run}
use saki_cli.Store.{Runs}
use saki_cli.World.{World, Host}
use saki_cli.Engine.Exit.{can_finalize}
use saki_cli.Engine.Watch.{seed, rehydrate_build, rehydrate_builds, RehydratedRun}
use saki_cli.Engine.Fire.{spawns}
use saki_cli.Engine.Boot.{rehydrate_builds-spawns}
use saki_cli.Engine.Replay.{Keyed}
use saki_cli.Engine.Apart.{Named, Apart}
use saki_cli.Engine.Routes.{Routed, rehydrate_build-Routes}

Keyed-Named : (m : Runs) → Keyed m → Named m
unfolding lookup
Keyed-Named [] k id r e = cc
Keyed-Named ((j, x) ∷ m) (of_id, k) id r e = elim (Bool-cases (same j id)) [
  | inl hit ↦
      let one : x ≡ r = cc (rw hit at e) in
      ap (λ (y : Run). y.id) (sym one) ∙ of_id ∙ (same_iff j id).0 hit
  | inr miss ↦ Keyed-Named m k id r (rw miss at e)
]

turned : (a b : Text) → same a b ≡ false → same b a ≡ false
turned a b e = ground (arith, e, same_iff a b, same_iff b a)

module _ (h : Host) where
  -- Each id stands in the list once.
  abbrev pub Once : List RehydratedRun → Type 0
  Once [] = Unit
  Once (rr ∷ rs) = All (λ s. same rr.run.id s.run.id ≡ false) rs × Once rs

  others_apart :
      (id : Text) (rs : List RehydratedRun) (w : World)
      → Named w.runs
      → All (λ s. same id s.run.id ≡ false) rs
      → lookup id (rehydrate_builds h rs w).runs ≡ lookup id w.runs
  unfolding rehydrate_builds
  others_apart id [] w named a = refl
  others_apart id (s ∷ rs) w named (other, a) =
      let r = rehydrate_build-Routes h s w named in
      others_apart id rs (rehydrate_build h s w) r.named a
      ∙ r.apart.others id (turned id s.run.id other)

  Routed-from :
      (rr : RehydratedRun) (l m n : Runs)
      → lookup rr.run.id m ≡ lookup rr.run.id l
      → Routed h m n rr
      → Routed h l n rr
  Routed-from rr l m n e (inl (idle, same_run)) = inl (idle, same_run ∙ e)
  Routed-from rr l m n e (inr (inl (was, lives, seeded))) =
      inr (inl (was, lives, seeded ∙ ap (mapped (seed h.now (h.out_size rr.run.id))) e))
  Routed-from rr l m n e (inr (inr r)) = inr (inr r)

  Routed-to :
      (rr : RehydratedRun) (l m n : Runs)
      → lookup rr.run.id n ≡ lookup rr.run.id m
      → Routed h l m rr
      → Routed h l n rr
  Routed-to rr l m n e (inl (idle, same_run)) = inl (idle, e ∙ same_run)
  Routed-to rr l m n e (inr (inl (was, lives, seeded))) = inr (inl (was, lives, e ∙ seeded))
  Routed-to rr l m n e (inr (inr (was, gone, ended))) =
      inr (inr (was, gone, ap can_finalize e ∙ ended))

  All-Routed-from :
      (id : Text) (rs : List RehydratedRun) (w w1 : World) (n : Runs)
      → Apart id w w1
      → All (λ s. same id s.run.id ≡ false) rs
      → All (Routed h w1.runs n) rs
      → All (Routed h w.runs n) rs
  All-Routed-from id [] w w1 n apart a rest = tt
  All-Routed-from id (s ∷ rs) w w1 n apart (other, a) (r, rest) = (
    Routed-from s w.runs w1.runs n (apart.others s.run.id other) r,
    All-Routed-from id rs w w1 n apart a rest,
  )

  All-Routed :
      (rs : List RehydratedRun) (w : World)
      → Named w.runs
      → Once rs
      → All (Routed h w.runs (rehydrate_builds h rs w).runs) rs
  unfolding rehydrate_builds
  All-Routed [] w named once = tt
  All-Routed (rr ∷ rs) w named (a, once) =
      let w1 = rehydrate_build h rr w in
      let n = (rehydrate_builds h rs w1).runs in
      let r = rehydrate_build-Routes h rr w named in
      (
        Routed-to rr w.runs w1.runs n (others_apart rr.run.id rs w1 r.named a) r.routed,
        All-Routed-from rr.run.id rs w w1 n r.apart a (All-Routed rs w1 r.named once),
      )

  -- A restart over the builds of a journal, where each id stands once and each run of the store has
  -- its own, spawns no process. A build that was running and whose process is alive without an exit
  -- stays in the store as it is, but for a new baseline of its activity; one that was running and
  -- has an exit code or no process does not run afterwards; any other stays as it is.
  pub rehydrate_builds-Routed :
      (rs : List RehydratedRun) (w : World)
      → Keyed w.runs
      → Once rs
      → All (Routed h w.runs (rehydrate_builds h rs w).runs) rs
        × (spawns (rehydrate_builds h rs w) ≡ spawns w)
  rehydrate_builds-Routed rs w keyed once =
      (All-Routed rs w (Keyed-Named w.runs keyed) once, rehydrate_builds-spawns h rs w)
