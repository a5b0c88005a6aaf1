-- ===== src/Engine/Routes.antt =====
-- What RehydrateBuilds of backend/usecase/buildengine.go makes of one build of the journal.
use saki_cli.Base.{
  ◌≡◌, refl, sym, ap, subst, ◌∙◌, ◌⊎◌, inl, inr, Bool, true, false, not, ◌&&◌, Option, none, some,
  arith, Bool-cases, Text, same_refl, lookup, update, mapped, lookup-update, minus_one, ℤ,
}
use saki_cli.Run.{is_running, is_build, kind_of, Run, RedriveCause, exit, interrupted}
use saki_cli.Store.{Runs, finalize}
use saki_cli.Store.Finalize.{finalize_one, lookup-finalize}
use saki_cli.World.{modify, World, Host}
use saki_cli.Engine.Spawn.{record_idem}
use saki_cli.Engine.Exit.{
  can_finalize, begin_finalizing, end_finalizing, finalize_inner, finalize_begun, finalize_with,
  finalize_survived,
}
use saki_cli.Engine.Watch.{
  or_minus_one, seed, record_original, route_survived, rehydrate_build, RehydratedRun,
}
use saki_cli.Engine.Later.{Becomes, modify-Follows, Kept-trans, Kept}
use saki_cli.Engine.After.{finalize_inner-Kept, end_finalizing-Kept, finalize_with-Kept}
use saki_cli.Engine.Apart.{
  Named, Named-Follows, Apart-trans, still-Apart, modify-Apart, finalize_with-Apart, Apart,
}

still_ended : (o o' : Option Run) → Becomes o o' → can_finalize o ≡ false → can_finalize o' ≡ false
still_ended none none b e = refl
still_ended none (some r') b e = absurd b
still_ended (some r) none b e = absurd b
still_ended (some r) (some r') (_, ends) e = ends e

finalized_ended : (code : ℤ) (o : Option Run) → can_finalize (mapped (finalize_one code) o) ≡ false
finalized_ended code none = refl
finalized_ended code (some r) = ground arith

module _ (h : Host) where
  finalize_begun_ended :
      (id : Text) (c : Run → RedriveCause) (code : ℤ) (w : World)
      → can_finalize (lookup id (finalize_begun h id c code (w, true)).runs) ≡ false
  finalize_begun_ended id c code w =
      let mb = finalize id code w.runs in
      let w1 = record w { runs = mb.0 } in
      let w2 = finalize_inner h id c mb w in
      let kept : Kept w1 (end_finalizing id w2) =
        Kept-trans (finalize_inner-Kept h id c mb w) (end_finalizing-Kept h id w2) in
      still_ended (lookup id mb.0) (lookup id (end_finalizing id w2).runs) (kept.runs_go_on id)
        (ap can_finalize (lookup-finalize id code w.runs) ∙ finalized_ended code (lookup id w.runs))

  -- After its end a build does not run.
  finalize_with_ended :
      (id : Text) (c : Run → RedriveCause) (code : ℤ) (w : World)
      → can_finalize (lookup id (finalize_with h id c code w).runs) ≡ false
  unfolding finalize_with begin_finalizing
  finalize_with_ended id c code w = elim (Bool-cases (can_finalize (lookup id w.runs))) [
    | inl live ↦ rw live (finalize_begun_ended id c code _)
    | inr dead ↦ rw dead dead
  ]

  -- A build that is journaled as running, and whether its process is there and has not ended.
  abbrev pub was_running : RehydratedRun → Bool
  was_running rr = is_build (kind_of rr.run) && is_running rr.run.status

  abbrev pub survives : RehydratedRun → Bool
  survives rr = not rr.has_exit && rr.pid_alive

  -- The stores before and after, at a build of the journal: one that does not run stays as it is,
  -- one that survives stays as it is with a new baseline for its activity, any other does not run.
  abbrev pub Routed : Runs → Runs → RehydratedRun → Type 0
  Routed m m' rr =
      ((was_running rr ≡ false) × (lookup rr.run.id m' ≡ lookup rr.run.id m))
      ⊎ ((was_running rr ≡ true)
          × (survives rr ≡ true)
          × (lookup rr.run.id m' ≡ mapped (seed h.now (h.out_size rr.run.id)) (lookup rr.run.id m)))
      ⊎ ((was_running rr ≡ true)
          × (survives rr ≡ false)
          × (can_finalize (lookup rr.run.id m') ≡ false))

  record_original-runs :
      (key : Option Text) (run : Run) (w : World) → (record_original h key run w).runs ≡ w.runs
  unfolding record_idem
  record_original-runs none run w = refl
  record_original-runs (some key) run w = ground arith

  -- The store keeps its names, the runs under other ids stay as they are, and the build is routed.
  pub record Routes (rr : RehydratedRun) (w w' : World) : Type 0 where
    pub named : Named w'.runs
    pub apart : Apart rr.run.id w w'
    pub routed : Routed w.runs w'.runs rr

  seeded_named :
      (id : Text) (w : World) → Named w.runs → Named (update id (seed h.now (h.out_size id)) w.runs)
  seeded_named id w named =
      Named-Follows w.runs _
        (modify-Follows id (seed h.now (h.out_size id)) w (λ r. (refl, λ e. e))) named

  ended-Routes :
      (rr : RehydratedRun) (c : RedriveCause) (code : ℤ) (w : World)
      → Named w.runs
      → was_running rr ≡ true
      → survives rr ≡ false
      → Routes rr w (
          finalize_survived h rr.run.id c code
            (modify rr.run.id (seed h.now (h.out_size rr.run.id)) w))
  unfolding finalize_survived
  ended-Routes rr c code w named was gone =
      let id = rr.run.id in
      let w1 = modify id (seed h.now (h.out_size id)) w in
      let named' = seeded_named id w named in
      let kept = finalize_with-Kept h id (λ _. c) code w1 in
      record {
        named =
            Named-Follows w1.runs (finalize_with h id (λ _. c) code w1).runs kept.runs_go_on named';
        apart =
            Apart-trans (modify-Apart id (seed h.now (h.out_size id)) w)
              (finalize_with-Apart h id (λ _. c) code w1 named');
        routed = inr (inr (was, gone, finalize_with_ended id (λ _. c) code w1));
      }

  route_survived-Routes :
      (rr : RehydratedRun) (w : World)
      → Named w.runs
      → was_running rr ≡ true
      → Routes rr w (route_survived h rr w)
  route_survived-Routes rr w named was =
      let id = rr.run.id in
      let w1 = modify id (seed h.now (h.out_size id)) w in
      elim (Bool-cases rr.has_exit) [
        | inl over ↦ routes_as (rw over refl) (
            ended-Routes rr (exit (some (or_minus_one rr.exit_code))) (or_minus_one rr.exit_code) w
              named was (rw over refl))
        | inr no_exit ↦ elim (Bool-cases rr.pid_alive) [
          | inr dead ↦
              routes_as (rw (no_exit, dead) refl)
                (ended-Routes rr interrupted minus_one w named was (rw (no_exit, dead) refl))
          | inl alive ↦ routes_as (rw (no_exit, alive) refl) (record {
            named = seeded_named id w named;
            apart = modify-Apart id (seed h.now (h.out_size id)) w;
            routed =
                inr (inl (was, rw (no_exit, alive) refl, rw lookup-update (rw same_refl refl)));
          })
        ]
      ]
    where
      routes_as :
          {v : World}
          → route_survived h rr w ≡ v
          → Routes rr w v
          → Routes rr w (route_survived h rr w)
      routes_as e r = subst (Routes rr w) (sym e) r

  idle-Routes :
      (rr : RehydratedRun) (w w' : World)
      → Named w.runs
      → w'.runs ≡ w.runs
      → was_running rr ≡ false
      → Routes rr w w'
  idle-Routes rr w w' named e idle = record {
    named = subst Named (sym e) named;
    apart = still-Apart rr.run.id w w' e;
    routed = inl (idle, ap (lookup rr.run.id) e);
  }

  recorded-Routes :
      (rr : RehydratedRun) (u w w' : World) → u.runs ≡ w.runs → Routes rr u w' → Routes rr w w'
  recorded-Routes rr u w w' e r = record {
    named = r.named;
    apart = Apart-trans (still-Apart rr.run.id w u e) r.apart;
    routed = subst (λ m. Routed m w'.runs rr) e r.routed;
  }

  pub rehydrate_build-Routes :
      (rr : RehydratedRun) (w : World) → Named w.runs → Routes rr w (rehydrate_build h rr w)
  unfolding rehydrate_build
  rehydrate_build-Routes rr w named =
      let w1 = record_original h rr.run.idempotency_key rr.run w in
      let e = record_original-runs rr.run.idempotency_key rr.run w in
      elim (Bool-cases (is_build (kind_of rr.run))) [
        | inr other ↦ routes_as (rw other refl) (idle-Routes rr w w named refl (rw other refl))
        | inl of_build ↦ elim (Bool-cases (is_running rr.run.status)) [
          | inr over ↦
              routes_as (rw (of_build, over) refl)
                (idle-Routes rr w w1 named e (rw (of_build, over) refl))
          | inl live ↦ routes_as (rw (of_build, live) refl) (
              recorded-Routes rr w1 w (route_survived h rr w1) e (
                route_survived-Routes rr w1 (subst Named (sym e) named) (rw (of_build, live) refl)))
        ]
      ]
    where
      routes_as :
          {v : World}
          → rehydrate_build h rr w ≡ v
          → Routes rr w v
          → Routes rr w (rehydrate_build h rr w)
      routes_as e r = subst (Routes rr w) (sym e) r
