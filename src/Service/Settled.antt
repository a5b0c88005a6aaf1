-- ===== src/Service/Settled.antt =====
-- The poll of backend/usecase/reaper.go, and the end of a run that it waits for.
use saki_cli.Base.{
  ◌≡◌, refl, subst, ◌⊎◌, inl, inr, true, false, Option, none, some, arith, Bool-cases, Text, lookup,
  mapped, minus_one, ℤ,
}
use saki_cli.Run.{Run}
use saki_cli.Store.{Runs, finalize}
use saki_cli.Store.Finalize.{finalize_one, lookup-finalize}
use saki_cli.World.{World, Host}
use saki_cli.World.Laws.{rejournal-runs}
use saki_cli.Engine.Exit.{can_finalize}
use saki_cli.Engine.Watch.{or_minus_one, TerminalState, Poll, finished, waits}
use saki_cli.Service.Lifecycle.{exit_observed, reap_terminal, reap_tick}

module _ (h : Host) (id : Text) where
  finalize-ended : (code : ℤ) (m : Runs) → can_finalize (lookup id (finalize id code m).0) ≡ false
  finalize-ended code m = rw lookup-finalize (one_ended (lookup id m))
    where
      one_ended : (o : Option Run) → can_finalize (mapped (finalize_one code) o) ≡ false
      one_ended none = refl
      one_ended (some r) = ground arith

  exit_observed-ended :
      (code : ℤ) (w : World) → can_finalize (lookup id (exit_observed h id code w).runs) ≡ false
  unfolding exit_observed
  exit_observed-ended code w = rw rejournal-runs (finalize-ended code w.runs)

  -- A poll that goes on, or has found the run ended or gone.
  abbrev Ended : Poll → Type 0
  Ended (finished w) = can_finalize (lookup id w.runs) ≡ false
  Ended (waits w) = Unit

  reap_tick-Ended : (t : TerminalState) (w : World) → Ended (reap_tick h id t w)
  unfolding reap_tick
  reap_tick-Ended t w = elim (Bool-cases (can_finalize (lookup id w.runs))) [
    | inr over ↦ rw over over
    | inl going ↦ rw going (by_state (Bool-cases t.has_exit) (Bool-cases t.alive))
  ]
    where
      by_state :
          (t.has_exit ≡ true) ⊎ (t.has_exit ≡ false)
          → (t.alive ≡ true) ⊎ (t.alive ≡ false)
          → Ended (reap_terminal h id t w)
      by_state (inl exited) _ = rw exited (exit_observed-ended (or_minus_one t.exit_code) w)
      by_state (inr no_exit) (inl breathing) = rw (no_exit, breathing) tt
      by_state (inr no_exit) (inr gone) = rw (no_exit, gone) (exit_observed-ended minus_one w)

  -- The reaper's poll of a run stops only when the run has ended, or is gone.
  pub reap_tick-ended :
      (t : TerminalState) (w : World) {w' : World}
      → reap_tick h id t w ≡ finished w'
      → can_finalize (lookup id w'.runs) ≡ false
  reap_tick-ended t w e = subst Ended e (reap_tick-Ended t w)
