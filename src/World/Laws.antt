-- ===== src/World/Laws.antt =====
-- What the steps that every service makes of the world leave alone.
use saki_cli.Base.{◌≡◌, arith, Text}
use saki_cli.Run.{Run}
use saki_cli.World.{write, rejournal, breadcrumb, World, Host}

module _ (h : Host) where
  pub write-runs : (r : Run) (w : World) → (write h r w).0.runs ≡ w.runs
  unfolding write
  write-runs r w = ground arith

  pub write-effects : (r : Run) (w : World) → (write h r w).0.effects ≡ w.effects
  unfolding write
  write-effects r w = ground arith

  pub rejournal-runs : (id : Text) (w : World) → (rejournal h id w).runs ≡ w.runs
  unfolding rejournal
  rejournal-runs id w = ground arith

  pub rejournal-effects : (id : Text) (w : World) → (rejournal h id w).effects ≡ w.effects
  unfolding rejournal
  rejournal-effects id w = ground arith

  pub rejournal-outs : (id : Text) (w : World) → (rejournal h id w).outs ≡ w.outs
  unfolding rejournal
  rejournal-outs id w = ground arith

  pub breadcrumb-runs : (id t : Text) (w : World) → (breadcrumb h id t w).runs ≡ w.runs
  unfolding breadcrumb
  breadcrumb-runs id t w = ground arith

  pub breadcrumb-effects : (id t : Text) (w : World) → (breadcrumb h id t w).effects ≡ w.effects
  unfolding breadcrumb
  breadcrumb-effects id t w = ground arith

pub ruleset quiet = (
  write-runs, write-effects, rejournal-runs, rejournal-effects, breadcrumb-runs, breadcrumb-effects,
)
