-- ===== src/Engine/Stall.antt =====
-- The stall watchdog of backend/usecase/buildengine.go (sweepRun).
use saki_cli.Base.{
  ℕ, ◌+◌, ◌≤◌, ◌≡◌, refl, inl, inr, true, Option, none, some, ◌∷◌, arith, ltb, Bool-cases, ℤ,
}
use saki_cli.Run.{is_running, is_build, kind_of, Run}
use saki_cli.World.{World, Host, terminated, killed}
use saki_cli.Engine.Watch.{group_of, stall_quiet, stall_group, sweep_run}
use saki_cli.World.Laws.{breadcrumb-effects}
use saki_cli.Engine.Config.{stall_sigkill_grace_ms}

-- What every signal of the watchdog needs: a running build whose process is alive, and that has
-- written nothing since it was last looked at.
pub record IsHung (h : Host) (run : Run) (p : ℤ) : Type 0 where
  pub still_running : is_running run.status ≡ true
  pub is_a_build : is_build (kind_of run) ≡ true
  pub group : group_of run.pid ≡ some p
  pub alive : h.alive p ≡ true
  pub silent : h.out_size run.id ≤ run.last_out_size

module _ (h : Host) (run : Run) where
  -- One outcome for each branch, by the effects that it adds.
  pub data Watched (w w' : World) : Type 0 where
    left_alone : w'.effects ≡ w.effects → Watched w w'
    asked_to_stop :
        (p : ℤ)
        → IsHung h run p
        → run.stall_killed_at ≡ none
        → run.last_activity_at + h.cfg.stall_ms ≤ h.now
        → w'.effects ≡ terminated p ∷ w.effects
        → Watched w w'
    forced :
        (p : ℤ) (t : ℕ)
        → IsHung h run p
        → run.stall_killed_at ≡ some t
        → t + 30000 ≤ h.now
        → w'.effects ≡ killed p ∷ w.effects
        → Watched w w'

  stall_quiet-Watched :
      (p : ℤ) (s : Option ℕ) (w : World)
      → IsHung h run p
      → run.stall_killed_at ≡ s
      → Watched w (stall_quiet h s run p w)
  stall_quiet-Watched p none w hung e =
      elim (Bool-cases (ltb h.now (run.last_activity_at + h.cfg.stall_ms))) [
        | inl early ↦ rw early (left_alone refl)
        | inr late ↦ rw late (asked_to_stop p hung e (ground (arith, late)) (rw breadcrumb-effects))
      ]
  stall_quiet-Watched p (some t) w hung e =
      elim (Bool-cases (ltb h.now (t + stall_sigkill_grace_ms))) [
        | inl early ↦ rw early (left_alone refl)
        | inr late ↦ rw late (forced p t hung e (ground (arith, late)) refl)
      ]

  stall_group-Watched :
      (o : Option ℤ) (w : World)
      → is_running run.status ≡ true
      → is_build (kind_of run) ≡ true
      → group_of run.pid ≡ o
      → Watched w (stall_group h run o w)
  stall_group-Watched none w live kind e = left_alone refl
  stall_group-Watched (some p) w live kind e = elim (Bool-cases (h.alive p)) [
    | inr dead ↦ rw dead (left_alone refl)
    | inl at_work ↦ elim (Bool-cases (ltb run.last_out_size (h.out_size run.id))) [
      | inl fresh ↦ rw (at_work, fresh) (left_alone refl)
      | inr quiet_now ↦
          let hung : IsHung h run p = record {
            still_running = live;
            is_a_build = kind;
            group = e;
            alive = at_work;
            silent = ground (arith, quiet_now);
          } in
          rw (at_work, quiet_now) (stall_quiet-Watched p run.stall_killed_at w hung refl)
    ]
  ]

  -- The watchdog signals a process only if it belongs to a running build, is alive and has written
  -- nothing new: first a SIGTERM, after the configured silence; a SIGKILL only where a SIGTERM went
  -- out 30 seconds ago or more. In every other case it signals nobody.
  pub sweep_run-Watched : (w : World) → Watched w (sweep_run h run w)
  unfolding sweep_run
  sweep_run-Watched w = elim (Bool-cases (is_running run.status)) [
    | inr dead ↦ rw dead (left_alone refl)
    | inl live ↦ elim (Bool-cases (is_build (kind_of run))) [
      | inr other ↦ rw (live, other) (left_alone refl)
      | inl kind ↦ rw (live, kind) (stall_group-Watched (group_of run.pid) w live kind refl)
    ]
  ]
