-- ===== src/Engine/Between.antt =====
-- What happens to a build in backend/usecase/buildengine.go between two requests: its process exits,
-- it is stopped, its push ends, the poll of a survived one ticks.
use saki_cli.Base.{
  refl, inl, inr, Bool, true, false, Option, none, some, if◌then◌else◌, Bool-cases, is_some, Text,
  lookup, minus_one, ℤ, pos,
}
use saki_cli.Run.{is_running, Run, exit, interrupted}
use saki_cli.Store.{finalize}
use saki_cli.World.{modify, breadcrumb, PushResult, World, Host, terminated}
use saki_cli.Engine.Breadcrumb.{cancelled, push_result_line}
use saki_cli.Engine.Exit.{can_finalize, cause_of_exit, push_finished, on_exit, finalize_survived}
use saki_cli.Engine.Watch.{
  group_of, signal_term, request_stop, or_minus_one, polled, stop_signalled, stop_running,
  stop_found, stop_looked, stop, watch_terminal, watch_tick, TerminalState, Poll,
}
use saki_cli.Engine.Later.{finalize-Follows, Kept-refl, Kept-trans, modify-Kept, log-Kept, Kept}
use saki_cli.Engine.After.{rejournal-Kept, breadcrumb-Kept, finalize_with-Kept}

module _ (h : Host) where
  stop_running-Kept : (id : Text) (run : Run) (w : World) → Kept w (stop_running h id run w)
  stop_running-Kept id run w =
      let w1 = stop_signalled h id run w in
      let w2 = record w1 { runs = (finalize id (pos 143) w1.runs).0 } in
      let marked : Kept w (modify id request_stop w) =
        modify-Kept id request_stop w (λ r. (refl, λ e. e)) in
      let ended : Kept w1 w2 = record {
        keys = refl;
        runs_go_on = finalize-Follows id (pos 143) w1;
      } in
      Kept-trans marked (
        Kept-trans (signal_term-Kept (group_of run.pid) (modify id request_stop w))
          (Kept-trans ended (rejournal-Kept h id w2)))
    where
      signal_term-Kept : (p : Option ℤ) (u : World) → Kept u (signal_term p u)
      signal_term-Kept none u = Kept-refl u
      signal_term-Kept (some p) u = log-Kept (terminated p) u

  stop_found-Kept : (id : Text) (run : Run) (w : World) → Kept w (stop_found h id run w).0
  stop_found-Kept id run w =
      let w1 = modify id request_stop w in
      elim (Bool-cases (is_running run.status)) [
        | inl live ↦ rw live (stop_running-Kept id run w)
        | inr dead ↦ elim (Bool-cases (is_some run.pending_resume)) [
          | inl armed ↦
              rw (dead, armed)
                (Kept-trans (modify-Kept id request_stop w (λ r. (refl, λ e. e))) (
                  Kept-trans (breadcrumb-Kept h id cancelled w1)
                    (rejournal-Kept h id (breadcrumb h id cancelled w1))))
          | inr idle ↦ rw (dead, idle) (Kept-refl w)
        ]
      ]

  pub stop-Kept : (id : Text) (w : World) → Kept w (stop h id w).0
  unfolding stop
  stop-Kept id w = looked (lookup id w.runs)
    where
      looked : (o : Option Run) → Kept w (stop_looked h id o w).0
      looked none = Kept-refl w
      looked (some run) = stop_found-Kept id run w

  watch_terminal-Kept :
      (id : Text) (t : TerminalState) (w : World) → Kept w (polled (watch_terminal h id t w))
  unfolding finalize_survived
  watch_terminal-Kept id t w = elim (Bool-cases t.has_exit) [
    | inl over ↦ rw over (
        finalize_with-Kept h id (λ _. exit (some (or_minus_one t.exit_code)))
          (or_minus_one t.exit_code) w)
    | inr no_exit ↦ elim (Bool-cases t.alive) [
      | inl alive ↦ rw (no_exit, alive) (Kept-refl w)
      | inr dead ↦ rw (no_exit, dead) (finalize_with-Kept h id (λ _. interrupted) minus_one w)
    ]
  ]

  pub watch_tick-Kept :
      (id : Text) (t : TerminalState) (w : World) → Kept w (polled (watch_tick h id t w))
  unfolding watch_tick
  watch_tick-Kept id t w = pick (can_finalize (lookup id w.runs))
    where
      pick : (b : Bool) → Kept w (polled (if b then watch_terminal h id t w else Poll.finished w))
      pick true = watch_terminal-Kept id t w
      pick false = Kept-refl w

-- One of these, against a host of its own.
pub data Ends (w : World) : World → Type 0 where
  process_exit : (h : Host) (id : Text) (code : ℤ) → Ends w (on_exit h id code w)
  operator_stop : (h : Host) (id : Text) → Ends w (stop h id w).0
  push_ends : (h : Host) (id : Text) (res : PushResult) → Ends w (push_finished h id res w)
  poll : (h : Host) (id : Text) (t : TerminalState) → Ends w (polled (watch_tick h id t w))

-- Any number of them.
pub data Meanwhile (w : World) : World → Type 0 where
  nothing : Meanwhile w w
  then_also : {u v : World} → Meanwhile w u → Ends u v → Meanwhile w v

Ends-Kept : {w w' : World} → Ends w w' → Kept w w'
unfolding on_exit push_finished
Ends-Kept {w} (process_exit h id code) = finalize_with-Kept h id (cause_of_exit code) code w
Ends-Kept {w} (operator_stop h id) = stop-Kept h id w
Ends-Kept {w} (push_ends h id res) = breadcrumb-Kept h id (push_result_line res) w
Ends-Kept {w} (poll h id t) = watch_tick-Kept h id t w

pub Meanwhile-Kept : {w w' : World} → Meanwhile w w' → Kept w w'
Meanwhile-Kept nothing = Kept-refl _
Meanwhile-Kept (then_also m e) = Kept-trans (Meanwhile-Kept m) (Ends-Kept e)
