-- ===== src/Outcome.antt =====
-- The classification half of backend/usecase/buildclass.go: the sentinels of a finished build, and
-- what is to be done with it.
pub mod Sentinels
pub mod Decision
pub mod Limit
pub mod Parked
use saki_cli.Base.{
  Bool, true, false, not, ◌&&◌, Option, some, List, if◌then◌else◌, is_some, is_none, Text, is_zero,
}
use saki_cli.Run.{is_build, RunKind, RedriveCause, exit, user_stop, spawn_error}
use saki_cli.Json.{Json}
use saki_cli.Stream.Ndjson.{ParsedLine}
use saki_cli.Stream.Spoken.{final_spoken_text}
use Sentinels.{is_terminal_end}
use Decision.{parse_decision}

pub data Outcome : Type 0 where
  terminal retryable park awaiting : Outcome

abbrev is_user_stop : RedriveCause → Bool
is_user_stop user_stop = true
is_user_stop _ = false

abbrev is_spawn_error : RedriveCause → Bool
is_spawn_error spawn_error = true
is_spawn_error _ = false

-- `cause.Kind == CauseExit && cause.ExitCode != nil && *cause.ExitCode == 0`.
abbrev is_clean_exit : RedriveCause → Bool
is_clean_exit (exit (some code)) = is_zero code
is_clean_exit _ = false

module _ (decode : Text → Option Json) where
  unfoldable pub classify_outcome : RunKind → List ParsedLine → RedriveCause → Outcome
  classify_outcome kind lines cause =
      let final = final_spoken_text lines in
      if not (is_build kind)
      then terminal
      else if is_user_stop cause
      then terminal
      else if is_some (parse_decision decode final)
      then awaiting
      else if is_terminal_end final
      then terminal
      else if is_spawn_error cause
      then park
      else if is_clean_exit cause && is_none final
      then park
      else retryable
