-- ===== src/Stream/Feed.antt =====
-- backend/usecase/stream.go: the events of a run, from its output file as it grows. A tick is one
-- round of the loop with what the ports answer in it; a client that leaves ends the list of ticks.
use saki_cli.Base.{
  ℕ, suc, ◌+◌, Bool, true, false, Option, none, some, List, [], ◌∷◌, ◌++◌, if◌then◌else◌, Text,
  is_empty, length, drop, ℤ,
}
use saki_cli.Json.{Json}
use saki_cli.Run.{is_running, Status, done}
use saki_cli.Stream.Ndjson.{push, flush, NdjsonParser, ParsedLine}

-- The output file at a read, and how far ReadFrom gets.
pub data File : Type 0 where
  missing : File
  unreadable : File
  content : Text → File

-- A poll: the output file before and after the look at the run; Get of the run.
pub record Tick : Type 0 where
  pub first : File
  pub run : Option (Status × Option ℤ)
  pub second : File

pub record StreamEvent : Type 0 where
  pub seq : ℕ
  pub ts : ℕ
  pub line : ParsedLine

-- The variables of Stream. The offset counts the units of the text.
pub record Session : Type 0 where
  pub parser : NdjsonParser
  pub offset : ℕ
  pub seq : ℕ

pub record Ended : Type 0 where
  pub status : Status
  pub exit : Option ℤ

-- ReadFrom of infra/output.go: the data and the new offset, `none` for an error.
unfoldable pub read_from : File → ℕ → Option (Text × ℕ)
read_from missing offset = some ([], offset)
read_from unreadable offset = none
read_from (content t) offset = some (drop offset t, offset + length (drop offset t))

abbrev pub is_over : Option (Status × Option ℤ) → Bool
is_over none = true
is_over (some (s, e)) = elim (is_running s) [ true ↦ false | false ↦ true ]

abbrev pub ended_as : Option (Status × Option ℤ) → Ended
ended_as none = record { status = done; exit = none }
ended_as (some (s, e)) = record { status = s; exit = e }

module _ (decode : Text → Option Json) (clock : ℕ → ℕ) where
  -- The calls of emit; the clock is asked for each.
  unfoldable pub numbered : ℕ → List ParsedLine → List StreamEvent
  numbered n [] = []
  numbered n (l ∷ ls) = record { seq = n; ts = clock n; line = l } ∷ numbered (suc n) ls

  abbrev pub emitted : Session → List ParsedLine × NdjsonParser → List StreamEvent × Session
  emitted s (ls, p) = (numbered s.seq ls, record s { parser = p; seq = s.seq + length ls })

  abbrev pub drained : Session → Option (Text × ℕ) → List StreamEvent × Session
  drained s none = ([], s)
  drained s (some (data_read, new_offset)) =
      if is_empty data_read
      then ([], s)
      else emitted (record s { offset = new_offset }) (push decode s.parser data_read)

  -- drain.
  unfoldable pub drain : Session → File → List StreamEvent × Session
  unfolding numbered push read_from
  drain s f = drained s (read_from f s.offset)

  -- The end of the loop: the last drain and the flush.
  unfoldable pub finish : Session → File → List StreamEvent
  unfolding drain flush numbered
  finish s f = let (es, s') = drain s f in es ++ (emitted s' (flush decode s'.parser)).0

  abbrev pub behind_events :
      List StreamEvent → List StreamEvent × Option Ended → List StreamEvent × Option Ended
  behind_events es (rest, e) = (es ++ rest, e)

  abbrev pub round :
      Bool
      → Tick
      → List StreamEvent × Session
      → List StreamEvent × Option Ended
      → List StreamEvent × Option Ended
  round true t (es, s) rest = (es ++ finish s t.second, some (ended_as t.run))
  round false t (es, s) rest = behind_events es rest

  -- The loop of Stream.
  unfoldable pub stream_from : Session → List Tick → List StreamEvent × Option Ended
  unfolding drain finish
  stream_from s [] = ([], none)
  stream_from s (t ∷ ts) =
      let d = drain s t.first in let rest = stream_from d.1 ts in round (is_over t.run) t d rest

  -- Stream.
  unfoldable pub stream : List Tick → List StreamEvent × Option Ended
  unfolding stream_from
  stream ts = stream_from (record { parser = record { buf = [] }; offset = 0; seq = 0 }) ts
