-- ===== src/World.antt =====
-- The state that the services of backend/usecase share, and the host that they run on: the run
-- store, the journal and output files, and a log of what was done to the outside. An operation runs
-- against one Host, which says what the ports of usecase/run_ports.go answer during it; another
-- operation may meet another Host.
pub mod Laws
use saki_cli.Base.{
  ℕ, suc, Bool, true, false, Option, none, some, List, [], ◌∷◌, ◌++◌, if◌then◌else◌, Text, Dict,
  lookup, insert, update, ℤ,
}
use saki_cli.Run.{Run, RunEngine, RunKind}
use saki_cli.Json.{Json}
use saki_cli.Stream.Ndjson.{ParsedLine, raw}
use saki_cli.Store.{Runs, get}
use saki_cli.Engine.Config.{BuildConfig}
use saki_cli.Outcome.Limit.{LocalTime}

-- SpawnSpec of usecase/run_ports.go.
pub record SpawnSpec : Type 0 where
  pub id : Text
  pub prompt : Text
  pub cwd : Option Text
  pub config_dir : Option Text
  pub kind : RunKind
  pub engine : RunEngine

-- ErrBinaryNotFound, or another error of the Spawner.
pub data SpawnError : Type 0 where
  binary_not_found : SpawnError
  other_error : Text → SpawnError

pub data SpawnResult : Type 0 where
  started : ℤ → SpawnResult
  failed : SpawnError → SpawnResult

-- The errors of the spawn services (usecase/spawn.go).
pub data Failure : Type 0 where
  no_prompt runs_dir_unwritable : Failure
  not_spawned : SpawnError → Failure

-- PushResult of usecase/run_ports.go.
pub record PushResult : Type 0 where
  pub ok : Bool
  pub branch : Text
  pub failure : Text
  pub skipped : Text

-- What an operation does to the outside: a process is spawned, a process group is signalled, a timer
-- is armed for a run, a push is started.
pub data Effect : Type 0 where
  spawned : SpawnSpec → Effect
  terminated killed : ℤ → Effect
  timer : ℕ → Text → Effect
  pushing : Text → Effect

pub record World : Type 0 where
  pub runs : Runs
  -- The record of each run on disk, as Write was last given it.
  pub journal : Dict Run
  -- The lines of each run's output file.
  pub outs : Dict (List ParsedLine)
  -- idempotency key to run id
  pub idem : Dict Text
  -- newest first
  pub effects : List Effect
  -- how many ids the IDGen has given
  pub ids : ℕ

pub record Host : Type 0 where
  pub now : ℕ
  pub writable : Bool
  pub write_ok : Run → Bool
  pub append_ok : Text → Bool
  pub spawn : SpawnSpec → SpawnResult
  pub new_id : ℕ → Text
  pub fingerprint : Run → Option Text
  pub out_size : Text → ℕ
  pub alive : ℤ → Bool
  -- json.Unmarshal of a text, and the local clock
  pub decode : Text → Option Json
  pub local : LocalTime
  pub cfg : BuildConfig

-- output.ReadAll; its error is an empty output.
abbrev pub lines_of : Option (List ParsedLine) → List ParsedLine
lines_of none = []
lines_of (some ls) = ls

unfoldable pub read_all : Text → World → List ParsedLine
read_all id w = lines_of (lookup id w.outs)

abbrev pub log : Effect → World → World
log x w = record w { effects = x ∷ w.effects }

-- The id of the IDGen, and the count advanced.
abbrev pub take_id : World → World
take_id w = record w { ids = suc w.ids }

-- `r.m(f)` of the store, its result unused.
abbrev pub modify : Text → (Run → Run) → World → World
modify id f w = record w { runs = update id f w.runs }

module _ (h : Host) where
  -- journal.Write, with its error.
  unfoldable pub write : Run → World → World × Bool
  write r w =
      if h.write_ok r then (record w { journal = insert r.id r w.journal }, true) else (w, false)

  abbrev pub write_found : Option Run → World → World
  write_found none w = w
  write_found (some r) w = (write r w).0

  -- rejournal: best effort.
  unfoldable pub rejournal : Text → World → World
  unfolding write get
  rejournal id w = write_found (get id w.runs) w

  -- breadcrumb: a raw line at the end of the run's output, best effort.
  unfoldable pub breadcrumb : Text → Text → World → World
  unfolding read_all
  breadcrumb id text w =
      if h.append_ok id
      then record w { outs = insert id (read_all id w ++ raw text ∷ []) w.outs }
      else w
