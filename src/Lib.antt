-- ===== src/Lib.antt =====
-- The backend of saki-cli: a supervisor that spawns coding agents, journals their runs, and
-- resumes builds that end before they are finished.
--
-- Parts, and the files of backend/ that they model:
-- - Run: domain/run.go, the run with its chain state.
-- - Store: infra/memstore.go, the runs in memory. Each operation of the code holds one lock, so
--   it is one function. Store/Lanes has what ReserveBuild keeps, Store/Finalize what Finalize
--   does.
-- - Json and Stream: usecase/ndjson.go (Stream/Ndjson, with Stream/Chunks on split chunks) and
--   FinalSpokenText of usecase/buildclass.go (Stream/Message, Stream/Spoken). A text is its list
--   of code points. json.Unmarshal of a text is a parameter, decode; that a value does not fit a
--   Go struct is modelled in Json.
-- - Outcome: usecase/buildclass.go, ClassifyOutcome with the sentinels, decisions, usage limits
--   and parked reasons. A regular expression is a function that searches the text from its
--   start; case is folded on ASCII letters.
-- - World: the state that the services share, and the Host, which answers for the ports of
--   usecase/run_ports.go during one operation.
-- - Engine: usecase/buildengine.go. Config, Backoff, Spawn (SpawnBuild, reserveAndSpawn),
--   Breadcrumb, Resume (planResume, scheduleResume, firePendingResume, rearmOrPark), Exit
--   (onExit, finalizeBuild, maybePushOnComplete) and Watch (Sweep, Stop, RehydrateBuilds,
--   watchSurvivedBuild) are definitions. The other files of Engine are named for what they
--   prove.
-- - Service: usecase/spawn.go, stop.go, reaper.go and rehydrate.go, the runs that are not builds
--   (Spawn, Lifecycle). The other files of Service are named for what they prove.
-- - Journal: infra/journal.go and infra/journalreader.go, the record of a run on disk.
-- - Workflow: domain/workflow.go and the coordinator in usecase/workflow.go. Phases has the
--   phase machine (nextPhase, transitionLocked, completePhaseLocked, failLocked), Verify has
--   verify, Child the request for a child, Advance has advanceLocked, Observe has observeLocked,
--   Operator has Sweep, Continue and Stop on one workflow, Coordinator has the maps of the
--   service with Start, Continue, Stop and Sweep on them, Rehydrate has Rehydrate and
--   validWorkflow, and Resolve says what resolve and the tests of documents answer on a disk.
--   Adapter has WorkflowChildAdapter, which gives the phases to Engine and Service. Answers says
--   what the ports answer during one operation. A phase history is newest first. The other files
--   of Workflow are named for what they prove.
-- - WorkItems: ComputeResumeTarget, ActiveStepFor and sortedSlices of domain/workitems.go, on a
--   parsed manifest. The other files of WorkItems are named for what they prove.
-- - Regexp and Paths: package regexp (a tree for each expression; the leftmost match that RE2
--   prefers, found by listing the matches from each point in the order of preference) and
--   package path/filepath, as the code uses them. Regexp/Split and Paths/Rooted have their laws.
-- - Planning: the documents under tasks/. Roadmap (domain/roadmap.go), PlanTrack
--   (domain/plantrack.go), Lock (domain/lock.go, usecase/lock.go), Preview (findProtoPreview of
--   usecase/prd.go), Boxes and Artifacts (the checkboxes and the file names of
--   domain/workitems.go), Items (usecase/workitems.go), Questions (domain/blockers.go,
--   usecase/blockers.go), Resolve (domain/resolveq.go), Writes (usecase/plantrack.go,
--   usecase/resolveblocker.go), Reads (usecase/roadmap.go, usecase/prd.go, domain/prd.go). Disk
--   is the file system during one request. The other files of Planning are named for what they
--   prove.
-- - Git: usecase/gitwrite.go, domain/branchname.go and infra/gitargs.go; a call that changes the
--   repository is a command.
-- - Prompt: domain/slashcmd.go. Project: domain/newproject.go and usecase/newproject.go.
-- - Stream/Feed: usecase/stream.go, one poll after the other, with ReadFrom of infra/output.go.
-- - Scenarios: a concrete host, a build on it, the manifest of a build that was cut short, a
--   workflow, and the service of the workflows.
--
-- An operation is one function from world to world, run against one Host; the next operation may
-- meet another Host, so a theorem on a sequence holds whatever the clock, the disk, the spawner
-- and the kernel answer in between. Goroutines and tickers are operations of their own: the end
-- of a process is on_exit, a timer is fire_pending_resume, a tick of the engine is sweep, the
-- end of a push is push_finished, a poll of a survived build is watch_tick. Engine/Reach has
-- these, with the requests, the stops and the stall sweep, as one step relation. A restart is
-- none of its steps: Service/Lifecycle fills the store from the journal, and RehydrateBuilds
-- then runs on it. The effects of a world, newest first, say which processes were spawned and
-- signalled, which timers were set and which pushes were started.
--
-- Times are milliseconds as naturals, so a difference a - b >= c of the code is written b + c ≤
-- a; backoff is written on int64 with its wrap-around, since its doubling may overflow. The
-- rounds of the line parser are bounded by the length of the buffer, since each round takes a
-- line off it; the digits of decimal by the number, since each round divides it by ten.
-- advanceLocked is run for 13 rounds, and twelve are enough, since each round that goes on
-- enters a later one of twelve phases; observeLocked is given its calls of itself as fuel, and
-- two are enough where each run of the store is found under its own id. The settings are those
-- of BuildConfig.
--
-- Not modelled: the file system and processes behind the ports, the HTTP adapter and the wiring
-- of cmd/server, readManifest of the coordinator (a parameter in Workflow/Answers) and its
-- Stream, and the client in TypeScript. The log lines of the code are left out.
pub mod Base
pub mod Run
pub mod Store
pub mod Json
pub mod Stream
pub mod Outcome
pub mod World
pub mod Engine
pub mod Service
pub mod Journal
pub mod Scenarios
pub mod Workflow
pub mod WorkItems
pub mod Regexp
pub mod Git
pub mod Prompt
pub mod Project
pub mod Planning
pub mod Paths
