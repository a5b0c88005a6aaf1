-- ===== src/Engine/Breadcrumb.antt =====
-- The lines that backend/usecase/buildengine.go appends to a run's output.
use saki_cli.Base.{ℕ, ◌/◌, [], ◌∷◌, ◌++◌, if◌then◌else◌, Text, codes, is_empty, decimal}
use saki_cli.World.{PushResult}

abbrev pub declined : Text
declined = codes "auto-resume: declined (ambiguous/failed end) — parked; use Continue to resume"

abbrev pub paused : Text
paused = codes "paused — awaiting your decision; pick an option in the stream to continue"

abbrev pub turns_exhausted : ℕ → Text
turns_exhausted n =
    codes "auto-resume: resume budget exhausted (" ++ (decimal n ++ codes ") — parked for operator")

abbrev pub auth_parked : Text
auth_parked = codes "auto-resume: authentication error — parked; run /login, then Continue"

abbrev pub limit_waiting : ℕ → Text → Text
limit_waiting delay successor =
    codes "auto-resume: usage limit reached → waiting "
    ++ (decimal (delay / 60000) ++ (codes "min for reset → continuing as " ++ successor))

abbrev pub wall_exhausted : ℕ → Text
wall_exhausted max_wall =
    codes "BLOCKED: wall-clock budget ("
    ++ (decimal (max_wall / 60000) ++ codes "min) exhausted — parked for operator")

abbrev pub no_progress : ℕ → Text
no_progress streak =
    codes "BLOCKED: no verified progress after "
    ++ (decimal streak ++ codes " auto-resumes — parked for operator")

abbrev pub continuing : Text → ℕ → Text
continuing successor delay =
    codes "auto-resume: build ended its turn without finishing → continuing as "
    ++ (successor ++ (codes " after " ++ (decimal delay ++ codes "ms")))

abbrev pub no_binary : Text
no_binary = codes "auto-resume: engine binary not found — parked"

abbrev pub cancelled : Text
cancelled = codes "auto-resume cancelled by operator — parked"

abbrev pub stalled : ℕ → Text
stalled stall_ms =
    codes "stall watchdog: no output for "
    ++ (decimal (stall_ms / 60000) ++ codes "min → restarting (hung)")

abbrev pub pushing_text : Text
pushing_text = codes "build complete → pushing branch to origin…"

abbrev or_text : Text → Text → Text
or_text [] d = d
or_text (c ∷ s) d = c ∷ s

-- pushResultLine.
unfoldable pub push_result_line : PushResult → Text
push_result_line r =
    if r.ok
    then codes "pushed " ++ (or_text r.branch (codes "branch") ++ codes " to origin ✓")
    else if is_empty r.skipped
    then codes "push failed: " ++ or_text r.failure (codes "unknown error")
    else codes "push skipped: " ++ r.skipped
