-- ===== src/Scenarios/Documents.antt =====
-- A small roadmap, a PRD and a repository, and what the use cases make of them.
use saki_cli.Base.{
  ℕ, ◌≡◌, refl, true, false, Option, none, some, List, [], ◌∷◌, is_some, Text, codes, same, trim,
  length, pos,
}
use saki_cli.Json.{Json}
use saki_cli.Run.{running, done}
use saki_cli.Planning.Disk.{Disk}
use saki_cli.Planning.Lock.{apply_lock, lock_prd}
use saki_cli.Planning.PlanTrack.{ship_plan_track}
use saki_cli.Planning.Resolve.{collapse_from, resolved_bullet, append_resolved_question}
use saki_cli.Planning.Appended.{Recorded, append_resolved_question_once}
use saki_cli.Git.{merge_to_main, Repository}
use saki_cli.Git.Safe.{MergesOrRestores, merge_to_main-MergesOrRestores}
use saki_cli.Stream.Feed.{numbered, stream, Tick, missing, unreadable, content}
use saki_cli.Stream.Refines.{IsAppended, whole_output, lines_after, stream-numbered}

abbrev roadmap : Text
roadmap =
    codes
      "# Roadmap: Saki\n\n### E1 · First\n**Status:** Planned · x\n### B2 · Crash \n**Status:** In-progress\n**Updated:** 2025-01-01\n"

abbrev roadmap_shipped : Text
roadmap_shipped =
    codes
      "# Roadmap: Saki\n\n### E1 · First\n**Status:** Planned · x\n### B2 · Crash \n**Status:** Shipped\n**Updated:** 2026-02-03\n"

ships : ship_plan_track roadmap (codes "B2") (codes "2026-02-03") ≡ (roadmap_shipped, true)
unfolding ship_plan_track
ships = refl

abbrev draft : Text
draft = codes "# PRD\n**Owner:** ana · x\n**Status:** Draft · v1\n"

locks : apply_lock draft (codes "@ana") (codes "2026-02-03") (codes "none") ≡ (
  codes
      "<!-- prd-locked: @ana · 2026-02-03 · ui:none -->\n# PRD\n**Owner:** ana · x\n**Status:** Locked · v1\n",
  false,
)
unfolding apply_lock
locks = refl

abbrev pub disk : Disk
disk = record {
  exists = λ p. same p (codes "/r/tasks/prd-a.md");
  read = λ p. some draft;
  list_dir = λ p. [];
  mtime = λ p. pos 0;
  walk = λ p. [];
  write = λ p t. none;
}

abbrev user : Text → Text
user cwd = codes "ana"

-- The request is granted, and one file is written.
lock_writes :
    is_some (lock_prd disk user (codes "/r") (codes "tasks/prd-a.md") (codes "2026-02-03")).written
    ≡ true
unfolding lock_prd
lock_writes = refl

append_resolved_question_once_example :
    let out = append_resolved_question draft (codes "Which key?") (codes "lane") in
    Recorded
      (resolved_bullet (trim (collapse_from false (codes "Which key?"))) (trim (codes "lane")))
      draft
      out
    × (append_resolved_question out (codes "Which key?") (codes "lane") ≡ out)
unfolding trim collapse_from
append_resolved_question_once_example =
    append_resolved_question_once draft (codes "Which key?") (codes "lane") refl refl

abbrev conflicting : Repository
conflicting = record {
  branches = codes "feat" ∷ codes "main" ∷ [];
  remotes = [];
  default_branch = [];
  current = codes "feat";
  switched = λ b c. none;
  merged = λ b. some (codes "conflict");
  mr = λ s t. ([], []);
}

merge_to_main-MergesOrRestores_example :
    MergesOrRestores conflicting none (merge_to_main conflicting (codes "/r"))
merge_to_main-MergesOrRestores_example =
    merge_to_main-MergesOrRestores conflicting none (codes "/r") refl refl

abbrev no_json : Text → Option Json
no_json t = none

abbrev at_noon : ℕ → ℕ
at_noon n = 12

abbrev polls : List Tick
polls =
    record { first = content (codes "a\nb"); run = some (running, none); second = missing }
    ∷ record { first = unreadable; run = some (running, none); second = missing }
    ∷ record {
      first = content (codes "a\nbc\n");
      run = some (done, some (pos 0));
      second = content (codes "a\nbc\nd");
    }
    ∷ []

polls-IsAppended : IsAppended [] polls
polls-IsAppended =
    ((codes "a\nb", refl), tt, (tt, tt, ((codes "c\n", refl), (codes "d", refl), tt)))

-- Three lines, the second one cut by a poll.
three_events : length (stream no_json at_noon polls).0 ≡ 3
unfolding stream
three_events = refl

stream-numbered_example :
    (stream no_json at_noon polls).0
    ≡ numbered no_json at_noon 0 (
        lines_after no_json
          (record { buf = [] })
          (whole_output [] polls)
          (is_some (stream no_json at_noon polls).1))
stream-numbered_example = stream-numbered no_json at_noon polls polls-IsAppended
