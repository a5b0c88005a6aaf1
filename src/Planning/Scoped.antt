-- ===== src/Planning/Scoped.antt =====
-- Where the edits of backend/domain/plantrack.go change a roadmap.
use saki_cli.Base.{ℕ, ◌≡◌, true, false, some, List, [], ◌∷◌, ◌++◌, Text, All}
use saki_cli.Regexp.{group_of, find_all, Found}
use saki_cli.Planning.PlanTrack.{plan_track_target, Edit, restated, Span}
use saki_cli.Planning.Roadmap.{item_header_re, status_re}
use saki_cli.Planning.{atoi_clamped, first_group, contains_str}

abbrev pub joined : Span → Text
joined sp = sp.head ++ (sp.block ++ sp.tail)

-- The text before a block and behind it, with another block in its place.
abbrev pub AroundBlock : Text → Text → Text → Text → Type 0
AroundBlock content old new out =
    (head : Text) × (tail : Text) × (content ≡ head ++ (old ++ tail))
    × (out ≡ head ++ (new ++ tail))

-- The text from behind a header up to the next header, or to the end.
abbrev pub up_to_next : Found → List Found → Text
up_to_next f [] = f.after
up_to_next f (g ∷ gs) = g.before

-- A header with the letter and the number of the id.
abbrev pub Names : Text → ℕ → Found → Type 0
Names prefix n f = (group_of 1 f ≡ prefix) × (atoi_clamped (group_of 2 f) ≡ n)

-- The block that a Plan-track id has: among the item headers of the text, the first one that carries
-- the letter and the number of the id, with the text behind it up to the next header.
pub record IsBlockOf (content id block : Text) : Type 0 where
  pub prefix : Text
  pub number : ℕ
  pub earlier : List Found
  pub header : Found
  pub later_ones : List Found
  pub of_id : plan_track_target id ≡ some (prefix, number)
  pub of_text : find_all item_header_re content ≡ earlier ++ header ∷ later_ones
  pub names_id : Names prefix number header
  pub is_first : All (λ g. ¬ Names prefix number g) earlier
  pub is_block : block ≡ header.matched ++ up_to_next header later_ones

-- The header that a span begins with.
pub record Begins (prefix : Text) (n : ℕ) (fs : List Found) (block : Text) : Type 0 where
  pub before_it : List Found
  pub head_found : Found
  pub behind_it : List Found
  pub split : fs ≡ before_it ++ head_found ∷ behind_it
  pub names_it : Names prefix n head_found
  pub none_before : All (λ g. ¬ Names prefix n g) before_it
  pub from_it : block ≡ head_found.matched ++ up_to_next head_found behind_it

-- What an edit of the block of `id` may be: none, or a new block in the place of the old one, of
-- which `Made` holds.
abbrev pub EditsBlock : (Text → Text → Type 0) → Text → Text → Edit → Type 0
EditsBlock Made content id (out, false) = out ≡ content
EditsBlock Made content id (out, true) =
    (old : Text) × (new : Text) × IsBlockOf content id old
    × AroundBlock content old new out
    × Made old new

-- The old block has a status that is left, and the new one is the old one with the new status.
abbrev pub Restated : List Text → Text → Text → Text → Text → Type 0
Restated from to date old new =
    (current : Text) × (first_group status_re old ≡ some current)
    × (contains_str from current ≡ true)
    × (new ≡ restated old to date)

module _ (content id : Text) (from : List Text) (to date : Text) where
  abbrev Edited : Edit → Type 0
  Edited = EditsBlock (Restated from to date) content id
