-- ===== src/Outcome/Sentinels.antt =====
-- The sentinel expressions of backend/usecase/buildclass.go, each as a function that searches the
-- text from its start. Case is folded on ASCII letters.
use saki_cli.Base.{
  Bool, true, false, ◌||◌, Option, none, some, [], ◌∷◌, ◌==◌, if◌then◌else◌, is_some, Text, codes,
  has_prefix, contains, to_lower, is_space, drop_while,
}
use saki_cli.Json.{or_else}

-- An expression `(?m)^\s*X`: the first line start from which X, tried behind the white space, gives
-- a result. The Boolean says that the text stands at a line start.
unfoldable pub anchored {ℓ} : {A : Type ℓ} → (Text → Option A) → Bool → Text → Option A
unfolding drop_while
anchored p at [] = if at then p [] else none
anchored p at (c ∷ s) =
    or_else (if at then p (drop_while is_space (c ∷ s)) else none) (anchored p (c == 10) s)

abbrev pub when : Bool → Option (Unit {0})
when true = some tt
when false = none

abbrev pub on_some_line : (Text → Bool) → Text → Bool
on_some_line p s = is_some (anchored (λ t. when (p t)) true s)

-- (PRD_BUILD_COMPLETE|HARD STOP|BLOCKED:)
unfoldable pub terminal_word : Text → Bool
unfolding has_prefix
terminal_word s =
    has_prefix (codes "PRD_BUILD_COMPLETE") s
    || has_prefix (codes "HARD STOP") s
    || has_prefix (codes "BLOCKED:") s

-- buildTerminalRe.
unfoldable pub is_terminal_text : Text → Bool
unfolding anchored terminal_word
is_terminal_text s = on_some_line terminal_word s

-- buildSuccessRe.
unfoldable pub is_success_text : Text → Bool
unfolding anchored has_prefix
is_success_text s = on_some_line (has_prefix (codes "PRD_BUILD_COMPLETE")) s

unfoldable pub parked_word : Text → Bool
unfolding has_prefix
parked_word s = has_prefix (codes "blocked:") s || has_prefix (codes "hard stop") s

-- parkedRe.
unfoldable pub is_parked_text : Text → Bool
unfolding anchored parked_word to_lower contains
is_parked_text s =
    let t = to_lower s in
    on_some_line parked_word t
    || contains (codes "parked for operator") t
    || contains (codes "parked;") t

-- IsBuildComplete.
unfoldable pub is_build_complete : Option Text → Bool
unfolding is_success_text
is_build_complete none = false
is_build_complete (some t) = is_success_text t

unfoldable pub is_terminal_end : Option Text → Bool
unfolding is_terminal_text
is_terminal_end none = false
is_terminal_end (some t) = is_terminal_text t
