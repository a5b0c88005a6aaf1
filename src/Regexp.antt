-- ===== src/Regexp.antt =====
-- The regular expressions of package `regexp` that the code compiles: a tree for each, and the
-- search for the leftmost match, the first of its starting point in the order of preference of RE2.
pub mod Syntax
pub mod Split
use saki_cli.Base.{
  ℕ, zero, suc, ◌-◌, Bool, true, false, not, ◌&&◌, ◌||◌, Option, none, some, List, [], ◌∷◌, ◌++◌,
  map, ltb, leb, ◌==◌, if◌then◌else◌, is_some, Text, length, take, concat_map,
}

pub data Re : Type 0 where
  -- one code point of a class
  one : (ℕ → Bool) → Re
  -- nothing
  empty : Re
  -- one behind the other; the first or else the second
  seq alt : Re → Re → Re
  -- `x*` and `x*?`
  star lazy_star : Re → Re
  -- a numbered group
  group : ℕ → Re → Re
  -- `^` and `$` under (?m), and without it
  line_start line_end text_start text_end : Re
  -- `\b`
  word_bound : Re

-- Where a match stands: the code point before, the text behind, and the groups that are closed, the
-- last first.
pub record Cursor : Type 0 where
  pub prev : Option ℕ
  pub rest : Text
  pub groups : List (ℕ × Text)

-- The text between two points, the second one further on.
abbrev pub between : Text → Text → Text
between s t = take (length s - length t) s

abbrev pub at_line_start : Option ℕ → Bool
at_line_start none = true
at_line_start (some c) = c == 10

abbrev pub at_line_end : Text → Bool
at_line_end [] = true
at_line_end (c ∷ s) = c == 10

abbrev pub at_text_start : Option ℕ → Bool
at_text_start none = true
at_text_start (some c) = false

abbrev pub at_text_end : Text → Bool
at_text_end [] = true
at_text_end (c ∷ s) = false

-- `\w`.
abbrev pub is_word : ℕ → Bool
is_word c =
    leb b'0' c && leb c b'9' || leb b'A' c && leb c b'Z' || leb b'a' c && leb c b'z' || c == b'_'

abbrev pub word_before : Option ℕ → Bool
word_before none = false
word_before (some c) = is_word c

abbrev pub word_behind : Text → Bool
word_behind [] = false
word_behind (c ∷ s) = is_word c

abbrev pub differ : Bool → Bool → Bool
differ a b = if a then not b else b

abbrev pub only_if : Bool → Cursor → List Cursor
only_if true c = c ∷ []
only_if false c = []

abbrev pub step_over : Cursor → ℕ → Text → Cursor
step_over c x s = record { prev = some x; rest = s; groups = c.groups }

abbrev pub one_of : (ℕ → Bool) → Cursor → Text → List Cursor
one_of p c [] = []
one_of p c (x ∷ s) = only_if (p x) (step_over c x s)

abbrev pub closed : ℕ → Cursor → Cursor → Cursor
closed n c d = record d { groups = (n, between c.rest d.rest) ∷ d.groups }

-- The rounds of a repetition that go on: those that took something.
abbrev pub moved_on : Cursor → List Cursor → List Cursor
moved_on c [] = []
moved_on c (d ∷ ds) =
    let rest = moved_on c ds in if ltb (length d.rest) (length c.rest) then d ∷ rest else rest

unfoldable pub repeat_greedy : (Cursor → List Cursor) → ℕ → Cursor → List Cursor
repeat_greedy f zero c = c ∷ []
repeat_greedy f (suc n) c = concat_map (repeat_greedy f n) (moved_on c (f c)) ++ c ∷ []

unfoldable pub repeat_lazy : (Cursor → List Cursor) → ℕ → Cursor → List Cursor
repeat_lazy f zero c = c ∷ []
repeat_lazy f (suc n) c = c ∷ concat_map (repeat_lazy f n) (moved_on c (f c))

-- Every way to match from a point, in the order of preference. A round of a repetition takes a code
-- point, so there are no more of them than the text is long.
unfoldable pub matches : Re → Cursor → List Cursor
unfolding repeat_greedy repeat_lazy
matches (one p) c = one_of p c c.rest
matches empty c = c ∷ []
matches (seq a b) c = concat_map (matches b) (matches a c)
matches (alt a b) c = matches a c ++ matches b c
matches (star a) c = repeat_greedy (matches a) (length c.rest) c
matches (lazy_star a) c = repeat_lazy (matches a) (length c.rest) c
matches (group n a) c = map (closed n c) (matches a c)
matches line_start c = only_if (at_line_start c.prev) c
matches line_end c = only_if (at_line_end c.rest) c
matches text_start c = only_if (at_text_start c.prev) c
matches text_end c = only_if (at_text_end c.rest) c
matches word_bound c = only_if (differ (word_before c.prev) (word_behind c.rest)) c

-- A match with what stands before and behind it.
pub record Found : Type 0 where
  pub before : Text
  pub matched : Text
  pub after : Text
  pub groups : List (ℕ × Text)

abbrev pub found_at : Text → Cursor → Found
found_at s c = record { before = []; matched = between s c.rest; after = c.rest; groups = c.groups }

abbrev pub behind : ℕ → Found → Found
behind x f = record f { before = x ∷ f.before }

abbrev pub later : ℕ → Option Found → Option Found
later x none = none
later x (some f) = some (behind x f)

abbrev pub first_of : Text → List Cursor → Option Found → Option Found
first_of s [] o = o
first_of s (c ∷ cs) o = some (found_at s c)

abbrev pub start_of : Option ℕ → Text → Cursor
start_of p s = record { prev = p; rest = s; groups = [] }

-- FindStringSubmatchIndex, from a point on.
unfoldable pub find_from : Re → Option ℕ → Text → Option Found
unfolding matches
find_from r p [] = first_of [] (matches r (start_of p [])) none
find_from r p (x ∷ s) =
    first_of (x ∷ s) (matches r (start_of p (x ∷ s))) (later x (find_from r (some x) s))

unfoldable pub find : Re → Text → Option Found
unfolding find_from
find r s = find_from r none s

-- MatchString.
abbrev pub is_match : Re → Text → Bool
is_match r s = is_some (find r s)

abbrev pub group_in : ℕ → List (ℕ × Text) → Text
group_in n [] = []
group_in n ((k, t) ∷ gs) = if k == n then t else group_in n gs

-- The text of a group, empty where it took no part.
abbrev pub group_of : ℕ → Found → Text
group_of n f = group_in n f.groups

abbrev pub last_of : Option ℕ → Text → Option ℕ
last_of p [] = p
last_of p (c ∷ s) = last_of (some c) s

-- FindAllStringSubmatchIndex for an expression that takes at least one code point, each match with
-- what stands between it and the one before.
unfoldable pub find_all_from : ℕ → Re → Option ℕ → Text → List Found
unfolding find_from
find_all_from zero r p s = []
find_all_from (suc n) r p s = elim (find_from r p s) [
  | none ↦ []
  | some f ↦ f ∷ find_all_from n r (last_of (last_of p f.before) f.matched) f.after
]

unfoldable pub find_all : Re → Text → List Found
unfolding find_all_from
find_all r s = find_all_from (suc (length s)) r none s
