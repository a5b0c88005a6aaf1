-- ===== src/Outcome/Decision.antt =====
-- AwaitingDecision and ParseDecision of backend/usecase/buildclass.go.
use saki_cli.Base.{
  true, false, Option, none, some, List, [], ◌∷◌, reverse, ◌==◌, if◌then◌else◌, Text, codes, same,
  is_empty, has_prefix, is_space, drop_while, trim, drop, ℤ,
}
use saki_cli.Json.{◌>>=◌, get_field, as_text, as_struct, as_int, as_list, Json}
use saki_cli.Outcome.Sentinels.{anchored}

pub data DecisionKind : Type 0 where
  fork action : DecisionKind

pub record AwaitingDecision : Type 0 where
  pub kind : DecisionKind
  pub question : Text
  pub options : List Text
  pub slice : Option ℤ

-- The text up to the first newline.
unfoldable pub first_line : Text → Text
first_line [] = []
first_line (c ∷ s) = elim (c == 10) [ true ↦ [] | false ↦ c ∷ first_line s ]

-- (\{.*\})\s*$ at the front of a text: from the brace to the last brace of the line, with only white
-- space behind it.
abbrev closed_braces : Text → Option Text
closed_braces [] = none
closed_braces (c ∷ s) = if c == b'}' then some (reverse (c ∷ s)) else none

abbrev open_brace : Text → Text → Option Text
open_brace [] back = none
open_brace (c ∷ []) back = none
open_brace (c ∷ d ∷ s) back = if c == b'{' then closed_braces back else none

unfoldable pub braces : Text → Option Text
unfolding first_line drop_while
braces s = let back = drop_while is_space (reverse (first_line s)) in open_brace (reverse back) back

-- NEEDS_DECISION:\s*(\{.*\})\s*$
unfoldable pub decision_word : Text → Option Text
unfolding has_prefix braces drop_while
decision_word s =
    if has_prefix (codes "NEEDS_DECISION:") s
    then braces (drop_while is_space (drop 15 s))
    else none

-- needsDecisionLineRe, the capture of its group.
unfoldable pub decision_payload : Text → Option Text
unfolding anchored decision_word
decision_payload s = anchored decision_word true s

text_item : Json → Option Text
unfolding as_text
text_item v = as_text (some v)

unfoldable pub shown_options : List Text → List Text
unfolding trim
shown_options [] = []
shown_options (x ∷ xs) = let rest = shown_options xs in if is_empty (trim x) then rest else x ∷ rest

abbrev kind_of_text : Text → DecisionKind
unfolding same
kind_of_text t = if same t (codes "action") then action else fork

-- The struct that the payload is decoded into, and the checks behind it.
unfoldable pub decision_of : Json → Option AwaitingDecision
unfolding get_field as_text as_struct as_int as_list text_item shown_options trim kind_of_text
decision_of v = do
  fs ← as_struct (some v)
  kind ← as_text (get_field (codes "kind") fs)
  question ← as_text (get_field (codes "question") fs)
  options ← as_list text_item (get_field (codes "options") fs)
  slice ← as_int (get_field (codes "slice") fs)
  let q = trim question
  if is_empty q
      then none
      else some (record {
        kind = kind_of_text kind;
        question = q;
        options = shown_options options;
        slice = slice;
      })

-- json.Unmarshal of a text is the parameter.
unfoldable pub parse_decision : (Text → Option Json) → Option Text → Option AwaitingDecision
unfolding decision_payload decision_of
parse_decision decode none = none
parse_decision decode (some t) = do payload ← decision_payload t; v ← decode payload; decision_of v
