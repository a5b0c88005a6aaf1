-- ===== src/Stream/Ndjson.antt =====
-- backend/usecase/ndjson.go: newline-delimited JSON over chunks that may split a line.
use saki_cli.Base.{
  ℕ, zero, suc, true, false, Option, none, some, List, [], ◌∷◌, ◌++◌, ◌==◌, if◌then◌else◌, Text,
  is_empty, trim, length,
}
use saki_cli.Json.{Json}

-- A line of a run's output.
pub data ParsedLine : Type 0 where
  json : Json → ParsedLine
  raw : Text → ParsedLine

-- The text is the parser's buffer.
pub record NdjsonParser : Type 0 where
  pub buf : Text

-- strings.TrimSuffix(line, "\r").
unfoldable pub trim_cr : Text → Text
trim_cr [] = []
trim_cr (c ∷ []) = if c == 13 then [] else c ∷ []
trim_cr (c ∷ d ∷ s) = c ∷ trim_cr (d ∷ s)

-- strings.IndexByte(buf, '\n') and the two slices around it.
unfoldable pub cut_line : Text → Option (Text × Text)
cut_line [] = none
cut_line (c ∷ s) = elim (c == 10) [
  | true ↦ some ([], s)
  | false ↦ elim (cut_line s) [ none ↦ none | some (l, r) ↦ some (c ∷ l, r) ]
]

-- json.Valid with the decoded value is the parameter.
module _ (decode : Text → Option Json) where
  unfoldable pub parse_line : Text → ParsedLine
  parse_line line = elim (decode line) [ none ↦ raw line | some v ↦ json v ]

  unfoldable pub keep_line : Text → List ParsedLine
  unfolding parse_line trim
  keep_line line = if is_empty (trim line) then [] else parse_line line ∷ []

  -- The loop of Push; a round takes a character from the buffer at least, so its length is fuel.
  unfoldable pub push_loop : ℕ → Text → List ParsedLine × Text
  unfolding cut_line trim_cr keep_line
  push_loop zero buf = ([], buf)
  push_loop (suc f) buf = elim (cut_line buf) [
    | none ↦ ([], buf)
    | some (l, r) ↦ let (out, left) = push_loop f r in (keep_line (trim_cr l) ++ out, left)
  ]

  unfoldable pub push : NdjsonParser → Text → List ParsedLine × NdjsonParser
  unfolding push_loop
  push p chunk =
      let buf = p.buf ++ chunk in
      let (out, left) = push_loop (length buf) buf in (out, record { buf = left })

  unfoldable pub flush : NdjsonParser → List ParsedLine × NdjsonParser
  unfolding keep_line
  flush p = (keep_line p.buf, record { buf = [] })
