-- ===== src/Stream/Spoken.antt =====
-- FinalSpokenText and applyStreamMsg of backend/usecase/buildclass.go.
use saki_cli.Base.{
  ◌≡◌, refl, not, ◌&&◌, Option, none, some, List, [], ◌∷◌, ◌++◌, if◌then◌else◌, Text, codes, same,
  is_empty,
}
use saki_cli.Json.{or_else}
use saki_cli.Stream.Ndjson.{ParsedLine, json, raw}
use saki_cli.Stream.Message.{decode_msg, as_string, assistant_text, Speech, StreamMsg}

-- `result` and `lastAssistant` of the loop.
pub record Spoken : Type 0 where
  pub result : Option Text
  pub last_assistant : Option Text

-- `if s := …; s != nil { lastAssistant = s }`.
abbrev pub heard : Option Text → Spoken → Spoken
heard none sp = sp
heard (some t) sp = record sp { last_assistant = some t }

-- The loop of "agent_end", from the last message backwards: the text of the last assistant message
-- that has one.
unfoldable pub last_speech : List Speech → Option Text
unfolding assistant_text
last_speech [] = none
last_speech (m ∷ ms) =
    or_else (last_speech ms)
      (if same m.role (codes "assistant") then assistant_text m.content else none)

abbrev pub append_text : Option Text → Text → Text
append_text none t = t
append_text (some a) t = a ++ 10 ∷ t

unfoldable pub apply_stream_msg : StreamMsg → Spoken → Spoken
unfolding as_string assistant_text last_speech
apply_stream_msg v sp =
    if same v.type (codes "result")
    then elim (as_string v.result) [ none ↦ sp | some t ↦ record sp { result = some t } ]
    else if same v.type (codes "assistant")
    then heard (assistant_text (or_else v.message.content v.content)) sp
    else if same v.type (codes "text")
    then (if is_empty v.part_text
        then sp
        else heard (some (append_text sp.last_assistant v.part_text)) sp)
    else if same v.type (codes "item.completed")
    then (if same v.item_type (codes "agent_message") && not (is_empty v.item_text)
        then heard (some v.item_text) sp
        else sp)
    else if same v.type (codes "message_end")
    then (if same v.message.role (codes "assistant")
        then heard (assistant_text v.message.content) sp
        else sp)
    else if same v.type (codes "agent_end")
    then heard (last_speech v.messages) sp
    else sp

abbrev pub apply_decoded : Option StreamMsg → Spoken → Spoken
apply_decoded none sp = sp
apply_decoded (some v) sp = apply_stream_msg v sp

unfoldable pub spoken_loop : List ParsedLine → Spoken → Spoken
unfolding apply_stream_msg decode_msg
spoken_loop [] sp = sp
spoken_loop (raw t ∷ ls) sp = spoken_loop ls sp
spoken_loop (json v ∷ ls) sp = spoken_loop ls (apply_decoded (decode_msg v) sp)

unfoldable pub final_spoken_text : List ParsedLine → Option Text
unfolding spoken_loop
final_spoken_text ls =
    let sp = spoken_loop ls (record { result = none; last_assistant = none }) in
    or_else sp.result sp.last_assistant

-- Raw lines, whatever they hold, never count as spoken.
pub spoken_loop_raw :
    (ls : List ParsedLine) (t : Text) (rs : List ParsedLine) (sp : Spoken)
    → spoken_loop (ls ++ raw t ∷ rs) sp ≡ spoken_loop (ls ++ rs) sp
unfolding spoken_loop
spoken_loop_raw [] t rs sp = refl
spoken_loop_raw (raw u ∷ ls) t rs sp = spoken_loop_raw ls t rs sp
spoken_loop_raw (json v ∷ ls) t rs sp = spoken_loop_raw ls t rs (apply_decoded (decode_msg v) sp)
