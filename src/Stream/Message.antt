-- ===== src/Stream/Message.antt =====
-- streamMsg, assistantText and asString of backend/usecase/buildclass.go.
use saki_cli.Base.{
  not, ◌&&◌, Option, none, some, List, [], ◌∷◌, if◌then◌else◌, Text, codes, same, is_empty,
  join_lines,
}
use saki_cli.Json.{◌>>=◌, or_else, get_field, as_text, as_struct, as_list, Json, null, str, Fields}

pub record Speech : Type 0 where
  pub role : Text
  pub content : Option Json

pub record StreamMsg : Type 0 where
  pub type : Text
  pub result : Option Json
  pub message : Speech
  pub content : Option Json
  pub part_text : Text
  pub item_type : Text
  pub item_text : Text
  pub messages : List Speech

unfoldable pub speech : Fields → Option Speech
unfolding get_field as_text
speech fs = do
  role ← as_text (get_field (codes "role") fs)
  some (record { role = role; content = get_field (codes "content") fs })

speech_item : Json → Option Speech
unfolding as_struct speech
speech_item v = do fs ← as_struct (some v); speech fs

-- json.Unmarshal(l.Value, &v): none where it returns an error.
unfoldable pub decode_msg : Json → Option StreamMsg
unfolding get_field as_text as_struct as_list speech speech_item
decode_msg v = do
  fs ← as_struct (some v)
  type ← as_text (get_field (codes "type") fs)
  message_fields ← as_struct (get_field (codes "message") fs)
  message ← speech message_fields
  part ← as_struct (get_field (codes "part") fs)
  _ ← as_text (get_field (codes "type") part)
  part_text ← as_text (get_field (codes "text") part)
  item ← as_struct (get_field (codes "item") fs)
  item_type ← as_text (get_field (codes "type") item)
  item_text ← as_text (get_field (codes "text") item)
  messages ← as_list speech_item (get_field (codes "messages") fs)
  some (record {
    type = type;
    result = get_field (codes "result") fs;
    message = message;
    content = get_field (codes "content") fs;
    part_text = part_text;
    item_type = item_type;
    item_text = item_text;
    messages = messages;
  })

-- asString: null decodes to the empty string.
unfoldable pub as_string : Option Json → Option Text
as_string none = none
as_string (some null) = some []
as_string (some (str s)) = some s
as_string (some v) = none

-- A content block: its type and its text.
block_item : Json → Option (Text × Text)
unfolding as_struct get_field as_text
block_item v = do
  fs ← as_struct (some v)
  type ← as_text (get_field (codes "type") fs)
  text ← as_text (get_field (codes "text") fs)
  some (type, text)

unfoldable pub block_texts : List (Text × Text) → List Text
block_texts [] = []
block_texts ((type, text) ∷ bs) =
    let rest = block_texts bs in
    if same type (codes "text") && not (is_empty text) then text ∷ rest else rest

unfoldable pub join_texts : List Text → Option Text
join_texts [] = none
join_texts (t ∷ ts) = some (join_lines (t ∷ ts))

unfoldable pub assistant_text : Option Json → Option Text
unfolding as_string as_list block_item block_texts join_texts
assistant_text none = none
assistant_text (some v) =
    or_else (as_string (some v))
      (do blocks ← as_list block_item (some v); join_texts (block_texts blocks))
