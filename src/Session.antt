-- ===== src/Session.antt =====
-- core/session/session.py and core/session/execution.py: what a turn of a session gives to the graph.
-- An attachment is a dict, whose source, mime type and names are texts. `fetch` is the download of a
-- URL: the length of its body, and the body in base64.
pub mod Input
pub mod Attachments
mod Samples
use Prim.Native.Char.{code}
use harness_runtime.Base.{
  ℕ, zero, suc, ◌*◌, ltb, nat_eq, String, Bool, true, false, not, ◌&&◌, ◌||◌, Option, none, some,
  List, [], ◌∷◌, ◌++◌, ◌==◌, ◌<>◌, if◌then◌else◌, get_or, starts_with, is_empty, map,
}
use harness_runtime.Value.{
  Value, null, str, list, dict, Fields, end, field, lookup, or_null, insert, truthy, text, equals,
  entries, list_of,
}
use harness_runtime.Value.Errors.{Result, ok, err, key_error, value_error, index_error, ◌>>=◌}
use harness_runtime.Execution.Messages.{iterate}

abbrev pub max_attachment_bytes : ℕ
max_attachment_bytes = 8 * 1024 * 1024

-- `d[k]`
abbrev pub item : String → Fields → Result Value
item k fs = elim (lookup k fs) [ none ↦ err key_error | some v ↦ ok v ]

abbrev pub is_image : Fields → Bool
is_image a = starts_with (text (or_null (lookup "mime" a))) "image/"

-- An image that is inlined: its source is the data, and where it came from is kept.
abbrev pub inlined : Fields → (url : Value) → (mime encoded : String) → Fields
inlined a url mime encoded = insert "source_url" url (
    insert "source"
      (dict (
        field "type" (str "data")
          (field "value" (str ("data:" <> mime <> ";base64," <> encoded)) end)))
      a)

module _ (fetch : String → Result (ℕ × String)) where
  download : Fields → Fields → Result Fields
  download a source = do
    url ← item "value" source
    body ← fetch (text url)
    if ltb max_attachment_bytes body.0
        then err value_error
        else (do mime ← item "mime" a; ok (inlined a url (text mime) body.1))

  inline_attachment : Fields → Result Fields
  unfolding download
  inline_attachment a = do
    source ← item "source" a
    kind ← item "type" (entries source)
    if not (equals kind "object") || not (is_image a) then ok a else download a (entries source)

  -- The loop; a download that fails ends the turn.
  unfoldable pub inline_object_attachments : List Fields → Result (List Fields)
  unfolding inline_attachment
  inline_object_attachments [] = ok []
  inline_object_attachments (a ∷ attachments) = do
    b ← inline_attachment a
    rest ← inline_object_attachments attachments
    ok (b ∷ rest)

abbrev pub text_block : String → Fields
text_block said = field "type" (str "text") (field "text" (str said) end)

abbrev pub image_block : (source_type key data_text mime : String) → Fields
image_block source_type key data_text mime = field "type" (str "image") (
    field "source_type" (str source_type)
      (field key (str data_text) (field "mime_type" (str mime) end)))

-- `s.split(",", 1)[1]`
after_comma : String → Result String
after_comma String.[] = err index_error
after_comma (String.◌∷◌ c s) =
    let rest = after_comma s in if nat_eq (code c) b',' then ok s else rest

abbrev item_text : String → Fields → Result String
item_text k fs = item k fs >>= λ v. ok (text v)

-- What names an attachment that is no image: never its data.
reference : Fields → Fields → Result String
reference a source = do
  kind ← item "type" source
  let filename = or_null (lookup "filename" a)
  if equals kind "object"
      then item_text "value" source
      else if truthy filename
      then ok (text filename)
      else item_text "mime" a

file_blocks : Fields → Fields → Result (List Fields)
unfolding reference
file_blocks a source = do
  ref ← reference a source
  ok (
      text_block
        ("[Attached " <> text (get_or (lookup "kind" a) (str "file")) <> ": " <> ref <> "]")
      ∷ [])

-- An image is named by a text before it.
image_blocks : Fields → Fields → Result (List Fields)
unfolding after_comma
image_blocks a source = do
  kind ← item "type" source
  if equals kind "object"
      then (do
        url ← item "value" source
        mime ← item "mime" a
        ok (
            text_block ("[Attached image: " <> text url <> "]")
            ∷ image_block "url" "url" (text url) (text mime)
            ∷ []))
      else if equals kind "data"
      then (do
        value ← item "value" source
        encoded ← after_comma (text value)
        mime ← item "mime" a
        let origin = or_null (lookup "source_url" a)
        ok (
            text_block (
              if truthy origin
              then "[Attached image: " <> text origin <> "]"
              else "[Attached image: inline data, no URL available]")
            ∷ image_block "base64" "data" encoded (text mime)
            ∷ []))
      else ok []

attachment_blocks : Fields → Result (List Fields)
unfolding file_blocks image_blocks
attachment_blocks a = do
  source ← item "source" a
  if is_image a then image_blocks a (entries source) else file_blocks a (entries source)

all_blocks : List Fields → Result (List Fields)
unfolding attachment_blocks
all_blocks [] = ok []
all_blocks (a ∷ attachments) = do
  blocks ← attachment_blocks a
  rest ← all_blocks attachments
  ok (blocks ++ rest)

unfoldable pub build_message_content : String → List Fields → Result Value
unfolding all_blocks
build_message_content user_content [] = ok (str user_content)
build_message_content user_content (a ∷ attachments) = do
  blocks ← all_blocks (a ∷ attachments)
  ok (list_of (map dict (if user_content == "" then blocks else text_block user_content ∷ blocks)))

abbrev message : (role : String) → Value → Value
message role content = dict (field "role" (str role) (field "content" content end))

-- The base payload with the turn's message at the end of its messages.
unfoldable pub prepare_turn_input :
    Fields → (user_content role : String) → List Fields → Result Fields
unfolding build_message_content
prepare_turn_input base user_content role attachments = do
  messages ← iterate (get_or (lookup "messages" base) (list_of []))
  if user_content == "" && is_empty attachments
      then ok (insert "messages" (list_of messages) base)
      else (do
        content ← build_message_content user_content attachments
        ok (insert "messages" (list_of (messages ++ message role content ∷ [])) base))

-- What async_run_turn passes as the input of async_execute.
unfoldable pub turn_input :
    (fetch : String → Result (ℕ × String))
    → Fields
    → (user_content role : String) → List Fields
    → Result Fields
unfolding inline_object_attachments prepare_turn_input
turn_input fetch base user_content role attachments = do
  inline ← inline_object_attachments fetch attachments
  prepare_turn_input base user_content role inline
