-- ===== src/Execution/Handlers/Root.antt =====
-- core/execution/handlers: root_message_handler.py, root_tools_handler.py and the default handler of
-- tools.py, the only one that the program registers.
use harness_runtime.Base.{
  is_empty, String, Bool, true, false, [], ◌∷◌, ◌++◌, ◌==◌, ◌<>◌, if◌then◌else◌, get_or,
}
use harness_runtime.Value.{
  Value, bool, str, dict, Fields, end, field, lookup, or_null, or_else, truthy, text, equals,
  entries,
}
use harness_runtime.Value.Errors.{type_error}
use harness_runtime.Publisher.{
  assistant, stream_event_text, tool_result, tool_output_delta, message_finish,
}
use harness_runtime.Execution.State.{ExecutionState, Event}
use harness_runtime.Execution.World.{
  Env, M, ◌>>=◌, ◌>>◌, pure, throw, exception, lift, get_state, change, publish, tick,
}
use harness_runtime.Execution.Messages.{get_fields, extract_tool_finished_content}
use harness_runtime.Execution.Handlers.Subagents.{message_payload}

abbrev pub text_block : String → Fields
text_block t = field "type" (str "text") (field "text" (str t) end)

-- A tool call of a message that begins; `fresh` is its id when it has none.
abbrev tool_use_block : (fresh : String) → Fields → Fields
tool_use_block fresh content = field "type" (str "tool_use") (
    field "id" (get_or (lookup "id" content) (str fresh)) (
      field "name" (get_or (lookup "name" content) (str "unknown")) (
        field "input" (get_or (lookup "args" content) (get_or (lookup "input" content) (dict end)))
          end)))

abbrev with_text : String → ExecutionState → ExecutionState
with_text new s = record s { streamed_text = s.streamed_text <> new }

abbrev with_block : Fields → ExecutionState → ExecutionState
with_block block s = record s { current_tool_use_blocks = s.current_tool_use_blocks ++ block ∷ [] }

-- The text of a delta, when it is one; `str` and `+=` raise on what is no text.
abbrev pub delta_text : Fields → Value
delta_text message =
    get_or (lookup "text" (entries (get_or (lookup "delta" message) (dict end)))) (str "")

unfoldable pub add_text : Value → M Unit
add_text (str t) =
    if t == "" then pure tt else (change (with_text t) >> publish (stream_event_text t))
add_text v = if truthy v then throw (exception type_error) else pure tt

module _ (env : Env) where
  unfoldable pub start_block : Fields → M Unit
  start_block message =
      let content = entries (get_or (lookup "content" message) (dict end)) in
      if equals (or_null (lookup "type" content)) "tool_call"
      then (do n ← tick; change (with_block (tool_use_block ("call_" <> env.uuid n 0) content)))
      else pure tt

  unfoldable pub finish_message : M Unit
  finish_message = do
    s ← get_state
    if is_empty s.current_tool_use_blocks
        then pure tt
        else publish
            (assistant env.model_name (text_block s.streamed_text ∷ s.current_tool_use_blocks))
    change (λ t. record t { current_tool_use_blocks = [] })
    publish message_finish

  -- `RootMessageHandler.handle`
  unfoldable pub handle_root_message : Event → M Bool
  unfolding add_text start_block finish_message
  handle_root_message e = do
    payload ← lift (message_payload e.payload)
    let message = entries payload
    let kind = text (or_null (lookup "event" message))
    if kind == "content-block-delta"
        then (add_text (delta_text message) >> pure true)
        else if kind == "content-block-start"
        then (start_block message >> pure true)
        else if kind == "message-finish"
        then (finish_message >> pure true)
        else pure true

  -- `DefaultToolHandler`
  unfoldable pub handle_output_delta : (id name : String) → Fields → M Unit
  handle_output_delta id name event =
      let delta = get_or (lookup "delta" event) (str "") in
      if truthy delta then publish (tool_output_delta id name (text delta)) else pure tt

  unfoldable pub handle_finished : (id name : String) → Fields → M Unit
  handle_finished id name event = do
    content ← lift (
        extract_tool_finished_content env.str_of env.dumps
          (get_or (lookup "output" event) (str "")))
    publish (tool_result id name content (truthy (get_or (lookup "is_error" event) (bool false))))

  -- `RootToolsHandler.handle`
  unfoldable pub handle_root_tools : Event → M Bool
  unfolding handle_output_delta handle_finished
  handle_root_tools e = do
    event ← lift (get_fields e.payload)
    let kind = text (or_null (lookup "event" event))
    let id = text (or_null (lookup "tool_call_id" event))
    let name = text (
        or_else (or_else (or_null (lookup "tool_name" event)) (or_null (lookup "name" event)))
          (str "unknown"))
    if id == ""
        then pure true
        else if kind == "tool-output-delta"
        then (handle_output_delta id name event >> pure true)
        else if kind == "tool-finished"
        then (handle_finished id name event >> pure true)
        else pure true
