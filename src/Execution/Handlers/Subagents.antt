-- ===== src/Execution/Handlers/Subagents.antt =====
-- core/execution/handlers: lifecycle_handler.py, subagent_lifecycle_handler.py,
-- subagent_message_handler.py and subagent_tools_handler.py. A tool call id and a graph name are
-- texts; one of another kind counts as missing.
use harness_runtime.Base.{
  String, Bool, true, not, ◌&&◌, ◌||◌, Option, none, some, [], ◌∷◌, ◌==◌, ◌<>◌, if◌then◌else◌,
  get_or,
}
use harness_runtime.Value.{
  Value, str, tuple, dict, Fields, end, nil, cons, lookup, or_null, truthy, text, equals, is_list,
  entries,
}
use harness_runtime.Value.Errors.{Result, ok, err, value_error}
use harness_runtime.Publisher.{tool_started, tool_result, tool_output_delta, stream_event_text}
use harness_runtime.Execution.State.{
  Namespace, same_namespace, same_text, find, put, remove, ExecutionState, Event, namespace_of,
}
use harness_runtime.Execution.World.{Env, M, ◌>>=◌, ◌>>◌, pure, lift, get_state, change, publish}
use harness_runtime.Execution.Messages.{get_fields, str_text}

-- Of an event that a tool call caused, the call's id; "" of any other.
abbrev pub cause_id : Fields → String
cause_id event =
    let cause = entries (or_null (lookup "cause" event)) in
    if is_list (or_null (lookup "namespace" event))
      && equals (or_null (lookup "type" cause)) "toolCall"
    then text (or_null (lookup "tool_call_id" cause))
    else ""

abbrev pub graph_name : Fields → String
graph_name event = text (get_or (lookup "graph_name" event) (str "task"))

-- `ns[:-1]`
abbrev pub parent_namespace : Namespace → Namespace
parent_namespace [] = []
parent_namespace (a ∷ []) = []
parent_namespace (a ∷ b ∷ rest) = a ∷ parent_namespace (b ∷ rest)

abbrev with_agent : Namespace → String → String → ExecutionState → ExecutionState
with_agent ns id name s = record s {
  ns_to_tool_call = put same_namespace ns id s.ns_to_tool_call;
  subagent_names = put same_namespace ns name s.subagent_names;
}

abbrev parent_call : Namespace → ExecutionState → Option String
parent_call [] s = none
parent_call (a ∷ ns) s = find same_namespace (a ∷ ns) s.ns_to_tool_call

-- `state.ns_to_tool_call.pop(ns, None)`, and then the other pops and what they change.
abbrev forget_call : Namespace → ExecutionState → ExecutionState
forget_call ns s = record s { ns_to_tool_call = remove same_namespace ns s.ns_to_tool_call }

abbrev forget_agent : Namespace → String → ExecutionState → ExecutionState
forget_agent ns id s = record s {
  subagent_names = remove same_namespace ns s.subagent_names;
  subagent_stream_outputs = remove same_text id s.subagent_stream_outputs;
  subagent_final_outputs = elim (find same_text id s.subagent_stream_outputs) [
    | none ↦ s.subagent_final_outputs
    | some output ↦ put same_text id output s.subagent_final_outputs
  ];
}

-- `accumulated_output or f"subagent_{sub_event}"`
abbrev finished_content : String → Option String → String
finished_content sub_event output =
    let content = get_or output "" in if content == "" then "subagent_" <> sub_event else content

-- The end of a subagent's life, in both lifecycle handlers.
unfoldable pub finish_subagent : Namespace → (sub_event : String) → M Unit
finish_subagent ns sub_event = do
  s ← get_state
  let id = get_or (find same_namespace ns s.ns_to_tool_call) ""
  change (forget_call ns)
  if id == "" then pure tt else do
    change (forget_agent ns id)
    publish (
        tool_result id (get_or (find same_namespace ns s.subagent_names) "task")
          (finished_content sub_event (find same_text id s.subagent_stream_outputs))
          (sub_event == "failed"))

unfoldable pub start_subagent : Fields → M Unit
start_subagent event =
    let id = cause_id event in
    let ns = namespace_of (or_null (lookup "namespace" event)) in
    let name = graph_name event in
    if id == "" then pure tt else do
      change (with_agent ns id name)
      s ← get_state
      publish (tool_started id name (parent_call (parent_namespace ns) s))

abbrev pub is_end : String → Bool
is_end sub_event = sub_event == "completed" || sub_event == "failed"

-- `LifecycleHandler.handle`
unfoldable pub handle_lifecycle : Event → M Bool
unfolding finish_subagent start_subagent
handle_lifecycle e = do
  event ← lift (get_fields e.payload)
  let sub_event = text (or_null (lookup "event" event))
  let ns = or_null (lookup "namespace" event)
  if sub_event == "interrupted" && not (truthy ns)
      then (change (λ s. record s { interrupted = true }) >> pure true)
      else if sub_event == "started"
      then (start_subagent event >> pure true)
      else if is_end sub_event && is_list ns
      then (finish_subagent (namespace_of ns) sub_event >> pure true)
      else pure true

-- `SubagentLifecycleHandler.handle`
unfoldable pub handle_subagent_lifecycle : Event → M Bool
unfolding finish_subagent
handle_subagent_lifecycle e = do
  event ← lift (get_fields e.payload)
  let sub_event = text (or_null (lookup "event" event))
  let id = cause_id event
  if sub_event == "started"
      then (if id == ""
          then pure true
          else (change (with_agent e.namespace id (graph_name event)) >> pure true))
      else if is_end sub_event
      then (finish_subagent e.namespace sub_event >> pure true)
      else pure true

-- `payload, _metadata = raw if isinstance(raw, tuple) else (raw, {})`
abbrev pub message_payload : Value → Result Value
message_payload (tuple (cons payload (cons metadata nil))) = ok payload
message_payload (tuple _) = err value_error
message_payload v = ok v

-- `state.subagent_stream_outputs.setdefault(id, "")` and `+=`
abbrev with_output : String → String → ExecutionState → ExecutionState
with_output id new s = record s {
  subagent_stream_outputs =
      put same_text id (get_or (find same_text id s.subagent_stream_outputs) "" <> new)
        s.subagent_stream_outputs;
}

module _ (env : Env) where
  unfoldable pub stream_delta : (id name : String) → Fields → M Unit
  stream_delta id name delta =
      let said = text (get_or (lookup "text" delta) (str "")) in
      if equals (or_null (lookup "type" delta)) "tool_use"
      then publish (
          stream_event_text (
            "\n*Tool Call: "
            <> str_text env.str_of (get_or (lookup "name" delta) (str "unknown"))
            <> "*\n"))
      else if said == ""
      then pure tt
      else (publish (tool_output_delta id name said) >> change (with_output id said))

  -- `SubagentMessageHandler.handle`; a delta's text is a text.
  unfoldable pub handle_subagent_message : Event → M Bool
  unfolding stream_delta
  handle_subagent_message e = do
    s ← get_state
    let id = get_or (find same_namespace e.namespace s.ns_to_tool_call) ""
    let name = get_or (find same_namespace e.namespace s.subagent_names) "task"
    if id == "" then pure true else do
      payload ← lift (message_payload e.payload)
      let message = entries payload
      if equals (or_null (lookup "event" message)) "content-block-delta"
          then (stream_delta id name (entries (get_or (lookup "delta" message) (dict end)))
              >> pure true)
          else pure true

  -- `SubagentToolsHandler.handle`
  unfoldable pub handle_subagent_tools : Event → M Bool
  handle_subagent_tools e = do
    event ← lift (get_fields e.payload)
    let output = get_or (lookup "output" event) (str "")
    let name = get_or (lookup "tool_name" event) (str "unknown")
    if equals (or_null (lookup "event" event)) "tool-finished" && truthy output
        then (publish (
              stream_event_text (
                "\n*Tool Result ("
                <> str_text env.str_of name
                <> "):*\n"
                <> str_text env.str_of output
                <> "\n"))
            >> pure true)
        else pure true
