-- ===== src/Execution/Handlers/Values.antt =====
-- core/execution/handlers: root_values_handler.py and subagent_values_handler.py.
use harness_runtime.Base.{
  is_empty, ℕ, String, Bool, true, false, not, ◌&&◌, Option, none, some, List, [], ◌∷◌, map, ◌==◌,
  ltb, if◌then◌else◌, get_or, length, drop, keep, any, split,
}
use harness_runtime.Value.{
  Value, null, str, list, dict, Fields, end, field, nil, lookup, or_null, truthy, text, equals,
  is_list, insert, update, texts_value, same,
}
use harness_runtime.Value.Errors.{Result, ok, err, type_error}
use harness_runtime.Publisher.{
  assistant, values, checkpoint, ResultArgs, default_result, publish_turn_end, completed,
}
use harness_runtime.Reports.{has_unanswered_question, is_reply}
use harness_runtime.Reports.Throttle.{note_new_messages}
use harness_runtime.Execution.State.{
  Namespace, same_namespace, same_text, find, put, ExecutionState, Event,
}
use harness_runtime.Execution.World.{
  Env, M, ◌>>=◌, ◌>>◌, pure, lift, get_state, change, publish, publish_all, tick, store_messages,
  store_files, report_if,
}
use harness_runtime.Execution.Messages.{
  iterate, serialize_messages_for_values, is_job_outcome, is_todo_reminder, is_computer_report,
  extract_context_usage, extract_interrupt_payload,
}
use harness_runtime.Execution.Handlers.Root.{text_block}

-- `last_files.update(state_files)`, which takes a dict.
abbrev files_of : Value → Result Fields
files_of (dict fs) = ok fs
files_of _ = err type_error

abbrev with_files : Fields → ExecutionState → ExecutionState
with_files fs s = record s { last_files = update s.last_files fs }

-- The values of a state channel; an event without the channel has none.
abbrev channel : String → Fields → Value
channel k event = get_or (lookup k event) (list nil)

-- `{**msg.get("additional_kwargs", {}), "namespace": list(ns)}` and the call's id
abbrev annotated_kwargs : Namespace → Option String → Fields → Value
annotated_kwargs ns id kwargs =
    let named = insert "namespace" (texts_value ns) kwargs in
    dict (elim id [ none ↦ named | some call ↦ insert "tool_call_id" (str call) named ])

unfoldable pub annotate : Namespace → Option String → List Fields → Result (List Fields)
annotate ns id [] = ok []
annotate ns id (m ∷ ms) =
    let rest = annotate ns id ms in
    elim (get_or (lookup "additional_kwargs" m) (dict end)) [
      | dict kwargs ↦ elim rest [
        | ok others ↦ ok (insert "additional_kwargs" (annotated_kwargs ns id kwargs) m ∷ others)
        | err e ↦ err e
      ]
      | _ ↦ err type_error
    ]

abbrev last_part : Namespace → String
last_part [] = "agent"
last_part (a ∷ []) = a
last_part (a ∷ b ∷ rest) = last_part (b ∷ rest)

-- `ns[-1].split(":")[0]`
abbrev first_piece : List String → String
first_piece [] = ""
first_piece (s ∷ ss) = s

abbrev agent_name : Namespace → ExecutionState → String
agent_name ns s =
    let name = get_or (find same_namespace ns s.subagent_names) "" in
    if name == "" then first_piece (split b':' (last_part ns)) else name

abbrev todos_of : Namespace → String → Value → Value
todos_of ns agent todos =
    dict (field "agent" (str agent) (field "namespace" (texts_value ns) (field "todos" todos end)))

-- `todos != state.subagent_todos.get(ns)`
abbrev is_new_list : Value → Option Value → Bool
is_new_list todos none = true
is_new_list todos (some old) = not (same todos old)

-- The result of a subagent's stream goes with the tool message that ends it.
abbrev with_stream : List (String × String) → Fields → Fields
with_stream outputs m =
    let output = find same_text (text (or_null (lookup "tool_call_id" m))) outputs in
    if equals (or_null (lookup "type" m)) "tool"
    then elim output [ none ↦ m | some t ↦ insert "subagent_streaming_text" (str t) m ]
    else m

abbrev is_shown : Fields → Bool
is_shown m = not (is_job_outcome m) && not (is_todo_reminder m) && not (is_computer_report m)

abbrev pub is_no_reminder : Fields → Bool
is_no_reminder m = not (is_todo_reminder m)

module _ (env : Env) where
  unfoldable pub serialize : List Value → M (List Fields)
  serialize ms = do
    n ← tick
    pure (serialize_messages_for_values env.str_of env.dumps (env.uuid n) 0 ms)

  unfoldable pub publish_subagent_files : Value → M Unit
  publish_subagent_files v =
      if truthy v
      then (do
        files ← lift (files_of v)
        change (with_files files)
        publish (values [] files null null)
        if env.has_pool then store_files env files else pure tt)
      else pure tt

  unfoldable pub publish_subagent_todos : Namespace → Value → M Unit
  publish_subagent_todos ns todos = do
    s ← get_state
    if is_list todos && is_new_list todos (find same_namespace ns s.subagent_todos)
        then (do
          change (λ t. record t { subagent_todos = put same_namespace ns todos t.subagent_todos })
          publish (values [] end null (todos_of ns (agent_name ns s) todos)))
        else pure tt

  unfoldable pub store_subagent_messages : Namespace → (prev_count : ℕ) → List Fields → M Unit
  store_subagent_messages ns prev_count shown = do
    s ← get_state
    messages ← lift (annotate ns (find same_namespace ns s.ns_to_tool_call) shown)
    if env.has_pool then (store_messages env messages prev_count "subagent" >> pure tt) else pure tt
    report_if env (λ now. note_new_messages now env.session_id (drop prev_count messages))

  unfoldable pub subagent_values : Namespace → Fields → M Bool
  unfolding publish_subagent_files publish_subagent_todos store_subagent_messages serialize annotate
  subagent_values ns event = do
    publish_subagent_files (or_null (lookup "files" event))
    publish_subagent_todos ns (or_null (lookup "todos" event))
    messages ← lift (iterate (channel "messages" event))
    s ← get_state
    let prev_count = get_or (find same_namespace ns s.subagent_values_messages_count) 0
    if ltb prev_count (length messages)
        then (do
          change (λ t. record t {
            subagent_values_messages_count =
                put same_namespace ns (length messages) t.subagent_values_messages_count;
          })
          serialized ← serialize messages
          let shown = keep is_no_reminder serialized
          if is_empty shown
              then pure true
              else (store_subagent_messages ns prev_count shown >> pure true))
        else pure true

  unfoldable pub on_subagent_values : Namespace → Value → M Bool
  unfolding subagent_values
  on_subagent_values ns (dict event) = subagent_values ns event
  on_subagent_values ns _ = pure true

  -- `SubagentValuesHandler.handle`
  unfoldable pub handle_subagent_values : Event → M Bool
  unfolding on_subagent_values
  handle_subagent_values e = on_subagent_values e.namespace e.payload

  -- The part of `handle` for messages that are not all hidden.
  unfoldable pub record_messages : (prev_count : ℕ) → (messages : List Value) → List Fields → M Unit
  record_messages prev_count messages shown = do
    s ← get_state
    let rows = map (with_stream s.subagent_final_outputs) shown
    if env.has_pool
        then (do
          inserted ← store_messages env rows prev_count "deepagents"
          if any (is_reply env.str_of) inserted
              then change (λ t. record t { replied = true })
              else pure tt
          store_files env s.last_files)
        else pure tt
    publish checkpoint
    usage ← lift (extract_context_usage env.int_of messages)
    publish (values (map dict rows) s.last_files usage null)
    change (λ t. record t { unanswered_question = has_unanswered_question rows })
    report_if env (λ now. note_new_messages now env.session_id (drop prev_count rows))

  unfoldable pub record_new_messages : List Value → M Unit
  unfolding record_messages
  record_new_messages messages = do
    s ← get_state
    let prev_count = s.values_messages_count
    if ltb prev_count (length messages)
        then (do
          change (λ t. record t { values_messages_count = length messages })
          serialized ← serialize messages
          let shown = keep is_shown serialized
          if is_empty shown then pure tt else record_messages prev_count messages shown)
        else pure tt

  abbrev pub interrupted_args : String → ℕ → Value → ResultArgs
  interrupted_args remaining duration_ms payload = record default_result {
    subtype = "interrupted";
    duration_ms = duration_ms;
    num_turns = env.num_turns;
    result = if remaining == "" then none else some remaining;
    interrupt = payload;
  }

  -- `_publish_interrupt`
  unfoldable pub publish_interrupt : List Value → M Unit
  publish_interrupt interrupts = do
    s ← get_state
    change (λ t. record t { streamed_text = "" })
    if s.streamed_text == ""
        then pure tt
        else publish (assistant "" (text_block s.streamed_text ∷ []))
    n ← tick
    publish_all (
        publish_turn_end completed none
          (interrupted_args s.streamed_text (env.elapsed n) (extract_interrupt_payload interrupts)))
    change (λ t. record t { interrupted = true })

  abbrev pub note_response : Fields → M Unit
  note_response event = elim (lookup "structured_response" event) [
    | none ↦ pure tt
    | some response ↦ change (λ t. record t { last_structured_response = response })
  ]

  abbrev note_files : Value → M Unit
  note_files v =
      if truthy v then (lift (files_of v) >>= λ files. change (with_files files)) else pure tt

  -- What `RootValuesHandler.handle` does before it looks for an interrupt.
  unfoldable pub record_values : Fields → M Unit
  unfolding record_new_messages serialize
  record_values event = do
    note_response event
    note_files (or_null (lookup "files" event))
    messages ← lift (iterate (channel "messages" event))
    record_new_messages messages

  unfoldable pub stop_on : List Value → M Bool
  unfolding publish_interrupt
  stop_on [] = pure true
  stop_on (i ∷ is) = publish_interrupt (i ∷ is) >> pure false

  unfoldable pub on_root_values : List Value → Value → M Bool
  unfolding record_values stop_on
  on_root_values interrupts (dict event) = record_values event >> stop_on interrupts
  on_root_values interrupts _ = pure true

  -- `RootValuesHandler.handle`
  unfoldable pub handle_root_values : Event → M Bool
  unfolding on_root_values
  handle_root_values e = on_root_values e.interrupts e.payload
