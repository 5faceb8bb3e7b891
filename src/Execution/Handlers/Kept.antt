-- ===== src/Execution/Handlers/Kept.antt =====
-- What the handlers of core/execution/handlers keep of the tables and the calls.
use harness_runtime.Base.{ℕ, String, true, Option, none, some, List, ◌==◌, get_or, keep}
use harness_runtime.Value.{Value, null, str, dict, Fields, lookup, or_null, text, entries, end}
use harness_runtime.Execution.State.{Namespace, same_namespace, find, Event}
use harness_runtime.Execution.World.{Env, World, M, ◌>>=◌, pure, change}
use harness_runtime.Execution.World.Rules.{
  Keeps, Rule, keep_pure, keep_throw, keep_lift, keep_get_state, keep_bind, keep_if, keep_report_if,
}
use harness_runtime.Execution.Handlers.Subagents.{
  finish_subagent, start_subagent, handle_lifecycle, handle_subagent_lifecycle, stream_delta,
  handle_subagent_message, handle_subagent_tools,
}
use harness_runtime.Execution.Handlers.Root.{
  add_text, start_block, finish_message, handle_root_message, handle_output_delta, handle_finished,
  handle_root_tools, delta_text,
}
use harness_runtime.Execution.Handlers.Values.{
  subagent_values, on_subagent_values, serialize, publish_subagent_files, publish_subagent_todos,
  store_subagent_messages, handle_subagent_values, record_messages, record_new_messages,
  record_values, note_response, is_no_reminder,
}
use harness_runtime.Execution.Handlers.{
  Handler, lifecycle_handler, subagent_message_handler, subagent_values_handler,
  subagent_lifecycle_handler, subagent_tools_handler, root_message_handler, root_tools_handler,
  root_values_handler, handle,
}

abbrev pub IsRelay : Handler → Type 0
IsRelay root_values_handler = ⊥
IsRelay h = Unit

module _ {env : Env} {P : World → Type 0} (rule : Rule env P) where
  open rule use {changed, ticked, published, stored_messages, stored_files}

  keep_then : {A B : Type 0} {m : M A} {n : M B} → Keeps P m → Keeps P n → Keeps P (m >>= λ _. n)
  keep_then h k = keep_bind h (λ _. k)

  finish-Kept : (ns : Namespace) (sub_event : String) → Keeps P (finish_subagent ns sub_event)
  unfolding finish_subagent
  finish-Kept ns sub_event = keep_bind keep_get_state (λ s.
      keep_then (changed _) (keep_if _ (keep_pure tt) (keep_then (changed _) (published _ tt))))

  start-Kept : (event : Fields) → Keeps P (start_subagent event)
  unfolding start_subagent
  start-Kept event =
      keep_if _ (keep_pure tt)
        (keep_then (changed _) (keep_bind keep_get_state (λ s. published _ tt)))

  lifecycle-Kept : (e : Event) → Keeps P (handle_lifecycle e)
  unfolding handle_lifecycle
  lifecycle-Kept e = keep_bind (keep_lift _) (λ event.
      keep_if _ (keep_then (changed _) (keep_pure true)) (
        keep_if _ (keep_then (start-Kept event) (keep_pure true))
          (keep_if _ (keep_then (finish-Kept _ _) (keep_pure true)) (keep_pure true))))

  subagent_lifecycle-Kept : (e : Event) → Keeps P (handle_subagent_lifecycle e)
  unfolding handle_subagent_lifecycle
  subagent_lifecycle-Kept e = keep_bind (keep_lift _) (λ event.
      keep_if _ (keep_if _ (keep_pure true) (keep_then (changed _) (keep_pure true)))
        (keep_if _ (keep_then (finish-Kept _ _) (keep_pure true)) (keep_pure true)))

  delta-Kept : (id name : String) (delta : Fields) → Keeps P (stream_delta env id name delta)
  unfolding stream_delta
  delta-Kept id name delta =
      keep_if _ (published _ tt) (keep_if _ (keep_pure tt) (keep_then (published _ tt) (changed _)))

  subagent_message-Kept : (e : Event) → Keeps P (handle_subagent_message env e)
  unfolding handle_subagent_message
  subagent_message-Kept e = keep_bind keep_get_state (λ s. keep_if _ (keep_pure true) (
      keep_bind (keep_lift _) (λ payload.
        keep_if _
          (keep_then
            (delta-Kept (get_or (find same_namespace e.namespace s.ns_to_tool_call) "")
              (get_or (find same_namespace e.namespace s.subagent_names) "task")
              (entries (get_or (lookup "delta" (entries payload)) (dict end))))
            (keep_pure true))
          (keep_pure true))))

  subagent_tools-Kept : (e : Event) → Keeps P (handle_subagent_tools env e)
  unfolding handle_subagent_tools
  subagent_tools-Kept e =
      keep_bind (keep_lift _)
        (λ event. keep_if _ (keep_then (published _ tt) (keep_pure true)) (keep_pure true))

  add_text-Kept : (v : Value) → Keeps P (add_text v)
  unfolding add_text
  add_text-Kept (str t) = keep_if _ (keep_pure tt) (keep_then (changed _) (published _ tt))
  add_text-Kept null = keep_if _ (keep_throw _) (keep_pure tt)
  add_text-Kept v = keep_if _ (keep_throw _) (keep_pure tt)

  start_block-Kept : (message : Fields) → Keeps P (start_block env message)
  unfolding start_block
  start_block-Kept message = keep_if _ (keep_bind ticked (λ n. changed _)) (keep_pure tt)

  finish_message-Kept : Keeps P (finish_message env)
  unfolding finish_message
  finish_message-Kept = keep_bind keep_get_state (λ s.
      keep_then (keep_if _ (keep_pure tt) (published _ tt))
        (keep_then (changed _) (published _ tt)))

  root_message-Kept : (e : Event) → Keeps P (handle_root_message env e)
  unfolding handle_root_message
  root_message-Kept e = keep_bind (keep_lift _) (λ payload.
      let message = entries payload in
      let kind = text (or_null (lookup "event" message)) in
      keep_if (kind == "content-block-delta")
        (keep_then (add_text-Kept (delta_text message)) (keep_pure true))
        (keep_if (kind == "content-block-start")
          (keep_then (start_block-Kept message) (keep_pure true))
          (keep_if (kind == "message-finish") (keep_then finish_message-Kept (keep_pure true))
            (keep_pure true))))

  root_tools-Kept : (e : Event) → Keeps P (handle_root_tools env e)
  unfolding handle_root_tools handle_output_delta handle_finished
  root_tools-Kept e = keep_bind (keep_lift _) (λ event. keep_if _ (keep_pure true) (
      keep_if _ (keep_then (keep_if _ (published _ tt) (keep_pure tt)) (keep_pure true)) (
        keep_if _ (keep_then (keep_bind (keep_lift _) (λ content. published _ tt)) (keep_pure true))
          (keep_pure true))))

  serialize-Kept : (ms : List Value) → Keeps P (serialize env ms)
  unfolding serialize
  serialize-Kept ms = keep_bind ticked (λ n. keep_pure _)

  subagent_files-Kept : (v : Value) → Keeps P (publish_subagent_files env v)
  unfolding publish_subagent_files
  subagent_files-Kept v =
      keep_if _
        (keep_bind (keep_lift _) (λ files.
          keep_then (changed _)
            (keep_then (published _ tt) (keep_if _ (stored_files files) (keep_pure tt)))))
        (keep_pure tt)

  todos-Kept : (ns : Namespace) (v : Value) → Keeps P (publish_subagent_todos env ns v)
  unfolding publish_subagent_todos
  todos-Kept ns v =
      keep_bind keep_get_state
        (λ s. keep_if _ (keep_then (changed _) (published _ tt)) (keep_pure tt))

  store-Kept :
      (ns : Namespace) (n : ℕ) (shown : List Fields)
      → Keeps P (store_subagent_messages env ns n shown)
  unfolding store_subagent_messages
  store-Kept ns n shown = keep_bind keep_get_state (λ s. keep_bind (keep_lift _) (λ messages.
      keep_then (keep_if _ (keep_then (stored_messages messages n _) (keep_pure tt)) (keep_pure tt))
        (keep_report_if _ rule)))

  subagent_values-Kept : (ns : Namespace) (event : Fields) → Keeps P (subagent_values env ns event)
  unfolding subagent_values
  subagent_values-Kept ns event = keep_then (subagent_files-Kept _) (
      keep_then (todos-Kept _ _) (
        keep_bind (keep_lift _) (λ messages. keep_bind keep_get_state (λ s.
          keep_if _
            (keep_then (changed _) (
              keep_bind (serialize-Kept messages) (λ serialized. keep_if _ (keep_pure true) (
                keep_then
                  (store-Kept ns
                    (get_or (find same_namespace ns s.subagent_values_messages_count) 0)
                    (keep is_no_reminder serialized))
                  (keep_pure true)))))
            (keep_pure true)))))

  on_subagent_values-Kept : (ns : Namespace) (v : Value) → Keeps P (on_subagent_values env ns v)
  unfolding on_subagent_values
  on_subagent_values-Kept ns (dict event) = subagent_values-Kept ns event
  on_subagent_values-Kept ns null = keep_pure true
  on_subagent_values-Kept ns v = keep_pure true

  record_messages-Kept :
      (n : ℕ) (messages : List Value) (shown : List Fields)
      → Keeps P (record_messages env n messages shown)
  unfolding record_messages
  record_messages-Kept n messages shown = keep_bind keep_get_state (λ s.
      keep_then
        (keep_if _
          (keep_bind (stored_messages _ n _) (λ inserted.
            keep_then (keep_if _ (changed _) (keep_pure tt)) (stored_files s.last_files)))
          (keep_pure tt))
        (keep_then (published _ tt) (
          keep_bind (keep_lift _)
            (λ usage. keep_then (published _ tt) (keep_then (changed _) (keep_report_if _ rule))))))

  response-Kept : (event : Fields) → Keeps P (note_response env event)
  response-Kept event = of_option (lookup "structured_response" event)
    where
      of_option :
          (o : Option Value)
          → Keeps P (elim o [
            | none ↦ pure tt
            | some response ↦ change (λ t. record t { last_structured_response = response })
          ])
      of_option none = keep_pure tt
      of_option (some v) = changed _

  pub record_values-Kept : (event : Fields) → Keeps P (record_values env event)
  unfolding record_values record_new_messages
  record_values-Kept event = keep_then (response-Kept event) (
      keep_then (keep_if _ (keep_bind (keep_lift _) (λ files. changed _)) (keep_pure tt)) (
        keep_bind (keep_lift _) (λ messages. keep_bind keep_get_state (λ s.
          keep_if _
            (keep_then (changed _) (
              keep_bind (serialize-Kept messages)
                (λ serialized. keep_if _ (keep_pure tt) (record_messages-Kept _ messages _))))
            (keep_pure tt)))))

  -- A handler other than the root's values handler.
  pub handle-Kept : (h : Handler) (e : Event) → IsRelay h → Keeps P (handle env h e)
  unfolding handle handle_subagent_values
  handle-Kept lifecycle_handler e relay = lifecycle-Kept e
  handle-Kept subagent_message_handler e relay = subagent_message-Kept e
  handle-Kept subagent_values_handler e relay = on_subagent_values-Kept e.namespace e.payload
  handle-Kept subagent_lifecycle_handler e relay = subagent_lifecycle-Kept e
  handle-Kept subagent_tools_handler e relay = subagent_tools-Kept e
  handle-Kept root_message_handler e relay = root_message-Kept e
  handle-Kept root_tools_handler e relay = root_tools-Kept e
  handle-Kept root_values_handler e relay = absurd relay
