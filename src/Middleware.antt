-- ===== src/Middleware.antt =====
-- core/middleware/todos.py and invalid_tool_calls.py: what sends an agent back to its model after the
-- model has answered. A message is a live one of LangChain; only human messages carry the marks.
pub mod Retries
pub mod Reminders
pub mod Computer
mod Samples
use harness_runtime.Base.{
  is_empty, ℕ, zero, suc, ◌+◌, ltb, String, Bool, true, false, not, ◌&&◌, ◌||◌, Option, none, some,
  List, [], ◌∷◌, ◌++◌, map, ◌==◌, ◌<>◌, if◌then◌else◌, is_some, keep, join,
}
use harness_runtime.Value.{Value, bool, Fields, end, field, lookup, or_null, equals}

-- langchain_core's InvalidToolCall.
pub record InvalidToolCall : Type 0 where
  pub id : Option String
  pub name : Option String
  pub error : Option String

-- langchain_core's ToolMessage, as the middleware makes it.
pub record ToolMessage : Type 0 where
  pub content : String
  pub name : String
  pub tool_call_id : String
  pub status : String

pub record AiMessage : Type 0 where
  pub content : String
  pub tool_calls : List Value
  pub invalid_tool_calls : List InvalidToolCall

pub record HumanMessage : Type 0 where
  pub content : String
  pub id : String
  pub additional_kwargs : Fields

pub data Message : Type 0 where
  ai : AiMessage → Message
  human : HumanMessage → Message
  tool : ToolMessage → Message
  system : String → Message

-- `reversed(xs)`, before what is there.
abbrev pub reversed : List Message → List Message → List Message
reversed acc [] = acc
reversed acc (m ∷ ms) = reversed (m ∷ acc) ms

abbrev pub is_tool : Message → Bool
is_tool (tool t) = true
is_tool _ = false

-- `_only_invalid`
abbrev pub only_invalid : Message → Bool
only_invalid (ai m) = not (is_empty m.invalid_tool_calls) && is_empty m.tool_calls
only_invalid _ = false

-- `call.get(...) or default`
abbrev text_or : Option String → String → String
text_or none t = t
text_or (some s) t = if s == "" then t else s

-- What an invalid call without an id is answered with: nothing.
unfoldable pub retry_message : InvalidToolCall → Option ToolMessage
retry_message call =
    let call_id = text_or call.id "" in
    let name = text_or call.name "the tool" in
    let error = text_or call.error "the arguments could not be parsed" in
    if call_id == ""
    then none
    else some (record {
      content =
          "Your " <> name <> " call was not run: its arguments are not valid JSON (" <> error
          <> "). Nothing was done. Call " <> name <> " again with valid JSON arguments.";
      name = text_or call.name "unknown";
      tool_call_id = call_id;
      status = "error";
    })

unfoldable pub retries : List InvalidToolCall → List ToolMessage
unfolding retry_message
retries [] = []
retries (c ∷ cs) = elim (retry_message c) [ none ↦ retries cs | some m ↦ m ∷ retries cs ]

-- Of the messages, newest first: the responses of nothing but invalid calls.
unfoldable pub streak_of : List Message → ℕ
streak_of [] = 0
streak_of (m ∷ ms) =
    let rest = streak_of ms in if is_tool m then rest else if only_invalid m then suc rest else 0

abbrev pub max_retries : ℕ
max_retries = 2

abbrev non_empty : List ToolMessage → Option (List ToolMessage)
non_empty [] = none
non_empty (m ∷ ms) = some (m ∷ ms)

abbrev invalid_calls : Message → List InvalidToolCall
invalid_calls (ai m) = m.invalid_tool_calls
invalid_calls _ = []

-- The replies of a retry, of the messages newest first.
unfoldable pub retry_newest : List Message → Option (List ToolMessage)
unfolding streak_of retries
retry_newest [] = none
retry_newest (m ∷ ms) =
    if not (only_invalid m)
    then none
    else if ltb max_retries (streak_of (m ∷ ms))
    then none
    else non_empty (retries (invalid_calls m))

-- `after_model` of InvalidToolCallRetryMiddleware: the messages with which the model is called again.
unfoldable pub retry_after_model : List Message → Option (List ToolMessage)
unfolding retry_newest
retry_after_model messages = retry_newest (reversed [] messages)

pub record Todo : Type 0 where
  pub content : String
  pub status : String

abbrev pub is_open : Todo → Bool
is_open t = not (t.status == "completed")

abbrev pub has_mark : String → Message → Bool
has_mark key (human m) = is_some (lookup key m.additional_kwargs)
has_mark key _ = false

-- A human message that no finished job wrote: what a run starts from.
abbrev pub is_input : Message → Bool
is_input (human m) = not (is_some (lookup "job_outcome" m.additional_kwargs))
is_input _ = false

-- `_reminded_this_run`, of the messages newest first.
unfoldable pub reminded_newest : List Message → Bool
reminded_newest [] = false
reminded_newest (m ∷ ms) =
    let rest = reminded_newest ms in
    if has_mark "todo_reminder" m then true else if is_input m then false else rest

unfoldable pub reminded_this_run : List Message → Bool
unfolding reminded_newest
reminded_this_run messages = reminded_newest (reversed [] messages)

abbrev pub reminder : (uuid : String) → List Todo → Message
reminder uuid open_items = human (record {
  content =
      "[System Notification] Your todo list still has open items:\n"
      <> join "\n" (map (λ t. "- [" <> t.status <> "] " <> t.content) open_items)
      <> "\nBefore you finish, call write_todos once more with the whole list: mark each item you "
      <> "have done completed, and remove any you did not do. Then give your final answer again.";
  id = "todo-reminder-" <> uuid;
  additional_kwargs = field "todo_reminder" (bool true) end;
})

abbrev pub is_final : Message → Bool
is_final (ai m) = is_empty m.tool_calls && is_empty m.invalid_tool_calls
is_final _ = false

-- Whether the newest message is a final answer.
abbrev ends_final : List Message → Bool
ends_final [] = false
ends_final (m ∷ ms) = is_final m

-- `after_model` of TodoMiddleware: the message with which the model is called again.
unfoldable pub todo_after_model : (uuid : String) → List Message → List Todo → Option Message
unfolding reminded_this_run
todo_after_model uuid messages todos =
    let open_items = keep is_open todos in
    if not (ends_final (reversed [] messages))
    then none
    else if is_empty open_items || reminded_this_run messages
    then none
    else some (reminder uuid open_items)
