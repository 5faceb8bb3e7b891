-- ===== src/Execution/Handlers.antt =====
-- core/execution/handlers/__init__.py: the chain of handlers, and the dispatch of an event to the
-- first that can handle it, as in `_process_v3_event` of executor.py.
pub mod Subagents
pub mod Root
pub mod Values
pub mod Kept
pub mod Question
use harness_runtime.Base.{
  ℕ, String, Bool, true, false, not, ◌&&◌, Option, none, some, List, [], ◌∷◌, ◌==◌, if◌then◌else◌,
}
use harness_runtime.Value.{Value, Fields, is_dict}
use harness_runtime.Value.Errors.{attribute_error}
use harness_runtime.Execution.State.{Event, from_raw}
use harness_runtime.Execution.World.{Env, M, ◌>>=◌, pure, throw, lift, exception}
use Subagents.{
  handle_lifecycle, handle_subagent_lifecycle, handle_subagent_message, handle_subagent_tools,
}
use Root.{handle_root_message, handle_root_tools}
use Values.{handle_root_values, handle_subagent_values}

pub data Handler : Type 0 where
  lifecycle_handler subagent_message_handler subagent_values_handler : Handler
  subagent_lifecycle_handler subagent_tools_handler root_message_handler : Handler
  root_tools_handler root_values_handler : Handler

abbrev pub is_root : Event → Bool
is_root e = elim e.namespace [ [] ↦ true | _ ∷ _ ↦ false ]

unfoldable pub can_handle : Handler → Event → Bool
can_handle lifecycle_handler e = e.method == "lifecycle" && is_root e
can_handle subagent_message_handler e = not (is_root e) && e.method == "messages"
can_handle subagent_values_handler e = not (is_root e) && e.method == "values"
can_handle subagent_lifecycle_handler e = e.method == "lifecycle" && not (is_root e)
can_handle subagent_tools_handler e = not (is_root e) && e.method == "tools"
can_handle root_message_handler e = is_root e && e.method == "messages"
can_handle root_tools_handler e = is_root e && e.method == "tools"
can_handle root_values_handler e = is_root e && e.method == "values"

-- `create_handler_chain`
abbrev pub handler_chain : List Handler
handler_chain =
    lifecycle_handler ∷ subagent_message_handler ∷ subagent_values_handler
    ∷ subagent_lifecycle_handler ∷ subagent_tools_handler ∷ root_message_handler
    ∷ root_tools_handler ∷ root_values_handler ∷ []

module _ (env : Env) where
  -- Whether the turn goes on.
  unfoldable pub handle : Handler → Event → M Bool
  handle lifecycle_handler e = handle_lifecycle e
  handle subagent_message_handler e = handle_subagent_message env e
  handle subagent_values_handler e = handle_subagent_values env e
  handle subagent_lifecycle_handler e = handle_subagent_lifecycle e
  handle subagent_tools_handler e = handle_subagent_tools env e
  handle root_message_handler e = handle_root_message env e
  handle root_tools_handler e = handle_root_tools env e
  handle root_values_handler e = handle_root_values env e

  -- An event that no handler takes is logged, which looks into its data.
  unfoldable pub dispatch : List Handler → Event → M Bool
  dispatch [] e = if is_dict e.payload then pure true else throw (exception attribute_error)
  dispatch (h ∷ hs) e = if can_handle h e then handle h e else dispatch hs e

  unfoldable pub process_v3_event : Fields → M Bool
  process_v3_event raw = lift (from_raw raw) >>= dispatch handler_chain
