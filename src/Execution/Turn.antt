-- ===== src/Execution/Turn.antt =====
-- async_execute of core/execution/executor.py, with _handle_initial_setup, _publish_final_result and
-- _stamp_turn_checkpoint. The graph's part in a turn is what it streams; a wait of the turn may be
-- cancelled. Tracing and logging are left out.
pub mod Ends
pub mod Tables
pub mod Streamed
use harness_runtime.Base.{
  ℕ, String, Bool, true, false, not, ◌&&◌, Option, none, some, List, [], ◌∷◌, ◌++◌, ◌==◌,
  if◌then◌else◌, get_or,
}
use harness_runtime.Value.{Value, null, str, list, dict, Fields, end, truthy}
use harness_runtime.Value.Errors.{Error, Result, ok}
use harness_runtime.Publisher.{
  Call, assistant, message_finish, system_init, lifecycle_started, ResultArgs, default_result,
  Outcome, completed, failed, cancelled, publish_turn_end,
}
use harness_runtime.Reports.Throttle.{flush_workspace_change}
use harness_runtime.Execution.State.{ExecutionState, initial_state}
use harness_runtime.Execution.World as World
use harness_runtime.Execution.World.{
  Env, M, Thrown, exception, cancellation, ◌>>=◌, ◌>>◌, pure, throw, lift, get_state, publish,
  publish_all, tick, store_stopped, stamp, post_as_sandbox, report_if,
}
use harness_runtime.Execution.Tools.{compute_tools}
use harness_runtime.Execution.Handlers.Root.{text_block}
use harness_runtime.Execution.Handlers.{process_v3_event}

-- A wait for code outside: it passes, fails, or the turn is cancelled in it.
pub data Wait : Type 0 where
  passes : Wait
  fails : Error → Wait
  is_cancelled : Wait

pub data Snapshot : Type 0 where
  unreadable : Snapshot
  no_checkpoint : Snapshot
  checkpoint_id : String → Snapshot
  cancelled_read : Snapshot

-- What a turn is given, and what its graph does: `starts` is all that is awaited before the first
-- event, `ends` how the events end, `stall_check` and `snapshot` the two reads of the graph's state.
pub record Turn : Type 0 where
  pub agent_definition : Option Fields
  pub middleware_tools : List (String × String)
  pub starts : Wait
  pub events : List Value
  pub ends : Wait
  pub stall_check : Wait
  pub snapshot : Snapshot

unfoldable pub wait : Wait → M Unit
wait passes = pure tt
wait (fails e) = throw (exception e)
wait is_cancelled = throw cancellation

-- `_warn_if_stalled`, whose failures are only logged.
abbrev pub tolerant : Wait → Wait
tolerant (fails e) = passes
tolerant other = other

-- `compute_tools(agent_definition) if agent_definition else []`
abbrev pub tools_of : List (String × String) → Option Fields → Result (List Value)
tools_of middleware_tools none = ok []
tools_of middleware_tools (some end) = ok []
tools_of middleware_tools (some definition) = compute_tools middleware_tools definition

module _ (env : Env) where
  unfoldable pub handle_initial_setup : Turn → M Unit
  handle_initial_setup turn = do
    tools ← lift (tools_of turn.middleware_tools turn.agent_definition)
    publish (system_init env.model_name tools)
    publish (lifecycle_started none)

  -- The loop: whether the events were handled to their end. What is no dict is skipped.
  unfoldable pub run_events : List Value → M Bool
  run_events [] = pure true
  run_events (dict raw ∷ events) =
      process_v3_event env raw >>= λ goes_on. if goes_on then run_events events else pure false
  run_events (null ∷ events) = run_events events
  run_events (_ ∷ events) = run_events events

  unfoldable pub report_end : M Unit
  report_end = do
    s ← get_state
    if s.unanswered_question
        then post_as_sandbox env "/internal/chat/questions"
        else if s.replied
        then post_as_sandbox env "/internal/chat/replies"
        else pure tt
    report_if env (λ now. flush_workspace_change now env.session_id)

  abbrev pub success_args : ExecutionState → ℕ → ResultArgs
  success_args s duration_ms = record default_result {
    duration_ms = duration_ms;
    num_turns = env.num_turns;
    result = some s.streamed_text;
    structured_response = s.last_structured_response;
    files = s.last_files;
  }

  abbrev pub error_args : String → ℕ → ResultArgs
  error_args error duration_ms = record default_result {
    subtype = "error_during_execution";
    duration_ms = duration_ms;
    is_error = true;
    result = some error;
  }

  -- `_publish_final_result` without an error: the turn's text.
  unfoldable pub publish_success : M String
  publish_success = do
    n ← tick
    s ← get_state
    if s.streamed_text == ""
        then pure tt
        else publish (assistant "" (text_block s.streamed_text ∷ []))
    publish message_finish
    publish_all (publish_turn_end completed none (success_args s (env.elapsed n)))
    pure s.streamed_text

  -- `_publish_final_result` with one.
  unfoldable pub publish_failure : Error → M String
  publish_failure e = do
    n ← tick
    publish message_finish
    publish_all (
        publish_turn_end failed (some (env.error_text e))
          (error_args (env.error_text e) (env.elapsed n)))
    pure ""

  unfoldable pub stamp_turn_checkpoint : Snapshot → M Unit
  stamp_turn_checkpoint (checkpoint_id id) =
      if env.has_pool && not (id == "") then stamp env id else pure tt
  stamp_turn_checkpoint cancelled_read = if env.has_pool then throw cancellation else pure tt
  stamp_turn_checkpoint other = pure tt

  -- From the end of the graph's events on.
  unfoldable pub finish_turn : Turn → M String
  finish_turn turn = do
    wait turn.ends
    wait (tolerant turn.stall_check)
    report_end
    final ← publish_success
    stamp_turn_checkpoint turn.snapshot
    pure final

  -- The `try` of async_execute.
  unfoldable pub run_turn : Turn → M String
  run_turn turn = do
    handle_initial_setup turn
    wait turn.starts
    drained ← run_events turn.events
    if drained then finish_turn turn else (do report_end; pure "")

  abbrev pub cancelled_args : ResultArgs
  cancelled_args = record default_result {
    subtype = "cancelled";
    is_error = true;
    result = some "Execution cancelled by user";
  }

  -- Its `except` clauses.
  unfoldable pub on_thrown : Thrown → M String
  on_thrown cancellation = do
    if env.has_pool then store_stopped env else pure tt
    publish_all (publish_turn_end cancelled (some "Execution cancelled by user") cancelled_args)
    throw cancellation
  on_thrown (exception e) = publish_failure e

  abbrev pub caught : World.Outcome String × World.World → World.Outcome String × World.World
  caught (World.returned final, w) = (World.returned final, w)
  caught (World.threw t, w) = on_thrown t w

  unfoldable pub async_execute : Turn → M String
  async_execute turn = λ w. caught (run_turn turn w)
