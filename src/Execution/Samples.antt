-- ===== src/Execution/Samples.antt =====
-- A turn at concrete events: the agent speaks and asks the user.
use harness_runtime.Base.{◌≡◌, String, true, ◌≢◌, refl, none, [], ◌∷◌, decimal, arith}
use harness_runtime.Value.{
  truthy, Value, str, tuple, dict, object, Fields, end, field, cons, nil, list_of,
}
use harness_runtime.Value.Errors.{ok}
use harness_runtime.Execution.Messages.{extract_interrupt_payload}
use harness_runtime.Execution.State.{initial_state, Event}
use harness_runtime.Execution.Handlers.Values.{
  record_values, handle_root_values, record_new_messages,
}
use harness_runtime.Execution.Handlers.Question.{Asked, handle_root_values-Asked}
use harness_runtime.Execution.World.{Env, World, returned, ◌>>=◌, pure, lift, get_state, change}
use harness_runtime.Execution.Turn.{
  Turn, passes, is_cancelled, Snapshot, checkpoint_id, cancelled_read, async_execute,
}
use harness_runtime.Execution.Turn.Ends.Turns.{TurnEnded, async_execute-TurnEnded}
use harness_runtime.Execution.Turn.Streamed.{ReadsEnd, async_execute-ReadsEnd}
use harness_runtime.Execution.Turn.Tables.{IsWellFormed, async_execute-IsWellFormed}

abbrev environment : Env
environment = record {
  session_id = "s";
  model_name = "m";
  num_turns = 1;
  has_pool = true;
  up = λ n. true;
  now = λ n. n;
  elapsed = λ n. n;
  uuid = λ n i. decimal n;
  sends = λ n. true;
  str_of = λ v. "";
  dumps = λ v. "";
  int_of = λ v. ok 0;
  error_text = λ e. "error";
}

abbrev new_world : World
new_world = record {
  state = initial_state "w" none;
  calls = [];
  chat = [];
  files = [];
  slots = [];
  reports = [];
  ticks = 0;
}

-- An event of the root with this data.
abbrev event : String → Fields → Value
event method params = dict (field "method" (str method) (field "params" (dict params) end))

abbrev delta : String → Value
delta said = event "messages" (
    field "data"
      (tuple (
        cons
          (dict (
            field "event" (str "content-block-delta")
              (field "delta" (dict (field "text" (str said) end)) end)))
          (cons (dict end) nil)))
      end)

abbrev question : Value
question = object "AIMessage" (
    field "id" (str "m1") (
      field "type" (str "ai") (
        field "content" (str "Which one?") (
          field "tool_calls"
            (list_of (dict (field "id" (str "c1") (field "name" (str "ask_user") end)) ∷ []))
            end))))

abbrev asked : Value
asked = event "values" (
    field "data" (dict (field "messages" (list_of (question ∷ [])) end)) (
      field "interrupts" (tuple (cons (object "Interrupt" (field "value" (str "q") end)) nil)) end))

abbrev asking_turn : Turn
asking_turn = record {
  agent_definition = none;
  middleware_tools = [];
  starts = passes;
  events = delta "Which " ∷ delta "one?" ∷ asked ∷ [];
  ends = passes;
  stall_check = passes;
  snapshot = checkpoint_id "cp";
}

-- The user cancels it while the graph runs.
abbrev cancelled_turn : Turn
cancelled_turn = record asking_turn { events = delta "Which " ∷ []; ends = is_cancelled }

no_late_cancel : ◌≢◌ {A = Snapshot} (checkpoint_id "cp") cancelled_read
no_late_cancel e = cc

async_execute-TurnEnded_example : TurnEnded (async_execute environment cancelled_turn new_world)
async_execute-TurnEnded_example =
    async_execute-TurnEnded environment cancelled_turn new_world refl (λ n. refl) no_late_cancel

new_world-IsWellFormed : IsWellFormed "s" new_world
new_world-IsWellFormed = ground arith

async_execute-IsWellFormed_example :
    IsWellFormed "s" (async_execute environment asking_turn new_world).1
async_execute-IsWellFormed_example =
    async_execute-IsWellFormed environment asking_turn new_world new_world-IsWellFormed

-- The question's interrupt comes when its message is recorded already, after some text.
abbrev asked_fields : Fields
asked_fields = field "messages" (list_of (question ∷ [])) end

abbrev asked_event : Event
asked_event = record {
  method = "values";
  namespace = [];
  payload = dict asked_fields;
  interrupts = object "Interrupt" (field "value" (str "q") end) ∷ [];
}

abbrev asked_world : World
asked_world = record new_world {
  state = record (initial_state "w" none) {
    streamed_text = "Which one?";
    values_messages_count = 1;
  };
}

recorded_lem : record_values environment asked_fields asked_world ≡ (returned tt, asked_world)
unfolding record_values ◌>>=◌ pure truthy lift get_state change record_new_messages
recorded_lem = refl

handle_root_values-Asked_example :
    Asked environment (str "q") asked_world (handle_root_values environment asked_event asked_world)
unfolding extract_interrupt_payload
handle_root_values-Asked_example =
    handle_root_values-Asked environment asked_event asked_fields "Interrupt"
      (field "value" (str "q") end) (str "q") [] asked_world asked_world refl refl refl recorded_lem

async_execute-ReadsEnd_example :
    ReadsEnd environment "s" [] (async_execute environment cancelled_turn new_world)
async_execute-ReadsEnd_example =
    async_execute-ReadsEnd "s" [] environment cancelled_turn new_world refl (λ n. refl)
      no_late_cancel
