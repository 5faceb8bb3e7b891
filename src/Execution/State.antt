-- ===== src/Execution/State.antt =====
-- core/execution/state.py and types.py: the state of a turn and the events of the graph. A namespace
-- is the list of its parts, which are texts, as are the ids of tool calls. The `data` of an event is
-- its `payload`.
use harness_runtime.Base.{
  ℕ, String, Bool, true, false, ◌&&◌, Option, none, some, List, [], ◌∷◌, map, ◌==◌, if◌then◌else◌,
  get_or,
}
use harness_runtime.Value.{
  Value, null, str, list, tuple, dict, Fields, end, lookup, or_null, truthy, text, elements, nil,
}
use harness_runtime.Value.Errors.{Result, ok, err, attribute_error}

abbrev pub Namespace : Type 0
Namespace = List String

abbrev pub same_namespace : Namespace → Namespace → Bool
same_namespace [] [] = true
same_namespace (a ∷ rest) (b ∷ others) = a == b && same_namespace rest others
same_namespace _ _ = false

-- A dict: `same` compares its keys.
module _ {K V : Type 0} (same : K → K → Bool) where
  abbrev pub find : K → List (K × V) → Option V
  find k [] = none
  find k ((j, v) ∷ rest) = if same j k then some v else find k rest

  abbrev pub put : K → V → List (K × V) → List (K × V)
  put k v [] = (k, v) ∷ []
  put k v ((j, w) ∷ rest) = if same j k then (j, v) ∷ rest else (j, w) ∷ put k v rest

  abbrev pub remove : K → List (K × V) → List (K × V)
  remove k [] = []
  remove k ((j, v) ∷ rest) =
      let others = remove k rest in if same j k then others else (j, v) ∷ others

abbrev pub same_text : String → String → Bool
same_text a b = a == b

pub record ExecutionState : Type 0 where
  pub streamed_text : String
  pub current_tool_use_blocks : List Fields
  pub ns_to_tool_call : List (Namespace × String)
  pub subagent_todos : List (Namespace × Value)
  pub subagent_names : List (Namespace × String)
  pub last_structured_response : Value
  pub last_files : Fields
  pub interrupted : Bool
  pub values_messages_count : ℕ
  pub unanswered_question : Bool
  pub replied : Bool
  pub subagent_stream_outputs : List (String × String)
  pub subagent_final_outputs : List (String × String)
  pub subagent_values_messages_count : List (Namespace × ℕ)
  pub workspace_id : String
  pub app_id : Option String

-- `ExecutionState()` with the two ids that the executor sets.
abbrev pub initial_state : String → Option String → ExecutionState
initial_state workspace_id app_id = record {
  streamed_text = "";
  current_tool_use_blocks = [];
  ns_to_tool_call = [];
  subagent_todos = [];
  subagent_names = [];
  last_structured_response = null;
  last_files = end;
  interrupted = false;
  values_messages_count = 0;
  unanswered_question = false;
  replied = false;
  subagent_stream_outputs = [];
  subagent_final_outputs = [];
  subagent_values_messages_count = [];
  workspace_id = workspace_id;
  app_id = app_id;
}

pub record Event : Type 0 where
  pub method : String
  pub namespace : Namespace
  pub payload : Value
  pub interrupts : List Value

abbrev pub namespace_of : Value → Namespace
namespace_of (list xs) = map text (elements xs)
namespace_of _ = []

abbrev interrupts_of : Value → List Value
interrupts_of (list xs) = elements xs
interrupts_of (tuple xs) = elements xs
interrupts_of v = if truthy v then v ∷ [] else []

abbrev event_of : Fields → Value → Result Event
event_of raw (dict params) = ok (record {
  method = text (get_or (lookup "method" raw) (str ""));
  namespace = namespace_of (get_or (lookup "namespace" params) (list nil));
  payload = get_or (lookup "data" params) (dict end);
  interrupts = interrupts_of (or_null (lookup "interrupts" params));
})
event_of raw _ = err attribute_error

-- `Event.from_raw`; the params of an event are looked up in a dict.
unfoldable pub from_raw : Fields → Result Event
from_raw raw = event_of raw (get_or (lookup "params" raw) (dict end))
