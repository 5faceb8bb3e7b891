-- ===== src/Publisher.antt =====
-- core/publishers/event_publisher.py: the interface through which a turn speaks to its clients. A
-- publisher is used only by its calls, so a run is described by the list of calls it makes. The
-- session id, the same in every call of a run, is left out. `None` is `null`.
use harness_runtime.Base.{ℕ, String, Bool, false, Option, none, List, [], ◌∷◌, get_or}
use harness_runtime.Value.{Value, null, Fields}

-- The arguments of `publish_result`, with its defaults below.
pub record ResultArgs : Type 0 where
  pub subtype : String
  pub duration_ms : ℕ
  pub is_error : Bool
  pub num_turns : ℕ
  pub result : Option String
  pub structured_response : Value
  pub files : Fields
  pub interrupt : Value

abbrev pub default_result : ResultArgs
default_result = record {
  subtype = "success";
  duration_ms = 0;
  is_error = false;
  num_turns = 1;
  result = none;
  structured_response = null;
  files = Fields.end;
  interrupt = null;
}

-- One constructor for each method that a run may call, in the order of the class.
pub data Call : Type 0 where
  lifecycle_started : Option String → Call
  lifecycle_completed : Call
  lifecycle_failed : (error : String) → Call
  lifecycle_cancelled : (reason : String) → Call
  checkpoint : Call
  values : (messages : List Value) (files : Fields) (usage todos : Value) → Call
  system_init : (model : String) (tools : List Value) → Call
  assistant : (model : String) (content : List Fields) → Call
  user_echo : (content : List Fields) → Call
  tool_result : (tool_call_id tool_name content : String) (is_error : Bool) → Call
  tool_output_delta : (tool_call_id tool_name delta : String) → Call
  tool_started : (tool_call_id tool_name : String) (parent : Option String) → Call
  stream_event_text : String → Call
  result : ResultArgs → Call
  message_finish : Call

pub data Outcome : Type 0 where
  completed failed cancelled : Outcome

-- `error or ""` and `error or "Execution cancelled by user"`
abbrev pub closing : Outcome → Option String → Call
closing completed error = lifecycle_completed
closing failed error = lifecycle_failed (get_or error "")
closing cancelled error = lifecycle_cancelled (get_or error "Execution cancelled by user")

-- The result frame, then the lifecycle event that closes the turn.
unfoldable pub publish_turn_end : Outcome → Option String → ResultArgs → List Call
publish_turn_end outcome error args = result args ∷ closing outcome error ∷ []
