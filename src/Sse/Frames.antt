-- ===== src/Sse/Frames.antt =====
-- What api/publisher.py writes to a stream: the frames of the protocol, the result frame, and the
-- sentinel. A constructor of `Body` stands for one shape of an event's `data`.
use harness_runtime.Base.{ℕ, String, Bool, Option, List}
use harness_runtime.Value.{Value, Fields}
use harness_runtime.Publisher.{ResultArgs}

pub data Content : Type 0 where
  text_content : Content
  tool_call : (id name args : Value) → Content

-- The methods are "lifecycle", "checkpoints", "values", "messages" and "tools", in this order.
pub data Body : Type 0 where
  started : (node : Option String) → Body
  completed : Body
  failed : (error : String) → Body
  cancelled : (reason : String) → Body
  -- The id is "checkpoint_" and this number.
  checkpoint_saved : (id step : ℕ) → Body
  values_snapshot : (messages : List Value) (files : Fields) (usage todos : Value) → Body
  -- The id is "msg_", the session, "_" and this number.
  message_start : (session : String) (number : ℕ) → Body
  block_start : (index : ℕ) → Content → Body
  block_delta : (index : ℕ) (text : String) → Body
  block_finish : (index : ℕ) → Content → Body
  message_end : Body
  -- A message-finish that carries a usage of zero tokens.
  message_end_usage : Body
  tool_use_started : (id name input : Value) → Body
  tool_delta : (id name delta : String) → Body
  tool_call_started : (id name : String) (parent : Option String) → Body
  tool_finished : (id name output : String) (is_error : Bool) → Body

pub data Frame : Type 0 where
  event : (seq : ℕ) → Body → Frame
  result_frame : ResultArgs → Frame

pub data Entry : Type 0 where
  frame : Frame → Entry
  sentinel : Entry
