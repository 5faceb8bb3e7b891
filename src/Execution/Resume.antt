-- ===== src/Execution/Resume.antt =====
-- The choice of a turn's graph input in core/execution/executor.py: _latest_user_text,
-- has_pending_question, has_something_to_report, _resume_from_pending_interrupt and
-- _build_resume_input. The checkpoint that the database holds does not change between the reads of one
-- turn. Ids and names are texts, and calls and decisions dicts.
pub mod Answers
pub mod Injected
pub mod Latest
mod Samples
use harness_runtime.Base.{
  ℕ, String, Bool, true, false, not, ◌&&◌, ◌||◌, Option, none, some, List, [], ◌∷◌, ◌++◌, map, ◌==◌,
  if◌then◌else◌, get_or, contains, keep, any, join, strip,
}
use harness_runtime.Value.{
  Value, null, str, list, tuple, dict, object, Fields, end, field, lookup, or_null, or_else, truthy,
  text, equals, elements, members, attribute, list_of, entries, is_instance,
}
use harness_runtime.Jobs.{is_finished}

-- `pending_writes`, each as its parts, and the channels that are read.
pub record Checkpoint : Type 0 where
  pub pending_writes : List (List Value)
  pub messages : Value
  pub pending_jobs : List String
  pub computer_reports_seen : Option ℕ

-- What reading a session's latest checkpoint gives.
pub data Saved : Type 0 where
  no_checkpointer : Saved
  unreadable : Saved
  no_checkpoint : Saved
  saved : Checkpoint → Saved

abbrev reversed : List Value → List Value → List Value
reversed acc [] = acc
reversed acc (m ∷ ms) = reversed (m ∷ acc) ms

-- The texts of a message's text blocks that have one.
abbrev text_parts : List Value → List String
text_parts [] = []
text_parts (dict b ∷ bs) =
    let rest = text_parts bs in
    let t = text (or_null (lookup "text" b)) in
    if equals (or_null (lookup "type" b)) "text" && not (t == "") then t ∷ rest else rest
text_parts (null ∷ bs) = text_parts bs
text_parts (_ ∷ bs) = text_parts bs

abbrev content_text : Value → String
content_text (str s) = strip s
content_text (list xs) = strip (join " " (text_parts (elements xs)))
content_text _ = ""

-- The newest message first.
newest_user_text : List Value → String
newest_user_text [] = ""
newest_user_text (dict m ∷ ms) =
    let older = newest_user_text ms in
    if equals (or_null (lookup "role" m)) "user"
    then content_text (or_null (lookup "content" m))
    else older
newest_user_text (null ∷ ms) = newest_user_text ms
newest_user_text (_ ∷ ms) = newest_user_text ms

unfoldable pub latest_user_text : Fields → String
unfolding newest_user_text
latest_user_text input =
    newest_user_text (reversed [] (members (or_null (lookup "messages" input))))

-- `len(w) >= 2 and w[1] == "__interrupt__"`
abbrev pub is_interrupt : List Value → Bool
is_interrupt (task ∷ channel ∷ rest) = equals channel "__interrupt__"
is_interrupt _ = false

unfoldable pub has_pending_question : Saved → Bool
has_pending_question (saved c) = any is_interrupt c.pending_writes
has_pending_question no_checkpointer = false
has_pending_question _ = false

-- `runs` is what a SELECT of the runs finds, `unread` is has_unread_reports on the session;
-- -1 is `none`. A read that fails counts as nothing.
unfoldable pub has_something_to_report :
    (has_pool : Bool) → (runs : String → Option Fields) → (unread : Option ℕ → Bool) → Saved → Bool
has_something_to_report has_pool runs unread (saved c) =
    has_pool
    && not (any is_interrupt c.pending_writes)
    && (any (λ id. is_finished (runs id)) c.pending_jobs || unread c.computer_reports_seen)
has_something_to_report has_pool runs unread no_checkpointer = false
has_something_to_report has_pool runs unread _ = false

-- `{"decisions": [{"type": "respond", "message": text}]}`
abbrev pub respond : String → Value
respond t = dict (
    field "decisions"
      (list_of (dict (field "type" (str "respond") (field "message" (str t) end)) ∷ [])) end)

unfoldable pub resume_from_pending_interrupt : Saved → Fields → Option Value
unfolding latest_user_text has_pending_question
resume_from_pending_interrupt checkpoint input =
    let t = latest_user_text input in
    if not (t == "") && has_pending_question checkpoint then some (respond t) else none

-- `getattr(msg, k, None) or (msg.get(k) if isinstance(msg, dict) else None)`
abbrev pub read_key : String → Value → Value
read_key k (dict m) = or_null (lookup k m)
read_key k m = attribute k m

abbrev is_result : Value → Bool
is_result m =
    equals (read_key "type" m) "tool"
    || equals (read_key "type" m) "ToolMessage"
    || is_instance "ToolMessage" m

unfoldable pub completed_ids : List Value → List String
completed_ids [] = []
completed_ids (m ∷ ms) =
    let rest = completed_ids ms in
    let id = text (read_key "tool_call_id" m) in
    if is_result m && not (id == "") then id ∷ rest else rest

abbrev pub call_of : Value → String × String
call_of tc =
    let call = entries tc in
    (
      text (or_else (or_null (lookup "id" call)) (or_null (lookup "tool_call_id" call))),
      text (or_null (lookup "name" call)),
    )

-- The calls of objects, as ids and names, whose ids are not completed.
unfoldable pub pending_calls : List String → List Value → List (String × String)
pending_calls done [] = []
pending_calls done (m ∷ ms) =
    keep (λ c. not (c.0 == "") && not (contains done c.0))
      (map call_of (members (attribute "tool_calls" m)))
    ++ pending_calls done ms

abbrev pub asks_itself : String × String → Bool
asks_itself call = call.1 == "ask_user"

-- The ids of the orphaned calls whose results the harness writes.
unfoldable pub orphaned_ids : Value → List String
unfolding completed_ids pending_calls
orphaned_ids messages =
    map (λ c. c.0)
      (keep (λ c. not (asks_itself c))
        (pending_calls (completed_ids (members messages)) (members messages)))

pub record ToolMessage : Type 0 where
  pub tool_call_id : String
  pub content : Value
  pub is_error : Bool

abbrev pub is_decision : String → Bool
is_decision t = t == "respond" || t == "reject" || t == "approve" || t == "edit"

-- The decisions and the orphaned calls in step, until one runs out.
unfoldable pub tool_messages : List Value → List String → List ToolMessage
tool_messages [] ids = []
tool_messages (d ∷ ds) [] = []
tool_messages (d ∷ ds) (id ∷ ids) =
    let rest = tool_messages ds ids in
    let decision = entries d in
    let kind = text (or_null (lookup "type" decision)) in
    if is_decision kind
    then record {
      tool_call_id = id;
      content = get_or (lookup "message" decision) (str "Approved");
      is_error = kind == "reject";
    }
      ∷ rest
    else rest

-- What the graph is given: the turn's own input, or a command that resumes it, with or without
-- results for its calls.
pub data StreamInput : Type 0 where
  new_turn : Fields → StreamInput
  resume : Value → StreamInput
  resume_with : List ToolMessage → Value → StreamInput

abbrev pub decisions_of : Value → List Value
decisions_of (dict payload) = members (or_null (lookup "decisions" payload))
decisions_of _ = []

abbrev pub resume_by : List ToolMessage → Value → StreamInput
resume_by [] payload = resume payload
resume_by (m ∷ ms) payload = resume_with (m ∷ ms) payload

-- With decisions: what the checkpoint says of them.
unfoldable pub decide : Saved → Fields → Value → List Value → StreamInput
unfolding has_pending_question tool_messages orphaned_ids
decide (saved c) input payload decisions =
    if has_pending_question (saved c)
    then resume_by (tool_messages decisions (orphaned_ids c.messages)) payload
    else new_turn input
decide no_checkpointer input payload decisions = resume payload
decide _ input payload decisions = resume payload

unfoldable pub resume_by_payload : Saved → Fields → Value → StreamInput
unfolding decide
resume_by_payload checkpoint input payload = elim (decisions_of payload) [
  | [] ↦ resume payload
  | d ∷ ds ↦ decide checkpoint input payload (d ∷ ds)
]

abbrev pub or_payload : Option Value → Option Value → Option Value
or_payload none b = b
or_payload (some a) b = some a

unfoldable pub build_resume_input : Saved → Fields → Option Value → StreamInput
unfolding resume_by_payload resume_from_pending_interrupt
build_resume_input checkpoint input resume_payload =
    elim (or_payload resume_payload (resume_from_pending_interrupt checkpoint input)) [
      | none ↦ new_turn input
      | some payload ↦ resume_by_payload checkpoint input payload
    ]
