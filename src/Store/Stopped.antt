-- ===== src/Store/Stopped.antt =====
-- record_stopped_steps of core/persistence/message_writer.py: the tool calls of a turn that the user
-- stopped are closed in chat_messages. Calls are dicts, and their ids texts, as everywhere in the
-- program; an id of another kind counts as missing.
pub mod Ordered
pub mod Closed
pub mod Kept
use harness_runtime.Base.{
  ℕ, zero, ◌+◌, String, Bool, true, false, ◌&&◌, ◌||◌, not, Option, none, some, List, [], ◌∷◌, ◌++◌,
  map, ltb, leb, ◌==◌, ◌<>◌, if◌then◌else◌, get_or, contains, keep, length,
}
use harness_runtime.Value.{
  Value, null, bool, str, dict, Fields, end, field, lookup, or_null, truthy, text, members, entries,
  equals, is_member,
}
use harness_runtime.Store.Chat.{ChatRow, session_rows, write_chat_messages}

-- A tool call that no result answers: its source, the call, and the calling message's kwargs.
pub record OpenCall : Type 0 where
  pub source : String
  pub call : Fields
  pub kwargs : Fields

abbrev pub call_id : Fields → String
call_id call = text (or_null (lookup "id" call))

-- `msg.get(k) or {}` and `msg.get("tool_calls") or []`
abbrev pub sub_dict : String → Fields → Fields
sub_dict k m = entries (or_null (lookup k m))

abbrev pub tool_calls : Fields → List Value
tool_calls m = members (or_null (lookup "tool_calls" m))

unfoldable pub answered : List (String × Fields) → List String
answered [] = []
answered ((source, m) ∷ rows) =
    let id = text (or_null (lookup "tool_call_id" m)) in
    let rest = answered rows in
    if equals (or_null (lookup "type" m)) "tool" && not (id == "") then id ∷ rest else rest

unfoldable pub open_of : List String → String → Fields → List Value → List OpenCall
open_of done source kwargs [] = []
open_of done source kwargs (c ∷ cs) =
    let call = entries c in
    let rest = open_of done source kwargs cs in
    if not (call_id call == "") && not (contains done (call_id call))
    then record { source = source; call = call; kwargs = kwargs } ∷ rest
    else rest

unfoldable pub open_calls : List String → List (String × Fields) → List OpenCall
unfolding open_of
open_calls done [] = []
open_calls done ((source, m) ∷ rows) =
    open_of done source (sub_dict "additional_kwargs" m) (tool_calls m) ++ open_calls done rows

unfoldable pub unanswered_calls : List (String × Fields) → List OpenCall
unfolding answered open_calls
unanswered_calls rows = open_calls (answered rows) rows

-- {k: kwargs[k] for k in ("namespace", "tool_call_id") if k in kwargs}
abbrev with_key : String → Fields → Fields → Fields
with_key k kwargs rest = elim (lookup k kwargs) [ none ↦ rest | some v ↦ field k v rest ]

unfoldable pub stopped_message : OpenCall → Fields
stopped_message o = field "type" (str "tool") (
    field "id" (str ("stopped-" <> call_id o.call)) (
      field "tool_call_id" (str (call_id o.call)) (
        field "name"
          (let name = or_null (lookup "name" o.call) in if truthy name then name else str "")
          (field "content" (str "") (
            field "additional_kwargs"
              (dict (
                field "stopped" (bool true)
                  (with_key "namespace" o.kwargs (with_key "tool_call_id" o.kwargs end))))
              end)))))

-- `by_source.setdefault(source, []).append(message)`
unfoldable pub add_message :
    String → Fields → List (String × List Fields) → List (String × List Fields)
add_message source m [] = (source, m ∷ []) ∷ []
add_message source m ((s, ms) ∷ groups) =
    if s == source then (s, ms ++ m ∷ []) ∷ groups else (s, ms) ∷ add_message source m groups

unfoldable pub by_source : List (String × List Fields) → List OpenCall → List (String × List Fields)
unfolding add_message stopped_message
by_source groups [] = groups
by_source groups (o ∷ os) = by_source (add_message o.source (stopped_message o) groups) os

unfoldable pub write_groups :
    (up : String → Bool) → String → List (String × List Fields) → List ChatRow → List ChatRow
write_groups up session_id [] rows = rows
write_groups up session_id ((source, ms) ∷ groups) rows =
    write_groups up session_id groups
      (write_chat_messages (up source) session_id ms 0 source none rows).1

abbrev is_user_input : ChatRow → Bool
is_user_input r = r.role == "user" && not (r.source == "subagent")

-- One more than COALESCE(MAX(sequence), -1) of the user's messages.
unfoldable pub turn_start : List ChatRow → ℕ
turn_start [] = 0
turn_start (r ∷ rs) =
    let rest = turn_start rs in
    if is_user_input r && leb rest r.sequence then r.sequence + 1 else rest

-- ORDER BY sequence
by_sequence : ChatRow → List ChatRow → List ChatRow
by_sequence r [] = r ∷ []
by_sequence r (s ∷ ss) = if leb r.sequence s.sequence then r ∷ s ∷ ss else s ∷ by_sequence r ss

unfoldable pub ordered : List ChatRow → List ChatRow
unfolding by_sequence
ordered [] = []
ordered (r ∷ rs) = by_sequence r (ordered rs)

-- The SELECT: the session's rows after the user's last message, in order.
unfoldable pub current_turn : String → List ChatRow → List (String × Fields)
unfolding turn_start ordered
current_turn session_id rows =
    let own = session_rows session_id rows in
    map (λ r. (r.source, r.message)) (ordered (keep (λ r. leb (turn_start own) r.sequence) own))

-- How many calls were closed, and the table. `readable` is whether the SELECT succeeds.
unfoldable pub record_stopped_steps :
    (readable : Bool) → (up : String → Bool) → String → List ChatRow → ℕ × List ChatRow
unfolding unanswered_calls by_source write_groups current_turn
record_stopped_steps readable up session_id rows =
    let open_now = unanswered_calls (current_turn session_id rows) in
    if readable
    then (length open_now, write_groups up session_id (by_source [] open_now) rows)
    else (0, rows)
