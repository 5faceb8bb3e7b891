-- ===== src/Sanitizer.antt =====
-- sanitize_openai_messages of core/middleware/structured_output/middleware.py: the messages sent to
-- the model, in which every tool call must be answered before the next message that is no result.
-- Ids are texts; one that is not counts as missing. `order` is the order in which Python visits a set.
pub mod Protocol
pub mod Answered
pub mod Spoken
mod Samples
use harness_runtime.Base.{
  String, Bool, true, false, not, ◌&&◌, ◌||◌, Option, none, some, List, [], ◌∷◌, ◌++◌, map, ◌==◌,
  if◌then◌else◌, get_or, contains, keep,
}
use harness_runtime.Value.{
  Value, null, bool, num, str, list, tuple, dict, object, Fields, end, field, lookup, or_null,
  or_else, truthy, text, equals, members, attribute,
}

-- The result that stands in for one that is missing.
abbrev pub synthetic : String → Value
synthetic id = dict (
    field "role" (str "tool")
      (field "tool_call_id" (str id) (field "content" (str "Action completed or interrupted") end)))

-- `(tc.get("id") or tc.get("tool_call_id"))`, or the attributes of an object
abbrev pub call_id : Value → String
call_id (dict call) =
    text (or_else (or_null (lookup "id" call)) (or_null (lookup "tool_call_id" call)))
call_id v = text (or_else (attribute "id" v) (attribute "tool_call_id" v))

abbrev pub result_id : Fields → String
result_id m = text (or_else (or_null (lookup "tool_call_id" m)) (or_null (lookup "id" m)))

-- `open_ids.add(id)` for the calls of a message, where they have an id.
abbrev pub add_id : String → List String → List String
add_id id ids = if id == "" || contains ids id then ids else id ∷ ids

unfoldable pub ids_of : List Value → List String
ids_of [] = []
ids_of (call ∷ calls) = add_id (call_id call) (ids_of calls)

abbrev pub open_ids : Fields → List String
open_ids m = ids_of (members (or_null (lookup "tool_calls" m)))

-- `open_ids.discard(id)`
abbrev pub discard : String → List String → List String
discard id ids = keep (λ i. not (i == id)) ids

pub data Role : Type 0 where
  assistant tool other : Role

abbrev pub role_of : Fields → Role
role_of m =
    if equals (or_null (lookup "role" m)) "assistant"
    then assistant
    else if equals (or_null (lookup "role" m)) "tool"
    then tool
    else other

module _ (order : List String → List String) where
  -- Results for all calls that are open.
  abbrev pub closing : List String → List Value
  closing ids = map synthetic (order ids)

  -- The loop, on the ids that are open; the end of the list closes them.
  unfoldable pub sanitize : List String → List Value → List Value
  sanitize ids [] = closing ids
  sanitize ids (dict m ∷ ms) =
      let found = contains ids (result_id m) in
      let kept = sanitize (discard (result_id m) ids) ms in
      let dropped = sanitize ids ms in
      let after_call = sanitize (open_ids m) ms in
      let after_other = sanitize [] ms in
      elim (role_of m) [
        | assistant ↦ closing ids ++ dict m ∷ after_call
        | tool ↦ if not (result_id m == "") && found then dict m ∷ kept else dropped
        | other ↦ closing ids ++ dict m ∷ after_other
      ]
  sanitize ids (null ∷ ms) = null ∷ sanitize ids ms
  sanitize ids (v ∷ ms) = v ∷ sanitize ids ms

  unfoldable pub sanitize_openai_messages : List Value → List Value
  unfolding sanitize
  sanitize_openai_messages ms = sanitize [] ms
