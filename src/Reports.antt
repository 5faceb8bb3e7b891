-- ===== src/Reports.antt =====
-- core/waypoint_reports: what the harness tells Waypoint about a session. This file is questions.py
-- and replies.py, on serialized messages.
pub mod Throttle
mod Samples
use harness_runtime.Base.{
  is_blank, ℕ, zero, suc, String, Bool, true, false, not, ◌&&◌, ◌||◌, Option, none, some, List, [],
  ◌∷◌, any, leb, nat_eq, if◌then◌else◌, get_or, ◌==◌, contains,
}
use harness_runtime.Value.{
  Value, null, str, list, dict, Fields, lookup, or_null, equals, members, entries, is_dict, text,
  is_list,
}
use Prim.Native.Char.{code}

-- The ids of the tool messages, `None` included.
unfoldable pub answered_ids : List Fields → List Value
answered_ids [] = []
answered_ids (m ∷ ms) =
    let rest = answered_ids ms in
    if equals (or_null (lookup "type" m)) "tool"
    then or_null (lookup "tool_call_id" m) ∷ rest
    else rest

-- Ids are texts; `None`, too, equals itself.
abbrev same_id : Value → Value → Bool
same_id null null = true
same_id (str a) (str b) = a == b
same_id _ _ = false

abbrev asks : List Value → Value → Bool
asks done (dict call) =
    equals (or_null (lookup "name" call)) "ask_user"
    && not (any (same_id (or_null (lookup "id" call))) done)
asks done _ = false

abbrev has_open_call : List Value → Fields → Bool
has_open_call done m =
    equals (or_null (lookup "type" m)) "ai"
    && any (asks done) (members (or_null (lookup "tool_calls" m)))

unfoldable pub has_unanswered_question : List Fields → Bool
unfolding answered_ids
has_unanswered_question ms = any (has_open_call (answered_ids ms)) ms

module _ (str_of : Value → String) where
  -- `str(v)`, which a text is itself; of other values Python's.
  abbrev pub shown : Value → String
  shown (str s) = s
  shown v = str_of v

  abbrev text_block : Value → Bool
  text_block (dict block) =
      equals (or_null (lookup "type" block)) "text"
      && not (is_blank (shown (get_or (lookup "text" block) (str ""))))
  text_block _ = false

  -- `_has_text`
  unfoldable pub has_text : Value → Bool
  has_text (str s) = not (is_blank s)
  has_text (list xs) = any text_block (members (list xs))
  has_text _ = false

  unfoldable pub is_reply : Fields → Bool
  unfolding has_text
  is_reply m = equals (or_null (lookup "type" m)) "ai" && has_text (or_null (lookup "content" m))
