-- ===== src/Store/Chat.antt =====
-- write_chat_messages and stamp_checkpoint_id of core/persistence/message_writer.py, on the table
-- chat_messages. A statement that Postgres refuses, or no connection, is `up = false`: the write is
-- one transaction, so nothing of it stays, and the failure is only logged. The row's own id is a
-- fresh UUID that nothing reads, and is left out.
pub mod Numbering
pub mod Duplicates
pub mod Stamping
use harness_runtime.Base.{
  ℕ, zero, suc, ◌+◌, String, Bool, true, false, ◌&&◌, ◌||◌, not, Option, none, some, List, [], ◌∷◌,
  ◌++◌, map, ltb, ◌==◌, if◌then◌else◌, get_or, keep, any, is_some,
}
use harness_runtime.Value.{
  Value, null, bool, num, str, list, tuple, dict, object, Fields, lookup, or_null, text,
}

pub record ChatRow : Type 0 where
  pub session_id : String
  pub role : String
  pub content : Value
  pub message : Fields
  pub sequence : ℕ
  pub source : String
  pub checkpoint_id : Option String

-- ROLE_MAP.get(type, "assistant")
unfoldable pub role_of : String → String
role_of t =
    if t == "human"
    then "user"
    else if t == "ai"
    then "assistant"
    else if t == "system"
    then "system"
    else if t == "tool"
    then "tool"
    else "assistant"

abbrev id_text : Option Value → Option String
id_text (some (str s)) = some s
id_text _ = none

-- message->>'id': NULL when the message has none. An id of the program is a text.
abbrev pub message_id : Fields → Option String
message_id m = id_text (lookup "id" m)

abbrev clashes : Option String → Option String → Bool
clashes (some a) (some b) = a == b
clashes _ _ = false

-- The unique index (session_id, message->>'id'), in which a NULL equals nothing.
unfoldable pub recorded : String → Fields → List ChatRow → Bool
recorded session_id m rows =
    any (λ r. r.session_id == session_id && clashes (message_id m) (message_id r.message)) rows

abbrev pub session_rows : String → List ChatRow → List ChatRow
session_rows session_id = keep (λ r. r.session_id == session_id)

abbrev above : ℕ → ℕ → ℕ
above n m = if ltb n m then m else n

abbrev next_of : List ChatRow → ℕ
next_of [] = 0
next_of (r ∷ rs) = above (next_of rs) (r.sequence + 1)

-- COALESCE(MAX(sequence), -1) + 1 over the session
unfoldable pub next_sequence : String → List ChatRow → ℕ
next_sequence session_id rows = next_of (session_rows session_id rows)

module _ (session_id source : String) (checkpoint_id : Option String) where
  abbrev pub chat_row : Fields → ℕ → ChatRow
  chat_row m n = record {
    session_id = session_id;
    role = role_of (text (or_null (lookup "type" m)));
    content = get_or (lookup "content" m) (str "");
    message = m;
    sequence = n;
    source = source;
    checkpoint_id = checkpoint_id;
  }

  -- The loop: `n` is `base + i`, which a skipped duplicate uses up too.
  unfoldable pub insert_all : List Fields → ℕ → List ChatRow → List Fields × List ChatRow
  unfolding recorded
  insert_all [] n rows = ([], rows)
  insert_all (m ∷ ms) n rows =
      let old = recorded session_id m rows in
      let (inserted, after) =
        insert_all ms (n + 1) (if old then rows else rows ++ chat_row m n ∷ []) in
      (if old then inserted else m ∷ inserted, after)

-- The messages inserted, and the table.
unfoldable pub write_chat_messages :
    (up : Bool)
    → String
    → List Fields
    → (offset : ℕ) → (source : String) → Option String
    → List ChatRow
    → List Fields × List ChatRow
unfolding insert_all next_sequence
write_chat_messages up session_id [] offset source checkpoint_id rows = ([], rows)
write_chat_messages up session_id (m ∷ ms) offset source checkpoint_id rows =
    let base = next_sequence session_id rows in
    let start = if ltb base offset then offset else base in
    if up then insert_all session_id source checkpoint_id (m ∷ ms) start rows else ([], rows)

stamp_row : String → String → ChatRow → ChatRow
stamp_row session_id checkpoint_id r =
    if r.session_id == session_id && not (is_some r.checkpoint_id)
    then record r { checkpoint_id = some checkpoint_id }
    else r

unfoldable pub stamp_checkpoint_id : (up : Bool) → String → String → List ChatRow → List ChatRow
unfolding stamp_row
stamp_checkpoint_id up session_id checkpoint_id rows =
    if checkpoint_id == ""
    then rows
    else if up
    then map (stamp_row session_id checkpoint_id) rows
    else rows
