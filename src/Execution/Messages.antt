-- ===== src/Execution/Messages.antt =====
-- core/execution/helpers.py and extract_context_usage of handlers/root_values_handler.py: the messages
-- of the graph, which are objects, as the dicts of the publisher and the tables. A value of a kind
-- that the code would not accept raises.
use harness_runtime.Base.{
  ℕ, ◌+◌, String, Bool, ◌&&◌, List, [], ◌∷◌, map, nat_eq, if◌then◌else◌, get_or, join,
}
use harness_runtime.Value.{
  Value, null, num, str, list, tuple, dict, object, Fields, end, field, lookup, or_null, truthy,
  elements, is_member, keys, attribute, is_instance, entries, or_else, nil,
}
use harness_runtime.Value.Errors.{Result, ok, err, type_error, attribute_error, ◌>>=◌}

abbrev characters : String → List Value
characters String.[] = []
characters (String.◌∷◌ c s) = str (String.◌∷◌ c String.[]) ∷ characters s

-- What `len(v)` counts and a loop over `v` visits.
abbrev pub iterate : Value → Result (List Value)
iterate (list xs) = ok (elements xs)
iterate (tuple xs) = ok (elements xs)
iterate (dict fs) = ok (map str (keys fs))
iterate (str s) = ok (characters s)
iterate _ = err type_error

-- `getattr(v, k, d)`
abbrev pub attribute_or : String → Value → Value → Value
attribute_or k d (object c fs) = get_or (lookup k fs) d
attribute_or k d _ = d

-- `v.get(k, d)`, for which `v` is a dict
abbrev pub get_fields : Value → Result Fields
get_fields (dict fs) = ok fs
get_fields _ = err attribute_error

-- `v.get(...)` behind a test of what `v` is, where every other value counts as an empty dict
abbrev pub flag : String → Fields → Bool
flag k kwargs = is_member k kwargs

-- `(m.get("additional_kwargs") or {})` holds the key, when it is a dict.
abbrev pub is_marked : String → Fields → Bool
is_marked k m = flag k (entries (or_null (lookup "additional_kwargs" m)))

unfoldable pub is_job_outcome : Fields → Bool
is_job_outcome m = is_marked "job_outcome" m

unfoldable pub is_todo_reminder : Fields → Bool
is_todo_reminder m = is_marked "todo_reminder" m

unfoldable pub is_computer_report : Fields → Bool
is_computer_report m = is_marked "computer_report" m

-- `if v: entry[k] = v`
abbrev with_value : String → Value → Fields → Fields
with_value k v rest = if truthy v then field k v rest else rest

-- `str(v)`, where `str_of` is for what is no text
abbrev pub str_text : (str_of : Value → String) → Value → String
str_text str_of (str s) = s
str_text str_of v = str_of v

module _ (str_of dumps : Value → String) where
  abbrev content_value : Value → Value
  content_value (str s) = str s
  content_value (list xs) = list xs
  content_value v = str (str_of v)

  -- The loop of `serialize_messages_for_values`; `fresh n` is the id of a message that has none.
  unfoldable pub serialize_message : (fresh : String) → Value → Fields
  serialize_message fresh m = field "id" (or_else (attribute "id" m) (str fresh)) (
      field "type" (attribute_or "type" (str "unknown") m) (
        field "content" (content_value (attribute_or "content" (str "") m)) (
          with_value "tool_calls" (attribute "tool_calls" m) (
            with_value "tool_call_id" (attribute "tool_call_id" m) (
              with_value "name" (attribute "name" m)
                (with_value "additional_kwargs" (attribute "additional_kwargs" m) end))))))

  unfoldable pub serialize_messages_for_values : (fresh : ℕ → String) → ℕ → List Value → List Fields
  unfolding serialize_message
  serialize_messages_for_values fresh n [] = []
  serialize_messages_for_values fresh n (m ∷ ms) =
      serialize_message (fresh n) m ∷ serialize_messages_for_values fresh (n + 1) ms

  unfoldable pub serialize_content : Value → String
  serialize_content (str s) = s
  serialize_content (list xs) = dumps (list xs)
  serialize_content v = str_of v

  -- The texts of `" ".join(...)`, which are texts.
  block_texts : List Value → Result (List String)
  block_texts [] = ok []
  block_texts (dict b ∷ bs) = block_texts bs >>= λ rest. elim (get_or (lookup "text" b) (str "")) [
    | str s ↦ ok (s ∷ rest)
    | _ ↦ err type_error
  ]
  block_texts (null ∷ bs) = block_texts bs
  block_texts (_ ∷ bs) = block_texts bs

  message_text : Value → Result String
  unfolding block_texts
  message_text (str s) = ok s
  message_text (list xs) = block_texts (elements xs) >>= λ texts. ok (join " " texts)
  message_text v = ok (str_of v)

  abbrev last_of : Value → List Value → Value
  last_of d [] = d
  last_of d (x ∷ xs) = last_of x xs

  dict_content : Fields → Result String
  unfolding message_text serialize_content
  dict_content fs =
      let ms = get_or (lookup "messages" fs) (list nil) in
      if truthy ms
      then elim ms [
        | list xs ↦ message_text (attribute_or "content" (str "") (last_of null (elements xs)))
        | tuple xs ↦ message_text (attribute_or "content" (str "") (last_of null (elements xs)))
        | str s ↦ ok ""
        | _ ↦ err type_error
      ]
      else ok (serialize_content (dict fs))

  -- A `Command` stands for its update, unless that is empty.
  command_update : Value → Value
  command_update v =
      if is_instance "Command" v && truthy (attribute "update" v) then attribute "update" v else v

  unfoldable pub extract_tool_finished_content : Value → Result String
  unfolding command_update dict_content serialize_content
  extract_tool_finished_content v = elim (command_update v) [
    | dict fs ↦ dict_content fs
    | u ↦ ok (serialize_content u)
  ]

-- `extract_interrupt_payload`, on the tuple of an event's interrupts.
unfoldable pub extract_interrupt_payload : List Value → Value
extract_interrupt_payload [] = tuple nil
extract_interrupt_payload (object c fs ∷ rest) = get_or (lookup "value" fs) (object c fs)
extract_interrupt_payload (raw ∷ rest) = raw

module _ (int_of : Value → Result ℕ) where
  -- `int(fs.get(k) or 0)`
  abbrev number : String → Fields → Result ℕ
  number k fs = elim (or_else (or_null (lookup k fs)) (num 0)) [ num n ↦ ok n | v ↦ int_of v ]

  abbrev usage_fields : (used input output cache_read cache_write : ℕ) → Value
  usage_fields used input output cache_read cache_write = dict (
      field "used" (num used) (
        field "input" (num input) (
          field "output" (num output)
            (field "cacheRead" (num cache_read) (field "cacheWrite" (num cache_write) end)))))

  -- What one message's usage says; `null` when it says that nothing was used.
  usage_of : Fields → Result Value
  usage_of meta = do
    input ← number "input_tokens" meta
    output ← number "output_tokens" meta
    details ← get_fields (or_else (or_null (lookup "input_token_details" meta)) (dict end))
    cache_read ← number "cache_read" details
    cache_write ← number "cache_creation" details
    total ← number "total_tokens" meta
    let used = if nat_eq total 0 then input + output + cache_read + cache_write else total
    ok (if nat_eq used 0 then null else usage_fields used input output cache_read cache_write)

  -- The newest message first.
  newest_usage : List Value → Result Value
  unfolding usage_of
  newest_usage [] = ok null
  newest_usage (m ∷ ms) =
      let older = newest_usage ms in
      elim (attribute "usage_metadata" m) [
        | dict meta ↦ usage_of meta >>= λ u. if truthy u then ok u else older
        | _ ↦ older
      ]

  abbrev reversed : List Value → List Value → List Value
  reversed acc [] = acc
  reversed acc (m ∷ ms) = reversed (m ∷ acc) ms

  unfoldable pub extract_context_usage : List Value → Result Value
  unfolding newest_usage
  extract_context_usage ms = newest_usage (reversed [] ms)
