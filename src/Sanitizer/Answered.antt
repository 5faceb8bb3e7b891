-- ===== src/Sanitizer/Answered.antt =====
-- What the API of the model asks of the messages that sanitize_openai_messages of
-- core/middleware/structured_output/middleware.py prepares, described by the messages alone.
use harness_runtime.Base.{
  String, Bool, true, false, not, ◌&&◌, ◌≡◌, refl, sym, ◌∙◌, List, [], ◌∷◌, arith, ◌==◌, eq_iff,
  eq_refl, contains, contains-keep, any, is_empty,
}
use mathlib.Core.Path.{subst}
use harness_runtime.Value.{Value, null, dict, Fields, lookup, or_null, equals, members, attribute}
use harness_runtime.Value.Laws.{bears, bears-or_else}
use harness_runtime.Sanitizer.{
  str, call_id, result_id, ids_of, open_ids, discard, sanitize_openai_messages,
}
use harness_runtime.Sanitizer.Protocol.{IsOrder, follows, sanitize_openai_messages-follows}

-- Whether a tool call, a dict or an object, has this id.
abbrev pub call_bears : String → Value → Bool
call_bears id (dict call) =
    bears (or_null (lookup "id" call)) (or_null (lookup "tool_call_id" call)) id
call_bears id call = bears (attribute "id" call) (attribute "tool_call_id" call) id

-- Whether a message calls a tool under this id, which is not empty.
abbrev pub calls_id : Fields → String → Bool
calls_id m id = not (id == "") && any (call_bears id) (members (or_null (lookup "tool_calls" m)))

-- Whether a message is a result for this id.
abbrev pub answers_id : Fields → String → Bool
answers_id m id = bears (or_null (lookup "tool_call_id" m)) (or_null (lookup "id" m)) id

abbrev pub has_role : String → Fields → Bool
has_role role m = equals (or_null (lookup "role" m)) role

-- No id is open.
abbrev pub IsSettled : (String → Bool) → Type 0
IsSettled open_id = (id : String) → open_id id ≡ false

-- The messages obey the API from the open ids on: an agent's message comes when no id is open, and opens
-- those that it calls; a result is for an open id, which it closes; any other message comes when
-- no id is open; and at the end none is. What is no dict is no message.
abbrev pub Obeys : (String → Bool) → List Value → Type 0
Obeys open_id [] = IsSettled open_id
Obeys open_id (dict m ∷ ms) =
    (has_role "assistant" m ≡ true → IsSettled open_id × Obeys (calls_id m) ms)
    × (has_role "tool" m ≡ true
        → ((id : String) × (answers_id m id ≡ true) × (open_id id ≡ true))
          × Obeys (λ id. open_id id && not (answers_id m id)) ms)
    × (has_role "assistant" m ≡ false
        → has_role "tool" m ≡ false
        → IsSettled open_id × Obeys (λ id. false) ms)
Obeys open_id (null ∷ ms) = Obeys open_id ms
Obeys open_id (v ∷ ms) = Obeys open_id ms

call_bears-call_id : (id : String) (call : Value) → call_bears id call ≡ (call_id call == id)
call_bears-call_id id (dict call) = bears-or_else _ _ id
call_bears-call_id id null = bears-or_else _ _ id
call_bears-call_id id call = bears-or_else _ _ id

contains-ids_of :
    (calls : List Value) (id : String)
    → contains (ids_of calls) id ≡ (not (id == "") && any (call_bears id) calls)
unfolding ids_of
contains-ids_of [] id = ground arith
contains-ids_of (call ∷ calls) id = ground (
  arith,
  contains-ids_of calls id,
  contains-ids_of calls (call_id call),
  call_bears-call_id id call,
  eq_iff (call_id call) id,
  eq_iff id (call_id call),
  eq_iff (call_id call) "",
  eq_iff id "",
)

settled :
    (ids : List String) (open_id : String → Bool)
    → ((id : String) → open_id id ≡ contains ids id)
    → is_empty ids ≡ true
    → IsSettled open_id
settled [] open_id same e id = same id
settled (a ∷ ids) open_id same e id = cc

roles_differ : (v : Value) → equals v "tool" ≡ true → equals v "assistant" ≡ false
roles_differ (str t) h =
    let named = (eq_iff t "tool").0 h in subst (λ u. (u == "assistant") ≡ false) (sym named) refl
roles_differ null h = cc
roles_differ v h = cc

follows-Obeys :
    (ms : List Value) (ids : List String) (open_id : String → Bool)
    → ((id : String) → open_id id ≡ contains ids id)
    → follows ids ms ≡ true
    → Obeys open_id ms
unfolding follows
follows-Obeys [] ids open_id same h = settled ids open_id same h
follows-Obeys (null ∷ ms) ids open_id same h = follows-Obeys ms ids open_id same h
follows-Obeys (dict m ∷ ms) ids open_id same h = (
  λ e.
      let v : (is_empty ids && follows (open_ids m) ms) ≡ true = ground (arith, e, h) in
      (
        settled ids open_id same (ground (arith, v)),
        follows-Obeys ms (open_ids m) (calls_id m)
            (λ id. sym (contains-ids_of (members (or_null (lookup "tool_calls" m))) id))
            (ground (arith, v)),
      ),
  λ e.
      let v : (not (result_id m == "")
            && contains ids (result_id m)
            && follows (discard (result_id m) ids) ms)
          ≡ true =
        ground (arith, e, roles_differ (or_null (lookup "role" m)) e, h) in
      (
        (
          result_id m,
          bears-or_else _ _ (result_id m) ∙ eq_refl (result_id m),
          same (result_id m) ∙ ground (arith, v),
        ),
        follows-Obeys ms (discard (result_id m) ids) (λ id. open_id id && not (answers_id m id))
            (λ id. ground (
              arith,
              same id,
              bears-or_else (or_null (lookup "tool_call_id" m)) (or_null (lookup "id" m)) id,
              contains-keep (λ i. not (i == result_id m)) ids id,
              eq_iff id (result_id m),
              eq_iff (result_id m) id,
            ))
            (ground (arith, v)),
      ),
  λ e k.
      let v : (is_empty ids && follows [] ms) ≡ true = ground (arith, e, k, h) in
      (
        settled ids open_id same (ground (arith, v)),
        follows-Obeys ms [] (λ id. false) (λ id. refl) (ground (arith, v)),
      ),
)
follows-Obeys (v ∷ ms) ids open_id same h = follows-Obeys ms ids open_id same h

-- Whatever messages are to be sent and in whichever order Python visits a set, the sanitized messages
-- obey the API of the model: every id that a tool call has, of however many in one message, gets its
-- one result before the next message of another kind and before the end, and every result is for
-- an id that is open.
pub sanitize_openai_messages-Obeys :
    (order : List String → List String)
    → IsOrder order
    → (ms : List Value) → Obeys (λ id. false) (sanitize_openai_messages order ms)
sanitize_openai_messages-Obeys order ordered ms =
    follows-Obeys (sanitize_openai_messages order ms) [] (λ id. false) (λ id. refl)
      (sanitize_openai_messages-follows order ordered ms)
