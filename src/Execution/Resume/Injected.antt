-- ===== src/Execution/Resume/Injected.antt =====
-- The results of calls that a resumption in core/execution/executor.py injects, against the calls and the
-- results of the checkpoint's messages.
use harness_runtime.Base.{
  if◌then◌else◌, ap, any, String, Bool, true, false, not, ◌&&◌, ◌||◌, ◌≡◌, refl, sym, ◌∙◌, Option,
  none, some, List, [], ◌∷◌, ◌++◌, map, arith, ◌==◌, eq_iff, eq_refl, if_ind, contains, keep, all,
  get_or,
}
use harness_runtime.Value.{Value, str, Fields, members, attribute, lookup, or_null, text, entries}
use mathlib.Core.Path.{ap₂}
use harness_runtime.Value.Laws.{bears, bears-or_else, equals-text}
use harness_runtime.Execution.Resume.{
  is_result, read_key, is_instance, equals, dict, Checkpoint, saved, has_pending_question,
  resume_from_pending_interrupt, completed_ids, call_of, pending_calls, asks_itself, orphaned_ids,
  ToolMessage, tool_messages, StreamInput, new_turn, resume, resume_with, decisions_of, resume_by,
  decide, resume_by_payload, build_resume_input, is_decision, or_payload,
}

-- The results that the harness writes itself.
abbrev pub injected : StreamInput → List ToolMessage
injected (new_turn input) = []
injected (resume payload) = []
injected (resume_with ms payload) = ms

-- A key of a message, a dict or an object.
abbrev pub key_of : String → Value → Value
key_of k (dict m) = or_null (lookup k m)
key_of k m = attribute k m

-- Whether a call has this id and is of another tool than ask_user.
abbrev pub is_call_for : String → Value → Bool
is_call_for id call =
    bears (or_null (lookup "id" (entries call))) (or_null (lookup "tool_call_id" (entries call))) id
    && not (equals (or_null (lookup "name" (entries call))) "ask_user")

-- Whether a message is the result for this id.
abbrev pub is_result_for : String → Value → Bool
is_result_for id m =
    (equals (key_of "type" m) "tool"
      || equals (key_of "type" m) "ToolMessage"
      || is_instance "ToolMessage" m)
    && equals (key_of "tool_call_id" m) id

-- Whether, in the messages, a call of this id waits for the harness: it is of another tool than ask_user,
-- and it has no result.
abbrev pub is_unanswered : Value → String → Bool
is_unanswered messages id =
    any (λ m. any (is_call_for id) (members (attribute "tool_calls" m))) (members messages)
    && not (any (is_result_for id) (members messages))

read_key-key_of : (k : String) (m : Value) → read_key k m ≡ key_of k m
read_key-key_of k (dict m) = refl
read_key-key_of k m = refl

contains-head :
    (a : Bool) (t : String) (rest : List String) (id : String)
    → contains (if a && not (t == "") then t ∷ rest else rest) id
      ≡ ((a && (not (t == "") && t == id)) || contains rest id)
contains-head a t rest id = ground arith

named_id :
    (v : Value) (id : String)
    → (id == "") ≡ false
    → (not (text v == "") && text v == id) ≡ equals v id
named_id v id solid =
    ground (arith, solid, eq_iff (text v) id, eq_iff (text v) "", eq_iff id "")
    ∙ sym (equals-text v id solid)

result_lem :
    (id : String) (m : Value)
    → (id == "") ≡ false
    → (is_result m
        && (not (text (read_key "tool_call_id" m) == "") && text (read_key "tool_call_id" m) == id))
      ≡ is_result_for id m
result_lem id m solid =
    ap₂ (λ a b. a && b)
      (ap₂ (λ t r. equals t "tool" || equals r "ToolMessage" || is_instance "ToolMessage" m)
        (read_key-key_of "type" m) (read_key-key_of "type" m))
      (named_id (read_key "tool_call_id" m) id solid
        ∙ ap (λ v. equals v id) (read_key-key_of "tool_call_id" m))

contains-completed_ids :
    (id : String)
    → (id == "") ≡ false
    → (ms : List Value) → contains (completed_ids ms) id ≡ any (is_result_for id) ms
unfolding completed_ids
contains-completed_ids id solid [] = refl
contains-completed_ids id solid (m ∷ ms) =
    contains-head (is_result m) (text (read_key "tool_call_id" m)) (completed_ids ms) id
    ∙ ap₂ (λ a b. a || b) (result_lem id m solid) (contains-completed_ids id solid ms)

contains-map-keep :
    (p : String × String → Bool) (calls : List (String × String)) (id : String)
    → contains (map (λ c. c.0) (keep p calls)) id ≡ any (λ c. p c && c.0 == id) calls
contains-map-keep p [] id = refl
contains-map-keep p (c ∷ calls) id = ground (arith, contains-map-keep p calls id)

any-keep :
    (p q : String × String → Bool) (calls : List (String × String))
    → any p (keep q calls) ≡ any (λ c. q c && p c) calls
any-keep p q [] = refl
any-keep p q (c ∷ calls) = ground (arith, any-keep p q calls)

any-both :
    (p q : String × String → Bool) (b : Bool)
    → ((c : String × String) → p c ≡ true → (b && q c) ≡ true)
    → (calls : List (String × String)) → any p calls ≡ true
    → (b && any q calls) ≡ true
any-both p q b f [] h = cc
any-both p q b f (c ∷ calls) h = ground (arith, h, f c, any-both p q b f calls)

-- The calls for which the harness may write a result.
abbrev is_open_call : List String → String × String → Bool
is_open_call done c = not (c.0 == "") && not (contains done c.0)

pair_open :
    (done : List String) (id : String) (c : String × String)
    → (is_open_call done c && (not (asks_itself c) && c.0 == id)) ≡ true
    → ((not (id == "") && not (contains done id)) && (c.0 == id && not (asks_itself c))) ≡ true
pair_open done id c h =
    let same = (eq_iff c.0 id).0 (ground (arith, h)) in
    ground (arith, h, ap (λ s. s == "") same, ap (contains done) same)

pairs_open :
    (done : List String) (calls : List (String × String)) (id : String)
    → contains
        (map (λ c. c.0) (keep (λ c. not (asks_itself c)) (keep (is_open_call done) calls)))
        id
      ≡ true
    → ((not (id == "") && not (contains done id))
        && any (λ c. c.0 == id && not (asks_itself c)) calls)
      ≡ true
pairs_open done calls id h =
    any-both (λ c. is_open_call done c && (not (asks_itself c) && c.0 == id))
      (λ c. c.0 == id && not (asks_itself c)) (not (id == "") && not (contains done id))
      (pair_open done id) calls
      (sym (
          contains-map-keep (λ c. not (asks_itself c)) (keep (is_open_call done) calls) id
          ∙ any-keep (λ c. not (asks_itself c) && c.0 == id) (is_open_call done) calls)
        ∙ h)

call_of-is_call_for :
    (id : String) (call : Value)
    → ((call_of call).0 == id && not (asks_itself (call_of call))) ≡ is_call_for id call
call_of-is_call_for id call =
    ap₂ (λ a b. a && not b)
      (sym (
        bears-or_else (or_null (lookup "id" (entries call)))
          (or_null (lookup "tool_call_id" (entries call))) id))
      (sym (equals-text (or_null (lookup "name" (entries call))) "ask_user" refl))

any-call_of :
    (id : String) (calls : List Value)
    → any (λ c. c.0 == id && not (asks_itself c)) (map call_of calls) ≡ any (is_call_for id) calls
any-call_of id [] = refl
any-call_of id (call ∷ calls) =
    ap₂ (λ a b. a || b) (call_of-is_call_for id call) (any-call_of id calls)

keep_join :
    (xs ys : List (String × String)) (id : String)
    → contains (map (λ c. c.0) (keep (λ c. not (asks_itself c)) (xs ++ ys))) id ≡ (
        contains (map (λ c. c.0) (keep (λ c. not (asks_itself c)) xs)) id
        || contains (map (λ c. c.0) (keep (λ c. not (asks_itself c)) ys)) id)
keep_join [] ys id = refl
keep_join (x ∷ xs) ys id = ground (arith, keep_join xs ys id)

calls_open :
    (done : List String) (messages : List Value) (id : String)
    → contains (map (λ c. c.0) (keep (λ c. not (asks_itself c)) (pending_calls done messages))) id
      ≡ true
    → (not (id == "")
        && not (contains done id)
        && any (λ m. any (is_call_for id) (members (attribute "tool_calls" m))) messages)
      ≡ true
unfolding pending_calls
calls_open done [] id h = cc
calls_open done (m ∷ ms) id h =
    let calls = members (attribute "tool_calls" m) in
    let kept = keep (λ c. not (c.0 == "") && not (contains done c.0)) (map call_of calls) in
    ground (
      arith,
      sym (keep_join kept (pending_calls done ms) id) ∙ h,
      pairs_open done (map call_of calls) id,
      any-call_of id calls,
      calls_open done ms id,
    )

widen :
    (id : String) (ids : List String) (ms : List ToolMessage)
    → all (λ m. contains ids m.tool_call_id) ms ≡ true
    → all (λ m. contains (id ∷ ids) m.tool_call_id) ms ≡ true
widen id ids [] h = refl
widen id ids (m ∷ ms) h = ground (arith, widen id ids ms)

messages_among :
    (ds : List Value) (ids : List String)
    → all (λ m. contains ids m.tool_call_id) (tool_messages ds ids) ≡ true
unfolding tool_messages
messages_among [] ids = refl
messages_among (d ∷ ds) [] = refl
messages_among (d ∷ ds) (id ∷ ids) =
    let m : ToolMessage = record {
      tool_call_id = id;
      content = get_or (lookup "message" (entries d)) (str "Approved");
      is_error = text (or_null (lookup "type" (entries d))) == "reject";
    } in
    let rest = widen id ids (tool_messages ds ids) (messages_among ds ids) in
    if_ind (λ (r : List ToolMessage). all (λ m. contains (id ∷ ids) m.tool_call_id) r ≡ true)
      (is_decision (text (or_null (lookup "type" (entries d)))))
      (λ _. ground (arith, rest, eq_refl id)) (λ _. rest)

orphaned_ids-open :
    (messages : Value) (id : String)
    → contains (orphaned_ids messages) id ≡ true
    → is_unanswered messages id ≡ true
unfolding orphaned_ids
orphaned_ids-open messages id h =
    let due = calls_open (completed_ids (members messages)) (members messages) id h in
    let solid : (id == "") ≡ false = ground (arith, due) in
    ground (arith, due, contains-completed_ids id solid (members messages))

all_unanswered :
    (messages : Value) (ms : List ToolMessage)
    → all (λ m. contains (orphaned_ids messages) m.tool_call_id) ms ≡ true
    → all (λ m. is_unanswered messages m.tool_call_id) ms ≡ true
all_unanswered messages [] h = refl
all_unanswered messages (m ∷ ms) h =
    ground (arith, h, orphaned_ids-open messages m.tool_call_id, all_unanswered messages ms)

injected-resume_by :
    (messages payload : Value) (ms : List ToolMessage)
    → all (λ m. is_unanswered messages m.tool_call_id) ms ≡ true
    → all (λ m. is_unanswered messages m.tool_call_id) (injected (resume_by ms payload)) ≡ true
injected-resume_by messages payload [] h = refl
injected-resume_by messages payload (m ∷ ms) h = h

injected-decide :
    (c : Checkpoint) (input : Fields) (payload : Value) (ds : List Value)
    → all
        (λ m. is_unanswered c.messages m.tool_call_id)
        (injected (decide (saved c) input payload ds))
      ≡ true
unfolding decide
injected-decide c input payload ds =
    let ms = tool_messages ds (orphaned_ids c.messages) in
    if_ind
      (λ (r : StreamInput). all (λ m. is_unanswered c.messages m.tool_call_id) (injected r) ≡ true)
      (has_pending_question (saved c))
      (λ _.
        injected-resume_by c.messages payload ms
          (all_unanswered c.messages ms (messages_among ds (orphaned_ids c.messages))))
      (λ _. refl)

injected-by_payload :
    (c : Checkpoint) (input : Fields) (payload : Value) (ds : List Value)
    → all
        (λ m. is_unanswered c.messages m.tool_call_id)
        (injected
          (elim ds [ [] ↦ resume payload | d ∷ rest ↦ decide (saved c) input payload (d ∷ rest) ]))
      ≡ true
injected-by_payload c input payload [] = refl
injected-by_payload c input payload (d ∷ ds) = injected-decide c input payload (d ∷ ds)

injected-input :
    (c : Checkpoint) (input : Fields) (choice : Option Value)
    → all
        (λ m. is_unanswered c.messages m.tool_call_id)
        (injected (elim choice [
          | none ↦ new_turn input
          | some payload ↦ resume_by_payload (saved c) input payload
        ]))
      ≡ true
unfolding resume_by_payload
injected-input c input none = refl
injected-input c input (some payload) = injected-by_payload c input payload (decisions_of payload)

-- Whatever the user answers, each result that the harness injects on a resumption is for the id of a
-- call in the checkpoint that is of another tool than ask_user, and no message of the checkpoint is
-- a result for that id.
pub build_resume_input-injects :
    (c : Checkpoint) (input : Fields) (resume_payload : Option Value)
    → all
        (λ m. is_unanswered c.messages m.tool_call_id)
        (injected (build_resume_input (saved c) input resume_payload))
      ≡ true
unfolding build_resume_input
build_resume_input-injects c input resume_payload =
    injected-input c input
      (or_payload resume_payload (resume_from_pending_interrupt (saved c) input))
