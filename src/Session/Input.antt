-- ===== src/Session/Input.antt =====
-- From what the user types to what the graph is given.
use harness_runtime.Base.{
  ℕ, String, true, false, ◌≡◌, refl, ap, ◌∙◌, none, List, [], ◌∷◌, ◌++◌, ◌==◌, strip, get_or,
}
use harness_runtime.Value.{Value, str, Fields, lookup, insert, list_of}
use harness_runtime.Value.Errors.{Result, ok}
use harness_runtime.Value.Laws.{lookup-insert}
use harness_runtime.Execution.Messages.{iterate}
use harness_runtime.Execution.Resume.{
  Checkpoint, saved, latest_user_text, has_pending_question, respond, orphaned_ids, tool_messages,
  decisions_of, resume_by, build_resume_input,
}
use harness_runtime.Execution.Resume.Answers.{build_resume_input-answers}
use harness_runtime.Execution.Resume.Latest.{latest_user_text-last}
use harness_runtime.AskUser.{ask_user_answer}
use harness_runtime.Session.{
  inline_object_attachments, build_message_content, prepare_turn_input, turn_input, message,
}

-- The payload of a turn with a plain message.
abbrev pub plain_payload : Fields → List Value → String → Fields
plain_payload base before content =
    insert "messages" (list_of (before ++ message "user" (str content) ∷ [])) base

turn_input-plain :
    (fetch : String → Result (ℕ × String)) (base : Fields) (before : List Value) (content : String)
    → iterate (get_or (lookup "messages" base) (list_of [])) ≡ ok before
    → (content == "") ≡ false
    → turn_input fetch base content "user" [] ≡ ok (plain_payload base before content)
unfolding turn_input inline_object_attachments prepare_turn_input build_message_content
turn_input-plain fetch base before content e solid = rw (e, solid) refl

latest-plain :
    (base : Fields) (before : List Value) (content : String)
    → latest_user_text (plain_payload base before content) ≡ strip content
latest-plain base before content =
    latest_user_text-last (plain_payload base before content) before content
      (lookup-insert "messages" "messages" _ base)

-- What the user types while a question is open is the answer to it, stripped, where the session's base
-- payload has messages that can be iterated or none, and the text is more than blanks: the turn's
-- input is built without an exception, the graph is resumed with the answer, and of what it is resumed
-- with the tool that asked gives the model the same text.
pub turn_input-answers :
    (fetch : String → Result (ℕ × String)) (base : Fields) (before : List Value) (content : String)
    (c : Checkpoint) (text_of : Value → String)
    → ((t : String) → text_of (str t) ≡ t)
    → iterate (get_or (lookup "messages" base) (list_of [])) ≡ ok before
    → (content == "") ≡ false
    → (strip content == "") ≡ false
    → has_pending_question (saved c) ≡ true
    → let answer = respond (strip content) in
      (payload : Fields) × (turn_input fetch base content "user" [] ≡ ok payload)
      × (build_resume_input (saved c) payload none
          ≡ resume_by (tool_messages (decisions_of answer) (orphaned_ids c.messages)) answer)
      × (ask_user_answer text_of answer ≡ strip content)
unfolding ask_user_answer
turn_input-answers fetch base before content c text_of law e solid stripped asked =
    let payload = plain_payload base before content in
    let latest = latest-plain base before content in
    (
      payload,
      turn_input-plain fetch base before content e solid,
      build_resume_input-answers c payload asked (ap (λ t. t == "") latest ∙ stripped)
          ∙ ap
              (λ t.
                resume_by (tool_messages (decisions_of (respond t)) (orphaned_ids c.messages))
                  (respond t))
              latest,
      law (strip content),
    )
