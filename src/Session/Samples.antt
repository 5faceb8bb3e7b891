-- ===== src/Session/Samples.antt =====
-- What a user types while a question is open, and an image that is too large.
use harness_runtime.Base.{ℕ, String, false, ◌≡◌, refl, none, [], ◌∷◌, strip}
use harness_runtime.Value.{truthy, str, dict, list_of, Fields, end, field}
use harness_runtime.Value.Errors.{Result, ok, is_ok}
use harness_runtime.Execution.Resume.{
  Checkpoint, saved, has_pending_question, respond, orphaned_ids, tool_messages, decisions_of,
  resume_by, build_resume_input,
}
use harness_runtime.Session.{
  text, turn_input, inline_object_attachments, build_message_content, text_block, image_block,
}
use harness_runtime.Session.Input.{turn_input-answers}
use harness_runtime.AskUser.{ask_user_answer}
use harness_runtime.Session.Attachments.{inline_object_attachments-error}

abbrev fetch : String → Result (ℕ × String)
fetch url = ok (9000000, "AAAA")

abbrev asking : Checkpoint
asking = record {
  pending_writes = (str "t" ∷ str "__interrupt__" ∷ str "v" ∷ []) ∷ [];
  messages = list_of [];
  pending_jobs = [];
  computer_reports_seen = none;
}

turn_input-answers_example :
    let answer = respond (strip " yes ") in
    (payload : Fields) × (turn_input fetch end " yes " "user" [] ≡ ok payload)
    × (build_resume_input (saved asking) payload none
        ≡ resume_by (tool_messages (decisions_of answer) (orphaned_ids asking.messages)) answer)
    × (ask_user_answer text answer ≡ "yes")
unfolding strip has_pending_question
turn_input-answers_example =
    turn_input-answers fetch end [] " yes " asking text (λ t. refl) refl refl refl refl

abbrev photo : Fields
photo =
    field "mime" (str "image/png")
      (field "source" (dict (field "type" (str "object") (field "value" (str "u") end))) end)

test_named :
    build_message_content "" (photo ∷ [])
    ≡ ok (
        list_of (
          dict (text_block "[Attached image: u]")
          ∷ dict (image_block "url" "url" "u" "image/png")
          ∷ []))
unfolding build_message_content truthy
test_named = refl

inline_object_attachments-error_example :
    is_ok (inline_object_attachments fetch (end ∷ photo ∷ [])) ≡ false
inline_object_attachments-error_example =
    inline_object_attachments-error fetch (end ∷ photo ∷ []) refl
