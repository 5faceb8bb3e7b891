-- ===== src/Execution/Resume/Samples.antt =====
-- A session that waits for an answer, and one that has finished.
use harness_runtime.Base.{true, false, ◌≡◌, refl, none, [], ◌∷◌, all, strip}
use harness_runtime.Value.{truthy, Value, str, dict, object, Fields, end, field, list_of}
use harness_runtime.Execution.Resume.{
  Checkpoint, saved, latest_user_text, has_pending_question, respond, orphaned_ids, tool_messages,
  resume_by, build_resume_input, resume_by_payload, resume_from_pending_interrupt, decide,
  completed_ids, pending_calls,
}
use harness_runtime.Execution.Resume.Injected.{build_resume_input-injects, injected, is_unanswered}

-- An agent's message with two calls, of which the first has its result.
abbrev history : Value
history = list_of (
    object "AIMessage" (
      field "tool_calls"
        (list_of (
          dict (field "id" (str "c1") (field "name" (str "read") end))
          ∷ dict (field "id" (str "c2") (field "name" (str "review_content") end))
          ∷ []))
        end)
    ∷ object "ToolMessage" (field "type" (str "tool") (field "tool_call_id" (str "c1") end))
    ∷ [])

abbrev asking : Checkpoint
asking = record {
  pending_writes = (str "t" ∷ str "__interrupt__" ∷ str "v" ∷ []) ∷ [];
  messages = history;
  pending_jobs = "r1" ∷ [];
  computer_reports_seen = none;
}

abbrev finished : Checkpoint
finished = record {
  pending_writes = [];
  messages = history;
  pending_jobs = "r1" ∷ [];
  computer_reports_seen = none;
}

abbrev message : Fields
message =
    field "messages"
      (list_of (dict (field "role" (str "user") (field "content" (str " yes ") end)) ∷ [])) end

test_resume :
    build_resume_input (saved asking) message none
    ≡ resume_by
        (record { tool_call_id = "c2"; content = str "yes"; is_error = false } ∷ [])
        (respond "yes")
unfolding build_resume_input resume_by_payload resume_from_pending_interrupt decide
    has_pending_question latest_user_text orphaned_ids completed_ids pending_calls tool_messages
    strip truthy
test_resume = refl

build_resume_input-injects_example :
    all
      (λ m. is_unanswered history m.tool_call_id)
      (injected (build_resume_input (saved asking) message none))
    ≡ true
build_resume_input-injects_example = build_resume_input-injects asking message none
