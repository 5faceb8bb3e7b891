-- ===== src/Sse/Samples.antt =====
-- Runs of the publisher at concrete calls.
use harness_runtime.Base.{ℕ, Bool, false, ◌≡◌, refl, some, none, List, [], ◌∷◌, ◌++◌, nat_eq, not}
use harness_runtime.Value.{str, Fields, field}
use harness_runtime.Publisher.{
  Call, default_result, assistant, stream_event_text, message_finish, result, lifecycle_completed,
  lifecycle_started, tool_result,
}
use harness_runtime.Sse.Frames.{
  sentinel, frame, event, started, message_start, block_start, text_content, block_delta,
}
use harness_runtime.Sse.{fresh, perform_all, close}
use harness_runtime.Sse.Numbering.{AddsSentinel, IsNumbered, perform_all-IsNumbered}
use harness_runtime.Sse.Closing.{IsClosed, close_final, ttl_of}
use harness_runtime.Sse.Blocks.{always}

-- A turn that speaks, calls a tool and asks the user.
abbrev asking_turn : List Call
asking_turn =
    lifecycle_started none
    ∷ stream_event_text "Let me "
    ∷ stream_event_text "look."
    ∷ message_finish
    ∷ assistant "" (field "type" (str "tool_use") (field "id" (str "call-1") Fields.end) ∷ [])
    ∷ tool_result "call-1" "read_file" "text" false
    ∷ result (record default_result { subtype = "interrupted" })
    ∷ lifecycle_completed
    ∷ []

-- Redis that refuses the third write.
abbrev flaky : ℕ → Bool
flaky n = not (nat_eq n 2)

first_entries :
    (perform_all always
      (lifecycle_started none ∷ stream_event_text "Hi" ∷ [])
      (fresh "s" [])).stream
    ≡ frame (event 1 (started none))
      ∷ frame (event 2 (message_start "s" 1))
      ∷ frame (event 3 (block_start 0 text_content))
      ∷ frame (event 4 (block_delta 0 "Hi"))
      ∷ []
unfolding perform_all
first_entries = refl

perform_all-IsNumbered_example :
    let p = perform_all flaky asking_turn (fresh "s" (sentinel ∷ [])) in
    IsNumbered (sentinel ∷ []) p
    × IsNumbered (sentinel ∷ []) (close flaky p)
    × AddsSentinel p.stream (close flaky p).stream
perform_all-IsNumbered_example = perform_all-IsNumbered flaky "s" (sentinel ∷ []) asking_turn

close_final_example :
    IsClosed
      ([] ++ sentinel ∷ [])
      (some (ttl_of false))
      (close always (perform_all always asking_turn (close always (fresh "s" []))))
close_final_example = close_final always (fresh "s" []) asking_turn refl refl
