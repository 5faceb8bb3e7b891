-- ===== src/Middleware/Samples.antt =====
-- A model that never forms its call, and a list that stays open.
use harness_runtime.Base.{◌≡◌, ◌≤◌, refl, none, some, List, [], ◌∷◌, ◌++◌}
use harness_runtime.Value.{end, field, null}
use harness_runtime.Middleware.{
  Message, ai, human, Todo, reminder, todo_after_model, retry_after_model, max_retries,
  reminded_this_run, reminded_newest, retry_newest, streak_of, retries, retry_message,
}
use harness_runtime.Middleware.Retries.{times_retried, times_retried_bounded}
use harness_runtime.Middleware.Reminders.{todo_after_model-once}

abbrev broken : Message
broken = ai (record {
  content = "";
  tool_calls = [];
  invalid_tool_calls = record { id = some "c1"; name = some "ask_user"; error = none } ∷ [];
})

abbrev asked : Message
asked = human (record { content = "go"; id = "m1"; additional_kwargs = end })

abbrev answer : Message
answer = ai (record { content = "done"; tool_calls = []; invalid_tool_calls = [] })

abbrev todos : List Todo
todos =
    record { content = "a"; status = "pending" }
    ∷ record { content = "b"; status = "completed" }
    ∷ []

test_retried : times_retried (asked ∷ []) (broken ∷ broken ∷ broken ∷ broken ∷ []) ≡ 2
unfolding times_retried retry_after_model retry_newest streak_of retries retry_message
test_retried = refl

times_retried_bounded_example :
    times_retried (asked ∷ []) (broken ∷ broken ∷ broken ∷ []) ≤ max_retries
times_retried_bounded_example = times_retried_bounded (asked ∷ []) (broken ∷ broken ∷ broken ∷ [])

abbrev notice : Message
notice = reminder "u" (record { content = "a"; status = "pending" } ∷ [])

test_noticed : todo_after_model "u" (asked ∷ answer ∷ []) todos ≡ some notice
unfolding todo_after_model reminded_this_run reminded_newest
test_noticed = refl

todo_after_model-once_example :
    todo_after_model "v" ((asked ∷ answer ∷ []) ++ notice ∷ answer ∷ []) todos ≡ none
todo_after_model-once_example =
    todo_after_model-once "u" (asked ∷ answer ∷ []) todos notice test_noticed "v" (answer ∷ [])
      todos refl

-- A report of the session's computer, which the harness gives the agent as a human message.
abbrev report : Message
report = human (record {
  content = "[System Notification] it broke";
  id = "computer-report-7";
  additional_kwargs = field "computer_report" null end;
})

-- A report that arrives after the notice counts as an input of the run: the notice comes again.
test_noticed_again :
    todo_after_model "v" (asked ∷ answer ∷ notice ∷ report ∷ answer ∷ []) todos
    ≡ some (reminder "v" (record { content = "a"; status = "pending" } ∷ []))
unfolding todo_after_model reminded_this_run reminded_newest
test_noticed_again = refl
