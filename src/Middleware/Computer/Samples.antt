-- ===== src/Middleware/Computer/Samples.antt =====
-- A session whose computer reports twice, once between two reads of the agent.
use harness_runtime.Base.{
  ℕ, String, true, ◌≡◌, refl, none, some, Option, [], ◌∷◌, ◌++◌, arith, strip,
}
use harness_runtime.Value.{truthy, Value, str, dict, end, field}
use harness_runtime.Store.Chat.{ChatRow, next_sequence}
use harness_runtime.Store.Stopped.{ordered}
use harness_runtime.Middleware.Computer.{
  unread_reports, unread_rows, reports_of, report_message_text, report_before_model, deliver,
  report_message,
}
use harness_runtime.Middleware.Computer.Once.{unread_reports-once, moved}

-- Of a text, the notice with that message.
abbrev notice_of : String → Option Value
notice_of s = some (dict (field "type" (str "computer/report") (field "message" (str s) end)))

abbrev row : ℕ → String → ChatRow
row n s = record {
  session_id = "s";
  role = "system";
  content = str s;
  message = end;
  sequence = n;
  source = "notification";
  checkpoint_id = none;
}

test_delivered :
    report_before_model notice_of true (some "s") (row 0 "a" ∷ row 1 "b" ∷ []) (some 0)
    ≡ some (record { computer_reports_seen = 1; messages = report_message (1, "b") ∷ [] })
unfolding report_before_model deliver unread_reports unread_rows reports_of report_message_text
    ordered strip truthy
test_delivered = refl

unread_reports-once_example :
    (unread_reports notice_of (row 0 "a" ∷ row 1 "b" ∷ []) "s" none).0
    ≡ (unread_reports notice_of (row 0 "a" ∷ []) "s" none).0
      ++ (unread_reports notice_of
          (row 0 "a" ∷ row 1 "b" ∷ [])
          "s"
          (moved none (unread_reports notice_of (row 0 "a" ∷ []) "s" none).1)).0
unfolding next_sequence
unread_reports-once_example =
    unread_reports-once notice_of (row 0 "a" ∷ []) (row 1 "b" ∷ []) "s" none
      (omega arith, (omega arith, omega arith))
