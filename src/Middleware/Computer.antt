-- ===== src/Middleware/Computer.antt =====
-- core/middleware/computer_reports.py: what a session's computer reports is read from chat_messages
-- before each call of the model. `loads` is `json.loads`, `none` where it raises. The mark -1, before
-- any row, is `none`. The pool and the session's id are read from the services and the configuration.
pub mod Once
mod Samples
use harness_runtime.Base.{
  ℕ, ltb, String, Bool, true, false, not, ◌&&◌, Option, none, some, List, [], ◌∷◌, ◌++◌, map, ◌==◌,
  ◌<>◌, if◌then◌else◌, keep, strip, decimal, is_empty,
}
use harness_runtime.Value.{
  Value, null, str, list, tuple, dict, object, num, Fields, end, field, lookup, or_null, equals,
}
use harness_runtime.Store.Chat.{ChatRow, session_rows}
use harness_runtime.Store.Stopped.{ordered}
use harness_runtime.Middleware.{HumanMessage}

abbrev message_of : Option Value → Option String
message_of (some (str m)) = if strip m == "" then none else some m
message_of _ = none

abbrev of_notice : Option Value → Option String
of_notice (some (dict notice)) =
    if equals (or_null (lookup "type" notice)) "computer/report"
    then message_of (lookup "message" notice)
    else none
of_notice _ = none

unfoldable pub report_message_text : (loads : String → Option Value) → Value → Option String
report_message_text loads (str content) = of_notice (loads content)
report_message_text loads null = none
report_message_text loads _ = none

abbrev pub is_after : Option ℕ → ℕ → Bool
is_after none n = true
is_after (some seen) n = ltb seen n

-- `source = 'notification' AND sequence > seen`
abbrev pub is_unread : Option ℕ → ChatRow → Bool
is_unread seen r = r.source == "notification" && is_after seen r.sequence

unfoldable pub unread_rows : String → Option ℕ → List ChatRow → List ChatRow
unread_rows session_id seen rows = ordered (keep (is_unread seen) (session_rows session_id rows))

unfoldable pub reports_of : (loads : String → Option Value) → List ChatRow → List (ℕ × String)
unfolding report_message_text
reports_of loads [] = []
reports_of loads (r ∷ rs) = elim (report_message_text loads r.content) [
  | none ↦ reports_of loads rs
  | some t ↦ (r.sequence, t) ∷ reports_of loads rs
]

-- The number of the last row, and of none the one before.
abbrev pub newest : Option ℕ → List ChatRow → Option ℕ
newest seen [] = seen
newest seen (r ∷ rs) = newest (some r.sequence) rs

unfoldable pub unread_reports :
    (loads : String → Option Value)
    → List ChatRow
    → String
    → Option ℕ
    → List (ℕ × String) × Option ℕ
unfolding unread_rows reports_of
unread_reports loads rows session_id seen =
    let found = unread_rows session_id seen rows in (reports_of loads found, newest none found)

unfoldable pub has_unread_reports :
    (loads : String → Option Value) → List ChatRow → String → Option ℕ → Bool
unfolding unread_reports
has_unread_reports loads rows session_id seen =
    not (is_empty (unread_reports loads rows session_id seen).0)

abbrev pub report_message : ℕ × String → HumanMessage
report_message report = record {
  content = "[System Notification] " <> report.1;
  id = "computer-report-" <> decimal report.0;
  additional_kwargs = field "computer_report" (dict (field "sequence" (num report.0) end)) end;
}

-- The update of the agent's state.
pub record Delivery : Type 0 where
  pub computer_reports_seen : ℕ
  pub messages : List HumanMessage

unfoldable pub deliver : List (ℕ × String) × Option ℕ → Option Delivery
deliver (reports, none) = none
deliver (reports, some last) =
    some (record { computer_reports_seen = last; messages = map report_message reports })

unfoldable pub report_before_model :
    (loads : String → Option Value)
    → (has_pool : Bool) → (session_id : Option String) → List ChatRow
    → Option ℕ
    → Option Delivery
unfolding deliver unread_reports
report_before_model loads has_pool none rows seen = none
report_before_model loads has_pool (some session_id) rows seen =
    if has_pool then deliver (unread_reports loads rows session_id seen) else none
