-- ===== src/Reports/Throttle.antt =====
-- core/waypoint_reports/workspace.py: the reports of a changed workspace, at most one to a session in
-- two seconds, and the rest held back. Times are milliseconds of the monotonic clock. Each function
-- holds the lock throughout, so calls of several threads are a sequence; its first result says
-- whether it sends a report.
pub mod Laws
use harness_runtime.Base.{
  ℕ, ◌-◌, String, Bool, true, false, not, ◌&&◌, ◌||◌, Option, none, some, List, [], ◌∷◌, ltb,
  nat_eq, ◌==◌, if◌then◌else◌, get_or, contains,
}
use harness_runtime.Value.{Fields, lookup, or_null, equals, text}

abbrev pub workspace_writing_tools : List String
workspace_writing_tools = "write_file" ∷ "edit_file" ∷ "execute" ∷ "run_tool" ∷ "eval" ∷ []

abbrev pub min_interval : ℕ
min_interval = 2000

-- When the last report was sent, 0 for never, and whether a change waits.
pub record Slot : Type 0 where
  pub last : ℕ
  pub pending : Bool

abbrev pub empty_slot : Slot
empty_slot = record { last = 0; pending = false }

-- `_state`
abbrev pub Slots : Type 0
Slots = List (String × Slot)

unfoldable pub slot_of : String → Slots → Slot
slot_of k [] = empty_slot
slot_of k ((j, s) ∷ slots) = if j == k then s else slot_of k slots

unfoldable pub set_slot : String → Slot → Slots → Slots
set_slot k s [] = (k, s) ∷ []
set_slot k s ((j, t) ∷ slots) = if j == k then (k, s) ∷ slots else (j, t) ∷ set_slot k s slots

unfoldable pub note_tool_finished :
    (now : ℕ) → (session_id tool_name : String) → Slots → Bool × Slots
unfolding slot_of set_slot
note_tool_finished now session_id tool_name slots =
    let last = (slot_of session_id slots).last in
    if contains workspace_writing_tools tool_name
    then (if not (nat_eq last 0) && ltb (now - last) min_interval
        then (false, set_slot session_id (record { last = last; pending = true }) slots)
        else (true, set_slot session_id (record { last = now; pending = false }) slots))
    else (false, slots)

-- The tool of the first message that may have changed the workspace.
unfoldable pub writing_tool : List Fields → Option String
writing_tool [] = none
writing_tool (m ∷ ms) =
    let rest = writing_tool ms in
    let name = text (or_null (lookup "name" m)) in
    if equals (or_null (lookup "type" m)) "tool" && contains workspace_writing_tools name
    then some name
    else rest

unfoldable pub note_new_messages : (now : ℕ) → String → List Fields → Slots → Bool × Slots
unfolding writing_tool note_tool_finished
note_new_messages now session_id ms slots = elim (writing_tool ms) [
  | none ↦ (false, slots)
  | some name ↦ note_tool_finished now session_id name slots
]

unfoldable pub flush_workspace_change : (now : ℕ) → String → Slots → Bool × Slots
unfolding slot_of set_slot
flush_workspace_change now session_id slots =
    if (slot_of session_id slots).pending
    then (true, set_slot session_id (record { last = now; pending = false }) slots)
    else (false, slots)
