-- ===== src/Reports/Throttle/Laws.antt =====
-- The throttle of core/waypoint_reports/workspace.py, through a list of tool calls and turns.
use harness_runtime.Base.{
  ℕ, ◌+◌, ◌≤◌, String, Bool, true, false, ◌&&◌, ◌≡◌, refl, List, [], ◌∷◌, arith, ◌==◌, eq_iff,
  eq_refl, if◌then◌else◌, contains, ◌⊎◌,
}
use harness_runtime.Reports.Throttle.{
  Slot, Slots, slot_of, set_slot, note_tool_finished, flush_workspace_change,
  workspace_writing_tools,
}

slot_of-set :
    (k j : String) (s : Slot) (slots : Slots)
    → slot_of j (set_slot k s slots) ≡ (if k == j then s else slot_of j slots)
unfolding slot_of set_slot
slot_of-set k j s [] = refl
slot_of-set k j s ((i, t) ∷ slots) =
    ground (arith, eq_iff k j, eq_iff i k, eq_iff i j, slot_of-set k j s slots)

-- The finished tool calls and turn ends of all sessions, in order, each with the clock's reading.
pub data Step : Type 0 where
  finished : (now : ℕ) (session_id tool_name : String) → Step
  turn_ended : (now : ℕ) (session_id : String) → Step

abbrev pub step : Step → Slots → Bool × Slots
step (finished now session_id tool) slots = note_tool_finished now session_id tool slots
step (turn_ended now session_id) slots = flush_workspace_change now session_id slots

-- Whether a step is a change of the session's workspace, and whether it is the session's at all.
abbrev pub changes : String → Step → Bool
changes k (finished now session_id tool) = session_id == k && contains workspace_writing_tools tool
changes k (turn_ended now session_id) = false

abbrev pub concerns : String → Step → Bool
concerns k (finished now session_id tool) = session_id == k
concerns k (turn_ended now session_id) = session_id == k

abbrev pub run : List Step → Slots → Slots
run [] slots = slots
run (s ∷ ss) slots = run ss (step s slots).1

-- Whether a change of the session is left that no report of the session followed or went with.
abbrev pub unreported : String → Bool → List Step → Slots → Bool
unreported k waiting [] slots = waiting
unreported k waiting (s ∷ ss) slots =
    unreported k
      (if concerns k s && (step s slots).0 then false else if changes k s then true else waiting) ss
      (step s slots).1

-- A report that a finished tool call sends comes first in its session, or at least two seconds after
-- the one before it, and later reports are measured from it.
pub note_tool_finished-spaced :
    (now : ℕ) (session_id tool : String) (slots : Slots)
    → (slot_of session_id slots).last ≤ now
    → (note_tool_finished now session_id tool slots).0 ≡ true
    → (((slot_of session_id slots).last ≡ 0) ⊎ ((slot_of session_id slots).last + 2000 ≤ now))
      × ((slot_of session_id (note_tool_finished now session_id tool slots).1).last ≡ now)
unfolding note_tool_finished
note_tool_finished-spaced now session_id tool slots le sent = ground (
  arith,
  slot_of-set session_id session_id
      (record { last = (slot_of session_id slots).last; pending = true }) slots,
  slot_of-set session_id session_id (record { last = now; pending = false }) slots,
  eq_refl session_id,
)
