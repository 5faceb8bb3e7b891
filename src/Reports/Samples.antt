-- ===== src/Reports/Samples.antt =====
-- The throttle at concrete times.
use harness_runtime.Base.{◌+◌, ◌≤◌, true, ◌≡◌, refl, ◌⊎◌, List, [], ◌∷◌, arith}
use harness_runtime.Reports.Throttle.{Slots, slot_of, note_tool_finished, flush_workspace_change}
use harness_runtime.Reports.Throttle.Laws.{Step, finished, run, note_tool_finished-spaced}

-- Two writes in a second, and a read.
abbrev steps : List Step
steps =
    finished 5000 "s" "write_file"
    ∷ finished 5900 "s" "execute"
    ∷ finished 6000 "s" "read_file"
    ∷ []

-- The second write waits for the turn's end.
flush_reports : (flush_workspace_change 6100 "s" (run steps [])).0 ≡ true
unfolding flush_workspace_change note_tool_finished
flush_reports = refl

abbrev slots : Slots
slots = ("s", record { last = 5000; pending = true }) ∷ []

note_tool_finished-spaced_example :
    (((slot_of "s" slots).last ≡ 0) ⊎ ((slot_of "s" slots).last + 2000 ≤ 7000))
    × ((slot_of "s" (note_tool_finished 7000 "s" "eval" slots).1).last ≡ 7000)
unfolding note_tool_finished
note_tool_finished-spaced_example =
    note_tool_finished-spaced 7000 "s" "eval" slots (omega arith) refl
