-- ===== src/Store/Stopped/Kept.antt =====
-- record_stopped_steps of core/persistence/message_writer.py keeps the table well formed.
use harness_runtime.Base.{String, Bool, none, List, [], ◌∷◌, true, false}
use harness_runtime.Value.{Fields}
use harness_runtime.Store.Chat.{ChatRow}
use harness_runtime.Store.Chat.Stamping.{IsSound, write_chat_messages-IsSound}
use harness_runtime.Store.Stopped.{
  write_groups, record_stopped_steps, by_source, unanswered_calls, current_turn,
}

write_groups-IsSound :
    (up : String → Bool) (session_id : String) (groups : List (String × List Fields))
    (rows : List ChatRow)
    → IsSound session_id rows
    → IsSound session_id (write_groups up session_id groups rows)
unfolding write_groups
write_groups-IsSound up session_id [] rows h = h
write_groups-IsSound up session_id ((source, ms) ∷ groups) rows h =
    write_groups-IsSound up session_id groups _
      (write_chat_messages-IsSound (up source) session_id ms 0 source none rows h)

pub record_stopped_steps-IsSound :
    (readable : Bool) (up : String → Bool) (session_id : String) (rows : List ChatRow)
    → IsSound session_id rows
    → IsSound session_id (record_stopped_steps readable up session_id rows).1
unfolding record_stopped_steps
record_stopped_steps-IsSound true up session_id rows h =
    write_groups-IsSound up session_id
      (by_source [] (unanswered_calls (current_turn session_id rows))) rows h
record_stopped_steps-IsSound false up session_id rows h = h
