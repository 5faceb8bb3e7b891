-- ===== src/Store/Samples.antt =====
-- The tables at concrete rows.
use harness_runtime.Base.{
  arith, lstrip, rstrip, String, true, ◌≡◌, refl, ◌≢◌, some, none, List, [], ◌∷◌,
}
use harness_runtime.Value.{str, Fields, field, end, list, cons, nil, dict}
use harness_runtime.Store.Chat.{ChatRow, write_chat_messages}
use harness_runtime.Store.Chat.Numbering.{Continues, IsNumbered, write_chat_messages-Continues}
use harness_runtime.Store.Chat.Duplicates.{write_chat_messages-replay}
use harness_runtime.Store.Files.{FileRow, write_agent_output_files}
use harness_runtime.Store.Artifacts.{btrim, Environment, Ids, returns, read_artifact_from_db}
use harness_runtime.Store.Artifacts.Mirror.{write_agent_output_files-read_artifact}

abbrev message : String → String → Fields
message id kind = field "type" (str kind) (field "id" (str id) (field "content" (str "hi") end))

abbrev two_messages : List Fields
two_messages = message "m1" "human" ∷ message "m2" "ai" ∷ []

abbrev table : List ChatRow
table = (write_chat_messages true "other" two_messages 4 "main" none []).1

writes_both : (write_chat_messages true "s" two_messages 0 "main" none table).0 ≡ two_messages
unfolding write_chat_messages
writes_both = refl

write_chat_messages-Continues_example :
    Continues "s" 7 table (write_chat_messages true "s" two_messages 7 "main" none table).1
unfolding write_chat_messages
write_chat_messages-Continues_example =
    write_chat_messages-Continues true "s" two_messages 7 "main" none table

table-IsNumbered : IsNumbered "other" table
unfolding write_chat_messages
table-IsNumbered = ground arith

s_not_other : ◌≢◌ {A = String} "other" "s"
s_not_other e = cc

write_chat_messages-replay_example :
    let after = (write_chat_messages true "s" two_messages 0 "main" none table).1 in
    write_chat_messages true "s" two_messages 9 "subagent" (some "c") after ≡ ([], after)
write_chat_messages-replay_example =
    write_chat_messages-replay true "s" two_messages 0 9 "main" "subagent" none (some "c") table
      refl

-- A turn with two calls, of which one is answered.
abbrev stopped_turn : List (String × Fields)
stopped_turn =
    (
      "main",
      field "type" (str "ai") (
          field "tool_calls"
            (list (
              cons (dict (field "id" (str "c1") end))
                (cons (dict (field "id" (str "c2") end)) nil)))
            end),
    )
    ∷ ("main", field "type" (str "tool") (field "tool_call_id" (str "c1") end))
    ∷ []

abbrev notes : Fields
notes = field "/workspace/notes.md" (dict (field "content" (str " kept ") end)) end

abbrev files_table : List FileRow
files_table = write_agent_output_files "s" "w" none true notes []

abbrev environment : Environment
environment = record {
  database_url = some "postgres://db";
  session_id = some "s";
  workspace_id = some "w";
  app_id = some "app";
}

abbrev no_ids : Ids
no_ids = record { session_id = none; workspace_id = none; app_id = none }

write_agent_output_files-read_artifact_example :
    read_artifact_from_db
      (λ _. some (
        write_agent_output_files "s" "w"
          (some "app")
          true
          (field "/workspace/notes.md" (dict (field "content" (str " kept ") end)) end)
          []))
      environment
      no_ids
      3
      "/workspace/notes.md"
    ≡ returns "kept"
unfolding btrim lstrip rstrip
write_agent_output_files-read_artifact_example =
    write_agent_output_files-read_artifact environment no_ids "s" "w" "/workspace/notes.md" " kept "
      2 [] refl refl refl refl refl
