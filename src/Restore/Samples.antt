-- ===== src/Restore/Samples.antt =====
-- A checkpointer that keeps its checkpoints in a list, the newest first.
use harness_runtime.Base.{
  String, true, false, Option, none, some, List, [], ◌∷◌, ◌≡◌, refl, ◌==◌, if◌then◌else◌,
}
use harness_runtime.Value.{str, num, dict, end, field, lookup, insert, entries, text, or_null}
use harness_runtime.Value.Errors.{ok, err, value_error}
use harness_runtime.Value.Laws.{lookup-insert}
use harness_runtime.Restore.{
  Tuple, Checkpointer, restored_metadata, apply_checkpoint_restore, Process,
  apply_pending_agent_restore, is_due, rewind,
}
use harness_runtime.Restore.Once.{apply_pending_agent_restore-once}

abbrev Kept : Type 0
Kept = List (Tuple × String)

abbrev find : Kept → String → Option Tuple
find [] id = none
find ((t, parent) ∷ kept) id =
    let rest = find kept id in
    if text (or_null (lookup "id" t.checkpoint)) == id then some t else rest

abbrev newest_kept : Kept → String → Option (Tuple × String)
newest_kept [] thread = none
newest_kept (k ∷ kept) thread = some k

abbrev saver : Checkpointer Kept
saver = record {
  get_tuple = λ s thread id. find s id;
  put = λ s thread parent t versions. (t, parent) ∷ s;
  fork = λ s c step. insert "id" (str "new") c;
}

abbrev target : Tuple
target = record {
  checkpoint = field "id" (str "c1") (field "channel_values" (str "then") end);
  metadata = dict (field "step" (num 3) (field "source" (str "loop") end));
}

abbrev head_tuple : Tuple
head_tuple = record {
  checkpoint = field "id" (str "c2") (field "channel_values" (str "now") end);
  metadata = dict end;
}

abbrev kept : Kept
kept = (head_tuple, "c1") ∷ (target, "") ∷ []

apply_pending_agent_restore-once_example :
    let first : Process saver = record { applied = false; store = kept } in
    (p : Process saver) × (new : Tuple) × (apply_pending_agent_restore saver true
        (some "c1")
        "s"
        first
      ≡ ok (true, p))
    × (newest_kept p.store "s" ≡ some (new, "c1"))
    × (lookup "channel_values" new.checkpoint ≡ some (str "then"))
    × (lookup "source" (entries new.metadata) ≡ some (str "update"))
    × (apply_pending_agent_restore saver true (some "c1") "s2" p ≡ ok (false, p))
apply_pending_agent_restore-once_example =
    apply_pending_agent_restore-once saver newest_kept (λ s thread c. Unit) (λ s thread c step. tt)
      (λ s c step. lookup-insert "id" "channel_values" (str "new") c)
      (λ s thread parent t versions n. refl) "c1" "s" "s2" kept target refl refl

test_metadata :
    restored_metadata target.metadata ≡ field "step" (num 4) (field "source" (str "update") end)
unfolding restored_metadata
test_metadata = refl

test_missing :
    apply_pending_agent_restore saver true
      (some "c9")
      "s"
      (record { applied = false; store = kept })
    ≡ err value_error
unfolding apply_pending_agent_restore apply_checkpoint_restore
test_missing = refl

-- Two messages that come together both pass the guard, and the thread is rewound twice: the second time
-- under whatever the first message's turn has done meanwhile.
abbrev unrestored : Process saver
unrestored = record { applied = false; store = kept }

test_together :
    (is_due saver true (some "c1") unrestored ≡ true)
    × (rewind saver (some "c1") "s" (record { applied = true; store = (head_tuple, "new") ∷ kept })
        ≡ ok (
          true,
          record {
            applied = true;
            store =
                (
                  record {
                    checkpoint = field "id" (str "new") (field "channel_values" (str "then") end);
                    metadata = dict (field "step" (num 4) (field "source" (str "update") end));
                  },
                  "c1",
                )
                ∷ (head_tuple, "new")
                ∷ kept;
          },
        ))
unfolding apply_checkpoint_restore restored_metadata
test_together = (refl, refl)
