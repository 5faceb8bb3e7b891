-- ===== src/Restore/Once.antt =====
-- apply_pending_agent_restore of core/restore/pending.py, through the messages of a pod.
use harness_runtime.Base.{ℕ, String, true, false, Option, none, some, ◌≡◌, refl, ◌∙◌, ◌==◌}
use harness_runtime.Value.{Value, str, Fields, lookup, or_null, entries}
use harness_runtime.Value.Errors.{ok}
use harness_runtime.Value.Laws.{lookup-insert}
use harness_runtime.Restore.{
  Tuple, Checkpointer, int_step, next_step, restored_metadata, rewound, versions_of,
  apply_checkpoint_restore, Process, apply_pending_agent_restore,
}

next_step-source : (o : Option ℕ) (m : Fields) → lookup "source" (next_step o m) ≡ lookup "source" m
next_step-source none m = refl
next_step-source (some n) m = lookup-insert "step" "source" _ m

restored_metadata-source :
    (metadata : Value) → lookup "source" (restored_metadata metadata) ≡ some (str "update")
unfolding restored_metadata
restored_metadata-source metadata =
    next_step-source (int_step (or_null (lookup "step" (entries metadata)))) _
    ∙ lookup-insert "source" "source" (str "update") (entries metadata)

module _ {ℓ} {S : Type ℓ} (saver : Checkpointer S) (head : S → String → Option (Tuple × String))
    (IsNewest : S → String → Fields → Type 0)
    (fork-newest : (s : S) (thread : String) (c : Fields) (step : Option ℕ)
      → IsNewest s thread (saver.fork s c step))
    (fork-values : (s : S) (c : Fields) (step : Option ℕ)
      → lookup "channel_values" (saver.fork s c step) ≡ lookup "channel_values" c)
    (put-head : (s : S) (thread parent : String) (t : Tuple) (versions : Value)
      → IsNewest s thread t.checkpoint
      → head (saver.put s thread parent t versions) thread ≡ some (t, parent)) where
  -- The first message of a pod that is pinned to a checkpoint makes a copy of it the head of the thread:
  -- with the target's values, with the target as its parent, labelled as an update. No later message, to
  -- whichever session, restores again. The checkpointer's head is the checkpoint of the newest id, and a
  -- fork has a newer one, with the values of what it copies.
  pub apply_pending_agent_restore-once :
      (pinned session_id later : String) (s : S) (target : Tuple)
      → (pinned == "") ≡ false
      → saver.get_tuple s session_id pinned ≡ some target
      → let first : Process saver = record { applied = false; store = s } in
        (p : Process saver) × (new : Tuple) × (apply_pending_agent_restore saver true
            (some pinned)
            session_id
            first
          ≡ ok (true, p))
        × (head p.store session_id ≡ some (new, pinned))
        × (lookup "channel_values" new.checkpoint ≡ lookup "channel_values" target.checkpoint)
        × (lookup "source" (entries new.metadata) ≡ some (str "update"))
        × (apply_pending_agent_restore saver true (some pinned) later p ≡ ok (false, p))
  unfolding apply_pending_agent_restore apply_checkpoint_restore
  apply_pending_agent_restore-once pinned session_id later s target solid found =
      let step = int_step (or_null (lookup "step" (entries target.metadata))) in
      let new = rewound saver s target in
      let p : Process saver = record {
        applied = true;
        store = saver.put s session_id pinned new (versions_of saver target);
      } in
      (
        p,
        new,
        rw (solid, found) refl,
        put-head s session_id pinned new _ (fork-newest s session_id target.checkpoint step),
        fork-values s target.checkpoint step,
        restored_metadata-source target.metadata,
        refl,
      )
