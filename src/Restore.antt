-- ===== src/Restore.antt =====
-- core/restore/checkpoint.py and pending.py: the rewind of a thread to the checkpoint that its pod was
-- created for. The checkpointer and create_checkpoint are parameters.
pub mod Once
mod Samples
use harness_runtime.Base.{
  ℕ, ◌+◌, String, Bool, true, false, not, ◌&&◌, ◌||◌, Option, none, some, ◌==◌, get_or,
  if◌then◌else◌,
}
use harness_runtime.Value.{
  Value, null, bool, num, str, dict, Fields, end, field, lookup, or_null, insert, entries,
}
use harness_runtime.Value.Errors.{Result, ok, err, value_error, ◌>>=◌}

-- What the checkpointer holds of a checkpoint: the checkpoint and its metadata, a dict or None.
pub record Tuple : Type 0 where
  pub checkpoint : Fields
  pub metadata : Value

-- A checkpointer with the states `S`: aget_tuple of a checkpoint, aput with a parent, and the copy that
-- create_checkpoint makes under a new id, for a step or for -1.
pub record Checkpointer {ℓ} (S : Type ℓ) : Type ℓ where
  pub get_tuple : S → (thread_id checkpoint_id : String) → Option Tuple
  pub put : S → (thread_id parent : String) → Tuple → (channel_versions : Value) → S
  pub fork : S → Fields → Option ℕ → Fields

-- `step if isinstance(step, int) else -1`; a bool is an int.
abbrev pub int_step : Value → Option ℕ
int_step (num n) = some n
int_step (bool true) = some 1
int_step (bool false) = some 0
int_step _ = none

abbrev pub next_step : Option ℕ → Fields → Fields
next_step none m = m
next_step (some n) m = insert "step" (num (n + 1)) m

unfoldable pub restored_metadata : Value → Fields
restored_metadata metadata =
    let m = entries metadata in
    next_step (int_step (or_null (lookup "step" m))) (insert "source" (str "update") m)

module _ {ℓ} {S : Type ℓ} (saver : Checkpointer S) where
  -- The new head of the thread: a copy of the target, whose parent the target is.
  abbrev pub rewound : S → Tuple → Tuple
  rewound s t = record {
    checkpoint =
        saver.fork s t.checkpoint (int_step (or_null (lookup "step" (entries t.metadata))));
    metadata = dict (restored_metadata t.metadata);
  }

  abbrev pub versions_of : Tuple → Value
  versions_of t = get_or (lookup "channel_versions" t.checkpoint) (dict end)

  abbrev pub put_restored : S → (session_id checkpoint_id : String) → Option Tuple → Result S
  put_restored s session_id checkpoint_id none = err value_error
  put_restored s session_id checkpoint_id (some t) =
      ok (saver.put s session_id checkpoint_id (rewound s t) (versions_of t))

  unfoldable pub apply_checkpoint_restore :
      (has_saver : Bool) → S → (session_id checkpoint_id : String) → Result S
  unfolding restored_metadata
  apply_checkpoint_restore has_saver s session_id checkpoint_id =
      if not has_saver
      then err value_error
      else put_restored s session_id checkpoint_id (saver.get_tuple s session_id checkpoint_id)

  -- The process: `_applied`, and the checkpointer's state.
  pub record Process : Type ℓ where
    pub applied : Bool
    pub store : S

  abbrev pub applied_to : Result S → Result (Bool × Process)
  applied_to (ok s) = ok (true, record { applied = true; store = s })
  applied_to (err e) = err e

  -- The guard: `pinned` is RESTORE_CHECKPOINT_ID; one that is "" is none.
  abbrev pub is_due : (has_saver : Bool) → (pinned : Option String) → Process → Bool
  is_due has_saver pinned p = not (p.applied || not has_saver) && not (get_or pinned "" == "")

  -- What comes after it, once the checkpointer has answered. An exception leaves the process as it was.
  abbrev pub rewind :
      (pinned : Option String) → (session_id : String) → Process → Result (Bool × Process)
  rewind pinned session_id p =
      applied_to (apply_checkpoint_restore true p.store session_id (get_or pinned ""))

  unfoldable pub apply_pending_agent_restore :
      (has_saver : Bool)
      → (pinned : Option String) → (session_id : String) → Process
      → Result (Bool × Process)
  unfolding apply_checkpoint_restore
  apply_pending_agent_restore has_saver pinned session_id p =
      if is_due has_saver pinned p then rewind pinned session_id p else ok (false, p)
