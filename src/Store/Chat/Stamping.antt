-- ===== src/Store/Chat/Stamping.antt =====
-- stamp_checkpoint_id and record_stopped_steps of core/persistence/message_writer.py keep the table of
-- chat messages well formed.
use harness_runtime.Base.{
  ℕ, ◌+◌, String, Bool, ◌&&◌, not, ◌≡◌, refl, ◌∙◌, Option, List, [], ◌∷◌, map, arith, ◌==◌, if_ind,
  any, is_some,
}
use harness_runtime.Value.{Fields}
use harness_runtime.Store.Chat.{
  ChatRow, session_rows, next_of, next_sequence, stamp_row, stamp_checkpoint_id,
  write_chat_messages,
}
use harness_runtime.Store.Chat.Numbering.{IsRising, IsNumbered, write_chat_messages-IsNumbered}
use harness_runtime.Store.Chat.Duplicates.{same_message, IsDistinct, write_chat_messages-IsDistinct}

module _ (session_id checkpoint_id : String) where
  stamped : List ChatRow → List ChatRow
  stamped rows = map (stamp_row session_id checkpoint_id) rows

  any-stamped :
      (r : ChatRow) (rows : List ChatRow)
      → any (same_message (stamp_row session_id checkpoint_id r)) (stamped rows)
        ≡ any (same_message r) rows
  unfolding stamped stamp_row
  any-stamped r [] = refl
  any-stamped r (s ∷ rows) = ground (arith, any-stamped r rows)

  stamped-IsDistinct : (rows : List ChatRow) → IsDistinct rows → IsDistinct (stamped rows)
  unfolding stamped
  stamped-IsDistinct [] h = tt
  stamped-IsDistinct (r ∷ rows) h = (any-stamped r rows ∙ h.0, stamped-IsDistinct rows h.1)

  rows-stamped :
      (own : String) (rows : List ChatRow)
      → session_rows own (stamped rows) ≡ stamped (session_rows own rows)
  unfolding stamped stamp_row
  rows-stamped own [] = refl
  rows-stamped own (r ∷ rows) = ground (arith, rows-stamped own rows)

  next-stamped : (rows : List ChatRow) → next_of (stamped rows) ≡ next_of rows
  unfolding stamped stamp_row
  next-stamped [] = refl
  next-stamped (r ∷ rows) = ground (arith, next-stamped rows)

  stamped-IsRising :
      (low high : ℕ) (rows : List ChatRow)
      → IsRising low high rows
      → IsRising low high (stamped rows)
  unfolding stamped stamp_row
  stamped-IsRising low high [] h = h
  stamped-IsRising low high (r ∷ rows) h =
      if_ind (λ x. IsRising low high (x ∷ stamped rows))
        (r.session_id == session_id && not (is_some r.checkpoint_id))
        (λ _. (h.0, stamped-IsRising (r.sequence + 1) high rows h.1))
        (λ _. (h.0, stamped-IsRising (r.sequence + 1) high rows h.1))

  stamped-IsNumbered :
      (own : String) (rows : List ChatRow) → IsNumbered own rows → IsNumbered own (stamped rows)
  unfolding next_sequence
  stamped-IsNumbered own rows h =
      rw (rows-stamped own rows, next-stamped (session_rows own rows))
        (stamped-IsRising 0 _ (session_rows own rows) h)

-- The session's rows are numbered in order, and no message is twice in its session.
abbrev pub IsSound : String → List ChatRow → Type 0
IsSound own rows = IsNumbered own rows × IsDistinct rows

pub stamp_checkpoint_id-IsSound :
    (up : Bool) (session_id checkpoint_id own : String) (rows : List ChatRow)
    → IsSound own rows
    → IsSound own (stamp_checkpoint_id up session_id checkpoint_id rows)
unfolding stamp_checkpoint_id stamped
stamp_checkpoint_id-IsSound up session_id checkpoint_id own rows h =
    if_ind (IsSound own) (checkpoint_id == "") (λ _. h)
      (λ _.
        if_ind (IsSound own) up
          (λ _. (
            stamped-IsNumbered session_id checkpoint_id own rows h.0,
            stamped-IsDistinct session_id checkpoint_id rows h.1,
          ))
          (λ _. h))

pub write_chat_messages-IsSound :
    (up : Bool) (session_id : String) (ms : List Fields) (offset : ℕ) (source : String)
    (checkpoint_id : Option String) (rows : List ChatRow)
    → IsSound session_id rows
    → IsSound session_id (write_chat_messages up session_id ms offset source checkpoint_id rows).1
write_chat_messages-IsSound up session_id ms offset source checkpoint_id rows h = (
  write_chat_messages-IsNumbered up session_id ms offset source checkpoint_id rows h.0,
  write_chat_messages-IsDistinct up session_id ms offset source checkpoint_id rows h.1,
)
