-- ===== src/Store/Chat/Duplicates.antt =====
-- Duplicates in chat_messages: a turn's first state carries the session's whole history, which must
-- neither be stored again nor count as new.
use harness_runtime.Base.{
  ℕ, ◌+◌, String, Bool, true, false, ◌&&◌, ◌||◌, ◌≡◌, refl, Option, some, none, List, [], ◌∷◌, ◌++◌,
  arith, ◌==◌, eq_refl, if◌then◌else◌, any, all, any-append, if_ind, is_some,
}
use harness_runtime.Value.{Fields}
use harness_runtime.Store.Chat.{
  ChatRow, clashes, message_id, recorded, chat_row, insert_all, write_chat_messages,
}

-- Two rows of one session with one message id.
abbrev pub same_message : ChatRow → ChatRow → Bool
same_message r s =
    r.session_id == s.session_id && clashes (message_id s.message) (message_id r.message)

-- No message is stored twice in its session.
abbrev pub IsDistinct : List ChatRow → Type 0
IsDistinct [] = Unit
IsDistinct (r ∷ rs) = (any (same_message r) rs ≡ false) × IsDistinct rs

IsDistinct-snoc :
    (rows : List ChatRow) (x : ChatRow)
    → IsDistinct rows
    → any (λ r. same_message r x) rows ≡ false
    → IsDistinct (rows ++ x ∷ [])
IsDistinct-snoc [] x h new = (refl, tt)
IsDistinct-snoc (r ∷ rs) x h new =
    (rw any-append (ground arith), IsDistinct-snoc rs x h.1 (ground arith))

module _ (session_id source : String) (checkpoint_id : Option String) where
  insert_all-IsDistinct :
      (ms : List Fields) (n : ℕ) (rows : List ChatRow)
      → IsDistinct rows
      → IsDistinct (insert_all session_id source checkpoint_id ms n rows).1
  unfolding insert_all
  insert_all-IsDistinct [] n rows h = h
  insert_all-IsDistinct (m ∷ ms) n rows h =
      if_ind (λ t. IsDistinct (insert_all session_id source checkpoint_id ms (n + 1) t).1)
        (recorded session_id m rows) (λ _. insert_all-IsDistinct ms (n + 1) rows h)
        (λ new. insert_all-IsDistinct ms (n + 1) _ (
          IsDistinct-snoc rows (chat_row session_id source checkpoint_id m n) h
            (unfold recorded in new)))

  recorded-append :
      (m : Fields) (rows added : List ChatRow)
      → recorded session_id m rows ≡ true
      → recorded session_id m (rows ++ added) ≡ true
  unfolding recorded
  recorded-append m rows added h = rw any-append (ground arith)

  recorded_own :
      (m : Fields) (n : ℕ) (rows : List ChatRow)
      → is_some (message_id m) ≡ true
      → recorded session_id m (rows ++ chat_row session_id source checkpoint_id m n ∷ []) ≡ true
  unfolding recorded
  recorded_own m n rows has_id =
      rw any-append (rw (eq_refl session_id) (own_clash m (any _ rows) has_id))
    where
      own_clash :
          (m : Fields) (b : Bool)
          → is_some (message_id m) ≡ true
          → (b || (clashes (message_id m) (message_id m) || false)) ≡ true
      own_clash m true h = refl
      own_clash m false h = clash_self (message_id m) h
        where
          clash_self : (o : Option String) → is_some o ≡ true → (clashes o o || false) ≡ true
          clash_self none h = cc
          clash_self (some s) h = rw (eq_refl s)

  insert_all-keeps :
      (k : Fields) (ms : List Fields) (n : ℕ) (rows : List ChatRow)
      → recorded session_id k rows ≡ true
      → recorded session_id k (insert_all session_id source checkpoint_id ms n rows).1 ≡ true
  unfolding insert_all
  insert_all-keeps k [] n rows h = h
  insert_all-keeps k (m ∷ ms) n rows h = insert_all-keeps k ms (n + 1) _ (
      if_ind (λ t. recorded session_id k t ≡ true) (recorded session_id m rows) (λ _. h)
        (λ _. recorded-append k rows _ h))

  insert_all-recorded :
      (ms : List Fields) (n : ℕ) (rows : List ChatRow)
      → all (λ m. is_some (message_id m)) ms ≡ true
      → all (λ m. recorded session_id m (insert_all session_id source checkpoint_id ms n rows).1) ms
        ≡ true
  unfolding insert_all
  insert_all-recorded [] n rows h = refl
  insert_all-recorded (m ∷ ms) n rows h =
      let t =
        if recorded session_id m rows
        then rows
        else rows ++ chat_row session_id source checkpoint_id m n ∷ [] in
      let first : recorded session_id m t ≡ true =
        if_ind (λ u. recorded session_id m u ≡ true) (recorded session_id m rows) (λ old. old)
          (λ _. recorded_own m n rows (ground arith)) in
      rw (insert_all-keeps m ms (n + 1) t first) (insert_all-recorded ms (n + 1) t (ground arith))

  insert_all-known :
      (ms : List Fields) (n : ℕ) (rows : List ChatRow)
      → all (λ m. recorded session_id m rows) ms ≡ true
      → insert_all session_id source checkpoint_id ms n rows ≡ ([], rows)
  unfolding insert_all
  insert_all-known [] n rows h = refl
  insert_all-known (m ∷ ms) n rows h = ground (arith, insert_all-known ms (n + 1) rows)

-- A table in which no message stands twice in its session stays so.
pub write_chat_messages-IsDistinct :
    (up : Bool) (session_id : String) (ms : List Fields) (offset : ℕ) (source : String)
    (checkpoint_id : Option String) (rows : List ChatRow)
    → IsDistinct rows
    → IsDistinct (write_chat_messages up session_id ms offset source checkpoint_id rows).1
unfolding write_chat_messages
write_chat_messages-IsDistinct up session_id [] offset source checkpoint_id rows h = h
write_chat_messages-IsDistinct true session_id (m ∷ ms) offset source checkpoint_id rows h =
    insert_all-IsDistinct session_id source checkpoint_id (m ∷ ms) _ rows h
write_chat_messages-IsDistinct false session_id (m ∷ ms) offset source checkpoint_id rows h = h

-- Messages that all have an id, once written with Postgres answering, are recorded: a write of the
-- same messages to the session again, under any offset, source and checkpoint, and whether or not
-- Postgres answers then, inserts none and changes nothing.
pub write_chat_messages-replay :
    (up : Bool) (session_id : String) (ms : List Fields) (offset later : ℕ) (source other : String)
    (c d : Option String) (rows : List ChatRow)
    → all (λ m. is_some (message_id m)) ms ≡ true
    → let after = (write_chat_messages true session_id ms offset source c rows).1 in
      write_chat_messages up session_id ms later other d after ≡ ([], after)
unfolding write_chat_messages
write_chat_messages-replay up session_id [] offset later source other c d rows h = refl
write_chat_messages-replay false session_id (m ∷ ms) offset later source other c d rows h = refl
write_chat_messages-replay true session_id (m ∷ ms) offset later source other c d rows h =
    insert_all-known session_id other d (m ∷ ms) _ _
      (insert_all-recorded session_id source c (m ∷ ms) _ rows h)
