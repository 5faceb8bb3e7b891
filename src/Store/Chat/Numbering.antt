-- ===== src/Store/Chat/Numbering.antt =====
-- The numbering of chat_messages: the restore endpoint deletes by it, so within a session it rises.
use harness_runtime.Base.{
  ◌≢◌, all, keep-all, ap, sym, append-nil, append_assoc, ◌∙◌, ℕ, ◌+◌, ◌≤◌, ◌<◌, String, Bool, true,
  false, ◌≡◌, refl, Option, List, [], ◌∷◌, ◌++◌, arith, ltb, ◌==◌, eq_iff, eq_refl, if◌then◌else◌,
  keep-append, if_ind,
}
use harness_runtime.Value.{Fields}
use harness_runtime.Store.Chat.{
  ChatRow, session_rows, next_sequence, next_of, recorded, chat_row, insert_all,
  write_chat_messages,
}

-- From `low` on, each row's number is above the one before it, and all are below `high`.
abbrev pub IsRising : ℕ → ℕ → List ChatRow → Type 0
IsRising low high [] = low ≤ high
IsRising low high (r ∷ rs) = (low ≤ r.sequence) × IsRising (r.sequence + 1) high rs

IsRising-next : (low high : ℕ) (rs : List ChatRow) → IsRising low high rs → next_of rs ≤ high
IsRising-next low high [] h = omega arith
IsRising-next low high (r ∷ rs) h =
    ground
      (arith, IsRising-next (r.sequence + 1) high rs h.1, low-le-high (r.sequence + 1) high rs h.1)
  where
    low-le-high : (low high : ℕ) (rs : List ChatRow) → IsRising low high rs → low ≤ high
    low-le-high low high [] h = h
    low-le-high low high (r ∷ rs) h = omega (arith, low-le-high (r.sequence + 1) high rs h.1)

pub IsRising-weaken :
    (low high top : ℕ) (rs : List ChatRow) → high ≤ top → IsRising low high rs → IsRising low top rs
IsRising-weaken low high top [] le h = omega arith
IsRising-weaken low high top (r ∷ rs) le h =
    (h.0, IsRising-weaken (r.sequence + 1) high top rs le h.1)

IsRising-tighten :
    (low high : ℕ) (rs : List ChatRow) {top : ℕ}
    → IsRising low high rs
    → low ≤ top
    → next_of rs ≤ top
    → IsRising low top rs
IsRising-tighten low high [] h le next = le
IsRising-tighten low high (r ∷ rs) h le next =
    (h.0, IsRising-tighten (r.sequence + 1) high rs h.1 (ground arith) (ground arith))

IsRising-append :
    (low mid high : ℕ) (rs ss : List ChatRow)
    → IsRising low mid rs
    → IsRising mid high ss
    → IsRising low high (rs ++ ss)
IsRising-append low mid high [] ss h k = lower low mid high ss h k
  where
    lower :
        (low mid high : ℕ) (ss : List ChatRow)
        → low ≤ mid
        → IsRising mid high ss
        → IsRising low high ss
    lower low mid high [] le k = omega arith
    lower low mid high (s ∷ ss) le k = (omega arith, k.1)
IsRising-append low mid high (r ∷ rs) ss h k =
    (h.0, IsRising-append (r.sequence + 1) mid high rs ss h.1 k)

-- `after` is `rows` with rows of the session added at the end, whose numbers rise from `start`.
pub record Continues (session_id : String) (start : ℕ) (rows after : List ChatRow) : Type 0 where
  pub added : List ChatRow
  pub high : ℕ
  pub table : after ≡ rows ++ added
  pub own : all (λ r. r.session_id == session_id) added ≡ true
  pub rising : IsRising start high added

-- The number of the next row: above every number that the session holds.
pub next-lt : (r : ChatRow) (rs : List ChatRow) → r.sequence < next_of (r ∷ rs)
next-lt r rs = ground arith

module _ (session_id source : String) (checkpoint_id : Option String) where
  insert_all-Continues :
      (ms : List Fields) (n : ℕ) (rows : List ChatRow)
      → Continues session_id n rows (insert_all session_id source checkpoint_id ms n rows).1
  unfolding insert_all
  insert_all-Continues [] n rows = record {
    added = [];
    high = n;
    table = sym (append-nil rows);
    own = refl;
    rising = omega arith;
  }
  insert_all-Continues (m ∷ ms) n rows =
      let row = chat_row session_id source checkpoint_id m n in
      if_ind
        (λ t.
          Continues session_id n rows (insert_all session_id source checkpoint_id ms (n + 1) t).1)
        (recorded session_id m rows)
        (λ _.
          let rest = insert_all-Continues ms (n + 1) rows in
          record {
            added = rest.added;
            high = rest.high;
            table = rest.table;
            own = rest.own;
            rising = IsRising-append n (n + 1) rest.high [] rest.added (omega arith) rest.rising;
          })
        (λ _.
          let rest = insert_all-Continues ms (n + 1) (rows ++ row ∷ []) in
          record {
            added = row ∷ rest.added;
            high = rest.high;
            table = rest.table ∙ append_assoc rows (row ∷ []) rest.added;
            own = rw (eq_refl session_id) rest.own;
            rising = (omega arith, rest.rising);
          })

-- Whatever the table holds, and whether or not Postgres answers, a write only adds rows of its
-- session at the end of the table. Their numbers rise strictly, from the number after the session's
-- highest one or from the caller's offset where that is higher.
pub write_chat_messages-Continues :
    (up : Bool) (session_id : String) (ms : List Fields) (offset : ℕ) (source : String)
    (checkpoint_id : Option String) (rows : List ChatRow)
    → let base = next_sequence session_id rows in
      Continues session_id
        (if ltb base offset then offset else base)
        rows
        (write_chat_messages up session_id ms offset source checkpoint_id rows).1
unfolding write_chat_messages
write_chat_messages-Continues up session_id [] offset source checkpoint_id rows =
    insert_all-Continues session_id source checkpoint_id [] _ rows
write_chat_messages-Continues true session_id (m ∷ ms) offset source checkpoint_id rows =
    insert_all-Continues session_id source checkpoint_id (m ∷ ms) _ rows
write_chat_messages-Continues false session_id (m ∷ ms) offset source checkpoint_id rows =
    unfold insert_all in insert_all-Continues session_id source checkpoint_id [] _ rows

-- The session's rows stand in the order of their numbers, no number twice.
abbrev pub IsNumbered : String → List ChatRow → Type 0
IsNumbered session_id rows =
    IsRising 0 (next_sequence session_id rows) (session_rows session_id rows)

module _ {session_id : String} {start : ℕ} {rows after : List ChatRow}
    (c : Continues session_id start rows after) where
  own_rows : session_rows session_id after ≡ session_rows session_id rows ++ c.added
  own_rows =
      ap (session_rows session_id) c.table
      ∙ keep-append (λ r. r.session_id == session_id) rows c.added
      ∙ ap (λ s. session_rows session_id rows ++ s)
          (keep-all (λ r. r.session_id == session_id) c.added c.own)

  Continues-IsNumbered :
      next_sequence session_id rows ≤ start
      → IsNumbered session_id rows
      → IsNumbered session_id after
  unfolding next_sequence
  Continues-IsNumbered le h =
      let joined = rw (← own_rows) at (
        IsRising-append 0 start c.high (session_rows session_id rows) c.added
          (IsRising-weaken 0 _ start (session_rows session_id rows) le h) c.rising) in
      IsRising-tighten 0 c.high (session_rows session_id after) joined (omega arith) (omega arith)

-- A session whose rows are numbered in order keeps that through every write to it.
pub write_chat_messages-IsNumbered :
    (up : Bool) (session_id : String) (ms : List Fields) (offset : ℕ) (source : String)
    (checkpoint_id : Option String) (rows : List ChatRow)
    → IsNumbered session_id rows
    → IsNumbered session_id
        (write_chat_messages up session_id ms offset source checkpoint_id rows).1
write_chat_messages-IsNumbered up session_id ms offset source checkpoint_id rows h =
    Continues-IsNumbered
      (write_chat_messages-Continues up session_id ms offset source checkpoint_id rows)
      (ground arith) h

foreign_rows :
    (session_id other : String) (added : List ChatRow)
    → other ≢ session_id
    → all (λ r. r.session_id == session_id) added ≡ true
    → session_rows other added ≡ []
foreign_rows session_id other [] ne own = refl
foreign_rows session_id other (r ∷ rs) ne own = ground (
  arith,
  eq_iff r.session_id session_id,
  eq_iff r.session_id other,
  foreign_rows session_id other rs ne,
)

-- A write to one session leaves the rows of every other session as they are.
pub write_chat_messages-other_session :
    (up : Bool) (session_id other : String) (ms : List Fields) (offset : ℕ) (source : String)
    (checkpoint_id : Option String) (rows : List ChatRow)
    → other ≢ session_id
    → session_rows other (write_chat_messages up session_id ms offset source checkpoint_id rows).1
      ≡ session_rows other rows
write_chat_messages-other_session up session_id other ms offset source checkpoint_id rows ne =
    let c = write_chat_messages-Continues up session_id ms offset source checkpoint_id rows in
    ap (session_rows other) c.table
    ∙ keep-append (λ r. r.session_id == other) rows c.added
    ∙ ap (λ s. session_rows other rows ++ s) (foreign_rows session_id other c.added ne c.own)
    ∙ append-nil (session_rows other rows)
