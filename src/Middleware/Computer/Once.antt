-- ===== src/Middleware/Computer/Once.antt =====
-- Two reads of core/middleware/computer_reports.py, one after the other.
use harness_runtime.Base.{
  ℕ, ◌+◌, ◌<◌, String, ◌==◌, Bool, true, false, ◌≡◌, refl, sym, ap, ◌∙◌, Option, none, some, List,
  [], ◌∷◌, ◌++◌, arith, keep, keep-append, Bool-cases, inl, inr,
}
use mathlib.Core.Path.{subst}
use harness_runtime.Value.{Value}
use harness_runtime.Store.Chat.{ChatRow, session_rows, next_sequence}
use harness_runtime.Store.Stopped.Ordered.{IsRising-keep, IsRising-left, ordered-rising}
use harness_runtime.Store.Chat.Numbering.{IsRising, IsNumbered}
use harness_runtime.Middleware.Computer.{
  is_after, is_unread, unread_rows, reports_of, newest, unread_reports,
}

newest-old :
    (seen : Option ℕ) (n low high : ℕ) (rs : List ChatRow)
    → n < low
    → IsRising low high rs
    → is_after seen n ≡ false
    → is_after (newest seen rs) n ≡ false
newest-old seen n low high [] lt h old = old
newest-old seen n low high (r ∷ rs) lt h old =
    newest-old (some r.sequence) n (r.sequence + 1) high rs (omega (arith, h.0)) h.1
      (ground (arith, h.0))

unread-same :
    (seen : Option ℕ) (n low high : ℕ) (rs : List ChatRow)
    → is_after seen n ≡ true
    → n < low
    → IsRising low high rs
    → keep (is_unread seen) rs ≡ keep (is_unread (some n)) rs
unread-same seen n low high [] new lt h = refl
unread-same none n low high (r ∷ rs) new lt h =
    ground (arith, h.0, unread-same none n (r.sequence + 1) high rs new (omega (arith, h.0)) h.1)
unread-same (some m) n low high (r ∷ rs) new lt h =
    ground (
      arith,
      new,
      h.0,
      unread-same (some m) n (r.sequence + 1) high rs new (omega (arith, h.0)) h.1,
    )

keep-taken :
    (p : ChatRow → Bool) (r : ChatRow) (rs : List ChatRow)
    → p r ≡ true
    → keep p (r ∷ rs) ≡ r ∷ keep p rs
keep-taken p r rs h = ground (arith, h)

keep-passed :
    (p : ChatRow → Bool) (r : ChatRow) (rs : List ChatRow)
    → p r ≡ false
    → keep p (r ∷ rs) ≡ keep p rs
keep-passed p r rs h = ground (arith, h)

old-dropped :
    (seen : Option ℕ) (high : ℕ) (r : ChatRow) (read later : List ChatRow)
    → is_unread seen r ≡ false
    → IsRising (r.sequence + 1) high read
    → keep (is_unread (newest seen read)) (r ∷ later) ≡ keep (is_unread (newest seen read)) later
old-dropped seen high r read later old h =
    ground (arith, old, newest-old seen r.sequence (r.sequence + 1) high read (omega arith) h)

-- `found` is what was read and then what is unread of `later`.
abbrev Halves : Option ℕ → List ChatRow → List ChatRow → List ChatRow → Type 0
Halves seen later found read = found ≡ read ++ keep (is_unread (newest seen read)) later

-- Whether reading `rs` and then all rows finds what reading all rows finds.
abbrev Splits : Option ℕ → List ChatRow → List ChatRow → Type 0
Splits seen rs ss =
    Halves seen (rs ++ ss) (keep (is_unread seen) (rs ++ ss)) (keep (is_unread seen) rs)

Halves-along :
    (seen : Option ℕ) (later : List ChatRow) {found other read own : List ChatRow}
    → other ≡ found
    → own ≡ read
    → Halves seen later found read
    → Halves seen later other own
Halves-along seen later {found} {other} {read} {own} e f h =
    subst (λ o. Halves seen later o own) (sym e) (subst (λ o. Halves seen later found o) (sym f) h)

passed_first :
    (seen : Option ℕ) (high : ℕ) (r : ChatRow) (rs ss : List ChatRow)
    → is_unread seen r ≡ false
    → IsRising (r.sequence + 1) high (rs ++ ss)
    → Splits seen rs ss
    → Splits seen (r ∷ rs) ss
passed_first seen high r rs ss passed h rest =
    let read = keep (is_unread seen) rs in
    let rising =
      IsRising-keep (is_unread seen) (r.sequence + 1) high rs (IsRising-left _ high rs ss h) in
    Halves-along seen (r ∷ rs ++ ss) (keep-passed (is_unread seen) r (rs ++ ss) passed)
      (keep-passed (is_unread seen) r rs passed)
      (rest ∙ ap (λ l. read ++ l) (sym (old-dropped seen high r read (rs ++ ss) passed rising)))

taken_first :
    (seen : Option ℕ) (high : ℕ) (r : ChatRow) (rs ss : List ChatRow)
    → is_unread seen r ≡ true
    → IsRising (r.sequence + 1) high (rs ++ ss)
    → Splits (some r.sequence) rs ss
    → Splits seen (r ∷ rs) ss
taken_first seen high r rs ss taken h rest =
    let seq = r.sequence in
    let new : is_after seen seq ≡ true = ground (arith, taken) in
    let same = unread-same seen seq (seq + 1) high in
    let left = IsRising-left (seq + 1) high rs ss h in
    let read = keep (is_unread (some seq)) rs in
    let rising = IsRising-keep (is_unread (some seq)) (seq + 1) high rs left in
    Halves-along seen (r ∷ rs ++ ss)
      (keep-taken (is_unread seen) r (rs ++ ss) taken
        ∙ ap (λ l. r ∷ l) (same (rs ++ ss) new (omega arith) h))
      (keep-taken (is_unread seen) r rs taken ∙ ap (λ l. r ∷ l) (same rs new (omega arith) left))
      (ap (λ l. r ∷ l)
        (rest
          ∙ ap (λ l. read ++ l)
              (sym (old-dropped (some seq) high r read (rs ++ ss) (ground arith) rising))))

-- What is unread of both parts is unread of the first, and what is unread after that.
unread-splits :
    (seen : Option ℕ) (low high : ℕ) (rs ss : List ChatRow)
    → IsRising low high (rs ++ ss)
    → keep (is_unread seen) (rs ++ ss)
      ≡ keep (is_unread seen) rs
        ++ keep (is_unread (newest seen (keep (is_unread seen) rs))) (rs ++ ss)
unread-splits seen low high [] ss h = refl
unread-splits seen low high (r ∷ rs) ss h = elim (Bool-cases (is_unread seen r)) [
  | inl taken ↦
      taken_first seen high r rs ss taken h.1
        (unread-splits (some r.sequence) (r.sequence + 1) high rs ss h.1)
  | inr passed ↦
      passed_first seen high r rs ss passed h.1 (unread-splits seen (r.sequence + 1) high rs ss h.1)
]

rows_rising :
    (session_id : String) (seen : Option ℕ) (low high : ℕ) (rows : List ChatRow)
    → IsRising low high (session_rows session_id rows)
    → unread_rows session_id seen rows ≡ keep (is_unread seen) (session_rows session_id rows)
unfolding unread_rows
rows_rising session_id seen low high rows h =
    ordered-rising low high _
      (IsRising-keep (is_unread seen) low high (session_rows session_id rows) h)

reports-append :
    (loads : String → Option Value) (rs ss : List ChatRow)
    → reports_of loads (rs ++ ss) ≡ reports_of loads rs ++ reports_of loads ss
unfolding reports_of
reports-append loads [] ss = refl
reports-append loads (r ∷ rs) ss = ground (arith, reports-append loads rs ss)

-- The mark after a read: it stays where nothing was read.
abbrev pub moved : Option ℕ → Option ℕ → Option ℕ
moved seen none = seen
moved seen (some last) = some last

newest-moved : (seen : Option ℕ) (rs : List ChatRow) → newest seen rs ≡ moved seen (newest none rs)
newest-moved seen [] = refl
newest-moved seen (r ∷ rs) = some_newest r.sequence rs
  where
    some_newest : (n : ℕ) (rs : List ChatRow) → newest (some n) rs ≡ moved seen (newest (some n) rs)
    some_newest n [] = refl
    some_newest n (r ∷ rs) = some_newest r.sequence rs

rows-split :
    (session_id : String) (seen : Option ℕ) (rows added : List ChatRow)
    → IsNumbered session_id (rows ++ added)
    → unread_rows session_id seen (rows ++ added)
      ≡ unread_rows session_id seen rows
        ++ unread_rows session_id
            (moved seen (newest none (unread_rows session_id seen rows)))
            (rows ++ added)
rows-split session_id seen rows added h =
    let own = session_rows session_id rows in
    let more = session_rows session_id added in
    let top = next_sequence session_id (rows ++ added) in
    let joined = keep-append (λ r. r.session_id == session_id) rows added in
    let rising = subst (λ l. IsRising 0 top l) joined h in
    let read = keep (is_unread seen) own in
    let found = rows_rising session_id seen 0 top rows (IsRising-left 0 top own more rising) in
    let all_found = λ (s : Option ℕ).
      rows_rising session_id s 0 top (rows ++ added) h ∙ ap (keep (is_unread s)) joined in
    subst
      (λ u.
        unread_rows session_id seen (rows ++ added)
        ≡ u ++ unread_rows session_id (moved seen (newest none u)) (rows ++ added))
      (sym found)
      (all_found seen
        ∙ unread-splits seen 0 top own more rising
        ∙ ap (λ l. read ++ l)
            (ap (λ s. keep (is_unread s) (own ++ more)) (newest-moved seen read)
              ∙ sym (all_found (moved seen (newest none read)))))

-- Reading a session's reports, and later, when the table has grown, those after the mark that the first
-- read left, gives each report that one read at the end would give, once and in order.
pub unread_reports-once :
    (loads : String → Option Value) (rows added : List ChatRow) (session_id : String)
    (seen : Option ℕ)
    → IsNumbered session_id (rows ++ added)
    → let first = unread_reports loads rows session_id seen in
      (unread_reports loads (rows ++ added) session_id seen).0
      ≡ first.0 ++ (unread_reports loads (rows ++ added) session_id (moved seen first.1)).0
unfolding unread_reports
unread_reports-once loads rows added session_id seen h =
    ap (reports_of loads) (rows-split session_id seen rows added h)
    ∙ reports-append loads (unread_rows session_id seen rows) _
