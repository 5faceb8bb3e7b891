-- ===== src/Store/Stopped/Closed.antt =====
-- unanswered_calls of core/persistence/message_writer.py, on a turn with the results that close it.
use harness_runtime.Base.{
  &&-both, or_false, all-ext, any, any-append, all-append, if_ind, Bool-cases, inl, inr, String,
  Bool, true, ◌&&◌, ◌||◌, not, ◌≡◌, refl, List, [], ◌∷◌, ◌++◌, arith, ◌==◌, eq_refl, contains,
  contains-append, append_assoc, append-nil, all,
}
use harness_runtime.Value.{Value, Fields, entries}
use harness_runtime.Store.Stopped.{
  OpenCall, call_id, answered, open_of, open_calls, unanswered_calls, stopped_message, add_message,
  by_source, tool_calls, sub_dict,
}

-- The rows that the groups become, each under its source.
abbrev pub tagged : String → List Fields → List (String × Fields)
tagged source [] = []
tagged source (m ∷ ms) = (source, m) ∷ tagged source ms

abbrev pub group_rows : List (String × List Fields) → List (String × Fields)
group_rows [] = []
group_rows ((source, ms) ∷ groups) = tagged source ms ++ group_rows groups

answered-append :
    (xs ys : List (String × Fields)) → answered (xs ++ ys) ≡ answered xs ++ answered ys
unfolding answered
answered-append [] ys = refl
answered-append ((s, m) ∷ xs) ys = ground (arith, answered-append xs ys)

open_calls-append :
    (done : List String) (xs ys : List (String × Fields))
    → open_calls done (xs ++ ys) ≡ open_calls done xs ++ open_calls done ys
unfolding open_calls
open_calls-append done [] ys = refl
open_calls-append done ((s, m) ∷ xs) ys = simp (open_calls-append done xs ys, append_assoc)

-- Results hold no calls.
abbrev Quiet : List (String × Fields) → Type 0
Quiet [] = Unit
Quiet ((s, m) ∷ rows) = (tool_calls m ≡ []) × Quiet rows

Quiet-open_calls :
    (done : List String) (rows : List (String × Fields)) → Quiet rows → open_calls done rows ≡ []
unfolding open_calls open_of
Quiet-open_calls done [] h = refl
Quiet-open_calls done ((s, m) ∷ rows) h = rw h.0 (Quiet-open_calls done rows h.1)

Quiet-append : (xs ys : List (String × Fields)) → Quiet xs → Quiet ys → Quiet (xs ++ ys)
Quiet-append [] ys h k = k
Quiet-append ((s, m) ∷ xs) ys h k = (h.0, Quiet-append xs ys h.1 k)

add_message-Quiet :
    (source : String) (o : OpenCall) (ms : List Fields)
    → Quiet (tagged source ms)
    → Quiet (tagged source (ms ++ stopped_message o ∷ []))
unfolding stopped_message
add_message-Quiet source o [] h = (refl, tt)
add_message-Quiet source o (m ∷ ms) h = (h.0, add_message-Quiet source o ms h.1)

add_message-Quiet_groups :
    (o : OpenCall) (groups : List (String × List Fields))
    → Quiet (group_rows groups)
    → Quiet (group_rows (add_message o.source (stopped_message o) groups))
unfolding add_message stopped_message
add_message-Quiet_groups o [] h = (refl, tt)
add_message-Quiet_groups o ((s, ms) ∷ groups) h =
    let (here, rest) = Quiet-split (tagged s ms) (group_rows groups) h in
    if_ind (λ g. Quiet (group_rows g)) (s == o.source)
      (λ _. Quiet-append _ _ (unfold stopped_message in add_message-Quiet s o ms here) rest)
      (λ _. Quiet-append _ _ here (add_message-Quiet_groups o groups rest))
  where
    Quiet-split : (xs ys : List (String × Fields)) → Quiet (xs ++ ys) → Quiet xs × Quiet ys
    Quiet-split [] ys h = (tt, h)
    Quiet-split ((s, m) ∷ xs) ys h = let r = Quiet-split xs ys h.1 in ((h.0, r.0), r.1)

by_source-Quiet :
    (os : List OpenCall) (groups : List (String × List Fields))
    → Quiet (group_rows groups)
    → Quiet (group_rows (by_source groups os))
unfolding by_source
by_source-Quiet [] groups h = h
by_source-Quiet (o ∷ os) groups h =
    by_source-Quiet os (add_message o.source (stopped_message o) groups)
      (add_message-Quiet_groups o groups h)

-- The ids that a group of results answers.
abbrev answers : List (String × List Fields) → String → Bool
answers groups id = contains (answered (group_rows groups)) id

answered-stopped :
    (source id : String) (o : OpenCall) (ms : List Fields)
    → contains (answered (tagged source (ms ++ stopped_message o ∷ []))) id ≡ (
        contains (answered (tagged source ms)) id
        || (not (call_id o.call == "") && call_id o.call == id))
unfolding stopped_message answered
answered-stopped source id o [] = ground (arith)
answered-stopped source id o (m ∷ ms) = ground (arith, answered-stopped source id o ms)

add_message-answers :
    (id : String) (o : OpenCall) (groups : List (String × List Fields))
    → answers (add_message o.source (stopped_message o) groups) id
      ≡ ((not (call_id o.call == "") && call_id o.call == id) || answers groups id)
unfolding add_message
add_message-answers id o [] = ground (arith, answered-stopped o.source id o [])
add_message-answers id o ((s, ms) ∷ groups) = elim (Bool-cases (s == o.source)) [
  | inl e ↦ rw e (simp (answered-append, contains-append, answered-stopped) (ground arith))
  | inr e ↦
      rw e
        (simp (answered-append, contains-append) (ground (arith, add_message-answers id o groups)))
]

-- Every open call that is grouped is answered by the groups.
by_source-answers :
    (id : String) (os : List OpenCall) (groups : List (String × List Fields))
    → answers (by_source groups os) id
      ≡ (any (λ o. not (call_id o.call == "") && call_id o.call == id) os || answers groups id)
unfolding by_source
by_source-answers id [] groups = refl
by_source-answers id (o ∷ os) groups =
    rw
      (
        by_source-answers id os (add_message o.source (stopped_message o) groups),
        add_message-answers id o groups,
      )
      (ground arith)

-- Calls that are all answered by `more` are not open once `more` counts.
open_of-answered :
    (done more : List String) (source : String) (kwargs : Fields) (cs : List Value)
    → all (λ o. contains more (call_id o.call)) (open_of done source kwargs cs) ≡ true
    → open_of (done ++ more) source kwargs cs ≡ []
unfolding open_of
open_of-answered done more source kwargs [] h = refl
open_of-answered done more source kwargs (c ∷ cs) h = ground (
  arith,
  contains-append done more (call_id (entries c)),
  open_of-answered done more source kwargs cs,
)

open_calls-answered :
    (done more : List String) (rows : List (String × Fields))
    → all (λ o. contains more (call_id o.call)) (open_calls done rows) ≡ true
    → open_calls (done ++ more) rows ≡ []
unfolding open_calls
open_calls-answered done more [] h = refl
open_calls-answered done more ((s, m) ∷ rows) h =
    let (first, rest) = &&-both _ _ (rw all-append at h) in
    rw (open_of-answered done more s (sub_dict "additional_kwargs" m) (tool_calls m) first)
      (open_calls-answered done more rows rest)

named : OpenCall → Bool
named o = not (call_id o.call == "")

open_of-named :
    (done : List String) (source : String) (kwargs : Fields) (cs : List Value)
    → all named (open_of done source kwargs cs) ≡ true
unfolding open_of named
open_of-named done source kwargs [] = refl
open_of-named done source kwargs (c ∷ cs) = ground (arith, open_of-named done source kwargs cs)

open_calls-named :
    (done : List String) (rows : List (String × Fields)) → all named (open_calls done rows) ≡ true
unfolding open_calls
open_calls-named done [] = refl
open_calls-named done ((s, m) ∷ rows) =
    rw (all-append, open_of-named done s (sub_dict "additional_kwargs" m) (tool_calls m))
      (open_calls-named done rows)

-- Each named call is one of the calls that answer.
any_self :
    (before os : List OpenCall)
    → all named os ≡ true
    → all
        (λ o.
          any (λ p. not (call_id p.call == "") && call_id p.call == call_id o.call) (before ++ os))
        os
      ≡ true
unfolding named
any_self before [] h = refl
any_self before (o ∷ os) h =
    let answers_to =
      λ (id : String) (p : OpenCall). not (call_id p.call == "") && call_id p.call == id in
    let first : any (answers_to (call_id o.call)) (before ++ o ∷ os) ≡ true =
      rw any-append (rw (eq_refl (call_id o.call)) (ground arith)) in
    let rest = any_self (before ++ o ∷ []) os (ground arith) in rw first (rw append_assoc at rest)

-- When the results that close the open calls of a turn, each under the source of its call, are added
-- to the turn's messages, no call of the turn is open.
pub unanswered_calls-closed :
    (rows : List (String × Fields))
    → unanswered_calls (rows ++ group_rows (by_source [] (unanswered_calls rows))) ≡ []
unfolding unanswered_calls
unanswered_calls-closed rows =
    let results = group_rows (by_source [] (open_calls (answered rows) rows)) in
    rw
      (
        answered-append rows results,
        open_calls-append (answered rows ++ answered results) rows results,
        Quiet-open_calls (answered rows ++ answered results) results
            (by_source-Quiet (open_calls (answered rows) rows) [] tt),
        append-nil,
      )
      (open_calls-answered (answered rows) (answered results) rows (
        all-ext (open_calls (answered rows) rows)
          (λ o. by_source-answers (call_id o.call) (open_calls (answered rows) rows) [])
          (simp or_false (
            any_self [] (open_calls (answered rows) rows)
              (open_calls-named (answered rows) rows)))))
