-- ===== src/Sanitizer/Protocol.antt =====
-- The protocol of the model's API, and that the sanitized messages follow it.
use harness_runtime.Base.{
  is_empty, String, Bool, true, false, not, ◌&&◌, ◌||◌, ◌≡◌, refl, sym, ap, ◌∙◌, List, [], ◌∷◌,
  ◌++◌, map, arith, ◌==◌, eq_iff, eq_refl, if◌then◌else◌, if_ind, contains, contains-keep,
  append-nil,
}
use mathlib.Core.Path.{subst}
use harness_runtime.Value.{Value, null, dict, Fields, lookup, or_null, truthy, members}
use harness_runtime.Jobs.Merging.{IsUnique}
use harness_runtime.Sanitizer.{
  synthetic, call_id, result_id, ids_of, open_ids, discard, Role, assistant, tool, other, role_of,
  closing, sanitize, sanitize_openai_messages,
}

-- The messages follow the protocol from open calls `ids` on: a result answers an open call, which it
-- closes; any other message comes when none is open; and none is open at the end. What is no dict is
-- no message of the protocol.
unfoldable pub follows : List String → List Value → Bool
follows ids [] = is_empty ids
follows ids (dict m ∷ ms) =
    let answered = follows (discard (result_id m) ids) ms in
    let after_call = follows (open_ids m) ms in
    let after_other = follows [] ms in
    elim (role_of m) [
      | assistant ↦ is_empty ids && after_call
      | tool ↦ not (result_id m == "") && contains ids (result_id m) && answered
      | other ↦ is_empty ids && after_other
    ]
follows ids (null ∷ ms) = follows ids ms
follows ids (v ∷ ms) = follows ids ms

-- Python's order of a set: its elements, each once.
pub record IsOrder (order : List String → List String) : Type 0 where
  pub same : (ids : List String) (a : String) → contains (order ids) a ≡ contains ids a
  pub unique : (ids : List String) → IsUnique ids → IsUnique (order ids)

-- The ids of open calls: each once, and none empty.
abbrev IsOpen : List String → Type 0
IsOpen ids = IsUnique ids × (contains ids "" ≡ false)

ids_of-IsOpen : (calls : List Value) → IsOpen (ids_of calls)
unfolding ids_of
ids_of-IsOpen [] = (tt, refl)
ids_of-IsOpen (call ∷ calls) =
    let h = ids_of-IsOpen calls in
    if_ind IsOpen (call_id call == "" || contains (ids_of calls) (call_id call)) (λ _. h)
      (λ off. ((ground arith, h.0), ground (arith, h.1)))

discard-IsUnique : (id : String) (ids : List String) → IsUnique ids → IsUnique (discard id ids)
discard-IsUnique id [] h = tt
discard-IsUnique id (a ∷ ids) h =
    if_ind IsUnique (not (a == id))
      (λ _. (ground (arith, contains-keep (λ i. not (i == id)) ids a), discard-IsUnique id ids h.1))
      (λ _. discard-IsUnique id ids h.1)

discard-IsOpen : (id : String) (ids : List String) → IsOpen ids → IsOpen (discard id ids)
discard-IsOpen id ids h =
    (discard-IsUnique id ids h.0, ground (arith, contains-keep (λ i. not (i == id)) ids "", h.1))

-- Results for unique ids that are all open, and then the rest with those ids closed.
follows-synthetic :
    (l ids : List String) (rest : List Value)
    → IsUnique l
    → contains l "" ≡ false
    → ((a : String) → contains ids a ≡ contains l a)
    → follows ids (map synthetic l ++ rest) ≡ follows [] rest
unfolding follows truthy
follows-synthetic [] [] rest u e same = refl
follows-synthetic [] (a ∷ ids) rest u e same = absurd (ground (arith, same a, eq_refl a))
follows-synthetic (x ∷ l) ids rest u e same =
    let step = follows-synthetic l (discard x ids) rest u.1 (ground arith) (λ a.
      ground
        (arith, same a, u.0, contains-keep (λ i. not (i == x)) ids a, eq_iff a x, eq_iff x a)) in
    ground (arith, step, same x, eq_refl x, eq_iff x "")

module _ (order : List String → List String) (ordered : IsOrder order) where
  follows-closing :
      (ids : List String) (rest : List Value)
      → IsOpen ids
      → follows ids (closing order ids ++ rest) ≡ follows [] rest
  follows-closing ids rest h =
      follows-synthetic (order ids) ids rest (ordered.unique ids h.0) (ordered.same ids "" ∙ h.1)
        (λ a. sym (ordered.same ids a))

  follows-closing_end : (ids : List String) → IsOpen ids → follows ids (closing order ids) ≡ true
  follows-closing_end ids h =
      subst (λ l. follows ids l ≡ true) (append-nil (closing order ids))
        (follows-closing ids [] h ∙ unfold follows in refl)

  -- One message, by its role, before messages that follow the protocol from where it leaves off.
  message-follows :
      (ids : List String) (m : Fields) (r : Role) (kept dropped after_call after_other : List Value)
      → role_of m ≡ r
      → IsOpen ids
      → follows (discard (result_id m) ids) kept ≡ true
      → follows ids dropped ≡ true
      → follows (open_ids m) after_call ≡ true
      → follows [] after_other ≡ true
      → follows ids (elim r [
        | assistant ↦ closing order ids ++ dict m ∷ after_call
        | tool ↦
            if not (result_id m == "") && contains ids (result_id m) then dict m ∷ kept else dropped
        | other ↦ closing order ids ++ dict m ∷ after_other
      ])
        ≡ true
  message-follows ids m assistant kept dropped after_call after_other e h k d c o =
      follows-closing ids (dict m ∷ after_call) h ∙ unfold follows in rw (e, follows) c
  message-follows ids m tool kept dropped after_call after_other e h k d c o =
      if_ind (λ l. follows ids l ≡ true) (not (result_id m == "") && contains ids (result_id m))
        (λ on. unfold follows in rw (e, follows) (ground arith)) (λ _. d)
  message-follows ids m other kept dropped after_call after_other e h k d c o =
      follows-closing ids (dict m ∷ after_other) h ∙ unfold follows in rw (e, follows) o

  sanitize-follows :
      (ids : List String) (ms : List Value)
      → IsOpen ids
      → follows ids (sanitize order ids ms) ≡ true
  unfolding sanitize follows
  sanitize-follows ids [] h = follows-closing_end ids h
  sanitize-follows ids (null ∷ ms) h = sanitize-follows ids ms h
  sanitize-follows ids (dict m ∷ ms) h =
      message-follows ids m (role_of m) _ _ _ _ refl h
        (sanitize-follows (discard (result_id m) ids) ms (discard-IsOpen (result_id m) ids h))
        (sanitize-follows ids ms h)
        (sanitize-follows (open_ids m) ms
          (ids_of-IsOpen (members (or_null (lookup "tool_calls" m)))))
        (sanitize-follows [] ms (tt, refl))
  sanitize-follows ids (v ∷ ms) h = sanitize-follows ids ms h

  order_none : order [] ≡ []
  order_none = none_of (order []) (ordered.same [])
    where
      none_of : (l : List String) → ((a : String) → contains l a ≡ contains [] a) → l ≡ []
      none_of [] h = refl
      none_of (x ∷ l) h = absurd (ground (arith, h x, eq_refl x))

  message-valid :
      (ids : List String) (m : Fields) (r : Role)
      (ms kept dropped after_call after_other : List Value)
      → role_of m ≡ r
      → follows ids (dict m ∷ ms) ≡ true
      → (follows (discard (result_id m) ids) ms ≡ true → kept ≡ ms)
      → (follows (open_ids m) ms ≡ true → after_call ≡ ms)
      → (follows [] ms ≡ true → after_other ≡ ms)
      → elim r [
        | assistant ↦ closing order ids ++ dict m ∷ after_call
        | tool ↦
            if not (result_id m == "") && contains ids (result_id m) then dict m ∷ kept else dropped
        | other ↦ closing order ids ++ dict m ∷ after_other
      ]
        ≡ dict m ∷ ms
  unfolding follows
  message-valid [] m assistant ms kept dropped after_call after_other e v k c o =
      rw order_none (ap (λ l. dict m ∷ l) (c (rw (e, follows) at v)))
  message-valid (a ∷ ids) m assistant ms kept dropped after_call after_other e v k c o =
      let broken : false ≡ true = rw (e, follows) at v in cc
  message-valid ids m tool ms kept dropped after_call after_other e v k c o =
      let valid = rw (e, follows) at v in ground (arith, valid, k)
  message-valid [] m other ms kept dropped after_call after_other e v k c o =
      rw order_none (ap (λ l. dict m ∷ l) (o (rw (e, follows) at v)))
  message-valid (a ∷ ids) m other ms kept dropped after_call after_other e v k c o =
      let broken : false ≡ true = rw (e, follows) at v in cc

  sanitize_valid :
      (ids : List String) (ms : List Value) → follows ids ms ≡ true → sanitize order ids ms ≡ ms
  unfolding sanitize follows
  sanitize_valid [] [] h = rw order_none refl
  sanitize_valid (a ∷ ids) [] h = cc
  sanitize_valid ids (null ∷ ms) h = ap (λ l. null ∷ l) (sanitize_valid ids ms h)
  sanitize_valid ids (dict m ∷ ms) h =
      message-valid ids m (role_of m) ms _ _ _ _ refl h
        (λ v. sanitize_valid (discard (result_id m) ids) ms v)
        (λ v. sanitize_valid (open_ids m) ms v) (λ v. sanitize_valid [] ms v)
  sanitize_valid ids (v ∷ ms) h = ap (λ l. v ∷ l) (sanitize_valid ids ms h)

  -- Whatever messages are to be sent and in whichever order Python visits a set, the sanitized
  -- messages follow the protocol: every tool call is answered by one result before the next message
  -- of another kind and before the end, and every result answers a call that is open.
  pub sanitize_openai_messages-follows :
      (ms : List Value) → follows [] (sanitize_openai_messages order ms) ≡ true
  unfolding sanitize_openai_messages
  sanitize_openai_messages-follows ms = sanitize-follows [] ms (tt, refl)

  -- Messages that follow the protocol are sent as they are.
  pub sanitize_openai_messages-valid :
      (ms : List Value) → follows [] ms ≡ true → sanitize_openai_messages order ms ≡ ms
  unfolding sanitize_openai_messages
  sanitize_openai_messages-valid ms h = sanitize_valid [] ms h
