-- ===== src/Router/Lock/Reached.antt =====
-- The turn lock in every state that a session can reach.
use harness_runtime.Base.{
  is_some, ℕ, String, Bool, true, false, ◌≡◌, refl, ap, ◌∙◌, Option, none, some, List, arith,
  if◌then◌else◌, if_ind,
}
use harness_runtime.Store.Chat.{ChatRow}
use harness_runtime.Router.{Router, holds, is_live}
use harness_runtime.Router.Messages.{
  show_notice, serve_new, cancel_with, add_row, serve_with, cancel_task, Request, Answers, forget,
  write_notice_row, serve, cancel_session, reuse, build,
}
use harness_runtime.Router.Turns.{Ending}
use harness_runtime.Router.Steps.{
  Step, forgets, notes, serves, cancels, begins, grants, checks, attaches, speaks, ends, MayEnd,
  returns, raises, interrupted, abandoned, Steps, here, next, Reach,
}
use harness_runtime.Router.Lock.{
  IsLocked, start-IsLocked, schedule-IsLocked, reuse-IsLocked, build-IsLocked,
}
use harness_runtime.Router.Lock.Tasks.{
  grant-IsLocked, attached-IsLocked, finish-IsLocked, check-IsLocked, begin-IsLocked,
}

forget-IsLocked : (r : Router) → IsLocked r → IsLocked (forget r)
forget-IsLocked r v = record {
  held = v.held;
  unused = v.unused;
  owned = v.owned;
  current = v.current;
  kept = λ o h. cc;
}

shown-IsLocked : (notice : String) (r : Router) → IsLocked r → IsLocked (show_notice notice r)
shown-IsLocked notice r v =
    if_ind IsLocked (is_some r.stored)
      (λ _. record {
        held = v.held;
        unused = v.unused;
        owned = v.owned;
        current = v.current;
        kept = v.kept;
      })
      (λ _. v)

notes-IsLocked :
    (a : Answers) (notice : String) (r : Router)
    → IsLocked r
    → IsLocked (write_notice_row a notice r)
unfolding write_notice_row
notes-IsLocked a notice r v = shown-IsLocked notice (if a.has_pool then add_row a notice r else r) (
    if_ind IsLocked a.has_pool
      (λ _. record {
        held = v.held;
        unused = v.unused;
        owned = v.owned;
        current = v.current;
        kept = v.kept;
      })
      (λ _. v))

built-IsLocked :
    (failure : Option String) (q : Request) (r : Router)
    → IsLocked r
    → IsLocked (serve_new failure q r).1
unfolding serve_new
built-IsLocked (some detail) q r v = record {
  held = v.held;
  unused = v.unused;
  owned = v.owned;
  current = v.current;
  kept = v.kept;
}
built-IsLocked none q r v =
    schedule-IsLocked q true r.next_state (build q r) (unfold build in omega arith)
      (build-IsLocked q r v)

served-IsLocked :
    (stored : Option ℕ) (a : Answers) (q : Request) (r : Router)
    → r.stored ≡ stored
    → IsLocked r
    → IsLocked (serve_with stored a q r).1
unfolding serve_with
served-IsLocked (some o) a q r e v =
    schedule-IsLocked q false o (reuse q o r) (unfold reuse in v.kept o e)
      (reuse-IsLocked q o r (v.kept o e) v)
served-IsLocked none a q r e v = built-IsLocked a.failure q r v

serve-IsLocked : (a : Answers) (q : Request) (r : Router) → IsLocked r → IsLocked (serve a q r).1
unfolding serve
serve-IsLocked a q r v = served-IsLocked r.stored a q r refl v

cancelled-IsLocked : (task : Option ℕ) (r : Router) → IsLocked r → IsLocked (cancel_task task r).1
cancelled-IsLocked none r v = v
cancelled-IsLocked (some i) r v =
    if_ind (λ (c : Bool × Router). IsLocked c.1) (is_live (r.tasks i).stage)
      (λ live. record {
        held = λ j h. ground (arith, v.held j);
        unused = λ j h. ground (arith, v.unused i, v.unused j);
        owned = λ j h. ground (arith, v.owned i, v.owned j);
        current = λ o j h. v.current o j h;
        kept = λ o h. v.kept o h;
      })
      (λ _. v)

stopped-IsLocked : (stored : Option ℕ) (r : Router) → IsLocked r → IsLocked (cancel_with stored r).1
stopped-IsLocked none r v = v
stopped-IsLocked (some o) r v = cancelled-IsLocked (r.states o).task r v

cancel-IsLocked : (r : Router) → IsLocked r → IsLocked (cancel_session r).1
unfolding cancel_session
cancel-IsLocked r v = stopped-IsLocked r.stored r v

pub MayEnd-live :
    {r : Router} {i : ℕ} {e : Ending} → MayEnd r i e → is_live (r.tasks i).stage ≡ true
MayEnd-live (returns p e) = ground (arith, e)
MayEnd-live (raises e h) = ground (arith, h)
MayEnd-live (interrupted h c) = ground (arith, h)
MayEnd-live (abandoned p e c) = ground (arith, e)

pub Step-IsLocked : {r s : Router} → Step r s → IsLocked r → IsLocked s
Step-IsLocked {r} forgets v = forget-IsLocked r v
Step-IsLocked {r} (notes a notice) v = notes-IsLocked a notice r v
Step-IsLocked {r} (serves a q) v = serve-IsLocked a q r v
Step-IsLocked {r} cancels v = cancel-IsLocked r v
Step-IsLocked {r} (begins i e) v = begin-IsLocked i r e v
Step-IsLocked {r} (grants i p rest e free first) v = grant-IsLocked i p r (ground (arith, e)) free v
Step-IsLocked {r} (checks i has_pool runs unread checkpoint e) v =
    check-IsLocked i has_pool runs unread checkpoint r e v
Step-IsLocked {r} (attaches i p e) v = attached-IsLocked i p r e v
Step-IsLocked {r} (speaks i p c e) v = record {
  held = v.held;
  unused = v.unused;
  owned = v.owned;
  current = v.current;
  kept = v.kept;
}
Step-IsLocked {r} (ends i e m) v = finish-IsLocked i e r (MayEnd-live m) v

pub Steps-IsLocked : {r s : Router} → Steps r s → IsLocked r → IsLocked s
Steps-IsLocked here v = v
Steps-IsLocked (next steps st) v = Step-IsLocked st (Steps-IsLocked steps v)

pub Reach-IsLocked :
    {session_id : String} {chat : List ChatRow} {r : Router} → Reach session_id chat r → IsLocked r
Reach-IsLocked {session_id} {chat} steps = Steps-IsLocked steps (start-IsLocked session_id chat)

some_same : {i j : ℕ} {o : Option ℕ} → o ≡ some i → o ≡ some j → i ≡ j
some_same a b = ground (arith, a, b)

-- Whatever requests come, and however the tasks of a session interleave, fail or are cancelled: two
-- tasks of one SessionState are never at work together, from the check of a wake-up or the start of a
-- turn to its end.
pub turns_exclusive :
    {session_id : String} {chat : List ChatRow} {r : Router}
    → Reach session_id chat r
    → (i j : ℕ) → (r.tasks i).owner ≡ (r.tasks j).owner
    → holds (r.tasks i).stage ≡ true
    → holds (r.tasks j).stage ≡ true
    → i ≡ j
turns_exclusive {r} reached i j same first second =
    let v = Reach-IsLocked reached in
    some_same (v.held i first) (ap (λ o. (r.states o).holder) same ∙ v.held j second)
