-- ===== src/Router/Queue/Reached.antt =====
-- The queue of the turn lock in every state that a session can reach.
use harness_runtime.Base.{
  ℕ, String, Bool, true, false, ◌≡◌, refl, Option, none, some, List, arith, if_ind, is_some,
  if◌then◌else◌,
}
use harness_runtime.Store.Chat.{ChatRow}
use harness_runtime.Router.{Router, is_live}
use harness_runtime.Router.Messages.{
  Request, Answers, write_notice_row, show_notice, add_row, serve, serve_new, serve_with,
  cancel_session, cancel_task, cancel_with, reuse, build,
}
use harness_runtime.Router.Steps.{
  Step, forgets, notes, serves, cancels, begins, grants, checks, attaches, speaks, ends, Steps,
  here, next, Reach,
}
use harness_runtime.Router.Lock.{IsLocked, reuse-IsLocked, build-IsLocked}
use harness_runtime.Router.Lock.Reached.{Steps-IsLocked, Reach-IsLocked, MayEnd-live}
use harness_runtime.Router.Queue.{
  IsQueued, start-IsQueued, schedule-IsQueued, reuse-IsQueued, build-IsQueued,
}
use harness_runtime.Router.Queue.Tasks.{
  grant-IsQueued, attached-IsQueued, finish-IsQueued, check-IsQueued, begin-IsQueued,
}

shown-IsQueued : (notice : String) (r : Router) → IsQueued r → IsQueued (show_notice notice r)
shown-IsQueued notice r v =
    if_ind IsQueued (is_some r.stored)
      (λ _. record { stands = v.stands; waits = v.waits; works = v.works }) (λ _. v)

notes-IsQueued :
    (a : Answers) (notice : String) (r : Router)
    → IsQueued r
    → IsQueued (write_notice_row a notice r)
unfolding write_notice_row
notes-IsQueued a notice r v = shown-IsQueued notice (if a.has_pool then add_row a notice r else r) (
    if_ind IsQueued a.has_pool (λ _. record { stands = v.stands; waits = v.waits; works = v.works })
      (λ _. v))

built-IsQueued :
    (failure : Option String) (q : Request) (r : Router)
    → IsLocked r
    → IsQueued r
    → IsQueued (serve_new failure q r).1
unfolding serve_new
built-IsQueued (some detail) q r l v = record {
  stands = v.stands;
  waits = v.waits;
  works = v.works;
}
built-IsQueued none q r l v =
    schedule-IsQueued q true r.next_state (build q r) (build-IsLocked q r l)
      (build-IsQueued q r l v)

served-IsQueued :
    (stored : Option ℕ) (a : Answers) (q : Request) (r : Router)
    → r.stored ≡ stored
    → IsLocked r
    → IsQueued r
    → IsQueued (serve_with stored a q r).1
unfolding serve_with
served-IsQueued (some o) a q r e l v =
    schedule-IsQueued q false o (reuse q o r) (reuse-IsLocked q o r (l.kept o e) l)
      (reuse-IsQueued q o r v)
served-IsQueued none a q r e l v = built-IsQueued a.failure q r l v

cancelled-IsQueued : (task : Option ℕ) (r : Router) → IsQueued r → IsQueued (cancel_task task r).1
cancelled-IsQueued none r v = v
cancelled-IsQueued (some i) r v =
    if_ind (λ (c : Bool × Router). IsQueued c.1) (is_live (r.tasks i).stage)
      (λ _. record {
        stands = λ j h. ground (arith, v.stands j);
        waits = λ o j h. ground (arith, v.waits o j);
        works = λ o j h. ground (arith, v.works o j);
      })
      (λ _. v)

stopped-IsQueued : (stored : Option ℕ) (r : Router) → IsQueued r → IsQueued (cancel_with stored r).1
stopped-IsQueued none r v = v
stopped-IsQueued (some o) r v = cancelled-IsQueued (r.states o).task r v

Step-IsQueued : {r s : Router} → Step r s → IsLocked r → IsQueued r → IsQueued s
Step-IsQueued forgets l v = record { stands = v.stands; waits = v.waits; works = v.works }
Step-IsQueued {r} (notes a notice) l v = notes-IsQueued a notice r v
Step-IsQueued {r} (serves a q) l v = unfold serve in served-IsQueued r.stored a q r refl l v
Step-IsQueued {r} cancels l v = unfold cancel_session in stopped-IsQueued r.stored r v
Step-IsQueued {r} (begins i e) l v = begin-IsQueued i r e v
Step-IsQueued {r} (grants i p rest e free first) l v =
    grant-IsQueued i p r (ground (arith, e)) free l v
Step-IsQueued {r} (checks i has_pool runs unread checkpoint e) l v =
    check-IsQueued i has_pool runs unread checkpoint r e l v
Step-IsQueued {r} (attaches i p e) l v = attached-IsQueued i p r e v
Step-IsQueued (speaks i p c e) l v = record { stands = v.stands; waits = v.waits; works = v.works }
Step-IsQueued {r} (ends i e m) l v = finish-IsQueued i e r (MayEnd-live m) l v

pub Steps-IsQueued : {r s : Router} → Steps r s → IsLocked r → IsQueued r → IsQueued s
Steps-IsQueued here l v = v
Steps-IsQueued (next steps st) l v =
    Step-IsQueued st (Steps-IsLocked steps l) (Steps-IsQueued steps l v)

pub Reach-IsQueued :
    {session_id : String} {chat : List ChatRow} {r : Router} → Reach session_id chat r → IsQueued r
Reach-IsQueued {session_id} {chat} steps =
    Steps-IsQueued steps (Reach-IsLocked here) (start-IsQueued session_id chat)
