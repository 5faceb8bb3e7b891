-- ===== src/Router/Steps.antt =====
-- How the endpoints and the tasks of a session interleave: what may run next, between two `await`s.
-- Of a request only the parts between its own `await`s are steps, so others may come in between.
pub mod Requests
use harness_runtime.Base.{
  not, ℕ, String, Bool, true, false, ◌≡◌, ◌≢◌, Option, none, some, List, [], ◌∷◌, ◌++◌,
}
use harness_runtime.Value.{Value, Fields}
use harness_runtime.Publisher.{Call}
use harness_runtime.Execution.Resume.{Saved}
use harness_runtime.Store.Chat.{ChatRow}
use harness_runtime.Router.{
  Work, Stage, ready, waiting, checking, attaching, working, done, SessionState, says, TurnCall,
  Router, start, holds, is_waiting, does,
}
use harness_runtime.Router.Messages.{
  Request, Answers, forget, write_notice_row, serve, cancel_session,
}
use harness_runtime.Router.Turns.{
  Ending, completed, skipped, failed, cancelled, finish, acquire, begin, grant, check, attached,
}

-- How a task may end where it stands.
pub data MayEnd (r : Router) (i : ℕ) : Ending → Type 0 where
  returns : (p : ℕ) → (r.tasks i).stage ≡ working p → MayEnd r i completed
  raises : (e : String) → holds (r.tasks i).stage ≡ true → MayEnd r i (failed e)
  interrupted : holds (r.tasks i).stage ≡ true → (r.tasks i).cancelled ≡ true → MayEnd r i cancelled
  abandoned :
      (p : Option ℕ)
      → (r.tasks i).stage ≡ waiting p
      → (r.tasks i).cancelled ≡ true
      → MayEnd r i cancelled

pub data Step (r : Router) : Router → Type 0 where
  -- The requests: a restore, a notice, a message, a cancellation.
  forgets : Step r (forget r)
  notes : (a : Answers) (notice : String) → Step r (write_notice_row a notice r)
  serves : (a : Answers) (q : Request) → Step r (serve a q r).1
  cancels : Step r (cancel_session r).1
  -- The tasks.
  begins : (i : ℕ) → (r.tasks i).stage ≡ ready → Step r (begin i r)
  grants :
      (i : ℕ) (p : Option ℕ) (rest : List ℕ)
      → (r.tasks i).stage ≡ waiting p
      → (r.states (r.tasks i).owner).holder ≡ none
      → (r.states (r.tasks i).owner).queue ≡ i ∷ rest
      → Step r (grant i p r)
  checks :
      (i : ℕ) (has_pool : Bool) (runs : String → Option Fields) (unread : Option ℕ → Bool)
      (checkpoint : Saved)
      → (r.tasks i).stage ≡ checking
      → Step r (check i has_pool runs unread checkpoint r)
  attaches : (i p : ℕ) → (r.tasks i).stage ≡ attaching p → Step r (attached i p r)
  speaks : (i p : ℕ) (c : Call) → (r.tasks i).stage ≡ working p → Step r (does (says p c ∷ []) r)
  ends : (i : ℕ) (e : Ending) → MayEnd r i e → Step r (finish i e r)

pub data Steps (r : Router) : Router → Type 0 where
  here : Steps r r
  next : {s t : Router} → Steps r s → Step s t → Steps r t

-- What can become of a session id.
abbrev pub Reach : String → List ChatRow → Router → Type 0
Reach session_id chat r = Steps (start session_id chat) r

pub Steps-trans : {r s t : Router} → Steps r s → Steps s t → Steps r t
Steps-trans a here = a
Steps-trans a (next b st) = next (Steps-trans a b) st

-- Whether a step makes no task go on whose cancellation was asked for: asyncio raises in it at the
-- `await` where it stands.
abbrev pub heeds : {r s : Router} → Step r s → Bool
heeds forgets = true
heeds (notes a notice) = true
heeds (serves a q) = true
heeds cancels = true
heeds (begins i e) = true
heeds (grants i p rest e free first) = true
heeds {r} (checks i has_pool runs unread _ e) = not (r.tasks i).cancelled
heeds {r} (attaches i p e) = not (r.tasks i).cancelled
heeds {r} (speaks i p c e) = not (r.tasks i).cancelled
heeds (ends i e (interrupted h c)) = true
heeds (ends i e (abandoned p h c)) = true
heeds {r} (ends i e (returns p h)) = not (r.tasks i).cancelled
heeds {r} (ends i e (raises error h)) = not (r.tasks i).cancelled

-- Steps in which every cancellation takes effect.
pub data Schedule (r : Router) : Router → Type 0 where
  idle : Schedule r r
  then_step : {s t : Router} → Schedule r s → (st : Step s t) → heeds st ≡ true → Schedule r t

pub Schedule-Steps : {r s : Router} → Schedule r s → Steps r s
Schedule-Steps idle = here
Schedule-Steps (then_step steps st h) = next (Schedule-Steps steps) st

pub Schedule-trans : {r s t : Router} → Schedule r s → Schedule s t → Schedule r t
Schedule-trans a idle = a
Schedule-trans a (then_step b st h) = then_step (Schedule-trans a b) st h
