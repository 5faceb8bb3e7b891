-- ===== src/Router.antt =====
-- The session router, api/routers/sessions.py: the state of one session id, that the program keeps in
-- memory. `Messages` has the endpoints and the scheduling, `Turns` the tasks, `Steps` how they
-- interleave, and `Stream` the endpoint that sends a session's events to its clients.
pub mod Messages
pub mod Turns
pub mod Steps
pub mod Lock
pub mod Queue
pub mod Notices
pub mod Stream
mod Samples
use harness_runtime.Base.{
  ℕ, ◌+◌, String, Bool, true, false, not, Option, none, some, List, [], ◌∷◌, ◌++◌, nat_eq,
  if◌then◌else◌,
}
use harness_runtime.Value.{Value}
use harness_runtime.Publisher.{Call}
use harness_runtime.Store.Chat.{ChatRow}

-- What a task of the session runs: `_run_turn_async` with its arguments, or `_wake_async`.
pub data Work : Type 0 where
  turn : (content role : String) → (attachments : List Value) → Work
  wake : Work

-- Where a task stands: the `await` at which it waits, with the publisher that it holds by then.
-- `ready` is a task that the event loop has not started, `waiting` waits for the turn lock, `checking`
-- for has_something_to_report, `attaching` for inline_object_attachments, `working` for
-- async_execute.
pub data Stage : Type 0 where
  ready : Stage
  waiting : (publisher : Option ℕ) → Stage
  checking : Stage
  attaching : (publisher : ℕ) → Stage
  working : (publisher : ℕ) → Stage
  done : Stage

-- An asyncio task; `cancelled` says that its cancellation was asked for. `owner` is the SessionState
-- that it was created with.
pub record Task : Type 0 where
  pub owner : ℕ
  pub work : Work
  pub stage : Stage
  pub cancelled : Bool

-- `holder` and `queue` are the turn lock: the task that holds it, and those that wait for it, the
-- first to come first. `resume_payload` is the field of the session.
pub record SessionState : Type 0 where
  pub resume_payload : Option Value
  pub publisher : ℕ
  pub task : Option ℕ
  pub holder : Option ℕ
  pub queue : List ℕ

-- What is done outside the process: a call of a publisher, its `close`, and `_trim_sentinel`.
pub data Effect : Type 0 where
  says : (publisher : ℕ) → Call → Effect
  closes : (publisher : ℕ) → Effect
  trims : Effect

-- A call of async_execute: the arguments that the router and the session choose.
pub record TurnCall : Type 0 where
  pub task : ℕ
  pub publisher : ℕ
  pub work : Work
  pub resume_payload : Option Value

-- SessionStates, publishers and tasks are numbered in the order of their creation; the store holds the
-- SessionState of this session id, if any. A task with a number that is not given yet is `done`.
pub record Router : Type 0 where
  pub session_id : String
  pub stored : Option ℕ
  pub states : ℕ → SessionState
  pub next_state : ℕ
  pub tasks : ℕ → Task
  pub next_task : ℕ
  pub next_publisher : ℕ
  pub chat : List ChatRow
  pub effects : List Effect
  pub turns : List TurnCall

abbrev pub put_at {ℓ} : {A : Type ℓ} → (ℕ → A) → ℕ → A → ℕ → A
put_at f i a j = if nat_eq i j then a else f j

abbrev pub new_state : ℕ → SessionState
new_state publisher = record {
  resume_payload = none;
  publisher = publisher;
  task = none;
  holder = none;
  queue = [];
}

abbrev pub no_task : Task
no_task = record { owner = 0; work = wake; stage = done; cancelled = false }

-- The session id before the first request.
abbrev pub start : String → List ChatRow → Router
start session_id chat = record {
  session_id = session_id;
  stored = none;
  states = λ o. new_state 0;
  next_state = 0;
  tasks = λ i. no_task;
  next_task = 0;
  next_publisher = 0;
  chat = chat;
  effects = [];
  turns = [];
}

abbrev pub is_live : Stage → Bool
is_live done = false
is_live _ = true

-- Whether a task holds the turn lock.
abbrev pub holds : Stage → Bool
holds checking = true
holds (attaching p) = true
holds (working p) = true
holds _ = false

abbrev pub is_waiting : Stage → Bool
is_waiting (waiting p) = true
is_waiting _ = false

abbrev pub set_task : ℕ → Task → Router → Router
set_task i t r = record r { tasks = put_at r.tasks i t }

abbrev pub set_stage : ℕ → Stage → Router → Router
set_stage i s r = set_task i (record (r.tasks i) { stage = s }) r

abbrev pub set_state : ℕ → SessionState → Router → Router
set_state o s r = record r { states = put_at r.states o s }

abbrev pub does : List Effect → Router → Router
does es r = record r { effects = r.effects ++ es }
