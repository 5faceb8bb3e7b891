-- ===== src/Router/Turns.antt =====
-- The tasks of the router: _run_turn_async and _wake_async of api/routers/sessions.py, with what
-- Session.async_run_turn of core/session/session.py adds to them, each as what it does from one
-- `await` to the next.
use harness_runtime.Base.{
  is_some, all, ℕ, ◌+◌, String, Bool, true, false, not, ◌&&◌, Option, none, some, List, [], ◌∷◌,
  ◌++◌, nat_eq, if◌then◌else◌, keep,
}
use harness_runtime.Value.{Fields}
use harness_runtime.Publisher.{result, ResultArgs, default_result, Call}
use harness_runtime.Execution.Resume.{Saved, has_something_to_report}
use harness_runtime.Router.{
  Task, Work, turn, wake, Stage, waiting, checking, attaching, working, done, SessionState, Effect,
  says, closes, trims, Router, put_at, set_stage, does,
}
use harness_runtime.Router.Messages.{schedule_wake}

-- How a task leaves the lock: its work is done, there was nothing to report, an exception, or the
-- cancellation.
pub data Ending : Type 0 where
  completed : Ending
  skipped : Ending
  failed : (error : String) → Ending
  cancelled : Ending

-- `result is_error=True`
abbrev ending_args : (subtype said : String) → ResultArgs
ending_args subtype said = record default_result {
  subtype = subtype;
  is_error = true;
  result = some said;
}

-- The except clauses.
unfoldable pub results : Ending → List Call
results (failed e) = result (ending_args "error_during_execution" e) ∷ []
results cancelled = result (ending_args "cancelled" "Turn cancelled by user") ∷ []
results completed = []
results skipped = []

abbrev says_all : ℕ → List Call → List Effect
says_all p [] = []
says_all p (c ∷ cs) = says p c ∷ says_all p cs

abbrev pub publisher_of : Stage → Option ℕ
publisher_of (waiting p) = p
publisher_of (attaching p) = some p
publisher_of (working p) = some p
publisher_of _ = none

-- The result and the close, by the publisher that the task has.
abbrev pub parting : Option ℕ → Ending → List Effect
parting none e = []
parting (some p) e = says_all p (results e) ++ closes p ∷ []

-- Whether a wake-up is checked for at the end.
abbrev pub rewakes : Work → Ending → Bool
rewakes (turn content role attachments) e = true
rewakes wake completed = true
rewakes wake _ = false

abbrev pub is_task : ℕ → Option ℕ → Bool
is_task i none = false
is_task i (some j) = nat_eq j i

-- The lock without the task, which holds it or waits for it.
abbrev pub leave : ℕ → SessionState → SessionState
leave i s = record s {
  holder = if is_task i s.holder then none else s.holder;
  queue = keep (λ j. not (nat_eq j i)) s.queue;
}

-- The end of the `async with`, the except clause and the `finally`, but for the wake-up.
unfoldable pub end_task : ℕ → Ending → Router → Router
unfolding results
end_task i e r =
    let t = r.tasks i in
    let left = leave i (r.states t.owner) in
    does (parting (publisher_of t.stage) e) (record r {
      tasks = put_at r.tasks i (record t { stage = done });
      states =
          put_at r.states t.owner
            (record left { task = if is_task i left.task then none else left.task });
    })

unfoldable pub finish : ℕ → Ending → Router → Router
unfolding end_task
finish i e r =
    let t = r.tasks i in
    if is_task i (r.states t.owner).task && rewakes t.work e
    then schedule_wake t.owner (end_task i e r)
    else end_task i e r

-- What a task does once it holds the lock.
abbrev pub entered : Work → Option ℕ → Stage
entered wake p = checking
entered (turn content role attachments) none = attaching 0
entered (turn content role attachments) (some p) = attaching p

-- Whether `acquire` returns at once: nobody holds the lock, and whoever waits for it is cancelled. A
-- task whose cancellation was asked for counts as cancelled from then on, also where the lock's release
-- has woken it before.
abbrev pub is_free : (ℕ → Task) → SessionState → Bool
is_free tasks s = all (λ j. (tasks j).cancelled) s.queue && not (is_some s.holder)

-- `async with state.turn_lock`, with the publisher that the task has.
unfoldable pub acquire : ℕ → Option ℕ → Router → Router
acquire i p r =
    let t = r.tasks i in
    let s = r.states t.owner in
    if is_free r.tasks s
    then record r {
      tasks = put_at r.tasks i (record t { stage = entered t.work p });
      states = put_at r.states t.owner (record s { holder = some i });
    }
    else record r {
      tasks = put_at r.tasks i (record t { stage = waiting p });
      states = put_at r.states t.owner (record s { queue = s.queue ++ i ∷ [] });
    }

abbrev own_publisher : Work → SessionState → Option ℕ
own_publisher (turn content role attachments) s = some s.publisher
own_publisher wake s = none

-- The first step of a task. Python does not enter a coroutine that was cancelled before it.
unfoldable pub begin : ℕ → Router → Router
begin i r =
    let t = r.tasks i in
    if t.cancelled
    then set_stage i done r
    else acquire i (own_publisher t.work (r.states t.owner)) r

-- The lock is free, and the task the first that waits. `acquire` raises in a task that was cancelled
-- meanwhile, which leaves without the lock.
unfoldable pub grant : ℕ → Option ℕ → Router → Router
grant i p r =
    let t = r.tasks i in
    let s = r.states t.owner in
    if t.cancelled then finish i cancelled r else record r {
      tasks = put_at r.tasks i (record t { stage = entered t.work p });
      states =
          put_at r.states t.owner
            (record s { holder = some i; queue = keep (λ j. not (nat_eq j i)) s.queue });
    }

-- A wake-up has its answer from has_something_to_report.
unfoldable pub check :
    ℕ
    → (has_pool : Bool) → (runs : String → Option Fields) → (unread : Option ℕ → Bool) → Saved
    → Router
    → Router
check i has_pool runs unread checkpoint r =
    let t = r.tasks i in
    let s = r.states t.owner in
    if has_something_to_report has_pool runs unread checkpoint
    then record r {
      tasks = put_at r.tasks i (record t { stage = attaching r.next_publisher });
      states = put_at r.states t.owner (record s { publisher = r.next_publisher });
      next_publisher = r.next_publisher + 1;
      effects = r.effects ++ trims ∷ [];
    }
    else finish i skipped r

-- `consume_resume`, and the call of async_execute.
unfoldable pub attached : ℕ → ℕ → Router → Router
attached i p r =
    let t = r.tasks i in
    let s = r.states t.owner in
    record r {
      tasks = put_at r.tasks i (record t { stage = working p });
      states = put_at r.states t.owner (record s { resume_payload = none });
      turns =
          r.turns
          ++ record { task = i; publisher = p; work = t.work; resume_payload = s.resume_payload }
            ∷ [];
    }
