-- ===== src/Router/Lock.antt =====
-- The turn lock: who holds it. Here what an endpoint does, in Tasks what the tasks do, in Reached what
-- becomes of it.
pub mod Tasks
pub mod Reached
use harness_runtime.Base.{
  ℕ, zero, suc, ◌+◌, ◌≤◌, ◌<◌, String, Bool, true, false, not, ◌&&◌, ◌||◌, ◌≡◌, ◌≢◌, refl, sym, ap,
  ◌∙◌, Option, none, some, List, [], ◌∷◌, ◌++◌, arith, nat_eq, if◌then◌else◌, if_ind, keep,
  is_empty,
}
use harness_runtime.Value.{Value, Fields}
use harness_runtime.Execution.Resume.{Saved, has_something_to_report}
use harness_runtime.Store.Chat.{ChatRow}
use harness_runtime.Router.{
  Work, turn, wake, Stage, ready, waiting, checking, attaching, working, done, Task, SessionState,
  Effect, Router, start, put_at, holds, is_live, is_waiting, no_task, new_state, does,
}
use harness_runtime.Router.Messages.{
  Request, Answers, forget, write_notice_row, serve, cancel_session, create_task, schedule_wake,
  reuse, build, schedule, is_notice,
}

abbrev pub holder_of : Router → ℕ → Option ℕ
holder_of r i = (r.states (r.tasks i).owner).holder

-- Whoever holds a lock is a task of its session that is at work, and the other way round; numbers that
-- are not given yet stand for nothing.
pub record IsLocked (r : Router) : Type 0 where
  pub held : (i : ℕ) → holds (r.tasks i).stage ≡ true → holder_of r i ≡ some i
  pub unused : (i : ℕ) → r.next_task ≤ i → r.tasks i ≡ no_task
  pub owned : (i : ℕ) → is_live (r.tasks i).stage ≡ true → (r.tasks i).owner < r.next_state
  pub current : (o i : ℕ) → (r.states o).task ≡ some i → i < r.next_task
  pub kept : (o : ℕ) → (stored : r.stored ≡ some o) → o < r.next_state

pub start-IsLocked : (session_id : String) (chat : List ChatRow) → IsLocked (start session_id chat)
start-IsLocked session_id chat = record {
  held = λ i h. cc;
  unused = λ i h. refl;
  owned = λ i h. cc;
  current = λ o i h. cc;
  kept = λ o h. cc;
}

pub create_task-IsLocked :
    (o : ℕ) (work : Work) (r : Router)
    → o < r.next_state
    → IsLocked r
    → IsLocked (create_task o work r)
unfolding create_task
create_task-IsLocked o work r lt v = record {
  held = λ i h. ground (arith, v.held i, v.unused r.next_task, v.unused i);
  unused = λ i h. ground (arith, v.unused i);
  owned = λ i h. ground (arith, v.owned i);
  current = λ p i h. ground (arith, v.current p i);
  kept = λ p h. v.kept p h;
}

pub schedule_wake-IsLocked :
    (o : ℕ) (r : Router) → o < r.next_state → IsLocked r → IsLocked (schedule_wake o r)
unfolding schedule_wake
schedule_wake-IsLocked o r lt v =
    if_ind IsLocked _ (λ _. v) (λ _. create_task-IsLocked o wake r lt v)

pub schedule-IsLocked :
    (q : Request) (is_new : Bool) (o : ℕ) (r : Router)
    → o < r.next_state
    → IsLocked r
    → IsLocked (schedule q is_new o r)
unfolding schedule
schedule-IsLocked q is_new o r lt v =
    let woken = schedule_wake-IsLocked o r lt v in
    if_ind IsLocked (is_notice q) (λ _. woken)
      (λ _.
        if_ind IsLocked _ (λ _. create_task-IsLocked o (turn q.message q.role q.attachments) r lt v)
          (λ _. if_ind IsLocked is_new (λ _. woken) (λ _. v)))

pub reuse-IsLocked :
    (q : Request) (o : ℕ) (r : Router) → o < r.next_state → IsLocked r → IsLocked (reuse q o r)
unfolding reuse
reuse-IsLocked q o r lt v = record {
  held = λ i h. ground (arith, v.held i);
  unused = λ i h. v.unused i h;
  owned = λ i h. v.owned i h;
  current = λ p i h. ground (arith, v.current p i);
  kept = λ p h. v.kept p h;
}

pub build-IsLocked : (q : Request) (r : Router) → IsLocked r → IsLocked (build q r)
unfolding build
build-IsLocked q r v = record {
  held = λ i h. ground (arith, v.held i, v.owned i);
  unused = λ i h. v.unused i h;
  owned = λ i h. ground (arith, v.owned i);
  current = λ p i h. ground (arith, v.current p i);
  kept = λ p h. ground (arith, h);
}
