-- ===== src/Router/Queue.antt =====
-- The tasks that wait for the turn lock of api/routers/sessions.py: what the endpoints do to them, in
-- Tasks what the tasks do, in Frees the work of the lock's holder, in Progress the way to the lock.
pub mod Tasks
pub mod Reached
pub mod Frees
pub mod Progress
use harness_runtime.Base.{
  ℕ, zero, suc, ◌+◌, ◌≤◌, ◌<◌, String, Bool, true, false, not, ◌&&◌, ◌||◌, ◌≡◌, refl, Option, none,
  some, List, [], ◌∷◌, ◌++◌, arith, nat_eq, if◌then◌else◌, if_ind, keep,
}
use harness_runtime.Store.Chat.{ChatRow}
use harness_runtime.Router.{
  Work, turn, wake, Stage, ready, waiting, checking, attaching, working, done, Task, SessionState,
  Router, start, put_at, holds, is_live, is_waiting, no_task,
}
use harness_runtime.Router.Messages.{
  Request, create_task, schedule_wake, reuse, build, schedule, is_notice,
}
use harness_runtime.Router.Lock.{IsLocked}

abbrev pub mem : List ℕ → ℕ → Bool
mem [] i = false
mem (x ∷ xs) i = nat_eq x i || mem xs i

pub mem-append : (xs : List ℕ) (i j : ℕ) → mem (xs ++ i ∷ []) j ≡ (mem xs j || nat_eq i j)
mem-append [] i j = ground arith
mem-append (x ∷ xs) i j = ground (arith, mem-append xs i j)

pub mem-keep :
    (xs : List ℕ) (i j : ℕ)
    → mem (keep (λ k. not (nat_eq k i)) xs) j ≡ (mem xs j && not (nat_eq j i))
mem-keep [] i j = refl
mem-keep (x ∷ xs) i j = ground (arith, mem-keep xs i j)

-- A task stands in the queue of its SessionState exactly while it waits, and the holder of a lock is at
-- work on that SessionState.
pub record IsQueued (r : Router) : Type 0 where
  pub stands :
      (i : ℕ)
      → is_waiting (r.tasks i).stage ≡ true
      → mem (r.states (r.tasks i).owner).queue i ≡ true
  pub waits :
      (o i : ℕ)
      → mem (r.states o).queue i ≡ true
      → (is_waiting (r.tasks i).stage ≡ true) × ((r.tasks i).owner ≡ o)
  pub works :
      (o i : ℕ)
      → (r.states o).holder ≡ some i
      → (holds (r.tasks i).stage ≡ true) × ((r.tasks i).owner ≡ o)

pub start-IsQueued : (session_id : String) (chat : List ChatRow) → IsQueued (start session_id chat)
start-IsQueued session_id chat = record {
  stands = λ i h. cc;
  waits = λ o i h. cc;
  works = λ o i h. cc;
}

pub create_task-IsQueued :
    (o : ℕ) (work : Work) (r : Router) → IsLocked r → IsQueued r → IsQueued (create_task o work r)
unfolding create_task
create_task-IsQueued o work r l v = record {
  stands = λ i h. ground (arith, v.stands i, l.unused r.next_task);
  waits = λ p i h. ground (arith, v.waits p i, l.unused r.next_task);
  works = λ p i h. ground (arith, v.works p i, l.unused r.next_task);
}

pub schedule_wake-IsQueued :
    (o : ℕ) (r : Router) → IsLocked r → IsQueued r → IsQueued (schedule_wake o r)
unfolding schedule_wake
schedule_wake-IsQueued o r l v = if_ind IsQueued _ (λ _. v) (λ _. create_task-IsQueued o wake r l v)

pub schedule-IsQueued :
    (q : Request) (is_new : Bool) (o : ℕ) (r : Router)
    → IsLocked r
    → IsQueued r
    → IsQueued (schedule q is_new o r)
unfolding schedule
schedule-IsQueued q is_new o r l v =
    let woken = schedule_wake-IsQueued o r l v in
    if_ind IsQueued (is_notice q) (λ _. woken)
      (λ _.
        if_ind IsQueued _ (λ _. create_task-IsQueued o (turn q.message q.role q.attachments) r l v)
          (λ _. if_ind IsQueued is_new (λ _. woken) (λ _. v)))

pub reuse-IsQueued : (q : Request) (o : ℕ) (r : Router) → IsQueued r → IsQueued (reuse q o r)
unfolding reuse
reuse-IsQueued q o r v = record {
  stands = λ i h. ground (arith, v.stands i);
  waits = λ p i h. ground (arith, v.waits p i);
  works = λ p i h. ground (arith, v.works p i);
}

-- The states above `next_state` are as new.
pub build-IsQueued : (q : Request) (r : Router) → IsLocked r → IsQueued r → IsQueued (build q r)
unfolding build
build-IsQueued q r l v = record {
  stands = λ i h. ground (arith, v.stands i, l.owned i);
  waits = λ p i h. ground (arith, v.waits p i);
  works = λ p i h. ground (arith, v.works p i);
}
