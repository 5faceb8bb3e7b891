-- ===== src/Router/Queue/Tasks.antt =====
-- What the tasks of the router do to the queue of the turn lock.
use harness_runtime.Base.{
  ℕ, String, Bool, true, ◌&&◌, ◌≡◌, refl, Option, none, List, arith, if◌then◌else◌, if_ind,
}
use harness_runtime.Value.{Fields}
use harness_runtime.Execution.Resume.{Saved, has_something_to_report}
use harness_runtime.Router.{
  ready, checking, attaching, done, Task, SessionState, Effect, Router, put_at, is_live, does,
}
use harness_runtime.Router.Turns.{
  cancelled, end_task, Ending, skipped, finish, acquire, begin, grant, check, attached, leave,
  is_task, parting, publisher_of, rewakes,
}
use harness_runtime.Router.Lock.{IsLocked}
use harness_runtime.Router.Lock.Tasks.{end_task-IsLocked}
use harness_runtime.Router.Queue.{IsQueued, mem-append, mem-keep, schedule_wake-IsQueued}

pub acquire-IsQueued :
    (i : ℕ) (p : Option ℕ) (r : Router)
    → (r.tasks i).stage ≡ ready
    → IsQueued r
    → IsQueued (acquire i p r)
unfolding acquire
acquire-IsQueued i p r e v =
    let queue = (r.states (r.tasks i).owner).queue in
    record {
      stands = λ j h. ground (arith, v.stands j, mem-append queue i j);
      waits = λ o j h. ground (arith, v.waits o j, mem-append queue i j);
      works = λ o j h. ground (arith, v.works o j);
    }

pub attached-IsQueued :
    (i p : ℕ) (r : Router)
    → (r.tasks i).stage ≡ attaching p
    → IsQueued r
    → IsQueued (attached i p r)
unfolding attached
attached-IsQueued i p r e v = record {
  stands = λ j h. ground (arith, v.stands j);
  waits = λ o j h. ground (arith, v.waits o j);
  works = λ o j h. ground (arith, v.works o j);
}

left-IsQueued :
    (i : ℕ) (t : Task) (s : SessionState) (r : Router)
    → t ≡ r.tasks i
    → s ≡ r.states t.owner
    → (task : Option ℕ) → IsQueued r
    → IsQueued (record r {
      tasks = put_at r.tasks i (record t { stage = done });
      states = put_at r.states t.owner (record (leave i s) { task = task });
    })
left-IsQueued i t s r et es task v = record {
  stands = λ j h. ground (arith, v.stands j, mem-keep s.queue i j, et, es);
  waits = λ o j h. ground (arith, v.waits o j, mem-keep s.queue i j, et, es);
  works = λ o j h. ground (arith, v.works o j, et, es);
}

pub does-IsQueued : (es : List Effect) (r : Router) → IsQueued r → IsQueued (does es r)
does-IsQueued es r v = record { stands = v.stands; waits = v.waits; works = v.works }

pub end_task-IsQueued : (i : ℕ) (e : Ending) (r : Router) → IsQueued r → IsQueued (end_task i e r)
unfolding end_task
end_task-IsQueued i e r v =
    let t = r.tasks i in
    let s = r.states t.owner in
    does-IsQueued (parting (publisher_of t.stage) e) _
      (left-IsQueued i t s r refl refl (if is_task i s.task then none else s.task) v)

pub finish-IsQueued :
    (i : ℕ) (e : Ending) (r : Router)
    → is_live (r.tasks i).stage ≡ true
    → IsLocked r
    → IsQueued r
    → IsQueued (finish i e r)
unfolding finish
finish-IsQueued i e r live l v =
    let t = r.tasks i in
    let ended = end_task-IsQueued i e r v in
    if_ind IsQueued (is_task i (r.states t.owner).task && rewakes t.work e)
      (λ _. schedule_wake-IsQueued t.owner (end_task i e r) (end_task-IsLocked i e r live l) ended)
      (λ _. ended)

pub grant-IsQueued :
    (i : ℕ) (p : Option ℕ) (r : Router)
    → is_live (r.tasks i).stage ≡ true
    → (r.states (r.tasks i).owner).holder ≡ none
    → IsLocked r
    → IsQueued r
    → IsQueued (grant i p r)
unfolding grant
grant-IsQueued i p r live free l v =
    let queue = (r.states (r.tasks i).owner).queue in
    if_ind IsQueued (r.tasks i).cancelled (λ _. finish-IsQueued i cancelled r live l v)
      (λ _. record {
        stands = λ j h. ground (arith, v.stands j, mem-keep queue i j);
        waits = λ o j h. ground (arith, v.waits o j, mem-keep queue i j);
        works = λ o j h. ground (arith, v.works o j, free);
      })

pub check-IsQueued :
    (i : ℕ) (has_pool : Bool) (runs : String → Option Fields) (unread : Option ℕ → Bool)
    (checkpoint : Saved) (r : Router)
    → (r.tasks i).stage ≡ checking
    → IsLocked r
    → IsQueued r
    → IsQueued (check i has_pool runs unread checkpoint r)
unfolding check
check-IsQueued i has_pool runs unread checkpoint r e l v =
    if_ind IsQueued (has_something_to_report has_pool runs unread checkpoint)
      (λ _. record {
        stands = λ j h. ground (arith, v.stands j);
        waits = λ o j h. ground (arith, v.waits o j);
        works = λ o j h. ground (arith, v.works o j);
      })
      (λ _. finish-IsQueued i skipped r (ground (arith, e)) l v)

pub begin-IsQueued :
    (i : ℕ) (r : Router) → (r.tasks i).stage ≡ ready → IsQueued r → IsQueued (begin i r)
unfolding begin
begin-IsQueued i r e v =
    if_ind IsQueued (r.tasks i).cancelled
      (λ _. record {
        stands = λ j h. ground (arith, v.stands j);
        waits = λ o j h. ground (arith, v.waits o j);
        works = λ o j h. ground (arith, v.works o j);
      })
      (λ _. acquire-IsQueued i _ r e v)
