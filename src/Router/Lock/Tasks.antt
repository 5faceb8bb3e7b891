-- ===== src/Router/Lock/Tasks.antt =====
-- What the tasks of the router do to the turn lock.
use harness_runtime.Base.{
  ℕ, String, Bool, true, ◌&&◌, ◌≡◌, refl, Option, none, some, List, arith, if◌then◌else◌, if_ind,
}
use harness_runtime.Value.{Fields}
use harness_runtime.Execution.Resume.{Saved, has_something_to_report}
use harness_runtime.Router.{
  ready, checking, attaching, done, Task, SessionState, Effect, Router, put_at, is_live, does,
}
use harness_runtime.Router.Turns.{
  cancelled, end_task, rewakes, publisher_of, is_task, parting, Ending, skipped, finish, acquire,
  begin, grant, check, attached, leave,
}
use harness_runtime.Router.Lock.{IsLocked, holder_of, schedule_wake-IsLocked}

pub acquire-IsLocked :
    (i : ℕ) (p : Option ℕ) (r : Router)
    → (r.tasks i).stage ≡ ready
    → IsLocked r
    → IsLocked (acquire i p r)
unfolding acquire
acquire-IsLocked i p r live v = record {
  held = λ j h. ground (arith, v.held j);
  unused = λ j h. ground (arith, v.unused i, v.unused j);
  owned = λ j h. ground (arith, v.owned i, v.owned j);
  current = λ o j h. ground (arith, v.current o j);
  kept = λ o h. ground (arith, v.kept o);
}

pub attached-IsLocked :
    (i p : ℕ) (r : Router)
    → (r.tasks i).stage ≡ attaching p
    → IsLocked r
    → IsLocked (attached i p r)
unfolding attached
attached-IsLocked i p r e v = record {
  held = λ j h. ground (arith, v.held j, v.held i);
  unused = λ j h. ground (arith, v.unused i, v.unused j);
  owned = λ j h. ground (arith, v.owned i, v.owned j);
  current = λ o j h. ground (arith, v.current o j);
  kept = λ o h. v.kept o h;
}

left-IsLocked :
    (i : ℕ) (t : Task) (s : SessionState) (r : Router)
    → t ≡ r.tasks i
    → is_live t.stage ≡ true
    → s ≡ r.states t.owner
    → (cleared : Option ℕ) → ((j : ℕ) → cleared ≡ some j → s.task ≡ some j)
    → IsLocked r
    → IsLocked (record r {
      tasks = put_at r.tasks i (record t { stage = done });
      states = put_at r.states t.owner (record (leave i s) { task = cleared });
    })
left-IsLocked i t s r et live es cleared among v = record {
  held = λ j h. ground (arith, v.held j, v.held i, et, es);
  unused = λ j h. ground (arith, v.unused i, v.unused j, et);
  owned = λ j h. ground (arith, v.owned i, v.owned j, et);
  current = λ o j h. ground (arith, v.current o j, among j, es);
  kept = λ o h. v.kept o h;
}

does-IsLocked : (es : List Effect) (r : Router) → IsLocked r → IsLocked (does es r)
does-IsLocked es r v = record {
  held = v.held;
  unused = v.unused;
  owned = v.owned;
  current = v.current;
  kept = v.kept;
}

-- The task whose end is noted in the SessionState, if it is still that one.
abbrev cleared : ℕ → Option ℕ → Option ℕ
cleared i task = if is_task i task then none else task

among : (i : ℕ) (task : Option ℕ) (j : ℕ) → cleared i task ≡ some j → task ≡ some j
among i task j h = ground (arith, h)

pub end_task-IsLocked :
    (i : ℕ) (e : Ending) (r : Router)
    → is_live (r.tasks i).stage ≡ true
    → IsLocked r
    → IsLocked (end_task i e r)
unfolding end_task
end_task-IsLocked i e r live v =
    let t = r.tasks i in
    let s = r.states t.owner in
    does-IsLocked (parting (publisher_of t.stage) e) _
      (left-IsLocked i t s r refl live refl (cleared i s.task) (among i s.task) v)

pub finish-IsLocked :
    (i : ℕ) (e : Ending) (r : Router)
    → is_live (r.tasks i).stage ≡ true
    → IsLocked r
    → IsLocked (finish i e r)
unfolding finish
finish-IsLocked i e r live v =
    let t = r.tasks i in
    let ended = end_task-IsLocked i e r live v in
    if_ind IsLocked (is_task i (r.states t.owner).task && rewakes t.work e)
      (λ _.
        schedule_wake-IsLocked t.owner (end_task i e r) (unfold end_task in v.owned i live) ended)
      (λ _. ended)

pub grant-IsLocked :
    (i : ℕ) (p : Option ℕ) (r : Router)
    → is_live (r.tasks i).stage ≡ true
    → holder_of r i ≡ none
    → IsLocked r
    → IsLocked (grant i p r)
unfolding grant
grant-IsLocked i p r live free v =
    if_ind IsLocked (r.tasks i).cancelled (λ _. finish-IsLocked i cancelled r live v)
      (λ _. record {
        held = λ j h. ground (arith, v.held j);
        unused = λ j h. ground (arith, v.unused i, v.unused j);
        owned = λ j h. ground (arith, v.owned i, v.owned j);
        current = λ o j h. ground (arith, v.current o j);
        kept = λ o h. v.kept o h;
      })

pub check-IsLocked :
    (i : ℕ) (has_pool : Bool) (runs : String → Option Fields) (unread : Option ℕ → Bool)
    (checkpoint : Saved) (r : Router)
    → (r.tasks i).stage ≡ checking
    → IsLocked r
    → IsLocked (check i has_pool runs unread checkpoint r)
unfolding check
check-IsLocked i has_pool runs unread checkpoint r e v =
    if_ind IsLocked (has_something_to_report has_pool runs unread checkpoint)
      (λ _. record {
        held = λ j h. ground (arith, v.held j, v.held i);
        unused = λ j h. ground (arith, v.unused i, v.unused j);
        owned = λ j h. ground (arith, v.owned i, v.owned j);
        current = λ o j h. ground (arith, v.current o j);
        kept = λ o h. v.kept o h;
      })
      (λ _. finish-IsLocked i skipped r (ground (arith, e)) v)

pub begin-IsLocked :
    (i : ℕ) (r : Router) → (r.tasks i).stage ≡ ready → IsLocked r → IsLocked (begin i r)
unfolding begin
begin-IsLocked i r e v =
    if_ind IsLocked (r.tasks i).cancelled
      (λ _. record {
        held = λ j h. ground (arith, v.held j);
        unused = λ j h. ground (arith, v.unused i, v.unused j);
        owned = λ j h. ground (arith, v.owned i, v.owned j);
        current = λ o j h. v.current o j h;
        kept = λ o h. v.kept o h;
      })
      (λ _. acquire-IsLocked i _ r e v)
