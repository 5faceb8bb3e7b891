-- ===== src/Router/Notices.antt =====
-- handle_message of api/routers/sessions.py on a system notice, and the check of a wake-up.
use harness_runtime.Base.{
  append-nil, ℕ, ◌≤◌, ◌<◌, String, Bool, true, false, not, ◌&&◌, ◌≡◌, refl, Option, none, some,
  arith, ◌==◌, if◌then◌else◌, if_ind, is_some,
}
use harness_runtime.Value.{Value, Fields}
use harness_runtime.Execution.Resume.{Saved, has_pending_question, has_something_to_report}
use harness_runtime.Execution.Resume.Answers.{has_something_to_report-idle}
use harness_runtime.Router.{wake, checking, done, Router, no_task}
use harness_runtime.Router.Messages.{
  Request, Answers, Response, success, bad_request, forget, is_notice, add_row, show_notice,
  write_notice_row, may_finish_a_job, has_resume, create_task, schedule_wake, reuse, build, refused,
  schedule, serve, serve_with, serve_new, handle_content, handle_restored, handle_message,
}
use harness_runtime.Router.Turns.{finish, end_task, check}
use harness_runtime.Router.Lock.{IsLocked}

-- No task that was there is touched, no turn is run, and a task that is new only wakes the agent.
pub record OnlyWakes (r s : Router) : Type 0 where
  pub old : (i : ℕ) → i < r.next_task → s.tasks i ≡ r.tasks i
  pub new : (i : ℕ) → r.next_task ≤ i → (s.tasks i).work ≡ wake
  pub turns : s.turns ≡ r.turns

-- The same without a new task.
record OnlyWrites (r s : Router) : Type 0 where
  tasks : s.tasks ≡ r.tasks
  next_task : s.next_task ≡ r.next_task
  turns : s.turns ≡ r.turns

schedule_wake-OnlyWakes :
    (o : ℕ) (r : Router)
    → ((i : ℕ) → r.next_task ≤ i → r.tasks i ≡ no_task)
    → OnlyWakes r (schedule_wake o r)
unfolding schedule_wake create_task
schedule_wake-OnlyWakes o r unused = record {
  old = λ i lt. ground arith;
  new = λ i le. ground (arith, unused i);
  turns = ground arith;
}

-- What a request on a notice does from a state with the tasks of `r`.
module _ (r : Router) (unused : (i : ℕ) → r.next_task ≤ i → r.tasks i ≡ no_task) (q : Request)
    (notice : is_notice q ≡ true) where
  woken :
      (is_new : Bool) (o : ℕ) (s : Router) → OnlyWrites r s → OnlyWakes r (schedule q is_new o s)
  unfolding schedule schedule_wake create_task
  woken is_new o s w = record {
    old = λ i lt. ground (arith, notice, w.tasks, w.next_task);
    new = λ i le. ground (arith, notice, w.tasks, w.next_task, unused i);
    turns = ground (arith, notice, w.turns);
  }

  unserved : (s : Router) → OnlyWrites r s → OnlyWakes r s
  unserved s w = record {
    old = λ i lt. ground (arith, w.tasks);
    new = λ i le. ground (arith, w.tasks, unused i);
    turns = w.turns;
  }

  served_new :
      (failure : Option String) (s : Router)
      → OnlyWrites r s
      → OnlyWakes r (serve_new failure q s).1
  unfolding serve_new
  served_new (some detail) s w =
      unserved (refused s) (record { tasks = w.tasks; next_task = w.next_task; turns = w.turns })
  served_new none s w =
      woken true s.next_state (build q s)
        (unfold build in record { tasks = w.tasks; next_task = w.next_task; turns = w.turns })

  served :
      (stored : Option ℕ) (a : Answers) (s : Router)
      → OnlyWrites r s
      → OnlyWakes r (serve_with stored a q s).1
  unfolding serve_with
  served (some o) a s w =
      woken false o (reuse q o s)
        (unfold reuse in record { tasks = w.tasks; next_task = w.next_task; turns = w.turns })
  served none a s w = served_new a.failure s w

  shown : (s : Router) → OnlyWrites r s → OnlyWrites r (show_notice q.message s)
  shown s w =
      if_ind (λ (t : Router). OnlyWrites r t) (is_some s.stored)
        (λ _. record { tasks = w.tasks; next_task = w.next_task; turns = w.turns }) (λ _. w)

  noted :
      (a : Answers) (s : Router) → OnlyWrites r s → OnlyWrites r (write_notice_row a q.message s)
  unfolding write_notice_row
  noted a s w = shown (if a.has_pool then add_row a q.message s else s) (
      if_ind (λ (t : Router). OnlyWrites r t) a.has_pool
        (λ _. record { tasks = w.tasks; next_task = w.next_task; turns = w.turns }) (λ _. w))

  pending : (b : Bool) (s : Router) → OnlyWrites r s → OnlyWrites r (if b then forget s else s)
  pending b s w =
      if_ind (λ (t : Router). OnlyWrites r t) b
        (λ _. record { tasks = w.tasks; next_task = w.next_task; turns = w.turns }) (λ _. w)

  handled :
      (loads : String → Option Value) (a : Answers) (s : Router)
      → OnlyWrites r s
      → OnlyWakes r (handle_content loads a q s).1
  unfolding handle_content serve
  handled loads a s w =
      let row = noted a s w in
      let after = pending a.pending_restored (write_notice_row a q.message s) row in
      rw notice (
        if_ind (λ (t : Response × Router). OnlyWakes r t.1) (may_finish_a_job loads q.message)
          (λ _. served _ a _ after) (λ _. unserved _ row))

  itself : OnlyWrites r r
  itself = record { tasks = refl; next_task = refl; turns = refl }

  either :
      (b : Bool) (t u : Response × Router)
      → OnlyWakes r t.1
      → OnlyWakes r u.1
      → OnlyWakes r (if b then t else u).1
  either true t u ht hu = ht
  either false t u ht hu = hu

  forgotten : OnlyWrites r (forget r)
  forgotten = record { tasks = refl; next_task = refl; turns = refl }

  restored :
      (error : Option String) (loads : String → Option Value) (a : Answers)
      → OnlyWakes r (handle_restored error loads a q r).1
  unfolding handle_restored
  restored (some detail) loads a = unserved r itself
  restored none loads a =
      either (q.message == "" && not (has_resume q.resume_payload)) (success, forget r)
        (handle_content loads a q (forget r)) (unserved (forget r) forgotten)
        (handled loads a (forget r) forgotten)

  notice-OnlyWakes :
      (loads : String → Option Value) (a : Answers) → OnlyWakes r (handle_message loads a q r).1
  unfolding handle_message
  notice-OnlyWakes loads a =
      either (q.workspace_id == "")
        (bad_request "workspace_id is required (set in POST body or WORKSPACE_ID env var)", r)
        (if q.restore_checkpoint_id == ""
          then handle_content loads a q r
          else handle_restored a.restore_error loads a q r)
        (unserved r itself)
        (either (q.restore_checkpoint_id == "") (handle_content loads a q r)
          (handle_restored a.restore_error loads a q r) (handled loads a r itself)
          (restored a.restore_error loads a))

-- A system notice never becomes a turn, whatever else its request asks for: the tasks of the session
-- are as they were, not one of them cancelled, no turn is run, and a task that is new only checks
-- whether the agent has something to report.
pub handle_message-OnlyWakes :
    (loads : String → Option Value) (a : Answers) (q : Request) (r : Router)
    → is_notice q ≡ true
    → IsLocked r
    → OnlyWakes r (handle_message loads a q r).1
handle_message-OnlyWakes loads a q r notice v = notice-OnlyWakes r v.unused q notice loads a

nothing_to_report :
    (has_pool : Bool) (runs : String → Option Fields) (unread : Option ℕ → Bool)
    (checkpoint : Saved)
    → has_pending_question checkpoint ≡ true
    → has_something_to_report has_pool runs unread checkpoint ≡ false
nothing_to_report has_pool runs unread checkpoint asked =
    ground (arith, asked, has_something_to_report-idle has_pool runs unread checkpoint)

-- While a question is open, a wake-up ends with its check: it runs no turn, says nothing, leaves the
-- publisher that the session has, gives the lock back, and calls for no other wake-up.
pub check-paused :
    (i : ℕ) (has_pool : Bool) (runs : String → Option Fields) (unread : Option ℕ → Bool)
    (checkpoint : Saved) (r : Router)
    → IsLocked r
    → (r.tasks i).stage ≡ checking
    → (r.tasks i).work ≡ wake
    → has_pending_question checkpoint ≡ true
    → let s = check i has_pool runs unread checkpoint r in
      (s.turns ≡ r.turns)
      × (s.effects ≡ r.effects)
      × (s.next_task ≡ r.next_task)
      × ((s.tasks i).stage ≡ done)
      × ((s.states (r.tasks i).owner).publisher ≡ (r.states (r.tasks i).owner).publisher)
      × ((s.states (r.tasks i).owner).holder ≡ none)
unfolding check finish end_task
check-paused i has_pool runs unread checkpoint r v e work asked =
    let quiet = nothing_to_report has_pool runs unread checkpoint asked in
    let held = v.held i (ground (arith, e)) in
    rw quiet (
      ground (arith, e, work),
      ground (arith, e, work, append-nil r.effects),
      ground (arith, e, work),
      ground (arith, e, work),
      ground (arith, e, work),
      ground (arith, e, work, held),
    )
