-- ===== src/Router/Samples.antt =====
-- A session that gets a message while a turn runs, one that is restored meanwhile, and a notice on an
-- open question.
use harness_runtime.Base.{ℕ, String, true, false, ◌≡◌, refl, Option, none, some, [], ◌∷◌}
use harness_runtime.Value.{truthy, Value, str, field, end, list_of}
use harness_runtime.Execution.Resume.{Saved, saved, has_pending_question}
use harness_runtime.Router.{Router, start, turn, working, attaching, waiting, done, holds}
use harness_runtime.Router.Messages.{
  Request, Answers, handle_message, handle_content, handle_restored, serve, serve_with, serve_new,
  build, reuse, schedule, create_task, schedule_wake, cancel_session,
}
use harness_runtime.Router.Turns.{
  begin, acquire, attached, finish, end_task, completed, cancelled, grant, check,
}
use harness_runtime.Router.Steps.{serves, begins, here, next, Reach}
use harness_runtime.Router.Lock.Reached.{turns_exclusive, Reach-IsLocked}
use harness_runtime.Router.Queue.Progress.{LockReached, turn_gets_lock}
use harness_runtime.Router.Notices.{OnlyWakes, handle_message-OnlyWakes, check-paused}

abbrev loads : String → Option Value
loads s = none

abbrev answers : Answers
answers = record {
  has_pool = false;
  up = true;
  restore_error = none;
  pending_restored = false;
  failure = none;
}

abbrev asks : String → Request
asks message = record {
  message = message;
  role = "user";
  attachments = [];
  resume_payload = none;
  restore_checkpoint_id = "";
  workspace_id = "w";
}

abbrev new : Router
new = start "s" []

abbrev says : String → Router → Router
says message r = (handle_message loads answers (asks message) r).1

-- A turn at work, and one that waits for it.
abbrev two_turns : Router
two_turns = begin 1 (says "two" (attached 0 0 (begin 0 (says "one" new))))

test_waits : (two_turns.tasks 1).stage ≡ waiting (some 1)
unfolding begin acquire attached handle_message handle_content serve serve_with serve_new build
    reuse schedule create_task
test_waits = refl

-- The second turn is cancelled, and then the wake-up that its end calls for.
abbrev cancelled_twice : Router
cancelled_twice = begin 2 (cancel_session (finish 1 cancelled (cancel_session two_turns).1)).1

-- The turn at work is left, and can no longer be cancelled.
test_not_cancelled :
    ((cancel_session cancelled_twice).0 ≡ false)
    × ((cancelled_twice.tasks 0).stage ≡ working 0)
    × ((cancelled_twice.tasks 0).cancelled ≡ false)
unfolding begin acquire attached handle_message handle_content serve serve_with serve_new build
    reuse schedule create_task cancel_session finish end_task schedule_wake
test_not_cancelled = (refl, refl, refl)

-- The session goes back to a checkpoint while a turn is at work, and gets a message.
abbrev restored : Router
restored = begin 1 (
    says "two"
      (handle_message loads answers (record (asks "") { restore_checkpoint_id = "c" })
        (begin 0 (says "one" new))).1)

-- Two turns of one session are at work.
test_restored : (holds (restored.tasks 0).stage ≡ true) × (holds (restored.tasks 1).stage ≡ true)
unfolding begin acquire handle_message handle_content handle_restored serve serve_with serve_new
    build reuse schedule create_task truthy
test_restored = (refl, refl)

-- Two messages are handled before the first turn is begun.
abbrev hasty : Router
hasty = begin 1 (begin 0 (says "two" (says "one" new)))

-- Both turns have the second publisher, which the first turn closes.
test_hasty : ((hasty.tasks 0).stage ≡ attaching 1) × ((hasty.tasks 1).stage ≡ waiting (some 1))
unfolding begin acquire handle_message handle_content serve serve_with serve_new build reuse
    schedule create_task
test_hasty = (refl, refl)

-- An explicit answer comes while a message waits for the turn before it.
abbrev answered_late : Router
answered_late = attached 1 1 (
    grant 1 (some 1) (
      finish 0 completed
        (handle_message loads answers (record (asks "") { resume_payload = some (str "yes") })
          two_turns).1))

-- The turn of the message takes the answer.
test_answered :
    answered_late.turns
    ≡ record { task = 0; publisher = 0; work = turn "one" "user" []; resume_payload = none }
      ∷ record {
        task = 1;
        publisher = 1;
        work = turn "two" "user" [];
        resume_payload = some (str "yes");
      }
      ∷ []
unfolding begin acquire attached handle_message handle_content serve serve_with serve_new build
    reuse schedule create_task finish end_task schedule_wake grant truthy
test_answered = refl

abbrev first_served : Router
first_served = (serve answers (asks "one") new).1

begun : Reach "s" [] (begin 0 first_served)
unfolding serve serve_with serve_new build schedule create_task
begun = next (next here (serves answers (asks "one"))) (begins 0 refl)

abbrev second_served : Router
second_served = (serve answers (asks "two") (begin 0 first_served)).1

waits : Reach "s" [] (begin 1 second_served)
unfolding serve serve_with serve_new build reuse schedule create_task begin acquire
waits = next (next begun (serves answers (asks "two"))) (begins 1 refl)

turns_exclusive_example : ◌≡◌ {A = ℕ} 0 0
unfolding serve serve_with serve_new build schedule create_task begin acquire
turns_exclusive_example = turns_exclusive begun 0 0 refl refl refl

turn_gets_lock_example : LockReached (begin 1 second_served) 1
unfolding serve serve_with serve_new build reuse schedule create_task begin acquire
turn_gets_lock_example = turn_gets_lock waits 1 refl refl

abbrev notice : Request
notice = record (asks "{}") { role = "system" }

handle_message-OnlyWakes_example :
    OnlyWakes (begin 0 first_served) (handle_message loads answers notice (begin 0 first_served)).1
handle_message-OnlyWakes_example =
    handle_message-OnlyWakes loads answers notice (begin 0 first_served) refl (Reach-IsLocked begun)

-- A task that was cancelled while it waited leaves the lock to others.
test_never_granted :
    let r = grant 1 (some 1) (finish 0 completed (cancel_session two_turns).1) in
    ((r.tasks 1).stage ≡ done) × ((r.states 0).holder ≡ none) × ((r.states 0).queue ≡ [])
unfolding begin acquire attached handle_message handle_content serve serve_with serve_new build
    reuse schedule create_task cancel_session finish end_task schedule_wake grant
test_never_granted = (refl, refl, refl)

-- A new session wakes its agent, whose question is open.
abbrev woken : Router
woken = begin 0 (serve answers notice new).1

checking_wake : Reach "s" [] woken
unfolding serve serve_with serve_new build schedule schedule_wake create_task
checking_wake = next (next here (serves answers notice)) (begins 0 refl)

abbrev paused : Saved
paused = saved (record {
  pending_writes = (str "t" ∷ str "__interrupt__" ∷ str "v" ∷ []) ∷ [];
  messages = list_of [];
  pending_jobs = "r1" ∷ [];
  computer_reports_seen = none;
})

check-paused_example :
    let s =
      check 0 true (λ id. some (field "status" (str "finished") end)) (λ seen. true) paused woken in
    (s.turns ≡ woken.turns)
    × (s.effects ≡ woken.effects)
    × (s.next_task ≡ woken.next_task)
    × ((s.tasks 0).stage ≡ done)
    × ((s.states (woken.tasks 0).owner).publisher ≡ (woken.states (woken.tasks 0).owner).publisher)
    × ((s.states (woken.tasks 0).owner).holder ≡ none)
unfolding serve serve_with serve_new build schedule schedule_wake create_task begin acquire
    has_pending_question
check-paused_example =
    check-paused 0 true (λ id. some (field "status" (str "finished") end)) (λ seen. true) paused
      woken (Reach-IsLocked checking_wake) refl refl refl
