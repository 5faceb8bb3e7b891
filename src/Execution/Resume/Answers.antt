-- ===== src/Execution/Resume/Answers.antt =====
-- What the choice of a turn's input in core/execution/executor.py makes of an open question, and of a
-- graph that waits for no answer.
use harness_runtime.Base.{
  ℕ, String, Bool, true, false, ◌≡◌, refl, Option, none, some, List, [], ◌∷◌, arith, ◌==◌,
}
use harness_runtime.Value.{Value, Fields}
use harness_runtime.Execution.Resume.{
  Checkpoint, Saved, no_checkpointer, unreadable, no_checkpoint, saved, latest_user_text,
  has_pending_question, has_something_to_report, respond, resume_from_pending_interrupt,
  orphaned_ids, tool_messages, new_turn, resume, decisions_of, resume_by, decide, resume_by_payload,
  build_resume_input,
}

from_pending_interrupt-asked :
    (c : Checkpoint) (input : Fields)
    → has_pending_question (saved c) ≡ true
    → (latest_user_text input == "") ≡ false
    → resume_from_pending_interrupt (saved c) input ≡ some (respond (latest_user_text input))
unfolding resume_from_pending_interrupt
from_pending_interrupt-asked c input asked solid = rw (solid, asked) refl

decide-asked :
    (c : Checkpoint) (input : Fields) (payload : Value) (ds : List Value)
    → has_pending_question (saved c) ≡ true
    → decide (saved c) input payload ds
      ≡ resume_by (tool_messages ds (orphaned_ids c.messages)) payload
unfolding decide
decide-asked c input payload ds asked = rw asked refl

-- While a question is open, a message with a text and without an explicit answer is taken as the
-- answer: the graph is resumed with it, never started anew.
pub build_resume_input-answers :
    (c : Checkpoint) (input : Fields)
    → has_pending_question (saved c) ≡ true
    → (latest_user_text input == "") ≡ false
    → let payload = respond (latest_user_text input) in
      build_resume_input (saved c) input none
      ≡ resume_by (tool_messages (decisions_of payload) (orphaned_ids c.messages)) payload
unfolding build_resume_input resume_by_payload
build_resume_input-answers c input asked solid =
    let payload = respond (latest_user_text input) in
    rw (from_pending_interrupt-asked c input asked solid, build_resume_input)
      (decide-asked c input payload (decisions_of payload) asked)

-- Whether an explicit answer, if there is one, holds a decision.
abbrev pub is_decided : Option Value → Bool
is_decided none = true
is_decided (some payload) = elim (decisions_of payload) [ [] ↦ false | d ∷ ds ↦ true ]

decided-new :
    (c : Checkpoint) (input : Fields) (payload : Value) (ds : List Value)
    → has_pending_question (saved c) ≡ false
    → elim ds [ [] ↦ false | d ∷ rest ↦ true ] ≡ true
    → elim ds [ [] ↦ resume payload | d ∷ rest ↦ decide (saved c) input payload (d ∷ rest) ]
      ≡ new_turn input
unfolding decide
decided-new c input payload [] closed h = cc
decided-new c input payload (d ∷ ds) closed h = rw closed refl

-- On a graph that waits for no answer, a message, with decisions or without an explicit answer, starts
-- a turn: a finished graph is never resumed, which would do nothing.
build_resume_input-finished :
    (c : Checkpoint) (input : Fields) (resume_payload : Option Value)
    → has_pending_question (saved c) ≡ false
    → is_decided resume_payload ≡ true
    → build_resume_input (saved c) input resume_payload ≡ new_turn input
unfolding build_resume_input resume_from_pending_interrupt resume_by_payload
build_resume_input-finished c input none closed decided = ground (arith, closed)
build_resume_input-finished c input (some payload) closed decided =
    decided-new c input payload (decisions_of payload) closed decided

-- A session with something to report waits for no answer, so a notice on it cancels no question.
pub has_something_to_report-idle :
    (has_pool : Bool) (runs : String → Option Fields) (unread : Option ℕ → Bool)
    (checkpoint : Saved)
    → has_something_to_report has_pool runs unread checkpoint ≡ true
    → has_pending_question checkpoint ≡ false
unfolding has_something_to_report has_pending_question
has_something_to_report-idle has_pool runs unread (saved c) h = ground (arith, h)
has_something_to_report-idle has_pool runs unread no_checkpointer h = refl
has_something_to_report-idle has_pool runs unread unreadable h = refl
has_something_to_report-idle has_pool runs unread no_checkpoint h = refl
