-- ===== src/Execution/World.antt =====
-- What the code of a turn acts on: the turn's state, the calls of its publisher, the tables, the
-- throttle of the reports and the reports sent. A computation returns or throws, and what it did
-- before it threw stays done. Each use of the world outside takes the next number of `ticks`.
pub mod Rules
use harness_runtime.Base.{
  ℕ, ◌+◌, String, Bool, true, false, Option, none, some, List, [], ◌∷◌, ◌++◌, if◌then◌else◌,
}
use harness_runtime.Value.{Value, Fields}
use harness_runtime.Value.Errors.{Result, ok, err, Error, raised}
use harness_runtime.Publisher.{Call}
use harness_runtime.Store.Chat as Chat
use harness_runtime.Store.Files as Files
use harness_runtime.Store.Stopped as Stopped
use harness_runtime.Reports.Throttle as Throttle
use harness_runtime.Execution.State.{ExecutionState}

-- A turn's arguments, and what it meets outside: whether the n-th statement to Postgres goes through,
-- the clock's n-th reading in milliseconds, the time since the turn began, the fresh ids (by the
-- number of the message), whether a report can be handed to its thread, and Python's `str`,
-- `json.dumps` and `int` on values that are no texts or numbers.
pub record Env : Type 0 where
  pub session_id : String
  pub model_name : String
  pub num_turns : ℕ
  pub has_pool : Bool
  pub up : ℕ → Bool
  pub now : ℕ → ℕ
  pub elapsed : ℕ → ℕ
  pub uuid : ℕ → ℕ → String
  pub sends : ℕ → Bool
  pub str_of : Value → String
  pub dumps : Value → String
  pub int_of : Value → Result ℕ
  pub error_text : Error → String

pub record World : Type 0 where
  pub state : ExecutionState
  pub calls : List Call
  pub chat : List Chat.ChatRow
  pub files : List Files.FileRow
  pub slots : Throttle.Slots
  pub reports : List String
  pub ticks : ℕ

-- `asyncio.CancelledError` is no `Exception`.
pub data Thrown : Type 0 where
  exception : Error → Thrown
  cancellation : Thrown

pub data Outcome (A : Type 0) : Type 0 where
  returned : A → Outcome A
  threw : Thrown → Outcome A

abbrev pub M : Type 0 → Type 0
M A = World → Outcome A × World

abbrev pub after : {A B : Type 0} → Outcome A × World → (A → M B) → Outcome B × World
after (returned a, w) f = f a w
after (threw t, w) f = (threw t, w)

infixl 5 ◌>>=◌ ◌>>◌
unfoldable pub ◌>>=◌ : {A B : Type 0} → M A → (A → M B) → M B
m >>= f = λ w. after (m w) f

abbrev pub ◌>>◌ : {A B : Type 0} → M A → M B → M B
m >> k = m >>= λ _. k

unfoldable pub pure : {A : Type 0} → A → M A
pure a = λ w. (returned a, w)

unfoldable pub throw : {A : Type 0} → Thrown → M A
throw t = λ w. (threw t, w)

unfoldable pub lift : {A : Type 0} → Result A → M A
lift (ok a) = λ w. (returned a, w)
lift (err e) = λ w. (threw (exception e), w)

unfoldable pub get_state : M ExecutionState
get_state = λ w. (returned w.state, w)

unfoldable pub change : (ExecutionState → ExecutionState) → M Unit
change f = λ w. (returned tt, record w { state = f w.state })

-- A call of the publisher, which does not raise (api/publisher.py).
unfoldable pub publish : Call → M Unit
publish c = λ w. (returned tt, record w { calls = w.calls ++ c ∷ [] })

unfoldable pub publish_all : List Call → M Unit
publish_all cs = λ w. (returned tt, record w { calls = w.calls ++ cs })

unfoldable pub tick : M ℕ
tick = λ w. (returned w.ticks, record w { ticks = w.ticks + 1 })

module _ (env : Env) where
  -- `write_chat_messages` on the session; the messages that it inserts.
  unfoldable pub store_messages : List Fields → ℕ → (source : String) → M (List Fields)
  store_messages ms offset source = λ w.
      let written =
        Chat.write_chat_messages (env.up w.ticks) env.session_id ms offset source none w.chat in
      (returned written.0, record w { chat = written.1; ticks = w.ticks + 1 })

  unfoldable pub store_files : Fields → M Unit
  store_files files = λ w. (
    returned tt,
    record w {
      files =
          Files.write_agent_output_files env.session_id w.state.workspace_id w.state.app_id
            (env.up w.ticks) files w.files;
      ticks = w.ticks + 1;
    },
  )

  -- `record_stopped_steps`: the SELECT, and a write for each source.
  unfoldable pub store_stopped : M Unit
  store_stopped = λ w. (
    returned tt,
    record w {
      chat =
          (Stopped.record_stopped_steps (env.up w.ticks) (λ source. env.up (w.ticks + 1))
            env.session_id w.chat).1;
      ticks = w.ticks + 2;
    },
  )

  unfoldable pub stamp : String → M Unit
  stamp checkpoint_id = λ w. (
    returned tt,
    record w {
      chat = Chat.stamp_checkpoint_id (env.up w.ticks) env.session_id checkpoint_id w.chat;
      ticks = w.ticks + 1;
    },
  )

  -- `post_as_sandbox`: the request runs on a thread of its own; the token's file may fail to be read.
  unfoldable pub post_as_sandbox : String → M Unit
  post_as_sandbox route = λ w. (
    if env.sends w.ticks then returned tt else threw (exception (raised "OSError")),
    record w {
      reports = if env.sends w.ticks then w.reports ++ route ∷ [] else w.reports;
      ticks = w.ticks + 1;
    },
  )

  -- A step of the throttle at the clock's next reading, and the report that it calls for.
  unfoldable pub throttled : (ℕ → Throttle.Slots → Bool × Throttle.Slots) → M Bool
  throttled step = λ w.
      let next = step (env.now w.ticks) w.slots in
      (returned next.0, record w { slots = next.1; ticks = w.ticks + 1 })

  unfoldable pub report_if : (ℕ → Throttle.Slots → Bool × Throttle.Slots) → M Unit
  unfolding throttled post_as_sandbox
  report_if step = do
    sends ← throttled step
    if sends then post_as_sandbox "/internal/chat/files-changed" else pure tt
