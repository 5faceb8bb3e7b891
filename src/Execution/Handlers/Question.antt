-- ===== src/Execution/Handlers/Question.antt =====
-- A question of the graph reaches the client: RootValuesHandler of
-- core/execution/handlers/root_values_handler.py on an event with interrupts.
use harness_runtime.Base.{
  some, ℕ, String, Bool, true, false, ◌≡◌, none, List, [], ◌∷◌, ◌++◌, append_assoc, if◌then◌else◌,
  ◌==◌, arith,
}
use harness_runtime.Value.{null, end, str, object, field, lookup, Value, dict, Fields}
use harness_runtime.Publisher.{
  lifecycle_completed, result, Call, assistant, completed, publish_turn_end,
}
use harness_runtime.Execution.State.{Event}
use harness_runtime.Execution.World as World
use harness_runtime.Execution.World.{
  Env, M, after, ◌>>=◌, pure, get_state, change, publish, publish_all, tick,
}
use harness_runtime.Execution.Messages.{extract_interrupt_payload}
use harness_runtime.Execution.Handlers.Values.{
  on_root_values, handle_root_values, stop_on, publish_interrupt, record_values, interrupted_args,
}

-- What the agent had said, if anything, as its message.
abbrev pub said : String → List Call
said t =
    if t == ""
    then []
    else assistant "" (field "type" (str "text") (field "text" (str t) end) ∷ []) ∷ []

-- The turn stops in world `v`: after what it had said, its last two calls are the result that carries
-- the question and the end of the turn's life, and the turn's state is marked as interrupted.
pub record Asked (env : Env) (question : Value) (v : World.World)
    (r : World.Outcome Bool × World.World) : Type 0 where
  pub stops : r.0 ≡ World.returned false
  pub elapsed : ℕ
  pub calls :
      r.1.calls
      ≡ v.calls
        ++ said v.state.streamed_text
        ++ result (record {
          subtype = "interrupted";
          duration_ms = elapsed;
          is_error = false;
          num_turns = env.num_turns;
          result = if v.state.streamed_text == "" then none else some v.state.streamed_text;
          structured_response = null;
          files = end;
          interrupt = question;
        })
          ∷ lifecycle_completed
          ∷ []
  pub interrupted : r.1.state.interrupted ≡ true

interrupt-Asked :
    (env : Env) (class : String) (fs : Fields) (question : Value) (is : List Value)
    (v : World.World)
    → lookup "value" fs ≡ some question
    → Asked env question v (stop_on env (object class fs ∷ is) v)
unfolding stop_on publish_interrupt extract_interrupt_payload publish_turn_end ◌>>=◌ pure get_state
    change publish publish_all tick
interrupt-Asked env class fs question is v e = rw e (record {
  stops = ground arith;
  elapsed = env.elapsed v.ticks;
  calls = ground (
    arith,
    append_assoc v.calls (said v.state.streamed_text) (
        publish_turn_end completed none
          (interrupted_args env v.state.streamed_text (env.elapsed v.ticks) question)),
  );
  interrupted = ground arith;
})

-- An event of the root's values with an interrupt that carries a question, once its messages are
-- written and published and its files noted without an exception, stops the turn and ends it with
-- that question: what the agent had said in the turn, then a result of the subtype "interrupted",
-- no error, with the question and with what was said as its text, then the end of the turn's life,
-- and no other call. Of several interrupts it is the first whose question is asked.
pub handle_root_values-Asked :
    (env : Env) (e : Event) (event : Fields) (class : String) (fs : Fields) (question : Value)
    (is : List Value) (w v : World.World)
    → e.payload ≡ dict event
    → e.interrupts ≡ object class fs ∷ is
    → lookup "value" fs ≡ some question
    → record_values env event w ≡ (World.returned tt, v)
    → Asked env question v (handle_root_values env e w)
unfolding handle_root_values on_root_values ◌>>=◌
handle_root_values-Asked env e event class fs question is w v payload interrupts carried recorded =
    rw (payload, interrupts, recorded) (interrupt-Asked env class fs question is v carried)
