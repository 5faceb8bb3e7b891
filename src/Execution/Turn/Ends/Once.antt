-- ===== src/Execution/Turn/Ends/Once.antt =====
-- async_execute of core/execution/executor.py: how often a turn ends.
use harness_runtime.Base.{
  String, Bool, true, false, ◌≡◌, ◌≢◌, refl, Option, List, [], ◌∷◌, ◌++◌, if◌then◌else◌,
}
use harness_runtime.Value.{Value, null, dict, Fields}
use harness_runtime.Value.Errors.{ok, err}
use harness_runtime.Publisher.{Call, ResultArgs, Outcome, completed, publish_turn_end}
use harness_runtime.Execution.State.{Event, from_raw, ExecutionState}
use harness_runtime.Execution.World as World
use harness_runtime.Execution.World.{
  Env, M, after, Thrown, exception, cancellation, ◌>>=◌, pure, throw, lift, get_state, change,
  publish, publish_all, tick, report_if, throttled, post_as_sandbox, store_stopped, stamp,
}
use harness_runtime.Execution.World.Rules.{
  Rule, keep_pure, keep_if, keep_get_state, Leads, if-Leads, keep-Leads, pure-Leads, throw-Leads,
}
use harness_runtime.Execution.Handlers.{
  Handler, lifecycle_handler, subagent_message_handler, subagent_values_handler,
  subagent_lifecycle_handler, subagent_tools_handler, root_message_handler, root_tools_handler,
  root_values_handler, handle, dispatch, process_v3_event, handler_chain,
}
use harness_runtime.Execution.Handlers.Kept.{IsRelay, handle-Kept, record_values-Kept}
use harness_runtime.Execution.Handlers.Values.{
  handle_root_values, on_root_values, stop_on, publish_interrupt, record_values,
}
use harness_runtime.Execution.Turn.{run_events}
use harness_runtime.Execution.Turn.Ends.{AllBody, TurnEnd, Speaking, speaking, handle-GoesOn}

-- The calls end once, with this outcome and a result of this subtype.
pub record Ended (subtype : String) (outcome : Outcome) (calls : List Call) : Type 0 where
  pub args : ResultArgs
  pub named : args.subtype ≡ subtype
  pub turn_end : TurnEnd outcome args calls

pub ending :
    (outcome : Outcome) (error : Option String) (args : ResultArgs) (calls : List Call)
    → AllBody calls
    → Ended args.subtype outcome (calls ++ publish_turn_end outcome error args)
ending outcome error args calls h = record {
  args = args;
  named = refl;
  turn_end = record { body = calls; error = error; all_body = h; ended = refl };
}

-- Of a handler's run: it stopped the turn with its end, or the turn has no end yet.
abbrev pub Handled : World.Outcome Bool × World.World → Type 0
Handled (World.returned true, w) = AllBody w.calls
Handled (World.returned false, w) = Ended "interrupted" completed w.calls
Handled (World.threw t, w) = AllBody w.calls

of_relay :
    (r : World.Outcome Bool × World.World)
    → AllBody r.1.calls
    → r.0 ≢ World.returned false
    → Handled r
of_relay (World.returned true, w) h goes = h
of_relay (World.returned false, w) h goes = absurd (goes refl)
of_relay (World.threw t, w) h goes = h

-- Of the end that an interrupt brings.
abbrev Stopped : World.Outcome Unit × World.World → Type 0
Stopped (World.returned a, w) = Ended "interrupted" completed w.calls
Stopped (World.threw t, w) = AllBody w.calls

module _ (env : Env) where
  rule : Rule env Speaking
  rule = speaking env

  end_then_change :
      (error : Option String) (args : ResultArgs) (f : ExecutionState → ExecutionState)
      → args.subtype ≡ "interrupted"
      → Leads Speaking Stopped
          (publish_all (publish_turn_end completed error args) >>= λ _. change f)
  unfolding publish_all change ◌>>=◌
  end_then_change error args f named = record {
    leads = λ w h. rw (← named) (ending completed error args w.calls h);
  }

  interrupt-Stopped : (is : List Value) → Leads Speaking Stopped (publish_interrupt env is)
  unfolding publish_interrupt
  interrupt-Stopped is =
      keep-Leads (λ w t h. h) keep_get_state
        (λ s.
          keep-Leads (λ w t h. h) (rule.changed _)
            (λ a.
              keep-Leads (λ w t h. h) (keep_if _ (keep_pure tt) (rule.published _ tt))
                (λ b. keep-Leads (λ w t h. h) rule.ticked (λ n. end_then_change _ _ _ refl))))

  then-Handled :
      (r : World.Outcome Unit × World.World) → Stopped r → Handled (after r (λ _. pure false))
  unfolding pure
  then-Handled (World.returned tt, w) h = h
  then-Handled (World.threw t, w) h = h

  stop-Handled :
      (interrupts : List Value) (r : World.Outcome Unit × World.World)
      → AllBody r.1.calls
      → Handled (after r (λ _. stop_on env interrupts))
  stop-Handled interrupts (World.threw t, w) h = h
  stop-Handled [] (World.returned tt, w) h = unfold stop_on pure in h
  stop-Handled (i ∷ is) (World.returned tt, w) h =
      unfold stop_on ◌>>=◌ in
      then-Handled (publish_interrupt env (i ∷ is) w) ((interrupt-Stopped (i ∷ is)).leads w h)

  root_values-Handled :
      (interrupts : List Value) (v : Value) (w : World.World)
      → AllBody w.calls
      → Handled (on_root_values env interrupts v w)
  unfolding on_root_values ◌>>=◌ pure
  root_values-Handled interrupts (dict event) w h =
      stop-Handled interrupts (record_values env event w)
        ((record_values-Kept (speaking env) event).kept w h)
  root_values-Handled interrupts null w h = h
  root_values-Handled interrupts v w h = h

  relay-Handled : (k : Handler) (e : Event) → IsRelay k → Leads Speaking Handled (handle env k e)
  relay-Handled k e relay = record {
    leads = λ w h.
        of_relay (handle env k e w) ((handle-Kept rule k e relay).kept w h)
          ((handle-GoesOn env k e relay).goes w);
  }

  handle-Handled : (k : Handler) (e : Event) → Leads Speaking Handled (handle env k e)
  handle-Handled lifecycle_handler e = relay-Handled lifecycle_handler e tt
  handle-Handled subagent_message_handler e = relay-Handled subagent_message_handler e tt
  handle-Handled subagent_values_handler e = relay-Handled subagent_values_handler e tt
  handle-Handled subagent_lifecycle_handler e = relay-Handled subagent_lifecycle_handler e tt
  handle-Handled subagent_tools_handler e = relay-Handled subagent_tools_handler e tt
  handle-Handled root_message_handler e = relay-Handled root_message_handler e tt
  handle-Handled root_tools_handler e = relay-Handled root_tools_handler e tt
  handle-Handled root_values_handler e =
      unfold handle handle_root_values in
      record { leads = λ w h. root_values-Handled e.interrupts e.payload w h }

  dispatch-Handled : (ks : List Handler) (e : Event) → Leads Speaking Handled (dispatch env ks e)
  unfolding dispatch
  dispatch-Handled [] e = if-Leads _ (pure-Leads true (λ w h. h)) (throw-Leads _ (λ w h. h))
  dispatch-Handled (k ∷ ks) e = if-Leads _ (handle-Handled k e) (dispatch-Handled ks e)

  process-Handled :
      (raw : Fields) (w : World.World) → AllBody w.calls → Handled (process_v3_event env raw w)
  unfolding process_v3_event ◌>>=◌
  process-Handled raw w h =
      elim (from_raw raw) as (λ r. Handled (after (lift r w) (dispatch env handler_chain))) [
        | ok e ↦ unfold lift in (dispatch-Handled handler_chain e).leads w h
        | err x ↦ unfold lift in h
      ]

  next-Handled :
      (rest : M Bool) (r : World.Outcome Bool × World.World)
      → Handled r
      → ((v : World.World) → AllBody v.calls → Handled (rest v))
      → Handled (after r (λ goes_on. if goes_on then rest else pure false))
  next-Handled rest (World.returned true, v) k go = go v k
  next-Handled rest (World.returned false, v) k go = unfold pure in k
  next-Handled rest (World.threw t, v) k go = k

  pub run_events-Handled :
      (events : List Value) (w : World.World) → AllBody w.calls → Handled (run_events env events w)
  unfolding run_events ◌>>=◌
  run_events-Handled [] w h = unfold pure in h
  run_events-Handled (dict raw ∷ events) w h =
      next-Handled (run_events env events) (process_v3_event env raw w) (process-Handled raw w h)
        (λ v k. run_events-Handled events v k)
  run_events-Handled (null ∷ events) w h = run_events-Handled events w h
  run_events-Handled (_ ∷ events) w h = run_events-Handled events w h
