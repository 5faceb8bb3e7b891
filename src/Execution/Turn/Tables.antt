-- ===== src/Execution/Turn/Tables.antt =====
-- What a whole turn of core/execution/executor.py keeps of the tables that it writes.
use harness_runtime.Base.{String, true, false, none, List, [], ◌∷◌, ◌==◌, not, ◌&&◌}
use harness_runtime.Value.{Value, null, dict}
use harness_runtime.Publisher.{Call}
use harness_runtime.Store.Chat.Stamping.{
  IsSound, stamp_checkpoint_id-IsSound, write_chat_messages-IsSound,
}
use harness_runtime.Store.Stopped.Kept.{record_stopped_steps-IsSound}
use harness_runtime.Store.Files.Upsert.{IsKeyed, write_agent_output_files-IsKeyed}
use harness_runtime.Execution.State.{Event}
use harness_runtime.Execution.World as World
use harness_runtime.Execution.World.{
  Env, M, after, Thrown, exception, cancellation, ◌>>=◌, publish, publish_all, tick, store_stopped,
  stamp,
}
use harness_runtime.Execution.World.Rules.{
  Keeps, Rule, keep_pure, keep_lift, keep_bind, keep_if, keep_get_state, keep_throw, keep_report_if,
}
use harness_runtime.Execution.Handlers.{
  Handler, lifecycle_handler, root_values_handler, handle, dispatch, process_v3_event,
  handler_chain,
}
use harness_runtime.Execution.Handlers.Kept.{handle-Kept, record_values-Kept}
use harness_runtime.Execution.Handlers.Values.{
  handle_root_values, on_root_values, stop_on, publish_interrupt,
}
use harness_runtime.Execution.Turn.{
  Turn, Wait, passes, fails, is_cancelled, Snapshot, cancelled_read, unreadable, no_checkpoint,
  checkpoint_id, wait, tolerant, handle_initial_setup, run_events, report_end, publish_success,
  publish_failure, stamp_turn_checkpoint, run_turn, finish_turn, on_thrown, caught, async_execute,
}

-- All that a turn does.
record TurnRule (env : Env) (P : World.World → Type 0) : Type 0 where
  parts : Rule env P
  ended : (cs : List Call) → Keeps P (publish_all cs)
  stopped : Keeps P (store_stopped env)
  stamps : (id : String) → Keeps P (stamp env id)

module _ {env : Env} {P : World.World → Type 0} (rule : TurnRule env P) where
  open rule use {parts, ended, stopped, stamps}

  then_Kept : {A B : Type 0} {m : M A} {n : M B} → Keeps P m → Keeps P n → Keeps P (m >>= λ _. n)
  then_Kept h k = keep_bind h (λ _. k)

  interrupt-Kept : (is : List Value) → Keeps P (publish_interrupt env is)
  unfolding publish_interrupt
  interrupt-Kept is = keep_bind keep_get_state (λ s. then_Kept (parts.changed _) (
      then_Kept (keep_if _ (keep_pure tt) (parts.published _ tt))
        (keep_bind parts.ticked (λ n. then_Kept (ended _) (parts.changed _)))))

  stop-Kept : (is : List Value) → Keeps P (stop_on env is)
  unfolding stop_on
  stop-Kept [] = keep_pure true
  stop-Kept (i ∷ is) = then_Kept (interrupt-Kept (i ∷ is)) (keep_pure false)

  root_values-Kept : (is : List Value) (v : Value) → Keeps P (on_root_values env is v)
  unfolding on_root_values
  root_values-Kept is (dict event) = then_Kept (record_values-Kept parts event) (stop-Kept is)
  root_values-Kept is null = keep_pure true
  root_values-Kept is v = keep_pure true

  handle_any-Kept : (k : Handler) (e : Event) → Keeps P (handle env k e)
  handle_any-Kept root_values_handler e =
      unfold handle handle_root_values in root_values-Kept e.interrupts e.payload
  handle_any-Kept lifecycle_handler e = handle-Kept parts lifecycle_handler e tt
  handle_any-Kept k e = handle-Kept parts k e tt

  dispatch-Kept : (ks : List Handler) (e : Event) → Keeps P (dispatch env ks e)
  unfolding dispatch
  dispatch-Kept [] e = keep_if _ (keep_pure true) (keep_throw _)
  dispatch-Kept (k ∷ ks) e = keep_if _ (handle_any-Kept k e) (dispatch-Kept ks e)

  run_events-Kept : (events : List Value) → Keeps P (run_events env events)
  unfolding run_events process_v3_event
  run_events-Kept [] = keep_pure true
  run_events-Kept (dict raw ∷ events) =
      keep_bind (keep_bind (keep_lift _) (dispatch-Kept handler_chain))
        (λ goes_on. keep_if goes_on (run_events-Kept events) (keep_pure false))
  run_events-Kept (null ∷ events) = run_events-Kept events
  run_events-Kept (v ∷ events) = run_events-Kept events

  wait-Kept : (x : Wait) → Keeps P (wait x)
  unfolding wait
  wait-Kept passes = keep_pure tt
  wait-Kept (fails e) = keep_throw _
  wait-Kept is_cancelled = keep_throw _

  report_end-Kept : Keeps P (report_end env)
  unfolding report_end
  report_end-Kept = keep_bind keep_get_state (λ s.
      then_Kept
        (keep_if s.unanswered_question (parts.posted _)
          (keep_if s.replied (parts.posted _) (keep_pure tt)))
        (keep_report_if _ parts))

  stamp-Kept : (snapshot : Snapshot) → Keeps P (stamp_turn_checkpoint env snapshot)
  unfolding stamp_turn_checkpoint
  stamp-Kept (checkpoint_id id) =
      keep_if (env.has_pool && not (id == "")) (stamps id) (keep_pure tt)
  stamp-Kept cancelled_read = keep_if env.has_pool (keep_throw _) (keep_pure tt)
  stamp-Kept unreadable = keep_pure tt
  stamp-Kept no_checkpoint = keep_pure tt

  success-Kept : Keeps P (publish_success env)
  unfolding publish_success
  success-Kept = keep_bind parts.ticked (λ n. keep_bind keep_get_state (λ s.
      then_Kept (keep_if (s.streamed_text == "") (keep_pure tt) (parts.published _ tt))
        (then_Kept (parts.published _ tt) (then_Kept (ended _) (keep_pure _)))))

  thrown-Kept : (t : Thrown) → Keeps P (on_thrown env t)
  unfolding on_thrown publish_failure
  thrown-Kept cancellation =
      then_Kept (keep_if env.has_pool stopped (keep_pure tt)) (then_Kept (ended _) (keep_throw _))
  thrown-Kept (exception e) =
      keep_bind parts.ticked
        (λ n. then_Kept (parts.published _ tt) (then_Kept (ended _) (keep_pure "")))

  turn-Kept : (turn : Turn) → Keeps P (run_turn env turn)
  unfolding run_turn finish_turn handle_initial_setup
  turn-Kept turn =
      then_Kept
        (keep_bind (keep_lift _) (λ tools. then_Kept (parts.published _ tt) (parts.published _ tt)))
        (then_Kept (wait-Kept turn.starts) (
          keep_bind (run_events-Kept turn.events) (λ drained.
            keep_if drained
              (then_Kept (wait-Kept turn.ends) (
                then_Kept (wait-Kept (tolerant turn.stall_check)) (
                  then_Kept report_end-Kept (
                    keep_bind success-Kept
                      (λ final. then_Kept (stamp-Kept turn.snapshot) (keep_pure final))))))
              (then_Kept report_end-Kept (keep_pure "")))))

  caught-Kept : (r : World.Outcome String × World.World) → P r.1 → P (caught env r).1
  caught-Kept (World.returned text, w) h = h
  caught-Kept (World.threw t, w) h = (thrown-Kept t).kept w h

-- The tables of a session are well formed.
abbrev pub IsWellFormed : String → World.World → Type 0
IsWellFormed session_id w = IsSound session_id w.chat × IsKeyed w.files

well_formed : (env : Env) → TurnRule env (IsWellFormed env.session_id)
unfolding World.change World.tick publish publish_all World.store_messages World.store_files
    World.post_as_sandbox World.throttled store_stopped stamp
well_formed env = record {
  parts = record {
    changed = λ f. record { kept = λ w h. h };
    ticked = record { kept = λ w h. h };
    published = λ c body. record { kept = λ w h. h };
    stored_messages = λ ms n s. record {
      kept = λ w h.
          (write_chat_messages-IsSound (env.up w.ticks) env.session_id ms n s none w.chat h.0, h.1);
    };
    stored_files = λ fs. record {
      kept = λ w h. (
        h.0,
        write_agent_output_files-IsKeyed env.session_id w.state.workspace_id w.state.app_id
            (env.up w.ticks) fs w.files h.1,
      );
    };
    posted = λ route. record { kept = λ w h. h };
    throttles = λ step. record { kept = λ w h. h };
  };
  ended = λ cs. record { kept = λ w h. h };
  stopped = record {
    kept = λ w h. (record_stopped_steps-IsSound (env.up w.ticks) _ env.session_id w.chat h.0, h.1);
  };
  stamps = λ id. record {
    kept = λ w h. (
      stamp_checkpoint_id-IsSound (env.up w.ticks) env.session_id id env.session_id w.chat h.0,
      h.1,
    );
  };
}

-- A turn, whatever its events and however it ends, a cancelled or failed one included, keeps the
-- tables well formed: the rows of its session are numbered in order without a repetition, no message
-- stands twice in a session, and no file twice in a scope.
pub async_execute-IsWellFormed :
    (env : Env) (turn : Turn) (w : World.World)
    → IsWellFormed env.session_id w
    → IsWellFormed env.session_id (async_execute env turn w).1
unfolding async_execute
async_execute-IsWellFormed env turn w h =
    caught-Kept (well_formed env) (run_turn env turn w)
      ((turn-Kept (well_formed env) turn).kept w h)
